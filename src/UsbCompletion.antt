-- ===== src/UsbCompletion.antt =====
-- twili/bridge/usb/RequestReader.cpp, the completions of transfers: a handler gets the entry of the
-- report that `FindReport` picks, with the bytes in the transfer buffer.
pub mod Payload
pub mod Memory
mod Tests
use twili.Base.{
  Bool, List, [], add64, drop, false, if◌then◌else◌, ltb, of_le32, suc, take, true, zero, ℕ, ◌++◌,
  ◌==◌, ◌∷◌,
}
use twili.Protocol.{header_size, ids_size, object_count, payload_size}
use twili.UsbReader.{
  Event, Flushed, Handlers, Reader, Result, begin_processing_command, cleanup_command,
  finalize_command, flushes, go_on, leaves, null_pointer, out_of_memory, post_meta_buffer, ran,
  reset_handler, resets_interface, respond, then_do,
}

-- An entry of a report: its status, the size that was transferred, and the transfer buffer.
pub record Report : Type 0 where
  pub urb_status : ℕ
  pub transferred_size : ℕ
  pub buffer : List ℕ

abbrev pub begun : Handlers → Bool → List ℕ → Reader → Reader × List Event
begun h accepts mh r =
    then_do
      (begin_processing_command h (
        reset_handler
          (record r { current_header = mh; received = 0; object_ids = []; payload_buffer = [] })))
      (go_on h accepts)

unfoldable pub metadata_transaction_completed :
    Handlers → Bool → Report → Reader → Reader × List Event
metadata_transaction_completed h accepts entry r =
    if entry.urb_status == 3
    then (if entry.transferred_size == 0
        then (r, [])
        else if entry.transferred_size == header_size
        then begun h accepts (take header_size entry.buffer) r
        else (r, resets_interface ∷ []))
    else (r, resets_interface ∷ [])

-- The callback on the completion of a header, which posts the buffer for the next one.
unfoldable pub meta_completed : Handlers → Bool → Bool → Report → Reader → Reader × List Event
meta_completed h accepts accepts_meta entry r =
    then_do (metadata_transaction_completed h accepts entry r)
      (λ r'. (r', post_meta_buffer accepts_meta))

-- The `object_count` ids in the transfer buffer.
unfoldable pub read_ids : ℕ → List ℕ → List ℕ
read_ids zero buffer = []
read_ids (suc n) buffer = of_le32 (take 4 buffer) ∷ read_ids n (drop 4 buffer)

unfoldable pub ids_completed : Handlers → Report → Reader → Reader × List Event
ids_completed h entry r =
    if entry.urb_status == 3
    then (if entry.transferred_size == ids_size r.current_header
        then finalize_command h (record r {
          object_ids = r.object_ids ++ read_ids (object_count r.current_header) entry.buffer;
        })
        else (r, resets_interface ∷ []))
    else (r, resets_interface ∷ [])

abbrev pub begun_in : Bool → Reader → Reader
begun_in true r = reset_handler r
begun_in false r = r

-- `if(!current_state->has_begun)`: a response that has begun has taken the state away.
abbrev pub memory_error : Handlers → Bool → Bool → Reader → Result
memory_error h accepts false r = null_pointer
memory_error h accepts true r =
    let (r', events) =
      then_do (then_do (respond h.memory_code r) cleanup_command) (go_on h accepts) in
    ran r' events

abbrev pub with_events : List Event → Result → Result
with_events events (ran r more) = ran r (events ++ more)
with_events events null_pointer = null_pointer

abbrev pub after_flush : Handlers → Bool → List Event → Flushed → Reader → Result
after_flush h accepts events (leaves has_begun rest) r =
    let (r', more) = go_on h accepts (begun_in has_begun (record r { payload_buffer = rest })) in
    ran r' (events ++ more)
after_flush h accepts events (out_of_memory has_begun rest) r =
    let r' = begun_in has_begun (record r { payload_buffer = rest }) in
    with_events events (memory_error h accepts r'.has_state r')

abbrev pub flush_by : Handlers → Bool → Bool → Reader → Result
flush_by h accepts true r =
    after_flush h accepts (flushes r.payload_buffer ∷ []) (h.flush r.payload_buffer) r
flush_by h accepts false r = after_flush h accepts [] (leaves false []) r

abbrev pub with_data : Handlers → Bool → Report → Reader → Result
with_data h accepts entry r = flush_by h accepts r.has_handler (record r {
  received = add64 r.received entry.transferred_size;
  payload_buffer = r.payload_buffer ++ take entry.transferred_size entry.buffer;
})

abbrev pub ran_as : Reader × List Event → Result
ran_as (r, events) = ran r events

unfoldable pub data_transaction_completed : Handlers → Bool → Report → Reader → Result
data_transaction_completed h accepts entry r =
    if r.received == payload_size r.current_header
    then ran_as (ids_completed h entry r)
    else if entry.urb_status == 3
    then (if ltb (payload_size r.current_header) (add64 r.received entry.transferred_size)
        then ran r (resets_interface ∷ [])
        else with_data h accepts entry r)
    else ran r (resets_interface ∷ [])
