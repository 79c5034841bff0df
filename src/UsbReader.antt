-- ===== src/UsbReader.antt =====
-- twili/bridge/usb/RequestReader.cpp less the completions of transfers: the command that the console
-- takes off USB, and the buffers that it posts, with what `PostBufferAsync` says of them. What the
-- handler of a command does is a parameter. Buffers are the lists of the bytes that they hold, as
-- `Buffer.Queue` has them. The log is left out, and the exceptions that nothing under `try` throws.
pub mod Objects
mod Tests
use twili.Base.{Bool, List, [], false, if◌then◌else◌, ltb, sub64, true, u32_at, ℕ, ◌++◌, ◌==◌, ◌∷◌}
use twili.Protocol.{header_size, ids_size, object_count, payload_size}
use twili.Messages.{twili_result}

-- What the flush of a handler does: it leaves some bytes, or throws for want of memory; before
-- that, its response may have begun.
pub data Flushed : Type 0 where
  leaves out_of_memory : (has_begun : Bool) → List ℕ → Flushed

-- The handlers of commands: whether `OpenRequest` has answered by itself, and whether it returns a
-- handler other than the discarding one; the flush; and what the end leaves in the payload buffer;
-- and the code of libtransistor for a want of memory.
pub record Handlers : Type 0 where
  pub open_request : List ℕ → Bool × Bool
  pub flush : List ℕ → Flushed
  pub finish : List ℕ → List ℕ
  pub memory_code : ℕ

-- `objects` are the ids of the bridge's objects; a pointer is whether it is set, and
-- `has_handler` whether the current handler is not the discarding one.
pub record Reader : Type 0 where
  pub objects : List ℕ
  pub current_header : List ℕ
  pub received : ℕ
  pub payload_buffer : List ℕ
  pub object_ids : List ℕ
  pub has_state : Bool
  pub has_object : Bool
  pub has_handler : Bool

pub data Event : Type 0 where
  resets_interface : Event
  posts_meta posts_data posts_ids : ℕ → Event
  opens flushes finalizes : List ℕ → Event
  responds : ℕ → Event
  ends_object : Event

pub data Result : Type 0 where
  ran : Reader → List Event → Result
  null_pointer : Result

abbrev pub buffer_size : ℕ
buffer_size = 65536

abbrev pub object_id : List ℕ → ℕ
object_id mh = u32_at mh 4

abbrev pub command_id : List ℕ → ℕ
command_id mh = u32_at mh 8

unfoldable pub reset_handler : Reader → Reader
reset_handler r = record r { has_state = false; has_handler = false }

-- A post of a buffer, or the reset where it is refused.
abbrev pub post : Bool → Event → List Event
post true e = e ∷ []
post false e = resets_interface ∷ []

unfoldable pub post_meta_buffer : Bool → List Event
post_meta_buffer accepts = post accepts (posts_meta header_size)

abbrev pub remaining : Reader → ℕ
remaining r = sub64 (payload_size r.current_header) r.received

unfoldable pub post_data_buffer : Bool → Reader → List Event
post_data_buffer accepts r =
    post accepts (posts_data (if ltb (remaining r) buffer_size then remaining r else buffer_size))

unfoldable pub post_object_buffer : Bool → Reader → List Event
post_object_buffer accepts r =
    if ltb buffer_size (ids_size r.current_header)
    then resets_interface ∷ []
    else post accepts (posts_ids (ids_size r.current_header))

-- The reader's own responses: the header's transfer resets the handler.
abbrev pub respond : ℕ → Reader → Reader × List Event
respond code r = (reset_handler r, responds code ∷ [])

unfoldable pub has : ℕ → List ℕ → Bool
has id [] = false
has id (x ∷ xs) = if id == x then true else has id xs

unfoldable pub without : ℕ → List ℕ → List ℕ
without id [] = []
without id (x ∷ xs) = if id == x then without id xs else x ∷ without id xs

-- The loop that leaves object 0 only.
unfoldable pub only_zero : List ℕ → List ℕ
only_zero [] = []
only_zero (x ∷ xs) = if x == 0 then x ∷ only_zero xs else only_zero xs

abbrev pub close_object : ℕ → List ℕ → List ℕ
close_object id objects = if id == 0 then only_zero objects else without id objects

abbrev pub opened : Bool × Bool → Reader → Reader
opened (true, handles) r = record (reset_handler r) { has_object = true; has_handler = handles }
opened (false, handles) r = record r { has_object = true; has_handler = handles }

unfoldable pub begin_processing_command : Handlers → Reader → Reader × List Event
begin_processing_command h r =
    let r' = record r { has_state = true } in
    if has (object_id r.current_header) r.objects
    then (if command_id r.current_header == 0xffffffff
        then respond 0 (record r' { objects = close_object (object_id r.current_header) r.objects })
        else (opened (h.open_request r.current_header) r', opens r.current_header ∷ []))
    else respond (twili_result 1001) r'

abbrev pub end_object : Bool → List Event
end_object true = ends_object ∷ []
end_object false = []

unfoldable pub cleanup_command : Reader → Reader × List Event
cleanup_command r = (reset_handler (record r { has_object = false }), end_object r.has_object)

abbrev pub finish_by : Handlers → Bool → Reader → Reader × List Event
finish_by h true r =
    (record r { payload_buffer = h.finish r.payload_buffer }, finalizes r.payload_buffer ∷ [])
finish_by h false r = (record r { payload_buffer = [] }, [])

abbrev pub then_do : Reader × List Event → (Reader → Reader × List Event) → Reader × List Event
then_do (r, before) next = let (r', after) = next r in (r', before ++ after)

unfoldable pub finalize_command : Handlers → Reader → Reader × List Event
finalize_command h r = then_do (finish_by h r.has_handler r) cleanup_command

-- What follows a header or a part of the payload: more payload, the object ids, or the end.
unfoldable pub go_on : Handlers → Bool → Reader → Reader × List Event
go_on h accepts r =
    if ltb r.received (payload_size r.current_header)
    then (r, post_data_buffer accepts r)
    else if ltb 0 (object_count r.current_header)
    then (r, post_object_buffer accepts r)
    else finalize_command h r
