-- ===== src/UsbCompletion/Memory.antt =====
-- A handler that runs out of memory, and the sizes through all completions.
use twili.Base.{
  Bool, List, [], add64, ap, arith, false, ltb, refl, take, true, ℕ, ◌++◌, ◌==◌, ◌∙◌, ◌∷◌, ◌≡◌, ◌≢◌,
  ◌≤◌,
}
use twili.Protocol.{payload_size}
use twili.UsbReader.{Handlers, Reader, flushes, null_pointer, out_of_memory, reset_handler}
use twili.UsbCompletion.{Report, after_flush, data_transaction_completed, flush_by, with_data}

-- The payload is not over: the next completion on the data endpoint is a part of it.
abbrev pub Misses : Reader → Report → Type 0
Misses r entry =
    (entry.urb_status ≡ 3)
    × (r.received ≢ payload_size r.current_header)
    × (add64 r.received entry.transferred_size ≤ payload_size r.current_header)

abbrev pub payload_with : Reader → Report → List ℕ
payload_with r entry = r.payload_buffer ++ take entry.transferred_size entry.buffer

data_lem :
    (h : Handlers) (accepts : Bool) (r : Reader) (entry : Report)
    → Misses r entry
    → data_transaction_completed h accepts entry r ≡ with_data h accepts entry r
unfolding data_transaction_completed
data_lem h accepts r entry (done, more, fits) =
    let a : (r.received == payload_size r.current_header) ≡ false = ground (arith, more) in
    let b : (entry.urb_status == 3) ≡ true = ground (arith, done) in
    let c : ltb (payload_size r.current_header) (add64 r.received entry.transferred_size) ≡ false =
      ground (arith, fits) in
    rw (a, b, c) refl

-- A handler that runs out of memory when its response has begun: the reader looks into the state
-- that the response's header has taken away.
pub data_transaction_completed-out_of_memory :
    (h : Handlers) (accepts : Bool) (r : Reader) (entry : Report) (rest : List ℕ)
    → Misses r entry
    → r.has_handler ≡ true
    → h.flush (payload_with r entry) ≡ out_of_memory true rest
    → data_transaction_completed h accepts entry r ≡ null_pointer
unfolding reset_handler
data_transaction_completed-out_of_memory h accepts r entry rest m handled e =
    data_lem h accepts r entry m
    ∙ ap (λ b. flush_by h accepts b with_payload) handled
    ∙ ap (λ f. after_flush h accepts (flushes (payload_with r entry) ∷ []) f with_payload) e
  where
    with_payload : Reader
    with_payload = record r {
      received = add64 r.received entry.transferred_size;
      payload_buffer = payload_with r entry;
    }
