-- ===== src/MessageConnection.antt =====
-- twib/common/MessageConnection.cpp and .hpp: messages of the protocol over a stream of bytes; and
-- SocketMessageConnection.cpp, which fills the input buffer. A header is the 32 bytes of its
-- structure (common/Protocol.hpp). `RequestInput`, which a subclass has, receives from the next
-- piece of the input, the bytes that are ready then, or fails where there is none; on a socket it
-- always fails, and the event loop calls `SignalRead`. The lock on the output and the log are left out.
pub mod Parse
pub mod Stages
pub mod Turn
pub mod Process
pub mod Loop
pub mod Session
pub mod Send
pub mod Output
mod Tests
use twili.Protocol.{header_size, ids_size, payload_size}
use twili.Base.{
  Bool, List, Option, [], drop, false, if◌then◌else◌, length, ltb, none, some, suc, take, true,
  zero, ℕ, ◌+◌, ◌∷◌,
}
use twili.Buffer.{
  Buffer, clear, fill, get_data, mark_read, read, read_available, read_into, reserve, write,
}

pub record Connection : Type 0 where
  pub in_buffer : Buffer
  pub out_buffer : Buffer
  pub mh : List ℕ
  pub payload : Buffer
  pub object_ids : Buffer
  pub has_current_mh : Bool
  pub has_current_payload : Bool
  pub error_flag : Bool

-- The body of the loop of `Process`: it returns the request, or has not enough input for it.
pub data Step : Type 0 where
  returns starves : Connection → Step

-- The object ids, with what `Read` of the input buffer into theirs has answered.
abbrev pub ids_with : Connection → Bool × Buffer × Buffer → Step
ids_with c (true, b, ids) = returns (record c {
  in_buffer = b;
  object_ids = ids;
  has_current_mh = false;
  has_current_payload = false;
})
ids_with c (false, b, ids) =
    starves (record c { in_buffer = (reserve b (ids_size c.mh)).1; object_ids = ids })

unfoldable pub take_ids : Connection → Step
take_ids c = ids_with c (read_into c.in_buffer c.object_ids (ids_size c.mh))

abbrev pub payload_with : Connection → Bool × Buffer × Buffer → Step
payload_with c (true, b, p) = take_ids (record c {
  in_buffer = b;
  payload = p;
  has_current_payload = true;
  object_ids = clear c.object_ids;
})
payload_with c (false, b, p) =
    starves (record c { in_buffer = (reserve b (payload_size c.mh)).1; payload = p })

-- The payload, by `has_current_payload`.
abbrev pub payload_in : Bool → Connection → Step
payload_in true c = take_ids c
payload_in false c = payload_with c (read_into c.in_buffer c.payload (payload_size c.mh))

abbrev pub header_with : Connection → Option (List ℕ) × Buffer → Step
header_with c (some mh, b) = payload_in false (record c {
  in_buffer = b;
  mh = mh;
  has_current_mh = true;
  payload = clear c.payload;
  has_current_payload = false;
})
header_with c (none, b) = starves (record c { in_buffer = (reserve b header_size).1 })

-- The header, by `has_current_mh`.
abbrev pub header_in : Bool → Connection → Step
header_in true c = payload_in c.has_current_payload c
header_in false c = header_with c (read c.in_buffer header_size)

unfoldable pub body : Connection → Step
body c = header_in c.has_current_mh c

-- `SignalRead` with the bytes that `Recv` has stored; none are an error or the end.
abbrev pub received : Connection → List ℕ → Connection
received c [] = record c { in_buffer = (reserve c.in_buffer 8192).1; error_flag = true }
received c (ch ∷ r) = record c { in_buffer = fill (reserve c.in_buffer 8192).1 (ch ∷ r) }

-- The space that `Recv` may fill, all that `Reserve` returns.
abbrev pub space : Connection → ℕ
space c = (reserve c.in_buffer 8192).0

-- `SignalRead` while the bytes of a piece are ready: `Recv` stores those that there is space for.
abbrev pub signal_read : Connection → List ℕ → Connection
signal_read c piece = received c (take (space c) piece)

-- The bytes that `Recv` has left are ready still.
abbrev pub with_left : List ℕ → List (List ℕ) → List (List ℕ)
with_left [] input = input
with_left (ch ∷ r) input = (ch ∷ r) ∷ input

abbrev pub request_input : Connection → List (List ℕ) → Option (Connection × List (List ℕ))
request_input c [] = none
request_input c (piece ∷ input) = some (signal_read c piece, with_left (drop (space c) piece) input)

-- The loop's condition.
abbrev pub has_input : Connection → List (List ℕ) → Option (Connection × List (List ℕ))
has_input c input =
    if ltb 0 (read_available c.in_buffer) then some (c, input) else request_input c input

-- What `Process` returns: whether there is a request, the connection, which holds it, and the
-- input that is left.
abbrev pub Processed : Type 0
Processed = Bool × Connection × List (List ℕ)

-- `if(RequestInput()) { continue; } return nullptr;`, with the next turn of the loop.
abbrev pub with_request :
    (Connection → List (List ℕ) → Processed)
    → Connection
    → List (List ℕ)
    → Option (Connection × List (List ℕ))
    → Processed
with_request next c input none = (false, c, input)
with_request next c input (some (d, input')) = next d input'

abbrev pub after_body : (Connection → List (List ℕ) → Processed) → List (List ℕ) → Step → Processed
after_body next input (returns d) = (true, d, input)
after_body next input (starves d) = with_request next d input (request_input d input)

abbrev pub with_input :
    (Connection → List (List ℕ) → Processed)
    → Connection
    → List (List ℕ)
    → Option (Connection × List (List ℕ))
    → Processed
with_input next c input none = (false, c, input)
with_input next c input (some (d, input')) = after_body next input' (body d)

unfoldable pub process_loop : ℕ → Connection → List (List ℕ) → Processed
process_loop zero c input = (false, c, input)
process_loop (suc fuel) c input = with_input (process_loop fuel) c input (has_input c input)

-- How many turns the input can feed: each takes a byte or ends a piece.
abbrev pub turns : List (List ℕ) → ℕ
turns [] = 0
turns (piece ∷ input) = suc (length piece) + turns input

-- `Process`. Every turn but the last receives.
unfoldable pub process : Connection → List (List ℕ) → Processed
process c input = process_loop (suc (turns input)) c input

-- `SendMessage`: the writes, each on an unlimited buffer, before `RequestOutput`.
unfoldable pub send_message : Connection → List ℕ → List ℕ → List ℕ → Connection
send_message c mh payload object_ids = record c {
  out_buffer = (write (write (write c.out_buffer mh).1 payload).1 object_ids).1;
}

-- `SignalWrite`, with what `Send` of the bytes that are pending answers: `none` is an error, and
-- otherwise so many bytes are taken. The bytes that have gone out are returned.
abbrev pub signal_write_with : Connection → Option ℕ → Connection × List ℕ
signal_write_with c none = (record c { error_flag = true }, [])
signal_write_with c (some r) =
    (record c { out_buffer = mark_read c.out_buffer r }, take r (get_data c.out_buffer))

unfoldable pub signal_write : Connection → Option ℕ → Connection × List ℕ
signal_write c answer =
    if ltb 0 (read_available c.out_buffer) then signal_write_with c answer else (c, [])
