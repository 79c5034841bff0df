-- ===== src/Gdb/Connection.antt =====
-- twib/tool/GdbConnection.cpp: `Process`, which reads packets, and `Respond`, which frames them.
-- A buffer is the list of the bytes that it holds, the queue of `Buffer.Queue`. `char` is
-- signed, as on x86-64. What goes to the output file is appended to `sent`. The log is left out.
pub mod Framing
pub mod Escapes
pub mod Output
mod Tests
use twili.Base.{
  Bool, List, Option, [], add8, bit_xor, drop, false, if◌then◌else◌, ltb, none, not, some, take,
  true, ℕ, ◌%◌, ◌++◌, ◌==◌, ◌||◌, ◌∷◌,
}
use twili.Gdb.Hex.{decode_hex_byte, encode_bytes, encode_number}

pub data State : Type 0 where
  waiting_packet_open reading_packet_data escape_character checksum_0 checksum_1 : State

pub record Connection : Type 0 where
  pub state : State
  pub message_buffer : List ℕ
  pub checksum : ℕ
  pub checksum_hex_0 : ℕ
  pub checksum_hex_1 : ℕ
  pub ack_enabled : Bool
  pub error_flag : Bool
  pub sent : List ℕ

-- What `Process` returns: a null pointer, with or without `interrupted`, or the message buffer.
pub data Outcome : Type 0 where
  nothing interrupted : Outcome
  message : List ℕ → Outcome

-- One turn of the loop: it goes on, or returns.
pub data Turn : Type 0 where
  goes_on : Connection → Turn
  returns : Outcome → Connection → Turn

unfoldable pub signal_error : Connection → Connection
signal_error c = record c { error_flag = true }

unfoldable pub start_no_ack_mode : Connection → Connection
start_no_ack_mode c = record c { ack_enabled = false }

-- `message_buffer.Write(ch ^ 0x20)` writes the `int` that the operands are promoted to: four bytes,
-- lowest first.
unfoldable pub widened : ℕ → List ℕ
widened ch =
    let sign : ℕ = if ltb ch 128 then 0 else 0xff in bit_xor ch 0x20 ∷ sign ∷ sign ∷ sign ∷ []

-- The end of the second checksum digit's case.
unfoldable pub check : Connection → Turn
unfolding signal_error
check c =
    if decode_hex_byte c.checksum_hex_0 c.checksum_hex_1 == c.checksum
    then returns (message c.message_buffer)
        (record c { sent = if c.ack_enabled then c.sent ++ (b'+' ∷ []) else c.sent })
    else if c.ack_enabled
    then goes_on (record c { sent = c.sent ++ (b'-' ∷ []) })
    else returns nothing (signal_error c)

abbrev dispatch : State → Connection → ℕ → Turn
dispatch waiting_packet_open c ch =
    if ch == b'+'
    then goes_on c
    else if ch == 3
    then returns interrupted c
    else if not (ch == b'$')
    then returns nothing (signal_error c)
    else goes_on (record c { message_buffer = []; checksum = 0; state = reading_packet_data })
dispatch reading_packet_data c ch =
    if ch == b'#'
    then goes_on (record c { state = checksum_0 })
    else if ch == b'}'
    then goes_on (record c { checksum = add8 c.checksum ch; state = escape_character })
    else goes_on
        (record c { checksum = add8 c.checksum ch; message_buffer = c.message_buffer ++ (ch ∷ []) })
dispatch escape_character c ch = goes_on (record c {
  checksum = add8 c.checksum ch;
  message_buffer = c.message_buffer ++ widened ch;
  state = reading_packet_data;
})
dispatch checksum_0 c ch = goes_on (record c { checksum_hex_0 = ch; state = checksum_1 })
dispatch checksum_1 c ch = check (record c { checksum_hex_1 = ch; state = waiting_packet_open })

unfoldable pub turn : Connection → ℕ → Turn
unfolding check signal_error
turn c ch = dispatch c.state c ch

-- The loop over `in_buffer`, with what is left in it. The cases of the `elim` wait.
unfoldable pub process : Connection → List ℕ → Outcome × Connection × List ℕ
process c [] = (nothing, c, [])
process c (ch ∷ in_buffer) = elim (turn c ch) [
  | goes_on d ↦ process d in_buffer
  | returns o d ↦ (o, d, in_buffer)
]

-- `ch == '#' || ch == '$' || ch == '}' || ch == '*'`
unfoldable pub is_special : ℕ → Bool
is_special ch = ch == b'#' || ch == b'$' || ch == b'}' || ch == b'*'

-- The loop of `Respond`: what it writes to `out_buffer`, and the checksum.
unfoldable pub escape : List ℕ → List ℕ
unfolding is_special
escape [] = []
escape (ch ∷ buffer) =
    (if is_special ch then b'}' ∷ bit_xor ch 0x20 ∷ [] else ch ∷ []) ++ escape buffer

unfoldable pub sum8 : ℕ → List ℕ → ℕ
sum8 checksum [] = checksum
sum8 checksum (ch ∷ written) = sum8 (add8 checksum ch) written

-- The whole frame: `$`, the escaped bytes, `#` and the checksum of what was written between.
unfoldable pub frame : List ℕ → List ℕ
frame buffer = b'$' ∷ (escape buffer ++ (b'#' ∷ encode_number (sum8 0 (escape buffer)) 1))

-- The loop that writes `out_buffer` out. Each answer of `write` is a negative result (`none`) or a
-- number of bytes; the loop is stopped in the system call where the answers end.
unfoldable pub write_out : Connection → List ℕ → List (Option ℕ) → Connection × List ℕ
write_out c [] answers = (c, [])
write_out c (b ∷ out_buffer) [] = (c, b ∷ out_buffer)
write_out c (b ∷ out_buffer) (none ∷ answers) = (signal_error c, b ∷ out_buffer)
write_out c (b ∷ out_buffer) (some r ∷ answers) =
    write_out (record c { sent = c.sent ++ take r (b ∷ out_buffer) }) (drop r (b ∷ out_buffer))
      answers

-- `Respond`, on what an earlier failed call left in `out_buffer`.
unfoldable pub respond : Connection → List ℕ → List ℕ → List (Option ℕ) → Connection × List ℕ
respond c out_buffer buffer answers = write_out c (out_buffer ++ frame buffer) answers

-- `snprintf(resp, sizeof(resp), "E%02x", no & 0xff)`
unfoldable pub error_text : ℕ → List ℕ
error_text code = b'E' ∷ encode_bytes (code % 256 ∷ [])

unfoldable pub respond_error : Connection → List ℕ → ℕ → List (Option ℕ) → Connection × List ℕ
respond_error c out_buffer code answers = respond c out_buffer (error_text code) answers

unfoldable pub respond_ok : Connection → List ℕ → List (Option ℕ) → Connection × List ℕ
respond_ok c out_buffer answers = respond c out_buffer (b'O' ∷ b'K' ∷ []) answers

unfoldable pub respond_empty : Connection → List ℕ → List (Option ℕ) → Connection × List ℕ
respond_empty c out_buffer answers = respond c out_buffer [] answers
