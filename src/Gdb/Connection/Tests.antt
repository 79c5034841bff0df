-- ===== src/Gdb/Connection/Tests.antt =====
-- Runs of the GDB connection, and its theorems at concrete inputs.
use twili.Base.{List, [], arith, false, length, refl, some, true, ℕ, ◌*◌, ◌++◌, ◌+◌, ◌∷◌, ◌≡◌, ◌≢◌}
use twili.Gdb.Hex.{
  decode_hex_byte, decode_hex_nybble, encode_from, encode_hex_nybble, encode_number,
}
use twili.Gdb.Connection.{
  Connection, escape, frame, is_special, message, process, respond, sum8, turn, waiting_packet_open,
  widened,
}
use twili.Gdb.Connection.Escapes.{escaped_grows}
use twili.Gdb.Connection.Framing.{process-frame, received}
use twili.Gdb.Connection.Output.{respond-process}

abbrev fresh : Connection
fresh = record {
  state = waiting_packet_open;
  message_buffer = [];
  checksum = 0;
  checksum_hex_0 = 0;
  checksum_hex_1 = 0;
  ack_enabled = true;
  error_flag = false;
  sent = [];
}

-- `$OK#9a`
ok_frame : frame (b'O' ∷ b'K' ∷ []) ≡ b'$' ∷ b'O' ∷ b'K' ∷ b'#' ∷ b'9' ∷ b'a' ∷ []
unfolding frame escape is_special sum8 encode_number encode_from encode_hex_nybble
ok_frame = refl

star_is_widened : (process fresh (frame (b'*' ∷ []))).0 ≡ message (b'*' ∷ 0 ∷ 0 ∷ 0 ∷ [])
unfolding frame escape is_special sum8 encode_number encode_from encode_hex_nybble process turn
    widened decode_hex_byte decode_hex_nybble
star_is_widened = refl

escaped_grows_example :
    (m : List ℕ) × ((process fresh (frame (b'*' ∷ []) ++ [])).0 ≡ message m)
    × (length m ≡ 1 + 3 * 1)
    × (m ≢ b'*' ∷ [])
unfolding is_special
escaped_grows_example = escaped_grows fresh (b'*' ∷ []) [] refl (omega arith)

process-frame_example :
    let r = process fresh (frame (b'g' ∷ []) ++ []) in
    (r.0 ≡ message (received (b'g' ∷ [])))
    × (r.1.sent ≡ b'+' ∷ [])
    × (r.1.state ≡ waiting_packet_open)
    × (r.1.error_flag ≡ false)
    × (r.2 ≡ [])
process-frame_example = process-frame fresh (b'g' ∷ []) [] refl

respond-process_example :
    ((respond fresh [] [] (some 1 ∷ some 2 ∷ some 9 ∷ some 9 ∷ [])).1 ≡ [])
    × ((respond fresh [] [] (some 1 ∷ some 2 ∷ some 9 ∷ some 9 ∷ [])).0.sent ≡ [] ++ frame [])
    × ((process fresh (frame [] ++ [])).0 ≡ message (received []))
    × ((process fresh (frame [] ++ [])).2 ≡ [])
unfolding frame escape sum8 encode_number encode_from
respond-process_example =
    respond-process fresh fresh [] [] (some 1 ∷ some 2 ∷ some 9 ∷ some 9 ∷ []) (omega arith)
      (omega arith) refl
