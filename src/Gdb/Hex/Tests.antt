-- ===== src/Gdb/Hex/Tests.antt =====
-- Runs of the hex functions, and their theorems at concrete inputs.
use twili.Base.{[], refl, ◌∷◌, ◌≡◌}
use twili.Gdb.Hex.{
  decode_hex_nybble, decode_until, decode_with_separator, encode_from, encode_hex_nybble,
  encode_number, shift_in,
}

zero_bytes_are_skipped : encode_number 0x10200 0 ≡ b'0' ∷ b'1' ∷ b'0' ∷ b'2' ∷ []
unfolding encode_number encode_from encode_hex_nybble
zero_bytes_are_skipped = refl

separated : decode_with_separator b'.' (b'1' ∷ b'f' ∷ b'.' ∷ b'2' ∷ []) ≡ (0x1f, b'2' ∷ [])
unfolding decode_with_separator decode_until shift_in decode_hex_nybble
separated = refl
