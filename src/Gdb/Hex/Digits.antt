-- ===== src/Gdb/Hex/Digits.antt =====
-- Hex digits and bytes, encoded and decoded.
use twili.Base.{
  All, List, [], ap, arith, bit_or_nybble, refl, ℕ, ◌%◌, ◌*◌, ◌++◌, ◌+◌, ◌/◌, ◌<◌, ◌^◌, ◌∷◌, ◌≡◌,
}
use twili.Gdb.Hex.{
  decode_bytes, decode_hex_byte, decode_hex_nybble, encode_bytes, encode_hex_nybble, shift_in,
}

pub decode_hex_nybble-small : (c : ℕ) → decode_hex_nybble c < 16
unfolding decode_hex_nybble
decode_hex_nybble-small c = ground arith

pub decode-encode_hex_nybble : (n : ℕ) → n < 16 → decode_hex_nybble (encode_hex_nybble n) ≡ n
unfolding decode_hex_nybble encode_hex_nybble
decode-encode_hex_nybble n h = ground arith

-- Two digits make a byte.
pub decode_hex_byte_lem :
    (n : ℕ)
    → n < 256
    → decode_hex_byte (encode_hex_nybble (n / 16 % 16)) (encode_hex_nybble (n % 16)) ≡ n
unfolding decode_hex_byte
decode_hex_byte_lem n h =
    rw
      (
        decode-encode_hex_nybble (n / 16 % 16) (omega arith),
        decode-encode_hex_nybble (n % 16) (omega arith),
        bit_or_nybble (n / 16 % 16 * 16) (n % 16) (omega arith) (omega arith),
      )
      (omega arith)

abbrev pub IsByte : ℕ → Type 0
IsByte b = b < 256

-- Any bytes, written in hex, are read back, also with other data behind them.
pub decode-encode_bytes :
    (p rest : List ℕ)
    → All IsByte p
    → decode_bytes (encode_bytes p ++ rest) ≡ p ++ decode_bytes rest
unfolding decode_bytes encode_bytes
decode-encode_bytes [] rest h = refl
decode-encode_bytes (n ∷ p) rest h =
    rw
      (
        decode-encode_hex_nybble (n / 16 % 16) (omega arith),
        decode-encode_hex_nybble (n % 16) (omega arith),
        bit_or_nybble (n / 16 % 16 * 16 % 256) (n % 16) (omega arith) (omega arith),
        decode-encode_bytes p rest h.1,
      )
      (ap (λ b. b ∷ (p ++ decode_bytes rest)) (omega arith))

-- `out <<= 4; out |= nybble` multiplies by 16 and adds, while that fits.
pub shift_in_lem :
    (out n : ℕ) → out * 16 < 2 ^ 64 → n < 16 → shift_in out (encode_hex_nybble n) ≡ out * 16 + n
unfolding shift_in
shift_in_lem out n h k =
    rw (decode-encode_hex_nybble n k, bit_or_nybble (out * 16 % 2 ^ 64) n (omega arith) k)
      (omega arith)
