-- ===== src/Gdb/Hex.antt =====
-- twib/tool/GdbConnection.cpp: hex digits, numbers and bytes. A `char` is its bit pattern, below
-- 256. A packet is the list of the bytes that its buffer holds, the queue of `Buffer.Queue`.
pub mod Digits
pub mod Numbers
mod Tests
use twili.Base.{
  List, [], bit_or, false, if◌then◌else◌, leb, ltb, not, suc, true, zero, ℕ, ◌%◌, ◌&&◌, ◌*◌, ◌+◌,
  ◌-◌, ◌/◌, ◌==◌, ◌^◌, ◌||◌, ◌∷◌,
}

-- An invalid digit counts as 0 (the code logs it).
unfoldable pub decode_hex_nybble : ℕ → ℕ
decode_hex_nybble n =
    if leb b'0' n && leb n b'9'
    then n - b'0'
    else if leb b'a' n && leb n b'f'
    then n - b'a' + 0xa
    else if leb b'A' n && leb n b'F'
    then n - b'A' + 0xa
    else 0

unfoldable pub decode_hex_byte : ℕ → ℕ → ℕ
decode_hex_byte h0 h1 = bit_or (decode_hex_nybble h0 * 16) (decode_hex_nybble h1) % 256

unfoldable pub encode_hex_nybble : ℕ → ℕ
encode_hex_nybble n = if ltb n 0xa then b'0' + n else b'a' + n - 0xa

-- `out <<= 4; out |= nybble` on a `uint64_t`.
unfoldable pub shift_in : ℕ → ℕ → ℕ
shift_in out c = bit_or (out * 16 % 2 ^ 64) (decode_hex_nybble c)

-- The loop of `Decode(uint64_t &, util::Buffer &)`, which consumes the packet.
unfoldable pub decode_from : ℕ → List ℕ → ℕ
decode_from out [] = out
decode_from out (c ∷ packet) = decode_from (shift_in out c) packet

unfoldable pub decode_number : List ℕ → ℕ
decode_number packet = decode_from 0 packet

-- The loop of `DecodeWithSeparator`: the number, and the packet behind the separator.
unfoldable pub decode_until : ℕ → ℕ → List ℕ → ℕ × List ℕ
decode_until sep out [] = (out, [])
decode_until sep out (c ∷ packet) = elim (c == sep) [
  | true ↦ (out, packet)
  | false ↦ decode_until sep (shift_in out c) packet
]

unfoldable pub decode_with_separator : ℕ → List ℕ → ℕ × List ℕ
decode_with_separator sep packet = decode_until sep 0 packet

-- `Decode(std::vector<uint8_t> &, util::Buffer &)`; a last odd digit is dropped.
unfoldable pub decode_bytes : List ℕ → List ℕ
decode_bytes [] = []
decode_bytes (h0 ∷ []) = []
decode_bytes (h0 ∷ h1 ∷ packet) =
    bit_or (decode_hex_nybble h0 * 16 % 256) (decode_hex_nybble h1) ∷ decode_bytes packet

-- The loop of `Encode(uint64_t, size_t, util::Buffer &)` from `bit_offset = 8 * k` on.
unfoldable pub encode_from : ℕ → ℕ → ℕ → List ℕ
encode_from n size zero = []
encode_from n size (suc k) =
    let rest = encode_from n size k in
    if not (size == 0) || not (n / 2 ^ (8 * k) % 256 == 0)
    then encode_hex_nybble (n / 2 ^ (8 * k) / 16 % 16)
      ∷ encode_hex_nybble (n / 2 ^ (8 * k) % 16)
      ∷ rest
    else rest

unfoldable pub encode_number : ℕ → ℕ → List ℕ
encode_number n size = encode_from n size (if size == 0 then 8 else size)

-- `Encode(uint8_t *, size_t, util::Buffer &)`
unfoldable pub encode_bytes : List ℕ → List ℕ
encode_bytes [] = []
encode_bytes (n ∷ p) = encode_hex_nybble (n / 16 % 16) ∷ encode_hex_nybble (n % 16) ∷ encode_bytes p
