-- ===== src/Gdb/Hex/Numbers.antt =====
-- Numbers in hex: round trips of `Encode` and `Decode`, with and without a size.
use native.Mathlib.Nat.{div-div-eq-div-mul, mul-div-mul_right, pow-suc}
use twili.Base.{
  ap, arith, false, inl, inr, suc, sym, true, zero, ℕ, ◌%◌, ◌*◌, ◌+◌, ◌/◌, ◌<◌, ◌==◌, ◌^◌, ◌∙◌, ◌≡◌,
  ◌≢◌, ◌≤◌, ◌⊎◌,
}
use twili.Gdb.Hex.{
  decode_from, decode_number, encode_from, encode_hex_nybble, encode_number, shift_in,
}
use twili.Gdb.Hex.Digits.{shift_in_lem}

pow_byte : (k : ℕ) → 2 ^ (8 * suc k) ≡ 2 ^ (8 * k) * 256
pow_byte k = ap (λ e. 2 ^ e) eight ∙ steps (8 * k)
  where
    eight : 8 * suc k ≡ suc (suc (suc (suc (suc (suc (suc (suc (8 * k))))))))
    eight = omega arith

    steps : (e : ℕ) → 2 ^ suc (suc (suc (suc (suc (suc (suc (suc e))))))) ≡ 2 ^ e * 256
    steps e = omega (
      arith,
      pow-suc 2 e,
      pow-suc 2 (suc e),
      pow-suc 2 (suc (suc e)),
      pow-suc 2 (suc (suc (suc e))),
      pow-suc 2 (suc (suc (suc (suc e)))),
      pow-suc 2 (suc (suc (suc (suc (suc e))))),
      pow-suc 2 (suc (suc (suc (suc (suc (suc e)))))),
      pow-suc 2 (suc (suc (suc (suc (suc (suc (suc e))))))),
    )

-- The next byte down is what a division by 256 takes off.
pub high_part : (n k : ℕ) → n / 2 ^ (8 * suc k) ≡ n / 2 ^ (8 * k) / 256
high_part n k = rw (pow_byte k) (sym (div-div-eq-div-mul n (2 ^ (8 * k)) 256))

div-le : (n d : ℕ) → n / d ≤ n
div-le n d = omega arith

-- One byte is read back: two digits take the number from `m / 256` to `m`.
shift_in_byte :
    (m : ℕ)
    → m < 2 ^ 64
    → shift_in (shift_in (m / 256) (encode_hex_nybble (m / 16 % 16))) (encode_hex_nybble (m % 16))
      ≡ m
shift_in_byte m h =
    rw
      (
        shift_in_lem (m / 256) (m / 16 % 16) (omega arith) (omega arith),
        shift_in_lem (m / 256 * 16 + m / 16 % 16) (m % 16) (omega arith) (omega arith),
      )
      (omega arith)

decode-encode_from :
    (n size k : ℕ)
    → n < 2 ^ 64
    → (size == 0) ≡ false
    → decode_from (n / 2 ^ (8 * k)) (encode_from n size k) ≡ n
unfolding decode_from encode_from
decode-encode_from n size zero h s = omega arith
decode-encode_from n size (suc k) h s =
    rw (s, high_part n k, shift_in_byte (n / 2 ^ (8 * k)) (omega (arith, div-le n (2 ^ (8 * k)))))
      (decode-encode_from n size k h s)

-- A number that fits the size given is read back.
pub decode-encode_number :
    (n size : ℕ)
    → 0 < size
    → n < 2 ^ 64
    → n / 2 ^ (8 * size) ≡ 0
    → decode_number (encode_number n size) ≡ n
unfolding decode_number encode_number
decode-encode_number n size p h e =
    let s : (size == 0) ≡ false = ground arith in
    rw s (rw e at (decode-encode_from n size size h s))

-- No byte is zero below a byte that is not.
abbrev pub IsDense : ℕ → ℕ → Type 0
IsDense n zero = Unit {0}
IsDense n (suc k) = ((n / 2 ^ (8 * k) ≡ 0) ⊎ (n / 2 ^ (8 * k) % 256 ≢ 0)) × IsDense n k

decode-encode_dense :
    (n k : ℕ) → n < 2 ^ 64 → IsDense n k → decode_from (n / 2 ^ (8 * k)) (encode_from n 0 k) ≡ n
unfolding decode_from encode_from
decode-encode_dense n zero h d = omega arith
decode-encode_dense n (suc k) h (inl z, d) =
    rw (high_part n k, z) (rw z at (decode-encode_dense n k h d))
decode-encode_dense n (suc k) h (inr z, d) =
    let e : (n / 2 ^ (8 * k) % 256 == 0) ≡ false = ground arith in
    rw (e, high_part n k, shift_in_byte (n / 2 ^ (8 * k)) (omega (arith, div-le n (2 ^ (8 * k)))))
      (decode-encode_dense n k h d)

-- With size 0 a number is read back if none of its bytes is zero below one that is not.
pub decode-encode_compact :
    (n : ℕ) → n < 2 ^ 64 → IsDense n 8 → decode_number (encode_number n 0) ≡ n
unfolding decode_number encode_number
decode-encode_compact n h d =
    let e : n / 2 ^ 64 ≡ 0 = omega arith in rw e at (decode-encode_dense n 8 h d)

encode_from-zero_byte : (m k : ℕ) → encode_from (m * 256) 0 (suc k) ≡ encode_from m 0 k
unfolding encode_from
encode_from-zero_byte m zero =
    let e : (m * 256 / 2 ^ (8 * 0) % 256 == 0) ≡ true = ground arith in rw e
encode_from-zero_byte m (suc k) = rw (
  pow_byte k,
  mul-div-mul_right {m = 256} m (2 ^ (8 * k)) (omega arith),
  encode_from-zero_byte m k,
)

encode_from-top : (m : ℕ) → m < 2 ^ 56 → encode_from m 0 8 ≡ encode_from m 0 7
unfolding encode_from
encode_from-top m h = let e : (m / 2 ^ (8 * 7) % 256 == 0) ≡ true = ground arith in rw e

-- With size 0 a zero byte at the end of a number is lost: the number and its 256th part are
-- written alike.
pub encode_number-zero_byte : (m : ℕ) → m < 2 ^ 56 → encode_number (m * 256) 0 ≡ encode_number m 0
unfolding encode_number
encode_number-zero_byte m h = encode_from-zero_byte m 7 ∙ sym (encode_from-top m h)
