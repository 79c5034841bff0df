-- ===== src/Base/Bits.antt =====
-- Laws of `bit_or` and `bit_xor` that the code's byte arithmetic needs.
use Prim.Native.Nat.{
  ℕ, zero, suc, ◌+◌, ◌*◌, ◌/◌, ◌%◌, ◌≤◌, ◌<◌, max, bit_or, bit_xor, digits, bit_or-bitwise,
}
use mathlib.Core.Path.{◌≡◌, refl, ap}
use mathlib.Core.Bool.{Bool, true, false}
use native.Mathlib.Omega.{arith}
use twili.Base.Tests.{==_iff, if◌then◌else◌, ltb, ltb→lt, ◌==◌}

-- A test of every byte, which is decided by evaluation.
unfoldable pub every_under : (ℕ → Bool) → ℕ → Bool
every_under test zero = true
every_under test (suc k) = if test k then every_under test k else false

pub every_under_lem :
    (test : ℕ → Bool) {k : ℕ} (b : ℕ) → b < k → every_under test k ≡ true → test b ≡ true
unfolding every_under
every_under_lem test {k = zero} b small passed = absurd (omega arith)
every_under_lem test {k = suc k} b small passed = ground (arith, every_under_lem test {k = k} b)

abbrev or_digits : ℕ → ℕ → ℕ → ℕ
or_digits n a b = digits (λ c. c) max n a b

or_digits_fuel : (n m a b : ℕ) → a ≤ n → a ≤ m → or_digits n a b ≡ or_digits m a b
or_digits_fuel zero zero a b p q = refl
or_digits_fuel zero (suc m) zero b p q = refl
or_digits_fuel zero (suc m) (suc a) b p q = absurd (omega arith)
or_digits_fuel (suc n) zero zero b p q = refl
or_digits_fuel (suc n) zero (suc a) b p q = absurd (omega arith)
or_digits_fuel (suc n) (suc m) zero b p q = refl
or_digits_fuel (suc n) (suc m) (suc a) b p q =
    omega (arith, or_digits_fuel n m (suc a / 2) (b / 2) (omega arith) (omega arith))

pub bit_or_halves : (a b : ℕ) → bit_or a b ≡ bit_or (a / 2) (b / 2) * 2 + max (a % 2) (b % 2)
bit_or_halves zero b = omega (arith, bit_or-bitwise 0 b, bit_or-bitwise 0 (b / 2))
bit_or_halves (suc a) b = omega (
  arith,
  bit_or-bitwise (suc a) b,
  bit_or-bitwise (suc a / 2) (b / 2),
  or_digits_fuel a (suc a / 2) (suc a / 2) (b / 2) (omega arith) (omega arith),
)

bit_or-zero_below : (n a : ℕ) → a ≤ n → bit_or a 0 ≡ a
bit_or-zero_below n zero h = refl
bit_or-zero_below zero (suc a) h = absurd (omega arith)
bit_or-zero_below (suc n) (suc a) h =
    omega (arith, bit_or_halves (suc a) 0, bit_or-zero_below n (suc a / 2) (omega arith))

-- Where the low four bits of one side are clear and the other side has no more, `|` adds.
pub bit_or_nybble : (x n : ℕ) → x % 16 ≡ 0 → n < 16 → bit_or x n ≡ x + n
bit_or_nybble x n e h = omega (
  arith,
  bit_or_halves x n,
  bit_or_halves (x / 2) (n / 2),
  bit_or_halves (x / 2 / 2) (n / 2 / 2),
  bit_or_halves (x / 2 / 2 / 2) (n / 2 / 2 / 2),
  top,
  bit_or-zero_below (x / 2 / 2 / 2 / 2) (x / 2 / 2 / 2 / 2) (omega arith),
)
  where
    top : bit_or (x / 2 / 2 / 2 / 2) (n / 2 / 2 / 2 / 2) ≡ bit_or (x / 2 / 2 / 2 / 2) 0
    top = ap (bit_or (x / 2 / 2 / 2 / 2)) (omega arith)

every_byte-twice : every_under (λ b. bit_xor (bit_xor b 0x20) 0x20 == b) 256 ≡ true
unfolding every_under
every_byte-twice = refl

-- The escape bit of a byte, set and taken back.
pub bit_xor_twice : (x : ℕ) → x < 256 → bit_xor (bit_xor x 0x20) 0x20 ≡ x
bit_xor_twice x h =
    (==_iff _ x).0
      (every_under_lem (λ b. bit_xor (bit_xor b 0x20) 0x20 == b) {k = 256} x h every_byte-twice)

every_byte-small : every_under (λ b. ltb (bit_xor b 0x20) 256) 256 ≡ true
unfolding every_under
every_byte-small = refl

pub bit_xor_small : (x : ℕ) → x < 256 → bit_xor x 0x20 < 256
bit_xor_small x h =
    ltb→lt _ 256 (every_under_lem (λ b. ltb (bit_xor b 0x20) 256) {k = 256} x h every_byte-small)
