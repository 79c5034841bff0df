-- ===== src/Base/Words.antt =====
-- Arithmetic of `size_t` and `uint64_t` (64 bits), `uint32_t` and `uint8_t`.
use Prim.Native.Nat.{ℕ, ◌+◌, ◌-◌, ◌*◌, ◌/◌, ◌%◌, ◌^◌, ◌<◌, ◌≤◌}
use mathlib.Core.Path.{◌≡◌, ap, ◌∙◌}
use twili.Base.Lists.{drop, drop-drop, drop-take, take, take-take}
use mathlib.Core.List.{List, [], ◌∷◌, ◌++◌}
use native.Mathlib.Omega.{arith}

abbrev pub add64 : ℕ → ℕ → ℕ
add64 a b = (a + b) % 2 ^ 64

-- `-` on ℕ stops at 0, so the modulus is added first.
abbrev pub sub64 : ℕ → ℕ → ℕ
sub64 a b = (a + 2 ^ 64 - b) % 2 ^ 64

abbrev pub add32 : ℕ → ℕ → ℕ
add32 a b = (a + b) % 2 ^ 32

abbrev pub add8 : ℕ → ℕ → ℕ
add8 a b = (a + b) % 256

-- A `uint32_t` as it lies in memory, and back.
abbrev pub le32 : ℕ → List ℕ
le32 n = n % 256 ∷ n / 256 % 256 ∷ n / 65536 % 256 ∷ n / 16777216 % 256 ∷ []

abbrev pub of_le32 : List ℕ → ℕ
of_le32 (a ∷ b ∷ c ∷ d ∷ rest) = a + 256 * b + 65536 * c + 16777216 * d
of_le32 xs = 0

pub of_le32-le32 : (n : ℕ) → n < 2 ^ 32 → of_le32 (le32 n) ≡ n
of_le32-le32 n h = omega arith

-- A `uint64_t` as it lies in memory.
abbrev pub le64 : ℕ → List ℕ
le64 n = le32 n ++ le32 (n / 2 ^ 32)

-- The number in the four bytes from `i` on.
abbrev pub u32_at : List ℕ → ℕ → ℕ
u32_at bytes i = of_le32 (take 4 (drop i bytes))

-- A field of a structure that was read from a file, by its place in the file.
pub u32_at-take-drop :
    (bytes : List ℕ) (n begin i : ℕ)
    → i + 4 ≤ n
    → u32_at (take n (drop begin bytes)) i ≡ u32_at bytes (begin + i)
u32_at-take-drop bytes n begin i h = ap of_le32 (
    ap (take 4)
      (drop-take i n (drop begin bytes) (omega arith) ∙ ap (take (n - i)) (drop-drop begin i bytes))
    ∙ take-take 4 (n - i) (drop (begin + i) bytes) (omega arith))

-- A `uint64_t` in the eight bytes from `i` on.
abbrev pub u64_at : List ℕ → ℕ → ℕ
u64_at bytes i = u32_at bytes i + 2 ^ 32 * u32_at bytes (i + 4)

pub u64_at-le64 : (n : ℕ) → n < 2 ^ 64 → u64_at (le64 n) 0 ≡ n
u64_at-le64 n h = omega arith
