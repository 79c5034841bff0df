-- ===== src/Buffer/Inv.antt =====
-- The representation invariant of `Buffer`, and the bytes that it holds through its operations.
use twili.Base.{
  Bool-cases, List, Option, add64, ap, append_assoc, arith, copy_at-zero, copy_at_lem, drop,
  drop-append, drop-take, inl, inr, length, length-append, length-copy_at, length-drop,
  length-replicate, length-take, none, refl, replicate, some, sub64, take, take-all, take-append,
  take-append_length, ℕ, ◌++◌, ◌+◌, ◌-◌, ◌<◌, ◌^◌, ◌≡◌, ◌≤◌,
}
use twili.Buffer.{Buffer, compact, compact_for, get_data, lacks_space, put, resize}

abbrev pub Within : Option ℕ → ℕ → Type 0
Within none n = n < 2 ^ 63
Within (some l) n = (n ≤ l) × (l < 2 ^ 63)

-- The heads are in order and inside the vector, which respects the limit. A vector has less than
-- 2^63 bytes.
pub record IsValid (b : Buffer) : Type 0 where
  pub ordered : b.read_head ≤ b.write_head
  pub inside : b.write_head ≤ length b.bytes
  pub within : Within b.limit (length b.bytes)
  pub small : length b.bytes < 2 ^ 63

pub length-get_data : {b : Buffer} → IsValid b → length (get_data b) ≡ b.write_head - b.read_head
unfolding get_data
length-get_data {b} v = omega (
  arith,
  length-take (b.write_head - b.read_head) (drop b.read_head b.bytes),
  length-drop b.read_head b.bytes,
)

pub length-resize : (n : ℕ) (v : List ℕ) → length (resize n v) ≡ n
unfolding resize
length-resize n v = omega (
  arith,
  length-append (take n v) (replicate (n - length v) 0),
  length-take n v,
  length-replicate {A = ℕ} (n - length v) 0,
)

pub length-compact : (b : Buffer) → length (compact b).bytes ≡ length b.bytes
unfolding compact
length-compact b = length-copy_at b.bytes 0 (drop b.read_head b.bytes)

pub compact-IsValid : {b : Buffer} → IsValid b → IsValid (compact b)
unfolding compact
compact-IsValid {b} v = record {
  ordered = omega arith;
  inside = omega (arith, length-copy_at b.bytes 0 (drop b.read_head b.bytes));
  within = rw (length-copy_at b.bytes 0 (drop b.read_head b.bytes)) v.within;
  small = omega (arith, length-copy_at b.bytes 0 (drop b.read_head b.bytes));
}

-- `Compact` keeps the pending bytes.
pub get_data-compact : {b : Buffer} → IsValid b → get_data (compact b) ≡ get_data b
unfolding get_data compact
get_data-compact {b} v =
    rw
      (
        copy_at-zero b.bytes (drop b.read_head b.bytes) shorter,
        take-append (sub64 b.write_head b.read_head - 0) (drop b.read_head b.bytes)
            (drop (length (drop b.read_head b.bytes)) b.bytes) fits,
      )
      (ap (λ k. take k (drop b.read_head b.bytes)) (omega arith))
  where
    shorter : length (drop b.read_head b.bytes) ≤ length b.bytes
    shorter = omega (arith, length-drop b.read_head b.bytes)

    fits : sub64 b.write_head b.read_head - 0 ≤ length (drop b.read_head b.bytes)
    fits = omega (arith, length-drop b.read_head b.bytes)

pub compact_for-IsValid : {b : Buffer} (n : ℕ) → IsValid b → IsValid (compact_for b n)
unfolding compact_for
compact_for-IsValid {b} n v = elim (Bool-cases (lacks_space b n)) [
  | inl e ↦ rw (e, compact_for) (compact-IsValid v)
  | inr e ↦ rw (e, compact_for) v
]

pub get_data-compact_for :
    {b : Buffer} (n : ℕ) → IsValid b → get_data (compact_for b n) ≡ get_data b
unfolding compact_for
get_data-compact_for {b} n v = elim (Bool-cases (lacks_space b n)) [
  | inl e ↦ rw (e, compact_for) (get_data-compact v)
  | inr e ↦ rw (e, compact_for) refl
]

-- A vector that grows keeps the pending bytes.
pub get_data-resize :
    {b : Buffer} (n : ℕ)
    → IsValid b
    → length b.bytes ≤ n
    → get_data (record b { bytes = resize n b.bytes }) ≡ get_data b
unfolding get_data resize
get_data-resize {b} n v h =
    rw
      (
        take-all n b.bytes h,
        drop-append b.read_head b.bytes (replicate (n - length b.bytes) 0) in_bytes,
      )
      (take-append (b.write_head - b.read_head) (drop b.read_head b.bytes) _ fits)
  where
    in_bytes : b.read_head ≤ length b.bytes
    in_bytes = omega arith

    fits : b.write_head - b.read_head ≤ length (drop b.read_head b.bytes)
    fits = omega (arith, length-drop b.read_head b.bytes)

-- A copy at the write head, with the head moved past it, appends.
pub get_data-put :
    {b : Buffer} (src : List ℕ)
    → IsValid b
    → b.write_head + length src ≤ length b.bytes
    → get_data (put b src) ≡ get_data b ++ src
unfolding get_data put
get_data-put {b} src v h =
    rw
      (
        copy_at_lem b.bytes b.write_head src h,
        drop-append b.read_head (take b.write_head b.bytes) rest in_head,
        drop-take b.read_head b.write_head b.bytes v.ordered,
        ← append_assoc (take (b.write_head - b.read_head) (drop b.read_head b.bytes)) src tail,
      )
      (take-append_length (add64 b.write_head (length src) - b.read_head) _ tail (
        omega (
          arith,
          length-append (take (b.write_head - b.read_head) (drop b.read_head b.bytes)) src,
          length-take (b.write_head - b.read_head) (drop b.read_head b.bytes),
          length-drop b.read_head b.bytes,
        )))
  where
    tail : List ℕ
    tail = drop (length src) (drop b.write_head b.bytes)

    rest : List ℕ
    rest = src ++ tail

    in_head : b.read_head ≤ length (take b.write_head b.bytes)
    in_head = omega (arith, length-take b.write_head b.bytes)

pub put-IsValid :
    {b : Buffer} (src : List ℕ)
    → IsValid b
    → b.write_head + length src ≤ length b.bytes
    → IsValid (put b src)
unfolding put
put-IsValid {b} src v h = record {
  ordered = omega arith;
  inside = omega (arith, length-copy_at b.bytes b.write_head src);
  within = rw (length-copy_at b.bytes b.write_head src) v.within;
  small = omega (arith, length-copy_at b.bytes b.write_head src);
}
