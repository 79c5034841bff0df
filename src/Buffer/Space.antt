-- ===== src/Buffer/Space.antt =====
-- How `EnsureSpace` makes space.
use twili.Base.{
  Bool, Bool-cases, Option, add64, ap, arith, false, inl, inr, length, le→not_ltb, ltb→lt, none,
  refl, some, subst₂, true, ℕ, ◌+◌, ◌<◌, ◌^◌, ◌∙◌, ◌≡◌, ◌≤◌, ◌⊎◌,
}
use twili.Buffer.{
  Buffer, compact, compact_for, ensure_space, exceeds, get_data, grow_within, lacks_space, resize,
}
use twili.Buffer.Inv.{
  IsValid, Within, compact_for-IsValid, get_data-compact_for, get_data-resize, length-get_data,
  length-resize,
}

pub compact_for_head :
    (b : Buffer) (n : ℕ) → lacks_space (compact_for b n) n ≡ true → (compact_for b n).read_head ≡ 0
unfolding compact_for compact
compact_for_head b n h = elim (Bool-cases (lacks_space b n)) [
  | inl e ↦ rw (e, compact_for) refl
  | inr e ↦ let f : lacks_space b n ≡ true = rw (e, compact_for) at h in cc f
]

pub limit-compact_for : (b : Buffer) (n : ℕ) → (compact_for b n).limit ≡ b.limit
unfolding compact_for compact
limit-compact_for b n = ground arith

pub write_head-compact_for :
    {b : Buffer} (n : ℕ) → IsValid b → (compact_for b n).write_head ≤ b.write_head
unfolding compact_for compact
write_head-compact_for {b} n v = ground arith

pub Within-resize :
    (o : Option ℕ) (n : ℕ) → exceeds o n ≡ false → n < 2 ^ 63 → Within o 0 → Within o n
Within-resize none n e h w = h
Within-resize (some l) n e h w = (ground arith, w.1)

Within-zero : (o : Option ℕ) (n : ℕ) → Within o n → Within o 0
Within-zero none n w = omega arith
Within-zero (some l) n w = (omega arith, w.1)

pub resize-IsValid :
    {b : Buffer} (n : ℕ)
    → IsValid b
    → length b.bytes ≤ n
    → n < 2 ^ 63
    → exceeds b.limit n ≡ false
    → IsValid (record b { bytes = resize n b.bytes })
resize-IsValid {b} n v h s e = record {
  ordered = v.ordered;
  inside = omega (arith, length-resize n b.bytes);
  within =
      rw (length-resize n b.bytes) (Within-resize b.limit n e s (Within-zero b.limit _ v.within));
  small = omega (arith, length-resize n b.bytes);
}

-- What both space functions leave: the same bytes in a valid buffer under the same limit, and a
-- write head that has not moved forward.
pub record Keeps (b c : Buffer) : Type 0 where
  pub valid : IsValid c
  pub data_kept : get_data c ≡ get_data b
  pub limit_kept : c.limit ≡ b.limit
  pub head_kept : c.write_head ≤ b.write_head

abbrev pub HasRoom : Buffer → ℕ → Type 0
HasRoom b n = b.write_head + n ≤ length b.bytes

pub compact_for-Keeps : {b : Buffer} (n : ℕ) → IsValid b → Keeps b (compact_for b n)
compact_for-Keeps {b} n v = record {
  valid = compact_for-IsValid n v;
  data_kept = get_data-compact_for n v;
  limit_kept = limit-compact_for b n;
  head_kept = write_head-compact_for n v;
}

pub Keeps-trans : {b c d : Buffer} → Keeps b c → Keeps c d → Keeps b d
Keeps-trans k l = record {
  valid = l.valid;
  data_kept = l.data_kept ∙ k.data_kept;
  limit_kept = l.limit_kept ∙ k.limit_kept;
  head_kept = omega (arith, k.head_kept, l.head_kept);
}

-- Either there is room, or the limit is exceeded by the bytes that are held and asked for.
abbrev pub Outcome : Option ℕ → ℕ → Buffer → ℕ → Bool → Type 0
Outcome o held c n done =
    ((done ≡ true) × HasRoom c n × (exceeds o (held + n) ≡ false))
    ⊎ ((done ≡ false) × (exceeds o (held + n) ≡ true))

Outcome-along :
    {o p : Option ℕ} {g h : ℕ}
    → o ≡ p
    → g ≡ h
    → (c : Buffer) (n : ℕ) (done : Bool) → Outcome o g c n done
    → Outcome p h c n done
Outcome-along p q c n done = subst₂ (λ o g. Outcome o g c n done) p q

pub exceeds-Within : (o : Option ℕ) (m n : ℕ) → Within o m → n ≤ m → exceeds o n ≡ false
exceeds-Within none m n w h = refl
exceeds-Within (some l) m n w h = le→not_ltb l n (omega arith)

room-Outcome :
    {b : Buffer} (n : ℕ) → IsValid b → HasRoom b n → Outcome b.limit (length (get_data b)) b n true
room-Outcome {b} n v r =
    inl (refl, r, exceeds-Within b.limit _ _ v.within (omega (arith, length-get_data v)))

grow_within_lem :
    {b : Buffer} (n : ℕ)
    → IsValid b
    → b.write_head + n < 2 ^ 63
    → (lacks_space b n ≡ true → b.read_head ≡ 0)
    → Keeps b (grow_within b n).1
      × Outcome b.limit (length (get_data b)) (grow_within b n).1 n (grow_within b n).0
unfolding grow_within
grow_within_lem {b} n v s z = elim (Bool-cases (lacks_space b n)) [
  | inr e ↦ rw (e, grow_within) (Keeps-refl, room-Outcome n v (ground arith))
  | inl e ↦ elim (Bool-cases (exceeds b.limit (add64 b.write_head n))) [
    | inl f ↦ rw (e, f, grow_within) (Keeps-refl, inr (refl, rw (total e) at f))
    | inr f ↦ rw (e, f, grow_within) (grown e f, inl (refl, fits, rw (total e) at f))
  ]
]
  where
    Keeps-refl : Keeps b b
    Keeps-refl = record { valid = v; data_kept = refl; limit_kept = refl; head_kept = omega arith }

    total : lacks_space b n ≡ true → add64 b.write_head n ≡ length (get_data b) + n
    total e = omega (arith, length-get_data v, z e)

    longer : lacks_space b n ≡ true → length b.bytes ≤ add64 b.write_head n
    longer e = omega (arith, ltb→lt (length b.bytes) (add64 b.write_head n) e)

    grown :
        lacks_space b n ≡ true
        → exceeds b.limit (add64 b.write_head n) ≡ false
        → Keeps b (record b { bytes = resize (add64 b.write_head n) b.bytes })
    grown e f = record {
      valid = resize-IsValid _ v (longer e) (omega arith) f;
      data_kept = get_data-resize _ v (longer e);
      limit_kept = refl;
      head_kept = omega arith;
    }

    fits : b.write_head + n ≤ length (resize (add64 b.write_head n) b.bytes)
    fits = omega (arith, length-resize (add64 b.write_head n) b.bytes)

-- `EnsureSpace` keeps the buffer's bytes, and succeeds exactly when the limit allows.
pub ensure_space_lem :
    {b : Buffer} (n : ℕ)
    → IsValid b
    → b.write_head + n < 2 ^ 63
    → Keeps b (ensure_space b n).1
      × Outcome b.limit (length (get_data b)) (ensure_space b n).1 n (ensure_space b n).0
unfolding ensure_space
ensure_space_lem {b} n v s = (
  Keeps-trans k after.0,
  Outcome-along k.limit_kept (ap length k.data_kept) (grow_within c n).1 n (grow_within c n).0
      after.1,
)
  where
    c : Buffer
    c = compact_for b n

    k : Keeps b c
    k = compact_for-Keeps n v

    after :
        Keeps c (grow_within c n).1
        × Outcome c.limit (length (get_data c)) (grow_within c n).1 n (grow_within c n).0
    after = grow_within_lem n k.valid (omega (arith, k.head_kept)) (compact_for_head b n)
