-- ===== src/Buffer/Growth.antt =====
-- How `TryEnsureSpace` makes space, up to the limit.
use twili.Base.{
  Bool-cases, Option, add64, ap, arith, false, inl, inr, length, le→not_ltb, ltb→lt, min, none,
  refl, some, subst₂, true, ℕ, ◌+◌, ◌-◌, ◌<◌, ◌^◌, ◌≡◌, ◌≤◌,
}
use twili.Buffer.{
  Buffer, compact_for, exceeds, get_data, grow_up_to, lacks_space, limit_or, resize,
  try_ensure_space,
}
use twili.Buffer.Inv.{IsValid, Within, get_data-resize, length-get_data, length-resize}
use twili.Buffer.Space.{
  HasRoom, Keeps, Keeps-trans, compact_for-Keeps, compact_for_head, resize-IsValid,
}

-- How many bytes more the limit allows.
abbrev pub room : Option ℕ → ℕ → ℕ → ℕ
room none held n = n
room (some l) held n = min n (l - held)

pub room-le : (o : Option ℕ) (held n m : ℕ) → room o held n ≤ n
room-le none held n m = omega arith
room-le (some l) held n m = omega arith

room_full : (l held n : ℕ) → l < held + n → room (some l) held n ≡ l - held
room_full l held n h = omega arith

HasRoom-along :
    {o p : Option ℕ} {g h : ℕ}
    → o ≡ p
    → g ≡ h
    → (c : Buffer) (n : ℕ) → HasRoom c (room o g n)
    → HasRoom c (room p h n)
HasRoom-along p q c n = subst₂ (λ o g. HasRoom c (room o g n)) p q

grow_to_limit :
    {b : Buffer} (o : Option ℕ) (n : ℕ)
    → b.limit ≡ o
    → IsValid b
    → b.read_head ≡ 0
    → exceeds o (b.write_head + n) ≡ true
    → Keeps b (record b { bytes = resize (limit_or o 0) b.bytes })
      × (b.write_head + room o (length (get_data b)) n ≤ length (resize (limit_or o 0) b.bytes))
grow_to_limit none n el v z e = cc
grow_to_limit {b} (some l) n el v z e = (grown, omega (arith, length-resize l b.bytes, held, bound))
  where
    bound : length b.bytes ≤ l
    bound = (let w : Within (some l) (length b.bytes) = rw el at v.within in w).0

    small_limit : l < 2 ^ 63
    small_limit = (let w : Within (some l) (length b.bytes) = rw el at v.within in w).1

    held : length (get_data b) ≡ b.write_head
    held = omega (arith, length-get_data v, z)

    grown : Keeps b (record b { bytes = resize l b.bytes })
    grown = record {
      valid = resize-IsValid l v bound small_limit (rw el (le→not_ltb l l (omega arith)));
      data_kept = get_data-resize l v bound;
      limit_kept = refl;
      head_kept = omega arith;
    }

grow_up_to_lem :
    {b : Buffer} (n : ℕ)
    → IsValid b
    → b.write_head + n < 2 ^ 63
    → (lacks_space b n ≡ true → b.read_head ≡ 0)
    → Keeps b (grow_up_to b n) × HasRoom (grow_up_to b n) (room b.limit (length (get_data b)) n)
unfolding grow_up_to
grow_up_to_lem {b} n v s z = elim (Bool-cases (lacks_space b n)) [
  | inr e ↦ rw (e, grow_up_to) (Keeps-refl, enough (b.write_head + n) refl (ground arith))
  | inl e ↦ elim (Bool-cases (exceeds b.limit (add64 b.write_head n))) [
    | inl f ↦ rw (e, f, grow_up_to) (grow_to_limit b.limit n refl v (z e) (rw no_wrap at f))
    | inr f ↦
        rw (e, f, grow_up_to)
          (
            grown e f,
            enough (add64 b.write_head n) no_wrap
                (omega (arith, length-resize (add64 b.write_head n) b.bytes)),
          )
  ]
]
  where
    Keeps-refl : Keeps b b
    Keeps-refl = record { valid = v; data_kept = refl; limit_kept = refl; head_kept = omega arith }

    no_wrap : add64 b.write_head n ≡ b.write_head + n
    no_wrap = omega arith

    enough :
        (k : ℕ) {m : ℕ}
        → k ≡ b.write_head + n
        → k ≤ m
        → b.write_head + room b.limit (length (get_data b)) n ≤ m
    enough k e h = omega (arith, room-le b.limit (length (get_data b)) n 0)

    grown :
        lacks_space b n ≡ true
        → exceeds b.limit (add64 b.write_head n) ≡ false
        → Keeps b (record b { bytes = resize (add64 b.write_head n) b.bytes })
    grown e f = record {
      valid = resize-IsValid _ v (omega (arith, ltb→lt _ _ e)) (omega arith) f;
      data_kept = get_data-resize _ v (omega (arith, ltb→lt _ _ e));
      limit_kept = refl;
      head_kept = omega arith;
    }

pub try_ensure_space_lem :
    {b : Buffer} (n : ℕ)
    → IsValid b
    → b.write_head + n < 2 ^ 63
    → Keeps b (try_ensure_space b n)
      × HasRoom (try_ensure_space b n) (room b.limit (length (get_data b)) n)
unfolding try_ensure_space
try_ensure_space_lem {b} n v s = (
  Keeps-trans k after.0,
  HasRoom-along k.limit_kept (ap length k.data_kept) (grow_up_to c n) n after.1,
)
  where
    c : Buffer
    c = compact_for b n

    k : Keeps b c
    k = compact_for-Keeps n v

    after :
        Keeps c (grow_up_to c n) × HasRoom (grow_up_to c n) (room c.limit (length (get_data c)) n)
    after = grow_up_to_lem n k.valid (omega (arith, k.head_kept)) (compact_for_head b n)
