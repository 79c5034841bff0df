-- ===== src/Buffer/Bounded.antt =====
-- Buffers without a limit, and how long their vectors get.
use twili.Base.{
  Bool-cases, List, Option, [], add64, ap, arith, false, inl, inr, length, length-copy_at,
  length-take, none, refl, some, true, ℕ, ◌++◌, ◌+◌, ◌-◌, ◌<◌, ◌^◌, ◌∙◌, ◌≡◌, ◌≤◌,
}
use twili.Buffer.{
  Buffer, clear, compact_for, exceeds, fill, fill_if, get_data, grow_up_to, lacks_space, mark_read,
  mark_written, read, read_into, reserve, try_ensure_space,
}
use twili.Buffer.Inv.{IsValid, length-compact, length-get_data, length-resize}
use twili.Buffer.Growth.{room}
use twili.Buffer.Space.{Keeps, compact_for-Keeps, compact_for_head}
use twili.Buffer.Queue.{pop, read-Refines}
use twili.Buffer.Transfer.{fill_lem, reserve_lem, transfer}

-- A valid buffer without a limit, whose vector has at most `bound` bytes, which can be doubled.
pub record IsOpen (bound : ℕ) (b : Buffer) : Type 0 where
  pub valid : IsValid b
  pub no_limit : b.limit ≡ none
  pub bounded : length b.bytes ≤ bound
  pub moderate : bound < 2 ^ 62

length-grow_up_to :
    {b : Buffer} (bound n : ℕ)
    → IsOpen bound b
    → length (get_data b) + n ≤ bound
    → (lacks_space b n ≡ true → b.read_head ≡ 0)
    → length (grow_up_to b n).bytes ≤ bound
unfolding grow_up_to
length-grow_up_to {b} bound n v h z = elim (Bool-cases (lacks_space b n)) [
  | inr e ↦ rw (e, grow_up_to) v.bounded
  | inl e ↦
      let never : exceeds b.limit (add64 b.write_head n) ≡ false = rw v.no_limit refl in
      rw (e, never, grow_up_to)
        (omega (
          arith,
          length-resize (add64 b.write_head n) b.bytes,
          length-get_data v.valid,
          z e,
          v.valid,
          v.moderate,
        ))
]

length-compact_for : (b : Buffer) (n : ℕ) → length (compact_for b n).bytes ≡ length b.bytes
unfolding compact_for
length-compact_for b n = elim (Bool-cases (lacks_space b n)) [
  | inl e ↦ rw (e, compact_for) (length-compact b)
  | inr e ↦ rw (e, compact_for) refl
]

length-reserve :
    {b : Buffer} {bound : ℕ} (n : ℕ)
    → IsOpen bound b
    → length (get_data b) + n ≤ bound
    → length (reserve b n).1.bytes ≤ bound
unfolding reserve try_ensure_space
length-reserve {b} {bound} n v h =
    length-grow_up_to {b = compact_for b n} bound n compacted
      (omega (arith, ap length k.data_kept, h)) (compact_for_head b n)
  where
    k : Keeps b (compact_for b n)
    k = compact_for-Keeps n v.valid

    compacted : IsOpen bound (compact_for b n)
    compacted = record {
      valid = k.valid;
      no_limit = k.limit_kept ∙ v.no_limit;
      bounded = omega (arith, length-compact_for b n, v.bounded);
      moderate = v.moderate;
    }

length-fill : (b : Buffer) (src : List ℕ) → length (fill b src).bytes ≡ length b.bytes
unfolding fill mark_written
length-fill b src = length-copy_at b.bytes b.write_head src

-- `Reserve` has all the space that is asked for.
pub reserve-IsOpen :
    {b : Buffer} {bound : ℕ} (n : ℕ)
    → IsOpen bound b
    → length (get_data b) + n ≤ bound
    → let c = (reserve b n).1 in
      IsOpen bound c × (get_data c ≡ get_data b) × (n ≤ length c.bytes - c.write_head)
reserve-IsOpen {b} {bound} n v h = (
  record {
    valid = r.0.valid;
    no_limit = r.0.limit_kept ∙ v.no_limit;
    bounded = length-reserve n v h;
    moderate = v.moderate;
  },
  r.0.data_kept,
  omega (arith, r.1, r.2, all_room),
)
  where
    r :
        Keeps b (reserve b n).1
        × ((reserve b n).0 ≡ length (reserve b n).1.bytes - (reserve b n).1.write_head)
        × (room b.limit (length (get_data b)) n ≤ (reserve b n).0)
    r = reserve_lem n v.valid (omega (arith, v.valid, v.bounded, v.moderate))

    all_room : room b.limit (length (get_data b)) n ≡ n
    all_room = ap (λ l. room l (length (get_data b)) n) v.no_limit

-- The size that it returns is all the space behind the write head.
pub reserve_space :
    {b : Buffer} {bound : ℕ} (n : ℕ)
    → IsOpen bound b
    → length (get_data b) + n ≤ bound
    → (reserve b n).0 ≡ length (reserve b n).1.bytes - (reserve b n).1.write_head
reserve_space {b} n v h = (reserve_lem n v.valid (omega (arith, v.valid, v.bounded, v.moderate))).1

pub fill-IsOpen :
    {b : Buffer} {bound : ℕ} (src : List ℕ)
    → IsOpen bound b
    → length src ≤ length b.bytes - b.write_head
    → IsOpen bound (fill b src) × (get_data (fill b src) ≡ get_data b ++ src)
fill-IsOpen {b} {bound} src v h = (
  record {
    valid = f.0;
    no_limit = f.1 ∙ v.no_limit;
    bounded = omega (arith, length-fill b src, v.bounded);
    moderate = v.moderate;
  },
  f.2,
)
  where
    f :
        IsValid (fill b src)
        × ((fill b src).limit ≡ b.limit)
        × (get_data (fill b src) ≡ get_data b ++ src)
    f = fill_lem src v.valid h

read-bytes : (b : Buffer) (n : ℕ) → (read b n).1.bytes ≡ b.bytes
unfolding read mark_read
read-bytes b n = ground arith

-- A read is the queue's, and the buffer stays as it is wanted.
pub read-IsOpen :
    {b : Buffer} {bound : ℕ} (n : ℕ)
    → IsOpen bound b
    → n < 2 ^ 63
    → let (got, c) = read b n in IsOpen bound c × ((got, get_data c) ≡ pop (get_data b) n)
read-IsOpen {b} {bound} n v h =
    let r = read-Refines n v.valid h in
    (
      record {
        valid = r.0;
        no_limit = r.1 ∙ v.no_limit;
        bounded = omega (arith, ap length (read-bytes b n), v.bounded);
        moderate = v.moderate;
      },
      r.2,
    )

pub clear-IsOpen :
    {b : Buffer} {bound : ℕ} → IsOpen bound b → IsOpen bound (clear b) × (get_data (clear b) ≡ [])
unfolding clear get_data
clear-IsOpen {b} {bound} v = (
  record {
    valid = record {
      ordered = omega arith;
      inside = omega arith;
      within = v.valid.within;
      small = v.valid.small;
    };
    no_limit = v.no_limit;
    bounded = v.bounded;
    moderate = v.moderate;
  },
  refl,
)

fill_if-IsOpen :
    (b : Buffer) {d : Buffer} {bound : ℕ} (n : ℕ) (r : Option (List ℕ) × Buffer)
    → IsOpen bound r.1 × ((r.0, get_data r.1) ≡ pop (get_data b) n)
    → IsOpen bound d
    → n ≤ length d.bytes - d.write_head
    → let (done, c, e) = fill_if r d in
      IsOpen bound c
      × IsOpen bound e
      × ((done, get_data c, get_data e) ≡ transfer (get_data b) (get_data d) n)
unfolding pop transfer
fill_if-IsOpen b {d} {bound} n (none, c) (v, e) w h = (v, w, ground arith)
fill_if-IsOpen b {d} {bound} n (some src, c) (v, e) w h = (v, f.0, ground (arith, f.1))
  where
    short : length src ≤ n
    short = ground (arith, length-take n (get_data b))

    f : IsOpen bound (fill d src) × (get_data (fill d src) ≡ get_data d ++ src)
    f = fill-IsOpen src w (omega (arith, short))

-- A read into another buffer is the queues' transfer, and both stay as they are wanted.
pub read_into-IsOpen :
    {b other : Buffer} {bound : ℕ} (n : ℕ)
    → IsOpen bound b
    → IsOpen bound other
    → length (get_data other) + n ≤ bound
    → let (done, c, d) = read_into b other n in
      IsOpen bound c
      × IsOpen bound d
      × ((done, get_data c, get_data d) ≡ transfer (get_data b) (get_data other) n)
unfolding read_into
read_into-IsOpen {b} {other} {bound} n v w h =
    let r = reserve-IsOpen n w h in
    let f =
      fill_if-IsOpen b {d = (reserve other n).1} n (read b n)
        (read-IsOpen n v (omega (arith, w.moderate))) r.0 r.2 in
    (f.0, f.1, f.2 ∙ ap (λ p. transfer (get_data b) p n) r.1)
