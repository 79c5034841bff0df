-- ===== src/Buffer/Queue.antt =====
-- The queue that `Buffer` is to be: a FIFO of bytes under a limit.
use twili.Base.{
  Bool, Bool-cases, List, Option, add64, ap, ap₂, arith, drop, drop-drop, drop-take, false,
  if◌then◌else◌, inl, inr, length, ltb, none, refl, some, sym, take, take-take, true, ℕ, ◌++◌, ◌+◌,
  ◌-◌, ◌<◌, ◌^◌, ◌∙◌, ◌≡◌, ◌≤◌,
}
use twili.Buffer.{Buffer, exceeds, get_data, mark_read, put, read, write, write_if}
use twili.Buffer.Inv.{IsValid, get_data-put, length-get_data, put-IsValid}
use twili.Buffer.Space.{HasRoom, Keeps, Outcome, ensure_space_lem}

-- The queue: a write is refused as a whole where it would exceed the limit, and a read where too
-- few bytes are held.
unfoldable pub push : Option ℕ → List ℕ → List ℕ → Bool × List ℕ
push o q src = if exceeds o (length q + length src) then (false, q) else (true, q ++ src)

unfoldable pub pop : List ℕ → ℕ → Option (List ℕ) × List ℕ
pop q n = if ltb (length q) n then (none, q) else (some (take n q), drop n q)

pub put-Keeps :
    {b c : Buffer} (src : List ℕ)
    → Keeps b c
    → HasRoom c (length src)
    → IsValid (put c src) × (get_data (put c src) ≡ get_data b ++ src)
put-Keeps src k r =
    (put-IsValid src k.valid r, get_data-put src k.valid r ∙ ap (λ q. q ++ src) k.data_kept)

limit-put : (b : Buffer) (src : List ℕ) → (put b src).limit ≡ b.limit
unfolding put
limit-put b src = refl

-- The new buffer is valid, under the same limit, and answers as the queue does.
abbrev pub Refines {ℓ} : {A : Type ℓ} → Buffer → A × Buffer → A × List ℕ → Type ℓ
Refines b (a, c) r = IsValid c × (c.limit ≡ b.limit) × ((a, get_data c) ≡ r)

write_if-Refines :
    {b : Buffer} (src : List ℕ) (r : Bool × Buffer)
    → Keeps b r.1
    → Outcome b.limit (length (get_data b)) r.1 (length src) r.0
    → Refines b (write_if src r) (push b.limit (get_data b) src)
unfolding push
write_if-Refines src (true, c) k (inl (e, h, f)) =
    let p = put-Keeps src k h in rw f (p.0, limit-put c src ∙ k.limit_kept, ap (λ q. (true, q)) p.1)
write_if-Refines src (true, c) k (inr (e, f)) = cc
write_if-Refines src (false, c) k (inl (e, h, f)) = cc
write_if-Refines src (false, c) k (inr (e, f)) =
    rw f (k.valid, k.limit_kept, ap (λ q. (false, q)) k.data_kept)

-- `Write` is the queue's push: it fails exactly where the limit is exceeded, changing nothing then.
pub write-Refines :
    {b : Buffer} (src : List ℕ)
    → IsValid b
    → b.write_head + length src < 2 ^ 63
    → Refines b (write b src) (push b.limit (get_data b) src)
unfolding write
write-Refines src v s = let e = ensure_space_lem (length src) v s in write_if-Refines src _ e.0 e.1

get_data-mark_read :
    (b : Buffer) (n : ℕ)
    → IsValid b
    → b.read_head + n ≤ b.write_head
    → get_data (mark_read b n) ≡ drop n (get_data b)
unfolding get_data mark_read
get_data-mark_read b n v h =
    rw
      (
        drop-take n (b.write_head - b.read_head) (drop b.read_head b.bytes) (omega arith),
        drop-drop b.read_head n b.bytes,
      )
      (ap₂ (λ k r. take k (drop r b.bytes)) (omega arith) (omega arith))

pub mark_read-Refines :
    (b : Buffer) (n : ℕ)
    → IsValid b
    → b.read_head + n ≤ b.write_head
    → IsValid (mark_read b n) × (get_data (mark_read b n) ≡ drop n (get_data b))
unfolding mark_read
mark_read-Refines b n v h = (
  record { ordered = omega arith; inside = v.inside; within = v.within; small = v.small },
  get_data-mark_read b n v h,
)

read_front :
    (b : Buffer) (n : ℕ)
    → b.read_head + n ≤ b.write_head
    → take n (drop b.read_head b.bytes) ≡ take n (get_data b)
unfolding get_data
read_front b n h = sym (take-take n (b.write_head - b.read_head) _ (omega arith))

pub write_head-mark_read : (b : Buffer) (n : ℕ) → (mark_read b n).write_head ≡ b.write_head
unfolding mark_read
write_head-mark_read b n = refl

pub limit-mark_read : (b : Buffer) (n : ℕ) → (mark_read b n).limit ≡ b.limit
unfolding mark_read
limit-mark_read b n = refl

-- `Read` is the queue's pop: it hands out the oldest bytes, or changes nothing.
pub read-Refines :
    {b : Buffer} (n : ℕ) → IsValid b → n < 2 ^ 63 → Refines b (read b n) (pop (get_data b) n)
unfolding read pop
read-Refines {b} n v s = elim (Bool-cases (ltb b.write_head (add64 b.read_head n))) [
  | inl e ↦
      let f : ltb (length (get_data b)) n ≡ true = ground (arith, length-get_data v) in
      rw (e, f, read, pop) (v, refl, refl)
  | inr e ↦
      let h : b.read_head + n ≤ b.write_head = ground arith in
      let f : ltb (length (get_data b)) n ≡ false = ground (arith, length-get_data v) in
      let m = mark_read-Refines b n v h in
      rw (e, f, read, pop)
        (m.0, limit-mark_read b n, ap₂ (λ x q. (some x, q)) (read_front b n h) m.1)
]
