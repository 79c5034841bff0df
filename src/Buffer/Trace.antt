-- ===== src/Buffer/Trace.antt =====
-- A client's calls on one buffer, in order, with what each returns.
use twili.Base.{
  Bool, List, Option, [], ap, ap₂, arith, drop, false, length, length-take, min, refl, sub64, take,
  true, ℕ, ◌++◌, ◌+◌, ◌-◌, ◌<◌, ◌^◌, ◌∙◌, ◌∷◌, ◌≡◌, ◌≤◌,
}
use twili.Buffer.{
  Buffer, clear, fill, get_data, mark_read, mark_written, put, read, read_available, reserve, write,
  write_if,
}
use twili.Buffer.Inv.{IsValid, length-get_data}
use twili.Buffer.Space.{Keeps, ensure_space_lem}
use twili.Buffer.Growth.{room, room-le}
use twili.Buffer.Transfer.{fill_lem, reserve_lem}
use twili.Buffer.Queue.{Refines, mark_read-Refines, pop, push, read-Refines, write-Refines}

pub data Op : Type 0 where
  writes : List ℕ → Op
  reads : ℕ → Op
  -- `Reserve` and `MarkWritten`, with what has been stored in between.
  fills : ℕ → List ℕ → Op
  -- `Read()`, and `MarkRead` of some of the bytes.
  takes : ℕ → Op
  clears : Op

pub data Reply : Type 0 where
  wrote : Bool → Reply
  got : Option (List ℕ) → Reply
  offered : List ℕ → Reply
  filled cleared : Reply

-- A client stores no more than it has asked for, and than the limit leaves room for.
abbrev entitled : Option ℕ → ℕ → ℕ → List ℕ → List ℕ
entitled l held n src = take (room l held n) src

abbrev pub step : Buffer → Op → Reply × Buffer
step b (writes src) = let (done, c) = write b src in (wrote done, c)
step b (reads n) = let (r, c) = read b n in (got r, c)
step b (fills n src) = (filled, fill (reserve b n).1 (entitled b.limit (length (get_data b)) n src))
step b (takes n) = (offered (get_data b), mark_read b (min n (read_available b)))
step b clears = (cleared, clear b)

unfoldable pub run : Buffer → List Op → List Reply
run b [] = []
run b (o ∷ os) = (step b o).0 ∷ run (step b o).1 os

abbrev pub queue_step : Option ℕ → List ℕ → Op → Reply × List ℕ
queue_step l q (writes src) = let (done, p) = push l q src in (wrote done, p)
queue_step l q (reads n) = let (r, p) = pop q n in (got r, p)
queue_step l q (fills n src) = (filled, q ++ entitled l (length q) n src)
queue_step l q (takes n) = (offered q, drop (min n (length q)) q)
queue_step l q clears = (cleared, [])

unfoldable pub queue_run : Option ℕ → List ℕ → List Op → List Reply
queue_run l q [] = []
queue_run l q (o ∷ os) = (queue_step l q o).0 ∷ queue_run l (queue_step l q o).1 os

abbrev pub cost : Op → ℕ
cost (writes src) = length src
cost (reads n) = 0
cost (fills n src) = n
cost (takes n) = 0
cost clears = 0

abbrev pub total_cost : List Op → ℕ
total_cost [] = 0
total_cost (o ∷ os) = cost o + total_cost os

abbrev pub ReadsFit : List Op → Type 0
ReadsFit [] = Unit {0}
ReadsFit (reads n ∷ os) = (n < 2 ^ 63) × ReadsFit os
ReadsFit (_ ∷ os) = ReadsFit os

write_if-head :
    {b : Buffer} (src : List ℕ) (r : Bool × Buffer)
    → Keeps b r.1
    → (write_if src r).1.write_head ≤ b.write_head + length src
unfolding put
write_if-head src (true, c) k = omega (arith, k.head_kept, k.valid)
write_if-head src (false, c) k = omega (arith, k.head_kept)

pub write-head :
    {b : Buffer} (src : List ℕ)
    → IsValid b
    → b.write_head + length src < 2 ^ 63
    → (write b src).1.write_head ≤ b.write_head + length src
unfolding write
write-head src v s = write_if-head src _ (ensure_space_lem (length src) v s).0

read-head : (b : Buffer) (n : ℕ) → (read b n).1.write_head ≡ b.write_head
unfolding read mark_read
read-head b n = ground arith

clear-Refines :
    {b : Buffer}
    → IsValid b
    → IsValid (clear b) × ((clear b).limit ≡ b.limit) × (get_data (clear b) ≡ [])
unfolding clear get_data
clear-Refines v = (
  record { ordered = omega arith; inside = omega arith; within = v.within; small = v.small },
  refl,
  refl,
)

clear-head : (b : Buffer) → (clear b).write_head ≡ 0
unfolding clear
clear-head b = refl

fill-Refines :
    {b : Buffer} (n : ℕ) (src : List ℕ)
    → IsValid b
    → b.write_head + n < 2 ^ 63
    → let c = fill (reserve b n).1 (entitled b.limit (length (get_data b)) n src) in
      IsValid c
      × (c.limit ≡ b.limit)
      × (get_data c ≡ get_data b ++ entitled b.limit (length (get_data b)) n src)
      × (c.write_head ≤ b.write_head + n)
unfolding fill mark_written
fill-Refines {b} n src v s = (
  f.0,
  f.1 ∙ r.0.limit_kept,
  f.2 ∙ ap (λ q. q ++ stored) r.0.data_kept,
  omega (arith, short, r.0.head_kept),
)
  where
    stored : List ℕ
    stored = entitled b.limit (length (get_data b)) n src

    r :
        Keeps b (reserve b n).1
        × ((reserve b n).0 ≡ length (reserve b n).1.bytes - (reserve b n).1.write_head)
        × (room b.limit (length (get_data b)) n ≤ (reserve b n).0)
    r = reserve_lem n v s

    short : length stored ≤ n
    short = omega (
      arith,
      length-take (room b.limit (length (get_data b)) n) src,
      room-le b.limit (length (get_data b)) n 0,
    )

    f :
        IsValid (fill (reserve b n).1 stored)
        × ((fill (reserve b n).1 stored).limit ≡ (reserve b n).1.limit)
        × (get_data (fill (reserve b n).1 stored) ≡ get_data (reserve b n).1 ++ stored)
    f =
        fill_lem stored r.0.valid
          (omega (arith, r.1, r.2, length-take (room b.limit (length (get_data b)) n) src))

take-Refines :
    {b : Buffer} (n : ℕ)
    → IsValid b
    → let c = mark_read b (min n (read_available b)) in
      IsValid c
      × (c.limit ≡ b.limit)
      × (get_data c ≡ drop (min n (length (get_data b))) (get_data b))
      × (c.write_head ≡ b.write_head)
unfolding mark_read read_available
take-Refines {b} n v =
    let held : sub64 b.write_head b.read_head ≡ length (get_data b) =
      omega (arith, length-get_data v, v.ordered, v.inside, v.small) in
    let m =
      mark_read-Refines b (min n (read_available b)) v
        (omega (arith, held, length-get_data v, v.ordered)) in
    (m.0, refl, m.1 ∙ ap (λ k. drop (min n k) (get_data b)) held, refl)

-- One call of the buffer is the same call of the queue.
step_lem :
    {b : Buffer} (o : Op) (os : List Op)
    → IsValid b
    → b.write_head + total_cost (o ∷ os) < 2 ^ 63
    → ReadsFit (o ∷ os)
    → Refines b (step b o) (queue_step b.limit (get_data b) o)
      × ((step b o).1.write_head + total_cost os < 2 ^ 63)
      × ReadsFit os
step_lem {b} (writes src) os v s f =
    let r = write-Refines src v (omega arith) in
    ((r.0, r.1, ap (λ x. (wrote x.0, x.1)) r.2), omega (arith, write-head src v (omega arith)), f)
step_lem {b} (reads n) os v s f =
    let r = read-Refines n v f.0 in
    ((r.0, r.1, ap (λ x. (got x.0, x.1)) r.2), omega (arith, read-head b n), f.1)
step_lem {b} (fills n src) os v s f =
    let r = fill-Refines n src v (omega arith) in
    ((r.0, r.1, ap (λ q. (filled, q)) r.2), omega (arith, r.3), f)
step_lem {b} (takes n) os v s f =
    let r = take-Refines n v in
    ((r.0, r.1, ap (λ q. (offered (get_data b), q)) r.2), omega (arith, r.3), f)
step_lem {b} clears os v s f =
    let r = clear-Refines v in
    ((r.0, r.1, ap (λ q. (cleared, q)) r.2), omega (arith, clear-head b), f)

-- Over any sequence of writes, reads, filled reserves, partial takes and clears whose sizes stay
-- below 2^63 bytes, the buffer answers as the queue of its bytes.
pub run_refines :
    {b : Buffer} (os : List Op)
    → IsValid b
    → b.write_head + total_cost os < 2 ^ 63
    → ReadsFit os
    → run b os ≡ queue_run b.limit (get_data b) os
unfolding run queue_run
run_refines [] v s f = refl
run_refines {b} (o ∷ os) v s f =
    let (r, s', f') = step_lem o os v s f in
    ap₂ ◌∷◌ (ap (λ x. x.0) r.2) (
      run_refines {b = (step b o).1} os r.0 s' f'
      ∙ ap₂ (λ l q. queue_run l q os) r.1 (ap (λ x. x.1) r.2))
