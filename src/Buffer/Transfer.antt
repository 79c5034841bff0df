-- ===== src/Buffer/Transfer.antt =====
-- `Reserve` and what is filled into it, and the reads of `Buffer` that build on others.
use twili.Base.{
  Bool, List, Option, ap, arith, drop, false, if◌then◌else◌, length, length-take, ltb, none, refl,
  some, take, true, ℕ, ◌++◌, ◌+◌, ◌-◌, ◌<◌, ◌^◌, ◌∙◌, ◌≡◌, ◌≤◌,
}
use twili.Buffer.{
  Buffer, fill, fill_if, get_data, mark_written, put, read, read_available, read_into, read_string,
  reserve,
}
use twili.Buffer.Queue.{Refines, pop, read-Refines}
use twili.Buffer.Inv.{IsValid, get_data-put, put-IsValid}
use twili.Buffer.Growth.{room, try_ensure_space_lem}
use twili.Buffer.Space.{Keeps}

-- `Reserve` keeps the bytes and returns the space behind the write head: at least what was asked
-- for, or what the limit leaves. Any bytes that fit there are appended by `fill`.
pub reserve_lem :
    {b : Buffer} (n : ℕ)
    → IsValid b
    → b.write_head + n < 2 ^ 63
    → let (space, c) = reserve b n in
      Keeps b c
      × (space ≡ length c.bytes - c.write_head)
      × (room b.limit (length (get_data b)) n ≤ space)
unfolding reserve
reserve_lem {b} n v s =
    let t = try_ensure_space_lem n v s in
    (t.0, omega (arith, t.0.valid), omega (arith, t.0.valid, t.1))

pub fill_lem :
    {b : Buffer} (src : List ℕ)
    → IsValid b
    → length src ≤ length b.bytes - b.write_head
    → IsValid (fill b src)
      × ((fill b src).limit ≡ b.limit)
      × (get_data (fill b src) ≡ get_data b ++ src)
unfolding fill mark_written put
fill_lem {b} src v h = (
  put-IsValid src v (omega (arith, v.inside)),
  refl,
  get_data-put src v (omega (arith, v.inside)),
)

-- `Read(std::string &, size_t)` reads as `Read(uint8_t *, size_t)` does.
pub read_string-eq-read : {b : Buffer} (n : ℕ) → IsValid b → n < 2 ^ 63 → read_string b n ≡ read b n
unfolding read_string read read_available
read_string-eq-read {b} n v s = ground arith

-- Two queues: the oldest `n` bytes of the first go to the end of the second, or nothing moves.
unfoldable pub transfer : List ℕ → List ℕ → ℕ → Bool × List ℕ × List ℕ
transfer q p n = if ltb (length q) n then (false, q, p) else (true, drop n q, p ++ take n q)

fill_if_lem :
    (b : Buffer) {d : Buffer} (n : ℕ) (r : Option (List ℕ) × Buffer)
    → Refines b r (pop (get_data b) n)
    → IsValid d
    → n ≤ length d.bytes - d.write_head
    → let (done, c, e) = fill_if r d in
      IsValid c
      × IsValid e
      × (e.limit ≡ d.limit)
      × ((done, get_data c, get_data e) ≡ transfer (get_data b) (get_data d) n)
unfolding pop transfer
fill_if_lem b {d} n (none, c) (v, l, e) w h = (v, w, refl, ground arith)
fill_if_lem b {d} n (some src, c) (v, l, e) w h = (v, f.0, f.1, ground (arith, f.2))
  where
    short : length src ≤ n
    short = ground (arith, length-take n (get_data b))

    f :
        IsValid (fill d src)
        × ((fill d src).limit ≡ d.limit)
        × (get_data (fill d src) ≡ get_data d ++ src)
    f = fill_lem src w (omega (arith, short))

-- Where the other buffer's limit leaves room, `Read(Buffer &, size_t)` moves the oldest bytes over
-- as a whole, or fails and leaves the bytes of both buffers as they are.
pub read_into_lem :
    {b other : Buffer} (n : ℕ)
    → IsValid b
    → IsValid other
    → other.write_head + n < 2 ^ 63
    → room other.limit (length (get_data other)) n ≡ n
    → let (done, c, d) = read_into b other n in
      IsValid c
      × IsValid d
      × (d.limit ≡ other.limit)
      × ((done, get_data c, get_data d) ≡ transfer (get_data b) (get_data other) n)
unfolding read_into
read_into_lem {b} {other} n v w s e =
    let r = reserve_lem n w s in
    let f =
      fill_if_lem b {d = (reserve other n).1} n (read b n) (read-Refines n v (omega arith))
        r.0.valid (omega (arith, r.1, r.2)) in
    (f.0, f.1, f.2 ∙ r.0.limit_kept, f.3 ∙ ap (λ p. transfer (get_data b) p n) r.0.data_kept)
