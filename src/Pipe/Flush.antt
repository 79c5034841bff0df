-- ===== src/Pipe/Flush.antt =====
-- `FlushWritePendingState`: what it leaves pending.
use twili.Base.{
  Bool, Bool-cases, List, [], arith, copy_at, copy_at_lem, drop, drop-append, drop-take, false, inl,
  inr, length, length-copy_at, length-drop, length-take, ltb, ltb→lt, min, refl, some, subst, take,
  take-append_length, true, ℕ, ◌++◌, ◌+◌, ◌-◌, ◌<◌, ◌^◌, ◌∙◌, ◌∷◌, ◌≡◌, ◌≤◌, ◌⊎◌,
}
use twili.Buffer.{Buffer, get_data, reserve}
use twili.Buffer.Inv.{IsValid, Within}
use twili.Pipe.{Event, TwibPipe, copied, flush, idle, settle, write_pending, wrote}
use twili.Buffer.Growth.{room}
use twili.Buffer.Space.{Keeps}
use twili.Buffer.Transfer.{reserve_lem}

-- The buffer is valid, and its limit is `l`.
pub record IsLimited (l : ℕ) (b : Buffer) : Type 0 where
  pub valid : IsValid b
  pub limit_is : b.limit ≡ some l

-- Bytes copied behind the write head are not held.
pub copied_lem :
    {b : Buffer} (src : List ℕ)
    → IsValid b
    → length src ≤ length b.bytes - b.write_head
    → IsValid (copied b src) × (get_data (copied b src) ≡ get_data b)
unfolding copied get_data
copied_lem {b} src v h = (kept, held)
  where
    kept : IsValid (record b { bytes = copy_at b.bytes b.write_head src })
    kept = record {
      ordered = v.ordered;
      inside = omega (arith, v.inside, length-copy_at b.bytes b.write_head src);
      within = rw (length-copy_at b.bytes b.write_head src) v.within;
      small = omega (arith, v.small, length-copy_at b.bytes b.write_head src);
    }

    cut : length (take b.write_head b.bytes) ≡ b.write_head
    cut = omega (arith, v.inside, length-take b.write_head b.bytes)

    room_for : b.write_head + length src ≤ length b.bytes
    room_for = omega (arith, v.inside)

    in_head : b.read_head ≤ length (take b.write_head b.bytes)
    in_head = omega (arith, v.ordered, cut)

    exact :
        b.write_head - b.read_head
        ≡ length (take (b.write_head - b.read_head) (drop b.read_head b.bytes))
    exact = omega (
      arith,
      v.ordered,
      v.inside,
      length-take (b.write_head - b.read_head) (drop b.read_head b.bytes),
      length-drop b.read_head b.bytes,
    )

    held :
        take (b.write_head - b.read_head) (drop b.read_head (copy_at b.bytes b.write_head src))
        ≡ take (b.write_head - b.read_head) (drop b.read_head b.bytes)
    held =
        rw
          (
            copy_at_lem b.bytes b.write_head src room_for,
            drop-append b.read_head (take b.write_head b.bytes)
                (src ++ drop (length src) (drop b.write_head b.bytes)) in_head,
            drop-take b.read_head b.write_head b.bytes v.ordered,
          )
          (take-append_length (b.write_head - b.read_head)
            (take (b.write_head - b.read_head) (drop b.read_head b.bytes)) _ exact)

limit-copied : (b : Buffer) (src : List ℕ) → (copied b src).limit ≡ b.limit
unfolding copied
limit-copied b src = refl

-- The two ways in which a flush ends, with the space that `Reserve` returned.
abbrev pub Flushed : TwibPipe → List ℕ → ℕ → ℕ → Buffer → Bool × TwibPipe × List Event → Type 0
Flushed p bytes w space b r =
    ((space < length bytes)
      × (r ≡ (false, record p { buffer = b; state = write_pending (drop space bytes) w }, [])))
    ⊎ ((length bytes ≤ space)
        × (r ≡ (true, record p { buffer = b; state = idle }, wrote w false ∷ [])))

-- A flush holds on to the buffer's bytes, and drops as many of the pending bytes as the limit
-- leaves room for; the writer is told that it is done if those are all.
pub flush_lem :
    {l : ℕ} (p : TwibPipe) (bytes : List ℕ) (w : ℕ)
    → IsLimited l p.buffer
    → length bytes + l < 2 ^ 63
    → (space : ℕ) × (b : Buffer) × IsLimited l b
      × (get_data b ≡ get_data p.buffer)
      × (min (length bytes) (l - length (get_data p.buffer)) ≤ space)
      × (space ≤ l)
      × Flushed p bytes w space b (flush p bytes w)
unfolding flush settle
flush_lem {l} p bytes w o s = (
  space,
  copied c src,
  record { valid = k.0; limit_is = limit-copied c src ∙ limit_c },
  k.1 ∙ r.0.data_kept,
  enough,
  most,
  ends,
)
  where
    bound : Within (some l) (length p.buffer.bytes)
    bound = subst (λ x. Within x (length p.buffer.bytes)) o.limit_is o.valid.within

    space : ℕ
    space = (reserve p.buffer (length bytes)).0

    c : Buffer
    c = (reserve p.buffer (length bytes)).1

    src : List ℕ
    src = take (min space (length bytes)) bytes

    r :
        Keeps p.buffer c
        × (space ≡ length c.bytes - c.write_head)
        × (room p.buffer.limit (length (get_data p.buffer)) (length bytes) ≤ space)
    r = reserve_lem (length bytes) o.valid (omega (arith, o.valid.inside, bound.0))

    limit_c : c.limit ≡ some l
    limit_c = r.0.limit_kept ∙ o.limit_is

    bound_c : Within (some l) (length c.bytes)
    bound_c = subst (λ x. Within x (length c.bytes)) limit_c r.0.valid.within

    k : IsValid (copied c src) × (get_data (copied c src) ≡ get_data c)
    k = copied_lem src r.0.valid (omega (arith, r.1, length-take (min space (length bytes)) bytes))

    enough : min (length bytes) (l - length (get_data p.buffer)) ≤ space
    enough = subst (λ x. room x (length (get_data p.buffer)) (length bytes) ≤ space) o.limit_is r.2

    most : space ≤ l
    most = omega (arith, r.1, bound_c.0)

    ends : Flushed p bytes w space (copied c src) (settle p bytes w space c)
    ends = elim (Bool-cases (ltb (min space (length bytes)) (length bytes))) [
      | inl e ↦
          inl (omega (arith, ltb→lt (min space (length bytes)) (length bytes) e), rw (e, settle))
      | inr e ↦ inr (ground arith, rw (e, settle))
    ]
