-- ===== src/Pipe/Stream.antt =====
-- The stream of bytes through a pipe, over a flush.
use twili.Base.{
  Bool, Bool-cases, List, [], ap, append-nil, append_assoc, ap₂, arith, drop, drop-all, false, inl,
  inr, length, length-drop, ltb, min, refl, suc, sym, take, take-append-drop, true, zero, ℕ, ◌++◌,
  ◌+◌, ◌-◌, ◌<◌, ◌^◌, ◌∙◌, ◌≡◌, ◌≤◌,
}
use twili.Buffer.{Buffer, get_data, mark_read, read_available}
use twili.Pipe.{TwibPipe, close_by, flush, idle, pending_in, read_empty, read_idle}
use twili.Pipe.Flush.{Flushed, IsLimited, flush_lem}
use twili.Pipe.Inv.{PipeIsValid, TakesOffered, held-zero, pending, quiet, read_available_lem, taken}
use twili.Buffer.Inv.{IsValid, length-get_data}
use twili.Buffer.Queue.{limit-mark_read, mark_read-Refines}

-- A flush leaves a valid pipe and offers nothing to a reader. The bytes pending afterwards are
-- those that the buffer held, and the pending bytes less the first `space` of them.
pub flush-pending :
    {l : ℕ} (p : TwibPipe) (bytes : List ℕ) (w : ℕ)
    → IsLimited l p.buffer
    → length bytes + l < 2 ^ 63
    → let (f, q, events) = flush p bytes w in
      PipeIsValid l q
      × (taken events ≡ [])
      × ((space : ℕ) × (min (length bytes) (l - length (get_data p.buffer)) ≤ space)
          × (space ≤ l)
          × (pending q ≡ get_data p.buffer ++ drop space bytes))
flush-pending {l} p bytes w o s = ends (flush_lem p bytes w o s)
  where
    ends :
        (space : ℕ) × (b : Buffer) × IsLimited l b
          × (get_data b ≡ get_data p.buffer)
          × (min (length bytes) (l - length (get_data p.buffer)) ≤ space)
          × (space ≤ l)
          × Flushed p bytes w space b (flush p bytes w)
        → PipeIsValid l (flush p bytes w).1
          × (taken (flush p bytes w).2 ≡ [])
          × ((space : ℕ) × (min (length bytes) (l - length (get_data p.buffer)) ≤ space)
              × (space ≤ l)
              × (pending (flush p bytes w).1 ≡ get_data p.buffer ++ drop space bytes))
    ends (space, b, o', k, enough, most, inl (h, e)) = rw e (
      record {
        limited_by = o';
        state_valid =
            (omega (arith, length-drop space bytes), omega (arith, length-drop space bytes));
      },
      refl,
      (space, enough, most, ap (λ x. x ++ drop space bytes) k),
    )
    ends (space, b, o', k, enough, most, inr (h, e)) = rw e (
      record { limited_by = o'; state_valid = tt },
      refl,
      (space, enough, most, ap₂ ◌++◌ k (sym (drop-all space bytes h))),
    )

-- With buffer limit 0 a flush keeps every byte.
pub flush_keeps :
    {l : ℕ} (p : TwibPipe) (bytes : List ℕ) (w : ℕ)
    → IsLimited l p.buffer
    → length bytes + l < 2 ^ 63
    → l ≡ 0
    → pending (flush p bytes w).1 ≡ bytes
flush_keeps {l} p bytes w o s z = ends (flush-pending p bytes w o s).2
  where
    ends :
        (space : ℕ) × (min (length bytes) (l - length (get_data p.buffer)) ≤ space)
          × (space ≤ l)
          × (pending (flush p bytes w).1 ≡ get_data p.buffer ++ drop space bytes)
        → pending (flush p bytes w).1 ≡ bytes
    ends (zero, enough, most, e) = e ∙ ap (λ x. x ++ bytes) (held-zero o z)
    ends (suc space, enough, most, e) = absurd (omega arith)

-- Reading while no write is pending: the bytes taken come off the front of the stream.
pub read_idle_lem :
    {l : ℕ} (p : TwibPipe) (f : List ℕ → ℕ)
    → PipeIsValid l p
    → p.state ≡ idle
    → TakesOffered f
    → let (q, events) = read_idle p (quiet f) in
      PipeIsValid l q × (taken events ++ pending q ≡ pending p)
unfolding read_idle close_by
read_idle_lem {l} p f v i t = elim (Bool-cases (ltb 0 (read_available p.buffer))) [
  | inl e ↦ rw (e, read_idle) (some_held e)
  | inr e ↦ rw (e, read_idle) (none_held (ground (arith, available)) p.hit_eof)
]
  where
    held : List ℕ
    held = get_data p.buffer

    available : read_available p.buffer ≡ length held
    available = read_available_lem v.limited_by.valid

    front :
        IsValid (mark_read p.buffer (f held))
        × (get_data (mark_read p.buffer (f held)) ≡ drop (f held) held)
    front =
        mark_read-Refines p.buffer (f held) v.limited_by.valid
          (omega (arith, t held, length-get_data v.limited_by.valid, v.limited_by.valid.ordered))

    some_held :
        ltb 0 (read_available p.buffer) ≡ true
        → PipeIsValid l (record p { buffer = mark_read p.buffer (f held) })
          × ((take (f held) held ++ [])
                ++ (get_data (mark_read p.buffer (f held)) ++ pending_in p.state)
              ≡ held ++ pending_in p.state)
    some_held e = (
      record {
        limited_by = record {
          valid = front.0;
          limit_is = limit-mark_read p.buffer (f held) ∙ v.limited_by.limit_is;
        };
        state_valid = rw i tt;
      },
      rw (
        append-nil,
        front.1,
        ← append_assoc (take (f held) held) (drop (f held) held) (pending_in p.state),
        take-append-drop (f held) held,
      ),
    )

    none_held :
        held ≡ []
        → (b : Bool)
        → PipeIsValid l (read_empty b p (quiet f)).0
          × (taken (read_empty b p (quiet f)).1 ++ pending (read_empty b p (quiet f)).0 ≡ pending p)
    none_held z true = (v, refl)
    none_held z false =
        (record { limited_by = v.limited_by; state_valid = (f, refl, t, z) }, rw i refl)
