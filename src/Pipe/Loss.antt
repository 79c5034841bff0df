-- ===== src/Pipe/Loss.antt =====
-- A read while a write is pending and the buffer has room.
use twili.Pipe.{
  Event, Result, TwibPipe, aborts, after, close_by, done, empty_function, flush, flush_result, idle,
  pending_in, read, read_buffered, read_direct, read_flushed, read_idle, read_in, took,
  write_pending,
}
use twili.Base.{
  Bool, Bool-cases, List, [], ap, arith, drop, false, inl, inr, length, length-append, length-drop,
  length-take, le→not_ltb, ltb, min, refl, subst, sym, take, ℕ, ◌++◌, ◌+◌, ◌-◌, ◌<◌, ◌^◌, ◌∙◌, ◌∷◌,
  ◌≡◌, ◌≤◌,
}
use twili.Buffer.{Buffer, get_data, mark_read, read_available}
use twili.Buffer.Inv.{IsValid, length-get_data}
use twili.Buffer.Queue.{limit-mark_read, mark_read-Refines}
use twili.Pipe.Flush.{Flushed, IsLimited, flush_lem}
use twili.Pipe.Inv.{
  PipeIsValid, Returns, Returns-after, StateIsValid, TakesOffered, pending, quiet, taken,
}
use twili.Pipe.Stream.{flush-pending, read_idle_lem}
use twili.Pipe.Read.{Returns-map}

-- The bytes that were handed out and those that are pending, counted.
abbrev pub seen : TwibPipe → List Event → ℕ
seen q events = length (taken events) + length (pending q)

abbrev AtMost : ℕ → TwibPipe → List Event → Type 0
AtMost n q events = seen q events ≤ n

flush-AtMost :
    {l : ℕ} (p : TwibPipe) (bytes before : List ℕ) (w : ℕ)
    → IsLimited l p.buffer
    → length bytes + l < 2 ^ 63
    → Returns
        (AtMost (length before + length (get_data p.buffer) + length bytes))
        (after (took before ∷ []) (flush_result (flush p bytes w)))
flush-AtMost {l} p bytes before w o s = count (flush-pending p bytes w o s)
  where
    count :
        PipeIsValid l (flush p bytes w).1
          × (taken (flush p bytes w).2 ≡ [])
          × ((space : ℕ) × (min (length bytes) (l - length (get_data p.buffer)) ≤ space)
              × (space ≤ l)
              × (pending (flush p bytes w).1 ≡ get_data p.buffer ++ drop space bytes))
        → length (before ++ taken (flush p bytes w).2) + length (pending (flush p bytes w).1)
          ≤ length before + length (get_data p.buffer) + length bytes
    count (v, t, (space, enough, most, e)) = omega (
      arith,
      ap length t,
      ap length e,
      length-append before (taken (flush p bytes w).2),
      length-append (get_data p.buffer) (drop space bytes),
      length-drop space bytes,
    )

abbrev blocked : TwibPipe → Buffer → List ℕ → ℕ → TwibPipe
blocked p b bytes w = record p { buffer = b; state = write_pending bytes w }

Returns-weaken : (m n : ℕ) (r : Result) → m ≤ n → Returns (AtMost m) r → Returns (AtMost n) r
Returns-weaken m n (done q events) h x = omega arith
Returns-weaken m n aborts h x = x
Returns-weaken m n empty_function h x = x

-- No read hands out more than there is.
buffered-AtMost :
    {l : ℕ} (p : TwibPipe) (b : Buffer) (bytes : List ℕ) (w : ℕ) (f : List ℕ → ℕ)
    → IsLimited l b
    → length bytes + l < 2 ^ 63
    → TakesOffered f
    → Returns
        (AtMost (length (get_data b) + length bytes))
        (read_buffered (blocked p b bytes w) bytes w (quiet f))
unfolding read_buffered close_by
buffered-AtMost {l} p b bytes w f o s t =
    Returns-weaken _ (length (get_data b) + length bytes)
      (after (took (take n (get_data b)) ∷ []) (flush_result (flush q bytes w)))
      (omega (
        arith,
        ap length front.1,
        length-take n (get_data b),
        length-drop n (get_data b),
        t (get_data b),
      ))
      (flush-AtMost q bytes (take n (get_data b)) w
        (record { valid = front.0; limit_is = limit-mark_read b n ∙ o.limit_is }) s)
  where
    n : ℕ
    n = f (get_data b)

    q : TwibPipe
    q = blocked p (mark_read b n) bytes w

    front : IsValid (mark_read b n) × (get_data (mark_read b n) ≡ drop n (get_data b))
    front =
        mark_read-Refines b n o.valid
          (omega (arith, t (get_data b), length-get_data o.valid, o.valid.ordered))

direct-AtMost :
    {l : ℕ} (p : TwibPipe) (b : Buffer) (bytes : List ℕ) (w : ℕ) (f : List ℕ → ℕ)
    → IsLimited l b
    → length bytes + l < 2 ^ 63
    → TakesOffered f
    → Returns
        (AtMost (length (get_data b) + length bytes))
        (read_direct (blocked p b bytes w) bytes w (quiet f))
unfolding read_direct close_by
direct-AtMost {l} p b bytes w f o s t =
    rw (le→not_ltb (length bytes) n (t bytes), read_direct)
      (Returns-weaken _ (length (get_data b) + length bytes)
        (after (took (take n bytes) ∷ []) (flush_result (flush q (drop n bytes) w)))
        (omega (arith, length-take n bytes, length-drop n bytes, t bytes))
        (flush-AtMost q (drop n bytes) (take n bytes) w o (omega (arith, length-drop n bytes))))
  where
    n : ℕ
    n = f bytes

    q : TwibPipe
    q = blocked p b bytes w

abbrev Less : ℕ → TwibPipe → List Event → Type 0
Less n q events = seen q events < n

read_flushed-Less :
    {l : ℕ} (p : TwibPipe) (bytes : List ℕ) (w : ℕ) (f : List ℕ → ℕ)
    → IsLimited l p.buffer
    → 0 < length bytes
    → length bytes + l < 2 ^ 63
    → length (get_data p.buffer) < l
    → TakesOffered f
    → Returns
        (Less (length (get_data p.buffer) + length bytes))
        (read_flushed (flush p bytes w) w (quiet f))
unfolding read_flushed
read_flushed-Less {l} p bytes w f o n s h t = ends (flush_lem p bytes w o s)
  where
    Goal : Bool × TwibPipe × List Event → Type 0
    Goal r = Returns (Less (length (get_data p.buffer) + length bytes)) (read_flushed r w (quiet f))

    stays :
        (space : ℕ) (b : Buffer)
        → IsLimited l b
        → get_data b ≡ get_data p.buffer
        → 0 < space
        → space < length bytes
        → Goal (false, blocked p b (drop space bytes) w, [])
    stays space b o' k m g = elim (Bool-cases (ltb 0 (read_available b))) [
      | inl e ↦ rw e (
          Returns-after (AtMost total) _ []
            (read_buffered (blocked p b (drop space bytes) w) (drop space bytes) w (quiet f))
            (λ q events x. omega (arith, fewer))
            (buffered-AtMost p b (drop space bytes) w f o' short t))
      | inr e ↦ rw e (
          Returns-after (AtMost total) _ []
            (read_direct (blocked p b (drop space bytes) w) (drop space bytes) w (quiet f))
            (λ q events x. omega (arith, fewer))
            (direct-AtMost p b (drop space bytes) w f o' short t))
    ]
      where
        total : ℕ
        total = length (get_data b) + length (drop space bytes)

        fewer : total < length (get_data p.buffer) + length bytes
        fewer = omega (arith, ap length k, length-drop space bytes)

        short : length (drop space bytes) + l < 2 ^ 63
        short = omega (arith, length-drop space bytes)

    ends :
        (space : ℕ) × (b : Buffer) × IsLimited l b
          × (get_data b ≡ get_data p.buffer)
          × (min (length bytes) (l - length (get_data p.buffer)) ≤ space)
          × (space ≤ l)
          × Flushed p bytes w space b (flush p bytes w)
        → Goal (flush p bytes w)
    ends (space, b, o', k, enough, m, inl (g, e)) =
        subst Goal (sym e) (stays space b o' k (omega arith) g)
    ends (space, b, o', k, enough, m, inr (g, e)) = subst Goal (sym e) (
        omega (
          arith,
          ap length r.1,
          ap length k,
          length-append (get_data b) [],
          length-append (taken (read_idle q (quiet f)).1) (pending (read_idle q (quiet f)).0),
        ))
      where
        q : TwibPipe
        q = record p { buffer = b; state = idle }

        r :
            PipeIsValid l (read_idle q (quiet f)).0
            × (taken (read_idle q (quiet f)).1 ++ pending (read_idle q (quiet f)).0 ≡ pending q)
        r = read_idle_lem q f (record { limited_by = o'; state_valid = tt }) refl t

-- A read that finds a write pending while the buffer has room below its limit loses bytes: it
-- hands out and leaves pending fewer than were pending before, where the write callback writes no
-- more.
pub read_loses :
    {l : ℕ} (p : TwibPipe) (bytes : List ℕ) (w : ℕ) (f : List ℕ → ℕ)
    → PipeIsValid l p
    → p.state ≡ write_pending bytes w
    → length (get_data p.buffer) < l
    → TakesOffered f
    → Returns
        (λ q events. length (taken events) + length (pending q) < length (pending p))
        (read p (quiet f))
unfolding read
read_loses {l} p bytes w f v e h t =
    subst
      (λ s.
        Returns (λ q events. seen q events < length (get_data p.buffer ++ pending_in s))
          (read_in s p (quiet f)))
      (sym e)
      (Returns-map (Less (length (get_data p.buffer) + length bytes)) _
        (read_flushed (flush p bytes w) w (quiet f))
        (λ q events x. omega (arith, length-append (get_data p.buffer) bytes))
        (read_flushed-Less p bytes w f v.limited_by s.0 s.1 h t))
  where
    s : StateIsValid l p.buffer (write_pending bytes w)
    s = subst (StateIsValid l p.buffer) e v.state_valid
