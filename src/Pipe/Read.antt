-- ===== src/Pipe/Read.antt =====
-- `Read`: what it returns, and what it hands out.
use twili.Pipe.{
  Event, Result, State, TwibPipe, aborts, close_by, done, empty_function, flush, idle, pending_in,
  read, read_buffered, read_direct, read_flushed, read_in, read_pending, write_pending,
}
use twili.Base.{
  Bool-cases, List, [], ap, append-nil, ap₂, arith, drop, false, inl, inr, length, length-drop,
  le→not_ltb, ltb, ltb→lt, min, refl, subst, sym, take, take-append-drop, true, ℕ, ◌++◌, ◌+◌, ◌-◌,
  ◌<◌, ◌^◌, ◌∙◌, ◌≡◌, ◌≤◌, ◌⊎◌,
}
use twili.Buffer.{Buffer, get_data, mark_read, read_available}
use twili.Buffer.Inv.{IsValid, length-get_data}
use twili.Buffer.Queue.{limit-mark_read, mark_read-Refines}
use twili.Pipe.Flush.{Flushed, IsLimited, flush_lem}
use twili.Pipe.Inv.{
  PipeIsValid, Returns, Returns-after, StateIsValid, TakesOffered, held-zero, length-held, pending,
  quiet, read_available_lem, taken,
}
use twili.Pipe.Stream.{flush-pending, flush_keeps, read_idle_lem}

abbrev pub IsNotReading : State → Type 0
IsNotReading idle = Unit {0}
IsNotReading (write_pending d w) = Unit {0}
IsNotReading (read_pending cb) = ⊥

-- What a read leaves: a valid pipe, and, if `kept`, the stream without the bytes taken.
abbrev Leaves : ℕ → Type 0 → List ℕ → TwibPipe → List Event → Type 0
Leaves l kept stream q events = PipeIsValid l q × (kept → taken events ++ pending q ≡ stream)

abbrev blocked : TwibPipe → Buffer → List ℕ → ℕ → TwibPipe
blocked p b bytes w = record p { buffer = b; state = write_pending bytes w }

read_buffered_lem :
    {l : ℕ} (p : TwibPipe) (b : Buffer) (bytes : List ℕ) (w : ℕ) (f : List ℕ → ℕ)
    → IsLimited l b
    → length bytes + l < 2 ^ 63
    → TakesOffered f
    → Returns (λ q events. PipeIsValid l q) (read_buffered (blocked p b bytes w) bytes w (quiet f))
unfolding read_buffered close_by
read_buffered_lem {l} p b bytes w f o s t =
    (flush-pending
      (record p { buffer = mark_read b (f (get_data b)); state = write_pending bytes w }) bytes w
      (record { valid = front.0; limit_is = limit-mark_read b (f (get_data b)) ∙ o.limit_is }) s).0
  where
    front :
        IsValid (mark_read b (f (get_data b)))
        × (get_data (mark_read b (f (get_data b))) ≡ drop (f (get_data b)) (get_data b))
    front =
        mark_read-Refines b (f (get_data b)) o.valid
          (omega (arith, t (get_data b), length-get_data o.valid, o.valid.ordered))

read_direct_lem :
    {l : ℕ} (p : TwibPipe) (b : Buffer) (bytes : List ℕ) (w : ℕ) (f : List ℕ → ℕ)
    → IsLimited l b
    → length bytes + l < 2 ^ 63
    → TakesOffered f
    → Returns (Leaves l (l ≡ 0) bytes) (read_direct (blocked p b bytes w) bytes w (quiet f))
unfolding read_direct close_by
read_direct_lem {l} p b bytes w f o s t =
    rw (e, read_direct)
      (
        (flush-pending q rest w o short).0,
        λ z.
            ap (λ x. (take (f bytes) bytes ++ x) ++ pending (flush q rest w).1)
              (flush-pending q rest w o short).1
            ∙ ap₂ ◌++◌ (append-nil (take (f bytes) bytes)) (flush_keeps q rest w o short z)
            ∙ take-append-drop (f bytes) bytes,
      )
  where
    q : TwibPipe
    q = blocked p b bytes w

    rest : List ℕ
    rest = drop (f bytes) bytes

    e : ltb (length bytes) (f bytes) ≡ false
    e = le→not_ltb (length bytes) (f bytes) (t bytes)

    short : length rest + l < 2 ^ 63
    short = omega (arith, length-drop (f bytes) bytes)

read_flushed_lem :
    {l : ℕ} (p : TwibPipe) (bytes : List ℕ) (w : ℕ) (f : List ℕ → ℕ)
    → IsLimited l p.buffer
    → 0 < length bytes
    → length bytes + l < 2 ^ 63
    → TakesOffered f
    → Returns
        (Leaves l (l ≡ 0) (get_data p.buffer ++ bytes))
        (read_flushed (flush p bytes w) w (quiet f))
unfolding read_flushed
read_flushed_lem {l} p bytes w f o n s t = ends (flush_lem p bytes w o s)
  where
    stays :
        (space : ℕ) (b : Buffer)
        → IsLimited l b
        → get_data b ≡ get_data p.buffer
        → space ≤ l
        → space < length bytes
        → Returns
            (Leaves l (l ≡ 0) (get_data p.buffer ++ bytes))
            (read_flushed (false, blocked p b (drop space bytes) w, []) w (quiet f))
    stays space b o' k m h = elim (Bool-cases (ltb 0 (read_available b))) [
      | inl e ↦ rw e (
          Returns-after (λ q events. PipeIsValid l q) _ []
            (read_buffered (blocked p b (drop space bytes) w) (drop space bytes) w (quiet f))
            (λ q events v. (v, λ z. absurd (nothing z e)))
            (read_buffered_lem p b (drop space bytes) w f o'
              (omega (arith, length-drop space bytes)) t))
      | inr e ↦ rw e (
          Returns-after (Leaves l (l ≡ 0) (drop space bytes)) _ []
            (read_direct (blocked p b (drop space bytes) w) (drop space bytes) w (quiet f))
            (λ q events v. (v.0, λ z. v.1 z ∙ whole z))
            (read_direct_lem p b (drop space bytes) w f o' (omega (arith, length-drop space bytes))
              t))
    ]
      where
        nothing : l ≡ 0 → ltb 0 (read_available b) ≡ true → ⊥
        nothing z e =
            omega
              (arith, ltb→lt 0 (read_available b) e, read_available_lem o'.valid, length-held o')

        whole : l ≡ 0 → drop space bytes ≡ get_data p.buffer ++ bytes
        whole z = ap (λ k. drop k bytes) zero_space ∙ ap (λ x. x ++ bytes) (sym (held-zero o z))
          where
            zero_space : space ≡ 0
            zero_space = omega arith

    ends :
        (space : ℕ) × (b : Buffer) × IsLimited l b
          × (get_data b ≡ get_data p.buffer)
          × (min (length bytes) (l - length (get_data p.buffer)) ≤ space)
          × (space ≤ l)
          × Flushed p bytes w space b (flush p bytes w)
        → Returns
            (Leaves l (l ≡ 0) (get_data p.buffer ++ bytes))
            (read_flushed (flush p bytes w) w (quiet f))
    ends (space, b, o', k, enough, m, inl (h, e)) =
        subst
          (λ r.
            Returns (Leaves l (l ≡ 0) (get_data p.buffer ++ bytes)) (read_flushed r w (quiet f)))
          (sym e) (stays space b o' k m h)
    ends (space, b, o', k, enough, m, inr (h, e)) =
        subst
          (λ r.
            Returns (Leaves l (l ≡ 0) (get_data p.buffer ++ bytes)) (read_flushed r w (quiet f)))
          (sym e)
          (
            (read_idle_lem (record p { buffer = b; state = idle }) f
                (record { limited_by = o'; state_valid = tt }) refl t).0,
            λ z. absurd (omega arith),
          )

pub Returns-map :
    (P Q : TwibPipe → List Event → Type 0) (r : Result)
    → ((q : TwibPipe) (events : List Event) → P q events → Q q events)
    → Returns P r
    → Returns Q r
Returns-map P Q (done q events) h x = h q events x
Returns-map P Q aborts h x = x
Returns-map P Q empty_function h x = x

abbrev IsIdle : State → Type 0
IsIdle idle = Unit {0}
IsIdle (write_pending d w) = ⊥
IsIdle (read_pending cb) = ⊥

read_in_lem :
    {l : ℕ} (s : State) (p : TwibPipe) (f : List ℕ → ℕ)
    → p.state ≡ s
    → IsNotReading s
    → PipeIsValid l p
    → TakesOffered f
    → Returns
        (Leaves l ((l ≡ 0) ⊎ IsIdle s) (get_data p.buffer ++ pending_in s))
        (read_in s p (quiet f))
read_in_lem idle p f e n v t =
    let r = read_idle_lem p f v e t in
    (r.0, λ k. r.1 ∙ ap (λ x. get_data p.buffer ++ pending_in x) e)
read_in_lem {l} (write_pending d w) p f e n v t =
    let s = state_valid_at e v.state_valid in
    Returns-map (Leaves l (l ≡ 0) (get_data p.buffer ++ d)) _
      (read_flushed (flush p d w) w (quiet f)) (λ q events r. (r.0, λ k. r.1 (zero k)))
      (read_flushed_lem p d w f v.limited_by s.0 s.1 t)
  where
    state_valid_at :
        p.state ≡ write_pending d w
        → StateIsValid l p.buffer p.state
        → StateIsValid l p.buffer (write_pending d w)
    state_valid_at e' x = subst (StateIsValid l p.buffer) e' x

    zero : (l ≡ 0) ⊎ ⊥ → l ≡ 0
    zero (inl z) = z
    zero (inr h) = absurd h
read_in_lem (read_pending cb) p f e n v t = absurd n

-- Unless a read is pending already, `Read` with a callback that takes what it is offered returns,
-- and leaves a valid pipe.
pub read-IsValid :
    {l : ℕ} (p : TwibPipe) (f : List ℕ → ℕ)
    → PipeIsValid l p
    → IsNotReading p.state
    → TakesOffered f
    → Returns (λ q events. PipeIsValid l q) (read p (quiet f))
unfolding read
read-IsValid p f v n t =
    Returns-map _ _ (read_in p.state p (quiet f)) (λ q events r. r.0)
      (read_in_lem p.state p f refl n v t)
