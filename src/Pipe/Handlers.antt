-- ===== src/Pipe/Handlers.antt =====
-- Which callbacks are called, and which wait.
use twili.Pipe.{
  Close, Event, ReadCb, Result, State, TwibPipe, aborts, after, buffered_with, close_by,
  closes_reader, closes_writer, copied, direct_with, done, empty_function, flush, flush_result,
  idle, read, read_buffered, read_direct, read_empty, read_eof, read_flushed, read_front, read_idle,
  read_in, read_pending, result, settle, stays_open, told_of_reader, took, without_reader, write,
  write_buffered, write_in, write_pending, write_through, wrote,
}
use twili.Base.{
  Bool, Bool-cases, List, [], ap, append_assoc, arith, drop, false, if◌then◌else◌, inl, inr, length,
  ltb, min, refl, subst, subst₂, suc, sym, take, true, ℕ, ◌++◌, ◌+◌, ◌<◌, ◌==◌, ◌||◌, ◌∷◌, ◌≡◌, ◌⊎◌,
}
use twili.Buffer
use twili.Buffer.{Buffer, get_data, read_available, reserve}

-- The write callbacks that were called, in order.
abbrev pub told : List Event → List ℕ
told [] = []
told (took d ∷ events) = told events
told (read_eof ∷ events) = told events
told (wrote w eof ∷ events) = w ∷ told events

-- How often a read callback was called.
abbrev pub calls : List Event → ℕ
calls [] = 0
calls (took d ∷ events) = suc (calls events)
calls (read_eof ∷ events) = suc (calls events)
calls (wrote w eof ∷ events) = calls events

abbrev pub writers : State → List ℕ
writers idle = []
writers (write_pending d w) = w ∷ []
writers (read_pending cb) = []

abbrev pub readers : State → ℕ
readers idle = 0
readers (write_pending d w) = 0
readers (read_pending cb) = 1

-- `ws` and `n` callbacks are accounted for: called, or waiting.
abbrev pub Accounts : List ℕ → ℕ → TwibPipe × List Event → Type 0
Accounts ws n (q, events) =
    (told events ++ writers q.state ≡ ws) × (calls events + readers q.state ≡ n)

abbrev pub AccountsFor : List ℕ → ℕ → Result → Type 0
AccountsFor ws n (done q events) = Accounts ws n (q, events)
AccountsFor ws n aborts = Unit {0}
AccountsFor ws n empty_function = Unit {0}

told-append : (xs ys : List Event) → told (xs ++ ys) ≡ told xs ++ told ys
told-append [] ys = refl
told-append (took d ∷ xs) ys = told-append xs ys
told-append (read_eof ∷ xs) ys = told-append xs ys
told-append (wrote w eof ∷ xs) ys = ap (◌∷◌ w) (told-append xs ys)

calls-append : (xs ys : List Event) → calls (xs ++ ys) ≡ calls xs + calls ys
calls-append [] ys = omega arith
calls-append (took d ∷ xs) ys = omega (arith, calls-append xs ys)
calls-append (read_eof ∷ xs) ys = omega (arith, calls-append xs ys)
calls-append (wrote w eof ∷ xs) ys = calls-append xs ys

-- Both closing calls call whom they dismiss.
pub close_by-Accounts :
    (call : Close) (p : TwibPipe) → Accounts (writers p.state) (readers p.state) (close_by call p)
unfolding close_by
close_by-Accounts stays_open p = (refl, omega arith)
close_by-Accounts closes_reader p = reader p.state
  where
    reader :
        (s : State)
        → (told (told_of_reader s) ++ [] ≡ writers s) × (calls (told_of_reader s) + 0 ≡ readers s)
    reader idle = (refl, omega arith)
    reader (write_pending d w) = (refl, omega arith)
    reader (read_pending cb) = (refl, omega arith)
close_by-Accounts closes_writer p = writer p.state
  where
    writer :
        (s : State)
        → (told (without_reader s).1 ++ writers (without_reader s).0 ≡ writers s)
          × (calls (without_reader s).1 + readers (without_reader s).0 ≡ readers s)
    writer idle = (refl, omega arith)
    writer (write_pending d w) = (refl, omega arith)
    writer (read_pending cb) = (refl, omega arith)

flush-Accounts :
    (p : TwibPipe) (bytes : List ℕ) (w : ℕ)
    → AccountsFor (w ∷ []) 0 (flush_result (flush p bytes w))
unfolding flush settle
flush-Accounts p bytes w =
    split (reserve p.buffer (length bytes)).0 (reserve p.buffer (length bytes)).1
  where
    split :
        (space : ℕ) (b : Buffer) → AccountsFor (w ∷ []) 0 (flush_result (settle p bytes w space b))
    split space b = elim (Bool-cases (ltb (min space (length bytes)) (length bytes))) [
      | inl e ↦ rw (e, settle) (refl, omega arith)
      | inr e ↦ rw (e, settle) (refl, omega arith)
    ]

after-Accounts :
    (seen : List Event) (ws : List ℕ) (n : ℕ) (r : Result)
    → AccountsFor ws n r
    → AccountsFor (told seen ++ ws) (calls seen + n) (after seen r)
after-Accounts seen ws n (done q events) (t, c) = (
  rw (told-append seen events, append_assoc) (ap (◌++◌ (told seen)) t),
  omega (arith, calls-append seen events, c),
)
after-Accounts seen ws n aborts h = tt
after-Accounts seen ws n empty_function h = tt

AccountsFor-cast :
    {ws vs : List ℕ} {n m : ℕ} (r : Result)
    → ws ≡ vs
    → n ≡ m
    → AccountsFor ws n r
    → AccountsFor vs m r
AccountsFor-cast r e f = subst₂ (λ ws n. AccountsFor ws n r) e f

blocked : TwibPipe → Buffer → List ℕ → ℕ → TwibPipe
blocked p b bytes w = record p { buffer = b; state = write_pending bytes w }

read_front-Accounts :
    (p : TwibPipe) (a : ℕ × Close)
    → Accounts (writers p.state) (suc (readers p.state)) (read_front p a)
read_front-Accounts p (n, call) = let c = close_by-Accounts call p in (c.0, omega (arith, c.1))

read_empty-Accounts :
    (eof : Bool) (p : TwibPipe) (cb : ReadCb) → p.state ≡ idle → Accounts [] 1 (read_empty eof p cb)
read_empty-Accounts true p cb e = (ap writers e, omega (arith, ap readers e))
read_empty-Accounts false p cb e = (refl, omega arith)

read_idle-Accounts : (p : TwibPipe) (cb : ReadCb) → p.state ≡ idle → Accounts [] 1 (read_idle p cb)
unfolding read_idle
read_idle-Accounts p cb e = elim (Bool-cases (ltb 0 (read_available p.buffer))) [
  | inl h ↦
      rw (h, read_idle)
        (subst₂ (λ ws n. Accounts ws (suc n) (read_front p (cb (get_data p.buffer)))) (ap writers e)
          (ap readers e) (read_front-Accounts p (cb (get_data p.buffer))))
  | inr h ↦ rw (h, read_idle) (read_empty-Accounts p.hit_eof p cb e)
]

took_flush :
    (d : List ℕ) (q : TwibPipe) (bytes : List ℕ) (w : ℕ)
    → AccountsFor (w ∷ []) 1 (after (took d ∷ []) (flush_result (flush q bytes w)))
took_flush d q bytes w =
    after-Accounts (took d ∷ []) (w ∷ []) 0 (flush_result (flush q bytes w))
      (flush-Accounts q bytes w)

buffered_with-Accounts :
    (p : TwibPipe) (b : Buffer) (bytes : List ℕ) (w : ℕ) (a : ℕ × Close)
    → AccountsFor (w ∷ []) 1 (buffered_with (blocked p b bytes w) bytes w a)
unfolding blocked close_by
buffered_with-Accounts p b bytes w (n, stays_open) =
    took_flush (take n (get_data b)) (blocked p (Buffer.mark_read b n) bytes w) bytes w
buffered_with-Accounts p b bytes w (n, closes_reader) = (refl, omega arith)
buffered_with-Accounts p b bytes w (n, closes_writer) =
    took_flush (take n (get_data b))
      (record (blocked p (Buffer.mark_read b n) bytes w) { hit_eof = true }) bytes w

direct_with-Accounts :
    (p : TwibPipe) (b : Buffer) (bytes : List ℕ) (w : ℕ) (a : ℕ × Close)
    → AccountsFor (w ∷ []) 1 (direct_with (blocked p b bytes w) bytes w a)
unfolding blocked close_by
direct_with-Accounts p b bytes w (n, stays_open) = elim (Bool-cases (ltb (length bytes) n)) [
  | inl e ↦ rw e tt
  | inr e ↦ rw e (took_flush (take n bytes) (blocked p b bytes w) (drop n bytes) w)
]
direct_with-Accounts p b bytes w (n, closes_reader) = (refl, omega arith)
direct_with-Accounts p b bytes w (n, closes_writer) = elim (Bool-cases (ltb (length bytes) n)) [
  | inl e ↦ rw e tt
  | inr e ↦
      rw e (
        took_flush (take n bytes) (record (blocked p b bytes w) { hit_eof = true }) (drop n bytes)
          w)
]

-- The two ways a flush ends, with no condition.
Ends : TwibPipe → ℕ → Bool × TwibPipe × List Event → Type 0
Ends p w r =
    ((d : List ℕ) × (b : Buffer) × (r ≡ (false, blocked p b d w, [])))
    ⊎ ((b : Buffer) × (r ≡ (true, record p { buffer = b; state = idle }, wrote w false ∷ [])))

settle-Ends :
    (p : TwibPipe) (bytes : List ℕ) (w space : ℕ) (b : Buffer) → Ends p w (settle p bytes w space b)
unfolding settle blocked Ends
settle-Ends p bytes w space b = elim (Bool-cases (ltb (min space (length bytes)) (length bytes))) [
  | inl e ↦ inl (drop space bytes, copied b (take (min space (length bytes)) bytes), rw (e, settle))
  | inr e ↦ inr (copied b (take (min space (length bytes)) bytes), rw (e, settle))
]

flush-Ends : (p : TwibPipe) (bytes : List ℕ) (w : ℕ) → Ends p w (flush p bytes w)
unfolding flush
flush-Ends p bytes w =
    settle-Ends p bytes w (reserve p.buffer (length bytes)).0 (reserve p.buffer (length bytes)).1

read_flushed-Accounts :
    (p : TwibPipe) (w : ℕ) (r : Bool × TwibPipe × List Event) (cb : ReadCb)
    → Ends p w r
    → AccountsFor (w ∷ []) 1 (read_flushed r w cb)
unfolding read_flushed read_buffered read_direct read_available Ends blocked
read_flushed-Accounts p w r cb (inl (d, b, e)) =
    subst (λ x. AccountsFor (w ∷ []) 1 (read_flushed x w cb)) (sym e)
      (elim (Bool-cases (ltb 0 (read_available b))) [
        | inl h ↦
            rw h (after-Accounts [] (w ∷ []) 1 _ (buffered_with-Accounts p b d w (cb (get_data b))))
        | inr h ↦ rw h (after-Accounts [] (w ∷ []) 1 _ (direct_with-Accounts p b d w (cb d)))
      ])
read_flushed-Accounts p w r cb (inr (b, e)) =
    subst (λ x. AccountsFor (w ∷ []) 1 (read_flushed x w cb)) (sym e)
      (after-Accounts (wrote w false ∷ []) [] 1 (result (read_idle q cb))
        (read_idle-Accounts q cb refl))
  where
    q : TwibPipe
    q = record p { buffer = b; state = idle }

read_in-Accounts :
    (s : State) (p : TwibPipe) (cb : ReadCb)
    → p.state ≡ s
    → AccountsFor (writers s) (suc (readers s)) (read_in s p cb)
read_in-Accounts idle p cb e = read_idle-Accounts p cb e
read_in-Accounts (write_pending d w) p cb e =
    read_flushed-Accounts p w (flush p d w) cb (flush-Ends p d w)
read_in-Accounts (read_pending old) p cb e = tt

-- `Read` calls the read callback that it is given once, or leaves it waiting; the write callback
-- that waited is called, or waits still. So it is whatever the read callback does with the pipe,
-- unless the call aborts, where the write callback makes no call on the pipe.
pub read-Accounts :
    (p : TwibPipe) (cb : ReadCb) → AccountsFor (writers p.state) (suc (readers p.state)) (read p cb)
unfolding read
read-Accounts p cb = read_in-Accounts p.state p cb refl

write_through-Accounts :
    (p : TwibPipe) (bytes : List ℕ) (w : ℕ) (a : ℕ × Close)
    → AccountsFor (w ∷ []) 1 (write_through p bytes w a)
write_through-Accounts p bytes w (n, stays_open) = ground arith
write_through-Accounts p bytes w (n, closes_reader) = tt
write_through-Accounts p bytes w (n, closes_writer) = tt

write_in-Accounts :
    (s : State) (p : TwibPipe) (bytes : List ℕ) (w : ℕ)
    → p.state ≡ s
    → AccountsFor (writers s ++ (w ∷ [])) (readers s) (write_in s p bytes w)
write_in-Accounts idle p bytes w e = buffered (Buffer.write p.buffer bytes)
  where
    buffered : (r : Bool × Buffer) → AccountsFor (w ∷ []) 0 (write_buffered p bytes w r)
    buffered (true, b) = (ap (λ x. w ∷ writers x) e, omega (arith, ap readers e))
    buffered (false, b) = (refl, omega arith)
write_in-Accounts (write_pending d v) p bytes w e = tt
write_in-Accounts (read_pending cb) p bytes w e = write_through-Accounts p bytes w (cb bytes)

-- `Write` calls its callback, or leaves it waiting behind the one that waits, and calls the read
-- callback that waited, unless the call aborts or a read callback closes the pipe in it.
pub write-Accounts :
    (p : TwibPipe) (bytes : List ℕ) (w : ℕ)
    → p.hit_eof ≡ false
    → 0 < length bytes
    → AccountsFor (writers p.state ++ (w ∷ [])) (readers p.state) (write p bytes w)
unfolding write
write-Accounts p bytes w h n = opens p.hit_eof h
  where
    Goal : Result → Type 0
    Goal = AccountsFor (writers p.state ++ (w ∷ [])) (readers p.state)

    some_bytes : (length bytes == 0) ≡ false
    some_bytes = ground arith

    opens :
        (eof : Bool)
        → eof ≡ false
        → Goal (
            if length bytes == 0 || eof
            then done p (wrote w eof ∷ [])
            else write_in p.state p bytes w)
    opens true e = cc
    opens false e = rw some_bytes (write_in-Accounts p.state p bytes w refl)
