-- ===== src/ShellTracker/Lost.antt =====
-- Launches that the tracker loses.
use twili.ShellTracker.Limbo.{Call, attaches, call, call_next, exits, queues, run, tries}
use twili.Base.{
  All, List, Option, [], ap, append-nil, arith, false, length, lookup, none, refl, remove, some, ℕ,
  ◌==◌, ◌∙◌, ◌∷◌, ◌≡◌, ◌≢◌,
}
use twili.Process.{Process, no_longer_requested}
use twili.Process.Pending.{change_state-exited}
use twili.ShellTracker.{
  Tracker, exit_tracked, pop_from, pop_queued_process, popped, put, queue_launch, ready_to_launch,
  request, settle, shell_exit, try_if, try_to_launch,
}
use twili.ShellTracker.Queue.{
  HasExited, IsPending, farewell, gone, prepare-wanted, set_at-keeps, set_at_same, set_at_self,
}

-- Where the preparation of the first process fails, it leaves the queue as it is: it is not created,
-- and nobody tells it, so that its request to launch is not answered; and nothing else is launched.
pub try_to_launch-unprepared :
    (prepared : ℕ → ℕ) (answer : ℕ × ℕ) (t : Tracker) (a : ℕ) (rest : List ℕ)
    → t.created ≡ []
    → t.queued ≡ a ∷ rest
    → IsPending false (t.processes a)
    → prepared a ≢ 0
    → prepared a ≢ no_longer_requested
    → (t' : Tracker) × (try_to_launch prepared answer t ≡ some t')
      × (t'.queued ≡ rest)
      × (t'.created ≡ [])
      × ((b : ℕ) → t'.processes b ≡ t.processes b)
      × (t'.log ≡ t.log)
      × (t'.tracker_signal ≡ false)
unfolding try_to_launch ready_to_launch pop_queued_process pop_from
try_to_launch-unprepared prepared answer t a rest ready queue wanted failed kept =
    let t0 = record t { tracker_signal = false } in
    let t1 = put t0 a (t.processes a) [] in
    let f : (prepared a == no_longer_requested) ≡ false = ground (arith, kept) in
    let g : (prepared a == 0) ≡ false = ground (arith, failed) in
    (
      record t1 { queued = rest },
      ap (λ c. try_if (length c == 0) prepared answer t0) ready
          ∙ ap (λ q. request answer (pop_from prepared q t0)) queue
          ∙ ap (λ o. request answer (popped (pop_from prepared rest) a rest t0 o))
              (prepare-wanted (prepared a) (t.processes a) wanted)
          ∙ rw (f, g) refl,
      refl,
      ready,
      set_at_self a t.processes,
      append-nil t.log,
      refl,
    )

-- A call that attaches no process.
abbrev pub AttachesNone : Call → Type 0
AttachesNone (queues a) = Unit
AttachesNone (tries prepared answer) = Unit
AttachesNone (attaches regions) = ⊥
AttachesNone (exits pid) = Unit

-- The process is created and has exited.
abbrev pub IsStuck : ℕ → Tracker → Type 0
IsStuck a t = (t.created ≡ a ∷ []) × HasExited (t.processes a)

-- While it is so, `TryToLaunch` only clears the signal.
try_to_launch-IsStuck :
    (prepared : ℕ → ℕ) (answer : ℕ × ℕ) (t : Tracker) (a : ℕ)
    → IsStuck a t
    → try_to_launch prepared answer t ≡ some (record t { tracker_signal = false })
unfolding try_to_launch ready_to_launch
try_to_launch-IsStuck prepared answer t a (limbo, gone_already) =
    ap (λ c. try_if (length c == 0) prepared answer (record t { tracker_signal = false })) limbo

exit_tracked-IsStuck :
    (pid : ℕ) (t : Tracker) (a : ℕ) (found : Option ℕ)
    → IsStuck a t
    → (t' : Tracker) × (exit_tracked pid t found ≡ some t') × IsStuck a t'
exit_tracked-IsStuck pid t a none s = (t, refl, s)
exit_tracked-IsStuck pid t a (some b) (limbo, exited_before) =
    let p = t.processes b in
    let t1 = record t { tracking = remove pid t.tracking } in
    (
      put t1 b (gone p) (farewell p),
      ap (settle t1 b) (change_state-exited [] p),
      (limbo, set_at-keeps HasExited b (gone p) t.processes (λ e. refl) a exited_before),
    )

call-IsStuck :
    (t : Tracker) (c : Call) (a : ℕ)
    → AttachesNone c
    → IsStuck a t
    → (t' : Tracker) × (call t c ≡ some t') × IsStuck a t'
unfolding call queue_launch shell_exit
call-IsStuck t (queues b) a n s = (queue_launch t b, refl, s)
call-IsStuck t (tries prepared answer) a n s =
    (record t { tracker_signal = false }, try_to_launch-IsStuck prepared answer t a s, s)
call-IsStuck t (attaches regions) a n s = absurd n
call-IsStuck t (exits pid) a n s = exit_tracked-IsStuck pid t a (lookup pid t.tracking) s

run-IsStuck :
    (t : Tracker) (cs : List Call) (a : ℕ)
    → All AttachesNone cs
    → IsStuck a t
    → (t' : Tracker) × (run t cs ≡ some t') × IsStuck a t'
unfolding run
run-IsStuck t [] a n s = (t, refl, s)
run-IsStuck t (c ∷ cs) a (n, ns) s =
    let (t1, e, s1) = call-IsStuck t c a n s in
    let (t2, f, s2) = run-IsStuck t1 cs a ns s1 in
    (t2, ap (λ o. call_next o (λ t'. run t' cs)) e ∙ f, s2)

-- A process that exits before it attaches stays created. From then on, whatever is queued, tried and
-- exits, and until a kernel process attaches, the tracker goes on without a failure and does not
-- launch: each TryToLaunch clears the signal and does nothing else.
pub shell_exit-blocks :
    (t : Tracker) (pid a : ℕ) (cs : List Call)
    → t.created ≡ a ∷ []
    → lookup pid t.tracking ≡ some a
    → All AttachesNone cs
    → (t' : Tracker) × (call_next (shell_exit pid t) (λ t1. run t1 cs) ≡ some t')
      × HasExited (t'.processes a)
      × (t'.created ≡ a ∷ [])
      × ((prepared : ℕ → ℕ) (answer : ℕ × ℕ)
          → try_to_launch prepared answer t' ≡ some (record t' { tracker_signal = false }))
unfolding shell_exit
shell_exit-blocks t pid a cs limbo tracked none_attach =
    let p = t.processes a in
    let t1 = put (record t { tracking = remove pid t.tracking }) a (gone p) (farewell p) in
    let e : exit_tracked pid t (lookup pid t.tracking) ≡ some t1 =
      ap (exit_tracked pid t) tracked
      ∙ ap (settle (record t { tracking = remove pid t.tracking }) a) (change_state-exited [] p) in
    let stuck : HasExited (t1.processes a) =
      ap (λ (q : Process). q.state) (set_at_same a (gone p) t.processes) in
    let (t2, f, s) = run-IsStuck t1 cs a none_attach (limbo, stuck) in
    (
      t2,
      ap (λ o. call_next o (λ x. run x cs)) e ∙ f,
      s.1,
      s.0,
      λ prepared answer. try_to_launch-IsStuck prepared answer t2 a s,
    )
