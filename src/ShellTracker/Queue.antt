-- ===== src/ShellTracker/Queue.antt =====
-- The order in which queued processes are launched, and those that are killed while they wait.
use twili.Base.{
  ==_iff, All, All-map, Bool, Bool-cases, List, [], ap, false, if◌then◌else◌, inl, inr, length,
  lookup, none, refl, some, subst, sym, true, ℕ, ◌++◌, ◌==◌, ◌∙◌, ◌∷◌, ◌≡◌,
}
use twili.Process.{
  Event, Process, changes, does, exited, get_result, launch_cancelled, no_longer_requested,
  prepare_for_launch, prepare_if, run_error,
}
use twili.Process.Pending.{change_state-exited}
use twili.ShellTracker.{
  Tracker, emplace, pop_from, pop_queued_process, popped, put, ready_to_launch, request, set_at,
  try_if, try_to_launch,
}

-- A process that was killed in the queue exits, and the loop goes on.
abbrev pub gone : Process → Process
gone p = record p {
  state = exited;
  pipes_closed = true;
  suspended_launch_cb = false;
  run_opener = false;
}

abbrev pub farewell : Process → List Event
farewell p =
    (launch_cancelled p.suspended_launch_cb ++ (changes exited ∷ []))
    ++ run_error p.run_opener (get_result p)

pub prepare-pending :
    (r : ℕ) (p : Process)
    → p.exit_pending ≡ true
    → prepare_for_launch r p ≡ (no_longer_requested, does (gone p) (farewell p))
unfolding prepare_for_launch
prepare-pending r p e =
    ap (λ b. prepare_if b r p) e ∙ ap (λ o. (no_longer_requested, o)) (change_state-exited [] p)

pub prepare-wanted :
    (r : ℕ) (p : Process) → p.exit_pending ≡ false → prepare_for_launch r p ≡ (r, does p [])
unfolding prepare_for_launch
prepare-wanted r p e = ap (λ b. prepare_if b r p) e

pub set_at_self : (a : ℕ) (f : ℕ → Process) (b : ℕ) → set_at a (f a) f b ≡ f b
unfolding set_at
set_at_self a f b = elim (Bool-cases (b == a)) [
  | inl e ↦ rw e (ap f (sym ((==_iff b a).0 e)))
  | inr e ↦ rw e refl
]

pub set_at_same : (a : ℕ) (p : Process) (f : ℕ → Process) → set_at a p f a ≡ p
unfolding set_at
set_at_same a p f = ap (λ b. if b then p else f a) ((==_iff a a).1 refl)

-- A write leaves a property of every process that the new contents have where the old ones had.
pub set_at-keeps :
    (P : Process → Type 0) (a : ℕ) (p : Process) (f : ℕ → Process)
    → (P (f a) → P p)
    → (b : ℕ) → P (f b)
    → P (set_at a p f b)
unfolding set_at
set_at-keeps P a p f kept b h = elim (Bool-cases (b == a)) [
  | inl e ↦ rw e (kept (subst (λ x. P (f x)) ((==_iff b a).0 e) h))
  | inr e ↦ rw e h
]

abbrev pub IsPending : Bool → Process → Type 0
IsPending b p = p.exit_pending ≡ b

abbrev pub HasExited : Process → Type 0
HasExited p = p.state ≡ exited

-- The processes `cs` before the launched one in the queue, and `rest` behind it.
pub record Launches (t : Tracker) (cs : List ℕ) (a : ℕ) (rest : List ℕ) (t' : Tracker)
    : Type 0 where
  pub queue_left : t'.queued ≡ rest
  pub now_created : t'.created ≡ t.created ++ (a ∷ [])
  pub cancelled : All (λ c. HasExited (t'.processes c)) cs
  pub stay_exited : (b : ℕ) → HasExited (t.processes b) → HasExited (t'.processes b)

abbrev pub AllPending : Tracker → List ℕ → Type 0
AllPending t cs = All (λ c. IsPending true (t.processes c)) cs

after_cancel : Tracker → ℕ → Tracker
after_cancel t c = put t c (gone (t.processes c)) (farewell (t.processes c))

after_cancel-IsPending :
    (x : Bool) (t : Tracker) (c b : ℕ)
    → IsPending x (t.processes b)
    → IsPending x ((after_cancel t c).processes b)
unfolding after_cancel
after_cancel-IsPending x t c b h =
    set_at-keeps (IsPending x) c (gone (t.processes c)) t.processes (λ e. e) b h

Launches-cancel :
    {t t' : Tracker} (c : ℕ) {cs : List ℕ} {a : ℕ} {rest : List ℕ}
    → Launches (after_cancel t c) cs a rest t'
    → Launches t (c ∷ cs) a rest t'
unfolding after_cancel
Launches-cancel {t} c l = record {
  queue_left = l.queue_left;
  now_created = l.now_created;
  cancelled = (
    l.stay_exited c
        (ap (λ (p : Process). p.state) (set_at_same c (gone (t.processes c)) t.processes)),
    l.cancelled,
  );
  stay_exited = λ b h.
      l.stay_exited b (set_at-keeps HasExited c (gone (t.processes c)) t.processes (λ e. refl) b h);
}

pop_from-Launches :
    (prepared : ℕ → ℕ) (t : Tracker) (cs : List ℕ) (a : ℕ) (rest : List ℕ)
    → AllPending t cs
    → IsPending false (t.processes a)
    → prepared a ≡ 0
    → (t' : Tracker) × (pop_from prepared (cs ++ (a ∷ rest)) t ≡ some (0, some a, t'))
      × Launches t cs a rest t'
unfolding pop_from after_cancel
pop_from-Launches prepared t [] a rest pending wanted ok = (
  record (put t a (t.processes a) []) { queued = rest; created = t.created ++ (a ∷ []) },
  ap (popped (pop_from prepared rest) a rest t) (
      prepare-wanted (prepared a) (t.processes a) wanted
      ∙ ap (λ r. (r, does (t.processes a) [])) ok),
  record {
    queue_left = refl;
    now_created = refl;
    cancelled = tt;
    stay_exited = λ b h. ap (λ (p : Process). p.state) (set_at_self a t.processes b) ∙ h;
  },
)
pop_from-Launches prepared t (c ∷ cs) a rest (p, pending) wanted ok =
    let t1 = after_cancel t c in
    let (t', e, l) =
      pop_from-Launches prepared t1 cs a rest
        (All-map (λ b. IsPending true (t.processes b)) (λ b. IsPending true (t1.processes b))
          (λ b h. after_cancel-IsPending true t c b h) cs pending)
        (after_cancel-IsPending false t c a wanted) ok in
    (
      t',
      ap (popped (pop_from prepared (cs ++ (a ∷ rest))) c (cs ++ (a ∷ rest)) t)
            (prepare-pending (prepared c) (t.processes c) p)
          ∙ e,
      Launches-cancel c l,
    )

-- While no process is created and the system launches, the first process of the queue that was not
-- killed is launched and tracked by its id; those that were killed before it exit, and the others
-- stay in the queue.
pub try_to_launch-Launches :
    (prepared : ℕ → ℕ) (pid : ℕ) (t : Tracker) (cs : List ℕ) (a : ℕ) (rest : List ℕ)
    → t.created ≡ []
    → t.queued ≡ cs ++ (a ∷ rest)
    → AllPending t cs
    → IsPending false (t.processes a)
    → prepared a ≡ 0
    → lookup pid t.tracking ≡ none
    → (t' : Tracker) × (try_to_launch prepared (0, pid) t ≡ some t') × Launches t cs a rest t'
unfolding try_to_launch ready_to_launch pop_queued_process
try_to_launch-Launches prepared pid t cs a rest ready queue pending wanted ok free =
    let t0 = record t { tracker_signal = false } in
    let (t', e, l) = pop_from-Launches prepared t0 cs a rest pending wanted ok in
    (
      record t' { tracking = emplace pid a t'.tracking },
      ap (λ c. try_if (length c == 0) prepared (0, pid) t0) ready
          ∙ ap (λ q. request (0, pid) (pop_from prepared q t0)) queue
          ∙ ap (request (0, pid)) e,
      record {
        queue_left = l.queue_left;
        now_created = l.now_created;
        cancelled = l.cancelled;
        stay_exited = l.stay_exited;
      },
    )
