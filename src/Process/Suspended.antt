-- ===== src/Process/Suspended.antt =====
-- Calls of a suspended process: its launch waits to return, until one of them lets it.
use twili.Base.{Bool, List, [], ap, false, refl, true, ℕ, ◌++◌, ◌∙◌, ◌∷◌, ◌≡◌}
use twili.Process.{
  Event, Outcome, Process, State, attached, call_launch, change_monitored, change_state, changes,
  continue, continue_if, crashed, created, does, exited, is_suspended, kill, kill_in, launch,
  launch_returns, launch_suspended, no_longer_requested, prepare_for_launch, prepare_if, resume,
  running, set_result, shim_suspended, started, terminate, terminate_if, terminate_in, then_next,
  throws_bad_function, wait_if, wait_to_start, with_events,
}
use twili.Process.Pending.{
  Call, attaches, call, change_state-exited, continues, crashes, exits, kills_it, launches,
  launches_suspended, prepares, sets_result, terminates, waits,
}
use twili.Process.Answers.{run}

-- A suspended process has a launch that waits.
abbrev pub Waits : Process → Type 0
Waits p = is_suspended p.state ≡ true → p.suspended_launch_cb ≡ true

-- No call that attaches a kernel process.
abbrev pub Detached : Call → Type 0
Detached (attaches regions) = ⊥
Detached c = Unit

abbrev pub Does : Outcome → Type 0
Does o = (p : Process) × (events : List Event) × (o ≡ does p events)

resume-Does : (code : ℕ) (p : Process) → p.suspended_launch_cb ≡ true → Does (resume code p)
resume-Does code p e =
    (_, _, ap (λ b. call_launch code b (record p { suspended_launch_cb = false })) e)

terminate_if-Does : (b : Bool) (p : Process) → Does (terminate_if b p)
terminate_if-Does true p = (_, _, refl)
terminate_if-Does false p = (_, _, refl)

then_next-Does :
    (o : Outcome) (next : Process → Outcome)
    → Does o
    → ((p : Process) → Does (next p))
    → Does (then_next o next)
then_next-Does o next (p, events, e) f =
    let (p', more, e') = f p in
    (p', events ++ more, ap (λ x. then_next x next) e ∙ ap (with_events events) e')

module _ (p : Process) where
  exit-Does : Does (change_state exited [] p)
  exit-Does = (_, _, change_state-exited [] p)

  kill-Does :
      (state : State)
      → (is_suspended state ≡ true → p.suspended_launch_cb ≡ true)
      → Does (kill_in state p)
  kill-Does created w = exit-Does
  kill-Does started w = (_, _, refl)
  kill-Does shim_suspended w = resume-Does no_longer_requested p (w refl)
  kill-Does exited w = (_, _, refl)
  kill-Does attached w = (_, _, refl)
  kill-Does running w = (_, _, refl)
  kill-Does crashed w = (_, _, refl)

  terminate-Does :
      (state : State)
      → (is_suspended state ≡ true → p.suspended_launch_cb ≡ true)
      → Does (terminate_in state p)
  terminate-Does created w = exit-Does
  terminate-Does shim_suspended w =
      then_next-Does (resume no_longer_requested p) (λ p'. terminate_if p'.proc p')
        (resume-Does no_longer_requested p (w refl)) (λ p'. terminate_if-Does p'.proc p')
  terminate-Does exited w = (_, _, refl)
  terminate-Does started w = terminate_if-Does p.proc p
  terminate-Does attached w = terminate_if-Does p.proc p
  terminate-Does running w = terminate_if-Does p.proc p
  terminate-Does crashed w = terminate_if-Does p.proc p

  continue-Does : (b : Bool) → (b ≡ true → p.suspended_launch_cb ≡ true) → Does (continue_if b p)
  unfolding change_state change_monitored
  continue-Does true w =
      let (p', events, e) = resume-Does 0 (record p { state = running }) (w refl) in
      (p', (changes running ∷ []) ++ events, ap (with_events (changes running ∷ [])) e)
  continue-Does false w = (_, _, refl)

  wait-Does : (b : Bool) → Does (wait_if b p)
  unfolding change_state change_monitored
  wait-Does true = (_, _, refl)
  wait-Does false = (_, _, refl)

  prepare-Does : (b : Bool) (r : ℕ) → Does (prepare_if b r p).1
  prepare-Does true r = exit-Does
  prepare-Does false r = (_, _, refl)

  -- Every call but that of a kernel process to attach is carried out, where a suspended process has
  -- a launch that waits.
  pub call-Does : (c : Call) → Detached c → Waits p → Does (call p c)
  unfolding call launch launch_suspended terminate kill continue wait_to_start prepare_for_launch
      set_result change_state change_monitored
  call-Does launches h w = (_, _, refl)
  call-Does launches_suspended h w = (_, _, refl)
  call-Does terminates h w = terminate-Does p.state w
  call-Does kills_it h w = kill-Does p.state w
  call-Does continues h w = continue-Does (is_suspended p.state) w
  call-Does waits h w = wait-Does p.suspended_launch_enabled
  call-Does exits h w = exit-Does
  call-Does crashes h w = (_, _, refl)
  call-Does (attaches regions) h w = absurd h
  call-Does (prepares r) h w = prepare-Does p.exit_pending r
  call-Does (sets_result r) h w = (_, _, refl)

-- The calls that let a suspended launch return.
abbrev pub Resumes : Call → Type 0
Resumes terminates = Unit
Resumes kills_it = Unit
Resumes continues = Unit
Resumes c = ⊥

killed : Process → Process
killed p = record p { suspended_launch_cb = false }

kill-suspended :
    (p : Process)
    → p.state ≡ shim_suspended
    → p.suspended_launch_cb ≡ true
    → call p kills_it ≡ does (killed p) (launch_returns no_longer_requested ∷ [])
unfolding call kill killed
kill-suspended p e w =
    ap (λ s. kill_in s p) e
    ∙ ap (λ b. call_launch no_longer_requested b (record p { suspended_launch_cb = false })) w

killed-throws :
    (p : Process) (c : Call)
    → Resumes c
    → p.state ≡ shim_suspended
    → call (killed p) c ≡ throws_bad_function
unfolding call kill terminate continue killed change_state change_monitored
killed-throws p terminates r e = ap (λ s. terminate_in s (killed p)) e
killed-throws p kills_it r e = ap (λ s. kill_in s (killed p)) e
killed-throws p continues r e = ap (λ s. continue_if (is_suspended s) (killed p)) e
killed-throws p launches r e = absurd r
killed-throws p launches_suspended r e = absurd r
killed-throws p waits r e = absurd r
killed-throws p exits r e = absurd r
killed-throws p crashes r e = absurd r
killed-throws p (attaches regions) r e = absurd r
killed-throws p (prepares code) r e = absurd r
killed-throws p (sets_result code) r e = absurd r

-- A suspended process that is killed stays in its state, without a launch to return from: the next
-- call that would let it return throws.
pub run-killed_twice :
    (p : Process) (c : Call)
    → Resumes c
    → p.state ≡ shim_suspended
    → p.suspended_launch_cb ≡ true
    → run p (kills_it ∷ c ∷ []) ≡ throws_bad_function
unfolding run
run-killed_twice p c r e w =
    ap (λ o. then_next o (λ p'. run p' (c ∷ []))) (kill-suspended p e w)
    ∙ ap
        (λ o. with_events (launch_returns no_longer_requested ∷ []) (then_next o (λ p'. run p' [])))
        (killed-throws p c r e)
