-- ===== src/Process/Settled.antt =====
-- A process that has exited has nothing that waits for it, and its pipes are closed.
use twili.Base.{Bool, Bool-cases, List, [], false, inl, inr, refl, true, ℕ, ◌++◌, ◌==◌, ◌∷◌, ◌≡◌}
use twili.Process.{
  Event, Outcome, Process, Region, State, aborts, attach, attach_if, attached, call_launch,
  change_monitored, change_state, changes, continue, continue_if, crashed, created, does, entered,
  exited, find_target_entry, is_exited, is_suspended, kill, kill_in, launch, launch_returns,
  launch_suspended, no_longer_requested, prepare_for_launch, prepare_if, resume, run_ok, running,
  set_result, shim_suspended, started, terminate, terminate_if, terminate_in, then_next,
  throws_bad_function, wait_if, wait_to_start, with_events,
}
use twili.Process.Pending.{
  Call, attaches, call, continues, crashes, exits, kills_it, launches, launches_suspended, prepares,
  sets_result, terminates, waits,
}

abbrev pub Settled : Process → Type 0
Settled p =
    is_exited p.state ≡ true
    → (p.run_opener ≡ false) × (p.suspended_launch_cb ≡ false) × (p.pipes_closed ≡ true)

abbrev pub Settles : Outcome → Type 0
Settles (does p events) = Settled p
Settles throws_bad_function = Unit
Settles aborts = Unit

with_events-Settles :
    (events : List Event) (o : Outcome) → Settles o → Settles (with_events events o)
with_events-Settles events (does p more) s = s
with_events-Settles events throws_bad_function s = tt
with_events-Settles events aborts s = tt

then_next-Settles :
    (o : Outcome) (next : Process → Outcome)
    → Settles o
    → ((p : Process) → Settled p → Settles (next p))
    → Settles (then_next o next)
then_next-Settles (does p events) next s f = with_events-Settles events (next p) (f p s)
then_next-Settles throws_bad_function next s f = tt
then_next-Settles aborts next s f = tt

entered-Settles :
    (p : Process) (events : List Event) (e : ℕ × ℕ) → Settled p → Settles (entered p events e)
entered-Settles p events (entry, found) s = elim (Bool-cases (found == 2)) [
  | inl e ↦ rw e s
  | inr e ↦ rw e tt
]

change_state-Settles :
    (new : State) (regions : List Region) (p : Process) → Settles (change_state new regions p)
unfolding change_state change_monitored
change_state-Settles attached regions p =
    entered-Settles (record p { state = attached; run_opener = false })
      ((changes attached ∷ []) ++ run_ok p.run_opener) (find_target_entry p.target_entry 0 regions)
      (λ e. absurd (cc e))
change_state-Settles exited regions p = λ e. (refl, refl, refl)
change_state-Settles created regions p = λ e. absurd (cc e)
change_state-Settles started regions p = λ e. absurd (cc e)
change_state-Settles shim_suspended regions p = λ e. absurd (cc e)
change_state-Settles running regions p = λ e. absurd (cc e)
change_state-Settles crashed regions p = λ e. absurd (cc e)

call_launch-Settles :
    (code : ℕ) (b : Bool) (p : Process) → Settled p → Settles (call_launch code b p)
call_launch-Settles code true p s = s
call_launch-Settles code false p s = tt

resume-Settles : (code : ℕ) (p : Process) → Settled p → Settles (resume code p)
resume-Settles code p s =
    call_launch-Settles code p.suspended_launch_cb (record p { suspended_launch_cb = false })
      (λ e. ((s e).0, refl, (s e).2))

terminate_if-Settles : (b : Bool) (p : Process) → Settled p → Settles (terminate_if b p)
terminate_if-Settles true p s = s
terminate_if-Settles false p s = s

module _ (p : Process) (s : Settled p) where
  terminate-Settles : (state : State) → Settles (terminate_in state p)
  terminate-Settles created = change_state-Settles exited [] p
  terminate-Settles shim_suspended =
      then_next-Settles (resume no_longer_requested p) (λ p'. terminate_if p'.proc p')
        (resume-Settles no_longer_requested p s) (λ p' s'. terminate_if-Settles p'.proc p' s')
  terminate-Settles exited = s
  terminate-Settles started = terminate_if-Settles p.proc p s
  terminate-Settles attached = terminate_if-Settles p.proc p s
  terminate-Settles running = terminate_if-Settles p.proc p s
  terminate-Settles crashed = terminate_if-Settles p.proc p s

  kill-Settles : (state : State) → Settles (kill_in state p)
  kill-Settles created = change_state-Settles exited [] p
  kill-Settles started = s
  kill-Settles shim_suspended = resume-Settles no_longer_requested p s
  kill-Settles exited = s
  kill-Settles attached = s
  kill-Settles running = s
  kill-Settles crashed = s

  continue-Settles : (b : Bool) → Settles (continue_if b p)
  continue-Settles true =
      then_next-Settles (change_state running [] p) (resume 0) (change_state-Settles running [] p)
        (λ p' s'. resume-Settles 0 p' s')
  continue-Settles false = s

  attach-Settles : (b : Bool) (regions : List Region) → Settles (attach_if b regions p)
  attach-Settles true regions = tt
  attach-Settles false regions = change_state-Settles attached regions (record p { proc = true })

  wait-Settles : (b : Bool) → Settles (wait_if b p)
  unfolding change_state change_monitored
  wait-Settles true = λ e. absurd (cc e)
  wait-Settles false =
      then_next-Settles (change_state running [] p) (λ p'. does p' (launch_returns 0 ∷ []))
        (change_state-Settles running [] p) (λ p' s'. s')

  prepare-Settles : (b : Bool) (r : ℕ) → Settles (prepare_if b r p).1
  prepare-Settles true r = change_state-Settles exited [] p
  prepare-Settles false r = s

  pub call-Settles : (c : Call) → Settles (call p c)
  unfolding call launch launch_suspended terminate kill continue wait_to_start attach
      prepare_for_launch set_result
  call-Settles launches = change_state-Settles started [] _
  call-Settles launches_suspended = change_state-Settles started [] _
  call-Settles terminates = terminate-Settles p.state
  call-Settles kills_it = kill-Settles p.state
  call-Settles continues = continue-Settles (is_suspended p.state)
  call-Settles waits = wait-Settles p.suspended_launch_enabled
  call-Settles exits = change_state-Settles exited [] p
  call-Settles crashes = change_state-Settles crashed [] p
  call-Settles (attaches regions) = attach-Settles p.proc regions
  call-Settles (prepares r) = prepare-Settles p.exit_pending r
  call-Settles (sets_result r) = s
