-- ===== src/Process/Answers.antt =====
-- Sequences of calls of a process: each request to launch and each wait is answered.
use twili.Base.{Bool, List, [], ap, arith, false, true, ℕ, ◌+◌, ◌∷◌, ◌≡◌}
use twili.Process.{
  Outcome, Process, Region, State, aborts, attach, attach_if, attached, change_monitored,
  change_state, continue, continue_if, crashed, created, does, exited, is_suspended, kill, kill_in,
  launch, launch_suspended, no_longer_requested, prepare_for_launch, prepare_if, resume, running,
  set_result, shim_suspended, started, terminate, terminate_if, terminate_in, then_next,
  throws_bad_function, wait_if, wait_to_start, with_events,
}
use twili.Process.Pending.{
  Balances, Call, Orderly, Sums, asks_launch, asks_wait, attaches, bit, call, change_state-Balances,
  continues, crashes, exits, kills_it, launches, launches_suspended, prepares, resume-Balances,
  sets_result, terminates, then_next-Balances, waits, with_events-Balances,
}
use twili.Process.Settled.{Settled, Settles, call-Settles}

terminate_if-Balances : (b : Bool) (p : Process) → Balances 0 0 p (terminate_if b p)
terminate_if-Balances true p = (omega arith, omega arith)
terminate_if-Balances false p = (omega arith, omega arith)

stays-Balances : (p : Process) → Balances 0 0 p (does p [])
stays-Balances p = (omega arith, omega arith)

module _ (p : Process) where
  terminate-Balances : (state : State) → Balances 0 0 p (terminate_in state p)
  terminate-Balances created = change_state-Balances exited [] p
  terminate-Balances shim_suspended =
      then_next-Balances 0 0 0 0 p (resume no_longer_requested p) (λ p'. terminate_if p'.proc p')
        (resume-Balances no_longer_requested p) (λ p'. terminate_if-Balances p'.proc p')
  terminate-Balances exited = stays-Balances p
  terminate-Balances started = terminate_if-Balances p.proc p
  terminate-Balances attached = terminate_if-Balances p.proc p
  terminate-Balances running = terminate_if-Balances p.proc p
  terminate-Balances crashed = terminate_if-Balances p.proc p

  kill-Balances : (state : State) → Balances 0 0 p (kill_in state p)
  kill-Balances created = change_state-Balances exited [] p
  kill-Balances started = (omega arith, omega arith)
  kill-Balances shim_suspended = resume-Balances no_longer_requested p
  kill-Balances exited = stays-Balances p
  kill-Balances attached = (omega arith, omega arith)
  kill-Balances running = (omega arith, omega arith)
  kill-Balances crashed = (omega arith, omega arith)

  continue-Balances : (b : Bool) → Balances 0 0 p (continue_if b p)
  continue-Balances true =
      then_next-Balances 0 0 0 0 p (change_state running [] p) (resume 0)
        (change_state-Balances running [] p) (resume-Balances 0)
  continue-Balances false = (omega arith, omega arith)

  attach-Balances : (b : Bool) (regions : List Region) → Balances 0 0 p (attach_if b regions p)
  attach-Balances true regions = tt
  attach-Balances false regions = change_state-Balances attached regions (record p { proc = true })

  wait-Balances : (b : Bool) → p.suspended_launch_cb ≡ false → Balances 0 1 p (wait_if b p)
  unfolding change_state change_monitored
  wait-Balances true idle = (omega arith, omega (arith, ap bit idle))
  wait-Balances false idle = (omega arith, omega arith)

  prepare-Balances : (b : Bool) (r : ℕ) → Balances 0 0 p (prepare_if b r p).1
  prepare-Balances true r = change_state-Balances exited [] p
  prepare-Balances false r = stays-Balances p

  call-Balances : (c : Call) → Orderly p c → Balances (asks_launch c) (asks_wait c) p (call p c)
  unfolding call launch launch_suspended terminate kill continue wait_to_start attach
      prepare_for_launch set_result change_state change_monitored
  call-Balances launches idle = (omega (arith, ap bit idle), omega arith)
  call-Balances launches_suspended idle = (omega (arith, ap bit idle), omega arith)
  call-Balances terminates h = terminate-Balances p.state
  call-Balances kills_it h = kill-Balances p.state
  call-Balances continues h = continue-Balances (is_suspended p.state)
  call-Balances waits idle = wait-Balances p.suspended_launch_enabled idle
  call-Balances exits h = change_state-Balances exited [] p
  call-Balances crashes h = change_state-Balances crashed [] p
  call-Balances (attaches regions) h = attach-Balances p.proc regions
  call-Balances (prepares r) h = prepare-Balances p.exit_pending r
  call-Balances (sets_result r) h = (omega arith, omega arith)

unfoldable pub run : Process → List Call → Outcome
run p [] = does p []
run p (c ∷ cs) = then_next (call p c) (λ p'. run p' cs)

-- At each call, no second request is made while one waits.
abbrev pub OrderlyAfter : (Process → Type 0) → Outcome → Type 0
OrderlyAfter next (does p events) = next p
OrderlyAfter next throws_bad_function = Unit
OrderlyAfter next aborts = Unit

abbrev pub AllOrderly : Process → List Call → Type 0
AllOrderly p [] = Unit
AllOrderly p (c ∷ cs) = Orderly p c × OrderlyAfter (λ p'. AllOrderly p' cs) (call p c)

abbrev pub launches_in : List Call → ℕ
launches_in [] = 0
launches_in (c ∷ cs) = asks_launch c + launches_in cs

abbrev pub waits_in : List Call → ℕ
waits_in [] = 0
waits_in (c ∷ cs) = asks_wait c + waits_in cs

-- The requests that were made are answered, or the process holds them; once it has exited, it holds
-- none, and its pipes are closed.
abbrev pub Accounts : Process → List Call → Outcome → Type 0
Accounts p cs (does p' events) = Sums (launches_in cs) (waits_in cs) p p' events × Settled p'
Accounts p cs throws_bad_function = Unit
Accounts p cs aborts = Unit

step-Accounts :
    (p : Process) (c : Call) (cs : List Call) (o : Outcome)
    → Balances (asks_launch c) (asks_wait c) p o
    → Settles o
    → OrderlyAfter (λ p'. AllOrderly p' cs) o
    → ((p' : Process) → AllOrderly p' cs → Settled p' → Accounts p' cs (run p' cs))
    → Accounts p (c ∷ cs) (then_next o (λ p'. run p' cs))
step-Accounts p c cs (does p' events) sums settled orderly rest =
    joined (run p' cs) (rest p' orderly settled)
  where
    joined : (o : Outcome) → Accounts p' cs o → Accounts p (c ∷ cs) (with_events events o)
    joined (does p'' more) (s, settled') = (
      with_events-Balances (asks_launch c) (asks_wait c) (launches_in cs) (waits_in cs) p p' events
          (does p'' more) sums s,
      settled',
    )
    joined throws_bad_function s = tt
    joined aborts s = tt
step-Accounts p c cs throws_bad_function sums settled orderly rest = tt
step-Accounts p c cs aborts sums settled orderly rest = tt

-- Over all calls of a process, in any order and from any state, every request to launch and every
-- wait to start is answered once or still waits, and none waits for a process that has exited.
pub run-Accounts :
    (p : Process) (cs : List Call) → AllOrderly p cs → Settled p → Accounts p cs (run p cs)
unfolding run
run-Accounts p [] h s = (stays-Balances p, s)
run-Accounts p (c ∷ cs) (h, rest) s =
    step-Accounts p c cs (call p c) (call-Balances p c h) (call-Settles p s c) rest
      (λ p' o s'. run-Accounts p' cs o s')
