-- ===== src/Process.antt =====
-- twili/process/MonitoredProcess.cpp and .hpp, and TrackedProcess.cpp and .hpp: the states of a
-- process that the console launches, and what waits for them. The monitors, the callbacks and the
-- calls of the kernel are listed in order. The kernel's answers are arguments; the debug output, the
-- notes of a crash report and the configuration that is handed to a process are left out, and so is
-- the queue of the tracker, which `Launch` goes on to.
pub mod Pending
pub mod Settled
pub mod Answers
pub mod Suspended
mod Tests
use twili.Base.{Bool, List, [], false, if◌then◌else◌, suc, true, ℕ, ◌&&◌, ◌++◌, ◌==◌, ◌∷◌}
use twili.Messages.{twili_result}

pub data State : Type 0 where
  created started attached shim_suspended running crashed exited : State

pub data Event : Type 0 where
  -- `suspended_launch_cb`, with a result code.
  launch_returns : ℕ → Event
  -- The response to the request to launch: the process's id, or an error.
  run_succeeds : Event
  run_fails : ℕ → Event
  changes : State → Event
  terminates_process : Event
  kills : Event

-- `proc`, `run_opener` and `suspended_launch_cb` are whether they are set.
pub record Process : Type 0 where
  pub state : State
  pub result : ℕ
  pub proc : Bool
  pub target_entry : ℕ
  pub suspended_launch_enabled : Bool
  pub suspended_launch_cb : Bool
  pub pipes_closed : Bool
  pub run_opener : Bool
  pub exit_pending : Bool

-- The call of an empty `std::function` throws; `aborts` is `Abort`.
pub data Outcome : Type 0 where
  does : Process → List Event → Outcome
  throws_bad_function aborts : Outcome

abbrev pub no_longer_requested : ℕ
no_longer_requested = twili_result 44

abbrev pub unspecified : ℕ
unspecified = twili_result 37

abbrev pub with_events : List Event → Outcome → Outcome
with_events before (does p events) = does p (before ++ events)
with_events before throws_bad_function = throws_bad_function
with_events before aborts = aborts

abbrev pub then_next : Outcome → (Process → Outcome) → Outcome
then_next (does p events) next = with_events events (next p)
then_next throws_bad_function next = throws_bad_function
then_next aborts next = aborts

abbrev pub is_exited : State → Bool
is_exited exited = true
is_exited s = false

abbrev pub launch_cancelled : Bool → List Event
launch_cancelled true = launch_returns no_longer_requested ∷ []
launch_cancelled false = []

abbrev pub closing : Bool → Process → Process × List Event
closing true p = (
  record p { pipes_closed = true; suspended_launch_cb = false },
  launch_cancelled p.suspended_launch_cb,
)
closing false p = (p, [])

abbrev pub changed : State → Process × List Event → Process × List Event
changed new (p, events) = (record p { state = new }, events ++ (changes new ∷ []))

-- `MonitoredProcess::ChangeState`
unfoldable pub change_monitored : State → Process → Process × List Event
change_monitored new p = changed new (closing (is_exited new) p)

-- A region of the memory that `QueryProcessMemory` steps through.
pub record Region : Type 0 where
  pub base_addr : ℕ
  pub memory_type : ℕ
  pub permission : ℕ

abbrev pub is_code : Region → Bool
is_code region = region.memory_type == 3 && region.permission == 5

-- The loop over the regions: the entry, and how many regions of code there are.
unfoldable pub find_target_entry : ℕ → ℕ → List Region → ℕ × ℕ
find_target_entry entry found [] = (entry, found)
find_target_entry entry found (region ∷ regions) =
    if is_code region
    then find_target_entry (if suc found == 2 then region.base_addr else entry) (suc found) regions
    else find_target_entry entry found regions

unfoldable pub get_result : Process → ℕ
get_result p = if p.result == 0 then unspecified else p.result

abbrev pub run_ok : Bool → List Event
run_ok true = run_succeeds ∷ []
run_ok false = []

abbrev pub run_error : Bool → ℕ → List Event
run_error true code = run_fails code ∷ []
run_error false code = []

abbrev pub entered : Process → List Event → ℕ × ℕ → Outcome
entered p events (entry, found) =
    if found == 2 then does (record p { target_entry = entry }) events else aborts

-- What `TrackedProcessBase::ChangeState` does after the other.
abbrev pub tracked_change : State → List Region → Process × List Event → Outcome
tracked_change attached regions (p, events) =
    entered (record p { run_opener = false }) (events ++ run_ok p.run_opener)
      (find_target_entry p.target_entry 0 regions)
tracked_change exited regions (p, events) =
    does (record p { run_opener = false }) (events ++ run_error p.run_opener (get_result p))
tracked_change created regions (p, events) = does p events
tracked_change started regions (p, events) = does p events
tracked_change shim_suspended regions (p, events) = does p events
tracked_change running regions (p, events) = does p events
tracked_change crashed regions (p, events) = does p events

unfoldable pub change_state : State → List Region → Process → Outcome
change_state new regions p = tracked_change new regions (change_monitored new p)

abbrev pub exit_process : Process → Outcome
exit_process p = change_state exited [] p

-- `slcb(code)`, which has been taken out of the process.
abbrev pub call_launch : ℕ → Bool → Process → Outcome
call_launch code true p = does p (launch_returns code ∷ [])
call_launch code false p = throws_bad_function

abbrev pub resume : ℕ → Process → Outcome
resume code p = call_launch code p.suspended_launch_cb (record p { suspended_launch_cb = false })

abbrev pub terminate_if : Bool → Process → Outcome
terminate_if true p = does p (terminates_process ∷ [])
terminate_if false p = does p []

abbrev pub terminate_in : State → Process → Outcome
terminate_in created p = exit_process p
terminate_in shim_suspended p =
    then_next (resume no_longer_requested p) (λ p'. terminate_if p'.proc p')
terminate_in exited p = does p []
terminate_in started p = terminate_if p.proc p
terminate_in attached p = terminate_if p.proc p
terminate_in running p = terminate_if p.proc p
terminate_in crashed p = terminate_if p.proc p

-- `Terminate`
unfoldable pub terminate : Process → Outcome
terminate p = terminate_in p.state p

abbrev pub kill_in : State → Process → Outcome
kill_in created p = exit_process p
kill_in started p = does (record p { exit_pending = true }) []
kill_in shim_suspended p = resume no_longer_requested p
kill_in exited p = does p []
kill_in attached p = does p (kills ∷ [])
kill_in running p = does p (kills ∷ [])
kill_in crashed p = does p (kills ∷ [])

-- `TrackedProcessBase::Kill`, which calls the other one for a suspended process.
unfoldable pub kill : Process → Outcome
kill p = kill_in p.state p

abbrev pub is_suspended : State → Bool
is_suspended shim_suspended = true
is_suspended s = false

abbrev pub continue_if : Bool → Process → Outcome
continue_if true p = then_next (change_state running [] p) (resume 0)
continue_if false p = does (record p { suspended_launch_enabled = false }) []

unfoldable pub continue : Process → Outcome
continue p = continue_if (is_suspended p.state) p

abbrev pub attach_if : Bool → List Region → Process → Outcome
attach_if true regions p = aborts
attach_if false regions p = change_state attached regions (record p { proc = true })

unfoldable pub attach : List Region → Process → Outcome
attach regions p = attach_if p.proc regions p

abbrev pub then_suspend : Process → Outcome
then_suspend p = does (record p { suspended_launch_cb = true }) []

abbrev pub wait_if : Bool → Process → Outcome
wait_if true p = then_next (change_state shim_suspended [] p) then_suspend
wait_if false p = then_next (change_state running [] p) (λ p'. does p' (launch_returns 0 ∷ []))

unfoldable pub wait_to_start : Process → Outcome
wait_to_start p = wait_if p.suspended_launch_enabled p

-- `TrackedProcess::Launch` up to the queue, and `LaunchSuspended`.
unfoldable pub launch : Process → Outcome
launch p = change_state started [] (record p { run_opener = true })

unfoldable pub launch_suspended : Process → Outcome
launch_suspended p = launch (record p { suspended_launch_enabled = true })

unfoldable pub set_result : ℕ → Process → Process
set_result r p = record p { result = r }

abbrev pub prepare_if : Bool → ℕ → Process → ℕ × Outcome
prepare_if true r p = (no_longer_requested, exit_process p)
prepare_if false r p = (r, does p [])

-- `PrepareForLaunch`, with the result of that of ECSProcess: the result.
unfoldable pub prepare_for_launch : ℕ → Process → ℕ × Outcome
prepare_for_launch r p = prepare_if p.exit_pending r p
