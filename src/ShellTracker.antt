-- ===== src/ShellTracker.antt =====
-- twili/process/ShellTracker.cpp and .hpp: the processes that wait to be launched, one at a time.
-- Processes are addresses of a memory; what they do is logged with their addresses. The result of
-- ECSProcess's PrepareForLaunch and what the system says of a launch are arguments. The threads and
-- their lock are left out: a call is a step. `none` is an end by `Abort` or by an exception.
pub mod Limbo
pub mod Queue
pub mod Lost
mod Tests
use twili.Base.{
  Bool, List, Option, [], false, if◌then◌else◌, length, lookup, none, remove, some, store, true, ℕ,
  ◌++◌, ◌==◌, ◌∷◌,
}
use twili.Process.{
  Event, Outcome, Process, Region, aborts, attach, change_state, does, exited, no_longer_requested,
  prepare_for_launch, set_result, throws_bad_function,
}

-- `tracker_signal` is whether it is signalled.
pub record Tracker : Type 0 where
  pub queued : List ℕ
  pub created : List ℕ
  pub tracking : List (ℕ × ℕ)
  pub processes : ℕ → Process
  pub tracker_signal : Bool
  pub log : List (ℕ × Event)

unfoldable pub set_at : ℕ → Process → (ℕ → Process) → ℕ → Process
set_at a p processes b = if b == a then p else processes b

abbrev pub logged : ℕ → List Event → List (ℕ × Event)
logged a [] = []
logged a (e ∷ es) = (a, e) ∷ logged a es

-- A process after a call.
abbrev pub put : Tracker → ℕ → Process → List Event → Tracker
put t a p events = record t { processes = set_at a p t.processes; log = t.log ++ logged a events }

abbrev pub settle : Tracker → ℕ → Outcome → Option Tracker
settle t a (does p events) = some (put t a p events)
settle t a throws_bad_function = none
settle t a aborts = none

unfoldable pub queue_launch : Tracker → ℕ → Tracker
queue_launch t a = record t { queued = t.queued ++ (a ∷ []); tracker_signal = true }

unfoldable pub ready_to_launch : Tracker → Bool
ready_to_launch t = length t.created == 0

-- The result, the process that is to be launched, and the tracker.
abbrev pub Popped : Type 0
Popped = Option (ℕ × Option ℕ × Tracker)

abbrev pub popped : (Tracker → Popped) → ℕ → List ℕ → Tracker → ℕ × Outcome → Popped
popped next a queue t (r, does p events) =
    if r == no_longer_requested
    then next (put t a p events)
    else if r == 0
    then some
        (0, some a, record (put t a p events) { queued = queue; created = t.created ++ (a ∷ []) })
    else some (r, none, record (put t a p events) { queued = queue })
popped next a queue t (r, throws_bad_function) = none
popped next a queue t (r, aborts) = none

-- The loop over the queue.
unfoldable pub pop_from : (ℕ → ℕ) → List ℕ → Tracker → Popped
pop_from prepared [] t = some (no_longer_requested, none, record t { queued = [] })
pop_from prepared (a ∷ queue) t =
    popped (pop_from prepared queue) a queue t (prepare_for_launch (prepared a) (t.processes a))

-- `PopQueuedProcess`
unfoldable pub pop_queued_process : (ℕ → ℕ) → Tracker → Popped
pop_queued_process prepared t = pop_from prepared t.queued t

abbrev pub unless_tracked : ℕ → ℕ → List (ℕ × ℕ) → Option ℕ → List (ℕ × ℕ)
unless_tracked pid a tracking none = store pid a tracking
unless_tracked pid a tracking (some b) = tracking

-- `tracking.emplace`, which keeps the process that an id has.
abbrev pub emplace : ℕ → ℕ → List (ℕ × ℕ) → List (ℕ × ℕ)
emplace pid a tracking = unless_tracked pid a tracking (lookup pid tracking)

abbrev pub clear_created : Option Tracker → Option Tracker
clear_created none = none
clear_created (some t) = some (record t { created = [] })

-- The answer of the system: a result, and the id of the process.
abbrev pub launched : Bool → ℕ × ℕ → ℕ → Tracker → Option Tracker
launched true (r, pid) a t = some (record t { tracking = emplace pid a t.tracking })
launched false (r, pid) a t =
    clear_created (settle t a (change_state exited [] (set_result r (t.processes a))))

abbrev pub request : ℕ × ℕ → Popped → Option Tracker
request answer none = none
request answer (some (r, none, t)) = some t
request answer (some (r, some a, t)) =
    if r == no_longer_requested then some t else launched (answer.0 == 0) answer a t

abbrev pub try_if : Bool → (ℕ → ℕ) → ℕ × ℕ → Tracker → Option Tracker
try_if true prepared answer t = request answer (pop_queued_process prepared t)
try_if false prepared answer t = some t

-- `TryToLaunch`, as the signal runs it.
unfoldable pub try_to_launch : (ℕ → ℕ) → ℕ × ℕ → Tracker → Option Tracker
try_to_launch prepared answer t =
    try_if (ready_to_launch t) prepared answer (record t { tracker_signal = false })

abbrev pub attach_front : List Region → Tracker → List ℕ → Option Tracker
attach_front regions t [] = none
attach_front regions t (a ∷ rest) =
    settle (record t { created = rest; tracker_signal = true }) a (attach regions (t.processes a))

-- `AttachHostProcess`
unfoldable pub attach_host_process : List Region → Tracker → Option Tracker
attach_host_process regions t = attach_front regions t t.created

abbrev pub exit_tracked : ℕ → Tracker → Option ℕ → Option Tracker
exit_tracked pid t none = some t
exit_tracked pid t (some a) =
    settle (record t { tracking = remove pid t.tracking }) a
      (change_state exited [] (t.processes a))

-- The exit of a process, as the shell's event tells it.
unfoldable pub shell_exit : ℕ → Tracker → Option Tracker
shell_exit pid t = exit_tracked pid t (lookup pid t.tracking)
