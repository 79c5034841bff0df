-- ===== src/AppletTracker.antt =====
-- twili/process/AppletTracker.cpp and .hpp: the applets that wait for the control process, with the
-- tracker's monitor of the one that runs. Processes are addresses of a memory. `none` is an end by
-- `Abort` or by an exception. The path of a next load is whether its file opens. A process in the
-- queue is taken not to be the one that the monitor watches.
pub mod Hbmenu
pub mod Calls
pub mod Released
pub mod Launch
mod Tests
use twili.Base.{
  Bool, List, Option, [], false, if◌then◌else◌, length, none, some, suc, true, zero, ℕ, ◌&&◌, ◌++◌,
  ◌==◌, ◌∷◌,
}
use twili.Process.{
  Event, Outcome, Process, Region, State, aborts, attach, changes, does, exit_process, is_exited,
  kill, kills, launch_returns, no_longer_requested, prepare_for_launch, run_fails, run_succeeds,
  terminate, terminates_process, throws_bad_function,
}
use twili.ShellTracker.{logged, set_at}

-- `watched` is the process of the monitor, `process_queued` whether the event is signalled, and
-- `next_process` the address of the process that is made next.
pub record Applets : Type 0 where
  pub queued : List ℕ
  pub created : List ℕ
  pub has_control_process : Bool
  pub hbmenu : Option ℕ
  pub watched : Option ℕ
  pub processes : ℕ → Process
  pub next_process : ℕ
  pub process_queued : Bool
  pub log : List (ℕ × Event)

-- The results of ECSProcess's PrepareForLaunch, and whether a process that exits asks for a next
-- load whose file opens.
pub record System : Type 0 where
  pub prepared : ℕ → ℕ
  pub next_load : ℕ → Bool

abbrev pub new_process : Process
new_process = record {
  state = State.created;
  result = 0;
  proc = false;
  target_entry = 0;
  suspended_launch_enabled = false;
  suspended_launch_cb = false;
  pipes_closed = false;
  run_opener = false;
  exit_pending = false;
}

abbrev pub keep_process : Applets → ℕ → Process → List Event → Applets
keep_process t a p events = record t {
  processes = set_at a p t.processes;
  log = t.log ++ logged a events;
}

abbrev pub is_it : ℕ → Option ℕ → Bool
is_it a none = false
is_it a (some b) = b == a

abbrev pub none_runs : (ℕ → Process) → Option ℕ → Bool
none_runs processes none = true
none_runs processes (some a) = is_exited (processes a).state

-- `ReadyToLaunch`
unfoldable pub applet_ready : Applets → Bool
applet_ready t = length t.created == 0 && none_runs t.processes t.watched

unfoldable pub wake : Applets → Applets
wake t = if applet_ready t then record t { process_queued = true } else t

abbrev pub and_then : Option Applets → (Applets → Option Applets) → Option Applets
and_then none next = none
and_then (some t) next = next t

-- What a change of a process's state is told to.
abbrev pub Tell : Type 0
Tell = ℕ → State → Applets → Option Applets

abbrev pub tell_event : Tell → ℕ → Event → Applets → Option Applets
tell_event tell a (changes new) t = tell a new t
tell_event tell a (launch_returns code) t = some t
tell_event tell a run_succeeds t = some t
tell_event tell a (run_fails code) t = some t
tell_event tell a terminates_process t = some t
tell_event tell a kills t = some t

unfoldable pub told : Tell → ℕ → List Event → Applets → Option Applets
told tell a [] t = some t
told tell a (e ∷ es) t = and_then (tell_event tell a e t) (told tell a es)

-- A process after a call, whose changes of state are told.
unfoldable pub settled : Tell → ℕ → Outcome → Applets → Option Applets
settled tell a (does p events) t = told tell a events (keep_process t a p events)
settled tell a throws_bad_function t = none
settled tell a aborts t = none

abbrev pub kill_hbmenu : Tell → Option ℕ → Applets → Option Applets
kill_hbmenu tell none t = some t
kill_hbmenu tell (some a) t = settled tell a (kill (t.processes a)) t

abbrev pub enqueue_applet : ℕ → Applets → Applets
enqueue_applet a t = wake (record t { queued = t.queued ++ (a ∷ []) })

-- `QueueLaunch`
unfoldable pub queue_applet : Tell → ℕ → Applets → Option Applets
queue_applet tell a t = and_then (kill_hbmenu tell t.hbmenu t) (λ t'. some (enqueue_applet a t'))

unfoldable pub create_process : Applets → Applets
create_process t = record t {
  processes = set_at t.next_process new_process t.processes;
  next_process = suc t.next_process;
}

-- `HBLLoad`
unfoldable pub hbl_load : Tell → Bool → Applets → Option Applets
hbl_load tell true t = queue_applet tell t.next_process (create_process t)
hbl_load tell false t = some t

abbrev pub forget_hbmenu : ℕ → Applets → Applets
forget_hbmenu a t = if is_it a t.hbmenu then record t { hbmenu = none } else t

abbrev pub changed_to : System → Tell → ℕ → Bool → Applets → Option Applets
changed_to s tell a true t =
    and_then (hbl_load tell (s.next_load a) (forget_hbmenu a t))
      (λ t'. some (record t' { watched = none }))
changed_to s tell a false t = some t

-- `Monitor::StateChanged`
unfoldable pub state_changed : System → Tell → ℕ → State → Applets → Option Applets
state_changed s tell a new t = changed_to s tell a (is_exited new) (wake t)

-- The monitor is told of the process that it watches. It may kill hbmenu, a change of which is told
-- again, to a depth.
unfoldable pub notify : ℕ → System → Tell
notify zero s a new t = none
notify (suc n) s a new t =
    if is_it a t.watched then state_changed s (notify n s) a new t else some t

abbrev pub monitor : System → Tell
monitor s = notify 2 s

unfoldable pub attach_control_process : Applets → Option Applets
attach_control_process t =
    if t.has_control_process
    then none
    else some (record t { process_queued = true; has_control_process = true })

unfoldable pub exit_created : System → List ℕ → Applets → Option Applets
exit_created s [] t = some t
exit_created s (a ∷ rest) t =
    and_then (settled (monitor s) a (exit_process (t.processes a)) t) (exit_created s rest)

abbrev pub exit_hbmenu : System → Option ℕ → Applets → Option Applets
exit_hbmenu s none t = some t
exit_hbmenu s (some a) t =
    and_then (settled (monitor s) a (terminate (t.processes a)) t)
      (λ t'. settled (monitor s) a (exit_process (t'.processes a)) t')

abbrev pub release_if : System → Bool → Applets → Option Applets
release_if s true t =
    and_then (exit_created s t.created (record t { has_control_process = false }))
      (λ t'. and_then (exit_hbmenu s t'.hbmenu t') (λ t''. some (record t'' { created = [] })))
release_if s false t = none

unfoldable pub release_control_process : System → Applets → Option Applets
release_control_process s t = release_if s t.has_control_process t

-- The result, the process that is to be launched, and the tracker.
abbrev pub AppletPopped : Type 0
AppletPopped = Option (ℕ × Option ℕ × Applets)

abbrev pub hbmenu_prepared : ℕ → ℕ → Option Applets → AppletPopped
hbmenu_prepared r a none = none
hbmenu_prepared r a (some t) =
    if r == 0
    then some (0, some a, record t { created = t.created ++ (a ∷ []); hbmenu = none })
    else none

-- hbmenu is launched where nothing else is; `*out = std::move(hbmenu)` takes the pointer away.
unfoldable pub launch_hbmenu : System → Applets → AppletPopped
launch_hbmenu s t =
    let a = t.next_process in
    let t' = record (create_process t) { hbmenu = some a } in
    let (r, o) = prepare_for_launch (s.prepared a) (t'.processes a) in
    hbmenu_prepared r a (settled (monitor s) a o t')

abbrev pub applet_prepared : (Applets → AppletPopped) → ℕ → ℕ → Option Applets → AppletPopped
applet_prepared next r a none = none
applet_prepared next r a (some t) =
    if r == no_longer_requested
    then next t
    else if r == 0
    then some (0, some a, record t { created = t.created ++ (a ∷ []) })
    else some (r, none, t)

unfoldable pub pop_applets : System → List ℕ → Applets → AppletPopped
pop_applets s [] t = launch_hbmenu s t
pop_applets s (a ∷ queue) t =
    let (r, o) = prepare_for_launch (s.prepared a) (t.processes a) in
    applet_prepared (pop_applets s queue) r a
      (settled (monitor s) a o (record t { queued = queue }))

-- `PopQueuedProcess`
unfoldable pub pop_applet : System → Applets → AppletPopped
pop_applet s t = pop_applets s t.queued t

abbrev pub attach_first : System → List Region → List ℕ → Applets → Option Applets
attach_first s regions [] t = none
attach_first s regions (a ∷ rest) t =
    and_then (settled (monitor s) a (attach regions (t.processes a)) t)
      (λ t'. some (wake (record t' { created = rest; watched = some a })))

-- `AttachHostProcess`
unfoldable pub attach_applet : System → List Region → Applets → Option Applets
attach_applet s regions t = attach_first s regions t.created t
