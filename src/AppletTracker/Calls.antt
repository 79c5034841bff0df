-- ===== src/AppletTracker/Calls.antt =====
-- Sequences of calls of the applet tracker and of its processes.
use twili.Base.{Bool-cases, List, Option, [], inl, inr, none, some, ℕ, ◌∷◌, ◌≡◌}
use twili.Process.{Outcome, Process, Region}
use twili.AppletTracker.{
  Applets, System, and_then, attach_applet, attach_control_process, enqueue_applet, monitor,
  pop_applet, queue_applet, release_control_process, settled,
}
use twili.AppletTracker.Hbmenu.{
  ForgetsHbmenu, and_then-ForgetsHbmenu, attach_first-ForgetsHbmenu, left_by_pop,
  monitor-ForgetsHbmenu, pop_applets-ForgetsHbmenu, queue_applet-ForgetsHbmenu, queue_applet-none,
  release_if-ForgetsHbmenu, settled-ForgetsHbmenu,
}

-- `calls_process` is a call of a process, as by a client or by the event of its exit.
pub data AppletCall : Type 0 where
  queues_applet : ℕ → AppletCall
  attaches_control releases_control pops_applet : AppletCall
  attaches_applet : List Region → AppletCall
  calls_process : ℕ → (Process → Outcome) → AppletCall

unfoldable pub call_applets : System → Applets → AppletCall → Option Applets
call_applets s t (queues_applet a) = queue_applet (monitor s) a t
call_applets s t attaches_control = attach_control_process t
call_applets s t releases_control = release_control_process s t
call_applets s t pops_applet = left_by_pop (pop_applet s t)
call_applets s t (attaches_applet regions) = attach_applet s regions t
call_applets s t (calls_process a f) = settled (monitor s) a (f (t.processes a)) t

unfoldable pub run_applets : System → Applets → List AppletCall → Option Applets
run_applets s t [] = some t
run_applets s t (c ∷ cs) = and_then (call_applets s t c) (λ t'. run_applets s t' cs)

control-ForgetsHbmenu : (t : Applets) → t.hbmenu ≡ none → ForgetsHbmenu (attach_control_process t)
unfolding attach_control_process
control-ForgetsHbmenu t h = elim (Bool-cases t.has_control_process) [
  | inl e ↦ rw e tt
  | inr e ↦ rw e h
]

call_applets-ForgetsHbmenu :
    (s : System) (t : Applets) (c : AppletCall)
    → t.hbmenu ≡ none
    → ForgetsHbmenu (call_applets s t c)
unfolding call_applets release_control_process pop_applet attach_applet
call_applets-ForgetsHbmenu s t (queues_applet a) h = queue_applet-ForgetsHbmenu (monitor s) a t h
call_applets-ForgetsHbmenu s t attaches_control h = control-ForgetsHbmenu t h
call_applets-ForgetsHbmenu s t releases_control h =
    release_if-ForgetsHbmenu s t.has_control_process t h
call_applets-ForgetsHbmenu s t pops_applet h = pop_applets-ForgetsHbmenu s t.queued t h
call_applets-ForgetsHbmenu s t (attaches_applet regions) h =
    attach_first-ForgetsHbmenu s regions t.created t h
call_applets-ForgetsHbmenu s t (calls_process a f) h =
    settled-ForgetsHbmenu (monitor s) (monitor-ForgetsHbmenu s) a (f (t.processes a)) t h

-- No call ends hbmenu: queueing a process only puts it into the queue and wakes the control process
-- where the tracker is ready.
abbrev pub SparesHbmenu : System → Option Applets → Type 0
SparesHbmenu s none = Unit
SparesHbmenu s (some t) = (a : ℕ) → queue_applet (monitor s) a t ≡ some (enqueue_applet a t)

ForgetsHbmenu-SparesHbmenu : (s : System) (o : Option Applets) → ForgetsHbmenu o → SparesHbmenu s o
ForgetsHbmenu-SparesHbmenu s none h = tt
ForgetsHbmenu-SparesHbmenu s (some t) h = λ a. queue_applet-none (monitor s) a t h

run_applets-ForgetsHbmenu :
    (s : System) (t : Applets) (cs : List AppletCall)
    → t.hbmenu ≡ none
    → ForgetsHbmenu (run_applets s t cs)
unfolding run_applets
run_applets-ForgetsHbmenu s t [] h = h
run_applets-ForgetsHbmenu s t (c ∷ cs) h =
    and_then-ForgetsHbmenu (call_applets s t c) (λ t'. run_applets s t' cs)
      (call_applets-ForgetsHbmenu s t c h) (λ t' h'. run_applets-ForgetsHbmenu s t' cs h')

-- After any calls of an applet tracker that starts without hbmenu, the launch of hbmenu included,
-- QueueLaunch kills nothing: where the calls do not abort, it only puts its process into the queue
-- and signals the event if the tracker is ready.
pub run_applets-SparesHbmenu :
    (s : System) (t : Applets) (cs : List AppletCall)
    → t.hbmenu ≡ none
    → SparesHbmenu s (run_applets s t cs)
run_applets-SparesHbmenu s t cs h =
    ForgetsHbmenu-SparesHbmenu s (run_applets s t cs) (run_applets-ForgetsHbmenu s t cs h)
