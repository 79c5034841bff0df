-- ===== src/AppletTracker/Tests.antt =====
-- Runs of the applet tracker, and its theorems at concrete inputs.
use twili.Base.{All, [], false, none, refl, some, true, ℕ, ◌==◌, ◌∷◌, ◌≡◌}
use twili.Process.{Process, started}
use twili.ShellTracker.Queue.{HasExited}
use twili.AppletTracker.{Applets, System, new_process, release_control_process}
use twili.AppletTracker.Calls.{
  SparesHbmenu, attaches_control, pops_applet, queues_applet, run_applets, run_applets-SparesHbmenu,
}
use twili.AppletTracker.Released.{release_control_process-Ended}
use twili.AppletTracker.Launch.{HandsOut, pop_applet-HandsOut}

-- Process 1 was killed in the queue.
abbrev some_processes : ℕ → Process
some_processes a = record new_process { state = started; run_opener = true; exit_pending = a == 1 }

abbrev two_queued : Applets
two_queued = record {
  queued = 1 ∷ 2 ∷ [];
  created = [];
  has_control_process = true;
  hbmenu = none;
  watched = none;
  processes = some_processes;
  next_process = 7;
  process_queued = true;
  log = [];
}

abbrev system_works : System
system_works = record { prepared = λ a. 0; next_load = λ a. false }

pop_applet-HandsOut_example : HandsOut system_works two_queued (1 ∷ []) (2 ∷ [])
pop_applet-HandsOut_example =
    pop_applet-HandsOut system_works two_queued (1 ∷ []) (2 ∷ []) refl (refl, tt) (refl, tt)
      (refl, tt) refl refl

run_applets-SparesHbmenu_example : SparesHbmenu system_works (
    run_applets system_works
      (record two_queued { queued = []; has_control_process = false })
      (attaches_control ∷ pops_applet ∷ queues_applet 2 ∷ []))
run_applets-SparesHbmenu_example =
    run_applets-SparesHbmenu system_works
      (record two_queued { queued = []; has_control_process = false })
      (attaches_control ∷ pops_applet ∷ queues_applet 2 ∷ []) refl

release_control_process-Ended_example :
    (t' : Applets) × (release_control_process system_works (record two_queued { created = 3 ∷ [] })
      ≡ some t')
    × (t'.created ≡ [])
    × (t'.queued ≡ 1 ∷ 2 ∷ [])
    × All (λ a. HasExited (t'.processes a)) (3 ∷ [])
release_control_process-Ended_example =
    release_control_process-Ended system_works (record two_queued { created = 3 ∷ [] }) refl refl
      (refl, tt)
