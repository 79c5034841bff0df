-- ===== src/ShellTracker/Tests.antt =====
-- A tracker with three processes in its queue, of which the first was killed.
use twili.Base.{List, [], arith, false, if◌then◌else◌, lookup, refl, some, true, ℕ, ◌==◌, ◌∷◌, ◌≡◌}
use twili.Process.{Process, started}
use twili.ShellTracker.{Tracker, shell_exit, try_to_launch}
use twili.ShellTracker.Limbo.{Call, Keeps, call_next, exits, queues, run, run-InLimbo, tries}
use twili.ShellTracker.Queue.{HasExited, Launches, try_to_launch-Launches}
use twili.ShellTracker.Lost.{shell_exit-blocks, try_to_launch-unprepared}

abbrev waiting : Process
waiting = record {
  state = started;
  result = 0;
  proc = false;
  target_entry = 0;
  suspended_launch_enabled = false;
  suspended_launch_cb = false;
  pipes_closed = false;
  run_opener = true;
  exit_pending = false;
}

abbrev first_killed : ℕ → Process
first_killed a = if a == 1 then record waiting { exit_pending = true } else waiting

abbrev tracker : Tracker
tracker = record {
  queued = 1 ∷ 2 ∷ 3 ∷ [];
  created = [];
  tracking = [];
  processes = first_killed;
  tracker_signal = true;
  log = [];
}

abbrev tracker_limbo : Tracker
tracker_limbo = record tracker { created = 2 ∷ []; tracking = (77, 2) ∷ [] }

run-InLimbo_example :
    Keeps (run tracker (tries (λ a. 0) (0, 77) ∷ tries (λ a. 0) (0, 78) ∷ exits 77 ∷ []))
run-InLimbo_example =
    run-InLimbo tracker (tries (λ a. 0) (0, 77) ∷ tries (λ a. 0) (0, 78) ∷ exits 77 ∷ [])
      (omega arith)

try_to_launch-Launches_example :
    (t' : Tracker) × (try_to_launch (λ a. 0) (0, 77) tracker ≡ some t')
    × Launches tracker (1 ∷ []) 2 (3 ∷ []) t'
unfolding lookup
try_to_launch-Launches_example =
    try_to_launch-Launches (λ a. 0) 77 tracker (1 ∷ []) 2 (3 ∷ []) refl refl (refl, tt) refl refl
      refl

try_to_launch-unprepared_example :
    (t' : Tracker) × (try_to_launch (λ a. 5) (0, 77) (record tracker { queued = 2 ∷ 3 ∷ [] })
      ≡ some t')
    × (t'.queued ≡ 3 ∷ [])
    × (t'.created ≡ [])
    × ((b : ℕ) → t'.processes b ≡ first_killed b)
    × (t'.log ≡ [])
    × (t'.tracker_signal ≡ false)
try_to_launch-unprepared_example =
    try_to_launch-unprepared (λ a. 5) (0, 77) (record tracker { queued = 2 ∷ 3 ∷ [] }) 2 (3 ∷ [])
      refl refl refl (λ e. absurd (omega (arith, e))) (λ e. absurd (omega (arith, e)))

-- A process is queued, a launch is tried, and another process exits.
abbrev later_calls : List Call
later_calls = queues 1 ∷ tries (λ a. 0) (0, 5) ∷ exits 99 ∷ []

shell_exit-blocks_example :
    (t' : Tracker) × (call_next (shell_exit 77 tracker_limbo) (λ t1. run t1 later_calls) ≡ some t')
    × HasExited (t'.processes 2)
    × (t'.created ≡ 2 ∷ [])
    × ((prepared : ℕ → ℕ) (answer : ℕ × ℕ)
        → try_to_launch prepared answer t' ≡ some (record t' { tracker_signal = false }))
unfolding lookup
shell_exit-blocks_example =
    shell_exit-blocks tracker_limbo 77 2 later_calls refl refl (tt, (tt, (tt, tt)))
