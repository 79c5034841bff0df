-- ===== src/Process/Tests.antt =====
-- A process from its launch to its exit.
use twili.Base.{List, [], false, refl, true, ◌∷◌, ◌≡◌}
use twili.Process.{
  Process, Region, attach, attached, change_monitored, change_state, changes, continue, created,
  does, exited, find_target_entry, launch, launch_returns, launch_suspended, run_succeeds, running,
  shim_suspended, started, throws_bad_function, wait_to_start,
}
use twili.Process.Pending.{
  Call, attaches, call, continues, exits, kills_it, launches_suspended, terminates, waits,
}
use twili.Process.Answers.{Accounts, run, run-Accounts}
use twili.Process.Suspended.{Does, call-Does, run-killed_twice}

abbrev fresh : Process
fresh = record {
  state = created;
  result = 0;
  proc = false;
  target_entry = 0;
  suspended_launch_enabled = false;
  suspended_launch_cb = false;
  pipes_closed = false;
  run_opener = false;
  exit_pending = false;
}

abbrev suspended : Process
suspended = record fresh {
  state = shim_suspended;
  proc = true;
  suspended_launch_enabled = true;
  suspended_launch_cb = true;
}

abbrev two_regions : List Region
two_regions =
    record { base_addr = 4096; memory_type = 3; permission = 5 }
    ∷ record { base_addr = 8192; memory_type = 3; permission = 5 }
    ∷ []

abbrev lifetime : List Call
lifetime = launches_suspended ∷ attaches two_regions ∷ waits ∷ continues ∷ exits ∷ []

run-lifetime :
    run fresh lifetime
    ≡ does
        (record fresh {
          state = exited;
          proc = true;
          target_entry = 8192;
          suspended_launch_enabled = true;
          pipes_closed = true;
        })
        (changes started
          ∷ changes attached
          ∷ run_succeeds
          ∷ changes shim_suspended
          ∷ changes running
          ∷ launch_returns 0
          ∷ changes exited
          ∷ [])
unfolding run call launch launch_suspended attach wait_to_start continue change_state
    change_monitored find_target_entry
run-lifetime = refl

run-Accounts_example : Accounts fresh lifetime (run fresh lifetime)
unfolding call launch launch_suspended attach wait_to_start continue change_state change_monitored
    find_target_entry
run-Accounts_example =
    run-Accounts fresh lifetime (refl, (tt, (refl, (tt, (tt, tt))))) (λ e. absurd (cc e))

call-Does_example : Does (call suspended terminates)
call-Does_example = call-Does suspended terminates tt (λ e. refl)

run-killed_twice_example : run suspended (kills_it ∷ terminates ∷ []) ≡ throws_bad_function
run-killed_twice_example = run-killed_twice suspended terminates tt refl refl
