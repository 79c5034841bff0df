-- ===== src/Process/Pending.antt =====
-- What waits for a process: the request to launch it, and the shim that a launch is to return to.
use twili.Base.{
  Bool, Bool-cases, List, [], ap, arith, false, inl, inr, refl, subst, suc, sym, true, ℕ, ◌++◌, ◌+◌,
  ◌==◌, ◌∷◌, ◌≡◌,
}
use twili.Process.{
  Event, Outcome, Process, Region, State, aborts, attach, attached, call_launch, change_monitored,
  change_state, changes, continue, crashed, created, does, entered, exited, find_target_entry,
  get_result, kill, kills, launch, launch_cancelled, launch_returns, launch_suspended,
  prepare_for_launch, resume, run_error, run_fails, run_ok, run_succeeds, running, set_result,
  shim_suspended, started, terminate, terminates_process, then_next, throws_bad_function,
  wait_to_start, with_events,
}

abbrev pub bit : Bool → ℕ
bit true = 1
bit false = 0

-- How many requests to launch are answered.
abbrev pub runs : List Event → ℕ
runs [] = 0
runs (run_succeeds ∷ es) = suc (runs es)
runs (run_fails code ∷ es) = suc (runs es)
runs (launch_returns code ∷ es) = runs es
runs (changes s ∷ es) = runs es
runs (terminates_process ∷ es) = runs es
runs (kills ∷ es) = runs es

-- How many waits to start are over.
abbrev pub returns : List Event → ℕ
returns [] = 0
returns (launch_returns code ∷ es) = suc (returns es)
returns (run_succeeds ∷ es) = returns es
returns (run_fails code ∷ es) = returns es
returns (changes s ∷ es) = returns es
returns (terminates_process ∷ es) = returns es
returns (kills ∷ es) = returns es

pub runs-append : (xs ys : List Event) → runs (xs ++ ys) ≡ runs xs + runs ys
runs-append [] ys = omega arith
runs-append (run_succeeds ∷ xs) ys = omega (arith, runs-append xs ys)
runs-append (run_fails code ∷ xs) ys = omega (arith, runs-append xs ys)
runs-append (launch_returns code ∷ xs) ys = runs-append xs ys
runs-append (changes s ∷ xs) ys = runs-append xs ys
runs-append (terminates_process ∷ xs) ys = runs-append xs ys
runs-append (kills ∷ xs) ys = runs-append xs ys

pub returns-append : (xs ys : List Event) → returns (xs ++ ys) ≡ returns xs + returns ys
returns-append [] ys = omega arith
returns-append (launch_returns code ∷ xs) ys = omega (arith, returns-append xs ys)
returns-append (run_succeeds ∷ xs) ys = returns-append xs ys
returns-append (run_fails code ∷ xs) ys = returns-append xs ys
returns-append (changes s ∷ xs) ys = returns-append xs ys
returns-append (terminates_process ∷ xs) ys = returns-append xs ys
returns-append (kills ∷ xs) ys = returns-append xs ys

-- What has been answered and what still waits, with `a` new requests and `b` new waits.
abbrev pub Sums : ℕ → ℕ → Process → Process → List Event → Type 0
Sums a b p p' events =
    (runs events + bit p'.run_opener ≡ bit p.run_opener + a)
    × (returns events + bit p'.suspended_launch_cb ≡ bit p.suspended_launch_cb + b)

abbrev pub Balances : ℕ → ℕ → Process → Outcome → Type 0
Balances a b p (does p' events) = Sums a b p p' events
Balances a b p throws_bad_function = Unit
Balances a b p aborts = Unit

pub with_events-Balances :
    (a b a' b' : ℕ) (p p' : Process) (events : List Event) (o : Outcome)
    → Sums a b p p' events
    → Balances a' b' p' o
    → Balances (a + a') (b + b') p (with_events events o)
with_events-Balances a b a' b' p p' events (does p'' more) (r, t) (r', t') = (
  omega (arith, r, r', runs-append events more),
  omega (arith, t, t', returns-append events more),
)
with_events-Balances a b a' b' p p' events throws_bad_function s s' = tt
with_events-Balances a b a' b' p p' events aborts s s' = tt

pub then_next-Balances :
    (a b a' b' : ℕ) (p : Process) (o : Outcome) (next : Process → Outcome)
    → Balances a b p o
    → ((p' : Process) → Balances a' b' p' (next p'))
    → Balances (a + a') (b + b') p (then_next o next)
then_next-Balances a b a' b' p (does p' events) next s f =
    with_events-Balances a b a' b' p p' events (next p') s (f p')
then_next-Balances a b a' b' p throws_bad_function next s f = tt
then_next-Balances a b a' b' p aborts next s f = tt

entered-Balances :
    (p p' : Process) (events : List Event) (e : ℕ × ℕ)
    → Sums 0 0 p p' events
    → Balances 0 0 p (entered p' events e)
entered-Balances p p' events (entry, found) s = elim (Bool-cases (found == 2)) [
  | inl e ↦ rw e s
  | inr e ↦ rw e tt
]

run_ok_lem : (b : Bool) → (runs (run_ok b) ≡ bit b) × (returns (run_ok b) ≡ 0)
run_ok_lem true = (refl, refl)
run_ok_lem false = (refl, refl)

run_error_lem :
    (b : Bool) (code : ℕ) → (runs (run_error b code) ≡ bit b) × (returns (run_error b code) ≡ 0)
run_error_lem true code = (refl, refl)
run_error_lem false code = (refl, refl)

launch_cancelled_lem :
    (b : Bool) → (runs (launch_cancelled b) ≡ 0) × (returns (launch_cancelled b) ≡ bit b)
launch_cancelled_lem true = (refl, refl)
launch_cancelled_lem false = (refl, refl)

-- What the exit of a process does.
pub change_state-exited :
    (regions : List Region) (p : Process)
    → change_state exited regions p
      ≡ does
          (record p {
            state = exited;
            pipes_closed = true;
            suspended_launch_cb = false;
            run_opener = false;
          })
          ((launch_cancelled p.suspended_launch_cb ++ (changes exited ∷ []))
            ++ run_error p.run_opener (get_result p))
unfolding change_state change_monitored get_result
change_state-exited regions p = refl

exit-Sums :
    (p : Process) (code : ℕ)
    → Sums 0 0 p
        (record p {
          state = exited;
          pipes_closed = true;
          suspended_launch_cb = false;
          run_opener = false;
        })
        ((launch_cancelled p.suspended_launch_cb ++ (changes exited ∷ []))
          ++ run_error p.run_opener code)
exit-Sums p code =
    let cancelled = launch_cancelled p.suspended_launch_cb in
    let c = launch_cancelled_lem p.suspended_launch_cb in
    let r = run_error_lem p.run_opener code in
    (
      omega (
        arith,
        runs-append (cancelled ++ (changes exited ∷ [])) (run_error p.run_opener code),
        runs-append cancelled (changes exited ∷ []),
        c.0,
        r.0,
      ),
      omega (
        arith,
        returns-append (cancelled ++ (changes exited ∷ [])) (run_error p.run_opener code),
        returns-append cancelled (changes exited ∷ []),
        c.1,
        r.1,
      ),
    )

pub change_state-Balances :
    (new : State) (regions : List Region) (p : Process)
    → Balances 0 0 p (change_state new regions p)
unfolding change_state change_monitored
change_state-Balances attached regions p =
    entered-Balances p (record p { state = attached; run_opener = false })
      ((changes attached ∷ []) ++ run_ok p.run_opener) (find_target_entry p.target_entry 0 regions)
      (omega (arith, (run_ok_lem p.run_opener).0), omega (arith, (run_ok_lem p.run_opener).1))
change_state-Balances exited regions p =
    subst (Balances 0 0 p) (sym (change_state-exited regions p)) (exit-Sums p (get_result p))
change_state-Balances created regions p = (omega arith, omega arith)
change_state-Balances started regions p = (omega arith, omega arith)
change_state-Balances shim_suspended regions p = (omega arith, omega arith)
change_state-Balances running regions p = (omega arith, omega arith)
change_state-Balances crashed regions p = (omega arith, omega arith)

-- The calls that reach a process.
pub data Call : Type 0 where
  launches launches_suspended terminates kills_it continues waits exits crashes : Call
  attaches : List Region → Call
  prepares sets_result : ℕ → Call

unfoldable pub call : Process → Call → Outcome
call p launches = launch p
call p launches_suspended = launch_suspended p
call p terminates = terminate p
call p kills_it = kill p
call p continues = continue p
call p waits = wait_to_start p
call p exits = change_state exited [] p
call p crashes = change_state crashed [] p
call p (attaches regions) = attach regions p
call p (prepares r) = (prepare_for_launch r p).1
call p (sets_result r) = does (set_result r p) []

-- One for a request to launch, and one for a wait.
abbrev pub asks_launch : Call → ℕ
asks_launch launches = 1
asks_launch launches_suspended = 1
asks_launch c = 0

abbrev pub asks_wait : Call → ℕ
asks_wait waits = 1
asks_wait c = 0

-- No second request is made while one waits.
abbrev pub Orderly : Process → Call → Type 0
Orderly p launches = p.run_opener ≡ false
Orderly p launches_suspended = p.run_opener ≡ false
Orderly p waits = p.suspended_launch_cb ≡ false
Orderly p c = Unit

pub resume-Balances : (code : ℕ) (p : Process) → Balances 0 0 p (resume code p)
resume-Balances code p = go p.suspended_launch_cb refl
  where
    go :
        (b : Bool)
        → p.suspended_launch_cb ≡ b
        → Balances 0 0 p (call_launch code b (record p { suspended_launch_cb = false }))
    go true e = (omega arith, omega (arith, ap bit e))
    go false e = tt
