-- ===== src/ShellTracker/Limbo.antt =====
-- At most one process is created and not attached.
use twili.Base.{
  ==_iff, Bool, Bool-cases, List, Option, [], arith, false, inl, inr, length, length-append, lookup,
  none, refl, some, subst, suc, true, ℕ, ◌==◌, ◌∷◌, ◌≡◌, ◌≤◌,
}
use twili.Process.{
  Outcome, Region, aborts, does, no_longer_requested, prepare_for_launch, throws_bad_function,
}
use twili.ShellTracker.{
  Popped, Tracker, attach_front, attach_host_process, clear_created, exit_tracked, launched,
  pop_from, pop_queued_process, popped, put, queue_launch, ready_to_launch, request, settle,
  shell_exit, try_if, try_to_launch,
}

abbrev pub InLimbo : Tracker → Type 0
InLimbo t = length t.created ≤ 1

abbrev pub Keeps : Option Tracker → Type 0
Keeps none = Unit
Keeps (some t) = InLimbo t

settle-Keeps : (t : Tracker) (a : ℕ) (o : Outcome) → InLimbo t → Keeps (settle t a o)
settle-Keeps t a (does p events) h = h
settle-Keeps t a throws_bad_function h = tt
settle-Keeps t a aborts h = tt

-- A process is created at most once while the queue is popped.
abbrev pub Pops : ℕ → Popped → Type 0
Pops n none = Unit
Pops n (some (r, none, t)) = length t.created ≡ n
Pops n (some (r, some a, t)) = length t.created ≡ suc n

popped-Pops :
    (next : Tracker → Popped) (a : ℕ) (queue : List ℕ) (t : Tracker) (o : ℕ × Outcome)
    → ((t' : Tracker) → t'.created ≡ t.created → Pops (length t.created) (next t'))
    → Pops (length t.created) (popped next a queue t o)
popped-Pops next a queue t (r, does p events) h = elim (Bool-cases (r == no_longer_requested)) [
  | inl e ↦ rw e (h (put t a p events) refl)
  | inr e ↦ elim (Bool-cases (r == 0)) [
    | inl f ↦ rw (e, f) (omega (arith, length-append t.created (a ∷ [])))
    | inr f ↦ rw (e, f) refl
  ]
]
popped-Pops next a queue t (r, throws_bad_function) h = tt
popped-Pops next a queue t (r, aborts) h = tt

pop_from-Pops :
    (prepared : ℕ → ℕ) (queue : List ℕ) (t : Tracker)
    → Pops (length t.created) (pop_from prepared queue t)
unfolding pop_from
pop_from-Pops prepared [] t = refl
pop_from-Pops prepared (a ∷ queue) t =
    popped-Pops (pop_from prepared queue) a queue t
      (prepare_for_launch (prepared a) (t.processes a))
      (λ t' e.
        subst (λ c. Pops (length c) (pop_from prepared queue t')) e
          (pop_from-Pops prepared queue t'))

clear_created-Keeps : (o : Option Tracker) → Keeps (clear_created o)
clear_created-Keeps none = tt
clear_created-Keeps (some t) = omega arith

launched-Keeps :
    (b : Bool) (answer : ℕ × ℕ) (a : ℕ) (t : Tracker) → InLimbo t → Keeps (launched b answer a t)
launched-Keeps true (r, pid) a t h = h
launched-Keeps false (r, pid) a t h = clear_created-Keeps _

request-Keeps : (answer : ℕ × ℕ) (o : Popped) → Pops 0 o → Keeps (request answer o)
request-Keeps answer none h = tt
request-Keeps answer (some (r, none, t)) h = omega arith
request-Keeps answer (some (r, some a, t)) h = elim (Bool-cases (r == no_longer_requested)) [
  | inl e ↦ rw e (omega arith)
  | inr e ↦ rw e (launched-Keeps (answer.0 == 0) answer a t (omega arith))
]

-- What the tracker is told.
pub data Call : Type 0 where
  queues : ℕ → Call
  tries : (ℕ → ℕ) → ℕ × ℕ → Call
  attaches : List Region → Call
  exits : ℕ → Call

unfoldable pub call : Tracker → Call → Option Tracker
call t (queues a) = some (queue_launch t a)
call t (tries prepared answer) = try_to_launch prepared answer t
call t (attaches regions) = attach_host_process regions t
call t (exits pid) = shell_exit pid t

try-Keeps :
    (b : Bool) (prepared : ℕ → ℕ) (answer : ℕ × ℕ) (t : Tracker)
    → (b ≡ true → length t.created ≡ 0)
    → InLimbo t
    → Keeps (try_if b prepared answer t)
unfolding pop_queued_process
try-Keeps true prepared answer t ready h = request-Keeps answer (pop_from prepared t.queued t) (
    subst (λ n. Pops n (pop_from prepared t.queued t)) (ready refl)
      (pop_from-Pops prepared t.queued t))
try-Keeps false prepared answer t ready h = h

attach-Keeps :
    (regions : List Region) (t : Tracker) (front : List ℕ)
    → length front ≤ 1
    → Keeps (attach_front regions t front)
attach-Keeps regions t [] h = tt
attach-Keeps regions t (a ∷ front) h = settle-Keeps _ a _ (omega arith)

exit-Keeps :
    (pid : ℕ) (t : Tracker) (found : Option ℕ) → InLimbo t → Keeps (exit_tracked pid t found)
exit-Keeps pid t none h = h
exit-Keeps pid t (some a) h = settle-Keeps _ a _ h

call-Keeps : (t : Tracker) (c : Call) → InLimbo t → Keeps (call t c)
unfolding call queue_launch try_to_launch ready_to_launch attach_host_process shell_exit
call-Keeps t (queues a) h = h
call-Keeps t (tries prepared answer) h =
    try-Keeps (length t.created == 0) prepared answer (record t { tracker_signal = false })
      (λ e. (==_iff (length t.created) 0).0 e) h
call-Keeps t (attaches regions) h = attach-Keeps regions t t.created h
call-Keeps t (exits pid) h = exit-Keeps pid t (lookup pid t.tracking) h

abbrev pub call_next : Option Tracker → (Tracker → Option Tracker) → Option Tracker
call_next none next = none
call_next (some t) next = next t

unfoldable pub run : Tracker → List Call → Option Tracker
run t [] = some t
run t (c ∷ cs) = call_next (call t c) (λ t'. run t' cs)

call_next-Keeps :
    (o : Option Tracker) (next : Tracker → Option Tracker)
    → Keeps o
    → ((t : Tracker) → InLimbo t → Keeps (next t))
    → Keeps (call_next o next)
call_next-Keeps none next h f = tt
call_next-Keeps (some t) next h f = f t h

-- Through all calls in any order, as long as none aborts, at most one process is created that is not
-- yet attached.
pub run-InLimbo : (t : Tracker) (cs : List Call) → InLimbo t → Keeps (run t cs)
unfolding run
run-InLimbo t [] h = h
run-InLimbo t (c ∷ cs) h =
    call_next-Keeps (call t c) (λ t'. run t' cs) (call-Keeps t c h) (λ t' h'. run-InLimbo t' cs h')
