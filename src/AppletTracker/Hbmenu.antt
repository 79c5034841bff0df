-- ===== src/AppletTracker/Hbmenu.antt =====
-- The tracker never holds its hbmenu between calls, so that it is not ended for a launch.
use twili.Base.{
  Bool, Bool-cases, List, Option, [], ap, false, inl, inr, none, refl, some, subst, sym, true, ℕ,
  ◌==◌, ◌∷◌, ◌≡◌,
}
use twili.Process.{
  Event, Outcome, Region, State, aborts, attach, changes, does, exit_process, is_exited, kills,
  launch_returns, no_longer_requested, prepare_for_launch, run_fails, run_succeeds,
  terminates_process, throws_bad_function,
}
use twili.AppletTracker.{
  AppletPopped, Applets, System, Tell, and_then, applet_prepared, applet_ready, attach_first,
  changed_to, create_process, enqueue_applet, exit_created, exit_hbmenu, forget_hbmenu, hbl_load,
  hbmenu_prepared, is_it, kill_hbmenu, launch_hbmenu, monitor, notify, pop_applets, queue_applet,
  release_if, settled, state_changed, tell_event, told, wake,
}

abbrev pub ForgetsHbmenu : Option Applets → Type 0
ForgetsHbmenu none = Unit
ForgetsHbmenu (some t) = t.hbmenu ≡ none

wake_hbmenu : (t : Applets) → t.hbmenu ≡ none → (wake t).hbmenu ≡ none
unfolding wake
wake_hbmenu t h = elim (Bool-cases (applet_ready t)) [ inl e ↦ rw e h | inr e ↦ rw e h ]

pub and_then-ForgetsHbmenu :
    (o : Option Applets) (next : Applets → Option Applets)
    → ForgetsHbmenu o
    → ((t : Applets) → t.hbmenu ≡ none → ForgetsHbmenu (next t))
    → ForgetsHbmenu (and_then o next)
and_then-ForgetsHbmenu none next h f = tt
and_then-ForgetsHbmenu (some t) next h f = f t h

abbrev TellForgetsHbmenu : Tell → Type 0
TellForgetsHbmenu tell =
    (a : ℕ) (new : State) (t : Applets) → t.hbmenu ≡ none → ForgetsHbmenu (tell a new t)

module _ (tell : Tell) (f : TellForgetsHbmenu tell) where
  tell_event-ForgetsHbmenu :
      (a : ℕ) (e : Event) (t : Applets) → t.hbmenu ≡ none → ForgetsHbmenu (tell_event tell a e t)
  tell_event-ForgetsHbmenu a (changes new) t h = f a new t h
  tell_event-ForgetsHbmenu a (launch_returns code) t h = h
  tell_event-ForgetsHbmenu a run_succeeds t h = h
  tell_event-ForgetsHbmenu a (run_fails code) t h = h
  tell_event-ForgetsHbmenu a terminates_process t h = h
  tell_event-ForgetsHbmenu a kills t h = h

  told-ForgetsHbmenu :
      (a : ℕ) (es : List Event) (t : Applets) → t.hbmenu ≡ none → ForgetsHbmenu (told tell a es t)
  unfolding told
  told-ForgetsHbmenu a [] t h = h
  told-ForgetsHbmenu a (e ∷ es) t h =
      and_then-ForgetsHbmenu (tell_event tell a e t) (told tell a es)
        (tell_event-ForgetsHbmenu a e t h) (told-ForgetsHbmenu a es)

  pub settled-ForgetsHbmenu :
      (a : ℕ) (o : Outcome) (t : Applets) → t.hbmenu ≡ none → ForgetsHbmenu (settled tell a o t)
  unfolding settled
  settled-ForgetsHbmenu a (does p events) t h = told-ForgetsHbmenu a events _ h
  settled-ForgetsHbmenu a throws_bad_function t h = tt
  settled-ForgetsHbmenu a aborts t h = tt

-- Without hbmenu there is nothing to kill.
pub queue_applet-none :
    (tell : Tell) (a : ℕ) (t : Applets)
    → t.hbmenu ≡ none
    → queue_applet tell a t ≡ some (enqueue_applet a t)
unfolding queue_applet
queue_applet-none tell a t h =
    ap (λ m. and_then (kill_hbmenu tell m t) (λ t'. some (enqueue_applet a t'))) h

pub queue_applet-ForgetsHbmenu :
    (tell : Tell) (a : ℕ) (t : Applets) → t.hbmenu ≡ none → ForgetsHbmenu (queue_applet tell a t)
queue_applet-ForgetsHbmenu tell a t h =
    subst ForgetsHbmenu (sym (queue_applet-none tell a t h)) (wake_hbmenu _ h)

hbl_load-ForgetsHbmenu :
    (tell : Tell) (b : Bool) (t : Applets) → t.hbmenu ≡ none → ForgetsHbmenu (hbl_load tell b t)
unfolding hbl_load create_process
hbl_load-ForgetsHbmenu tell true t h = queue_applet-ForgetsHbmenu tell _ _ h
hbl_load-ForgetsHbmenu tell false t h = h

forget_hbmenu_lem : (a : ℕ) (t : Applets) → t.hbmenu ≡ none → (forget_hbmenu a t).hbmenu ≡ none
forget_hbmenu_lem a t h = elim (Bool-cases (is_it a t.hbmenu)) [
  | inl e ↦ rw e refl
  | inr e ↦ rw e h
]

changed_to-ForgetsHbmenu :
    (s : System) (tell : Tell) (a : ℕ) (b : Bool) (t : Applets)
    → t.hbmenu ≡ none
    → ForgetsHbmenu (changed_to s tell a b t)
changed_to-ForgetsHbmenu s tell a true t h =
    and_then-ForgetsHbmenu (hbl_load tell (s.next_load a) (forget_hbmenu a t)) _
      (hbl_load-ForgetsHbmenu tell (s.next_load a) _ (forget_hbmenu_lem a t h)) (λ t' h'. h')
changed_to-ForgetsHbmenu s tell a false t h = h

pub monitor-ForgetsHbmenu : (s : System) → TellForgetsHbmenu (monitor s)
unfolding notify state_changed
monitor-ForgetsHbmenu s a new t h = elim (Bool-cases (is_it a t.watched)) [
  | inl e ↦
      rw e (changed_to-ForgetsHbmenu s (notify 1 s) a (is_exited new) (wake t) (wake_hbmenu t h))
  | inr e ↦ rw e h
]

exit_created-ForgetsHbmenu :
    (s : System) (cs : List ℕ) (t : Applets) → t.hbmenu ≡ none → ForgetsHbmenu (exit_created s cs t)
unfolding exit_created
exit_created-ForgetsHbmenu s [] t h = h
exit_created-ForgetsHbmenu s (a ∷ cs) t h =
    and_then-ForgetsHbmenu (settled (monitor s) a (exit_process (t.processes a)) t)
      (exit_created s cs) (settled-ForgetsHbmenu (monitor s) (monitor-ForgetsHbmenu s) a _ t h)
      (exit_created-ForgetsHbmenu s cs)

-- Without hbmenu there is nothing else to end.
pub release-next :
    (s : System) (t : Applets)
    → t.hbmenu ≡ none
    → and_then (exit_hbmenu s t.hbmenu t) (λ t'. some (record t' { created = [] }))
      ≡ some (record t { created = [] })
release-next s t h =
    ap (λ m. and_then (exit_hbmenu s m t) (λ t'. some (record t' { created = [] }))) h

pub release_if-ForgetsHbmenu :
    (s : System) (b : Bool) (t : Applets) → t.hbmenu ≡ none → ForgetsHbmenu (release_if s b t)
release_if-ForgetsHbmenu s true t h =
    and_then-ForgetsHbmenu (exit_created s t.created (record t { has_control_process = false })) _
      (exit_created-ForgetsHbmenu s t.created _ h)
      (λ t' h'. subst ForgetsHbmenu (sym (release-next s t' h')) h')
release_if-ForgetsHbmenu s false t h = tt

-- What a pop leaves behind.
abbrev pub left_by_pop : AppletPopped → Option Applets
left_by_pop none = none
left_by_pop (some (r, found, t)) = some t

hbmenu_prepared-ForgetsHbmenu :
    (r a : ℕ) (o : Option Applets) → ForgetsHbmenu (left_by_pop (hbmenu_prepared r a o))
hbmenu_prepared-ForgetsHbmenu r a none = tt
hbmenu_prepared-ForgetsHbmenu r a (some t) = elim (Bool-cases (r == 0)) [
  | inl e ↦ rw e refl
  | inr e ↦ rw e tt
]

applet_prepared-ForgetsHbmenu :
    (next : Applets → AppletPopped) (r a : ℕ) (o : Option Applets)
    → ((t : Applets) → t.hbmenu ≡ none → ForgetsHbmenu (left_by_pop (next t)))
    → ForgetsHbmenu o
    → ForgetsHbmenu (left_by_pop (applet_prepared next r a o))
applet_prepared-ForgetsHbmenu next r a none f h = tt
applet_prepared-ForgetsHbmenu next r a (some t) f h = elim (Bool-cases (r == no_longer_requested)) [
  | inl e ↦ rw e (f t h)
  | inr e ↦ elim (Bool-cases (r == 0)) [ inl g ↦ rw (e, g) h | inr g ↦ rw (e, g) h ]
]

pub pop_applets-ForgetsHbmenu :
    (s : System) (queue : List ℕ) (t : Applets)
    → t.hbmenu ≡ none
    → ForgetsHbmenu (left_by_pop (pop_applets s queue t))
unfolding pop_applets launch_hbmenu
pop_applets-ForgetsHbmenu s [] t h =
    let a = t.next_process in
    let t' = record (create_process t) { hbmenu = some a } in
    let (r, o) = prepare_for_launch (s.prepared a) (t'.processes a) in
    hbmenu_prepared-ForgetsHbmenu r a (settled (monitor s) a o t')
pop_applets-ForgetsHbmenu s (a ∷ queue) t h =
    let (r, o) = prepare_for_launch (s.prepared a) (t.processes a) in
    applet_prepared-ForgetsHbmenu (pop_applets s queue) r a
      (settled (monitor s) a o (record t { queued = queue })) (pop_applets-ForgetsHbmenu s queue)
      (settled-ForgetsHbmenu (monitor s) (monitor-ForgetsHbmenu s) a o _ h)

pub attach_first-ForgetsHbmenu :
    (s : System) (regions : List Region) (front : List ℕ) (t : Applets)
    → t.hbmenu ≡ none
    → ForgetsHbmenu (attach_first s regions front t)
attach_first-ForgetsHbmenu s regions [] t h = tt
attach_first-ForgetsHbmenu s regions (a ∷ front) t h =
    and_then-ForgetsHbmenu (settled (monitor s) a (attach regions (t.processes a)) t) _
      (settled-ForgetsHbmenu (monitor s) (monitor-ForgetsHbmenu s) a _ t h)
      (λ t' h'. wake_hbmenu _ h')
