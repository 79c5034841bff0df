-- ===== src/AppletTracker/Released.antt =====
-- The end of the control process ends the processes that were created and not attached.
use twili.Base.{All, List, [], ap, false, none, refl, some, true, ℕ, ◌∙◌, ◌∷◌, ◌≡◌}
use twili.Process.{
  Event, Process, changes, exit_process, kills, launch_returns, run_fails, run_succeeds,
  terminates_process,
}
use twili.Process.Pending.{change_state-exited}
use twili.ShellTracker.Queue.{HasExited, farewell, gone, set_at-keeps, set_at_same}
use twili.AppletTracker.{
  Applets, System, and_then, exit_created, exit_hbmenu, is_it, keep_process, monitor, notify,
  release_control_process, release_if, settled, told,
}
use twili.AppletTracker.Hbmenu.{release-next}

-- A process that is not watched changes alone: the others stay, and so does the tracker.
abbrev pub after_exit : Applets → ℕ → Applets
after_exit t a = keep_process t a (gone (t.processes a)) (farewell (t.processes a))

pub told-unwatched :
    (s : System) (a : ℕ) (es : List Event) (t : Applets)
    → is_it a t.watched ≡ false
    → told (monitor s) a es t ≡ some t
unfolding told notify
told-unwatched s a [] t h = refl
told-unwatched s a (launch_returns code ∷ es) t h = told-unwatched s a es t h
told-unwatched s a (run_succeeds ∷ es) t h = told-unwatched s a es t h
told-unwatched s a (run_fails code ∷ es) t h = told-unwatched s a es t h
told-unwatched s a (terminates_process ∷ es) t h = told-unwatched s a es t h
told-unwatched s a (kills ∷ es) t h = told-unwatched s a es t h
told-unwatched s a (changes new ∷ es) t h = rw h (told-unwatched s a es t h)

exit-unwatched :
    (s : System) (a : ℕ) (t : Applets)
    → is_it a t.watched ≡ false
    → settled (monitor s) a (exit_process (t.processes a)) t ≡ some (after_exit t a)
unfolding settled
exit-unwatched s a t h =
    ap (λ o. settled (monitor s) a o t) (change_state-exited [] (t.processes a))
    ∙ told-unwatched s a (farewell (t.processes a)) (after_exit t a) h

abbrev pub Unwatched : Applets → List ℕ → Type 0
Unwatched t cs = All (λ a. is_it a t.watched ≡ false) cs

-- The processes `cs` have exited; those that had before still have, and nothing else changes.
pub record Ended (t : Applets) (cs : List ℕ) (t' : Applets) : Type 0 where
  pub all_exited : All (λ a. HasExited (t'.processes a)) cs
  pub others_exited : (b : ℕ) → HasExited (t.processes b) → HasExited (t'.processes b)
  pub same_queue : t'.queued ≡ t.queued
  pub same_watched : t'.watched ≡ t.watched
  pub same_hbmenu : t'.hbmenu ≡ t.hbmenu

Ended-first :
    {t t' : Applets} (a : ℕ) {cs : List ℕ} → Ended (after_exit t a) cs t' → Ended t (a ∷ cs) t'
Ended-first {t} a d = record {
  all_exited = (
    d.others_exited a
        (ap (λ (p : Process). p.state) (set_at_same a (gone (t.processes a)) t.processes)),
    d.all_exited,
  );
  others_exited = λ b h.
      d.others_exited b
        (set_at-keeps HasExited a (gone (t.processes a)) t.processes (λ e. refl) b h);
  same_queue = d.same_queue;
  same_watched = d.same_watched;
  same_hbmenu = d.same_hbmenu;
}

exit_created-Ended :
    (s : System) (cs : List ℕ) (t : Applets)
    → Unwatched t cs
    → (t' : Applets) × (exit_created s cs t ≡ some t') × Ended t cs t'
unfolding exit_created
exit_created-Ended s [] t u = (
  t,
  refl,
  record {
    all_exited = tt;
    others_exited = λ b h. h;
    same_queue = refl;
    same_watched = refl;
    same_hbmenu = refl;
  },
)
exit_created-Ended s (a ∷ cs) t (u, us) =
    let (t', e, d) = exit_created-Ended s cs (after_exit t a) us in
    (t', ap (λ o. and_then o (exit_created s cs)) (exit-unwatched s a t u) ∙ e, Ended-first a d)

-- When the control process goes, every process that was created and not attached exits, the queue
-- stays, and nothing is created any more, where the monitor watches none of these and there is no
-- hbmenu.
pub release_control_process-Ended :
    (s : System) (t : Applets)
    → t.has_control_process ≡ true
    → t.hbmenu ≡ none
    → Unwatched t t.created
    → (t' : Applets) × (release_control_process s t ≡ some t')
      × (t'.created ≡ [])
      × (t'.queued ≡ t.queued)
      × All (λ a. HasExited (t'.processes a)) t.created
unfolding release_control_process
release_control_process-Ended s t e n u =
    let (t', f, d) = exit_created-Ended s t.created (record t { has_control_process = false }) u in
    (
      record t' { created = [] },
      ap (λ b. release_if s b t) e
          ∙ ap
              (λ o.
                and_then o (λ x.
                  and_then (exit_hbmenu s x.hbmenu x) (λ y. some (record y { created = [] }))))
              f
          ∙ release-next s t' (d.same_hbmenu ∙ n),
      refl,
      d.same_queue,
      d.all_exited,
    )
