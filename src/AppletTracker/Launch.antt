-- ===== src/AppletTracker/Launch.antt =====
-- The order in which applets are handed to the control process.
use twili.Base.{
  All, All-map, List, [], ap, ap₂, false, if◌then◌else◌, none, refl, some, true, ℕ, ◌++◌, ◌==◌, ◌∙◌,
  ◌∷◌, ◌≡◌,
}
use twili.Process.{Outcome, Process, does, no_longer_requested}
use twili.ShellTracker.Queue.{
  HasExited, IsPending, farewell, gone, prepare-pending, prepare-wanted, set_at-keeps, set_at_same,
  set_at_self,
}
use twili.AppletTracker.{
  Applets, System, applet_prepared, create_process, hbmenu_prepared, is_it, keep_process,
  launch_hbmenu, monitor, new_process, pop_applet, pop_applets, settled, told,
}
use twili.AppletTracker.Released.{Unwatched, after_exit, told-unwatched}
use twili.ShellTracker.{set_at}

abbrev pub AllKilled : Applets → List ℕ → Type 0
AllKilled t cs = All (λ c. IsPending true (t.processes c)) cs

-- The processes `cs` have left the queue and exited; the wishes of the others stay.
pub record Cancelled (t : Applets) (cs : List ℕ) (t' : Applets) : Type 0 where
  pub cancelled : All (λ c. HasExited (t'.processes c)) cs
  pub stay_exited : (b : ℕ) → HasExited (t.processes b) → HasExited (t'.processes b)
  pub stay_wanted : (b : ℕ) → IsPending false (t.processes b) → IsPending false (t'.processes b)
  pub watched_kept : t'.watched ≡ t.watched
  pub created_kept : t'.created ≡ t.created
  pub address_kept : t'.next_process ≡ t.next_process

Cancelled-first :
    {t t' : Applets} (c : ℕ) {cs : List ℕ}
    → Cancelled (after_exit t c) cs t'
    → Cancelled t (c ∷ cs) t'
Cancelled-first {t} c d = record {
  cancelled = (
    d.stay_exited c
        (ap (λ (p : Process). p.state) (set_at_same c (gone (t.processes c)) t.processes)),
    d.cancelled,
  );
  stay_exited = λ b h.
      d.stay_exited b (set_at-keeps HasExited c (gone (t.processes c)) t.processes (λ e. refl) b h);
  stay_wanted = λ b h.
      d.stay_wanted b
        (set_at-keeps (IsPending false) c (gone (t.processes c)) t.processes (λ e. e) b h);
  watched_kept = d.watched_kept;
  created_kept = d.created_kept;
  address_kept = d.address_kept;
}

-- A process that was killed in the queue exits, and the loop goes on.
pop_applets-killed :
    (s : System) (c : ℕ) (queue : List ℕ) (t : Applets)
    → IsPending true (t.processes c)
    → is_it c t.watched ≡ false
    → pop_applets s (c ∷ queue) t ≡ pop_applets s queue (after_exit (record t { queued = queue }) c)
unfolding pop_applets settled
pop_applets-killed s c queue t k u =
    ap
      (λ (ro : ℕ × Outcome).
        applet_prepared (pop_applets s queue) ro.0 c
          (settled (monitor s) c ro.1 (record t { queued = queue })))
      (prepare-pending (s.prepared c) (t.processes c) k)
    ∙ ap (applet_prepared (pop_applets s queue) no_longer_requested c) (
        told-unwatched s c (farewell (t.processes c)) (after_exit (record t { queued = queue }) c)
          u)

pop_applets-Cancelled :
    (s : System) (cs rest : List ℕ) (t : Applets)
    → AllKilled t cs
    → Unwatched t cs
    → t.queued ≡ cs ++ rest
    → (t' : Applets) × (pop_applets s (cs ++ rest) t ≡ pop_applets s rest t')
      × (t'.queued ≡ rest)
      × Cancelled t cs t'
pop_applets-Cancelled s [] rest t k u q = (
  t,
  refl,
  q,
  record {
    cancelled = tt;
    stay_exited = λ b h. h;
    stay_wanted = λ b h. h;
    watched_kept = refl;
    created_kept = refl;
    address_kept = refl;
  },
)
pop_applets-Cancelled s (c ∷ cs) rest t (k, ks) (u, us) q =
    let t0 = record t { queued = cs ++ rest } in
    let next = after_exit t0 c in
    let (t', e, q', d) =
      pop_applets-Cancelled s cs rest next
        (All-map (λ b. IsPending true (t.processes b)) (λ b. IsPending true (next.processes b))
          (λ b h. set_at-keeps (IsPending true) c (gone (t.processes c)) t.processes (λ e. e) b h)
          cs ks)
        us refl in
    (
      t',
      pop_applets-killed s c (cs ++ rest) t k u ∙ e,
      q',
      record {
        cancelled = (Cancelled-first {t = t0} c d).cancelled;
        stay_exited = (Cancelled-first {t = t0} c d).stay_exited;
        stay_wanted = (Cancelled-first {t = t0} c d).stay_wanted;
        watched_kept = d.watched_kept;
        created_kept = d.created_kept;
        address_kept = d.address_kept;
      },
    )

-- What is launched, with `rest` behind the processes that were killed: its first, or hbmenu.
abbrev pub next_of : Applets → List ℕ → ℕ
next_of t [] = t.next_process
next_of t (a ∷ rest) = a

abbrev pub behind_next : List ℕ → List ℕ
behind_next [] = []
behind_next (a ∷ rest) = rest

abbrev pub FirstIsWanted : Applets → List ℕ → Type 0
FirstIsWanted t [] = Unit
FirstIsWanted t (a ∷ rest) = IsPending false (t.processes a)

set_at_other :
    (a : ℕ) (p : Process) (f : ℕ → Process) (b : ℕ) → b == a ≡ false → set_at a p f b ≡ f b
unfolding set_at
set_at_other a p f b e = ap (λ x. if x then p else f b) e

-- The tracker behind a launch of hbmenu.
after_hbmenu : Applets → Applets
after_hbmenu t =
    let a = t.next_process in
    let made = record (create_process t) { hbmenu = some a } in
    record (keep_process made a (made.processes a) []) {
      created = t.created ++ (a ∷ []);
      hbmenu = none;
    }

launch_hbmenu_lem :
    (s : System) (t : Applets)
    → s.prepared t.next_process ≡ 0
    → launch_hbmenu s t ≡ some (0, some t.next_process, after_hbmenu t)
unfolding launch_hbmenu create_process settled told after_hbmenu
launch_hbmenu_lem s t ok =
    let a = t.next_process in
    let made = record (create_process t) { hbmenu = some a } in
    ap (λ (ro : ℕ × Outcome). hbmenu_prepared ro.0 a (settled (monitor s) a ro.1 made))
      (prepare-wanted (s.prepared a) (made.processes a)
          (ap (λ (p : Process). p.exit_pending) (set_at_same a new_process t.processes))
        ∙ ap (λ r. (r, does (made.processes a) [])) ok)

after_hbmenu-HasExited :
    (t : Applets) (b : ℕ)
    → b == t.next_process ≡ false
    → HasExited (t.processes b)
    → HasExited ((after_hbmenu t).processes b)
unfolding after_hbmenu create_process
after_hbmenu-HasExited t b e h =
    let a = t.next_process in
    ap (λ (p : Process). p.state)
      (set_at_other a _ (set_at a new_process t.processes) b e
        ∙ set_at_other a new_process t.processes b e)
    ∙ h

All-both :
    (P Q R : ℕ → Type 0)
    → ((x : ℕ) → P x → Q x → R x)
    → (xs : List ℕ) → All P xs
    → All Q xs
    → All R xs
All-both P Q R f [] p q = tt
All-both P Q R f (x ∷ xs) (p, ps) (q, qs) = (f x p q, All-both P Q R f xs ps qs)

-- The outcome of a pop.
abbrev pub HandsOut : System → Applets → List ℕ → List ℕ → Type 0
HandsOut s t cs rest =
    (t' : Applets) × (pop_applet s t ≡ some (0, some (next_of t rest), t'))
    × (t'.queued ≡ behind_next rest)
    × (t'.created ≡ t.created ++ (next_of t rest ∷ []))
    × All (λ c. HasExited (t'.processes c)) cs

-- PopQueuedProcess hands out the first process of the queue that was not killed, or hbmenu where
-- there is none, which is created then; those that were killed before it exit, and those behind it
-- stay queued. This needs that the preparation succeeds, that the monitor watches none of the killed
-- ones and that a new process has an address of its own.
pub pop_applet-HandsOut :
    (s : System) (t : Applets) (cs rest : List ℕ)
    → t.queued ≡ cs ++ rest
    → AllKilled t cs
    → Unwatched t cs
    → All (λ c. c == t.next_process ≡ false) cs
    → FirstIsWanted t rest
    → s.prepared (next_of t rest) ≡ 0
    → HandsOut s t cs rest
unfolding pop_applet pop_applets settled told after_hbmenu create_process
pop_applet-HandsOut s t cs [] q k u own wanted ok =
    let (t', e, q', d) = pop_applets-Cancelled s cs [] t k u q in
    let a = d.address_kept in
    (
      after_hbmenu t',
      ap (λ x. pop_applets s x t) q
          ∙ e
          ∙ launch_hbmenu_lem s t' (ap s.prepared a ∙ ok)
          ∙ ap (λ x. some (0, some x, after_hbmenu t')) a,
      q',
      ap₂ (λ c x. c ++ (x ∷ [])) d.created_kept a,
      All-both (λ c. c == t.next_process ≡ false) (λ c. HasExited (t'.processes c)) _
          (λ c o h. after_hbmenu-HasExited t' c (ap (λ x. c == x) a ∙ o) h) cs own d.cancelled,
    )
pop_applet-HandsOut s t cs (a ∷ rest) q k u own wanted ok =
    let (t', e, q', d) = pop_applets-Cancelled s cs (a ∷ rest) t k u q in
    let left = record t' { queued = rest } in
    let t'' = record (keep_process left a (t'.processes a) []) {
      created = t'.created ++ (a ∷ []);
    } in
    (
      t'',
      ap (λ x. pop_applets s x t) q
          ∙ e
          ∙ ap
              (λ (ro : ℕ × Outcome).
                applet_prepared (pop_applets s rest) ro.0 a (settled (monitor s) a ro.1 left))
              (prepare-wanted (s.prepared a) (t'.processes a) (d.stay_wanted a wanted)
                ∙ ap (λ r. (r, does (t'.processes a) [])) ok),
      refl,
      ap (λ c. c ++ (a ∷ [])) d.created_kept,
      All-map (λ c. HasExited (t'.processes c)) (λ c. HasExited (t''.processes c))
          (λ c h. ap (λ (p : Process). p.state) (set_at_self a t'.processes c) ∙ h) cs d.cancelled,
    )
