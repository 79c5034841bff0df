-- ===== src/Daemon/Devices.antt =====
-- `AddDevice`: which of the devices with one id the map holds, and the request that resets it.
use twili.Base.{
  All, Bool, List, Nat-cases, Option, [], ap, append-nil, arith, false, inl, inr, lookup,
  lookup-store, lookup-store_other, none, refl, some, subst, suc, sym, true, ℕ, ◌++◌, ◌∙◌, ◌∷◌, ◌≡◌,
  ◌≢◌, ◌≤◌, ◌⊎◌,
}
use twili.Messages.{Request}
use twili.Daemon.{
  Daemon, Device, Job, add_device, device_at, enter_if, gives_way, post_request, requests,
  reset_request, send_request,
}

-- The device that the entry of an id points to, if it is alive.
unfoldable pub entry : Daemon → ℕ → Option Device
entry d id = device_at d.device_memory (lookup id d.devices)

abbrev pub AtLeast : ℕ → Option Device → Type 0
AtLeast priority none = ⊥
AtLeast priority (some device) = priority ≤ device.priority

abbrev pub Any : (ℕ × Device → Type 0) → List (ℕ × Device) → Type 0
Any P [] = ⊥
Any P (x ∷ xs) = P x ⊎ Any P xs

-- The request that goes to a device that is entered: that object 0 closes the others.
abbrev pub reset_of : (ℕ → ℕ) → Daemon → Device → Request
reset_of rng d new = record (reset_request new.device_id) {
  tag = rng d.drawn;
  client = some d.local_client;
}

-- The entry of the device's id, before and after, and the jobs that the call adds: a device of a
-- higher priority stays; else the new one is entered and reset.
abbrev pub Chooses : Option Device → Device → Option Device → List Job → Request → Type 0
Chooses before new after jobs reset =
    ((before ≡ after) × AtLeast (suc new.priority) before × (jobs ≡ []))
    ⊎ ((after ≡ some new) × (gives_way before new ≡ true) × (jobs ≡ requests reset ∷ []))

pub record Adds (rng : ℕ → ℕ) (d : Daemon) (new : Device) (d' : Daemon) : Type 0 where
  pub memory_kept : d'.device_memory ≡ d.device_memory
  pub others : (i : ℕ) → i ≢ new.device_id → entry d' i ≡ entry d i
  pub jobs : List Job
  pub queued : d'.dispatch_queue ≡ d.dispatch_queue ++ jobs
  pub chosen :
      Chooses (entry d new.device_id) new (entry d' new.device_id) jobs (reset_of rng d new)

outranks :
    (before : Option Device) (new : Device)
    → gives_way before new ≡ false
    → AtLeast (suc new.priority) before
outranks none new h = absurd (cc h)
outranks (some old) new h = ground (arith, h)

enter_if-Adds :
    (gives : Bool) (rng : ℕ → ℕ) (d : Daemon) (address : ℕ) (new : Device)
    → lookup address d.device_memory ≡ some new
    → gives_way (entry d new.device_id) new ≡ gives
    → Adds rng d new (enter_if gives rng d new.device_id address)
unfolding send_request post_request entry
enter_if-Adds true rng d address new alive g = record {
  memory_kept = refl;
  others = λ i n.
      ap (device_at d.device_memory) (lookup-store_other i new.device_id address d.devices n);
  jobs = requests (reset_of rng d new) ∷ [];
  queued = refl;
  chosen = inr (
    ap (device_at d.device_memory) (lookup-store new.device_id address d.devices) ∙ alive,
    g,
    refl,
  );
}
enter_if-Adds false rng d address new alive g = record {
  memory_kept = refl;
  others = λ i n. refl;
  jobs = [];
  queued = sym (append-nil d.dispatch_queue);
  chosen =
      inl (refl, outranks (device_at d.device_memory (lookup new.device_id d.devices)) new g, refl);
}

-- A device that is alive is entered, and told to close its objects, unless the entry of its id is a
-- live device of a higher priority, which then stays; the other entries stay.
pub add_device_lem :
    (rng : ℕ → ℕ) (d : Daemon) (address : ℕ) (new : Device)
    → lookup address d.device_memory ≡ some new
    → Adds rng d new (add_device rng d address new)
unfolding add_device entry
add_device_lem rng d address new alive =
    enter_if-Adds (gives_way (device_at d.device_memory (lookup new.device_id d.devices)) new) rng d
      address new alive refl

unfoldable pub add_devices : (ℕ → ℕ) → Daemon → List (ℕ × Device) → Daemon
add_devices rng d [] = d
add_devices rng d ((address, new) ∷ rest) = add_devices rng (add_device rng d address new) rest

AtLeast-suc : (n : ℕ) (o : Option Device) → AtLeast (suc n) o → AtLeast n o
AtLeast-suc n none h = h
AtLeast-suc n (some device) h = omega arith

AtLeast-gives_way :
    (n : ℕ) (before : Option Device) (new : Device)
    → gives_way before new ≡ true
    → AtLeast n before
    → n ≤ new.priority
AtLeast-gives_way n none new g h = absurd h
AtLeast-gives_way n (some old) new g h = ground (arith, g)

module _ {rng : ℕ → ℕ} {d d' : Daemon} {new : Device} (a : Adds rng d new d') where
  Adds-tops : AtLeast new.priority (entry d' new.device_id)
  Adds-tops = elim a.chosen [
    | inl (kept, high, jobs) ↦ subst (AtLeast new.priority) kept (AtLeast-suc new.priority _ high)
    | inr (entered, g, jobs) ↦ subst (AtLeast new.priority) (sym entered) (omega arith)
  ]

  Adds-keeps_same : (n : ℕ) → AtLeast n (entry d new.device_id) → AtLeast n (entry d' new.device_id)
  Adds-keeps_same n h = elim a.chosen [
    | inl (kept, high, jobs) ↦ subst (AtLeast n) kept h
    | inr (entered, g, jobs) ↦ subst (AtLeast n) (sym entered) (AtLeast-gives_way n _ new g h)
  ]

  Adds-keeps : (i n : ℕ) → AtLeast n (entry d i) → AtLeast n (entry d' i)
  Adds-keeps i n h = elim (Nat-cases i new.device_id) [
    | inl e ↦
        subst (λ j. AtLeast n (entry d' j)) (sym e)
          (Adds-keeps_same n (subst (λ j. AtLeast n (entry d j)) e h))
    | inr e ↦ subst (AtLeast n) (sym (a.others i e)) h
  ]

  -- The entry of an id is the one before, or the new device.
  Adds-one : (i : ℕ) → (entry d' i ≡ entry d i) ⊎ ((new.device_id ≡ i) × (entry d' i ≡ some new))
  Adds-one i = elim (Nat-cases i new.device_id) [
    | inl e ↦ elim a.chosen [
      | inl (kept, high, jobs) ↦ inl (ap (entry d') e ∙ sym kept ∙ ap (entry d) (sym e))
      | inr (entered, g, jobs) ↦ inr (sym e, ap (entry d') e ∙ entered)
    ]
    | inr e ↦ inl (a.others i e)
  ]

-- The devices that are added, all of which are alive.
abbrev pub AllLive : Daemon → List (ℕ × Device) → Type 0
AllLive d ds = All (λ p. lookup p.0 d.device_memory ≡ some p.1) ds

-- The entry of an id after some devices were added.
abbrev pub Ranks : ℕ → Option Device → List (ℕ × Device) → Option Device → Type 0
Ranks i before ds after =
    All (λ p. p.1.device_id ≡ i → AtLeast p.1.priority after) ds
    × ((n : ℕ) → AtLeast n before → AtLeast n after)
    × ((after ≡ before) ⊎ Any (λ p. (p.1.device_id ≡ i) × (after ≡ some p.1)) ds)

AllLive-memory :
    (d d' : Daemon) (ds : List (ℕ × Device))
    → d'.device_memory ≡ d.device_memory
    → AllLive d ds
    → AllLive d' ds
AllLive-memory d d' ds e h = subst (λ m. All (λ p. lookup p.0 m ≡ some p.1) ds) (sym e) h

Ranks-one :
    {i : ℕ} {before middle after : Option Device} (x : ℕ × Device) (ds : List (ℕ × Device))
    → (middle ≡ before) ⊎ ((x.1.device_id ≡ i) × (middle ≡ some x.1))
    → (after ≡ middle) ⊎ Any (λ p. (p.1.device_id ≡ i) × (after ≡ some p.1)) ds
    → (after ≡ before) ⊎ Any (λ p. (p.1.device_id ≡ i) × (after ≡ some p.1)) (x ∷ ds)
Ranks-one x ds (inl e) (inl f) = inl (f ∙ e)
Ranks-one x ds (inr (e, g)) (inl f) = inr (inl (e, f ∙ g))
Ranks-one x ds e (inr f) = inr (inr f)

-- Whatever live devices are added in whatever order, the entry of an id has at least the priority
-- of each of them with that id and of the entry before, and is one of these.
pub add_devices_lem :
    (rng : ℕ → ℕ) (d : Daemon) (ds : List (ℕ × Device)) (i : ℕ)
    → AllLive d ds
    → Ranks i (entry d i) ds (entry (add_devices rng d ds) i)
unfolding add_devices
add_devices_lem rng d [] i live = (tt, λ n h. h, inl refl)
add_devices_lem rng d ((address, new) ∷ rest) i live =
    let a = add_device_lem rng d address new live.0 in
    let d' = add_device rng d address new in
    let (tops, keeps, one) =
      add_devices_lem rng d' rest i (AllLive-memory d d' rest a.memory_kept live.1) in
    (
      (
        λ e. keeps new.priority (subst (λ j. AtLeast new.priority (entry d' j)) e (Adds-tops a)),
        tops,
      ),
      λ n h. keeps n (Adds-keeps a i n h),
      Ranks-one (address, new) rest (Adds-one a i) one,
    )
