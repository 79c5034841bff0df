-- ===== src/Dispatch/Routes.antt =====
-- Two devices with one id: the requests to this id, while both come and one goes.
use twili.Base.{ap, arith, false, lookup, lookup-remove, none, refl, some, ℕ, ◌<◌, ◌∙◌, ◌≡◌}
use twili.Daemon.{Daemon, Device, add_device, device_at, gives_way, remove_device}
use twili.Dispatch.{find_device, live_device, live_in}

live_device-kept :
    (address : ℕ) (dev : Device)
    → dev.deletion_flag ≡ false
    → live_device address (some dev) ≡ some address
live_device-kept address dev e = rw e refl

-- The entry of the id `id`: a live device at the address.
pub record Routed (d : Daemon) (id address : ℕ) (dev : Device) : Type 0 where
  pub entered : lookup id d.devices ≡ some address
  pub alive : lookup address d.device_memory ≡ some dev
  pub kept : dev.deletion_flag ≡ false

find_device-Routed :
    {d : Daemon} {id address : ℕ} {dev : Device}
    → Routed d id address dev
    → find_device d id ≡ some address
unfolding find_device
find_device-Routed {d} {address = address} {dev = dev} r =
    ap (live_in d.device_memory) r.entered
    ∙ ap (live_device address) r.alive
    ∙ live_device-kept address dev r.kept

-- A live device keeps its requests when one of lower priority with its id is added, but loses them
-- when that one is removed, which the map never held.
pub remove_device-hides :
    (rng : ℕ → ℕ) (d : Daemon) (address other : ℕ) (dev new : Device)
    → Routed d new.device_id address dev
    → new.priority < dev.priority
    → let d' = add_device rng d other new in
      (find_device d' new.device_id ≡ some address)
      × (find_device (remove_device d' new) new.device_id ≡ none)
unfolding add_device remove_device find_device
remove_device-hides rng d address other dev new r low =
    let stays : gives_way (device_at d.device_memory (lookup new.device_id d.devices)) new ≡ false =
      ap (λ o. gives_way (device_at d.device_memory o) new) r.entered
      ∙ ap (λ o. gives_way o new) r.alive
      ∙ ground (arith, low) in
    rw stays
      (find_device-Routed r, ap (live_in d.device_memory) (lookup-remove new.device_id d.devices))
