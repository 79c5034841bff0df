-- ===== src/Dispatch/Steps.antt =====
-- The daemon among its clients and devices: the calls of the frontends (SocketFrontend.cpp) and of
-- the backends (TCPBackend.cpp), in any order with the jobs of the queue.
use twili.Base.{
  All, All-map, All-remove, All-store, Bool, Bool-cases, List, Option, [], ap, forget, inl, inr,
  lookup, lookup-forget_other, lookup-store_other, none, present-store, refl, remove, some,
  some-injective, store, subst, sym, ℕ, ◌++◌, ◌∙◌, ◌∷◌, ◌≡◌, ◌≢◌,
}
use twili.Messages.{BridgeObject, Client, Request, Response}
use twili.Daemon.{
  Daemon, Device, Job, add_client, add_device, device_at, draw_unused, enter_client, gives_way,
  let_go, post_request, post_response, release_client, release_in, remove_client, remove_device,
  remove_found, requests, reset_request, responds, wakes,
}
use twili.MetaInterface.{Outside}
use twili.Dispatch.{process}
use twili.Dispatch.Safety.{
  HasClient, IsEntry, IsSafe, PointsIn, Runs, destroy-IsSafe, drop_all-IsSafe, enqueue-IsSafe,
  left_behind-IsSafe, memory-IsSafe, process-Runs, send_request-IsSafe,
}

-- No request in the queue has the pointer.
abbrev pub AsksFor : ℕ → Job → Type 0
AsksFor address wakes = ⊥
AsksFor address (requests rq) = rq.client ≡ some address
AsksFor address (responds rs) = ⊥

abbrev pub Unasked : ℕ → List Job → Type 0
Unasked address jobs = All (λ job. ¬ AsksFor address job) jobs

pub data Step (outside : Outside) (rng : ℕ → ℕ) (d : Daemon) : Daemon → Type 0 where
  -- A backend makes a device.
  makes_device :
      (address : ℕ) (dev : Device)
      → lookup address d.device_memory ≡ none
      → Step outside rng d (record d { device_memory = store address dev d.device_memory })
  adds_device :
      (address : ℕ) (dev : Device)
      → lookup address d.device_memory ≡ some dev
      → Step outside rng d (add_device rng d address dev)
  -- A backend removes a device and drops its pointer.
  removes_device :
      (address : ℕ) (dev : Device)
      → lookup address d.device_memory ≡ some dev
      → Step outside rng d
          (record (remove_device d dev) { device_memory = forget address d.device_memory })
  -- A frontend makes a client and adds it.
  adds_client :
      (fuel address : ℕ) (c : Client) (d' : Daemon)
      → lookup address d.client_memory ≡ none
      → add_client rng fuel d address c ≡ some d'
      → Step outside rng d d'
  asks :
      (address : ℕ) (rq : Request)
      → rq.client ≡ some address
      → lookup address d.client_memory ≢ none
      → Step outside rng d (post_request d rq)
  answers : (rs : Response) → Step outside rng d (post_response d rs)
  -- A backend's next response takes the place of the one that holds the object.
  lets_go :
      (before : List BridgeObject) (o : BridgeObject) (behind : List BridgeObject)
      → d.left_behind ≡ before ++ (o ∷ behind)
      → Step outside rng d (let_go rng d before o behind)
  -- A frontend removes a client of the map; its last pointer goes when no request has it.
  removes_client : (c : Client) (d' : Daemon) → remove_client d c ≡ some d' → Step outside rng d d'
  ends_client :
      (address : ℕ)
      → address ≢ d.local_client
      → Unasked address d.dispatch_queue
      → Step outside rng d (release_client outside.still_held rng d address)
  processes : (d' : Daemon) → process outside rng d ≡ some d' → Step outside rng d d'

pub data Steps (outside : Outside) (rng : ℕ → ℕ) : Daemon → Daemon → Type 0 where
  stays : {d : Daemon} → Steps outside rng d d
  goes :
      {d d' d'' : Daemon}
      → Step outside rng d d'
      → Steps outside rng d' d''
      → Steps outside rng d d''

module _ {d : Daemon} (s : IsSafe d) where
  devices-IsSafe :
      (devices : List (ℕ × ℕ)) (memory : List (ℕ × Device))
      → All (IsEntry memory) devices
      → IsSafe (record d { devices = devices; device_memory = memory })
  devices-IsSafe devices memory h = record {
    requesters = s.requesters;
    entries = h;
    local_alive = s.local_alive;
  }

  makes_device-IsSafe :
      (address : ℕ) (dev : Device)
      → lookup address d.device_memory ≡ none
      → IsSafe (record d { device_memory = store address dev d.device_memory })
  makes_device-IsSafe address dev new =
      devices-IsSafe d.devices (store address dev d.device_memory) (
        All-map (IsEntry d.device_memory) (IsEntry (store address dev d.device_memory)) kept
          d.devices s.entries)
    where
      kept : (e : ℕ × ℕ) → IsEntry d.device_memory e → IsEntry (store address dev d.device_memory) e
      kept e (old, f, g) = (
        old,
        lookup-store_other e.1 address dev d.device_memory
              (λ same. absurd (cc (new, ap (λ a. lookup a d.device_memory) (sym same) ∙ f)))
            ∙ f,
        g,
      )

  add_device-IsSafe :
      (rng : ℕ → ℕ) (address : ℕ) (dev : Device)
      → lookup address d.device_memory ≡ some dev
      → IsSafe (add_device rng d address dev)
  unfolding add_device
  add_device-IsSafe rng address dev alive =
      elim (Bool-cases
        (gives_way (device_at d.device_memory (lookup dev.device_id d.devices)) dev)) [
          | inl e ↦ rw e (send_request-IsSafe entered rng (reset_request dev.device_id))
          | inr e ↦ rw e s
        ]
    where
      entered : IsSafe (record d { devices = store dev.device_id address d.devices })
      entered = devices-IsSafe (store dev.device_id address d.devices) d.device_memory (
          All-store (IsEntry d.device_memory) dev.device_id address d.devices (dev, alive, refl)
            s.entries)

  remove_device-IsSafe :
      (address : ℕ) (dev : Device)
      → lookup address d.device_memory ≡ some dev
      → IsSafe (record (remove_device d dev) { device_memory = forget address d.device_memory })
  unfolding remove_device
  remove_device-IsSafe address dev alive =
      devices-IsSafe (remove dev.device_id d.devices) (forget address d.device_memory) (
        All-remove (IsEntry d.device_memory) (IsEntry (forget address d.device_memory))
          dev.device_id d.devices kept s.entries)
    where
      kept :
          (id a : ℕ)
          → id ≢ dev.device_id
          → IsEntry d.device_memory (id, a)
          → IsEntry (forget address d.device_memory) (id, a)
      kept id a other (old, f, g) = (
        old,
        lookup-forget_other a address d.device_memory (λ same. other (
              sym g
              ∙ ap (λ (x : Device). x.device_id)
                  (some-injective old dev
                    (sym f ∙ ap (λ x. lookup x d.device_memory) same ∙ alive))))
            ∙ f,
        g,
      )

  add_client-IsSafe :
      (rng : ℕ → ℕ) (fuel address : ℕ) (c : Client) (d' : Daemon)
      → add_client rng fuel d address c ≡ some d'
      → IsSafe d'
  unfolding add_client
  add_client-IsSafe rng fuel address c d' e = go (draw_unused rng d.clients d.drawn fuel) e
    where
      go : (found : Option (ℕ × ℕ)) → enter_client d address c found ≡ some d' → IsSafe d'
      go none f = absurd (cc f)
      go (some (id, drawn)) f =
          let m =
            memory-IsSafe s (store address (record c { client_id = id }) d.client_memory)
              (λ a h. present-store a address _ d.client_memory h) in
          subst IsSafe (some-injective _ _ f)
            (record { requesters = m.requesters; entries = m.entries; local_alive = m.local_alive })

  forget-IsSafe :
      (address : ℕ)
      → address ≢ d.local_client
      → Unasked address d.dispatch_queue
      → IsSafe (record d { client_memory = forget address d.client_memory })
  forget-IsSafe address other unasked = record {
    requesters = kept_all d.dispatch_queue unasked s.requesters;
    entries = s.entries;
    local_alive = kept d.local_client (λ e. other (sym e)) s.local_alive;
  }
    where
      kept :
          (a : ℕ)
          → a ≢ address
          → lookup a d.client_memory ≢ none
          → lookup a (forget address d.client_memory) ≢ none
      kept a n h = λ f. h (sym (lookup-forget_other a address d.client_memory n) ∙ f)

      points :
          (p : Option ℕ)
          → (p ≢ some address)
          → PointsIn d.client_memory p
          → PointsIn (forget address d.client_memory) p
      points none n h = h
      points (some a) n h = kept a (λ e. n (ap some e)) h

      kept_job :
          (job : Job)
          → ¬ AsksFor address job
          → HasClient d.client_memory job
          → HasClient (forget address d.client_memory) job
      kept_job wakes n h = h
      kept_job (requests rq) n h = points rq.client n h
      kept_job (responds rs) n h = h

      kept_all :
          (jobs : List Job)
          → Unasked address jobs
          → All (HasClient d.client_memory) jobs
          → All (HasClient (forget address d.client_memory)) jobs
      kept_all [] u h = h
      kept_all (job ∷ jobs) (n, u) (g, h) = (kept_job job n g, kept_all jobs u h)

  release_client-IsSafe :
      (held : BridgeObject → Bool) (rng : ℕ → ℕ) (address : ℕ)
      → address ≢ d.local_client
      → Unasked address d.dispatch_queue
      → IsSafe (release_client held rng d address)
  unfolding release_client
  release_client-IsSafe held rng address other unasked = go (lookup address d.client_memory)
    where
      go : (found : Option Client) → IsSafe (release_in held rng d address found)
      go none = s
      go (some client) =
          drop_all-IsSafe held rng _ client.owned_objects (forget-IsSafe address other unasked)

  remove_client-IsSafe : (c : Client) (d' : Daemon) → remove_client d c ≡ some d' → IsSafe d'
  unfolding remove_client
  remove_client-IsSafe c d' e = go (lookup c.client_id d.clients) e
    where
      go : (found : Option ℕ) → remove_found d c.client_id found ≡ some d' → IsSafe d'
      go none f = absurd (cc f)
      go (some address) f =
          subst IsSafe (some-injective _ _ f)
            (record { requesters = s.requesters; entries = s.entries; local_alive = s.local_alive })

step-IsSafe :
    (outside : Outside) (rng : ℕ → ℕ) {d d' : Daemon} → Step outside rng d d' → IsSafe d → IsSafe d'
unfolding post_request post_response let_go
step-IsSafe outside rng (makes_device address dev new) s = makes_device-IsSafe s address dev new
step-IsSafe outside rng (adds_device address dev alive) s =
    add_device-IsSafe s rng address dev alive
step-IsSafe outside rng (removes_device address dev alive) s =
    remove_device-IsSafe s address dev alive
step-IsSafe outside rng (adds_client fuel address c d' new e) s =
    add_client-IsSafe s rng fuel address c d' e
step-IsSafe outside rng {d = d} (asks address rq owner alive) s =
    enqueue-IsSafe s (requests rq) (subst (PointsIn d.client_memory) (sym owner) alive)
step-IsSafe outside rng (answers rs) s = enqueue-IsSafe s (responds rs) tt
step-IsSafe outside rng (lets_go before o behind held) s =
    destroy-IsSafe (left_behind-IsSafe (before ++ behind) s) rng o
step-IsSafe outside rng (removes_client c d' e) s = remove_client-IsSafe s c d' e
step-IsSafe outside rng (ends_client address other unasked) s =
    release_client-IsSafe s outside.still_held rng address other unasked
step-IsSafe outside rng {d = d} (processes d' e) s =
    let (d'', f, safe) = process-Runs outside rng d s in
    subst IsSafe (some-injective d'' d' (sym f ∙ e)) safe

-- From a safe state, whatever the frontends and the backends call in whatever order with the jobs,
-- where only clients of the map are removed, the state stays safe, and the next job uses no null
-- pointer.
pub Steps-Runs :
    (outside : Outside) (rng : ℕ → ℕ) {d d' : Daemon}
    → Steps outside rng d d'
    → IsSafe d
    → IsSafe d' × Runs (process outside rng d')
Steps-Runs outside rng {d = d} stays s = (s, process-Runs outside rng d s)
Steps-Runs outside rng (goes step rest) s =
    Steps-Runs outside rng rest (step-IsSafe outside rng step s)
