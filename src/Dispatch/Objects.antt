-- ===== src/Dispatch/Objects.antt =====
-- The objects of devices: who owns them, and the requests that close them.
use twili.Base.{
  Bool, Bool-cases, List, Option, [], ap, arith, false, forget, if◌then◌else◌, inl, inr, lookup,
  none, refl, some, total, total-forget, true, ℕ, ◌++◌, ◌+◌, ◌==◌, ◌∷◌, ◌≡◌,
}
use twili.Messages.{BridgeObject, Client, Memory, Request}
use twili.Daemon.{
  Daemon, Job, close_command, closing, destroy, destroy_all, drop_all, drop_in, let_go,
  post_request, release_client, release_in, requests, responds, send_request, wakes,
}

-- How often a list holds the valid object of a device with an id.
abbrev pub weight : ℕ → ℕ → BridgeObject → ℕ
weight dev id o =
    if o.valid then (if o.device_id == dev then (if o.object_id == id then 1 else 0) else 0) else 0

abbrev pub count : ℕ → ℕ → List BridgeObject → ℕ
count dev id [] = 0
count dev id (o ∷ os) = weight dev id o + count dev id os

-- One for a request to close it.
abbrev pub closes : ℕ → ℕ → Request → ℕ
closes dev id rq =
    if rq.command_id == close_command
    then (if rq.device_id == dev then (if rq.object_id == id then 1 else 0) else 0)
    else 0

abbrev pub carried : ℕ → ℕ → Job → ℕ
carried dev id wakes = 0
carried dev id (requests rq) = closes dev id rq
carried dev id (responds rs) = count dev id rs.objects

abbrev pub carried_all : ℕ → ℕ → List Job → ℕ
carried_all dev id [] = 0
carried_all dev id (job ∷ jobs) = carried dev id job + carried_all dev id jobs

abbrev pub owned : ℕ → ℕ → Memory → ℕ
owned dev id memory = total (λ c. count dev id c.owned_objects) memory

-- What clients own, what responses carry and requests close in the queue, and what the backends'
-- last responses hold alone.
unfoldable pub accounts : ℕ → ℕ → Daemon → ℕ
accounts dev id d =
    owned dev id d.client_memory + carried_all dev id d.dispatch_queue + count dev id d.left_behind

count-append :
    (dev id : ℕ) (xs ys : List BridgeObject)
    → count dev id (xs ++ ys) ≡ count dev id xs + count dev id ys
count-append dev id [] ys = omega arith
count-append dev id (x ∷ xs) ys = omega (arith, count-append dev id xs ys)

carried_all-append :
    (dev id : ℕ) (xs ys : List Job)
    → carried_all dev id (xs ++ ys) ≡ carried_all dev id xs + carried_all dev id ys
carried_all-append dev id [] ys = omega arith
carried_all-append dev id (x ∷ xs) ys = omega (arith, carried_all-append dev id xs ys)

module _ (dev id : ℕ) (rng : ℕ → ℕ) where
  abbrev closing_job : Daemon → BridgeObject → Job
  closing_job d o =
      requests (record (closing o) { tag = rng d.drawn; client = some d.local_client })

  -- The end of an object that is valid puts a request to close it into the queue.
  destroy-accounts :
      (d : Daemon) (o : BridgeObject)
      → accounts dev id (destroy rng d o) ≡ accounts dev id d + weight dev id o
  unfolding destroy accounts send_request post_request
  destroy-accounts d o = elim (Bool-cases o.valid) [
    | inl e ↦
        rw e (omega (arith, carried_all-append dev id d.dispatch_queue (closing_job d o ∷ [])))
    | inr e ↦ rw e (omega arith)
  ]

  destroy_all-accounts :
      (d : Daemon) (os : List BridgeObject)
      → accounts dev id (destroy_all rng d os) ≡ accounts dev id d + count dev id os
  unfolding destroy_all
  destroy_all-accounts d [] = omega arith
  destroy_all-accounts d (o ∷ os) =
      omega (arith, destroy_all-accounts (destroy rng d o) os, destroy-accounts d o)

  drop_in-accounts :
      (b : Bool) (d : Daemon) (o : BridgeObject)
      → accounts dev id (drop_in b rng d o) ≡ accounts dev id d + weight dev id o
  unfolding accounts
  drop_in-accounts true d o = omega (arith, count-append dev id d.left_behind (o ∷ []))
  drop_in-accounts false d o = destroy-accounts d o

  drop_all-accounts :
      (held : BridgeObject → Bool) (d : Daemon) (os : List BridgeObject)
      → accounts dev id (drop_all held rng d os) ≡ accounts dev id d + count dev id os
  unfolding drop_all
  drop_all-accounts held d [] = omega arith
  drop_all-accounts held d (o ∷ os) =
      omega
        (arith, drop_all-accounts held (drop_in (held o) rng d o) os, drop_in-accounts (held o) d o)

  release_in-accounts :
      (held : BridgeObject → Bool) (d : Daemon) (address : ℕ) (found : Option Client)
      → lookup address d.client_memory ≡ found
      → accounts dev id (release_in held rng d address found) ≡ accounts dev id d
  unfolding accounts
  release_in-accounts held d address none e = refl
  release_in-accounts held d address (some client) e = omega (
    arith,
    drop_all-accounts held (record d { client_memory = forget address d.client_memory })
        client.owned_objects,
    total-forget (λ c. count dev id c.owned_objects) address client d.client_memory e,
  )

-- The objects of the client that a pointer leads to, and what it is given.
abbrev pub objects_of_client : Option Client → List BridgeObject
objects_of_client none = []
objects_of_client (some client) = client.owned_objects

abbrev pub objects_at : Memory → Option ℕ → List BridgeObject
objects_at memory none = []
objects_at memory (some address) = objects_of_client (lookup address memory)

abbrev pub given_to : Option ℕ → List BridgeObject → List BridgeObject
given_to none objects = []
given_to (some address) objects = objects

-- When a backend's copy goes, what it held alone is closed.
pub let_go-accounts :
    (dev id : ℕ) (rng : ℕ → ℕ) (d : Daemon) (before : List BridgeObject) (o : BridgeObject)
    (behind : List BridgeObject)
    → d.left_behind ≡ before ++ (o ∷ behind)
    → accounts dev id (let_go rng d before o behind) ≡ accounts dev id d
unfolding let_go accounts
let_go-accounts dev id rng d before o behind e = omega (
  arith,
  destroy-accounts dev id rng (record d { left_behind = before ++ behind }) o,
  ap (count dev id) e,
  count-append dev id before (o ∷ behind),
  count-append dev id before behind,
)

-- Nor is one that a client owned when it ends: it is closed or held by a backend's copy.
pub release_client-accounts :
    (held : BridgeObject → Bool) (dev id : ℕ) (rng : ℕ → ℕ) (d : Daemon) (address : ℕ)
    → accounts dev id (release_client held rng d address) ≡ accounts dev id d
unfolding release_client
release_client-accounts held dev id rng d address =
    release_in-accounts dev id rng held d address (lookup address d.client_memory) refl
