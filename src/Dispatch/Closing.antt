-- ===== src/Dispatch/Closing.antt =====
-- Requests of clients that close an object.
use twili.Base.{
  Bool-cases, List, [], ap, arith, false, if◌then◌else◌, inl, inr, lookup, refl, some, total-update,
  true, ℕ, ◌++◌, ◌+◌, ◌==◌, ◌∙◌, ◌∷◌, ◌≡◌, ◌≢◌,
}
use twili.Messages.{BridgeObject, Client, Request}
use twili.Daemon.{Daemon, close_command}
use twili.MetaInterface.{Outside}
use twili.Dispatch.{disown, dispatch_request, find_device, forward, kept_objects}
use twili.Dispatch.Disowned.{disown_lem, kept_memory}
use twili.Dispatch.Objects.{accounts, count}

-- The objects that a close takes from the client, of whatever device: those with the id.
abbrev pub given_up : ℕ → ℕ → ℕ → List BridgeObject → ℕ
given_up dev id closed os = if id == closed then count dev id os else 0

count-kept_objects :
    (dev id closed : ℕ) (os : List BridgeObject)
    → count dev id (kept_objects closed os) + given_up dev id closed os ≡ count dev id os
unfolding kept_objects
count-kept_objects dev id closed [] = ground arith
count-kept_objects dev id closed (o ∷ os) = elim (Bool-cases (o.object_id == closed)) [
  | inl e ↦ rw e (ground (arith, e, count-kept_objects dev id closed os))
  | inr e ↦ rw e (ground (arith, e, count-kept_objects dev id closed os))
]

module _ (outside : Outside) (rng : ℕ → ℕ) (d : Daemon) (rq : Request) (address device : ℕ)
    (client : Client) (client_alive : lookup address d.client_memory ≡ some client) where
  kept-accounts :
      (dev id : ℕ)
      → accounts dev id
            (record d { client_memory = kept_memory rq.object_id d.client_memory (some address) })
          + given_up dev id rq.object_id client.owned_objects
        ≡ accounts dev id d
  unfolding accounts kept_memory
  kept-accounts dev id =
      let kept = record client { owned_objects = kept_objects rq.object_id client.owned_objects } in
      rw client_alive (
        omega (
          arith,
          total-update (λ c. count dev id c.owned_objects) address client kept d.client_memory
              client_alive,
          count-kept_objects dev id rq.object_id client.owned_objects,
        ))

  -- The request is forwarded to its device, and the client gives up the objects of that id: those
  -- of the device, which closes them, but also those of the other devices, for which no request to
  -- close them is left.
  pub dispatch_request-close :
      rq.client ≡ some address
      → rq.device_id ≢ 0
      → find_device d rq.device_id ≡ some device
      → rq.command_id ≡ close_command
      → (d' : Daemon) × (dispatch_request outside rng d rq ≡ some d')
        × (d'.sent ≡ d.sent ++ ((device, rq) ∷ []))
        × ((dev id : ℕ)
            → accounts dev id d' + given_up dev id rq.object_id client.owned_objects
              ≡ accounts dev id d)
  unfolding dispatch_request accounts
  dispatch_request-close owner other found close =
      let away : (rq.device_id == 0) ≡ false = ground (arith, other) in
      let closing_it : (rq.command_id == close_command) ≡ true = ground (arith, close) in
      let g =
        disown_lem rng d rq.object_id rq.client
        ∙ ap (λ p. record d { client_memory = kept_memory rq.object_id d.client_memory p }) owner in
      (
        forward (disown rng d rq.object_id rq.client) device rq,
        rw (away, found, closing_it) refl,
        ap (λ x. x.sent ++ ((device, rq) ∷ [])) g,
        λ dev id.
            ap
              (λ x.
                accounts dev id (forward x device rq)
                + given_up dev id rq.object_id client.owned_objects)
              g
            ∙ kept-accounts dev id,
      )
