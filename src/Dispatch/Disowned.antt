-- ===== src/Dispatch/Disowned.antt =====
-- The objects that a client owned until it asked to close them.
use twili.Base.{
  Bool-cases, List, Option, [], inl, inr, lookup, none, present-update, refl, some, update, ℕ, ◌==◌,
  ◌∷◌, ◌≡◌, ◌≢◌,
}
use twili.Messages.{BridgeObject, Client, Memory}
use twili.Daemon.{Daemon, destroy, destroy_all}
use twili.Dispatch.{closed_objects, disown, disown_in, kept_objects}

-- The memory after the client of a request to close an object gave up its objects with the id.
abbrev kept_in : ℕ → Memory → ℕ → Option Client → Memory
kept_in id memory address none = memory
kept_in id memory address (some client) =
    update address (record client { owned_objects = kept_objects id client.owned_objects }) memory

unfoldable pub kept_memory : ℕ → Memory → Option ℕ → Memory
kept_memory id memory none = memory
kept_memory id memory (some address) = kept_in id memory address (lookup address memory)

-- They are marked so that their end sends no request.
destroy_all-closed :
    (rng : ℕ → ℕ) (d : Daemon) (id : ℕ) (os : List BridgeObject)
    → destroy_all rng d (closed_objects id os) ≡ d
unfolding destroy_all closed_objects destroy
destroy_all-closed rng d id [] = refl
destroy_all-closed rng d id (o ∷ os) = elim (Bool-cases (o.object_id == id)) [
  | inl e ↦ rw e (destroy_all-closed rng d id os)
  | inr e ↦ rw e (destroy_all-closed rng d id os)
]

disown_in_lem :
    (rng : ℕ → ℕ) (d : Daemon) (id address : ℕ) (client : Option Client)
    → disown_in rng d id address client
      ≡ record d { client_memory = kept_in id d.client_memory address client }
disown_in_lem rng d id address none = refl
disown_in_lem rng d id address (some client) =
    destroy_all-closed rng
      (record d { client_memory = kept_in id d.client_memory address (some client) }) id
      client.owned_objects

pub disown_lem :
    (rng : ℕ → ℕ) (d : Daemon) (id : ℕ) (pointer : Option ℕ)
    → disown rng d id pointer ≡ record d { client_memory = kept_memory id d.client_memory pointer }
unfolding disown kept_memory
disown_lem rng d id none = refl
disown_lem rng d id (some address) = disown_in_lem rng d id address (lookup address d.client_memory)

kept_in-present :
    (id : ℕ) (memory : Memory) (address : ℕ) (found : Option Client) (a : ℕ)
    → lookup a memory ≢ none
    → lookup a (kept_in id memory address found) ≢ none
kept_in-present id memory address none a h = h
kept_in-present id memory address (some client) a h = present-update a address _ memory h

-- It loses no client.
pub kept_memory-present :
    (id : ℕ) (memory : Memory) (pointer : Option ℕ) (a : ℕ)
    → lookup a memory ≢ none
    → lookup a (kept_memory id memory pointer) ≢ none
unfolding kept_memory
kept_memory-present id memory none a h = h
kept_memory-present id memory (some address) a h =
    kept_in-present id memory address (lookup address memory) a h
