-- ===== src/Dispatch.antt =====
-- twib/daemon/Daemon.cpp, `Process` and `GetClient`: what the daemon does with one job of its
-- queue. `none` is the use of a null pointer.
pub mod Disowned
pub mod Served
pub mod Objects
pub mod Closing
pub mod Safety
pub mod Steps
pub mod Routes
mod Tests
use mathlib.Core.Option
use twili.Base.{
  Bool, List, Option, [], false, if◌then◌else◌, lookup, none, some, update, ℕ, ◌++◌, ◌==◌, ◌∷◌,
}
use twili.Messages.{BridgeObject, Client, Memory, Request, Response, respond_error, twili_result}
use twili.Daemon.{
  Daemon, Device, Job, close_command, destroy_all, drop_all, post_local, post_response, requests,
  responds, wakes,
}
use twili.MetaInterface.{Outside, handle_request}

abbrev pub unless_deleted : ℕ → Option Client → Option ℕ
unless_deleted address none = none
unless_deleted address (some client) = if client.deletion_flag then none else some address

abbrev pub client_in : Memory → Option ℕ → Option ℕ
client_in memory none = none
client_in memory (some address) = unless_deleted address (lookup address memory)

-- `GetClient`: the address of the client, and `none` for an empty pointer.
unfoldable pub get_client : Daemon → ℕ → Option ℕ
get_client d client_id = client_in d.client_memory (lookup client_id d.clients)

-- The objects with the id, and the others.
unfoldable pub closed_objects : ℕ → List BridgeObject → List BridgeObject
closed_objects id [] = []
closed_objects id (o ∷ os) =
    if o.object_id == id
    then record o { valid = false } ∷ closed_objects id os
    else closed_objects id os

unfoldable pub kept_objects : ℕ → List BridgeObject → List BridgeObject
kept_objects id [] = []
kept_objects id (o ∷ os) = if o.object_id == id then kept_objects id os else o ∷ kept_objects id os

abbrev pub disown_in : (ℕ → ℕ) → Daemon → ℕ → ℕ → Option Client → Daemon
disown_in rng d id address none = d
disown_in rng d id address (some client) =
    destroy_all rng
      (record d {
        client_memory =
            update address (record client { owned_objects = kept_objects id client.owned_objects })
              d.client_memory;
      })
      (closed_objects id client.owned_objects)

-- The loop over the owned objects of the client, for a request to close the object.
unfoldable pub disown : (ℕ → ℕ) → Daemon → ℕ → Option ℕ → Daemon
disown rng d id none = d
disown rng d id (some address) = disown_in rng d id address (lookup address d.client_memory)

-- `device->SendRequest`, to the device at the address.
abbrev pub forward : Daemon → ℕ → Request → Daemon
forward d address rq = record d { sent = d.sent ++ ((address, rq) ∷ []) }

abbrev pub live_device : ℕ → Option Device → Option ℕ
live_device address none = none
live_device address (some device) = if device.deletion_flag then none else some address

abbrev pub live_in : List (ℕ × Device) → Option ℕ → Option ℕ
live_in memory none = none
live_in memory (some address) = live_device address (lookup address memory)

-- The address of the device of a request, unless it is missing, expired or about to be deleted.
unfoldable pub find_device : Daemon → ℕ → Option ℕ
find_device d device_id = live_in d.device_memory (lookup device_id d.devices)

abbrev pub send_to : (ℕ → ℕ) → Daemon → Request → Option ℕ → Option Daemon
send_to rng d rq none =
    Option.map (post_response d) (respond_error d.client_memory rq (twili_result 1004))
send_to rng d rq (some address) =
    if rq.command_id == close_command
    then some (forward (disown rng d rq.object_id rq.client) address rq)
    else some (forward d address rq)

unfoldable pub dispatch_request : Outside → (ℕ → ℕ) → Daemon → Request → Option Daemon
dispatch_request outside rng d rq =
    if rq.device_id == 0
    then Option.map (post_response d) (handle_request outside d rq)
    else send_to rng d rq (find_device d rq.device_id)

-- `client->owned_objects.insert(...)`
abbrev pub own : Daemon → ℕ → List BridgeObject → Option Client → Daemon
own d address objects none = d
own d address objects (some client) = record d {
  client_memory =
      update address (record client { owned_objects = client.owned_objects ++ objects })
        d.client_memory;
}

-- `client->PostResponse`, of the local client or of another.
abbrev pub deliver : Daemon → ℕ → Response → Daemon
deliver d address rs =
    if address == d.local_client
    then post_local d rs
    else record d { answered = d.answered ++ ((address, rs) ∷ []) }

abbrev pub respond_in : (BridgeObject → Bool) → (ℕ → ℕ) → Daemon → Response → Option ℕ → Daemon
respond_in held rng d rs none = drop_all held rng d rs.objects
respond_in held rng d rs (some address) =
    deliver (own d address rs.objects (lookup address d.client_memory)) address rs

-- A response to a client that is gone is dropped, and its pointers to objects with it.
unfoldable pub dispatch_response : (BridgeObject → Bool) → (ℕ → ℕ) → Daemon → Response → Daemon
dispatch_response held rng d rs = respond_in held rng d rs (get_client d rs.client_id)

unfoldable pub dispatch : Outside → (ℕ → ℕ) → Daemon → Job → Option Daemon
dispatch outside rng d wakes = some d
dispatch outside rng d (requests rq) = dispatch_request outside rng d rq
dispatch outside rng d (responds rs) = some (dispatch_response outside.still_held rng d rs)

abbrev pub process_from : Outside → (ℕ → ℕ) → Daemon → List Job → Option Daemon
process_from outside rng d [] = some d
process_from outside rng d (job ∷ jobs) =
    dispatch outside rng (record d { dispatch_queue = jobs }) job

-- `Process`, which waits while the queue is empty.
unfoldable pub process : Outside → (ℕ → ℕ) → Daemon → Option Daemon
process outside rng d = process_from outside rng d d.dispatch_queue
