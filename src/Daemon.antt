-- ===== src/Daemon.antt =====
-- twib/daemon/Daemon.cpp and .hpp less `Process`, LocalClient.cpp and the destructor of
-- BridgeObject.cpp: the daemon's job queue, and its maps of weak pointers to clients and devices. The
-- random numbers are a stream that the state counts the draws of. What the daemon calls of devices
-- and other clients is listed in order. `PostResponse` copies the response of a backend, which holds
-- the objects of its last one too: `left_behind` has those that nothing else holds any more. The
-- locks, the log and the constructor's probe of USB are left out.
pub mod Clients
pub mod Devices
use twili.Base.{
  Bool, List, Option, [], false, forget, leb, lookup, none, remove, some, store, suc, true, zero, ℕ,
  ◌++◌, ◌∷◌,
}
use twili.Messages.{BridgeObject, Client, Memory, Request, Response}

pub record Device : Type 0 where
  pub device_id : ℕ
  pub priority : ℕ
  pub deletion_flag : Bool
  pub bridge_type : List ℕ
  pub identification : List ℕ

-- What a slot of `dispatch_queue` holds.
pub data Job : Type 0 where
  wakes : Job
  requests : Request → Job
  responds : Response → Job

pub record Daemon : Type 0 where
  pub dispatch_queue : List Job
  pub devices : List (ℕ × ℕ)
  pub clients : List (ℕ × ℕ)
  pub device_memory : List (ℕ × Device)
  pub client_memory : Memory
  pub local_client : ℕ
  pub response_map : List (ℕ × ℕ)
  pub drawn : ℕ
  pub sent : List (ℕ × Request)
  pub answered : List (ℕ × Response)
  pub fulfilled : List (ℕ × Response)
  pub left_behind : List BridgeObject

abbrev pub close_command : ℕ
close_command = 0xffffffff

abbrev pub enqueue : Daemon → Job → Daemon
enqueue d job = record d { dispatch_queue = d.dispatch_queue ++ (job ∷ []) }

unfoldable pub awaken : Daemon → Daemon
awaken d = enqueue d wakes

unfoldable pub post_request : Daemon → Request → Daemon
post_request d rq = enqueue d (requests rq)

unfoldable pub post_response : Daemon → Response → Daemon
post_response d rs = enqueue d (responds rs)

-- `LocalClient::SendRequest`: a promise is named by the number of its tag's draw.
unfoldable pub send_request : (ℕ → ℕ) → Daemon → Request → Daemon
send_request rng d rq =
    let tag = rng d.drawn in
    post_request (record d { response_map = store tag d.drawn d.response_map; drawn = suc d.drawn })
      (record rq { tag = tag; client = some d.local_client })

abbrev pub fulfil : Daemon → Response → Option ℕ → Daemon
fulfil d rs none = d
fulfil d rs (some promise) = record d {
  response_map = remove rs.tag d.response_map;
  fulfilled = d.fulfilled ++ ((promise, rs) ∷ []);
}

-- `LocalClient::PostResponse`
unfoldable pub post_local : Daemon → Response → Daemon
post_local d rs = fulfil d rs (lookup rs.tag d.response_map)

-- The request of `~BridgeObject`.
abbrev pub closing : BridgeObject → Request
closing o = record {
  client = none;
  device_id = o.device_id;
  object_id = o.object_id;
  command_id = close_command;
  tag = 0;
  payload = [];
}

abbrev destroy_in : Bool → (ℕ → ℕ) → Daemon → BridgeObject → Daemon
destroy_in true rng d o = send_request rng d (closing o)
destroy_in false rng d o = d

-- `~BridgeObject`
unfoldable pub destroy : (ℕ → ℕ) → Daemon → BridgeObject → Daemon
destroy rng d o = destroy_in o.valid rng d o

unfoldable pub destroy_all : (ℕ → ℕ) → Daemon → List BridgeObject → Daemon
destroy_all rng d [] = d
destroy_all rng d (o ∷ os) = destroy_all rng (destroy rng d o) os

abbrev pub drop_in : Bool → (ℕ → ℕ) → Daemon → BridgeObject → Daemon
drop_in true rng d o = record d { left_behind = d.left_behind ++ (o ∷ []) }
drop_in false rng d o = destroy rng d o

-- The daemon's pointers to objects go, of which a backend may hold another still.
unfoldable pub drop_all : (BridgeObject → Bool) → (ℕ → ℕ) → Daemon → List BridgeObject → Daemon
drop_all held rng d [] = d
drop_all held rng d (o ∷ os) = drop_all held rng (drop_in (held o) rng d o) os

-- A backend's next response ends an object that only its last one holds.
unfoldable pub let_go :
    (ℕ → ℕ) → Daemon → List BridgeObject → BridgeObject → List BridgeObject → Daemon
let_go rng d before o behind = destroy rng (record d { left_behind = before ++ behind }) o

-- `lock` of a weak pointer that the map may lack.
abbrev pub device_at : List (ℕ × Device) → Option ℕ → Option Device
device_at memory none = none
device_at memory (some address) = lookup address memory

-- `!entry_lock || entry_lock->GetPriority() <= device->GetPriority()`
abbrev pub gives_way : Option Device → Device → Bool
gives_way none new = true
gives_way (some old) new = leb old.priority new.priority

abbrev pub reset_request : ℕ → Request
reset_request device_id = record {
  client = none;
  device_id = device_id;
  object_id = 0;
  command_id = close_command;
  tag = 0;
  payload = [];
}

abbrev pub enter_if : Bool → (ℕ → ℕ) → Daemon → ℕ → ℕ → Daemon
enter_if true rng d id address =
    send_request rng (record d { devices = store id address d.devices }) (reset_request id)
enter_if false rng d id address = d

-- `AddDevice`, of a device in the memory; `devices[...]` leaves an empty pointer, which is as none.
unfoldable pub add_device : (ℕ → ℕ) → Daemon → ℕ → Device → Daemon
add_device rng d address new =
    enter_if (gives_way (device_at d.device_memory (lookup new.device_id d.devices)) new) rng d
      new.device_id address

unfoldable pub remove_device : Daemon → Device → Daemon
remove_device d device = record d { devices = remove device.device_id d.devices }

abbrev pub unless_used : Option ℕ → ℕ × ℕ → Option (ℕ × ℕ) → Option (ℕ × ℕ)
unless_used none found rest = some found
unless_used (some used) found rest = rest

-- The loop of `AddClient`, whose fuel bounds the draws: an unused id with the draws up to it.
unfoldable pub draw_unused : (ℕ → ℕ) → List (ℕ × ℕ) → ℕ → ℕ → Option (ℕ × ℕ)
draw_unused rng clients drawn zero = none
draw_unused rng clients drawn (suc fuel) =
    let rest = draw_unused rng clients (suc drawn) fuel in
    unless_used (lookup (rng drawn) clients) (rng drawn, suc drawn) rest

abbrev pub enter_client : Daemon → ℕ → Client → Option (ℕ × ℕ) → Option Daemon
enter_client d address c none = none
enter_client d address c (some (id, drawn)) = some (record d {
  clients = store id address d.clients;
  client_memory = store address (record c { client_id = id }) d.client_memory;
  drawn = drawn;
})

unfoldable pub add_client : (ℕ → ℕ) → ℕ → Daemon → ℕ → Client → Option Daemon
add_client rng fuel d address c = enter_client d address c (draw_unused rng d.clients d.drawn fuel)

abbrev pub remove_found : Daemon → ℕ → Option ℕ → Option Daemon
remove_found d id none = none
remove_found d id (some address) = some (record d { clients = remove id d.clients })

-- `RemoveClient`, where `none` is `erase(end())`, which is undefined.
unfoldable pub remove_client : Daemon → Client → Option Daemon
remove_client d c = remove_found d c.client_id (lookup c.client_id d.clients)

abbrev pub release_in : (BridgeObject → Bool) → (ℕ → ℕ) → Daemon → ℕ → Option Client → Daemon
release_in held rng d address none = d
release_in held rng d address (some client) =
    drop_all held rng (record d { client_memory = forget address d.client_memory })
      client.owned_objects

-- The end of a client, when its last pointer goes, is that of its pointers to the objects it owns.
unfoldable pub release_client : (BridgeObject → Bool) → (ℕ → ℕ) → Daemon → ℕ → Daemon
release_client held rng d address = release_in held rng d address (lookup address d.client_memory)
