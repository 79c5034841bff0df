-- ===== src/Dispatch/Tests.antt =====
-- Small daemons.
use twili.Base.{[], arith, false, lookup, none, refl, some, true, ℕ, ◌+◌, ◌/◌, ◌∷◌, ◌≡◌}
use twili.Messages.{BridgeObject, Client, Request, Response}
use twili.Daemon.{Daemon, Device, add_device, close_command, post_request, remove_device}
use twili.MetaInterface.{Outside}
use twili.Dispatch.{dispatch_request, find_device, process}
use twili.Daemon.Devices.{Ranks, add_devices, add_devices_lem, entry}
use twili.Dispatch.Served.{Served}
use twili.Dispatch.Objects.{accounts}
use twili.Dispatch.Closing.{dispatch_request-close, given_up}
use twili.Dispatch.Safety.{IsSafe, Runs}
use twili.Dispatch.Steps.{Steps-Runs, asks, goes, stays}
use twili.Dispatch.Routes.{remove_device-hides}

abbrev reports_ok : Outside
reports_ok = record {
  dump = λ packs. [];
  connect = λ hostname port. 79 ∷ 107 ∷ [];
  still_held = λ o. false;
}

-- Every number comes twice.
abbrev halves : ℕ → ℕ
halves n = n / 2

abbrev object : ℕ → ℕ → BridgeObject
object dev id = record { device_id = dev; object_id = id; valid = true }

abbrev usb_device : Device
usb_device = record {
  device_id = 5;
  priority = 2;
  deletion_flag = false;
  bridge_type = [];
  identification = [];
}

abbrev tcp_device : Device
tcp_device = record usb_device { priority = 1 }

abbrev local : Client
local = record { client_id = 0; deletion_flag = false; owned_objects = [] }

-- It owns objects of two devices that have the same id.
abbrev tool : Client
tool = record { client_id = 7; deletion_flag = false; owned_objects = object 5 3 ∷ object 6 3 ∷ [] }

abbrev daemon : Daemon
daemon = record {
  dispatch_queue = [];
  devices = (5, 10) ∷ [];
  clients = (0, 1) ∷ (7, 2) ∷ [];
  device_memory = (10, usb_device) ∷ (11, tcp_device) ∷ [];
  client_memory = (1, local) ∷ (2, tool) ∷ [];
  local_client = 1;
  response_map = [];
  drawn = 0;
  sent = [];
  answered = [];
  fulfilled = [];
  left_behind = [];
}

abbrev close_request : Request
close_request = record {
  client = some 2;
  device_id = 5;
  object_id = 3;
  command_id = close_command;
  tag = 9;
  payload = [];
}

abbrev connect_request : Request
connect_request = record {
  client = some 2;
  device_id = 0;
  object_id = 0;
  command_id = 11;
  tag = 4;
  payload = 1 ∷ 0 ∷ 0 ∷ 0 ∷ 0 ∷ 0 ∷ 0 ∷ 0 ∷ 97 ∷ 1 ∷ 0 ∷ 0 ∷ 0 ∷ 0 ∷ 0 ∷ 0 ∷ 0 ∷ 56 ∷ [];
}

abbrev response : Response
response = record {
  client_id = 8;
  device_id = 5;
  object_id = 0;
  result_code = 0;
  tag = 4;
  payload = [];
  objects = object 5 4 ∷ [];
}

daemon-IsSafe : IsSafe daemon
unfolding lookup
daemon-IsSafe = record {
  requesters = tt;
  entries = ((usb_device, refl, refl), tt);
  local_alive = λ e. absurd (cc e);
}

Steps-Runs_example :
    IsSafe (post_request daemon close_request)
    × Runs (process reports_ok halves (post_request daemon close_request))
unfolding lookup
Steps-Runs_example =
    Steps-Runs reports_ok halves {d = daemon} {d' = post_request daemon close_request}
      (goes (asks 2 close_request refl (λ e. absurd (cc e))) stays) daemon-IsSafe

dispatch_request-close_example :
    (d' : Daemon) × (dispatch_request reports_ok halves daemon close_request ≡ some d')
    × (d'.sent ≡ (10, close_request) ∷ [])
    × ((dev id : ℕ)
        → accounts dev id d' + given_up dev id 3 tool.owned_objects ≡ accounts dev id daemon)
unfolding lookup find_device
dispatch_request-close_example =
    dispatch_request-close reports_ok halves daemon close_request 2 10 tool refl refl
      (λ e. absurd (cc e)) refl refl

add_devices_lem_example :
    Ranks 5
      (entry daemon 5)
      ((11, tcp_device) ∷ (10, usb_device) ∷ [])
      (entry (add_devices halves daemon ((11, tcp_device) ∷ (10, usb_device) ∷ [])) 5)
unfolding lookup
add_devices_lem_example =
    add_devices_lem halves daemon ((11, tcp_device) ∷ (10, usb_device) ∷ []) 5 (refl, (refl, tt))

remove_device-hides_example :
    (find_device (add_device halves daemon 11 tcp_device) 5 ≡ some 10)
    × (find_device (remove_device (add_device halves daemon 11 tcp_device) tcp_device) 5 ≡ none)
unfolding lookup
remove_device-hides_example =
    remove_device-hides halves daemon 10 11 usb_device tcp_device
      (record { entered = refl; alive = refl; kept = refl }) (omega arith)
