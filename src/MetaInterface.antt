-- ===== src/MetaInterface.antt =====
-- twib/daemon/Daemon.cpp, `HandleRequest`: the requests that the daemon answers itself. What
-- msgpack11 makes of the devices, and what `TCPBackend::Connect` says of a connection that the
-- system makes, are parameters. The wait for the first scan is left out.
pub mod Texts
pub mod Answers
use mathlib.Core.Option
use twili.Base.{
  Bool, List, Option, [], if◌then◌else◌, le64, length, lookup, none, some, u64_at, ℕ, ◌==◌, ◌∷◌,
}
use twili.Messages.{
  BridgeObject, Memory, Request, Response, respond_error, respond_ok, twili_result,
}
use twili.Daemon.{Daemon, Device}
use twili.Buffer.{Buffer, get_data, of_vector, read, read_string, unlimited, write}

pub record Outside : Type 0 where
  pub dump : List (ℕ × List ℕ × List ℕ) → List ℕ
  pub connect : List ℕ → List ℕ → List ℕ
  pub still_held : BridgeObject → Bool

abbrev pub pack_with :
    Option Device → Option (List (ℕ × List ℕ × List ℕ)) → Option (List (ℕ × List ℕ × List ℕ))
pack_with none rest = none
pack_with (some device) none = none
pack_with (some device) (some packs) =
    some ((device.device_id, device.bridge_type, device.identification) ∷ packs)

-- The loop over `devices`, where `none` is the use of an expired pointer.
unfoldable pub device_packs : List (ℕ × Device) → List (ℕ × ℕ) → Option (List (ℕ × List ℕ × List ℕ))
device_packs memory [] = some []
device_packs memory ((id, address) ∷ devices) =
    pack_with (lookup address memory) (device_packs memory devices)

-- `Write<uint64_t>(s.size())` and `Write(s)` in a new buffer, of which the data is taken.
unfoldable pub text_payload : List ℕ → List ℕ
text_payload s = get_data (write (write unlimited (le64 (length s))).1 s).1

abbrev pub text_of : Option (List ℕ) × Buffer → Option (List ℕ × Buffer)
text_of (none, b) = none
text_of (some s, b) = some (s, b)

abbrev pub text_in : Option (List ℕ) × Buffer → Option (List ℕ × Buffer)
text_in (none, b) = none
text_in (some len, b) = text_of (read_string b (u64_at len 0))

-- `Read<uint64_t>(len)`, and `Read(s, len)` where that is true.
unfoldable pub read_text : Buffer → Option (List ℕ × Buffer)
read_text b = text_in (read b 8)

abbrev pub second_text : List ℕ → Option (List ℕ × Buffer) → Option (List ℕ × List ℕ)
second_text first none = none
second_text first (some (second, b)) = some (first, second)

abbrev pub first_text : Option (List ℕ × Buffer) → Option (List ℕ × List ℕ)
first_text none = none
first_text (some (first, b)) = second_text first (read_text b)

-- The host name and the port of a `CONNECT_TCP`, or `none` for a bad request.
unfoldable pub parse_connect : List ℕ → Option (List ℕ × List ℕ)
parse_connect payload = first_text (read_text (of_vector payload))

-- `r.payload = ...` of a response that is made before.
abbrev pub with_payload : List ℕ → Response → Response
with_payload payload rs = record rs { payload = payload }

abbrev pub list_with :
    Outside → Option Response → Option (List (ℕ × List ℕ × List ℕ)) → Option Response
list_with outside rs none = none
list_with outside rs (some packs) = Option.map (with_payload (text_payload (outside.dump packs))) rs

unfoldable pub list_devices : Outside → Daemon → Request → Option Response
list_devices outside d rq =
    list_with outside (respond_ok d.client_memory rq) (device_packs d.device_memory d.devices)

abbrev pub connect_with : Outside → Memory → Request → Option (List ℕ × List ℕ) → Option Response
connect_with outside memory rq none = respond_error memory rq (twili_result 1005)
connect_with outside memory rq (some (hostname, port)) =
    Option.map (with_payload (text_payload (outside.connect hostname port))) (respond_ok memory rq)

unfoldable pub connect_tcp : Outside → Memory → Request → Option Response
connect_tcp outside memory rq = connect_with outside memory rq (parse_connect rq.payload)

-- `HandleRequest`
unfoldable pub handle_request : Outside → Daemon → Request → Option Response
handle_request outside d rq =
    if rq.object_id == 0
    then (if rq.command_id == 10
        then list_devices outside d rq
        else if rq.command_id == 11
        then connect_tcp outside d.client_memory rq
        else respond_error d.client_memory rq (twili_result 1002))
    else respond_error d.client_memory rq (twili_result 1001)
