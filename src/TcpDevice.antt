-- ===== src/TcpDevice.antt =====
-- twib/daemon/TCPBackend.cpp, the class `Device`: a console that the daemon has a TCP connection to.
-- A message is what MessageConnection has parsed. What is read of the identification is a
-- parameter: the hash of the serial number that msgpack11 finds in it. The device's copy of its last
-- response is left out here: `left_behind` of Daemon has the objects that it alone holds.
pub mod Arrives
mod Tests
use twili.Base.{
  Bool, List, Option, [], drop, false, if◌then◌else◌, le32, le64, length, ltb, none, of_le32, some,
  suc, true, u32_at, zero, ℕ, ◌++◌, ◌==◌, ◌∷◌,
}
use twili.Protocol.{object_count}
use twili.Messages.{BridgeObject, Client, Memory, Request, Response, WeakRequest, target, weak}

pub record TcpDevice : Type 0 where
  pub device_id : ℕ
  pub pending_requests : List WeakRequest
  pub ready_flag : Bool
  pub deletion_flag : Bool

-- The loop that makes a BridgeObject of each id; `none` is too few of them.
abbrev pub and_object : BridgeObject → Option (List BridgeObject) → Option (List BridgeObject)
and_object o none = none
and_object o (some os) = some (o ∷ os)

unfoldable pub bridge_objects : ℕ → ℕ → List ℕ → Option (List BridgeObject)
bridge_objects device zero object_ids = some []
bridge_objects device (suc n) (a ∷ b ∷ c ∷ d ∷ object_ids) =
    and_object
      (record { device_id = device; object_id = of_le32 (a ∷ b ∷ c ∷ d ∷ []); valid = true })
      (bridge_objects device n object_ids)
bridge_objects device (suc n) object_ids = none

unfoldable pub answered : ℕ → List WeakRequest → List WeakRequest
answered tag [] = []
answered tag (r ∷ rs) = if r.tag == tag then answered tag rs else r ∷ answered tag rs

-- `Identified`, where `none` is a range whose end is before its begin.
unfoldable pub identified : (List ℕ → ℕ) → TcpDevice → Response → Option TcpDevice
identified serial_hash d r =
    if r.result_code == 0
    then (if ltb (length r.payload) 8
        then none
        else some (record d { device_id = serial_hash (drop 8 r.payload); ready_flag = true }))
    else some (record d { deletion_flag = true })

abbrev pub without_post : Option TcpDevice → Option (TcpDevice × Option Response)
without_post none = none
without_post (some d) = some (d, none)

abbrev pub pass_on :
    (List ℕ → ℕ) → TcpDevice → Response → Bool → Option (TcpDevice × Option Response)
pass_on serial_hash d r true = without_post (identified serial_hash d r)
pass_on serial_hash d r false = some (d, some r)

abbrev pub response_of : TcpDevice → List ℕ → List ℕ → List BridgeObject → Response
response_of d mh payload objects = record {
  client_id = u32_at mh 0;
  device_id = d.device_id;
  object_id = u32_at mh 4;
  result_code = u32_at mh 8;
  tag = u32_at mh 12;
  payload = payload;
  objects = objects;
}

abbrev pub incoming_with :
    (List ℕ → ℕ)
    → TcpDevice
    → List ℕ
    → List ℕ
    → Option (List BridgeObject)
    → Option (TcpDevice × Option Response)
incoming_with serial_hash d mh payload none = some (d, none)
incoming_with serial_hash d mh payload (some objects) =
    pass_on serial_hash (record d { pending_requests = answered (u32_at mh 12) d.pending_requests })
      (response_of d mh payload objects) (u32_at mh 0 == 0xffffffff)

-- `IncomingMessage`: the device, and the response that it posts. The objects get the `device_id` of
-- the header, which is the same word as its `client_id`.
unfoldable pub incoming_message :
    (List ℕ → ℕ) → TcpDevice → List ℕ → List ℕ → List ℕ → Option (TcpDevice × Option Response)
incoming_message serial_hash d mh payload object_ids =
    incoming_with serial_hash d mh payload
      (bridge_objects (u32_at mh 0) (object_count mh) object_ids)

abbrev pub client_of : Option Client → ℕ
client_of none = 0xffffffff
client_of (some client) = client.client_id

-- The header of `SendRequest`; the last word is what the memory has had.
unfoldable pub request_header : ℕ → Memory → Request → List ℕ
request_header padding memory rq =
    le32 (client_of (target memory rq.client))
    ++ le32 rq.object_id
    ++ le32 rq.command_id
    ++ le32 rq.tag
    ++ le64 (length rq.payload)
    ++ le32 0
    ++ le32 padding

-- `SendRequest`: the device, and what `SendMessage` is called with.
unfoldable pub send_to_device : ℕ → Memory → TcpDevice → Request → TcpDevice × List ℕ × List ℕ
send_to_device padding memory d rq = (
  record d { pending_requests = d.pending_requests ++ (weak memory rq ∷ []) },
  request_header padding memory rq,
  rq.payload,
)
