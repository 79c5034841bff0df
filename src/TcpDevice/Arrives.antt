-- ===== src/TcpDevice/Arrives.antt =====
-- Requests of the daemon on the console, and responses of the console in the daemon, over TCP.
use twili.Base.{
  All, Bool-cases, List, Option, [], ap, arith, false, inl, inr, length, none, of_le32-le32, refl,
  some, true, u32_at, ℕ, ◌*◌, ◌++◌, ◌<◌, ◌==◌, ◌^◌, ◌∙◌, ◌∷◌, ◌≡◌, ◌≤◌,
}
use twili.Protocol.{object_count, payload_size}
use twili.Responses.{Arg, ResponseState, Transport, header, ids_bytes, respond_ok}
use twili.Messages.{BridgeObject, Memory, Request, Response, WeakRequest, target}
use twili.Responses.Packed.{IsFaithful, encode_all, flat, ids_all, size_all}
use twili.Responses.Message.{IsFresh, respond_ok-parse}
use twili.MessageConnection.Parse.{parse}
use twili.TcpConnection.Commands.{IsCommand}
use twili.UsbReader.{command_id, object_id}
use twili.TcpDevice.{
  TcpDevice, and_object, answered, bridge_objects, client_of, incoming_message, request_header,
  send_to_device,
}

-- The ids that the console has sent, as the daemon's objects.
unfoldable pub objects_of : ℕ → List ℕ → List BridgeObject
objects_of device [] = []
objects_of device (id ∷ ids) =
    record { device_id = device; object_id = id; valid = true } ∷ objects_of device ids

abbrev pub IsWord : ℕ → Type 0
IsWord n = n < 2 ^ 32

bridge_objects-ids_bytes :
    (device : ℕ) (ids : List ℕ)
    → All IsWord ids
    → bridge_objects device (length ids) (ids_bytes ids) ≡ some (objects_of device ids)
unfolding bridge_objects ids_bytes objects_of
bridge_objects-ids_bytes device [] h = refl
bridge_objects-ids_bytes device (id ∷ ids) (h, hs) =
    ap (and_object _) (bridge_objects-ids_bytes device ids hs)
    ∙ ap
        (λ n.
          some (record { device_id = device; object_id = n; valid = true } ∷ objects_of device ids))
        (of_le32-le32 id h)

-- The fields of a response's header.
abbrev pub Fields : Transport → ResponseState → ℕ → List ℕ → List ℕ → Type 0
Fields t s code ids mh =
    (u32_at mh 0 ≡ s.client_id)
    × (u32_at mh 4 ≡ t.unset_object_id)
    × (u32_at mh 8 ≡ code)
    × (u32_at mh 12 ≡ s.tag)
    × (object_count mh ≡ length ids)

header-Fields :
    (t : Transport) (s : ResponseState) (code payload_size : ℕ) (ids : List ℕ)
    → IsWord s.client_id
    → IsWord t.unset_object_id
    → IsWord code
    → IsWord s.tag
    → IsWord (length ids)
    → Fields t s code ids (header t s code payload_size (length ids))
unfolding header
header-Fields t s code payload_size ids a b c d e =
    (omega arith, omega arith, omega arith, omega arith, omega arith)

-- What the daemon makes of a response.
abbrev pub received : TcpDevice → Transport → ResponseState → ℕ → List ℕ → List ℕ → Response
received d t s code payload ids = record {
  client_id = s.client_id;
  device_id = d.device_id;
  object_id = t.unset_object_id;
  result_code = code;
  tag = s.tag;
  payload = payload;
  objects = objects_of s.client_id ids;
}

incoming_message_lem :
    (serial_hash : List ℕ → ℕ) (d : TcpDevice) (t : Transport) (s : ResponseState) (code : ℕ)
    (payload ids mh : List ℕ)
    → Fields t s code ids mh
    → All IsWord ids
    → s.client_id == 0xffffffff ≡ false
    → incoming_message serial_hash d mh payload (ids_bytes ids)
      ≡ some (
        record d { pending_requests = answered s.tag d.pending_requests },
        some (received d t s code payload ids),
      )
unfolding incoming_message
incoming_message_lem serial_hash d t s code payload ids mh (a, b, c, e, f) h x =
    rw (a, f, bridge_objects-ids_bytes s.client_id ids h) (rw (a, x, b, c, e) refl)

-- No request waits for the tag.
abbrev pub NoneWaits : ℕ → List WeakRequest → Type 0
NoneWaits tag rs = All (λ r. r.tag == tag ≡ false) rs

answered-NoneWaits : (tag : ℕ) (rs : List WeakRequest) → NoneWaits tag (answered tag rs)
unfolding answered
answered-NoneWaits tag [] = tt
answered-NoneWaits tag (r ∷ rs) = elim (Bool-cases (r.tag == tag)) [
  | inl e ↦ rw e (answered-NoneWaits tag rs)
  | inr e ↦ rw e (e, answered-NoneWaits tag rs)
]

-- What is parsed comes in at the device.
abbrev pub deliver :
    (List ℕ → ℕ)
    → TcpDevice
    → Option ((List ℕ × List ℕ × List ℕ) × List ℕ)
    → Option (TcpDevice × Option Response)
deliver serial_hash d none = none
deliver serial_hash d (some ((mh, payload, object_ids), rest)) =
    incoming_message serial_hash d mh payload object_ids

-- A response that RespondOk sends and that fits arrives in the daemon with its client, tag, result
-- and payload, under the id of its device, and ends the requests with its tag; its objects come in
-- order, but with the id of the client for that of their device.
pub respond_ok-deliver :
    (serial_hash : List ℕ → ℕ) (d : TcpDevice) (t : Transport) (s : ResponseState) (args : List Arg)
    (rest : List ℕ)
    → IsFaithful t
    → IsFresh s
    → size_all args < 2 ^ 63
    → length (ids_all args) * 4 ≤ t.max_transfer_size
    → t.max_transfer_size < 2 ^ 32
    → IsWord t.unset_object_id
    → IsWord s.tag
    → s.client_id < 0xffffffff
    → All IsWord (ids_all args)
    → (s' : ResponseState) × (respond_ok t s args ≡ some s')
      × (deliver serial_hash d (parse (flat s'.sent ++ rest))
          ≡ some (
            record d { pending_requests = answered s.tag d.pending_requests },
            some (received d t s 0 (encode_all 0 args) (ids_all args)),
          ))
      × NoneWaits s.tag (answered s.tag d.pending_requests)
respond_ok-deliver serial_hash d t s args rest faithful fresh small few max unset tag client words =
    let ids = ids_all args in
    let (s', e, f) = respond_ok-parse t s args rest faithful fresh small few max in
    (
      s',
      e,
      ap (deliver serial_hash d) f
          ∙ incoming_message_lem serial_hash d t s 0 (encode_all 0 args) ids
              (header t s 0 (size_all args) (length ids))
              (header-Fields t s 0 (size_all args) ids (omega arith) unset (omega arith) tag
                (omega arith))
              words (ground (arith, client)),
      answered-NoneWaits s.tag d.pending_requests,
    )

-- A request that the daemon sends to a TCP device is a whole command for the console, with the id of
-- its client, its object, command, tag and payload, where these fit the header.
pub send_to_device-IsCommand :
    (padding : ℕ) (memory : Memory) (d : TcpDevice) (rq : Request)
    → IsWord (client_of (target memory rq.client))
    → IsWord rq.object_id
    → IsWord rq.command_id
    → IsWord rq.tag
    → length rq.payload < 2 ^ 64
    → let (d', mh, payload) = send_to_device padding memory d rq in
      IsCommand (record { mh = mh; payload = payload })
      × (u32_at mh 0 ≡ client_of (target memory rq.client))
      × (object_id mh ≡ rq.object_id)
      × (command_id mh ≡ rq.command_id)
      × (u32_at mh 12 ≡ rq.tag)
      × (payload ≡ rq.payload)
unfolding send_to_device request_header
send_to_device-IsCommand padding memory d rq fits a b c small = (
  record { whole_header = refl; payload_declared = omega arith; size_fits = omega arith },
  omega arith,
  omega arith,
  omega arith,
  omega arith,
  refl,
)
