-- ===== src/TcpDevice/Tests.antt =====
-- A request and a response between the daemon and a console.
use twili.Base.{
  List, [], append-nil, arith, false, lookup, of_le32, refl, some, take, true, u32_at, ℕ, ◌++◌, ◌∷◌,
  ◌≡◌,
}
use twili.Responses.{Arg, ResponseState, Transport, object, respond_ok, word32}
use twili.Messages.{Client, Memory, Request, target}
use twili.Responses.Packed.{encode_all, flat}
use twili.MessageConnection.Parse.{parse}
use twili.TcpConnection.Commands.{IsCommand}
use twili.UsbReader.{command_id, object_id}
use twili.TcpDevice.{TcpDevice, answered, client_of, send_to_device}
use twili.TcpDevice.Arrives.{
  NoneWaits, deliver, received, respond_ok-deliver, send_to_device-IsCommand,
}

abbrev whole_pieces : Transport
whole_pieces = record {
  pieces = λ bytes. bytes ∷ [];
  max_transfer_size = 16384;
  unset_object_id = 77;
  padding = 0;
}

abbrev fresh_response : ResponseState
fresh_response = record {
  client_id = 5;
  tag = 6;
  objects = [];
  transferred_size = 0;
  total_size = 0;
  object_count = 0;
  has_begun = false;
  sent = [];
}

abbrev two_arguments : List Arg
two_arguments = word32 3 ∷ object 9 ∷ []

abbrev waits_for_six : TcpDevice
waits_for_six = record {
  device_id = 40;
  pending_requests =
      record {
        client_id = 5;
        device_id = 40;
        object_id = 0;
        command_id = 12;
        tag = 6;
        payload = [];
      }
      ∷ [];
  ready_flag = true;
  deletion_flag = false;
}

abbrev first_byte : List ℕ → ℕ
first_byte serial = of_le32 (take 1 serial)

respond_ok-deliver_example :
    (s' : ResponseState) × (respond_ok whole_pieces fresh_response two_arguments ≡ some s')
    × (deliver first_byte waits_for_six (parse (flat s'.sent ++ (1 ∷ [])))
        ≡ some (
          record waits_for_six { pending_requests = answered 6 waits_for_six.pending_requests },
          some (
              received waits_for_six whole_pieces fresh_response 0
                (encode_all 0 two_arguments)
                (9 ∷ [])),
        ))
    × NoneWaits 6 (answered 6 waits_for_six.pending_requests)
respond_ok-deliver_example =
    respond_ok-deliver first_byte waits_for_six whole_pieces fresh_response two_arguments (1 ∷ [])
      (λ bytes. append-nil bytes)
      (record {
        not_begun = refl;
        nothing_transferred = refl;
        no_objects = refl;
        nothing_sent = refl;
      })
      (omega arith) (omega arith) (omega arith) (omega arith) (omega arith) (omega arith)
      (omega arith, tt)

abbrev tool_client : Client
tool_client = record { client_id = 5; deletion_flag = false; owned_objects = [] }

abbrev one_client : Memory
one_client = (20, tool_client) ∷ []

abbrev tool_request : Request
tool_request = record {
  client = some 20;
  device_id = 40;
  object_id = 3;
  command_id = 12;
  tag = 6;
  payload = 1 ∷ 2 ∷ [];
}

send_to_device-IsCommand_example :
    let (d', mh, payload) = send_to_device 0 one_client waits_for_six tool_request in
    IsCommand (record { mh = mh; payload = payload })
    × (u32_at mh 0 ≡ client_of (target one_client (some 20)))
    × (object_id mh ≡ 3)
    × (command_id mh ≡ 12)
    × (u32_at mh 12 ≡ 6)
    × (payload ≡ 1 ∷ 2 ∷ [])
unfolding target lookup
send_to_device-IsCommand_example =
    send_to_device-IsCommand 0 one_client waits_for_six tool_request (omega arith) (omega arith)
      (omega arith) (omega arith) (omega arith)
