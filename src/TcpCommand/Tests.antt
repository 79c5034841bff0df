-- ===== src/TcpCommand/Tests.antt =====
-- A run of three commands over TCP, as `process-Promises` has it.
use twili.Base.{
  List, [], arith, false, le32, refl, replicate, some, true, ℕ, ◌++◌, ◌==◌, ◌||◌, ◌∷◌, ◌≡◌,
}
use twili.Messages.{twili_result}
use twili.TcpConnection.{Connection, process}
use twili.TcpConnection.Commands.{Command, IsCommand, wire}
use twili.TcpCommand.{
  Action, Commander, TcpHandlers, answers, calls_finalize, calls_finalize_command, calls_flush,
  calls_open_request, insert_by,
}
use twili.TcpCommand.Tables.{Shows, Table, process-Promises, promised_all}
use twili.TcpCommand.Served.{IsIdle, actions_of, opened_actions, serve, serve_all}

-- A handler that leaves the payload in its buffer.
abbrev keep : List ℕ → List ℕ
keep input_buffer = input_buffer

-- Every request is handled, and its end adds object 3.
abbrev inserts_three : Action → List ℕ
inserts_three (answers code) = []
inserts_three (calls_open_request mh) = []
inserts_three (calls_flush q) = []
inserts_three (calls_finalize q) = 3 ∷ []
inserts_three calls_finalize_command = []

abbrev opens : TcpHandlers
opens = record { handles = λ mh. true; inserted = inserts_three }

-- A request of three bytes to object 2.
abbrev request_to_two : Command
request_to_two = record {
  mh = le32 7 ++ (le32 2 ++ (replicate 8 1 ++ (le32 3 ++ replicate 12 0)));
  payload = 5 ∷ 6 ∷ 7 ∷ [];
}

-- The request to close object 2.
abbrev close_two : Command
close_two = record { mh = le32 7 ++ (le32 2 ++ (le32 0xffffffff ++ replicate 20 0)); payload = [] }

abbrev three_commands : List Command
three_commands = request_to_two ∷ close_two ∷ request_to_two ∷ []

abbrev two_objects : Commander
two_objects = record {
  objects = 0 ∷ 2 ∷ [];
  has_state = false;
  has_object = false;
  has_handler = false;
}

abbrev fresh : Connection
fresh = record {
  in_buffer = [];
  has_current_mh = false;
  has_current_payload = false;
  current_mh = replicate 32 0;
  received = 0;
  payload_buffer = [];
  deletion_flag = false;
}

request_to_two-IsCommand : IsCommand request_to_two
request_to_two-IsCommand = record {
  whole_header = refl;
  payload_declared = refl;
  size_fits = omega arith;
}

close_two-IsCommand : IsCommand close_two
close_two-IsCommand = record {
  whole_header = refl;
  payload_declared = refl;
  size_fits = omega arith;
}

-- What is promised of the three commands: the request, the end of the object, the error.
three_commands-served : serve_all opens keep (0 ∷ 2 ∷ []) three_commands ≡ (
  0 ∷ 3 ∷ [],
  opened_actions keep true request_to_two ++ (answers 0 ∷ answers (twili_result 1001) ∷ []),
)
unfolding serve_all serve insert_by twili.UsbReader.has twili.UsbReader.without
three_commands-served = refl

-- Objects 0 and 2.
abbrev two_ids : Table
two_ids id = (id == 0) || ((id == 2) || false)

process-Promises_example :
    (c' : Commander) × (actions_of opens two_objects
        (process keep 4 (record fresh { in_buffer = wire three_commands; has_current_mh = false }))
      ≡ some (c', (promised_all opens keep two_ids three_commands).1))
    × Shows c'.objects (promised_all opens keep two_ids three_commands).0
    × IsIdle c'
process-Promises_example =
    process-Promises opens keep fresh two_objects two_ids three_commands refl
      (request_to_two-IsCommand, (close_two-IsCommand, (request_to_two-IsCommand, record {})))
      (record { no_handler = refl; no_object = refl }) (λ id. refl)
