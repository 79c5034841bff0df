-- ===== src/TcpConnection/Tests.antt =====
-- Runs of the TCP connection, and its theorems at concrete inputs.
use twili.Base.{List, [], arith, false, le32, refl, replicate, ℕ, ◌++◌, ◌∷◌, ◌≡◌}
use twili.TcpConnection.{Connection, out_of_fuel, process}
use twili.TcpConnection.Commands.{Command, IsCommand}
use twili.TcpConnection.Partial.{process-partial}

-- The discarding handler.
abbrev discard : List ℕ → List ℕ
discard input_buffer = []

-- A header that declares three bytes.
abbrev three_header : List ℕ
three_header = replicate 16 1 ++ (le32 3 ++ replicate 12 0)

abbrev three_bytes : Command
three_bytes = record { mh = three_header; payload = 5 ∷ 6 ∷ 7 ∷ [] }

abbrev no_bytes : Command
no_bytes = record { mh = replicate 32 0; payload = [] }

abbrev idle : Connection
idle = record {
  in_buffer = [];
  has_current_mh = false;
  has_current_payload = false;
  current_mh = replicate 32 0;
  received = 0;
  payload_buffer = [];
  deletion_flag = false;
}

three_bytes-IsCommand : IsCommand three_bytes
three_bytes-IsCommand = record {
  whole_header = refl;
  payload_declared = refl;
  size_fits = omega arith;
}

process-partial_example :
    process discard 1000 (record idle { in_buffer = 1 ∷ 0 ∷ 0 ∷ 0 ∷ [] }) ≡ out_of_fuel
process-partial_example =
    process-partial discard 1000 (record idle { in_buffer = 1 ∷ 0 ∷ 0 ∷ 0 ∷ [] })
      (record {
        no_header = refl;
        no_payload = refl;
        all_received = refl;
        size_fits = omega arith;
        stays = refl;
      })
      (omega arith) (omega arith)
