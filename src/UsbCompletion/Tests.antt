-- ===== src/UsbCompletion/Tests.antt =====
-- A command with a payload of three bytes.
use twili.Base.{List, [], arith, false, refl, true, ℕ, ◌∷◌, ◌≡◌}
use twili.UsbReader.{Handlers, Reader, leaves, null_pointer, out_of_memory, ran}
use twili.UsbCompletion.{data_transaction_completed}
use twili.UsbCompletion.Payload.{handed_on, report, run_data, run_data-payload}
use twili.UsbCompletion.Memory.{data_transaction_completed-out_of_memory}

abbrev three_bytes : List ℕ
three_bytes =
    0 ∷ 0 ∷ 0 ∷ 0 ∷ 2 ∷ 0 ∷ 0 ∷ 0 ∷ 10 ∷ 0 ∷ 0 ∷ 0 ∷ 0 ∷ 0 ∷ 0 ∷ 0 ∷ 3 ∷ 0 ∷ 0 ∷ 0 ∷ 0 ∷ 0 ∷ 0 ∷ 0
    ∷ 0 ∷ 0 ∷ 0 ∷ 0 ∷ 0 ∷ 0 ∷ 0 ∷ 0 ∷ []

abbrev takes_all : Handlers
takes_all = record {
  open_request = λ mh. (false, true);
  flush = λ q. leaves false [];
  finish = λ q. q;
  memory_code = 0;
}

abbrev runs_out : Handlers
runs_out = record takes_all { flush = λ q. out_of_memory true q }

abbrev reading : Reader
reading = record {
  objects = 0 ∷ 2 ∷ [];
  current_header = three_bytes;
  received = 0;
  payload_buffer = [];
  object_ids = [];
  has_state = true;
  has_object = true;
  has_handler = true;
}

run_data-payload_example :
    (r' : Reader) × (run_data takes_all reading ((7 ∷ []) ∷ (8 ∷ 9 ∷ []) ∷ [])
      ≡ ran r' (handed_on (λ q. []) [] (7 ∷ []) ((8 ∷ 9 ∷ []) ∷ [])))
    × (r'.has_handler ≡ false)
    × (r'.has_object ≡ false)
run_data-payload_example =
    run_data-payload takes_all reading (7 ∷ []) ((8 ∷ 9 ∷ []) ∷ []) (record { flushed = λ q. refl })
      (record {
        handled = refl;
        with_object = refl;
        without_ids = refl;
        declared = refl;
        small = omega arith;
      })
      (omega arith, (omega arith, tt))

data_transaction_completed-out_of_memory_example :
    data_transaction_completed runs_out true (report (7 ∷ [])) reading ≡ null_pointer
data_transaction_completed-out_of_memory_example =
    data_transaction_completed-out_of_memory runs_out true reading (report (7 ∷ [])) (7 ∷ [])
      (refl, (λ e. absurd (omega (arith, e))), omega arith) refl refl
