-- ===== src/MessageConnection/Tests.antt =====
-- Runs of the message connection, and its theorems at concrete inputs.
use twili.Base.{
  List, [], ap, arith, drop, false, inr, le32, none, refl, replicate, some, sym, take, true, ℕ,
  ◌++◌, ◌∙◌, ◌∷◌, ◌≡◌,
}
use twili.Buffer.{
  Buffer, compact, compact_for, ensure_space, get_data, mark_read, put, read_available, resize,
  write,
}
use twili.Buffer.Bounded.{IsOpen}
use twili.MessageConnection.{Connection, process, send_message, signal_write}
use twili.MessageConnection.Parse.{parse, parse-short, parse_body}
use twili.MessageConnection.Stages.{Holds, IsUsable, at_header, message}
use twili.MessageConnection.Turn.{Fits}
use twili.MessageConnection.Process.{IsParse, joined}
use twili.MessageConnection.Loop.{process-IsParse}
use twili.MessageConnection.Session.{AllFit, messages, receive, receive-eq-messages}
use twili.MessageConnection.Output.{AllTakeGiven, Call, run, run-Flows, sends, signals}
use twili.MessageConnection.Send.{IsMessage, send_message-process, send_message_lem}

-- A buffer with a vector of four bytes, which grows where it has to.
abbrev little : Buffer
little = record { bytes = replicate 4 0; read_head = 0; write_head = 0; limit = none }

abbrev fresh : Connection
fresh = record {
  in_buffer = little;
  out_buffer = little;
  mh = [];
  payload = little;
  object_ids = little;
  has_current_mh = false;
  has_current_payload = false;
  error_flag = false;
}

-- A header with a payload of three bytes and one object id.
abbrev some_header : List ℕ
some_header =
    le32 1 ++ (le32 0 ++ (le32 10 ++ (le32 7 ++ (le32 3 ++ (le32 0 ++ (le32 1 ++ le32 0))))))

abbrev some_payload : List ℕ
some_payload = 65 ∷ 66 ∷ 67 ∷ []

abbrev wire : List ℕ
wire = some_header ++ (some_payload ++ le32 9)

abbrev pieces : List (List ℕ)
pieces = take 20 wire ∷ take 14 (drop 20 wire) ∷ (drop 34 wire ++ (1 ∷ [])) ∷ []

little-IsOpen : IsOpen 16384 little
little-IsOpen = record {
  valid = record {
    ordered = omega arith;
    inside = omega arith;
    within = omega arith;
    small = omega arith;
  };
  no_limit = refl;
  bounded = omega arith;
  moderate = omega arith;
}

fresh-IsUsable : IsUsable 16384 fresh
fresh-IsUsable = record {
  in_open = little-IsOpen;
  payload_open = little-IsOpen;
  ids_open = little-IsOpen;
}

fresh-Holds : Holds fresh []
unfolding get_data
fresh-Holds = at_header refl held
  where
    held : get_data little ≡ []
    held = refl

parse-wire : parse (wire ++ (1 ∷ [])) ≡ some ((some_header, some_payload, le32 9), 1 ∷ [])
unfolding parse parse_body
parse-wire = refl

pieces-Fit : Fits 16384 (joined pieces)
pieces-Fit = record { with_reserve = omega arith; with_message = λ h. omega arith }

process-IsParse_example : IsParse 16384 (joined pieces) (process fresh pieces)
process-IsParse_example =
    process-IsParse fresh [] pieces fresh-IsUsable fresh-Holds (inr (parse-short [] (omega arith)))
      pieces-Fit

wire-AllFit : AllFit 16384 2 (joined pieces)
unfolding parse parse_body
wire-AllFit = (
  pieces-Fit,
  (record { with_reserve = omega arith; with_message = λ h. absurd (omega (arith, h)) }, record {}),
)

receive-eq-messages_example : receive 2 fresh pieces ≡ messages 2 (wire ++ (1 ∷ []))
receive-eq-messages_example =
    receive-eq-messages 2 fresh [] pieces fresh-IsUsable fresh-Holds
      (inr (parse-short [] (omega arith))) wire-AllFit

messages-wire : messages 2 (wire ++ (1 ∷ [])) ≡ (some_header, some_payload, le32 9) ∷ []
unfolding messages parse parse_body
messages-wire = refl

wire-IsMessage : IsMessage some_header some_payload (le32 9)
wire-IsMessage = record { whole_header = refl; payload_declared = refl; ids_declared = refl }

fresh-empty : get_data fresh.out_buffer ≡ []
unfolding get_data
fresh-empty = refl

wire-sent :
    joined pieces
    ≡ get_data (send_message fresh some_header some_payload (le32 9)).out_buffer ++ (1 ∷ [])
wire-sent = sym (
    ap (λ x. x ++ (1 ∷ []))
      (send_message_lem fresh some_header some_payload (le32 9) little-IsOpen.valid refl
          (omega arith)
        ∙ ap (λ x. x ++ wire) fresh-empty))

send_message-process_example :
    let (found, d, left) = process fresh pieces in
    (found ≡ true)
    × (message d ≡ (some_header, some_payload, le32 9))
    × (get_data d.in_buffer ++ joined left ≡ 1 ∷ [])
send_message-process_example =
    send_message-process fresh fresh some_header some_payload (le32 9) (1 ∷ []) pieces
      little-IsOpen.valid refl fresh-empty (omega arith) wire-IsMessage fresh-IsUsable refl
      fresh-empty pieces-Fit wire-sent

-- Output: a message, of which ten bytes go out, a failure, and the rest.
abbrev output_calls : List Call
output_calls =
    sends some_header some_payload (le32 9)
    ∷ signals (some 10)
    ∷ signals none
    ∷ signals (some 29)
    ∷ []

output_calls-AllTakeGiven : AllTakeGiven fresh output_calls
unfolding send_message signal_write write ensure_space compact_for compact put mark_read get_data
    resize read_available
output_calls-AllTakeGiven = (record {}, (omega arith, (record {}, (omega arith, record {}))))

run-Flows_example :
    let (d, now) = run fresh output_calls in
    now ++ get_data d.out_buffer ≡ get_data fresh.out_buffer ++ (wire ++ [])
run-Flows_example =
    run-Flows fresh output_calls little-IsOpen.valid refl (omega arith) output_calls-AllTakeGiven
