-- ===== src/Client/Tests.antt =====
-- Runs of the tool's client, and its theorems at concrete inputs.
use twili.Base.{List, [], arith, false, inl, inr, le32, none, refl, some, ◌+◌, ◌∷◌, ◌≡◌}
use twili.Client.{
  Client, Header, assign, erase, fail_all_requests, fail_each, find, post_response, read_ids,
  send_request,
}
use twili.Client.Pending.{count, invoked, waiting}
use twili.Client.Accounts.{AllFresh, Call, call, fails, posts, run, run-Balances, sends}
use twili.Client.Tags.{send_request-collision}

abbrev no_requests : Client
no_requests = record { response_map = []; failed = false; fail_code = 0 }

abbrev two_requests : Client
two_requests = record no_requests { response_map = (5, 100) ∷ (9, 101) ∷ [] }

-- A response to tag 7 with one object.
abbrev response_header : Header
response_header = record {
  device_id = 1;
  object_id = 2;
  result_code = 0;
  tag = 7;
  object_count = 1;
}

abbrev calls : List Call
calls =
    sends 7 100
    ∷ sends 3 101
    ∷ posts response_header (65 ∷ []) (le32 8)
    ∷ fails 22
    ∷ sends 7 102
    ∷ []

calls-AllFresh : AllFresh no_requests calls
unfolding call send_request post_response fail_all_requests find assign erase read_ids
calls-AllFresh = (inr refl, (inr refl, (record {}, (record {}, (inl refl, record {})))))

calls-invoked : invoked (run no_requests calls).1 ≡ 100 ∷ 101 ∷ 102 ∷ []
unfolding run call send_request post_response fail_all_requests find assign erase read_ids fail_each
calls-invoked = refl

run-Balances_example :
    let (d, now) = run no_requests calls in
    count 100 (waiting d.response_map) + count 100 (invoked now) ≡ 0 + 1
run-Balances_example = run-Balances 100 no_requests calls calls-AllFresh

seven-free : find 7 two_requests.response_map ≡ none
unfolding find
seven-free = refl

one_id : read_ids 1 (le32 8) ≡ some (8 ∷ [])
unfolding read_ids
one_id = refl

nine-taken : find 9 two_requests.response_map ≡ some 101
unfolding find
nine-taken = refl

send_request-collision_example :
    let (d, now) = send_request two_requests 9 102 in
    (now ≡ []) × (count 101 (waiting d.response_map) + 1 ≡ 0 + 1)
send_request-collision_example =
    send_request-collision 101 two_requests 9 102 101 refl (omega arith, (omega arith, record {}))
      nine-taken
