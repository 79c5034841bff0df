-- ===== src/Responses/Tests.antt =====
-- A response with a number, a text and an object.
use twili.Base.{List, [], append-nil, arith, false, refl, some, ◌++◌, ◌∷◌, ◌≡◌}
use twili.Responses.{
  Arg, ResponseState, Transport, header, ids_bytes, object, respond_ok, text, word32,
}
use twili.Responses.Packed.{encode_all, flat}
use twili.Responses.Message.{respond_ok-parse}
use twili.MessageConnection.Parse.{parse}

abbrev whole : Transport
whole = record {
  pieces = λ bytes. bytes ∷ [];
  max_transfer_size = 16384;
  unset_object_id = 77;
  padding = 0;
}

abbrev fresh : ResponseState
fresh = record {
  client_id = 5;
  tag = 6;
  objects = [];
  transferred_size = 0;
  total_size = 0;
  object_count = 0;
  has_begun = false;
  sent = [];
}

abbrev arguments : List Arg
arguments = word32 3 ∷ text (104 ∷ 105 ∷ []) ∷ object 9 ∷ []

respond_ok-parse_example :
    (s' : ResponseState) × (respond_ok whole fresh arguments ≡ some s')
    × (parse (flat s'.sent ++ (1 ∷ []))
        ≡ some ((header whole fresh 0 18 1, encode_all 0 arguments, ids_bytes (9 ∷ [])), 1 ∷ []))
respond_ok-parse_example =
    respond_ok-parse whole fresh arguments (1 ∷ []) (λ bytes. append-nil bytes)
      (record {
        not_begun = refl;
        nothing_transferred = refl;
        no_objects = refl;
        nothing_sent = refl;
      })
      (omega arith) (omega arith) (omega arith)
