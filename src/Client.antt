-- ===== src/Client.antt =====
-- twib/tool/Client.cpp and .hpp: the requests of the command line tool that wait for a response. A
-- request's function is a number, and what is invoked is listed in order. The random tag is an
-- argument. `SendRequestImpl`, the lock and the log are left out.
pub mod Pending
pub mod Accounts
pub mod Tags
mod Tests
use twili.Base.{
  Bool, List, Option, [], drop, false, if◌then◌else◌, length, ltb, none, of_le32, some, suc, take,
  true, zero, ℕ, ◌==◌, ◌∷◌,
}

pub record Response : Type 0 where
  pub device_id : ℕ
  pub object_id : ℕ
  pub result_code : ℕ
  pub tag : ℕ
  pub payload : List ℕ
  pub objects : List ℕ

-- The fields of a response's `MessageHeader`.
pub record Header : Type 0 where
  pub device_id : ℕ
  pub object_id : ℕ
  pub result_code : ℕ
  pub tag : ℕ
  pub object_count : ℕ

pub record Client : Type 0 where
  pub response_map : List (ℕ × ℕ)
  pub failed : Bool
  pub fail_code : ℕ

-- A function that is invoked, with the response.
abbrev pub Invoked : Type 0
Invoked = ℕ × Response

-- `std::map` from tags to functions, in the order of the tags.
unfoldable pub find : ℕ → List (ℕ × ℕ) → Option ℕ
find tag [] = none
find tag ((t, f) ∷ m) = if tag == t then some f else find tag m

unfoldable pub erase : ℕ → List (ℕ × ℕ) → List (ℕ × ℕ)
erase tag [] = []
erase tag ((t, f) ∷ m) = if tag == t then m else (t, f) ∷ erase tag m

-- `response_map[tag] = f`, which replaces the function that a tag has.
unfoldable pub assign : ℕ → ℕ → List (ℕ × ℕ) → List (ℕ × ℕ)
assign tag f [] = (tag, f) ∷ []
assign tag f ((t, g) ∷ m) =
    if ltb tag t
    then (tag, f) ∷ (t, g) ∷ m
    else if tag == t
    then (tag, f) ∷ m
    else (t, g) ∷ assign tag f m

abbrev with_id : ℕ → Option (List ℕ) → Option (List ℕ)
with_id id none = none
with_id id (some ids) = some (id ∷ ids)

-- The loop over `object_count`: the ids, or `none` where there are not enough.
unfoldable pub read_ids : ℕ → List ℕ → Option (List ℕ)
read_ids zero bytes = some []
read_ids (suc n) bytes =
    let rest = read_ids n (drop 4 bytes) in
    if ltb (length bytes) 4 then none else with_id (of_le32 (take 4 bytes)) rest

abbrev pub invoke_found : Client → Header → List ℕ → List ℕ → Option ℕ → Client × List Invoked
invoke_found c mh payload objects none = (c, [])
invoke_found c mh payload objects (some f) = (
  record c { response_map = erase mh.tag c.response_map },
  (
    f,
    record {
      device_id = mh.device_id;
      object_id = mh.object_id;
      result_code = mh.result_code;
      tag = mh.tag;
      payload = payload;
      objects = objects;
    },
  )
      ∷ [],
)

abbrev pub post_with : Client → Header → List ℕ → Option (List ℕ) → Client × List Invoked
post_with c mh payload none = (c, [])
post_with c mh payload (some objects) =
    invoke_found c mh payload objects (find mh.tag c.response_map)

-- `PostResponse`, with the bytes of the payload and of the object ids.
unfoldable pub post_response : Client → Header → List ℕ → List ℕ → Client × List Invoked
post_response c mh payload object_ids = post_with c mh payload (read_ids mh.object_count object_ids)

abbrev pub failure : ℕ → Response
failure code = record {
  device_id = 0;
  object_id = 0;
  result_code = code;
  tag = 0;
  payload = [];
  objects = [];
}

-- `SendRequest`, by `failed`.
abbrev pub send_in : Bool → Client → ℕ → ℕ → Client × List Invoked
send_in true c tag f = (c, (f, failure c.fail_code) ∷ [])
send_in false c tag f = (record c { response_map = assign tag f c.response_map }, [])

unfoldable pub send_request : Client → ℕ → ℕ → Client × List Invoked
send_request c tag f = send_in c.failed c tag f

unfoldable pub fail_each : ℕ → List (ℕ × ℕ) → List Invoked
fail_each code [] = []
fail_each code ((t, f) ∷ m) = (f, failure code) ∷ fail_each code m

unfoldable pub fail_all_requests : Client → ℕ → Client × List Invoked
fail_all_requests c code =
    (record { response_map = []; failed = true; fail_code = code }, fail_each code c.response_map)
