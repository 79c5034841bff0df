-- ===== src/Messages.antt =====
-- twib/daemon/Messages.cpp and .hpp, and the fields of twib/daemon/BridgeObject.hpp: what clients
-- and devices of the daemon send each other. A shared pointer to a client is its address in the
-- memory, where a client that has been destroyed is missing.
use twili.Base.{Bool, List, Option, [], bit_or, lookup, none, some, ℕ, ◌*◌, ◌^◌}

-- `TWILI_RESULT` of common/err.hpp
abbrev pub twili_result : ℕ → ℕ
twili_result code = bit_or (code * 2 ^ 9) 0xef

pub record BridgeObject : Type 0 where
  pub device_id : ℕ
  pub object_id : ℕ
  pub valid : Bool

pub record Response : Type 0 where
  pub client_id : ℕ
  pub device_id : ℕ
  pub object_id : ℕ
  pub result_code : ℕ
  pub tag : ℕ
  pub payload : List ℕ
  pub objects : List BridgeObject

pub record Client : Type 0 where
  pub client_id : ℕ
  pub deletion_flag : Bool
  pub owned_objects : List BridgeObject

pub record WeakRequest : Type 0 where
  pub client_id : ℕ
  pub device_id : ℕ
  pub object_id : ℕ
  pub command_id : ℕ
  pub tag : ℕ
  pub payload : List ℕ

pub record Request : Type 0 where
  pub client : Option ℕ
  pub device_id : ℕ
  pub object_id : ℕ
  pub command_id : ℕ
  pub tag : ℕ
  pub payload : List ℕ

abbrev pub Memory : Type 0
Memory = List (ℕ × Client)

-- What a pointer points to: `none` is the null pointer.
unfoldable pub target : Memory → Option ℕ → Option Client
target memory none = none
target memory (some address) = lookup address memory

-- `WeakRequest::RespondError`
unfoldable pub respond_weak : WeakRequest → ℕ → Response
respond_weak rq code = record {
  client_id = rq.client_id;
  device_id = rq.device_id;
  object_id = rq.object_id;
  result_code = code;
  tag = rq.tag;
  payload = [];
  objects = [];
}

abbrev pub weak_of : Option Client → Request → WeakRequest
weak_of none rq = record {
  client_id = 0xffffffff;
  device_id = rq.device_id;
  object_id = rq.object_id;
  command_id = rq.command_id;
  tag = rq.tag;
  payload = rq.payload;
}
weak_of (some client) rq = record {
  client_id = client.client_id;
  device_id = rq.device_id;
  object_id = rq.object_id;
  command_id = rq.command_id;
  tag = rq.tag;
  payload = rq.payload;
}

-- `Request::Weak`
unfoldable pub weak : Memory → Request → WeakRequest
weak memory rq = weak_of (target memory rq.client) rq

abbrev pub respond_to : Option Client → Request → ℕ → Option Response
respond_to none rq code = none
respond_to (some client) rq code = some (record {
  client_id = client.client_id;
  device_id = rq.device_id;
  object_id = rq.object_id;
  result_code = code;
  tag = rq.tag;
  payload = [];
  objects = [];
})

-- `Request::RespondError`, where `none` is the use of a null pointer.
unfoldable pub respond_error : Memory → Request → ℕ → Option Response
respond_error memory rq code = respond_to (target memory rq.client) rq code

unfoldable pub respond_ok : Memory → Request → Option Response
respond_ok memory rq = respond_error memory rq 0
