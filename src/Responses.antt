-- ===== src/Responses.antt =====
-- twili/bridge/ResponseOpener.cpp and .hpp, ResponseWriter.cpp and .hpp, Packing.hpp, and the two
-- ResponseState.cpp, of bridge/usb and bridge/tcp: the responses of the console. `none` is the end
-- by `Abort`. What is sent is listed in pieces. An argument of a response is a number, a text (a
-- string, a buffer, a serialized value or a vector of bytes) or an object by its id; the vectors of
-- these are left out. The transfers are taken to succeed, but for `Send` of the TCP state.
pub mod Packed
pub mod Message
pub mod Transfers
mod Tests
use twili.Base.{
  Bool, List, Option, [], add32, add64, drop, false, if◌then◌else◌, le32, le64, length, ltb, none,
  some, suc, take, true, zero, ℕ, ◌*◌, ◌++◌, ◌==◌, ◌∷◌,
}

-- `ResponseState`, with what has been sent.
pub record ResponseState : Type 0 where
  pub client_id : ℕ
  pub tag : ℕ
  pub objects : List ℕ
  pub transferred_size : ℕ
  pub total_size : ℕ
  pub object_count : ℕ
  pub has_begun : Bool
  pub sent : List (List ℕ)

-- What the two states differ in: the pieces that data goes in, and `GetMaxTransferSize`. The two
-- fields of a header that are not set are what the memory has had.
pub record Transport : Type 0 where
  pub pieces : List ℕ → List (List ℕ)
  pub max_transfer_size : ℕ
  pub unset_object_id : ℕ
  pub padding : ℕ

unfoldable pub header : Transport → ResponseState → ℕ → ℕ → ℕ → List ℕ
header t s code payload_size object_count =
    le32 s.client_id
    ++ le32 t.unset_object_id
    ++ le32 code
    ++ le32 s.tag
    ++ le64 payload_size
    ++ le32 object_count
    ++ le32 t.padding

unfoldable pub begin_error : Transport → ResponseState → ℕ → ℕ → ℕ → Option ResponseState
begin_error t s code payload_size object_count =
    if s.has_begun
    then none
    else if ltb t.max_transfer_size (object_count * 4)
    then none
    else some (record s {
      has_begun = true;
      total_size = payload_size;
      object_count = object_count;
      sent = s.sent ++ (header t s code payload_size object_count ∷ []);
    })

-- `Write`, by `SendData`.
unfoldable pub write_data : Transport → ResponseState → List ℕ → ResponseState
write_data t s bytes = record s {
  sent = s.sent ++ t.pieces bytes;
  transferred_size = add64 s.transferred_size (length bytes);
}

-- `ResponseWriter::Object`: the index of the object.
unfoldable pub add_object : ResponseState → ℕ → ℕ × ResponseState
add_object s id = (length s.objects, record s { objects = s.objects ++ (id ∷ []) })

unfoldable pub ids_bytes : List ℕ → List ℕ
ids_bytes [] = []
ids_bytes (id ∷ ids) = le32 id ++ ids_bytes ids

unfoldable pub finalize : ResponseState → Option ResponseState
finalize s =
    if s.transferred_size == s.total_size
    then (if length s.objects == s.object_count
        then (if ltb 0 s.object_count
            then some (record s { sent = s.sent ++ (ids_bytes s.objects ∷ []) })
            else some s)
        else none)
    else none

abbrev pub and_finalize : Option ResponseState → Option ResponseState
and_finalize none = none
and_finalize (some s) = finalize s

unfoldable pub respond_error : Transport → ResponseState → ℕ → Option ResponseState
respond_error t s code = and_finalize (begin_error t s code 0 0)

-- The arguments of `RespondOk`.
pub data Arg : Type 0 where
  word32 word64 : ℕ → Arg
  text : List ℕ → Arg
  object : ℕ → Arg

unfoldable pub get_size : Arg → ℕ
get_size (word32 n) = 4
get_size (word64 n) = 8
get_size (text bytes) = add64 8 (length bytes)
get_size (object id) = 4

unfoldable pub get_object_count : Arg → ℕ
get_object_count (word32 n) = 0
get_object_count (word64 n) = 0
get_object_count (text bytes) = 0
get_object_count (object id) = 1

abbrev pub write_index : Transport → ℕ × ResponseState → ResponseState
write_index t (index, s) = write_data t s (le32 index)

unfoldable pub pack : Transport → ResponseState → Arg → ResponseState
pack t s (word32 n) = write_data t s (le32 n)
pack t s (word64 n) = write_data t s (le64 n)
pack t s (text bytes) = write_data t (write_data t s (le64 (length bytes))) bytes
pack t s (object id) = write_index t (add_object s id)

unfoldable pub sum_size : List Arg → ℕ
sum_size [] = 0
sum_size (a ∷ args) = add64 (get_size a) (sum_size args)

unfoldable pub sum_object_count : List Arg → ℕ
sum_object_count [] = 0
sum_object_count (a ∷ args) = add32 (get_object_count a) (sum_object_count args)

unfoldable pub pack_all : Transport → ResponseState → List Arg → ResponseState
pack_all t s [] = s
pack_all t s (a ∷ args) = pack_all t (pack t s a) args

abbrev pub and_pack : Transport → List Arg → Option ResponseState → Option ResponseState
and_pack t args none = none
and_pack t args (some s) = finalize (pack_all t s args)

unfoldable pub respond_ok : Transport → ResponseState → List Arg → Option ResponseState
respond_ok t s args = and_pack t args (begin_error t s 0 (sum_size args) (sum_object_count args))

-- `SendData` over USB: pieces of at most `max_size`; the fuel is how often its loop is run.
unfoldable pub usb_pieces : ℕ → ℕ → List ℕ → List (List ℕ)
usb_pieces max_size zero bytes = bytes ∷ []
usb_pieces max_size (suc fuel) bytes =
    let rest = usb_pieces max_size fuel (drop max_size bytes) in
    if ltb max_size (length bytes) then take max_size bytes ∷ rest else bytes ∷ []

abbrev pub unless_empty : List ℕ → List (List ℕ) → List (List ℕ)
unless_empty [] rest = []
unless_empty (x ∷ xs) rest = rest

unfoldable pub send_data_usb : ℕ → List ℕ → List (List ℕ)
send_data_usb max_size bytes = unless_empty bytes (usb_pieces max_size (length bytes) bytes)

-- `Send` over TCP, by what `bsd_send` says of each call (0 is an error): what it has sent of the
-- bytes, and whether the connection is closed.
unfoldable pub send_tcp : List ℕ → List ℕ → List ℕ × Bool
send_tcp bytes [] = ([], false)
send_tcp bytes (r ∷ rs) =
    let rest = send_tcp (drop r bytes) rs in
    if length bytes == 0
    then ([], false)
    else if r == 0
    then ([], true)
    else (take r bytes ++ rest.0, rest.1)

-- A connection that is closed already sends nothing.
unfoldable pub send : Bool → List ℕ → List ℕ → List ℕ × Bool
send true bytes rs = ([], true)
send false bytes rs = send_tcp bytes rs
