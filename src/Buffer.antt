-- ===== src/Buffer.antt =====
-- common/Buffer.hpp and common/Buffer.cpp: the byte buffer with a read head and a write head.
-- `size_t` wraps at 2^64. An allocation always succeeds, and a write past the end of the vector
-- is lost, which a valid buffer (`Buffer.Inv`) has none of. The typed overloads of `Write` and
-- `Read` are calls of the two functions here on the bytes of their value.
pub mod Inv
pub mod Space
pub mod Growth
pub mod Queue
pub mod Transfer
pub mod Bounded
pub mod Trace
mod Tests
use twili.Base.{
  Bool, List, Option, add64, copy_at, drop, false, if◌then◌else◌, length, ltb, min, none, replicate,
  some, sub64, take, true, ℕ, ◌++◌, ◌-◌,
}

pub record Buffer : Type 0 where
  pub bytes : List ℕ
  pub read_head : ℕ
  pub write_head : ℕ
  pub limit : Option ℕ

-- `Buffer()`
unfoldable pub unlimited : Buffer
unlimited = record { bytes = replicate 2048 0; read_head = 0; write_head = 0; limit = none }

-- `Buffer(size_t limit)`
unfoldable pub limited : ℕ → Buffer
limited l = record {
  bytes = replicate (min 2048 l) 0;
  read_head = 0;
  write_head = 0;
  limit = some l;
}

-- `Buffer(std::vector<uint8_t> data)`
unfoldable pub of_vector : List ℕ → Buffer
of_vector v = record { bytes = v; read_head = 0; write_head = length v; limit = none }

-- `std::vector::resize`
unfoldable pub resize : ℕ → List ℕ → List ℕ
resize n v = take n v ++ replicate (n - length v) 0

unfoldable pub read_available : Buffer → ℕ
read_available b = sub64 b.write_head b.read_head

unfoldable pub write_available_hint : Buffer → ℕ
write_available_hint b = sub64 (length b.bytes) b.write_head

unfoldable pub compact : Buffer → Buffer
compact b = record b {
  bytes = copy_at b.bytes 0 (drop b.read_head b.bytes);
  write_head = sub64 b.write_head b.read_head;
  read_head = 0;
}

-- `write_head + size > data.size()`
abbrev pub lacks_space : Buffer → ℕ → Bool
lacks_space b size = ltb (length b.bytes) (add64 b.write_head size)

-- `limit && n > *limit`
abbrev pub exceeds : Option ℕ → ℕ → Bool
exceeds none n = false
exceeds (some l) n = ltb l n

-- The first `if` of both space functions.
unfoldable pub compact_for : Buffer → ℕ → Buffer
compact_for b size = if lacks_space b size then compact b else b

grow_within : Buffer → ℕ → Bool × Buffer
grow_within b size =
    if lacks_space b size
    then (if exceeds b.limit (add64 b.write_head size)
        then (false, b)
        else (true, record b { bytes = resize (add64 b.write_head size) b.bytes }))
    else (true, b)

unfoldable pub ensure_space : Buffer → ℕ → Bool × Buffer
unfolding grow_within
ensure_space b size = grow_within (compact_for b size) size

-- `resize(*limit)`, which is called only where a limit is exceeded.
abbrev pub limit_or : Option ℕ → ℕ → ℕ
limit_or none n = n
limit_or (some l) n = l

grow_up_to : Buffer → ℕ → Buffer
grow_up_to b size =
    if lacks_space b size
    then (if exceeds b.limit (add64 b.write_head size)
        then record b { bytes = resize (limit_or b.limit 0) b.bytes }
        else record b { bytes = resize (add64 b.write_head size) b.bytes })
    else b

unfoldable pub try_ensure_space : Buffer → ℕ → Buffer
unfolding grow_up_to
try_ensure_space b size = grow_up_to (compact_for b size) size

-- The tail of `Write`: `std::copy_n` at the write head, which then moves on.
unfoldable pub put : Buffer → List ℕ → Buffer
put b src = record b {
  bytes = copy_at b.bytes b.write_head src;
  write_head = add64 b.write_head (length src);
}

-- What `Write` does with the answer of `EnsureSpace`.
abbrev write_if : List ℕ → Bool × Buffer → Bool × Buffer
write_if src (true, b) = (true, put b src)
write_if src (false, b) = (false, b)

unfoldable pub write : Buffer → List ℕ → Bool × Buffer
write b src = write_if src (ensure_space b (length src))

-- The size that `Reserve` returns; its pointer is the write head of the new buffer.
unfoldable pub reserve : Buffer → ℕ → ℕ × Buffer
reserve b size = let b' = try_ensure_space b size in (sub64 (length b'.bytes) b'.write_head, b')

unfoldable pub mark_written : Buffer → ℕ → Buffer
mark_written b size = record b { write_head = add64 b.write_head size }

unfoldable pub mark_read : Buffer → ℕ → Buffer
mark_read b size = record b { read_head = add64 b.read_head size }

-- `Read(uint8_t *io, size_t size)`; `none` is `false`, which leaves `io` alone.
unfoldable pub read : Buffer → ℕ → Option (List ℕ) × Buffer
read b size =
    if ltb b.write_head (add64 b.read_head size)
    then (none, b)
    else (some (take size (drop b.read_head b.bytes)), mark_read b size)

-- `Read(std::string &str, size_t len)`
unfoldable pub read_string : Buffer → ℕ → Option (List ℕ) × Buffer
read_string b len =
    if ltb (read_available b) len
    then (none, b)
    else (some (take len (drop b.read_head b.bytes)), mark_read b len)

unfoldable pub clear : Buffer → Buffer
clear b = record b { read_head = 0; write_head = 0 }

-- What a caller of `Reserve` does with the memory: fill it, and `MarkWritten`.
unfoldable pub fill : Buffer → List ℕ → Buffer
fill b src = mark_written (record b { bytes = copy_at b.bytes b.write_head src }) (length src)

abbrev fill_if : Option (List ℕ) × Buffer → Buffer → Bool × Buffer × Buffer
fill_if (some src, b) other = (true, b, fill other src)
fill_if (none, b) other = (false, b, other)

-- `Read(Buffer &other, size_t size)`: `Reserve` in the other buffer, a read into it, `MarkWritten`.
unfoldable pub read_into : Buffer → Buffer → ℕ → Bool × Buffer × Buffer
read_into b other size = let (space, other') = reserve other size in fill_if (read b size) other'

-- `GetData` and `GetString`: the bytes between the heads.
unfoldable pub get_data : Buffer → List ℕ
get_data b = take (b.write_head - b.read_head) (drop b.read_head b.bytes)
