-- ===== src/Protocol.antt =====
-- common/Protocol.hpp: a `MessageHeader` is the 32 bytes of its structure.
use twili.Base.{List, u32_at, u64_at, ℕ, ◌%◌, ◌*◌, ◌^◌}

abbrev pub header_size : ℕ
header_size = 32

-- `payload_size` and `object_count` of a `MessageHeader`.
abbrev pub payload_size : List ℕ → ℕ
payload_size mh = u64_at mh 16

abbrev pub object_count : List ℕ → ℕ
object_count mh = u32_at mh 24

-- `mh.object_count * sizeof(uint32_t)`
abbrev pub ids_size : List ℕ → ℕ
ids_size mh = object_count mh * 4 % 2 ^ 64
