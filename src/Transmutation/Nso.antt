-- ===== src/Transmutation/Nso.antt =====
-- twili/process/fs/NSOTransmutationFile.cpp and .hpp: an NSO image put together in memory, that is
-- the header and then the text, read-only and data segments.
pub mod Load
use twili.Base.{
  List, Option, [], add64, copy_at, le32, none, replicate, some, take, ℕ, ◌%◌, ◌++◌, ◌^◌, ◌∷◌,
}
use twili.Transmutation.{Segment, memory_segment}

-- `SegmentHeader`, with `uint32_t` fields.
pub record SegmentHeader : Type 0 where
  pub file_offset : ℕ
  pub memory_offset : ℕ
  pub decompressed_size : ℕ

-- The fields of `Header` that the constructor sets; the others keep their initial values.
pub record Header : Type 0 where
  pub text_header : SegmentHeader
  pub rodata_header : SegmentHeader
  pub data_header : SegmentHeader
  pub bss_size : ℕ
  pub build_id : List ℕ

abbrev pub header_size : ℕ
header_size = 256

-- Storing a `size_t` in a `uint32_t`.
abbrev pub u32 : ℕ → ℕ
u32 n = n % 2 ^ 32

-- `build_id` is a pointer, which may be null, to 0x20 bytes.
abbrev pub build_id_of : Option (List ℕ) → List ℕ
build_id_of none = replicate 32 0
build_id_of (some build_id) = copy_at (replicate 32 0) 0 (take 32 build_id)

unfoldable pub make_header : Segment → Segment → Segment → ℕ → Option (List ℕ) → Header
make_header text rodata data_segment bss_size build_id =
    let text_header : SegmentHeader = record {
      file_offset = u32 header_size;
      memory_offset = u32 0;
      decompressed_size = u32 text.size;
    } in
    let file_offset_1 = add64 header_size text_header.decompressed_size in
    let memory_offset_1 = add64 0 text_header.decompressed_size in
    let rodata_header : SegmentHeader = record {
      file_offset = u32 file_offset_1;
      memory_offset = u32 memory_offset_1;
      decompressed_size = u32 rodata.size;
    } in
    let file_offset_2 = add64 file_offset_1 rodata_header.decompressed_size in
    let memory_offset_2 = add64 memory_offset_1 rodata_header.decompressed_size in
    let data_header : SegmentHeader = record {
      file_offset = u32 file_offset_2;
      memory_offset = u32 memory_offset_2;
      decompressed_size = u32 data_segment.size;
    } in
    record {
      text_header = text_header;
      rodata_header = rodata_header;
      data_header = data_header;
      bss_size = u32 bss_size;
      build_id = build_id_of build_id;
    }

abbrev pub segment_header_bytes : SegmentHeader → List ℕ → List ℕ
segment_header_bytes h rest =
    le32 h.file_offset ++ (le32 h.memory_offset ++ (le32 h.decompressed_size ++ rest))

-- `Header` as it lies in memory: magic, version, reserved, flags, the text header, module_offset,
-- the rodata header, module_file_size, the data header, bss_size, build_id and 0xa0 zeros.
unfoldable pub header_bytes : Header → List ℕ
header_bytes h =
    le32 810505038
    ++ (replicate 12 0
        ++ segment_header_bytes h.text_header (
            le32 0
            ++ segment_header_bytes h.rodata_header (
                le32 0
                ++ segment_header_bytes h.data_header
                    (le32 h.bss_size ++ (h.build_id ++ replicate 160 0)))))

unfoldable pub nso_segments : Segment → Segment → Segment → ℕ → Option (List ℕ) → List Segment
nso_segments text rodata data_segment bss_size build_id =
    memory_segment (header_bytes (make_header text rodata data_segment bss_size build_id))
    ∷ text
    ∷ rodata
    ∷ data_segment
    ∷ []
