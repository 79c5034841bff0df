-- ===== src/Transmutation/Nro.antt =====
-- twili/process/fs/NRONSOTransmutationFile.cpp and .hpp: an NRO file made into an NSO image.
pub mod Convert
use twili.Base.{
  List, Option, drop, if◌then◌else◌, length, ltb, none, not, some, take, u32_at, ℕ, ◌+◌, ◌==◌, ◌||◌,
}
use twili.Transmutation.{ProcessFile, Segment, backed_segment, result_ok}
use twili.Transmutation.Nso.{nso_segments}

pub record NroSegmentHeader : Type 0 where
  pub offset : ℕ
  pub size : ℕ

-- The fields of `NROHeader` that are used: `segments` is an array of three.
pub record NroHeader : Type 0 where
  pub magic : ℕ
  pub text : NroSegmentHeader
  pub rodata : NroSegmentHeader
  pub data_segment : NroSegmentHeader
  pub bss_size : ℕ
  pub build_id : List ℕ

abbrev pub nro_header_size : ℕ
nro_header_size = 112

abbrev segment_header_at : List ℕ → ℕ → NroSegmentHeader
segment_header_at bytes i = record { offset = u32_at bytes i; size = u32_at bytes (i + 4) }

-- The structure that lies in the bytes that have been read over it.
unfoldable pub nro_header_of : List ℕ → NroHeader
nro_header_of bytes = record {
  magic = u32_at bytes 0;
  text = segment_header_at bytes 16;
  rodata = segment_header_at bytes 24;
  data_segment = segment_header_at bytes 32;
  bss_size = u32_at bytes 40;
  build_id = take 32 (drop 48 bytes);
}

abbrev pub nro_magic : ℕ
nro_magic = 810504782

-- `NROHeader::Read`; `none` is `TWILI_ERR_INVALID_NRO`.
abbrev read_nro_with : ℕ × List ℕ → Option NroHeader
read_nro_with (code, got) =
    if not (code == result_ok)
      || ltb (length got) nro_header_size
      || not ((nro_header_of got).magic == nro_magic)
    then none
    else some (nro_header_of got)

unfoldable pub read_nro_header : ProcessFile → Option NroHeader
read_nro_header nro = read_nro_with (nro.read 16 nro_header_size)

abbrev nro_segment_of : ProcessFile → NroSegmentHeader → Segment
nro_segment_of nro h = backed_segment nro h.offset h.size

abbrev create_with : ProcessFile → Option NroHeader → Option (List Segment)
create_with nro none = none
create_with nro (some header) = some (
    nso_segments (nro_segment_of nro header.text) (nro_segment_of nro header.rodata)
      (nro_segment_of nro header.data_segment) header.bss_size (some header.build_id))

-- `Create`: the segments of the new file.
unfoldable pub create : ProcessFile → Option (List Segment)
create nro = create_with nro (read_nro_header nro)
