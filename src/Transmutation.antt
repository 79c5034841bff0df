-- ===== src/Transmutation.antt =====
-- twili/process/fs/TransmutationFile.cpp and NSOTransmutationFile.cpp: a file put together from
-- segments. A segment, a file behind one and their `Read` are records of functions, as the source
-- has abstract classes; a read returns its result code with the bytes that it has read.
pub mod Serves
pub mod Reads
pub mod Nso
pub mod Nro
mod Tests
use twili.Base.{
  List, [], add64, drop, if◌then◌else◌, length, ltb, not, sub64, take, ℕ, ◌++◌, ◌==◌, ◌∷◌,
}

-- `ProcessFile`: `Read(offset, size, out, size_out)`.
pub record ProcessFile : Type 0 where
  pub read : ℕ → ℕ → ℕ × List ℕ

pub record Segment : Type 0 where
  pub read : ℕ → ℕ → ℕ × List ℕ
  pub size : ℕ

-- `RESULT_OK` is 0; `TWILI_ERR_IO_ERROR` is some other code.
abbrev pub result_ok : ℕ
result_ok = 0

abbrev pub backed_segment : ProcessFile → ℕ → ℕ → Segment
backed_segment file file_offset size = record {
  read = λ offset n. file.read (add64 file_offset offset) n;
  size = size;
}

-- `MemorySegment`: `std::copy_n` reads the buffer of `size` bytes.
abbrev pub memory_segment : List ℕ → Segment
memory_segment buffer = record {
  read = λ offset n. (result_ok, take n (drop offset buffer));
  size = length buffer;
}

abbrev read_size : ℕ → ℕ → ℕ
read_size seg_size size = if ltb size seg_size then size else seg_size

module _ (io_error : ℕ) where
  -- The loop of `Read` over the segments that are left: what it returns, and the bytes at `out`.
  unfoldable pub read_from : List Segment → ℕ → ℕ → ℕ → List ℕ → ℕ × List ℕ
  read_from [] segment_begin offset size out = (result_ok, out)
  read_from (i ∷ rest) segment_begin offset size out =
      let segment_end = add64 segment_begin i.size in
      let seg_size = read_size (sub64 segment_end offset) size in
      let (code, got) = i.read (sub64 offset segment_begin) seg_size in
      let goes_on =
        read_from rest segment_end (add64 offset seg_size) (sub64 size seg_size) (out ++ got) in
      let skips = read_from rest segment_end offset size out in
      if size == 0
      then (result_ok, out)
      else if ltb offset segment_end
      then (if not (code == result_ok)
          then (code, out)
          else if ltb (length got) seg_size
          then (io_error, out ++ got)
          else goes_on)
      else skips

  unfoldable pub read : List Segment → ℕ → ℕ → ℕ × List ℕ
  read segments offset size = read_from segments 0 offset size []

unfoldable pub get_size : List Segment → ℕ
get_size [] = 0
get_size (i ∷ segments) = add64 i.size (get_size segments)
