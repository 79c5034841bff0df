-- ===== src/Transmutation/Tests.antt =====
-- Runs of transmuted files, and each theorem on TransmutationFile.cpp at one.
use twili.Base.{List, [], arith, drop, le32, refl, replicate, some, take, ℕ, ◌++◌, ◌∷◌, ◌≡◌}
use twili.Transmutation.{
  ProcessFile, Segment, backed_segment, memory_segment, read, read_from, result_ok,
}
use twili.Transmutation.Serves.{AllServe, FileServes, backed_segment-Serves, memory_segment-Serves}
use twili.Transmutation.Reads.{read_lem}
use twili.Transmutation.Nro.{create, nro_magic}
use twili.Transmutation.Nro.Convert.{IsNro, create-load}
use twili.Transmutation.Nso.Load.{load}

abbrev io_error : ℕ
io_error = 7

-- A file of ten bytes, and one whose reads fail.
abbrev digits : List ℕ
digits = 0 ∷ 1 ∷ 2 ∷ 3 ∷ 4 ∷ 5 ∷ 6 ∷ 7 ∷ 8 ∷ 9 ∷ []

abbrev digits_file : ProcessFile
digits_file = record { read = λ offset n. (result_ok, take n (drop offset digits)) }

abbrev broken_file : ProcessFile
broken_file = record { read = λ offset n. (9, []) }

-- Bytes 4 to 6 of the file, and then two bytes from memory.
abbrev two_segments : List Segment
two_segments = backed_segment digits_file 4 3 ∷ memory_segment (40 ∷ 41 ∷ []) ∷ []

abbrev two_contents : List (List ℕ)
two_contents = (4 ∷ 5 ∷ 6 ∷ []) ∷ (40 ∷ 41 ∷ []) ∷ []

across : read io_error two_segments 1 3 ≡ (result_ok, 5 ∷ 6 ∷ 40 ∷ [])
unfolding read read_from
across = refl

past_end : read io_error two_segments 4 9 ≡ (result_ok, 41 ∷ [])
unfolding read read_from
past_end = refl

fails : read io_error (backed_segment broken_file 0 3 ∷ []) 0 2 ≡ (9, [])
unfolding read read_from
fails = refl

-- A segment that claims more than its file has.
short : read io_error (backed_segment digits_file 8 3 ∷ []) 0 3 ≡ (io_error, 8 ∷ 9 ∷ [])
unfolding read read_from
short = refl

digits_file-FileServes : FileServes digits_file digits
digits_file-FileServes = record { reads = λ offset n h. refl }

two_segments-AllServe : AllServe two_segments two_contents
two_segments-AllServe = (
  backed_segment-Serves digits_file digits 4 3 digits_file-FileServes (omega arith) (omega arith),
  (memory_segment-Serves (40 ∷ 41 ∷ []), record {}),
)

read_lem_example : read io_error two_segments 1 3 ≡ (result_ok, 5 ∷ 6 ∷ 40 ∷ [])
read_lem_example =
    read_lem io_error two_segments two_contents 1 3 two_segments-AllServe (omega arith)
      (omega arith)

-- An NRO with three segments of two bytes behind its header.
abbrev tiny_nro : List ℕ
tiny_nro =
    replicate 16 0
    ++ (le32 nro_magic
        ++ (replicate 12 0
            ++ (le32 128
                ++ (le32 2
                    ++ (le32 130
                        ++ (le32 2
                            ++ (le32 132
                                ++ (le32 2
                                    ++ (replicate 72 0 ++ (1 ∷ 2 ∷ 3 ∷ 4 ∷ 5 ∷ 6 ∷ []))))))))))

abbrev tiny_file : ProcessFile
tiny_file = record { read = λ offset n. (result_ok, take n (drop offset tiny_nro)) }

tiny_nro-IsNro : IsNro tiny_nro
tiny_nro-IsNro = record {
  has_header = omega arith;
  small = omega arith;
  has_magic = refl;
  text_fits = omega arith;
  rodata_fits = omega arith;
  data_fits = omega arith;
  image_small = omega arith;
}

create-load_example :
    (image : List Segment) × (create tiny_file ≡ some image)
    × (load io_error image 16 ≡ (result_ok, 1 ∷ 2 ∷ []))
    × (load io_error image 32 ≡ (result_ok, 3 ∷ 4 ∷ []))
    × (load io_error image 48 ≡ (result_ok, 5 ∷ 6 ∷ []))
create-load_example =
    create-load io_error tiny_nro tiny_file tiny_nro-IsNro (record { reads = λ offset n h. refl })
