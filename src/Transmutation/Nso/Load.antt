-- ===== src/Transmutation/Nso/Load.antt =====
-- What a loader finds in an NSO image that it reads through `TransmutationFile::Read`.
use twili.Base.{
  List, Option, [], ap, append_assoc, ap₂, arith, drop, drop-append_length, le32, length,
  length-append, length-copy_at, none, of_le32, of_le32-le32, refl, replicate, some, sym, take,
  take-append_length, u32_at, ℕ, ◌++◌, ◌+◌, ◌<◌, ◌^◌, ◌∙◌, ◌∷◌, ◌≡◌,
}
use twili.Transmutation.{Segment, read, result_ok}
use twili.Transmutation.Nso.{
  Header, build_id_of, header_bytes, header_size, make_header, nso_segments,
}
use twili.Transmutation.Serves.{AllServe, Serves, contents, memory_segment-Serves}
use twili.Transmutation.Reads.{read_lem}

-- A loader of the format: it reads the header, and then what the entry at `at` describes.
abbrev pub load_described : ℕ → List Segment → ℕ → ℕ × List ℕ → ℕ × List ℕ
load_described io_error file at (code, header) =
    read io_error file (u32_at header at) (u32_at header (at + 8))

abbrev pub load : ℕ → List Segment → ℕ → ℕ × List ℕ
load io_error file at = load_described io_error file at (read io_error file 0 header_size)

length-build_id_of : (build_id : Option (List ℕ)) → length (build_id_of build_id) ≡ 32
length-build_id_of none = refl
length-build_id_of (some build_id) = length-copy_at (replicate 32 0) 0 (take 32 build_id)

length-header_bytes : (h : Header) → length h.build_id ≡ 32 → length (header_bytes h) ≡ header_size
unfolding header_bytes
length-header_bytes h e = omega (arith, length-append h.build_id (replicate 160 0), e)

field : (n m : ℕ) → n ≡ m → m < 2 ^ 32 → of_le32 (le32 n) ≡ m
field n m e h = of_le32-le32 n (omega (arith, e)) ∙ e

slice : (a b c : List ℕ) → take (length b) (drop (length a) (a ++ (b ++ c))) ≡ b
slice a b c =
    ap (take (length b)) (drop-append_length (length a) a (b ++ c) refl)
    ∙ take-append_length (length b) b c refl

module _ (text rodata data_segment : Segment) (t r d : List ℕ) (bss_size : ℕ)
    (build_id : Option (List ℕ)) (st : Serves text t) (sr : Serves rodata r)
    (sd : Serves data_segment d)
    (small : header_size + length t + length r + length d < 2 ^ 32) where
  abbrev file : List Segment
  file = nso_segments text rodata data_segment bss_size build_id

  abbrev h : Header
  h = make_header text rodata data_segment bss_size build_id

  abbrev hb : List ℕ
  hb = header_bytes h

  abbrev cs : List (List ℕ)
  cs = hb ∷ t ∷ r ∷ d ∷ []

  hb_size : length hb ≡ header_size
  unfolding make_header
  hb_size = length-header_bytes h (length-build_id_of build_id)

  file-AllServe : AllServe file cs
  unfolding nso_segments
  file-AllServe = (memory_segment-Serves hb, (st, (sr, (sd, record {}))))

  total : length (contents cs) ≡ header_size + length t + length r + length d
  total = omega (
    arith,
    hb_size,
    length-append hb (contents (t ∷ r ∷ d ∷ [])),
    length-append t (contents (r ∷ d ∷ [])),
    length-append r (contents (d ∷ [])),
    length-append d [],
  )

  text_size : u32_at hb 24 ≡ length t
  unfolding make_header header_bytes
  text_size =
      field h.text_header.decompressed_size (length t) (omega (arith, st.size_is)) (omega arith)

  text_at : u32_at hb 16 ≡ header_size
  unfolding make_header header_bytes
  text_at = field h.text_header.file_offset header_size (omega arith) (omega arith)

  rodata_size : u32_at hb 40 ≡ length r
  unfolding make_header header_bytes
  rodata_size =
      field h.rodata_header.decompressed_size (length r) (omega (arith, sr.size_is)) (omega arith)

  rodata_at : u32_at hb 32 ≡ header_size + length t
  unfolding make_header header_bytes
  rodata_at =
      field h.rodata_header.file_offset (header_size + length t) (omega (arith, st.size_is))
        (omega arith)

  data_size : u32_at hb 56 ≡ length d
  unfolding make_header header_bytes
  data_size =
      field h.data_header.decompressed_size (length d) (omega (arith, sd.size_is)) (omega arith)

  data_at : u32_at hb 48 ≡ header_size + length t + length r
  unfolding make_header header_bytes
  data_at =
      field h.data_header.file_offset (header_size + length t + length r)
        (omega (arith, st.size_is, sr.size_is)) (omega arith)

  bounded : length (contents cs) < 2 ^ 64
  bounded = omega (arith, total)

  load_lem :
      (io_error at : ℕ) (a b c : List ℕ)
      → contents cs ≡ a ++ (b ++ c)
      → u32_at hb at ≡ length a
      → u32_at hb (at + 8) ≡ length b
      → length b < 2 ^ 32
      → load io_error file at ≡ (result_ok, b)
  load_lem io_error at a b c e o n lim =
      ap (load_described io_error file at) (
        read_lem io_error file cs 0 header_size file-AllServe bounded (omega arith)
        ∙ ap (λ x. (result_ok, x))
            (take-append_length header_size hb (t ++ (r ++ (d ++ []))) (sym hb_size)))
      ∙ ap₂ (λ x y. read io_error file x y) o n
      ∙ read_lem io_error file cs (length a) (length b) file-AllServe bounded (omega arith)
      ∙ ap (λ x. (result_ok, x)) (ap (λ x. take (length b) (drop (length a) x)) e ∙ slice a b c)

-- A loader that reads the image's header, and then the range that the header's entry of a segment
-- gives, gets the whole of the text segment, of the read-only segment and of the data segment,
-- where each hands out its contents and the image is below 4 GiB.
pub nso_segments-load :
    (io_error : ℕ) (text rodata data_segment : Segment) (t r d : List ℕ) (bss_size : ℕ)
    (build_id : Option (List ℕ))
    → Serves text t
    → Serves rodata r
    → Serves data_segment d
    → header_size + length t + length r + length d < 2 ^ 32
    → let file = nso_segments text rodata data_segment bss_size build_id in
      (load io_error file 16 ≡ (result_ok, t))
      × (load io_error file 32 ≡ (result_ok, r))
      × (load io_error file 48 ≡ (result_ok, d))
nso_segments-load io_error text rodata data_segment t r d bss_size build_id st sr sd small = (
  lem 16 head t (r ++ (d ++ [])) refl
      (text_at text rodata data_segment t r d bss_size build_id st sr sd small ∙ sym size)
      (text_size text rodata data_segment t r d bss_size build_id st sr sd small) (omega arith),
  lem 32 (head ++ t) r (d ++ []) (sym (append_assoc head t (r ++ (d ++ []))))
      (rodata_at text rodata data_segment t r d bss_size build_id st sr sd small
        ∙ omega (arith, size, length-append head t))
      (rodata_size text rodata data_segment t r d bss_size build_id st sr sd small) (omega arith),
  lem 48 (head ++ (t ++ r)) d []
      (sym
        (append_assoc head (t ++ r) (d ++ []) ∙ ap (λ x. head ++ x) (append_assoc t r (d ++ []))))
      (data_at text rodata data_segment t r d bss_size build_id st sr sd small
        ∙ omega (arith, size, length-append head (t ++ r), length-append t r))
      (data_size text rodata data_segment t r d bss_size build_id st sr sd small) (omega arith),
)
  where
    head : List ℕ
    head = hb text rodata data_segment t r d bss_size build_id st sr sd small

    size : length head ≡ header_size
    size = hb_size text rodata data_segment t r d bss_size build_id st sr sd small

    lem :
        (at : ℕ) (a b c : List ℕ)
        → contents (cs text rodata data_segment t r d bss_size build_id st sr sd small)
          ≡ a ++ (b ++ c)
        → u32_at head at ≡ length a
        → u32_at head (at + 8) ≡ length b
        → length b < 2 ^ 32
        → load io_error (nso_segments text rodata data_segment bss_size build_id) at
          ≡ (result_ok, b)
    lem at a b c =
        load_lem text rodata data_segment t r d bss_size build_id st sr sd small io_error at a b c
