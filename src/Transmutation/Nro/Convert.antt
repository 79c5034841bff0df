-- ===== src/Transmutation/Nro/Convert.antt =====
-- What a loader finds in the NSO image of an NRO file, and which files are refused.
use twili.Base.{
  Bool, List, ap, ap₂, arith, drop, false, if◌then◌else◌, inl, inr, length, length-drop,
  length-take, le→not_ltb, ltb, none, not, refl, some, take, true, u32_at, u32_at-take-drop, ℕ, ◌+◌,
  ◌<◌, ◌==◌, ◌^◌, ◌||◌, ◌↔◌, ◌∙◌, ◌≡◌, ◌≢◌, ◌≤◌, ◌⊎◌,
}
use twili.Transmutation.Nso.{header_size, nso_segments}
use twili.Transmutation.Nro.{
  NroHeader, create, create_with, nro_header_of, nro_header_size, nro_magic, read_nro_header,
  read_nro_with,
}
use twili.Transmutation.{ProcessFile, Segment, backed_segment, result_ok}
use twili.Transmutation.Serves.{FileServes, Serves, backed_segment-Serves}
use twili.Transmutation.Nso.Load.{load, nso_segments-load}

-- The segment that the NRO's header gives in the eight bytes at `at`.
abbrev pub nro_segment : List ℕ → ℕ → List ℕ
nro_segment nro at = take (u32_at nro (at + 4)) (drop (u32_at nro at) nro)

abbrev pub SegmentFits : List ℕ → ℕ → Type 0
SegmentFits nro at = u32_at nro at + u32_at nro (at + 4) ≤ length nro

-- An NRO: its magic at 0x10, and three segments inside the file. Its image is below 4 GiB.
pub record IsNro (nro : List ℕ) : Type 0 where
  pub has_header : 128 ≤ length nro
  pub small : length nro < 2 ^ 64
  pub has_magic : u32_at nro 16 ≡ nro_magic
  pub text_fits : SegmentFits nro 32
  pub rodata_fits : SegmentFits nro 40
  pub data_fits : SegmentFits nro 48
  pub image_small : header_size + u32_at nro 36 + u32_at nro 44 + u32_at nro 52 < 2 ^ 32

length-nro_segment :
    (nro : List ℕ) (at : ℕ) → SegmentFits nro at → length (nro_segment nro at) ≡ u32_at nro (at + 4)
length-nro_segment nro at f = omega (
  arith,
  length-take (u32_at nro (at + 4)) (drop (u32_at nro at) nro),
  length-drop (u32_at nro at) nro,
)

module _ (nro : List ℕ) (file : ProcessFile) (v : IsNro nro) (s : FileServes file nro) where
  abbrev head : List ℕ
  head = take nro_header_size (drop 16 nro)

  abbrev part : ℕ → Segment
  part at = backed_segment file (u32_at nro at) (u32_at nro (at + 4))

  abbrev image : List Segment
  image =
      nso_segments (part 32) (part 40) (part 48) (u32_at head 40) (some (take 32 (drop 48 head)))

  read_nro_with-head : read_nro_with (result_ok, head) ≡ some (nro_header_of head)
  unfolding nro_header_of
  read_nro_with-head = rw (long, magic)
    where
      long : ltb (length head) nro_header_size ≡ false
      long = le→not_ltb (length head) nro_header_size (
          omega
            (arith, length-take nro_header_size (drop 16 nro), length-drop 16 nro, v.has_header))

      magic : (u32_at head 0 == nro_magic) ≡ true
      magic =
          let m : u32_at head 0 ≡ nro_magic =
            u32_at-take-drop nro nro_header_size 16 0 (omega arith) ∙ v.has_magic in
          ground arith

  read_nro_header_lem : read_nro_header file ≡ some (nro_header_of head)
  unfolding read_nro_header
  read_nro_header_lem =
      ap read_nro_with (s.reads 16 nro_header_size (omega (arith, v.has_header)))
      ∙ read_nro_with-head

  at_file : (i : ℕ) → i + 4 ≤ nro_header_size → u32_at head i ≡ u32_at nro (16 + i)
  at_file i h = u32_at-take-drop nro nro_header_size 16 i h

  part_lem :
      (i : ℕ)
      → i + 8 ≤ nro_header_size
      → backed_segment file (u32_at head i) (u32_at head (i + 4)) ≡ part (16 + i)
  part_lem i h =
      ap₂ (backed_segment file) (at_file i (omega arith))
        (at_file (i + 4) (omega arith) ∙ ap (u32_at nro) (omega arith))

  create-image : create file ≡ some image
  unfolding create nro_header_of
  create-image =
      ap (create_with file) read_nro_header_lem
      ∙ ap
          (λ x. some (
            nso_segments x (backed_segment file (u32_at head 24) (u32_at head 28))
              (backed_segment file (u32_at head 32) (u32_at head 36)) (u32_at head 40)
              (some (take 32 (drop 48 head)))))
          (part_lem 16 (omega arith))
      ∙ ap
          (λ x. some (
            nso_segments (part 32) x (backed_segment file (u32_at head 32) (u32_at head 36))
              (u32_at head 40) (some (take 32 (drop 48 head)))))
          (part_lem 24 (omega arith))
      ∙ ap
          (λ x.
            some
              (nso_segments (part 32) (part 40) x (u32_at head 40) (some (take 32 (drop 48 head)))))
          (part_lem 32 (omega arith))

  part-Serves : (at : ℕ) → SegmentFits nro at → Serves (part at) (nro_segment nro at)
  part-Serves at f =
      backed_segment-Serves file nro (u32_at nro at) (u32_at nro (at + 4)) s f v.small

-- An NRO is converted, and a loader that reads the image by its header gets the three segments
-- that the NRO's header describes.
pub create-load :
    (io_error : ℕ) (nro : List ℕ) (file : ProcessFile)
    → IsNro nro
    → FileServes file nro
    → (image : List Segment) × (create file ≡ some image)
      × (load io_error image 16 ≡ (result_ok, nro_segment nro 32))
      × (load io_error image 32 ≡ (result_ok, nro_segment nro 40))
      × (load io_error image 48 ≡ (result_ok, nro_segment nro 48))
create-load io_error nro file v s = (image nro file v s, create-image nro file v s, l.0, l.1, l.2)
  where
    p : (at : ℕ) → SegmentFits nro at → Serves (part nro file v s at) (nro_segment nro at)
    p = part-Serves nro file v s

    l :
        (load io_error (image nro file v s) 16 ≡ (result_ok, nro_segment nro 32))
        × (load io_error (image nro file v s) 32 ≡ (result_ok, nro_segment nro 40))
        × (load io_error (image nro file v s) 48 ≡ (result_ok, nro_segment nro 48))
    l =
        nso_segments-load io_error (part nro file v s 32) (part nro file v s 40)
          (part nro file v s 48) (nro_segment nro 32) (nro_segment nro 40) (nro_segment nro 48)
          (u32_at (head nro file v s) 40) (some (take 32 (drop 48 (head nro file v s))))
          (p 32 v.text_fits) (p 40 v.rodata_fits) (p 48 v.data_fits)
          (omega (
            arith,
            length-nro_segment nro 32 v.text_fits,
            length-nro_segment nro 40 v.rodata_fits,
            length-nro_segment nro 48 v.data_fits,
            v.image_small,
          ))

-- The three tests of a header, by what fails.
IsRefused : Bool → Bool → Bool → Type 0
IsRefused a b c = (a ≡ false) ⊎ (b ≡ true) ⊎ (c ≡ false)

create_with-refuses :
    (file : ProcessFile) (h : NroHeader) (a b c : Bool)
    → (create_with file (if not a || b || not c then none else some h) ≡ none) ↔ IsRefused a b c
unfolding IsRefused
create_with-refuses file h true true true = (λ e. inr (inl refl), λ e. refl)
create_with-refuses file h true true false = (λ e. inr (inl refl), λ e. refl)
create_with-refuses file h true false true = (λ e. absurd (cc), λ e. absurd (ground arith))
create_with-refuses file h true false false = (λ e. inr (inr refl), λ e. refl)
create_with-refuses file h false b c = (λ e. inl refl, λ e. refl)

refused_lem :
    (code : ℕ) (got : List ℕ)
    → IsRefused (code == result_ok) (ltb (length got) nro_header_size) (u32_at got 0 == nro_magic)
      ↔ ((code ≢ result_ok) ⊎ (length got < nro_header_size) ⊎ (u32_at got 0 ≢ nro_magic))
unfolding IsRefused
refused_lem code got = ground arith

-- A file is refused exactly where the read of its header fails, is short, or finds another magic.
pub create-refuses :
    (file : ProcessFile)
    → let (code, got) = file.read 16 nro_header_size in
      (create file ≡ none)
      ↔ ((code ≢ result_ok) ⊎ (length got < nro_header_size) ⊎ (u32_at got 0 ≢ nro_magic))
unfolding create read_nro_header nro_header_of
create-refuses file = cases (file.read 16 nro_header_size)
  where
    cases :
        (r : ℕ × List ℕ)
        → (create_with file (read_nro_with r) ≡ none)
          ↔ ((r.0 ≢ result_ok) ⊎ (length r.1 < nro_header_size) ⊎ (u32_at r.1 0 ≢ nro_magic))
    cases (code, got) =
        let t =
          create_with-refuses file (nro_header_of got) (code == result_ok)
            (ltb (length got) nro_header_size) (u32_at got 0 == nro_magic) in
        let u = refused_lem code got in (λ e. u.0 (t.0 e), λ e. t.1 (u.1 e))
