-- ===== src/Transmutation/Serves.antt =====
-- Segments that hand out their contents: those in memory, and those in a file.
use twili.Base.{
  List, [], add64, ap, arith, drop, drop-drop, drop-take, length, length-drop, length-take, refl,
  take, take-take, ℕ, ◌++◌, ◌+◌, ◌-◌, ◌<◌, ◌^◌, ◌∙◌, ◌∷◌, ◌≡◌, ◌≤◌,
}
use twili.Transmutation.{ProcessFile, Segment, backed_segment, memory_segment, result_ok}

-- The segment hands out the bytes of `content`, wherever it is read in range.
pub record Serves (i : Segment) (content : List ℕ) : Type 0 where
  pub size_is : i.size ≡ length content
  pub reads :
      (offset n : ℕ)
      → offset + n ≤ length content
      → i.read offset n ≡ (result_ok, take n (drop offset content))

abbrev pub AllServe : List Segment → List (List ℕ) → Type 0
AllServe [] [] = Unit {0}
AllServe [] (c ∷ cs) = ⊥
AllServe (i ∷ is) [] = ⊥
AllServe (i ∷ is) (c ∷ cs) = Serves i c × AllServe is cs

abbrev pub contents : List (List ℕ) → List ℕ
contents [] = []
contents (c ∷ cs) = c ++ contents cs

pub memory_segment-Serves : (buffer : List ℕ) → Serves (memory_segment buffer) buffer
memory_segment-Serves buffer = record { size_is = refl; reads = λ offset n h. refl }

-- What is relied on of a file: a read in range succeeds, with the bytes of `content`.
pub record FileServes (f : ProcessFile) (content : List ℕ) : Type 0 where
  pub reads :
      (offset n : ℕ)
      → offset + n ≤ length content
      → f.read offset n ≡ (result_ok, take n (drop offset content))

-- A segment of a file holds the file's bytes in its range.
pub backed_segment-Serves :
    (f : ProcessFile) (content : List ℕ) (file_offset size : ℕ)
    → FileServes f content
    → file_offset + size ≤ length content
    → length content < 2 ^ 64
    → Serves (backed_segment f file_offset size) (take size (drop file_offset content))
backed_segment-Serves f content file_offset size s h small = record {
  size_is = omega (arith, exact);
  reads = reads;
}
  where
    exact : length (take size (drop file_offset content)) ≡ size
    exact =
        omega (arith, length-take size (drop file_offset content), length-drop file_offset content)

    reads :
        (offset n : ℕ)
        → offset + n ≤ length (take size (drop file_offset content))
        → f.read (add64 file_offset offset) n
          ≡ (result_ok, take n (drop offset (take size (drop file_offset content))))
    reads offset n b =
        ap (λ o. f.read o n) no_wrap
        ∙ s.reads (file_offset + offset) n (omega (arith, exact))
        ∙ ap (λ x. (result_ok, x)) inner
      where
        no_wrap : add64 file_offset offset ≡ file_offset + offset
        no_wrap = omega (arith, exact)

        inner :
            take n (drop (file_offset + offset) content)
            ≡ take n (drop offset (take size (drop file_offset content)))
        inner = rw (
          drop-take offset size (drop file_offset content) (omega (arith, exact)),
          drop-drop file_offset offset content,
          take-take n (size - offset) (drop (file_offset + offset) content) (omega (arith, exact)),
        )
