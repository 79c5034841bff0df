-- ===== src/Transmutation/Reads.antt =====
-- `TransmutationFile::Read` and `GetSize` against the contents of the segments.
use twili.Base.{
  Bool-cases, List, [], add64, ap, append-nil, append_assoc, ap₂, arith, drop, drop-all,
  drop-append, drop-append_past, false, inl, inr, length, length-append, length-drop, length-take,
  le→not_ltb, ltb, ltb→lt, min, refl, sub64, suc, sym, take, take-all, take-append_split, true,
  zero, ℕ, ◌++◌, ◌+◌, ◌-◌, ◌<◌, ◌==◌, ◌^◌, ◌∙◌, ◌∷◌, ◌≡◌, ◌≤◌, ◌⊎◌,
}
use twili.Transmutation.{Segment, get_size, read, read_from, read_size, result_ok}
use twili.Transmutation.Serves.{AllServe, Serves, contents}

-- What a read leaves to do behind its first segment.
read_split :
    (c rest : List ℕ) (d n : ℕ)
    → d ≤ length c
    → let k = min n (length c - d) in
      take n (drop d (c ++ rest)) ≡ take k (drop d c) ++ take (n - k) rest
read_split c rest d n h =
    rw (drop-append d c rest h, take-append_split n (drop d c) rest)
      (ap₂ (λ xs m. xs ++ take m rest) first (omega (arith, length-drop d c)))
  where
    first : take n (drop d c) ≡ take (min n (length c - d)) (drop d c)
    first = elim (Bool-cases (ltb n (length c - d))) [
      | inl e ↦ ap (λ k. take k (drop d c)) (omega (arith, ltb→lt n (length c - d) e))
      | inr e ↦
          let le : length c - d ≤ n = ground arith in
          take-all n (drop d c) (omega (arith, length-drop d c))
          ∙ sym (take-all (min n (length c - d)) (drop d c) (omega (arith, length-drop d c)))
    ]

module _ (io_error : ℕ) where
  read_from-nothing :
      (is : List Segment) (segment_begin offset : ℕ) (out : List ℕ)
      → read_from io_error is segment_begin offset 0 out ≡ (result_ok, out)
  unfolding read_from
  read_from-nothing [] segment_begin offset out = refl
  read_from-nothing (i ∷ is) segment_begin offset out = refl

  read_from-nil :
      (segment_begin offset size : ℕ) (out : List ℕ)
      → read_from io_error [] segment_begin offset size out ≡ (result_ok, out)
  unfolding read_from
  read_from-nil segment_begin offset size out = refl

  read_from-first :
      (i : Segment) (is : List Segment) (c : List ℕ) (segment_begin offset size : ℕ) (out : List ℕ)
      → Serves i c
      → segment_begin ≤ offset
      → segment_begin + length c < 2 ^ 64
      → offset < segment_begin + length c
      → 0 < size
      → size < 2 ^ 64
      → let k = min size (length c - (offset - segment_begin)) in
        read_from io_error (i ∷ is) segment_begin offset size out
        ≡ read_from io_error is
            (segment_begin + length c)
            (offset + k)
            (size - k)
            (out ++ take k (drop (offset - segment_begin) c))
  unfolding read_from
  read_from-first i is c segment_begin offset size out s b small inside pos lim =
      rw (nonzero, ends, within, off, amount, got, enough, moved, remaining)
    where
      d : ℕ
      d = offset - segment_begin

      k : ℕ
      k = min size (length c - d)

      nonzero : (size == 0) ≡ false
      nonzero = ground arith

      ends : add64 segment_begin i.size ≡ segment_begin + length c
      ends = omega (arith, s.size_is)

      within : ltb offset (segment_begin + length c) ≡ true
      within = ground arith

      off : sub64 offset segment_begin ≡ d
      off = omega arith

      left : sub64 (segment_begin + length c) offset ≡ length c - d
      left = omega arith

      amount : read_size (sub64 (segment_begin + length c) offset) size ≡ k
      amount = ap (λ x. read_size x size) left ∙ smaller
        where
          smaller : read_size (length c - d) size ≡ k
          smaller = ground arith

      got : i.read d k ≡ (result_ok, take k (drop d c))
      got = s.reads d k (omega arith)

      enough : ltb (length (take k (drop d c))) k ≡ false
      enough =
          le→not_ltb (length (take k (drop d c))) k
            (omega (arith, length-take k (drop d c), length-drop d c))

      moved : add64 offset k ≡ offset + k
      moved = omega arith

      remaining : sub64 size k ≡ size - k
      remaining = omega arith

  read_from-skip :
      (i : Segment) (is : List Segment) (c : List ℕ) (segment_begin offset size : ℕ) (out : List ℕ)
      → Serves i c
      → segment_begin + length c < 2 ^ 64
      → segment_begin + length c ≤ offset
      → 0 < size
      → read_from io_error (i ∷ is) segment_begin offset size out
        ≡ read_from io_error is (segment_begin + length c) offset size out
  unfolding read_from
  read_from-skip i is c segment_begin offset size out s small past pos = rw (nonzero, ends, beyond)
    where
      nonzero : (size == 0) ≡ false
      nonzero = ground arith

      ends : add64 segment_begin i.size ≡ segment_begin + length c
      ends = omega (arith, s.size_is)

      beyond : ltb offset (segment_begin + length c) ≡ false
      beyond = ground arith

  -- Behind its first segment a read has come to the segment's end, or is done.
  end_cases : (d m n : ℕ) → d < m → (d + min n (m - d) ≡ m) ⊎ (n - min n (m - d) ≡ 0)
  end_cases d m n h = elim (Bool-cases (ltb n (m - d))) [
    | inl e ↦ inr (omega (arith, ltb→lt n (m - d) e))
    | inr e ↦ let le : m - d ≤ n = ground arith in inl (omega arith)
  ]

  rest_from_begin : (x n : ℕ) (xs : List ℕ) → (x ≡ 0) ⊎ (n ≡ 0) → take n (drop x xs) ≡ take n xs
  rest_from_begin x n xs (inl z) = rw z
  rest_from_begin x n xs (inr z) = rw z

  -- The loop from a segment's begin on.
  read_from_lem :
      (is : List Segment) (cs : List (List ℕ)) (segment_begin offset size : ℕ) (out : List ℕ)
      → AllServe is cs
      → (segment_begin ≤ offset) ⊎ (size ≡ 0)
      → segment_begin + length (contents cs) < 2 ^ 64
      → size < 2 ^ 64
      → read_from io_error is segment_begin offset size out
        ≡ (result_ok, out ++ take size (drop (offset - segment_begin) (contents cs)))
  read_from_lem is cs segment_begin offset zero out s b small lim =
      read_from-nothing is segment_begin offset out
      ∙ ap (λ x. (result_ok, x)) (sym (append-nil out))
  read_from_lem [] [] segment_begin offset (suc size) out s b small lim =
      read_from-nil segment_begin offset (suc size) out
      ∙ ap (λ x. (result_ok, x))
          (sym (append-nil out)
            ∙ sym (
                ap (λ x. out ++ take (suc size) x)
                  (drop-all (offset - segment_begin) [] (omega arith))))
  read_from_lem [] (c ∷ cs) segment_begin offset (suc size) out s b small lim = absurd s
  read_from_lem (i ∷ is) [] segment_begin offset (suc size) out s b small lim = absurd s
  read_from_lem (i ∷ is) (c ∷ cs) segment_begin offset (suc size) out s (inr z) small lim =
      absurd (omega arith)
  read_from_lem (i ∷ is) (c ∷ cs) segment_begin offset (suc size) out s (inl b) small lim =
      elim (Bool-cases (ltb offset (segment_begin + length c))) [
        | inl e ↦
            let inside : offset < segment_begin + length c =
              ltb→lt offset (segment_begin + length c) e in
            let at_end : (d + k ≡ length c) ⊎ (n - k ≡ 0) =
              end_cases d (length c) n (omega arith) in
            read_from-first i is c segment_begin offset n out s.0 b (omega (arith, total)) inside
              (omega arith) lim
            ∙ read_from_lem is cs (segment_begin + length c) (offset + k) (n - k)
                (out ++ take k (drop d c)) s.1
                (elim at_end [ inl x ↦ inl (omega arith) | inr x ↦ inr x ]) (omega (arith, total))
                (omega arith)
            ∙ ap (λ x. (result_ok, x))
                (joined (omega arith) (elim at_end [ inl x ↦ inl (omega arith) | inr x ↦ inr x ]))
        | inr e ↦
            let past : segment_begin + length c ≤ offset = ground arith in
            read_from-skip i is c segment_begin offset n out s.0 (omega (arith, total)) past
              (omega arith)
            ∙ read_from_lem is cs (segment_begin + length c) offset n out s.1 (inl past)
                (omega (arith, total)) lim
            ∙ ap (λ x. (result_ok, out ++ take n x))
                (ap (λ j. drop j (contents cs)) (omega arith)
                  ∙ sym (drop-append_past d c (contents cs) (omega arith)))
      ]
    where
      n : ℕ
      n = suc size

      d : ℕ
      d = offset - segment_begin

      k : ℕ
      k = min n (length c - d)

      total : length (c ++ contents cs) ≡ length c + length (contents cs)
      total = length-append c (contents cs)

      joined :
          d ≤ length c
          → (offset + k - (segment_begin + length c) ≡ 0) ⊎ (n - k ≡ 0)
          → (out ++ take k (drop d c))
              ++ take (n - k) (drop (offset + k - (segment_begin + length c)) (contents cs))
            ≡ out ++ take n (drop d (c ++ contents cs))
      joined h z =
          rw
            (
              rest_from_begin (offset + k - (segment_begin + length c)) (n - k) (contents cs) z,
              read_split c (contents cs) d n h,
            )
            (append_assoc out (take k (drop d c)) (take (n - k) (contents cs)))

  -- Where every segment hands out its contents, a read returns the bytes that the concatenated
  -- contents have in its range, and fewer only past the end.
  pub read_lem :
      (segments : List Segment) (cs : List (List ℕ)) (offset size : ℕ)
      → AllServe segments cs
      → length (contents cs) < 2 ^ 64
      → size < 2 ^ 64
      → read io_error segments offset size ≡ (result_ok, take size (drop offset (contents cs)))
  unfolding read
  read_lem segments cs offset size s small lim =
      read_from_lem segments cs 0 offset size [] s (inl (omega arith)) (omega arith) lim
      ∙ ap (λ j. (result_ok, take size (drop j (contents cs)))) (omega arith)

-- `GetSize` is the length of what can be read.
pub get_size_lem :
    (segments : List Segment) (cs : List (List ℕ))
    → AllServe segments cs
    → length (contents cs) < 2 ^ 64
    → get_size segments ≡ length (contents cs)
unfolding get_size
get_size_lem [] [] s h = refl
get_size_lem [] (c ∷ cs) s h = absurd s
get_size_lem (i ∷ is) [] s h = absurd s
get_size_lem (i ∷ is) (c ∷ cs) s h = omega (
  arith,
  s.0.size_is,
  length-append c (contents cs),
  get_size_lem is cs s.1 (omega (arith, length-append c (contents cs))),
)
