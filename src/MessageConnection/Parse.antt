-- ===== src/MessageConnection/Parse.antt =====
-- The protocol as a parse of the bytes of a stream: a header, the payload and the object ids.
use twili.Base.{
  Bool-cases, List, Option, ap, arith, drop, drop-append, drop-append_length, drop-append_past,
  false, if◌then◌else◌, inl, inr, length, length-append, length-drop, ltb, none, refl, some, sym,
  take, take-append, take-append_length, true, ℕ, ◌*◌, ◌++◌, ◌+◌, ◌<◌, ◌≡◌, ◌≤◌,
}
use twili.Protocol.{header_size, object_count, payload_size}

-- The sizes that a header declares, together.
abbrev pub declared : List ℕ → ℕ
declared mh = payload_size mh + object_count mh * 4

-- What is behind a header `mh`, which has been taken off the stream.
unfoldable pub parse_body : List ℕ → List ℕ → Option ((List ℕ × List ℕ × List ℕ) × List ℕ)
parse_body mh s =
    if ltb (length s) (declared mh)
    then none
    else some (
      (mh, take (payload_size mh) s, take (object_count mh * 4) (drop (payload_size mh) s)),
      drop (declared mh) s,
    )

-- The first message of a stream, with what is behind it; `none` while it is not all there.
unfoldable pub parse : List ℕ → Option ((List ℕ × List ℕ × List ℕ) × List ℕ)
parse s =
    if ltb (length s) header_size
    then none
    else parse_body (take header_size s) (drop header_size s)

abbrev nothing_there : Option ((List ℕ × List ℕ × List ℕ) × List ℕ)
nothing_there = none

abbrev extend :
    List ℕ
    → Option ((List ℕ × List ℕ × List ℕ) × List ℕ)
    → Option ((List ℕ × List ℕ × List ℕ) × List ℕ)
extend t none = none
extend t (some (m, rest)) = some (m, rest ++ t)

parse_body-append :
    (mh s t : List ℕ) {m : List ℕ × List ℕ × List ℕ} {rest : List ℕ}
    → parse_body mh s ≡ some (m, rest)
    → parse_body mh (s ++ t) ≡ some (m, rest ++ t)
unfolding parse_body
parse_body-append mh s t {m} {rest} e = elim (Bool-cases (ltb (length s) (declared mh))) [
  | inl f ↦ let e' : nothing_there ≡ some (m, rest) = rw f at e in cc e'
  | inr f ↦
      let g : ltb (length (s ++ t)) (declared mh) ≡ false = ground (arith, length-append s t) in
      rw
        (
          g,
          take-append (payload_size mh) s t (ground arith),
          drop-append (payload_size mh) s t (ground arith),
          take-append (object_count mh * 4) (drop (payload_size mh) s) t
              (ground (arith, length-drop (payload_size mh) s)),
          drop-append (declared mh) s t (ground arith),
        )
        (ap (extend t) (rw f at e))
]

-- More bytes behind a message change nothing in it.
pub parse-append :
    (s t : List ℕ) {m : List ℕ × List ℕ × List ℕ} {rest : List ℕ}
    → parse s ≡ some (m, rest)
    → parse (s ++ t) ≡ some (m, rest ++ t)
unfolding parse
parse-append s t {m} {rest} e = elim (Bool-cases (ltb (length s) header_size)) [
  | inl f ↦ let e' : nothing_there ≡ some (m, rest) = rw f at e in cc e'
  | inr f ↦
      let g : ltb (length (s ++ t)) header_size ≡ false = ground (arith, length-append s t) in
      rw (g, take-append header_size s t (ground arith), drop-append header_size s t (ground arith))
        (parse_body-append (take header_size s) (drop header_size s) t (rw f at e))
]

-- A stream that starts with a whole header.
pub parse-header : (mh s : List ℕ) → length mh ≡ header_size → parse (mh ++ s) ≡ parse_body mh s
unfolding parse
parse-header mh s e =
    let long : ltb (length (mh ++ s)) header_size ≡ false = ground (arith, length-append mh s) in
    rw
      (
        long,
        take-append_length header_size mh s (sym e),
        drop-append_length header_size mh s (sym e),
      )
      refl

pub parse-short : (s : List ℕ) → length s < header_size → parse s ≡ none
unfolding parse
parse-short s h = let short : ltb (length s) header_size ≡ true = ground arith in rw short refl

pub parse_body-short : (mh s : List ℕ) → length s < declared mh → parse_body mh s ≡ none
unfolding parse_body
parse_body-short mh s h =
    let short : ltb (length s) (declared mh) ≡ true = ground arith in rw short refl

-- A body that starts with a whole payload.
pub parse_body-payload :
    (mh p s : List ℕ)
    → length p ≡ payload_size mh
    → object_count mh * 4 ≤ length s
    → parse_body mh (p ++ s)
      ≡ some ((mh, p, take (object_count mh * 4) s), drop (object_count mh * 4) s)
unfolding parse_body
parse_body-payload mh p s e h =
    let long : ltb (length (p ++ s)) (declared mh) ≡ false = ground (arith, length-append p s) in
    rw
      (
        long,
        take-append_length (payload_size mh) p s (sym e),
        drop-append_length (payload_size mh) p s (sym e),
        drop-append_past (declared mh) p s (omega arith),
      )
      (ap (λ k. some ((mh, p, take (object_count mh * 4) s), drop k s)) (omega arith))
