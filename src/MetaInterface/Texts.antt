-- ===== src/MetaInterface/Texts.antt =====
-- The texts in the payloads of the daemon's own requests and responses.
use twili.Base.{
  Bool-cases, List, Option, [], ap, append-nil, append_assoc, ap₂, arith, drop-append_length, false,
  inl, inr, le64, length, length-append, length-replicate, ltb, none, refl, some, subst, sym,
  take-all, take-append_length, true, u64_at, u64_at-le64, ℕ, ◌++◌, ◌<◌, ◌^◌, ◌∙◌, ◌≡◌,
}
use twili.Buffer.{Buffer, get_data, of_vector, read, read_available, read_string, unlimited, write}
use twili.MetaInterface.{
  first_text, parse_connect, read_text, second_text, text_in, text_of, text_payload,
}
use twili.Buffer.Inv.{IsValid, length-get_data}
use twili.Buffer.Queue.{Refines, pop, read-Refines}
use twili.Buffer.Trace.{write-head}
use twili.MessageConnection.Send.{write_unlimited}
use twili.Buffer.Transfer.{read_string-eq-read}

-- A text in a payload: its length and its bytes.
unfoldable pub text : List ℕ → List ℕ
text s = le64 (length s) ++ s

unlimited-IsValid : IsValid unlimited
unfolding unlimited
unlimited-IsValid = record {
  ordered = omega arith;
  inside = omega arith;
  within = omega (arith, length-replicate {A = ℕ} 2048 0);
  small = omega (arith, length-replicate {A = ℕ} 2048 0);
}

get_data-unlimited : get_data unlimited ≡ []
unfolding get_data unlimited
get_data-unlimited = refl

unlimited_lem : (unlimited.limit ≡ none) × (unlimited.write_head ≡ 0)
unfolding unlimited
unlimited_lem = (refl, refl)

-- The payload that carries a text is the text.
pub text_payload_lem : (s : List ℕ) → length s < 2 ^ 62 → text_payload s ≡ text s
unfolding text_payload text
text_payload_lem s small =
    let b = (write unlimited (le64 (length s))).1 in
    let u = unlimited_lem in
    let w1 =
      write_unlimited {b = unlimited} (le64 (length s)) unlimited-IsValid u.0
        (omega (arith, u.1)) in
    let h1 = write-head {b = unlimited} (le64 (length s)) unlimited-IsValid (omega (arith, u.1)) in
    let w2 = write_unlimited {b = b} s w1.0 w1.1 (omega (arith, small, h1, u.1)) in
    w2.2 ∙ ap (λ q. q ++ s) (w1.2 ∙ ap (λ q. q ++ le64 (length s)) get_data-unlimited)

abbrev pub pop_bytes : Option (List ℕ) × List ℕ → Option (List ℕ × List ℕ)
pop_bytes (none, q) = none
pop_bytes (some s, q) = some (s, q)

abbrev pub pop_sized : Option (List ℕ) × List ℕ → Option (List ℕ × List ℕ)
pop_sized (none, q) = none
pop_sized (some len, q) = pop_bytes (pop q (u64_at len 0))

-- The text at the front of a queue: where the queue is too short for a length, or for the bytes
-- that the length declares, there is none.
unfoldable pub pop_text : List ℕ → Option (List ℕ × List ℕ)
pop_text q = pop_sized (pop q 8)

abbrev pub Pops : Option (List ℕ × Buffer) → Option (List ℕ × List ℕ) → Type 0
Pops none r = r ≡ none
Pops (some (s, b)) r = IsValid b × (r ≡ some (s, get_data b))

read_string-Refines :
    {b : Buffer} (n : ℕ) → IsValid b → Refines b (read_string b n) (pop (get_data b) n)
unfolding read_string pop read_available
read_string-Refines {b} n v = elim (Bool-cases (ltb (read_available b) n)) [
  | inl e ↦
      let f : ltb (length (get_data b)) n ≡ true = ground (arith, length-get_data v) in
      rw (e, f, read_string, pop) (v, refl, refl)
  | inr e ↦
      let small : n < 2 ^ 63 = ground (arith, length-get_data v) in
      rw (read_string-eq-read n v small) (read-Refines n v small)
]

text_of-Pops :
    (b : Buffer) (r : Option (List ℕ) × Buffer) (p : Option (List ℕ) × List ℕ)
    → Refines b r p
    → Pops (text_of r) (pop_bytes p)
text_of-Pops b (none, c) p (v, l, e) = sym (ap pop_bytes e)
text_of-Pops b (some s, c) p (v, l, e) = (v, sym (ap pop_bytes e))

text_in-Pops :
    (b : Buffer) (r : Option (List ℕ) × Buffer) (p : Option (List ℕ) × List ℕ)
    → Refines b r p
    → Pops (text_in r) (pop_sized p)
text_in-Pops b (none, c) p (v, l, e) = sym (ap pop_sized e)
text_in-Pops b (some len, c) p (v, l, e) =
    subst (λ q. Pops (text_of (read_string c (u64_at len 0))) (pop_sized q)) e
      (text_of-Pops c _ _ (read_string-Refines (u64_at len 0) v))

pub read_text-Pops : {b : Buffer} → IsValid b → Pops (read_text b) (pop_text (get_data b))
unfolding read_text pop_text
read_text-Pops {b} v =
    text_in-Pops b (read b 8) (pop (get_data b) 8) (read-Refines 8 v (omega arith))

-- The two texts at the front of a queue.
abbrev pop_second : List ℕ → Option (List ℕ × List ℕ) → Option (List ℕ × List ℕ)
pop_second first none = none
pop_second first (some (second, q)) = some (first, second)

abbrev pop_first : Option (List ℕ × List ℕ) → Option (List ℕ × List ℕ)
pop_first none = none
pop_first (some (first, q)) = pop_second first (pop_text q)

unfoldable pub pop_texts : List ℕ → Option (List ℕ × List ℕ)
pop_texts q = pop_first (pop_text q)

second_text-Pops :
    (first : List ℕ) (r : Option (List ℕ × Buffer)) (p : Option (List ℕ × List ℕ))
    → Pops r p
    → second_text first r ≡ pop_second first p
second_text-Pops first none p e = sym (ap (pop_second first) e)
second_text-Pops first (some (second, b)) p (v, e) = sym (ap (pop_second first) e)

first_text-Pops :
    (r : Option (List ℕ × Buffer)) (p : Option (List ℕ × List ℕ))
    → Pops r p
    → first_text r ≡ pop_first p
first_text-Pops none p e = sym (ap pop_first e)
first_text-Pops (some (first, b)) p (v, e) =
    second_text-Pops first (read_text b) _ (read_text-Pops v) ∙ sym (ap pop_first e)

of_vector_lem :
    (bytes : List ℕ)
    → length bytes < 2 ^ 63
    → IsValid (of_vector bytes) × (get_data (of_vector bytes) ≡ bytes)
unfolding of_vector get_data
of_vector_lem bytes small = (
  record { ordered = omega arith; inside = omega arith; within = small; small = small },
  take-all _ bytes (omega arith),
)

-- The payload of a `CONNECT_TCP` is read as the two texts at its front, whatever lengths it
-- declares.
pub parse_connect_lem :
    (payload : List ℕ) → length payload < 2 ^ 63 → parse_connect payload ≡ pop_texts payload
unfolding parse_connect pop_texts
parse_connect_lem payload small =
    let v = of_vector_lem payload small in
    first_text-Pops (read_text (of_vector payload)) _ (read_text-Pops v.0)
    ∙ ap (λ q. pop_first (pop_text q)) v.1

pop-append : (xs ys : List ℕ) (n : ℕ) → n ≡ length xs → pop (xs ++ ys) n ≡ (some xs, ys)
unfolding pop
pop-append xs ys n e =
    let f : ltb (length (xs ++ ys)) n ≡ false = ground (arith, length-append xs ys) in
    rw (f, pop)
      (ap₂ (λ x y. (some x, y)) (take-append_length n xs ys e) (drop-append_length n xs ys e))

pop_text-text : (s rest : List ℕ) → length s < 2 ^ 63 → pop_text (text s ++ rest) ≡ some (s, rest)
unfolding pop_text text
pop_text-text s rest small =
    ap (λ q. pop_sized (pop q 8)) (append_assoc (le64 (length s)) s rest)
    ∙ ap pop_sized (pop-append (le64 (length s)) (s ++ rest) 8 refl)
    ∙ ap pop_bytes
        (pop-append s rest (u64_at (le64 (length s)) 0) (u64_at-le64 (length s) (omega arith)))

-- The host name and the port come back from the payload that the tool makes of them.
pub parse_connect-texts :
    (hostname port : List ℕ)
    → length hostname < 2 ^ 61
    → length port < 2 ^ 61
    → parse_connect (text hostname ++ text port) ≡ some (hostname, port)
unfolding pop_texts text
parse_connect-texts hostname port h p =
    parse_connect_lem (text hostname ++ text port) (
      omega (
        arith,
        length-append (text hostname) (text port),
        length-append (le64 (length hostname)) hostname,
        length-append (le64 (length port)) port,
      ))
    ∙ ap pop_first (pop_text-text hostname (text port) (omega arith))
    ∙ ap (pop_second hostname)
        (ap pop_text (sym (append-nil (text port))) ∙ pop_text-text port [] (omega arith))
