-- ===== src/Responses/Packed.antt =====
-- What packing writes, and what it is told it would.
use twili.Base.{
  List, [], ap, append-nil, append_assoc, arith, le32, le64, length, length-append, refl, subst,
  sym, ℕ, ◌++◌, ◌+◌, ◌<◌, ◌^◌, ◌∙◌, ◌∷◌, ◌≡◌,
}
use twili.Responses.{
  Arg, ResponseState, Transport, add_object, get_object_count, get_size, object, pack, pack_all,
  sum_object_count, sum_size, text, word32, word64, write_data,
}

abbrev pub flat : List (List ℕ) → List ℕ
flat [] = []
flat (p ∷ ps) = p ++ flat ps

pub flat-append : (xs ys : List (List ℕ)) → flat (xs ++ ys) ≡ flat xs ++ flat ys
flat-append [] ys = refl
flat-append (x ∷ xs) ys = ap (◌++◌ x) (flat-append xs ys) ∙ sym (append_assoc x (flat xs) (flat ys))

-- The pieces of data are the data.
abbrev pub IsFaithful : Transport → Type 0
IsFaithful t = (bytes : List ℕ) → flat (t.pieces bytes) ≡ bytes

abbrev pub size_of : Arg → ℕ
size_of (word32 n) = 4
size_of (word64 n) = 8
size_of (text bytes) = 8 + length bytes
size_of (object id) = 4

abbrev pub size_all : List Arg → ℕ
size_all [] = 0
size_all (a ∷ args) = size_of a + size_all args

abbrev pub ids_of : Arg → List ℕ
ids_of (word32 n) = []
ids_of (word64 n) = []
ids_of (text bytes) = []
ids_of (object id) = id ∷ []

abbrev pub ids_all : List Arg → List ℕ
ids_all [] = []
ids_all (a ∷ args) = ids_of a ++ ids_all args

-- The payload: an object is its place among the objects of the response, from `i` on.
abbrev pub encode : ℕ → Arg → List ℕ
encode i (word32 n) = le32 n
encode i (word64 n) = le64 n
encode i (text bytes) = le64 (length bytes) ++ bytes
encode i (object id) = le32 i

unfoldable pub encode_all : ℕ → List Arg → List ℕ
encode_all i [] = []
encode_all i (a ∷ args) = encode i a ++ encode_all (i + length (ids_of a)) args

length-encode : (i : ℕ) (a : Arg) → length (encode i a) ≡ size_of a
length-encode i (word32 n) = refl
length-encode i (word64 n) = refl
length-encode i (text bytes) = length-append (le64 (length bytes)) bytes
length-encode i (object id) = refl

pub length-encode_all : (i : ℕ) (args : List Arg) → length (encode_all i args) ≡ size_all args
unfolding encode_all
length-encode_all i [] = refl
length-encode_all i (a ∷ args) = omega (
  arith,
  length-append (encode i a) (encode_all (i + length (ids_of a)) args),
  length-encode i a,
  length-encode_all (i + length (ids_of a)) args,
)

pub sum_size_lem : (args : List Arg) → size_all args < 2 ^ 64 → sum_size args ≡ size_all args
unfolding sum_size get_size
sum_size_lem [] h = refl
sum_size_lem (word32 n ∷ args) h = omega (arith, sum_size_lem args (omega arith))
sum_size_lem (word64 n ∷ args) h = omega (arith, sum_size_lem args (omega arith))
sum_size_lem (text bytes ∷ args) h = omega (arith, sum_size_lem args (omega arith))
sum_size_lem (object id ∷ args) h = omega (arith, sum_size_lem args (omega arith))

pub sum_object_count_lem :
    (args : List Arg)
    → length (ids_all args) < 2 ^ 32
    → sum_object_count args ≡ length (ids_all args)
unfolding sum_object_count get_object_count
sum_object_count_lem [] h = refl
sum_object_count_lem (word32 n ∷ args) h = omega (arith, sum_object_count_lem args (omega arith))
sum_object_count_lem (word64 n ∷ args) h = omega (arith, sum_object_count_lem args (omega arith))
sum_object_count_lem (text bytes ∷ args) h = omega (arith, sum_object_count_lem args (omega arith))
sum_object_count_lem (object id ∷ args) h = omega (arith, sum_object_count_lem args (omega arith))

-- A response that has gone on by some bytes and some objects.
pub record Writes (s s' : ResponseState) (bytes ids : List ℕ) : Type 0 where
  pub bytes_sent : flat s'.sent ≡ flat s.sent ++ bytes
  pub size : s'.transferred_size ≡ s.transferred_size + length bytes
  pub objects : s'.objects ≡ s.objects ++ ids
  pub total_size : s'.total_size ≡ s.total_size
  pub object_count : s'.object_count ≡ s.object_count

Writes-trans :
    {s s' s'' : ResponseState} {b b' i i' : List ℕ}
    → Writes s s' b i
    → Writes s' s'' b' i'
    → Writes s s'' (b ++ b') (i ++ i')
Writes-trans {s} {b = b} {b'} {i} {i'} w w' = record {
  bytes_sent = w'.bytes_sent ∙ ap (λ x. x ++ b') w.bytes_sent ∙ append_assoc (flat s.sent) b b';
  size = omega (arith, w.size, w'.size, length-append b b');
  objects = w'.objects ∙ ap (λ x. x ++ i') w.objects ∙ append_assoc s.objects i i';
  total_size = w'.total_size ∙ w.total_size;
  object_count = w'.object_count ∙ w.object_count;
}

module _ (t : Transport) (faithful : IsFaithful t) where
  write_data-Writes :
      (s : ResponseState) (bytes : List ℕ)
      → s.transferred_size + length bytes < 2 ^ 64
      → Writes s (write_data t s bytes) bytes []
  unfolding write_data
  write_data-Writes s bytes fits = record {
    bytes_sent = flat-append s.sent (t.pieces bytes) ∙ ap (◌++◌ (flat s.sent)) (faithful bytes);
    size = omega arith;
    objects = sym (append-nil s.objects);
    total_size = refl;
    object_count = refl;
  }

  pack-Writes :
      (s : ResponseState) (a : Arg)
      → s.transferred_size + size_of a < 2 ^ 64
      → Writes s (pack t s a) (encode (length s.objects) a) (ids_of a)
  unfolding pack add_object
  pack-Writes s (word32 n) fits = write_data-Writes s (le32 n) fits
  pack-Writes s (word64 n) fits = write_data-Writes s (le64 n) fits
  pack-Writes s (text bytes) fits =
      let w = write_data-Writes s (le64 (length bytes)) (omega arith) in
      Writes-trans w (write_data-Writes _ bytes (omega (arith, w.size)))
  pack-Writes s (object id) fits =
      let w = write_data-Writes (add_object s id).1 (le32 (length s.objects)) (omega arith) in
      record {
        bytes_sent = w.bytes_sent;
        size = w.size;
        objects = w.objects ∙ append-nil (s.objects ++ (id ∷ []));
        total_size = w.total_size;
        object_count = w.object_count;
      }

  pub pack_all-Writes :
      (s : ResponseState) (args : List Arg)
      → s.transferred_size + size_all args < 2 ^ 64
      → Writes s (pack_all t s args) (encode_all (length s.objects) args) (ids_all args)
  unfolding pack_all encode_all
  pack_all-Writes s [] fits = record {
    bytes_sent = sym (append-nil (flat s.sent));
    size = omega arith;
    objects = sym (append-nil s.objects);
    total_size = refl;
    object_count = refl;
  }
  pack_all-Writes s (a ∷ args) fits =
      let w = pack-Writes s a (omega arith) in
      let w' =
        pack_all-Writes (pack t s a) args
          (omega (arith, w.size, length-encode (length s.objects) a)) in
      Writes-trans w (
        subst
          (λ i.
            Writes (pack t s a) (pack_all t (pack t s a) args) (encode_all i args) (ids_all args))
          (ap length w.objects ∙ length-append s.objects (ids_of a)) w')
