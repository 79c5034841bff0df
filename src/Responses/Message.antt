-- ===== src/Responses/Message.antt =====
-- A whole response, as the other end reads it.
use twili.Base.{
  Bool-cases, List, [], ap, append-nil, append_assoc, ap₂, arith, false, inl, inr, le32, length,
  length-append, ltb, refl, some, subst, sym, true, ℕ, ◌*◌, ◌++◌, ◌<◌, ◌==◌, ◌^◌, ◌∙◌, ◌∷◌, ◌≡◌,
  ◌≤◌,
}
use twili.Responses.{
  Arg, ResponseState, Transport, and_pack, begin_error, finalize, header, ids_bytes, pack_all,
  respond_ok,
}
use twili.Responses.Packed.{
  IsFaithful, encode_all, flat, flat-append, ids_all, length-encode_all, pack_all-Writes, size_all,
  sum_object_count_lem, sum_size_lem,
}
use twili.MessageConnection.Send.{IsMessage, parse-message}
use twili.Protocol.{object_count, payload_size}
use twili.MessageConnection.Parse.{parse}

-- A response that has not begun.
pub record IsFresh (s : ResponseState) : Type 0 where
  pub not_begun : s.has_begun ≡ false
  pub nothing_transferred : s.transferred_size ≡ 0
  pub no_objects : s.objects ≡ []
  pub nothing_sent : s.sent ≡ []

length-ids_bytes : (ids : List ℕ) → length (ids_bytes ids) ≡ length ids * 4
unfolding ids_bytes
length-ids_bytes [] = refl
length-ids_bytes (id ∷ ids) =
    omega (arith, length-append (le32 id) (ids_bytes ids), length-ids_bytes ids)

header-IsMessage :
    (t : Transport) (s : ResponseState) (code : ℕ) (payload ids : List ℕ)
    → length payload < 2 ^ 64
    → length ids < 2 ^ 32
    → IsMessage (header t s code (length payload) (length ids)) payload (ids_bytes ids)
unfolding header
header-IsMessage t s code payload ids small few = record {
  whole_header = refl;
  payload_declared = omega arith;
  ids_declared = omega (arith, length-ids_bytes ids);
}

no_ids : (ids : List ℕ) → length ids ≡ 0 → ids_bytes ids ≡ []
unfolding ids_bytes
no_ids [] e = refl
no_ids (id ∷ ids) e = absurd (omega arith)

-- The end of a response that has kept to its sizes.
finalize_lem :
    (s : ResponseState)
    → s.transferred_size ≡ s.total_size
    → length s.objects ≡ s.object_count
    → (s' : ResponseState) × (finalize s ≡ some s')
      × (flat s'.sent ≡ flat s.sent ++ ids_bytes s.objects)
unfolding finalize
finalize_lem s all_bytes all_objects =
    let a : (s.transferred_size == s.total_size) ≡ true = ground (arith, all_bytes) in
    let b : (length s.objects == s.object_count) ≡ true = ground (arith, all_objects) in
    elim (Bool-cases (ltb 0 s.object_count)) [
      | inl e ↦
          rw (a, b, e)
            (
              record s { sent = s.sent ++ (ids_bytes s.objects ∷ []) },
              refl,
              flat-append s.sent (ids_bytes s.objects ∷ [])
                  ∙ ap (◌++◌ (flat s.sent)) (append-nil (ids_bytes s.objects)),
            )
      | inr e ↦
          rw (a, b, e)
            (
              s,
              refl,
              sym (
                  ap (◌++◌ (flat s.sent)) (no_ids s.objects (ground (arith, e, all_objects)))
                  ∙ append-nil (flat s.sent)),
            )
    ]

-- The response after its header.
abbrev begun : Transport → ResponseState → ℕ → ℕ → ℕ → ResponseState
begun t s code payload_size object_count = record s {
  has_begun = true;
  total_size = payload_size;
  object_count = object_count;
  sent = s.sent ++ (header t s code payload_size object_count ∷ []);
}

begin_error_lem :
    (t : Transport) (s : ResponseState) (code payload_size object_count : ℕ)
    → s.has_begun ≡ false
    → object_count * 4 ≤ t.max_transfer_size
    → begin_error t s code payload_size object_count
      ≡ some (begun t s code payload_size object_count)
unfolding begin_error
begin_error_lem t s code payload_size object_count fresh fits =
    let f : ltb t.max_transfer_size (object_count * 4) ≡ false = ground (arith, fits) in
    rw (fresh, f) refl

-- A response of arguments that fit does not abort, whatever they are: what is sent is one message,
-- whose header declares the sizes of its payload and of its object ids, and the other end reads
-- it as these, whatever follows it.
pub respond_ok-parse :
    (t : Transport) (s : ResponseState) (args : List Arg) (rest : List ℕ)
    → IsFaithful t
    → IsFresh s
    → size_all args < 2 ^ 63
    → length (ids_all args) * 4 ≤ t.max_transfer_size
    → t.max_transfer_size < 2 ^ 32
    → (s' : ResponseState) × (respond_ok t s args ≡ some s')
      × (parse (flat s'.sent ++ rest)
          ≡ some (
            (
              header t s 0 (size_all args) (length (ids_all args)),
              encode_all 0 args,
              ids_bytes (ids_all args),
            ),
            rest,
          ))
unfolding respond_ok
respond_ok-parse t s args rest faithful fresh small few max =
    let n = length (ids_all args) in
    let b = begun t s 0 (size_all args) n in
    let w = pack_all-Writes t faithful b args (omega (arith, fresh.nothing_transferred)) in
    let start : length s.objects ≡ 0 = ap length fresh.no_objects in
    let payload = length-encode_all (length s.objects) args in
    let (s', e, f) =
      finalize_lem (pack_all t b args)
        (omega (arith, w.size, w.total_size, fresh.nothing_transferred, payload))
        (ap length w.objects
          ∙ ap (λ os. length (os ++ ids_all args)) fresh.no_objects
          ∙ sym w.object_count) in
    let mh = header t s 0 (size_all args) n in
    let body = encode_all 0 args in
    let ids = ids_bytes (ids_all args) in
    let first : flat b.sent ≡ mh =
      ap (λ x. flat (x ++ (mh ∷ []))) fresh.nothing_sent ∙ append-nil mh in
    let whole : flat s'.sent ≡ (mh ++ body) ++ ids =
      f
      ∙ ap₂ (λ x y. x ++ ids_bytes y) w.bytes_sent w.objects
      ∙ ap₂ (λ x os. (x ++ encode_all (length os) args) ++ ids_bytes (os ++ ids_all args)) first
          fresh.no_objects in
    (
      s',
      ap (and_pack t args) (
            ap₂ (begin_error t s 0) (sum_size_lem args (omega arith))
              (sum_object_count_lem args (omega arith))
            ∙ begin_error_lem t s 0 (size_all args) n fresh.not_begun few)
          ∙ e,
      ap (λ x. parse (x ++ rest)) whole
          ∙ ap parse (append_assoc (mh ++ body) ids rest ∙ append_assoc mh body (ids ++ rest))
          ∙ parse-message mh body ids rest (
              subst (λ k. IsMessage (header t s 0 k n) body ids) (length-encode_all 0 args)
                (header-IsMessage t s 0 body (ids_all args)
                  (omega (arith, length-encode_all 0 args)) (omega arith))),
    )
