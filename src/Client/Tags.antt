-- ===== src/Client/Tags.antt =====
-- Which function a response reaches, and what a tag that is drawn twice does.
use twili.Base.{
  Bool, Bool-cases, List, [], ap, ap₂, arith, false, inl, inr, ltb, none, refl, some, suc, sym,
  true, ℕ, ◌+◌, ◌<◌, ◌==◌, ◌∙◌, ◌∷◌, ◌≡◌, ◌≤◌,
}
use twili.Client.{
  Client, Header, Response, assign, erase, find, invoke_found, post_response, post_with, read_ids,
  send_in, send_request,
}
use twili.Client.Pending.{count, waiting}

find-assign : (tag f : ℕ) (m : List (ℕ × ℕ)) → find tag (assign tag f m) ≡ some f
unfolding find assign
find-assign tag f [] = let same : (tag == tag) ≡ true = ground arith in rw same refl
find-assign tag f ((t, g) ∷ m) =
    let same : (tag == tag) ≡ true = ground arith in
    elim (Bool-cases (ltb tag t)) [
      | inl before ↦ rw (before, same) refl
      | inr behind ↦ elim (Bool-cases (tag == t)) [
        | inl here ↦ rw (behind, here, same) refl
        | inr other ↦ rw (behind, other, other) (find-assign tag f m)
      ]
    ]

erase-assign : (tag f : ℕ) (m : List (ℕ × ℕ)) → find tag m ≡ none → erase tag (assign tag f m) ≡ m
unfolding find erase assign
erase-assign tag f [] e = let same : (tag == tag) ≡ true = ground arith in rw same refl
erase-assign tag f ((t, g) ∷ m) e =
    let same : (tag == tag) ≡ true = ground arith in
    elim (Bool-cases (tag == t)) [
      | inl here ↦ let e' : some g ≡ none = rw here at e in absurd (cc e')
      | inr other ↦
          let e' : find tag m ≡ none = rw other at e in
          elim (Bool-cases (ltb tag t)) [
            | inl before ↦ rw (before, same) refl
            | inr behind ↦
                rw (behind, other, other) (ap (λ x. (t, g) ∷ x) (erase-assign tag f m e'))
          ]
    ]

-- A response with enough object ids reaches the function that was sent with its tag, with its
-- fields, where the tag was a new one; and the request no longer waits.
pub send_request-post_response :
    (c : Client) (tag f : ℕ) (mh : Header) (payload object_ids objects : List ℕ)
    → c.failed ≡ false
    → find tag c.response_map ≡ none
    → mh.tag ≡ tag
    → read_ids mh.object_count object_ids ≡ some objects
    → post_response (send_request c tag f).0 mh payload object_ids ≡ (
      c,
      (
        f,
        record {
          device_id = mh.device_id;
          object_id = mh.object_id;
          result_code = mh.result_code;
          tag = tag;
          payload = payload;
          objects = objects;
        },
      )
          ∷ [],
    )
unfolding send_request post_response
send_request-post_response c tag f mh payload object_ids objects works new same ids =
    ap (λ b. post_with (send_in b c tag f).0 mh payload (read_ids mh.object_count object_ids)) works
    ∙ ap (post_with d mh payload) ids
    ∙ ap (invoke_found d mh payload objects)
        (ap (λ t. find t d.response_map) same ∙ find-assign tag f c.response_map)
    ∙ ap₂ (λ m t. (record c { response_map = m }, (f, response t) ∷ []))
        (ap (λ t. erase t d.response_map) same ∙ erase-assign tag f c.response_map new) same
  where
    d : Client
    d = record c { response_map = assign tag f c.response_map }

    response : ℕ → Response
    response t = record {
      device_id = mh.device_id;
      object_id = mh.object_id;
      result_code = mh.result_code;
      tag = t;
      payload = payload;
      objects = objects;
    }

-- The tags of a map are in order, each above `low` at least.
abbrev pub IsSorted : ℕ → List (ℕ × ℕ) → Type 0
IsSorted low [] = Unit {0}
IsSorted low ((t, f) ∷ m) = (low ≤ t) × IsSorted (suc t) m

find-below : (tag low : ℕ) (m : List (ℕ × ℕ)) → IsSorted low m → tag < low → find tag m ≡ none
unfolding find
find-below tag low [] s h = refl
find-below tag low ((t, g) ∷ m) (b, s) h =
    let other : (tag == t) ≡ false = ground arith in
    rw other (find-below tag (suc t) m s (omega arith))

count-assign_found :
    (k tag f g low : ℕ) (m : List (ℕ × ℕ))
    → IsSorted low m
    → find tag m ≡ some g
    → count k (waiting (assign tag f m)) + count k (g ∷ []) ≡ count k (f ∷ []) + count k (waiting m)
unfolding find assign
count-assign_found k tag f g low [] s e = let e' : none ≡ some g = e in absurd (cc e')
count-assign_found k tag f g low ((t, h) ∷ m) (b, s) e = elim (Bool-cases (tag == t)) [
  | inl here ↦
      let e' : some h ≡ some g = rw here at e in
      let h_is : h ≡ g = cc e' in
      let not_before : ltb tag t ≡ false = ground arith in rw (not_before, here, h_is) (omega arith)
  | inr other ↦
      let e' : find tag m ≡ some g = rw other at e in
      elim (Bool-cases (ltb tag t)) [
        | inl before ↦
            let missing : none ≡ some g = sym (find-below tag (suc t) m s (ground arith)) ∙ e' in
            absurd (cc missing)
        | inr behind ↦
            rw (behind, other) (omega (arith, count-assign_found k tag f g (suc t) m s e'))
      ]
]

-- A request that draws the tag of one that waits takes its place: nothing is invoked, and the other
-- function waits once less.
pub send_request-collision :
    (k : ℕ) (c : Client) (tag f g : ℕ)
    → c.failed ≡ false
    → IsSorted 0 c.response_map
    → find tag c.response_map ≡ some g
    → let (d, now) = send_request c tag f in
      (now ≡ [])
      × (count k (waiting d.response_map) + count k (g ∷ [])
          ≡ count k (f ∷ []) + count k (waiting c.response_map))
unfolding send_request
send_request-collision k c tag f g works s e = replaced c.failed works
  where
    replaced :
        (failed : Bool)
        → failed ≡ false
        → ((send_in failed c tag f).1 ≡ [])
          × (count k (waiting (send_in failed c tag f).0.response_map) + count k (g ∷ [])
              ≡ count k (f ∷ []) + count k (waiting c.response_map))
    replaced true h = absurd (cc h)
    replaced false h = (refl, count-assign_found k tag f g 0 c.response_map s e)
