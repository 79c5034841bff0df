-- ===== src/Base/Maps.antt =====
-- `std::map` from numbers, in the order of the keys, and objects by their addresses.
use Prim.Native.Nat.{ℕ, ◌+◌}
use mathlib.Core.Path.{◌≡◌, refl, ap, subst, sym, ◌∙◌}
use mathlib.Core.Logic.{◌≢◌, inl, inr}
use mathlib.Core.Option.{Option, none, some, some-injective}
use mathlib.Core.List.{List, [], ◌∷◌}
use native.Mathlib.Omega.{arith}
use twili.Base.Lists.{All}
use mathlib.Core.Bool.{Bool, true, false}
use twili.Base.Tests.{==_iff, Bool-cases, Nat-cases, if◌then◌else◌, ltb, ◌==◌}

module _ {ℓ} {A : Type ℓ} where
  unfoldable pub lookup : ℕ → List (ℕ × A) → Option A
  lookup k [] = none
  lookup k ((j, a) ∷ m) = if k == j then some a else lookup k m

  -- `m[k] = a`, which replaces the value that a key has.
  unfoldable pub store : ℕ → A → List (ℕ × A) → List (ℕ × A)
  store k a [] = (k, a) ∷ []
  store k a ((j, b) ∷ m) =
      if ltb k j then (k, a) ∷ (j, b) ∷ m else if k == j then (k, a) ∷ m else (j, b) ∷ store k a m

  -- `erase`: a map has a key once.
  unfoldable pub remove : ℕ → List (ℕ × A) → List (ℕ × A)
  remove k [] = []
  remove k ((j, b) ∷ m) = if k == j then remove k m else (j, b) ∷ remove k m

  -- A write to the object at an address.
  unfoldable pub update : ℕ → A → List (ℕ × A) → List (ℕ × A)
  update k a [] = []
  update k a ((j, b) ∷ m) = if k == j then (k, a) ∷ m else (j, b) ∷ update k a m

  -- The end of the object at an address.
  unfoldable pub forget : ℕ → List (ℕ × A) → List (ℕ × A)
  forget k [] = []
  forget k ((j, b) ∷ m) = if k == j then m else (j, b) ∷ forget k m

  pub lookup-store : (k : ℕ) (a : A) (m : List (ℕ × A)) → lookup k (store k a m) ≡ some a
  unfolding lookup store
  lookup-store k a [] = ground arith
  lookup-store k a ((j, b) ∷ m) = ground (arith, lookup-store k a m)

  pub lookup-store_other :
      (i k : ℕ) (a : A) (m : List (ℕ × A)) → i ≢ k → lookup i (store k a m) ≡ lookup i m
  unfolding lookup store
  lookup-store_other i k a [] h = ground arith
  lookup-store_other i k a ((j, b) ∷ m) h = ground (arith, lookup-store_other i k a m h)

  pub lookup-remove : (k : ℕ) (m : List (ℕ × A)) → lookup k (remove k m) ≡ none
  unfolding lookup remove
  lookup-remove k [] = refl
  lookup-remove k ((j, b) ∷ m) = ground (arith, lookup-remove k m)

  pub lookup-remove_other :
      (i k : ℕ) (m : List (ℕ × A)) → i ≢ k → lookup i (remove k m) ≡ lookup i m
  unfolding lookup remove
  lookup-remove_other i k [] h = refl
  lookup-remove_other i k ((j, b) ∷ m) h = ground (arith, lookup-remove_other i k m h)

  pub lookup-update :
      (k : ℕ) (a b : A) (m : List (ℕ × A)) → lookup k m ≡ some a → lookup k (update k b m) ≡ some b
  unfolding lookup update
  lookup-update k a b [] h = absurd (cc h)
  lookup-update k a b ((j, c) ∷ m) h = ground (arith, lookup-update k a b m)

  pub lookup-update_other :
      (i k : ℕ) (a : A) (m : List (ℕ × A)) → i ≢ k → lookup i (update k a m) ≡ lookup i m
  unfolding lookup update
  lookup-update_other i k a [] h = refl
  lookup-update_other i k a ((j, b) ∷ m) h = ground (arith, lookup-update_other i k a m h)

  pub lookup-forget_other :
      (i k : ℕ) (m : List (ℕ × A)) → i ≢ k → lookup i (forget k m) ≡ lookup i m
  unfolding lookup forget
  lookup-forget_other i k [] h = refl
  lookup-forget_other i k ((j, b) ∷ m) h = ground (arith, lookup-forget_other i k m h)

  -- The sum of a number of each object.
  abbrev pub total : (A → ℕ) → List (ℕ × A) → ℕ
  total f [] = 0
  total f ((j, b) ∷ m) = f b + total f m

  pub total-update :
      (f : A → ℕ) (k : ℕ) (a b : A) (m : List (ℕ × A))
      → lookup k m ≡ some a
      → total f (update k b m) + f a ≡ total f m + f b
  unfolding lookup update
  total-update f k a b [] h = absurd (cc h)
  total-update f k a b ((j, c) ∷ m) h = elim (Bool-cases (k == j)) [
    | inl e ↦
        let g : c ≡ a =
          some-injective c a (subst (λ t. (if t then some c else lookup k m) ≡ some a) e h) in
        rw e (omega (arith, ap f g))
    | inr e ↦
        let g = subst (λ t. (if t then some c else lookup k m) ≡ some a) e h in
        rw e (omega (arith, total-update f k a b m g))
  ]

  pub total-forget :
      (f : A → ℕ) (k : ℕ) (a : A) (m : List (ℕ × A))
      → lookup k m ≡ some a
      → total f (forget k m) + f a ≡ total f m
  unfolding lookup forget
  total-forget f k a [] h = absurd (cc h)
  total-forget f k a ((j, c) ∷ m) h = elim (Bool-cases (k == j)) [
    | inl e ↦
        let g : c ≡ a =
          some-injective c a (subst (λ t. (if t then some c else lookup k m) ≡ some a) e h) in
        rw e (omega (arith, ap f g))
    | inr e ↦
        let g = subst (λ t. (if t then some c else lookup k m) ≡ some a) e h in
        rw e (omega (arith, total-forget f k a m g))
  ]

  present_if :
      (t : Bool) (x y : A) (o o' : Option A)
      → (o ≢ none → o' ≢ none)
      → (if t then some x else o) ≢ none
      → (if t then some y else o') ≢ none
  present_if true x y o o' f h = λ e. absurd (cc e)
  present_if false x y o o' f h = f h

  pub present-update :
      (i k : ℕ) (a : A) (m : List (ℕ × A)) → lookup i m ≢ none → lookup i (update k a m) ≢ none
  unfolding lookup update
  present-update i k a [] h = h
  present-update i k a ((j, b) ∷ m) h =
      let rest =
        present_if (i == j) b b (lookup i m) (lookup i (update k a m)) (present-update i k a m) h in
      elim (Bool-cases (k == j)) [
        | inl e ↦
            let f = (==_iff k j).0 e in
            rw e (
              present_if (i == k) b a (lookup i m) (lookup i m) (λ g. g)
                (subst (λ x. (if i == x then some b else lookup i m) ≢ none) (sym f) h))
        | inr e ↦ rw e rest
      ]

  pub present-store :
      (i k : ℕ) (a : A) (m : List (ℕ × A)) → lookup i m ≢ none → lookup i (store k a m) ≢ none
  present-store i k a m h = elim (Nat-cases i k) [
    | inl e ↦ λ f. absurd (cc (lookup-store k a m, ap (λ x. lookup x (store k a m)) (sym e) ∙ f))
    | inr e ↦ λ f. absurd (h (sym (lookup-store_other i k a m e) ∙ f))
  ]

module _ {ℓ κ} {A : Type ℓ} where
  pub All-store :
      (P : ℕ × A → Type κ) (k : ℕ) (a : A) (m : List (ℕ × A))
      → P (k, a)
      → All P m
      → All P (store k a m)
  unfolding store
  All-store P k a [] p h = (p, h)
  All-store P k a ((j, b) ∷ m) p (q, h) =
      let rest = All-store P k a m p h in
      elim (Bool-cases (ltb k j)) [
        | inl e ↦ rw e (p, (q, h))
        | inr e ↦ elim (Bool-cases (k == j)) [
          | inl f ↦ rw (e, f) (p, h)
          | inr f ↦ rw (e, f) (q, rest)
        ]
      ]

  pub All-remove :
      (P Q : ℕ × A → Type κ) (k : ℕ) (m : List (ℕ × A))
      → ((j : ℕ) (b : A) → j ≢ k → P (j, b) → Q (j, b))
      → All P m
      → All Q (remove k m)
  unfolding remove
  All-remove P Q k [] f h = h
  All-remove P Q k ((j, b) ∷ m) f (p, h) =
      let rest = All-remove P Q k m f h in
      elim (Bool-cases (k == j)) [
        | inl e ↦ rw e rest
        | inr e ↦ rw e (f j b (λ g. ground (arith, e, g)) p, rest)
      ]
