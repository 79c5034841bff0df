-- ===== src/Client/Pending.antt =====
-- How often a function waits in the map, through the map's operations.
use twili.Base.{
  Bool-cases, List, [], ap, arith, if◌then◌else◌, inl, inr, ltb, none, refl, some, ℕ, ◌++◌, ◌+◌,
  ◌==◌, ◌∷◌, ◌≡◌,
}
use twili.Client.{Invoked, assign, erase, fail_each, find}

-- How often a function is in a list of functions.
abbrev pub count : ℕ → List ℕ → ℕ
count f [] = 0
count f (g ∷ fs) = (if f == g then 1 else 0) + count f fs

abbrev pub waiting : List (ℕ × ℕ) → List ℕ
waiting [] = []
waiting ((t, f) ∷ m) = f ∷ waiting m

abbrev pub invoked : List Invoked → List ℕ
invoked [] = []
invoked ((f, r) ∷ is) = f ∷ invoked is

pub count-append : (f : ℕ) (xs ys : List ℕ) → count f (xs ++ ys) ≡ count f xs + count f ys
count-append f [] ys = omega arith
count-append f (x ∷ xs) ys = omega (arith, count-append f xs ys)

-- A new tag adds its function, whatever the order of the map.
pub count-assign :
    (k tag f : ℕ) (m : List (ℕ × ℕ))
    → find tag m ≡ none
    → count k (waiting (assign tag f m)) ≡ count k (f ∷ []) + count k (waiting m)
unfolding find assign
count-assign k tag f [] e = omega arith
count-assign k tag f ((t, g) ∷ m) e = elim (Bool-cases (tag == t)) [
  | inl same ↦ let e' : some g ≡ none = rw same at e in absurd (cc e')
  | inr other ↦
      let e' : find tag m ≡ none = rw other at e in
      elim (Bool-cases (ltb tag t)) [
        | inl before ↦ rw before (omega arith)
        | inr behind ↦ rw (behind, other) (omega (arith, count-assign k tag f m e'))
      ]
]

pub count-erase :
    (k tag f : ℕ) (m : List (ℕ × ℕ))
    → find tag m ≡ some f
    → count k (waiting (erase tag m)) + count k (f ∷ []) ≡ count k (waiting m)
unfolding find erase
count-erase k tag f [] e = cc
count-erase k tag f ((t, g) ∷ m) e = elim (Bool-cases (tag == t)) [
  | inl same ↦
      let e' : some g ≡ some f = rw same at e in
      let g_is : g ≡ f = cc e' in rw (same, g_is) (omega arith)
  | inr other ↦
      let e' : find tag m ≡ some f = rw other at e in
      rw other (omega (arith, count-erase k tag f m e'))
]

pub invoked-fail_each : (code : ℕ) (m : List (ℕ × ℕ)) → invoked (fail_each code m) ≡ waiting m
unfolding fail_each
invoked-fail_each code [] = refl
invoked-fail_each code ((t, f) ∷ m) = ap (◌∷◌ f) (invoked-fail_each code m)
