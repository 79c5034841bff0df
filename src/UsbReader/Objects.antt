-- ===== src/UsbReader/Objects.antt =====
-- The requests that the reader answers itself: unknown objects, and the end of objects.
use twili.Base.{
  ==_iff, Bool, Bool-cases, List, [], ap, arith, false, if◌then◌else◌, inl, inr, not, refl, sym,
  true, ℕ, ◌==◌, ◌∙◌, ◌∷◌, ◌≡◌, ◌≢◌, ◌⊎◌,
}
use twili.UsbReader.{
  Event, Handlers, Reader, begin_processing_command, close_object, command_id, has, object_id,
  only_zero, opened, opens, reset_handler, responds, without,
}
use twili.Messages.{twili_result}

has-without_other : (i id : ℕ) (xs : List ℕ) → i ≢ id → has i (without id xs) ≡ has i xs
unfolding has without
has-without_other i id [] n = refl
has-without_other i id (x ∷ xs) n = ground (arith, has-without_other i id xs n)

has-without : (id : ℕ) (xs : List ℕ) → has id (without id xs) ≡ false
unfolding has without
has-without id [] = refl
has-without id (x ∷ xs) = ground (arith, has-without id xs)

has-only_zero : (i : ℕ) (xs : List ℕ) → has i (only_zero xs) ≡ (if i == 0 then has i xs else false)
unfolding has only_zero
has-only_zero i [] = ground arith
has-only_zero i (x ∷ xs) = ground (arith, has-only_zero i xs)

-- Whether an object is left by a request to close one.
abbrev pub stays_open : ℕ → ℕ → Bool
stays_open closed i = if closed == 0 then i == 0 else not (i == closed)

has-close_object :
    (closed i : ℕ) (objects : List ℕ)
    → has i (close_object closed objects) ≡ (if stays_open closed i then has i objects else false)
has-close_object closed i objects = elim (Bool-cases (closed == 0)) [
  | inl e ↦ rw e (has-only_zero i objects)
  | inr e ↦ rw e (ground (arith, has-without i objects, has-without_other i closed objects, ends))
]
  where
    ends : i ≡ closed → has i (without closed objects) ≡ false
    ends e = ap (λ x. has i (without x objects)) (sym e) ∙ has-without i objects

-- The reader has answered, and discards what is left of the request.
abbrev pub Answered : ℕ → Reader → List Event → Type 0
Answered code r events = (events ≡ responds code ∷ []) × (r.has_handler ≡ false)

-- How a command begins: with the error for an unknown object, with the end of objects, or with the
-- handler of its object.
abbrev pub Begins : Reader → Reader × List Event → Type 0
Begins r (r', events) =
    ((has (object_id r.current_header) r.objects ≡ false)
      × Answered (twili_result 1001) r' events
      × (r'.objects ≡ r.objects))
    ⊎ ((command_id r.current_header ≡ 0xffffffff)
        × Answered 0 r' events
        × ((i : ℕ)
            → has i r'.objects
              ≡ (if stays_open (object_id r.current_header) i then has i r.objects else false)))
    ⊎ ((has (object_id r.current_header) r.objects ≡ true)
        × (command_id r.current_header ≢ 0xffffffff)
        × (events ≡ opens r.current_header ∷ [])
        × (r'.objects ≡ r.objects)
        × (r'.has_object ≡ true))

opened-keeps :
    (o : Bool × Bool) (r : Reader)
    → ((opened o r).objects ≡ r.objects) × ((opened o r).has_object ≡ true)
unfolding reset_handler
opened-keeps (true, handles) r = (refl, refl)
opened-keeps (false, handles) r = (refl, refl)

-- A command for an object that the bridge has not is answered with an error and changes no object;
-- a request to close object 0 leaves object 0 only, and one to close another leaves the others; any
-- other command opens a request of its object.
pub begin_processing_command_lem :
    (h : Handlers) (r : Reader) → Begins r (begin_processing_command h r)
unfolding begin_processing_command reset_handler
begin_processing_command_lem h r = elim (Bool-cases (has (object_id r.current_header) r.objects)) [
  | inl e ↦ elim (Bool-cases (command_id r.current_header == 0xffffffff)) [
    | inl f ↦
        rw (e, f)
          (inr (
            inl (
              (==_iff _ _).0 f,
              (refl, refl),
              λ i. has-close_object (object_id r.current_header) i r.objects,
            )))
    | inr f ↦
        let keeps =
          opened-keeps (h.open_request r.current_header) (record r { has_state = true }) in
        rw (e, f) (inr (inr (refl, (λ g. ground (arith, f, g)), refl, keeps.0, keeps.1)))
  ]
  | inr e ↦ rw e (inl (refl, (refl, refl), refl))
]
