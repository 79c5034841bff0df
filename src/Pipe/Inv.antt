-- ===== src/Pipe/Inv.antt =====
-- The invariant of a pipe, and the streams that its theorems speak of.
use twili.Base.{
  List, [], append_assoc, arith, length, length-replicate, min, refl, some, subst, ℕ, ◌++◌, ◌+◌,
  ◌<◌, ◌^◌, ◌∷◌, ◌≡◌, ◌≤◌,
}
use twili.Buffer.{Buffer, get_data, limited, read_available}
use twili.Buffer.Inv.{IsValid, Within, length-get_data}
use twili.Pipe.{
  Event, ReadCb, Result, State, TwibPipe, aborts, after, done, empty_function, idle, make,
  pending_in, read_eof, read_pending, stays_open, took, write_pending, wrote,
}
use twili.Pipe.Flush.{IsLimited}

-- A read callback that takes a number of the bytes offered, and makes no call on the pipe.
abbrev pub quiet : (List ℕ → ℕ) → ReadCb
quiet f offered = (f offered, stays_open)

abbrev pub TakesOffered : (List ℕ → ℕ) → Type 0
TakesOffered f = (offered : List ℕ) → f offered ≤ length offered

-- A pending write has bytes left, and a reader waits only while nothing is buffered.
abbrev pub StateIsValid : ℕ → Buffer → State → Type 0
StateIsValid l b idle = Unit {0}
StateIsValid l b (write_pending d w) = (0 < length d) × (length d + l < 2 ^ 63)
StateIsValid l b (read_pending cb) =
    (f : List ℕ → ℕ) × (cb ≡ quiet f) × TakesOffered f × (get_data b ≡ [])

-- A pipe with buffer limit `l`.
pub record PipeIsValid (l : ℕ) (p : TwibPipe) : Type 0 where
  pub limited_by : IsLimited l p.buffer
  pub state_valid : StateIsValid l p.buffer p.state

-- The bytes that have been written and are to be read.
abbrev pub pending : TwibPipe → List ℕ
pending p = get_data p.buffer ++ pending_in p.state

-- The bytes that read callbacks took.
abbrev pub taken : List Event → List ℕ
taken [] = []
taken (took xs ∷ events) = xs ++ taken events
taken (read_eof ∷ events) = taken events
taken (wrote w eof ∷ events) = taken events

pub taken-append : (xs ys : List Event) → taken (xs ++ ys) ≡ taken xs ++ taken ys
taken-append [] ys = refl
taken-append (took d ∷ xs) ys = rw (taken-append xs ys, append_assoc)
taken-append (read_eof ∷ xs) ys = taken-append xs ys
taken-append (wrote w eof ∷ xs) ys = taken-append xs ys

-- The call returns, and what it leaves and does is as said.
abbrev pub Returns : (TwibPipe → List Event → Type 0) → Result → Type 0
Returns P (done q events) = P q events
Returns P aborts = ⊥
Returns P empty_function = ⊥

pub Returns-after :
    (P Q : TwibPipe → List Event → Type 0) (before : List Event) (r : Result)
    → ((q : TwibPipe) (events : List Event) → P q events → Q q (before ++ events))
    → Returns P r
    → Returns Q (after before r)
Returns-after P Q before (done q events) h x = h q events x
Returns-after P Q before aborts h x = absurd x
Returns-after P Q before empty_function h x = absurd x

pub length-held : {l : ℕ} {b : Buffer} → IsLimited l b → length (get_data b) ≤ l
length-held {l} {b} o = omega (arith, length-get_data o.valid, o.valid.inside, bound.0)
  where
    bound : Within (some l) (length b.bytes)
    bound = subst (λ x. Within x (length b.bytes)) o.limit_is o.valid.within

nil_of_length : (xs : List ℕ) → length xs ≤ 0 → xs ≡ []
nil_of_length [] h = refl
nil_of_length (x ∷ xs) h = absurd (omega arith)

-- A buffer with limit 0 holds nothing.
pub held-zero : {l : ℕ} {b : Buffer} → IsLimited l b → l ≡ 0 → get_data b ≡ []
held-zero {l} {b} o z = nil_of_length (get_data b) (omega (arith, length-held o))

pub read_available_lem : {b : Buffer} → IsValid b → read_available b ≡ length (get_data b)
unfolding read_available
read_available_lem v = omega (arith, length-get_data v, v.ordered, v.inside, v.small)

pub make-IsValid : (l : ℕ) → l < 2 ^ 63 → PipeIsValid l (make l)
unfolding make limited
make-IsValid l h = record {
  limited_by = record {
    valid = record {
      ordered = omega arith;
      inside = omega arith;
      within = (omega (arith, length-replicate {A = ℕ} (min 2048 l) 0), h);
      small = omega (arith, length-replicate {A = ℕ} (min 2048 l) 0);
    };
    limit_is = refl;
  };
  state_valid = tt;
}
