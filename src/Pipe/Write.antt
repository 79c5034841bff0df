-- ===== src/Pipe/Write.antt =====
-- `Write`: what it returns, and where its bytes go.
use twili.Pipe.{
  Event, Result, State, TwibPipe, done, idle, pending_in, read_pending, write, write_buffered,
  write_in, write_pending, write_through, wrote,
}
use twili.Base.{
  ==_iff, Bool, Bool-cases, List, [], ap, append-nil, arith, false, if◌then◌else◌, inl, inr, length,
  length-drop, ltb, ltb→lt, refl, some, subst, sym, take-append-drop, true, ℕ, ◌++◌, ◌+◌, ◌<◌, ◌==◌,
  ◌^◌, ◌||◌, ◌∙◌, ◌∷◌, ◌≡◌, ◌⊎◌,
}
use twili.Buffer
use twili.Buffer.{Buffer, get_data}
use twili.Buffer.Inv.{Within}
use twili.Buffer.Queue.{Refines, push, write-Refines}
use twili.Pipe.Flush.{IsLimited}
use twili.Pipe.Inv.{PipeIsValid, Returns, StateIsValid, TakesOffered, pending, quiet, taken}

abbrev pub IsNotWriting : State → Type 0
IsNotWriting idle = Unit {0}
IsNotWriting (write_pending d w) = ⊥
IsNotWriting (read_pending cb) = Unit {0}

-- What a write leaves: a valid pipe, with the bytes behind those that were there.
abbrev Accepts : ℕ → List ℕ → List ℕ → TwibPipe → List Event → Type 0
Accepts l stream bytes q events = PipeIsValid l q × (taken events ++ pending q ≡ stream ++ bytes)

write_buffered_lem :
    {l : ℕ} (p : TwibPipe) (bytes : List ℕ) (w : ℕ) (r : Bool × Buffer)
    → p.state ≡ idle
    → IsLimited l p.buffer
    → 0 < length bytes
    → length bytes + l < 2 ^ 63
    → Refines p.buffer r (push p.buffer.limit (get_data p.buffer) bytes)
    → Returns (Accepts l (get_data p.buffer) bytes) (write_buffered p bytes w r)
unfolding push
write_buffered_lem p bytes w (true, b) i o n s (v, lim, e) = (
  record { limited_by = record { valid = v; limit_is = lim ∙ o.limit_is }; state_valid = rw i tt },
  ap (λ x. get_data b ++ pending_in x) i ∙ append-nil (get_data b) ∙ ground arith,
)
write_buffered_lem p bytes w (false, b) i o n s (v, lim, e) = (
  record { limited_by = record { valid = v; limit_is = lim ∙ o.limit_is }; state_valid = (n, s) },
  ap (λ x. x ++ bytes) (ground arith),
)

write_through_lem :
    {l : ℕ} (p : TwibPipe) (bytes : List ℕ) (w : ℕ) (f : List ℕ → ℕ)
    → IsLimited l p.buffer
    → length bytes + l < 2 ^ 63
    → TakesOffered f
    → get_data p.buffer ≡ []
    → Returns (Accepts l (get_data p.buffer) bytes) (write_through p bytes w (quiet f bytes))
write_through_lem {l} p bytes w f o s t z = elim (Bool-cases (ltb (f bytes) (length bytes))) [
  | inl e ↦
      rw (e, write_through)
        (
          record {
            limited_by = o;
            state_valid = (
              omega (arith, ltb→lt (f bytes) (length bytes) e, length-drop (f bytes) bytes),
              omega (arith, length-drop (f bytes) bytes),
            );
          },
          rw (append-nil, z) (take-append-drop (f bytes) bytes),
        )
  | inr e ↦
      let all : (f bytes == length bytes) ≡ true = ground (arith, t bytes) in
      rw (e, all, write_through)
        (
          record { limited_by = o; state_valid = tt },
          rw z (append-nil (bytes ++ []) ∙ append-nil bytes),
        )
]

write_in_lem :
    {l : ℕ} (s : State) (p : TwibPipe) (bytes : List ℕ) (w : ℕ)
    → p.state ≡ s
    → IsNotWriting s
    → IsLimited l p.buffer
    → StateIsValid l p.buffer s
    → 0 < length bytes
    → length bytes + l < 2 ^ 63
    → Returns (Accepts l (get_data p.buffer ++ pending_in s) bytes) (write_in s p bytes w)
write_in_lem {l} idle p bytes w e n o v h s = rw (append-nil (get_data p.buffer)) (
    write_buffered_lem p bytes w (Buffer.write p.buffer bytes) e o h s
      (write-Refines bytes o.valid (omega (arith, o.valid.inside, bound.0))))
  where
    bound : Within (some l) (length p.buffer.bytes)
    bound = subst (λ x. Within x (length p.buffer.bytes)) o.limit_is o.valid.within
write_in_lem (write_pending d u) p bytes w e n o v h s = absurd n
write_in_lem {l} (read_pending cb) p bytes w e n o (f, c, t, z) h s =
    rw (append-nil (get_data p.buffer)) (
      subst (λ g. Returns (Accepts l (get_data p.buffer) bytes) (write_through p bytes w (g bytes)))
        (sym c) (write_through_lem p bytes w f o s t z))

nil_of_test : (xs : List ℕ) → (length xs == 0) ≡ true → xs ≡ []
nil_of_test [] h = refl
nil_of_test (x ∷ xs) h = absurd (omega (arith, (==_iff (length (x ∷ xs)) 0).0 h))

-- Unless a write is pending already, or a reader waits that takes more than it is offered or makes a
-- call on the pipe, `Write` returns and leaves a valid pipe. While the end of the
-- file has not been hit, its bytes stand behind all others: what a waiting reader has taken and
-- what is pending are what was pending and the bytes. After it they are dropped.
pub write-stream :
    {l : ℕ} (p : TwibPipe) (bytes : List ℕ) (w : ℕ)
    → PipeIsValid l p
    → IsNotWriting p.state
    → length bytes + l < 2 ^ 63
    → Returns
        (λ q events.
          PipeIsValid l q
          × (taken events ++ pending q ≡ pending p ++ (if p.hit_eof then [] else bytes)))
        (write p bytes w)
unfolding write
write-stream {l} p bytes w v n s = cases p.hit_eof (Bool-cases (length bytes == 0))
  where
    Goal : Bool → Result → Type 0
    Goal eof = Returns λ q events.
        PipeIsValid l q × (taken events ++ pending q ≡ pending p ++ (if eof then [] else bytes))

    cases :
        (eof : Bool)
        → ((length bytes == 0) ≡ true) ⊎ ((length bytes == 0) ≡ false)
        → Goal eof (
            if length bytes == 0 || eof
            then done p (wrote w eof ∷ [])
            else write_in p.state p bytes w)
    cases true (inl e) = rw e (v, sym (append-nil (pending p)))
    cases true (inr e) = rw e (v, sym (append-nil (pending p)))
    cases false (inl e) =
        rw e (v, sym (ap (◌++◌ (pending p)) (nil_of_test bytes e) ∙ append-nil (pending p)))
    cases false (inr e) =
        rw e (write_in_lem p.state p bytes w refl n v.limited_by v.state_valid (ground arith) s)
