-- ===== src/MessageConnection/Session.antt =====
-- A client that calls `Process` as long as it returns requests, as SocketFrontend.cpp and the
-- backends of the daemon do.
use twili.Base.{
  Bool-cases, List, Option, [], ap, arith, false, inl, inr, length, ltb, none, refl, some, suc,
  true, zero, ℕ, ◌++◌, ◌∷◌, ◌≡◌,
}
use twili.Buffer.{get_data, read_available}
use twili.MessageConnection.{Connection, Processed, process}
use twili.MessageConnection.Parse.{parse, parse-short}
use twili.MessageConnection.Stages.{Holds, IsUsable, at_header, message}
use twili.MessageConnection.Turn.{Fits}
use twili.MessageConnection.Process.{IsParse, joined}
use twili.MessageConnection.Loop.{IsAwake, no_bytes, process-IsParse}

-- At most `n` requests, one after the other.
abbrev receive_with :
    (Connection → List (List ℕ) → List (List ℕ × List ℕ × List ℕ))
    → Processed
    → List (List ℕ × List ℕ × List ℕ)
receive_with next (false, c, left) = []
receive_with next (true, c, left) = message c ∷ next c left

unfoldable pub receive : ℕ → Connection → List (List ℕ) → List (List ℕ × List ℕ × List ℕ)
receive zero c input = []
receive (suc n) c input = receive_with (receive n) (process c input)

-- The messages of a stream, at most `n` of them.
abbrev messages_with :
    (List ℕ → List (List ℕ × List ℕ × List ℕ))
    → Option ((List ℕ × List ℕ × List ℕ) × List ℕ)
    → List (List ℕ × List ℕ × List ℕ)
messages_with next none = []
messages_with next (some (m, rest)) = m ∷ next rest

unfoldable pub messages : ℕ → List ℕ → List (List ℕ × List ℕ × List ℕ)
messages zero s = []
messages (suc n) s = messages_with (messages n) (parse s)

-- Each of these messages fits in the buffers.
abbrev AllFitWith : (List ℕ → Type 0) → Option ((List ℕ × List ℕ × List ℕ) × List ℕ) → Type 0
AllFitWith next none = Unit {0}
AllFitWith next (some (m, rest)) = next rest

abbrev pub AllFit : ℕ → ℕ → List ℕ → Type 0
AllFit bound zero s = Unit {0}
AllFit bound (suc n) s = Fits bound s × AllFitWith (AllFit bound n) (parse s)

-- Over a request an empty input buffer has no message.
pending-IsAwake : {bound : ℕ} (c : Connection) → IsUsable bound c → IsAwake c (get_data c.in_buffer)
pending-IsAwake c u = elim (Bool-cases (ltb 0 (read_available c.in_buffer))) [
  | inl e ↦ inl e
  | inr e ↦ inr (
      parse-short (get_data c.in_buffer)
        (omega (arith, ap length (no_bytes c.in_buffer u.in_open.valid e))))
]

receive_with_lem :
    {bound : ℕ} (n : ℕ) (s : List ℕ) (r : Processed)
    → IsParse bound s r
    → AllFitWith (AllFit bound n) (parse s)
    → ((c : Connection) (s : List ℕ) (input : List (List ℕ))
        → IsUsable bound c
        → Holds c s
        → IsAwake c s
        → AllFit bound n (s ++ joined input)
        → receive n c input ≡ messages n (s ++ joined input))
    → receive_with (receive n) r ≡ messages_with (messages n) (parse s)
receive_with_lem n s (got, d, left) (u, inl (g, h, e)) f ih =
    rw (g, e)
      (ap (λ x. message d ∷ x)
        (ih d (get_data d.in_buffer) left u (at_header h refl) (pending-IsAwake d u) (rw e at f)))
receive_with_lem n s (got, d, left) (u, inr (g, l, h, e)) f ih = rw (g, e) refl

-- The requests that `Process` returns, one call after the other, are the messages of the stream
-- that is held and that comes in, in whatever pieces it is ready and received, while the messages
-- and the reserve of the input buffer fit in memory.
pub receive-eq-messages :
    {bound : ℕ} (n : ℕ) (c : Connection) (s : List ℕ) (input : List (List ℕ))
    → IsUsable bound c
    → Holds c s
    → IsAwake c s
    → AllFit bound n (s ++ joined input)
    → receive n c input ≡ messages n (s ++ joined input)
unfolding receive messages
receive-eq-messages zero c s input u h a f = refl
receive-eq-messages {bound} (suc n) c s input u h a f =
    receive_with_lem {bound = bound} n (s ++ joined input) (process c input)
      (process-IsParse c s input u h a f.0) f.1
      (λ c s input u h a f. receive-eq-messages {bound = bound} n c s input u h a f)
