-- ===== src/MessageConnection/Output.antt =====
-- The output of a connection, over any order of `SendMessage` and `SignalWrite`.
use twili.Base.{
  Bool-cases, List, Option, [], ap, append-nil, append_assoc, arith, inl, inr, length,
  length-append, ltb, none, refl, some, sym, take, take-append-drop, ℕ, ◌++◌, ◌+◌, ◌<◌, ◌^◌, ◌∙◌,
  ◌∷◌, ◌≡◌, ◌≤◌,
}
use twili.Buffer.{Buffer, get_data, read_available, write}
use twili.Buffer.Inv.{IsValid, length-get_data}
use twili.Buffer.Queue.{limit-mark_read, mark_read-Refines, write_head-mark_read}
use twili.MessageConnection.{Connection, send_message, signal_write, signal_write_with}
use twili.Buffer.Trace.{write-head}
use twili.MessageConnection.Send.{write_unlimited}

-- A message that is sent, or a call of `SignalWrite` with the answer of `Send`.
pub data Call : Type 0 where
  sends : List ℕ → List ℕ → List ℕ → Call
  signals : Option ℕ → Call

abbrev pub call : Connection → Call → Connection × List ℕ
call c (sends mh payload object_ids) = (send_message c mh payload object_ids, [])
call c (signals answer) = signal_write c answer

-- The connection at the end, and the bytes that have gone out.
unfoldable pub run : Connection → List Call → Connection × List ℕ
run c [] = (c, [])
run c (x ∷ cs) = let (d, now) = call c x in let (e, later) = run d cs in (e, now ++ later)

-- The bytes of the messages that are sent.
abbrev pub written : List Call → List ℕ
written [] = []
written (sends mh payload object_ids ∷ cs) = (mh ++ (payload ++ object_ids)) ++ written cs
written (signals answer ∷ cs) = written cs

-- `Send` takes no more than it is given.
abbrev pub TakesGiven : Connection → Call → Type 0
TakesGiven c (sends mh payload object_ids) = Unit {0}
TakesGiven c (signals none) = Unit {0}
TakesGiven c (signals (some r)) = r ≤ length (get_data c.out_buffer)

abbrev pub AllTakeGiven : Connection → List Call → Type 0
AllTakeGiven c [] = Unit {0}
AllTakeGiven c (x ∷ cs) = TakesGiven c x × AllTakeGiven (call c x).0 cs

-- What a call keeps, and what it adds to the bytes that have gone out or are pending.
abbrev Flows : Connection → Call → Connection × List ℕ → Type 0
Flows c x (d, now) =
    IsValid d.out_buffer
    × (d.out_buffer.limit ≡ none)
    × (d.out_buffer.write_head ≤ c.out_buffer.write_head + length (written (x ∷ [])))
    × (now ++ get_data d.out_buffer ≡ get_data c.out_buffer ++ written (x ∷ []))

signal_write-Flows :
    (c : Connection) (answer : Option ℕ)
    → IsValid c.out_buffer
    → c.out_buffer.limit ≡ none
    → TakesGiven c (signals answer)
    → Flows c (signals answer) (signal_write c answer)
unfolding signal_write
signal_write-Flows c answer v l t = elim (Bool-cases (ltb 0 (read_available c.out_buffer))) [
  | inl e ↦ rw e (answered answer t)
  | inr e ↦ rw e (v, l, omega arith, sym (append-nil (get_data c.out_buffer)))
]
  where
    answered :
        (answer : Option ℕ)
        → TakesGiven c (signals answer)
        → Flows c (signals answer) (signal_write_with c answer)
    answered none t = (v, l, omega arith, sym (append-nil (get_data c.out_buffer)))
    answered (some r) t =
        let m =
          mark_read-Refines c.out_buffer r v (omega (arith, t, length-get_data v, v.ordered)) in
        (
          m.0,
          limit-mark_read c.out_buffer r ∙ l,
          omega (arith, write_head-mark_read c.out_buffer r),
          ap (λ x. take r (get_data c.out_buffer) ++ x) m.1
              ∙ take-append-drop r (get_data c.out_buffer)
              ∙ sym (append-nil (get_data c.out_buffer)),
        )

send_message-Flows :
    (c : Connection) (mh payload object_ids : List ℕ)
    → IsValid c.out_buffer
    → c.out_buffer.limit ≡ none
    → c.out_buffer.write_head + length (written (sends mh payload object_ids ∷ [])) < 2 ^ 63
    → Flows c (sends mh payload object_ids) (send_message c mh payload object_ids, [])
unfolding send_message
send_message-Flows c mh payload object_ids v l s = (
  w3.0,
  w3.1,
  omega (arith, h1, h2, h3, size),
  w3.2
      ∙ ap (λ x. x ++ object_ids) (w2.2 ∙ ap (λ x. x ++ payload) w1.2)
      ∙ append_assoc (get_data c.out_buffer ++ mh) payload object_ids
      ∙ append_assoc (get_data c.out_buffer) mh (payload ++ object_ids)
      ∙ ap (λ x. get_data c.out_buffer ++ x) (sym (append-nil (mh ++ (payload ++ object_ids)))),
)
  where
    size :
        length (written (sends mh payload object_ids ∷ []))
        ≡ length mh + length payload + length object_ids
    size = omega (
      arith,
      length-append (mh ++ (payload ++ object_ids)) [],
      length-append mh (payload ++ object_ids),
      length-append payload object_ids,
    )

    b1 : Buffer
    b1 = (write c.out_buffer mh).1

    b2 : Buffer
    b2 = (write b1 payload).1

    w1 : IsValid b1 × (b1.limit ≡ none) × (get_data b1 ≡ get_data c.out_buffer ++ mh)
    w1 = write_unlimited mh v l (omega (arith, s, size))

    h1 : b1.write_head ≤ c.out_buffer.write_head + length mh
    h1 = write-head mh v (omega (arith, s, size))

    w2 : IsValid b2 × (b2.limit ≡ none) × (get_data b2 ≡ get_data b1 ++ payload)
    w2 = write_unlimited payload w1.0 w1.1 (omega (arith, s, size, h1))

    h2 : b2.write_head ≤ b1.write_head + length payload
    h2 = write-head payload w1.0 (omega (arith, s, size, h1))

    w3 :
        IsValid (write b2 object_ids).1
        × ((write b2 object_ids).1.limit ≡ none)
        × (get_data (write b2 object_ids).1 ≡ get_data b2 ++ object_ids)
    w3 = write_unlimited object_ids w2.0 w2.1 (omega (arith, s, size, h1, h2))

    h3 : (write b2 object_ids).1.write_head ≤ b2.write_head + length object_ids
    h3 = write-head object_ids w2.0 (omega (arith, s, size, h1, h2))

call-Flows :
    (c : Connection) (x : Call)
    → IsValid c.out_buffer
    → c.out_buffer.limit ≡ none
    → c.out_buffer.write_head + length (written (x ∷ [])) < 2 ^ 63
    → TakesGiven c x
    → Flows c x (call c x)
call-Flows c (sends mh payload object_ids) v l s t =
    send_message-Flows c mh payload object_ids v l s
call-Flows c (signals answer) v l s t = signal_write-Flows c answer v l t

written-one : (x : Call) (cs : List Call) → written (x ∷ cs) ≡ written (x ∷ []) ++ written cs
written-one (sends mh payload object_ids) cs =
    ap (λ y. y ++ written cs) (sym (append-nil (mh ++ (payload ++ object_ids))))
written-one (signals answer) cs = refl

-- Over any messages that are sent and any calls of `SignalWrite`, the bytes that have gone out and
-- those that are pending are those that were pending and those of the messages, in order, as long
-- as the messages stay below 2^63 bytes and `Send` takes no more than it is given.
pub run-Flows :
    (c : Connection) (cs : List Call)
    → IsValid c.out_buffer
    → c.out_buffer.limit ≡ none
    → c.out_buffer.write_head + length (written cs) < 2 ^ 63
    → AllTakeGiven c cs
    → let (d, now) = run c cs in now ++ get_data d.out_buffer ≡ get_data c.out_buffer ++ written cs
unfolding run
run-Flows c [] v l s t = sym (append-nil (get_data c.out_buffer))
run-Flows c (x ∷ cs) v l s (t, ts) =
    append_assoc now later (get_data (run d cs).0.out_buffer)
    ∙ ap (λ y. now ++ y) (run-Flows d cs f.0 f.1 (omega (arith, s, f.2, size)) ts)
    ∙ sym (append_assoc now (get_data d.out_buffer) (written cs))
    ∙ ap (λ y. y ++ written cs) f.3
    ∙ append_assoc (get_data c.out_buffer) (written (x ∷ [])) (written cs)
    ∙ ap (λ y. get_data c.out_buffer ++ y) (sym (written-one x cs))
  where
    size : length (written (x ∷ cs)) ≡ length (written (x ∷ [])) + length (written cs)
    size = ap length (written-one x cs) ∙ length-append (written (x ∷ [])) (written cs)

    d : Connection
    d = (call c x).0

    now : List ℕ
    now = (call c x).1

    later : List ℕ
    later = (run d cs).1

    f :
        IsValid d.out_buffer
        × (d.out_buffer.limit ≡ none)
        × (d.out_buffer.write_head ≤ c.out_buffer.write_head + length (written (x ∷ [])))
        × (now ++ get_data d.out_buffer ≡ get_data c.out_buffer ++ written (x ∷ []))
    f = call-Flows c x v l (omega (arith, s, size)) t
