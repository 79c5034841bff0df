-- ===== src/MessageConnection/Send.antt =====
-- What `SendMessage` puts on the wire, and what the other end makes of it.
use twili.Base.{
  List, [], ap, append_assoc, ap₂, arith, drop-append_length, false, inl, inr, length,
  length-append, none, refl, some, sym, take-append_length, true, ℕ, ◌*◌, ◌++◌, ◌+◌, ◌<◌, ◌^◌, ◌∙◌,
  ◌≡◌,
}
use twili.Buffer.{Buffer, get_data, write}
use twili.Buffer.Inv.{IsValid}
use twili.Buffer.Queue.{push, write-Refines}
use twili.Buffer.Trace.{write-head}
use twili.Protocol.{header_size, object_count, payload_size}
use twili.MessageConnection.{Connection, Processed, process, send_message}
use twili.MessageConnection.Parse.{parse, parse-header, parse-short, parse_body-payload}
use twili.MessageConnection.Turn.{Fits}
use twili.MessageConnection.Stages.{IsUsable, at_header, message}
use twili.MessageConnection.Process.{IsParse, joined}
use twili.MessageConnection.Loop.{process-IsParse}

-- A header that declares the sizes of what is sent with it.
pub record IsMessage (mh payload object_ids : List ℕ) : Type 0 where
  pub whole_header : length mh ≡ header_size
  pub payload_declared : length payload ≡ payload_size mh
  pub ids_declared : length object_ids ≡ object_count mh * 4

push-unlimited : (q src : List ℕ) → push none q src ≡ (true, q ++ src)
unfolding push
push-unlimited q src = refl

pub write_unlimited :
    {b : Buffer} (src : List ℕ)
    → IsValid b
    → b.limit ≡ none
    → b.write_head + length src < 2 ^ 63
    → IsValid (write b src).1
      × ((write b src).1.limit ≡ none)
      × (get_data (write b src).1 ≡ get_data b ++ src)
write_unlimited {b} src v l s =
    let w = write-Refines src v s in
    (
      w.0,
      w.1 ∙ l,
      ap (λ x. x.1) (w.2 ∙ ap (λ o. push o (get_data b) src) l ∙ push-unlimited (get_data b) src),
    )

-- A whole message at the front of a stream is parsed.
pub parse-message :
    (mh payload object_ids rest : List ℕ)
    → IsMessage mh payload object_ids
    → parse (mh ++ (payload ++ (object_ids ++ rest))) ≡ some ((mh, payload, object_ids), rest)
parse-message mh payload object_ids rest m =
    parse-header mh (payload ++ (object_ids ++ rest)) m.whole_header
    ∙ parse_body-payload mh payload (object_ids ++ rest) m.payload_declared
        (omega (arith, m.ids_declared, length-append object_ids rest))
    ∙ ap₂ (λ x y. some ((mh, payload, x), y))
        (take-append_length (object_count mh * 4) object_ids rest (sym m.ids_declared))
        (drop-append_length (object_count mh * 4) object_ids rest (sym m.ids_declared))

-- `SendMessage` appends the header, the payload and the object ids to the output.
pub send_message_lem :
    (c : Connection) (mh payload object_ids : List ℕ)
    → IsValid c.out_buffer
    → c.out_buffer.limit ≡ none
    → c.out_buffer.write_head + length mh + length payload + length object_ids < 2 ^ 63
    → get_data (send_message c mh payload object_ids).out_buffer
      ≡ get_data c.out_buffer ++ (mh ++ (payload ++ object_ids))
unfolding send_message
send_message_lem c mh payload object_ids v l s =
    let b1 = (write c.out_buffer mh).1 in
    let b2 = (write b1 payload).1 in
    let h1 = write-head {b = c.out_buffer} mh v (omega (arith, s)) in
    let w1 = write_unlimited {b = c.out_buffer} mh v l (omega (arith, s)) in
    let h2 = write-head {b = b1} payload w1.0 (omega (arith, s, h1)) in
    let w2 = write_unlimited {b = b1} payload w1.0 w1.1 (omega (arith, s, h1)) in
    let w3 = write_unlimited {b = b2} object_ids w2.0 w2.1 (omega (arith, s, h1, h2)) in
    w3.2
    ∙ ap (λ x. x ++ object_ids) (w2.2 ∙ ap (λ x. x ++ payload) w1.2)
    ∙ append_assoc (get_data c.out_buffer ++ mh) payload object_ids
    ∙ append_assoc (get_data c.out_buffer) mh (payload ++ object_ids)

-- The first message that a connection sends is the first that the other end's `Process` returns,
-- in whatever pieces its bytes are ready and received, while it and the reserve of the input buffer
-- fit in memory, and what is sent behind it stays for the next call.
pub send_message-process :
    {bound : ℕ} (c peer : Connection) (mh payload object_ids rest : List ℕ) (input : List (List ℕ))
    → IsValid c.out_buffer
    → c.out_buffer.limit ≡ none
    → get_data c.out_buffer ≡ []
    → c.out_buffer.write_head + length mh + length payload + length object_ids < 2 ^ 63
    → IsMessage mh payload object_ids
    → IsUsable bound peer
    → peer.has_current_mh ≡ false
    → get_data peer.in_buffer ≡ []
    → Fits bound (joined input)
    → joined input ≡ get_data (send_message c mh payload object_ids).out_buffer ++ rest
    → let (found, d, left) = process peer input in
      (found ≡ true)
      × (message d ≡ (mh, payload, object_ids))
      × (get_data d.in_buffer ++ joined left ≡ rest)
send_message-process {bound} c peer mh payload object_ids rest input v l q s m u h e f w =
    received (process peer input)
      (process-IsParse peer [] input u (at_header h e) (inr (parse-short [] (omega arith))) f)
  where
    sent : parse (joined input) ≡ some ((mh, payload, object_ids), rest)
    sent =
        ap parse (
          w
          ∙ ap (λ x. x ++ rest)
              (send_message_lem c mh payload object_ids v l s
                ∙ ap (λ x. x ++ (mh ++ (payload ++ object_ids))) q)
          ∙ append_assoc mh (payload ++ object_ids) rest
          ∙ ap (λ x. mh ++ x) (append_assoc payload object_ids rest))
        ∙ parse-message mh payload object_ids rest m

    received :
        (r : Processed)
        → IsParse bound (joined input) r
        → (r.0 ≡ true)
          × (message r.1 ≡ (mh, payload, object_ids))
          × (get_data r.1.in_buffer ++ joined r.2 ≡ rest)
    received (found, d, left) (u', inl (g, h', p)) =
        let same : some (message d, get_data d.in_buffer ++ joined left)
            ≡ some ((mh, payload, object_ids), rest) =
          sym p ∙ sent in
        (g, cc same, cc same)
    received (found, d, left) (u', inr (g, n, h', p)) =
        let never : none ≡ some ((mh, payload, object_ids), rest) = sym p ∙ sent in
        absurd (cc never)
