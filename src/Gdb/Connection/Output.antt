-- ===== src/Gdb/Connection/Output.antt =====
-- What `Respond` sends, and what the other end makes of it.
use twili.Base.{
  List, Option, [], ap, append-nil, append_assoc, arith, drop, if◌then◌else◌, length, length-drop,
  none, refl, some, sym, take, take-append-drop, ℕ, ◌++◌, ◌<◌, ◌∙◌, ◌∷◌, ◌≡◌, ◌≤◌,
}
use twili.Gdb.Connection.{
  Connection, frame, message, process, respond, signal_error, waiting_packet_open, write_out,
}
use twili.Gdb.Connection.Framing.{process-frame, received}

-- Whatever `write` answers, no byte is lost, made up or moved: what has been sent and what is left
-- are what was there. Bytes are left only where the call failed or has not returned.
pub write_out_lem :
    (c : Connection) (out_buffer : List ℕ) (answers : List (Option ℕ))
    → let (d, left) = write_out c out_buffer answers in d.sent ++ left ≡ c.sent ++ out_buffer
unfolding write_out signal_error
write_out_lem c [] answers = refl
write_out_lem c (b ∷ out_buffer) [] = refl
write_out_lem c (b ∷ out_buffer) (none ∷ answers) = refl
write_out_lem c (b ∷ out_buffer) (some r ∷ answers) =
    write_out_lem (record c { sent = c.sent ++ take r (b ∷ out_buffer) }) (drop r (b ∷ out_buffer))
      answers
    ∙ append_assoc c.sent (take r (b ∷ out_buffer)) (drop r (b ∷ out_buffer))
    ∙ ap (◌++◌ c.sent) (take-append-drop r (b ∷ out_buffer))

abbrev pub ArePositive : List (Option ℕ) → Type 0
ArePositive [] = Unit {0}
ArePositive (none ∷ answers) = ⊥
ArePositive (some r ∷ answers) = (0 < r) × ArePositive answers

write_out-done :
    (c : Connection) (out_buffer : List ℕ) (answers : List (Option ℕ))
    → ArePositive answers
    → length out_buffer ≤ length answers
    → (write_out c out_buffer answers).1 ≡ []
unfolding write_out
write_out-done c [] answers p h = refl
write_out-done c (b ∷ out_buffer) [] p h = absurd (omega arith)
write_out-done c (b ∷ out_buffer) (none ∷ answers) p h = absurd p
write_out-done c (b ∷ out_buffer) (some r ∷ answers) p h =
    write_out-done (record c { sent = c.sent ++ take r (b ∷ out_buffer) }) (drop r (b ∷ out_buffer))
      answers p.1 (omega (arith, p.0, length-drop r (b ∷ out_buffer)))

-- Where `write` always takes at least one byte, `Respond` ends once it has been called as often as
-- there are bytes, and has sent the frame; a peer that waits for a packet receives the payload as
-- `received` has it, with each byte that was escaped widened by the escape.
pub respond-process :
    (c peer : Connection) (bs rest : List ℕ) (answers : List (Option ℕ))
    → ArePositive answers
    → length (frame bs) ≤ length answers
    → peer.state ≡ waiting_packet_open
    → let (d, left) = respond c [] bs answers in
      (left ≡ [])
      × (d.sent ≡ c.sent ++ frame bs)
      × ((process peer (frame bs ++ rest)).0 ≡ message (received bs))
      × ((process peer (frame bs ++ rest)).2 ≡ rest)
unfolding respond
respond-process c peer bs rest answers p h e =
    (gone, sym append-nil' ∙ write_out_lem c (frame bs) answers, f.0, f.4)
  where
    gone : (write_out c (frame bs) answers).1 ≡ []
    gone = write_out-done c (frame bs) answers p h

    append-nil' :
        (write_out c (frame bs) answers).0.sent ++ (write_out c (frame bs) answers).1
        ≡ (write_out c (frame bs) answers).0.sent
    append-nil' = rw (gone, append-nil)

    f :
        ((process peer (frame bs ++ rest)).0 ≡ message (received bs))
        × ((process peer (frame bs ++ rest)).1.sent
            ≡ (if peer.ack_enabled then peer.sent ++ (b'+' ∷ []) else peer.sent))
        × ((process peer (frame bs ++ rest)).1.state ≡ waiting_packet_open)
        × ((process peer (frame bs ++ rest)).1.error_flag ≡ peer.error_flag)
        × ((process peer (frame bs ++ rest)).2 ≡ rest)
    f = process-frame peer bs rest e
