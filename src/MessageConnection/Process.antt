-- ===== src/MessageConnection/Process.antt =====
-- `Process` and the parse of the stream, whose pieces are what is ready for each `Recv`.
use twili.Base.{
  Bool, List, [], ap, append-nil, append_assoc, arith, false, length, length-append, length-take,
  none, refl, some, suc, sym, take, take-append, true, ℕ, ◌++◌, ◌+◌, ◌-◌, ◌<◌, ◌∙◌, ◌∷◌, ◌≡◌, ◌≤◌,
  ◌⊎◌,
}
use twili.Buffer.{Buffer, get_data}
use twili.Buffer.Bounded.{fill-IsOpen, reserve-IsOpen, reserve_space}
use twili.Protocol.{header_size}
use twili.MessageConnection.{Connection, Processed, received, signal_read, space, turns, with_left}
use twili.MessageConnection.Parse.{declared, parse}
use twili.MessageConnection.Stages.{
  FitsWith, Holds, IsUsable, at_header, at_ids, at_payload, message,
}
use twili.MessageConnection.Turn.{Fits}

abbrev pub joined : List (List ℕ) → List ℕ
joined [] = []
joined (piece ∷ input) = piece ++ joined input

pub with_left-joined :
    (left : List ℕ) (input : List (List ℕ)) → joined (with_left left input) ≡ left ++ joined input
with_left-joined [] input = refl
with_left-joined (x ∷ left) input = refl

-- What is left of a piece feeds fewer turns.
pub with_left-turns :
    (left : List ℕ) (input : List (List ℕ)) (k n : ℕ)
    → length left ≡ k - n
    → 0 < n
    → turns (with_left left input) < suc k + turns input
with_left-turns [] input k n e h = omega arith
with_left-turns (x ∷ left) input k n e h = omega arith

-- With a request, it is the first message of the stream, and what follows is kept; without one the
-- first message is not all there, the input is used up, and all of it is held.
abbrev pub IsParse : ℕ → List ℕ → Processed → Type 0
IsParse bound s (got, d, left) =
    IsUsable bound d
    × (((got ≡ true)
          × (d.has_current_mh ≡ false)
          × (parse s ≡ some (message d, get_data d.in_buffer ++ joined left)))
        ⊎ ((got ≡ false) × (left ≡ []) × Holds d s × (parse s ≡ none)))

pub Fits-append : {bound : ℕ} (s t : List ℕ) → Fits bound (s ++ t) → Fits bound s
Fits-append {bound} s t f = record {
  with_reserve = omega (arith, f.with_reserve, length-append s t);
  with_message = message_fits;
}
  where
    message_fits : header_size ≤ length s → FitsWith bound (take header_size s) s
    message_fits h =
        let e : take header_size (s ++ t) ≡ take header_size s = take-append header_size s t h in
        let g = f.with_message (omega (arith, length-append s t, h)) in
        omega (arith, g, ap declared e, length-append s t)

pub Holds-pending :
    {c : Connection} {s : List ℕ} → Holds c s → length (get_data c.in_buffer) ≤ length s
Holds-pending {c} (at_header h e) = omega (arith, ap length e)
Holds-pending {c} (at_payload h n m p e) =
    omega (arith, ap length e, length-append c.mh (get_data c.in_buffer))
Holds-pending {c} (at_ids h n m l i e) = omega (
  arith,
  ap length e,
  length-append c.mh (get_data c.payload ++ get_data c.in_buffer),
  length-append (get_data c.payload) (get_data c.in_buffer),
)

-- More bytes in the input buffer are held behind what is held.
Holds-append :
    {c : Connection} {s : List ℕ} (b : Buffer) (flag : Bool) (piece : List ℕ)
    → Holds c s
    → get_data b ≡ get_data c.in_buffer ++ piece
    → Holds (record c { in_buffer = b; error_flag = flag }) (s ++ piece)
Holds-append {c} b flag piece (at_header h e) k = at_header h (k ∙ ap (λ x. x ++ piece) e)
Holds-append {c} b flag piece (at_payload h n m p e) k = at_payload h n m p (
    ap (λ x. c.mh ++ x) k
    ∙ sym (append_assoc c.mh (get_data c.in_buffer) piece)
    ∙ ap (λ x. x ++ piece) e)
Holds-append {c} b flag piece (at_ids h n m l i e) k = at_ids h n m l i (
    ap (λ x. c.mh ++ (get_data c.payload ++ x)) k
    ∙ ap (λ x. c.mh ++ x) (sym (append_assoc (get_data c.payload) (get_data c.in_buffer) piece))
    ∙ sym (append_assoc c.mh (get_data c.payload ++ get_data c.in_buffer) piece)
    ∙ ap (λ x. x ++ piece) e)

received-Holds :
    {bound : ℕ} (c : Connection) (s stored : List ℕ)
    → IsUsable bound c
    → Holds c s
    → length stored ≤ space c
    → length s + 8192 ≤ bound
    → IsUsable bound (received c stored) × Holds (received c stored) (s ++ stored)
received-Holds {bound} c s [] u h small f =
    let r = reserve-IsOpen 8192 u.in_open (omega (arith, Holds-pending h, f)) in
    (
      record { in_open = r.0; payload_open = u.payload_open; ids_open = u.ids_open },
      Holds-append _ true [] h (r.1 ∙ sym (append-nil (get_data c.in_buffer))),
    )
received-Holds {bound} c s (ch ∷ rest) u h small f =
    let fits : length (get_data c.in_buffer) + 8192 ≤ bound = omega (arith, Holds-pending h, f) in
    let r = reserve-IsOpen 8192 u.in_open fits in
    let w = fill-IsOpen (ch ∷ rest) r.0 (omega (arith, small, reserve_space 8192 u.in_open fits)) in
    (
      record { in_open = w.0; payload_open = u.payload_open; ids_open = u.ids_open },
      Holds-append _ c.error_flag (ch ∷ rest) h (w.1 ∙ ap (λ x. x ++ (ch ∷ rest)) r.1),
    )

pub length-stored : (c : Connection) (piece : List ℕ) → length (take (space c) piece) ≤ space c
length-stored c piece = ground (arith, length-take (space c) piece)

pub signal_read-Holds :
    {bound : ℕ} (c : Connection) (s piece : List ℕ)
    → IsUsable bound c
    → Holds c s
    → length s + 8192 ≤ bound
    → IsUsable bound (signal_read c piece) × Holds (signal_read c piece) (s ++ take (space c) piece)
signal_read-Holds c s piece u h f =
    received-Holds c s (take (space c) piece) u h (length-stored c piece) f
