-- ===== src/Responses/Transfers.antt =====
-- The pieces of data over USB, and the calls of `bsd_send` over TCP.
use twili.Base.{
  All, Bool-cases, List, [], ap, append-nil, append_assoc, arith, drop, inl, inr, length,
  length-drop, length-take, ltb, ltb→lt, refl, suc, take, take-append-drop, zero, ℕ, ◌++◌, ◌<◌,
  ◌==◌, ◌∙◌, ◌∷◌, ◌≡◌, ◌≤◌,
}
use twili.Responses.{send_data_usb, send_tcp, usb_pieces}
use twili.Responses.Packed.{flat}

abbrev pub AllFit : ℕ → List (List ℕ) → Type 0
AllFit max_size ps = All (λ p. (0 < length p) × (length p ≤ max_size)) ps

usb_pieces_lem :
    (max_size fuel : ℕ) (bytes : List ℕ)
    → 0 < max_size
    → 0 < length bytes
    → length bytes ≤ fuel
    → (flat (usb_pieces max_size fuel bytes) ≡ bytes)
      × AllFit max_size (usb_pieces max_size fuel bytes)
unfolding usb_pieces
usb_pieces_lem max_size zero bytes some_size some_bytes enough = absurd (omega arith)
usb_pieces_lem max_size (suc fuel) bytes some_size some_bytes enough =
    elim (Bool-cases (ltb max_size (length bytes))) [
      | inl e ↦
          let long = ltb→lt max_size (length bytes) e in
          let (whole, fit) =
            usb_pieces_lem max_size fuel (drop max_size bytes) some_size
              (omega (arith, length-drop max_size bytes, long))
              (omega (arith, length-drop max_size bytes)) in
          rw e (
            ap (◌++◌ (take max_size bytes)) whole ∙ take-append-drop max_size bytes,
            (
              (
                omega (arith, length-take max_size bytes, long),
                omega (arith, length-take max_size bytes),
              ),
              fit,
            ),
          )
      | inr e ↦ rw e (append-nil bytes, ((some_bytes, ground (arith, e)), tt))
    ]

-- Data goes over USB in order and as a whole, in pieces that are not empty and fit into the
-- transfer buffer: the fuel, which is the length, is enough for the loop.
pub send_data_usb_lem :
    (max_size : ℕ) (bytes : List ℕ)
    → 0 < max_size
    → (flat (send_data_usb max_size bytes) ≡ bytes) × AllFit max_size (send_data_usb max_size bytes)
unfolding send_data_usb
send_data_usb_lem max_size [] some_size = (refl, tt)
send_data_usb_lem max_size (x ∷ xs) some_size =
    usb_pieces_lem max_size (length (x ∷ xs)) (x ∷ xs) some_size (omega arith) (omega arith)

-- What is sent over TCP is the front of the bytes, whatever the calls say.
pub send_tcp_lem : (bytes rs : List ℕ) → (rest : List ℕ) × ((send_tcp bytes rs).0 ++ rest ≡ bytes)
unfolding send_tcp
send_tcp_lem bytes [] = (bytes, refl)
send_tcp_lem bytes (r ∷ rs) =
    let (rest, e) = send_tcp_lem (drop r bytes) rs in
    elim (Bool-cases (length bytes == 0)) [
      | inl f ↦ rw f (bytes, refl)
      | inr f ↦ elim (Bool-cases (r == 0)) [
        | inl g ↦ rw (f, g) (bytes, refl)
        | inr g ↦
            rw (f, g)
              (
                rest,
                append_assoc (take r bytes) (send_tcp (drop r bytes) rs).0 rest
                    ∙ ap (◌++◌ (take r bytes)) e
                    ∙ take-append-drop r bytes,
              )
      ]
    ]
