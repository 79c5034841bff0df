-- ===== src/Gdb/Connection/Escapes.antt =====
-- What an escaped payload is received as.
use twili.Base.{
  Bool-cases, List, [], ap, arith, if◌then◌else◌, inl, inr, length, refl, ℕ, ◌*◌, ◌++◌, ◌+◌, ◌<◌,
  ◌∙◌, ◌∷◌, ◌≡◌, ◌≢◌,
}
use twili.Gdb.Connection.{Connection, frame, is_special, message, process, waiting_packet_open}
use twili.Gdb.Connection.Framing.{process-frame, received}

abbrev pub specials : List ℕ → ℕ
specials [] = 0
specials (ch ∷ bs) = (if is_special ch then 1 else 0) + specials bs

-- A payload is received three bytes longer for each byte that had to be escaped.
pub length-received : (bs : List ℕ) → length (received bs) ≡ length bs + 3 * specials bs
unfolding received
length-received [] = refl
length-received (ch ∷ bs) = elim (Bool-cases (is_special ch)) [
  | inl e ↦ rw (e, received) (omega (arith, length-received bs))
  | inr e ↦ rw (e, received) (omega (arith, length-received bs))
]

-- A payload with no byte to escape is received as it was.
pub received_plain : (bs : List ℕ) → specials bs ≡ 0 → received bs ≡ bs
unfolding received
received_plain [] z = refl
received_plain (ch ∷ bs) z = elim (Bool-cases (is_special ch)) [
  | inl e ↦ let n : 1 + specials bs ≡ 0 = rw e at z in absurd (omega arith)
  | inr e ↦
      rw (e, received)
        (ap (◌∷◌ ch) (received_plain bs (let n : 0 + specials bs ≡ 0 = rw e at z in omega arith)))
]

-- A payload of which a byte has to be escaped is delivered longer than it was sent: the frame's
-- reader stores four bytes for it.
pub escaped_grows :
    (c : Connection) (bs rest : List ℕ)
    → c.state ≡ waiting_packet_open
    → 0 < specials bs
    → (m : List ℕ) × ((process c (frame bs ++ rest)).0 ≡ message m)
      × (length m ≡ length bs + 3 * specials bs)
      × (m ≢ bs)
escaped_grows c bs rest e h = (
  received bs,
  (process-frame c bs rest e).0,
  length-received bs,
  λ same. absurd (omega (arith, ap length same, length-received bs)),
)

-- A payload with no byte to escape is delivered as it was sent.
pub plain_arrives :
    (c : Connection) (bs rest : List ℕ)
    → c.state ≡ waiting_packet_open
    → specials bs ≡ 0
    → let r = process c (frame bs ++ rest) in (r.0 ≡ message bs) × (r.2 ≡ rest)
plain_arrives c bs rest e z =
    let f = process-frame c bs rest e in (f.0 ∙ ap message (received_plain bs z), f.4)
