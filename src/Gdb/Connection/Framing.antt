-- ===== src/Gdb/Connection/Framing.antt =====
-- What `Process` makes of what `Respond` writes.
use twili.Base.{
  Bool-cases, List, [], add8, ap, append-nil, append_assoc, ap₂, arith, bit_xor, false,
  if◌then◌else◌, inl, inr, refl, true, ℕ, ◌%◌, ◌++◌, ◌/◌, ◌<◌, ◌==◌, ◌∙◌, ◌∷◌, ◌≡◌, ◌≢◌, ◌⊎◌,
}
use twili.Gdb.Hex.{decode_hex_byte, encode_from, encode_hex_nybble, encode_number}
use twili.Gdb.Hex.Digits.{decode_hex_byte_lem}
use twili.Gdb.Connection.{
  Connection, Outcome, Turn, check, escape, frame, goes_on, is_special, message, nothing, process,
  reading_packet_data, returns, signal_error, sum8, turn, waiting_packet_open, widened,
}

-- The payload as the receiver stores it: an escaped byte is followed by three zero bytes.
unfoldable pub received : List ℕ → List ℕ
received [] = []
received (ch ∷ bs) = (if is_special ch then ch ∷ 0 ∷ 0 ∷ 0 ∷ [] else ch ∷ []) ++ received bs

special_cases :
    (ch : ℕ) → is_special ch ≡ true → (ch ≡ b'#') ⊎ (ch ≡ b'$') ⊎ (ch ≡ b'}') ⊎ (ch ≡ b'*')
unfolding is_special
special_cases ch e = ground arith

widened-special : (ch : ℕ) → is_special ch ≡ true → widened (bit_xor ch 0x20) ≡ ch ∷ 0 ∷ 0 ∷ 0 ∷ []
unfolding widened
widened-special ch e = elim (special_cases ch e) [
  | inl h ↦ rw h
  | inr (inl h) ↦ rw h
  | inr (inr (inl h)) ↦ rw h
  | inr (inr (inr h)) ↦ rw h
]

abbrev pub reading : Connection → List ℕ → ℕ → Connection
reading c m k = record c { state = reading_packet_data; message_buffer = m; checksum = k }

process-plain :
    (c : Connection) (m : List ℕ) (k ch : ℕ) (rest : List ℕ)
    → is_special ch ≡ false
    → process (reading c m k) (ch ∷ rest) ≡ process (reading c (m ++ (ch ∷ [])) (add8 k ch)) rest
unfolding process turn is_special
process-plain c m k ch rest e =
    let hash : (ch == b'#') ≡ false = ground arith in
    let brace : (ch == b'}') ≡ false = ground arith in rw (hash, brace, process, turn)

process-escaped :
    (c : Connection) (m : List ℕ) (k x : ℕ) (rest : List ℕ)
    → process (reading c m k) (b'}' ∷ x ∷ rest)
      ≡ process (reading c (m ++ widened x) (add8 (add8 k b'}') x)) rest
unfolding process turn
process-escaped c m k x rest = refl

-- The bytes between `$` and `#` are unescaped into the message, and summed up.
process-escape :
    (c : Connection) (m : List ℕ) (k : ℕ) (bs rest : List ℕ)
    → process (reading c m k) (escape bs ++ rest)
      ≡ process (reading c (m ++ received bs) (sum8 k (escape bs))) rest
unfolding escape received sum8
process-escape c m k [] rest = rw append-nil
process-escape c m k (ch ∷ bs) rest = elim (Bool-cases (is_special ch)) [
  | inl e ↦
      rw (e, escape, received)
        (process-escaped c m k (bit_xor ch 0x20) (escape bs ++ rest)
          ∙ rw (widened-special ch e)
              (process-escape c (m ++ (ch ∷ 0 ∷ 0 ∷ 0 ∷ [])) _ bs rest ∙ rw append_assoc))
  | inr e ↦
      rw (e, escape, received)
        (process-plain c m k ch (escape bs ++ rest) e
          ∙ (process-escape c (m ++ (ch ∷ [])) (add8 k ch) bs rest ∙ rw append_assoc))
]

-- The loop goes on behind a turn.
abbrev pub resume : Turn → List ℕ → Outcome × Connection × List ℕ
resume (goes_on d) in_buffer = process d in_buffer
resume (returns o d) in_buffer = (o, d, in_buffer)

abbrev pub packet : List ℕ → ℕ → ℕ → List ℕ
packet body h0 h1 = b'$' ∷ (body ++ (b'#' ∷ h0 ∷ h1 ∷ []))

-- The connection when the last checksum digit of a packet has been read.
abbrev pub closed : Connection → List ℕ → ℕ → ℕ → Connection
closed c bs h0 h1 = record c {
  state = waiting_packet_open;
  message_buffer = received bs;
  checksum = sum8 0 (escape bs);
  checksum_hex_0 = h0;
  checksum_hex_1 = h1;
}

process-open :
    (c : Connection) (rest : List ℕ)
    → c.state ≡ waiting_packet_open
    → process c (b'$' ∷ rest) ≡ process (reading c [] 0) rest
unfolding process turn
process-open c rest e = rw (e, process, turn)

process-close :
    (c : Connection) (m : List ℕ) (k h0 h1 : ℕ) (rest : List ℕ)
    → process (reading c m k) (b'#' ∷ h0 ∷ h1 ∷ rest)
      ≡ resume
          (check (record c {
            state = waiting_packet_open;
            message_buffer = m;
            checksum = k;
            checksum_hex_0 = h0;
            checksum_hex_1 = h1;
          }))
          rest
unfolding process turn
process-close c m k h0 h1 rest = ground arith

-- A whole packet leads to the check of its two checksum digits.
process-packet :
    (c : Connection) (bs rest : List ℕ) (h0 h1 : ℕ)
    → c.state ≡ waiting_packet_open
    → process c (packet (escape bs) h0 h1 ++ rest) ≡ resume (check (closed c bs h0 h1)) rest
process-packet c bs rest h0 h1 e =
    process-open c _ e
    ∙ ap (process (reading c [] 0)) (append_assoc (escape bs) (b'#' ∷ h0 ∷ h1 ∷ []) rest)
    ∙ process-escape c [] 0 bs (b'#' ∷ h0 ∷ h1 ∷ rest)
    ∙ process-close c (received bs) (sum8 0 (escape bs)) h0 h1 rest

sum8-small : (k : ℕ) (xs : List ℕ) → k < 256 → sum8 k xs < 256
unfolding sum8
sum8-small k [] h = h
sum8-small k (x ∷ xs) h = sum8-small (add8 k x) xs (omega arith)

encode_byte :
    (n : ℕ) → encode_number n 1 ≡ encode_hex_nybble (n / 16 % 16) ∷ encode_hex_nybble (n % 16) ∷ []
unfolding encode_number encode_from
encode_byte n =
    ap₂ (λ a b. encode_hex_nybble a ∷ encode_hex_nybble b ∷ []) (omega arith) (omega arith)

frame-packet :
    (bs : List ℕ)
    → let k = sum8 0 (escape bs) in
      frame bs ≡ packet (escape bs) (encode_hex_nybble (k / 16 % 16)) (encode_hex_nybble (k % 16))
unfolding frame
frame-packet bs = ap (λ d. b'$' ∷ (escape bs ++ (b'#' ∷ d))) (encode_byte (sum8 0 (escape bs)))

check-good :
    (c : Connection)
    → decode_hex_byte c.checksum_hex_0 c.checksum_hex_1 ≡ c.checksum
    → check c
      ≡ returns
          (message c.message_buffer)
          (record c { sent = if c.ack_enabled then c.sent ++ (b'+' ∷ []) else c.sent })
unfolding check
check-good c e =
    let f : (decode_hex_byte c.checksum_hex_0 c.checksum_hex_1 == c.checksum) ≡ true =
      ground arith in
    rw (f, check)

-- A frame that arrives while no packet is open is delivered, at once and alone, and acknowledged if
-- that is enabled. What is delivered is the payload as `received` says.
pub process-frame :
    (c : Connection) (bs rest : List ℕ)
    → c.state ≡ waiting_packet_open
    → let r = process c (frame bs ++ rest) in
      (r.0 ≡ message (received bs))
      × (r.1.sent ≡ (if c.ack_enabled then c.sent ++ (b'+' ∷ []) else c.sent))
      × (r.1.state ≡ waiting_packet_open)
      × (r.1.error_flag ≡ c.error_flag)
      × (r.2 ≡ rest)
process-frame c bs rest e = rw (whole) (refl, refl, refl, refl, refl)
  where
    k : ℕ
    k = sum8 0 (escape bs)

    h0 : ℕ
    h0 = encode_hex_nybble (k / 16 % 16)

    h1 : ℕ
    h1 = encode_hex_nybble (k % 16)

    d : Connection
    d = closed c bs h0 h1

    whole : process c (frame bs ++ rest) ≡ (
      message (received bs),
      record d { sent = if c.ack_enabled then c.sent ++ (b'+' ∷ []) else c.sent },
      rest,
    )
    whole =
        ap (λ f. process c (f ++ rest)) (frame-packet bs)
        ∙ process-packet c bs rest h0 h1 e
        ∙ ap (λ t. resume t rest)
            (check-good d (decode_hex_byte_lem k (sum8-small 0 (escape bs) (omega arith))))

-- A packet with other checksum digits is not delivered. With acknowledgements a `-` asks for it
-- again, and the bytes behind it are read as before; without them it is an error.
pub process-bad_checksum :
    (c : Connection) (bs rest : List ℕ) (h0 h1 : ℕ)
    → c.state ≡ waiting_packet_open
    → decode_hex_byte h0 h1 ≢ sum8 0 (escape bs)
    → let d = closed c bs h0 h1 in
      process c (packet (escape bs) h0 h1 ++ rest) ≡ (
        if c.ack_enabled
        then process (record d { sent = c.sent ++ (b'-' ∷ []) }) rest
        else (nothing, record d { error_flag = true }, rest))
unfolding check signal_error
process-bad_checksum c bs rest h0 h1 e n =
    let f : (decode_hex_byte h0 h1 == sum8 0 (escape bs)) ≡ false = ground arith in
    process-packet c bs rest h0 h1 e
    ∙ elim (Bool-cases c.ack_enabled) [ inl a ↦ rw (f, a, check) | inr a ↦ rw (f, a, check) ]
