-- ===== src/TcpConnection/Commands.antt =====
-- `Process` over whole commands, and over a payload that arrives in two parts.
use twili.Base.{
  All, List, [], add64, ap, append-nil, arith, drop-append_length, false, inl, inr, length,
  length-append, ltb, min, not, refl, sub64, suc, sym, take-append_length, true, ℕ, ◌&&◌, ◌++◌, ◌+◌,
  ◌<◌, ◌==◌, ◌^◌, ◌∙◌, ◌∷◌, ◌≡◌, ◌≤◌, ◌⊎◌,
}
use twili.Protocol.{header_size, payload_size}
use twili.TcpConnection.{
  Connection, Event, after, again, begin_processing_command, finalize_command, finished,
  flush_receive_buffer, go_on, payload_in, process, pump_input, settle, stops, turn,
}

-- A header and its payload.
pub record Command : Type 0 where
  pub mh : List ℕ
  pub payload : List ℕ

pub record IsCommand (k : Command) : Type 0 where
  pub whole_header : length k.mh ≡ header_size
  pub payload_declared : length k.payload ≡ payload_size k.mh
  pub size_fits : payload_size k.mh < 2 ^ 64

abbrev pub wire : List Command → List ℕ
wire [] = []
wire (k ∷ ks) = k.mh ++ (k.payload ++ wire ks)

module _ (left_by : List ℕ → List ℕ) where
  -- What a command makes the main thread do.
  abbrev pub events : List Command → List Event
  events [] = []
  events (k ∷ ks) =
      begin_processing_command k.mh
      ∷ flush_receive_buffer k.payload
      ∷ finalize_command (left_by k.payload)
      ∷ events ks

  abbrev begun : Connection → List ℕ → List ℕ → Connection
  begun c mh rest = record c {
    in_buffer = rest;
    has_current_mh = true;
    has_current_payload = false;
    current_mh = mh;
    received = 0;
    payload_buffer = [];
  }

  turn-header :
      (c : Connection) (mh rest : List ℕ)
      → length mh ≡ header_size
      → turn left_by (record c { in_buffer = mh ++ rest; has_current_mh = false })
        ≡ payload_in left_by false (begun c mh rest) (begin_processing_command mh ∷ [])
  unfolding turn
  turn-header c mh rest e =
      let long : ltb (length (mh ++ rest)) header_size ≡ false =
        ground (arith, length-append mh rest) in
      rw
        (
          long,
          take-append_length header_size mh rest (sym e),
          drop-append_length header_size mh rest (sym e),
        )
        refl

  abbrev flushed : Connection → List ℕ → List ℕ → Connection
  flushed c p rest = record c {
    in_buffer = rest;
    received = c.received + length p;
    payload_buffer = left_by (c.payload_buffer ++ p);
  }

  -- The payload's part, whose bytes `p` have come in.
  payload_in-bytes :
      (c : Connection) (p rest : List ℕ) (es : List Event)
      → c.received + length p ≤ payload_size c.current_mh
      → payload_size c.current_mh < 2 ^ 64
      → (c.received + length p ≡ payload_size c.current_mh) ⊎ (rest ≡ [])
      → payload_in left_by false (record c { in_buffer = p ++ rest }) es
        ≡ settle left_by
            (c.received + length p == payload_size c.current_mh)
            (flushed c p rest)
            (es ++ (flush_receive_buffer (c.payload_buffer ++ p) ∷ []))
  payload_in-bytes c p rest es h small all =
      rw
        (
          amount all,
          no_wrap,
          take-append_length (length p) p rest refl,
          drop-append_length (length p) p rest refl,
        )
        refl
    where
      amount :
          (c.received + length p ≡ payload_size c.current_mh) ⊎ (rest ≡ [])
          → min (length (p ++ rest)) (sub64 (payload_size c.current_mh) c.received) ≡ length p
      amount (inl e) = omega (arith, length-append p rest, e, small)
      amount (inr e) = omega (arith, length-append p rest, ap length e, h, small)

      no_wrap : add64 c.received (length p) ≡ c.received + length p
      no_wrap = omega (arith, h, small)

  -- What a command leaves.
  abbrev done_with : Connection → Command → List ℕ → Connection
  done_with c k rest = record c {
    in_buffer = rest;
    has_current_mh = false;
    has_current_payload = false;
    current_mh = k.mh;
    received = 0 + length k.payload;
    payload_buffer = left_by k.payload;
  }

  turn-command :
      (c : Connection) (k : Command) (rest : List ℕ)
      → IsCommand k
      → turn left_by (record c { in_buffer = k.mh ++ (k.payload ++ rest); has_current_mh = false })
        ≡ again (done_with c k rest) (events (k ∷ []))
  turn-command c k rest v =
      turn-header c k.mh (k.payload ++ rest) v.whole_header
      ∙ payload_in-bytes (begun c k.mh []) k.payload rest (begin_processing_command k.mh ∷ [])
          (omega (arith, v.payload_declared)) v.size_fits (inl (omega (arith, v.payload_declared)))
      ∙ ap
          (λ b.
            settle left_by b (flushed (begun c k.mh []) k.payload rest)
              (begin_processing_command k.mh ∷ flush_receive_buffer k.payload ∷ []))
          complete
    where
      complete : (0 + length k.payload == payload_size k.mh) ≡ true
      complete = ground (arith, v.payload_declared)

  -- The connection behind whole commands.
  abbrev pub behind : Connection → List Command → Connection
  behind c [] = record c { in_buffer = []; has_current_mh = false }
  behind c (k ∷ ks) = behind (done_with c k []) ks

  process-nothing :
      (n : ℕ) (c : Connection)
      → c.deletion_flag ≡ false
      → process left_by (suc n) (record c { in_buffer = []; has_current_mh = false })
        ≡ finished (record c { in_buffer = []; has_current_mh = false }) []
  unfolding process
  process-nothing n c e = rw e refl

  process-command :
      (n : ℕ) (c : Connection) (k : Command) (rest : List ℕ)
      → c.deletion_flag ≡ false
      → IsCommand k
      → process left_by
          (suc n)
          (record c { in_buffer = k.mh ++ (k.payload ++ rest); has_current_mh = false })
        ≡ after left_by (events (k ∷ [])) (process left_by n (done_with c k rest))
  unfolding process
  process-command n c k rest e v =
      let goes : (not c.deletion_flag && ltb 0 (length (k.mh ++ (k.payload ++ rest)))) ≡ true =
        ground (arith, e, length-append k.mh (k.payload ++ rest), v.whole_header) in
      rw goes (ap (go_on left_by (process left_by n)) (turn-command c k rest v))

  after-events :
      (k : Command) (ks : List Command) (d : Connection)
      → after left_by (events (k ∷ [])) (finished d (events ks)) ≡ finished d (events (k ∷ ks))
  after-events k ks d = refl

  -- Over whole commands `Process` returns once its loop has been run for each of them and once more,
  -- with each command's header, payload and end handed on in order, and nothing left.
  pub process-commands :
      (c : Connection) (ks : List Command)
      → c.deletion_flag ≡ false
      → All IsCommand ks
      → process left_by (suc (length ks)) (record c { in_buffer = wire ks; has_current_mh = false })
        ≡ finished (behind c ks) (events ks)
  process-commands c [] e v = process-nothing 0 c e
  process-commands c (k ∷ ks) e v =
      process-command (suc (length ks)) c k (wire ks) e v.0
      ∙ ap (after left_by (events (k ∷ []))) (process-commands (done_with c k []) ks e v.1)

  -- A connection that waits for the rest of a payload.
  abbrev pub waiting : Connection → List ℕ → List ℕ → Connection
  waiting c mh p = record c {
    in_buffer = [];
    has_current_mh = true;
    has_current_payload = false;
    current_mh = mh;
    received = 0 + length p;
    payload_buffer = left_by p;
  }

  -- A payload that arrives in two parts is handed on in two parts, the second behind what the
  -- handler has left of the first, and the command ends with the second.
  pub process-split :
      (c : Connection) (mh p q : List ℕ)
      → c.deletion_flag ≡ false
      → IsCommand (record { mh = mh; payload = p ++ q })
      → 0 < length q
      → (process left_by 1 (record c { in_buffer = mh ++ p; has_current_mh = false })
          ≡ finished (waiting c mh p) (begin_processing_command mh ∷ flush_receive_buffer p ∷ []))
        × (process left_by 2 (pump_input (waiting c mh p) q)
            ≡ finished
                (record (waiting c mh p) {
                  has_current_mh = false;
                  received = 0 + length p + length q;
                  payload_buffer = left_by (left_by p ++ q);
                })
                (flush_receive_buffer (left_by p ++ q)
                  ∷ finalize_command (left_by (left_by p ++ q))
                  ∷ []))
  unfolding process turn pump_input
  process-split c mh p [] e v h = absurd (omega arith)
  process-split c mh p (ch ∷ q) e v h = (first, second)
    where
      total : length (p ++ (ch ∷ q)) ≡ length p + length (ch ∷ q)
      total = length-append p (ch ∷ q)

      goes : (not c.deletion_flag && ltb 0 (length (mh ++ p))) ≡ true
      goes = ground (arith, e, length-append mh p, v.whole_header)

      incomplete : (0 + length p == payload_size mh) ≡ false
      incomplete = ground (arith, total, v.payload_declared)

      header_turn :
          turn left_by (record c { in_buffer = mh ++ p; has_current_mh = false })
          ≡ stops (waiting c mh p) (begin_processing_command mh ∷ flush_receive_buffer p ∷ [])
      header_turn =
          turn-header c mh p v.whole_header
          ∙ ap (λ x. payload_in left_by false (begun c mh x) (begin_processing_command mh ∷ []))
              (sym (append-nil p))
          ∙ payload_in-bytes (begun c mh []) p [] (begin_processing_command mh ∷ [])
              (omega (arith, total, v.payload_declared)) v.size_fits (inr refl)
          ∙ ap
              (λ b.
                settle left_by b (flushed (begun c mh []) p [])
                  (begin_processing_command mh ∷ flush_receive_buffer p ∷ []))
              incomplete

      first :
          process left_by 1 (record c { in_buffer = mh ++ p; has_current_mh = false })
          ≡ finished (waiting c mh p) (begin_processing_command mh ∷ flush_receive_buffer p ∷ [])
      first = rw goes (ap (go_on left_by (process left_by 0)) header_turn)

      second :
          process left_by 2 (pump_input (waiting c mh p) (ch ∷ q))
          ≡ finished
              (record (waiting c mh p) {
                has_current_mh = false;
                received = 0 + length p + length (ch ∷ q);
                payload_buffer = left_by (left_by p ++ (ch ∷ q));
              })
              (flush_receive_buffer (left_by p ++ (ch ∷ q))
                ∷ finalize_command (left_by (left_by p ++ (ch ∷ q)))
                ∷ [])
      second =
          let goes' : (not c.deletion_flag && ltb 0 (length (ch ∷ q))) ≡ true = ground (arith, e) in
          rw goes' (
            ap (go_on left_by (process left_by 1)) payload_turn
            ∙ ap (after left_by ended) (process-nothing 0 arrived e))
        where
          arrived : Connection
          arrived = flushed (waiting c mh p) (ch ∷ q) []

          ended : List Event
          ended =
              flush_receive_buffer (left_by p ++ (ch ∷ q))
              ∷ finalize_command (left_by (left_by p ++ (ch ∷ q)))
              ∷ []

          complete : (0 + length p + length (ch ∷ q) == payload_size mh) ≡ true
          complete = ground (arith, total, v.payload_declared)

          payload_turn :
              turn left_by (record (waiting c mh p) { in_buffer = ch ∷ q })
              ≡ again (record arrived { has_current_mh = false; has_current_payload = false }) ended
          payload_turn =
              ap (λ x. payload_in left_by false (record (waiting c mh p) { in_buffer = x }) [])
                (sym (append-nil (ch ∷ q)))
              ∙ payload_in-bytes (waiting c mh p) (ch ∷ q) [] []
                  (omega (arith, total, v.payload_declared)) v.size_fits
                  (inl (omega (arith, total, v.payload_declared)))
              ∙ ap
                  (λ b.
                    settle left_by b arrived (flush_receive_buffer (left_by p ++ (ch ∷ q)) ∷ []))
                  complete
