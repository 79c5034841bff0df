-- ===== src/UsbCompletion/Payload.antt =====
-- The payload of a command in its transfers.
use twili.Base.{
  All, List, [], add64, ap, arith, false, length, ltb, min, refl, subst, take-all, true, ℕ, ◌++◌,
  ◌+◌, ◌-◌, ◌<◌, ◌==◌, ◌^◌, ◌∙◌, ◌∷◌, ◌≡◌, ◌≤◌,
}
use twili.Protocol.{object_count, payload_size}
use twili.UsbReader.{
  Event, Handlers, Reader, Result, buffer_size, cleanup_command, end_object, ends_object,
  finalize_command, finalizes, finish_by, flushes, go_on, leaves, null_pointer, post_data_buffer,
  posts_data, ran, reset_handler, then_do,
}
use twili.UsbCompletion.{
  Report, after_flush, data_transaction_completed, flush_by, ran_as, with_events,
}

-- The handler takes what it can of each part and leaves the rest.
pub record Streams (h : Handlers) (left_by : List ℕ → List ℕ) : Type 0 where
  pub flushed : (q : List ℕ) → h.flush q ≡ leaves false (left_by q)

abbrev pub report : List ℕ → Report
report c = record { urb_status = 3; transferred_size = length c; buffer = c }

abbrev pub then_run : (Reader → Result) → Result → Result
then_run next (ran r events) = with_events events (next r)
then_run next null_pointer = null_pointer

-- The completions of some transfers.
unfoldable pub run_data : Handlers → Reader → List (List ℕ) → Result
run_data h r [] = ran r []
run_data h r (c ∷ cs) =
    then_run (λ r'. run_data h r' cs) (data_transaction_completed h true (report c) r)

abbrev pub total_length : List (List ℕ) → ℕ
total_length [] = 0
total_length (c ∷ cs) = length c + total_length cs

abbrev pub AllNonempty : List (List ℕ) → Type 0
AllNonempty cs = All (λ c. 0 < length c) cs

-- What is asked for next, with `n` bytes to come.
abbrev pub next_post : ℕ → Event
next_post n = posts_data (min n buffer_size)

-- The handler sees each part behind what it has left of those before; each but the last is followed
-- by a post of a buffer for what is missing, and the last by the end of the command.
unfoldable pub handed_on : (List ℕ → List ℕ) → List ℕ → List ℕ → List (List ℕ) → List Event
handed_on left_by q c [] = flushes (q ++ c) ∷ finalizes (left_by (q ++ c)) ∷ ends_object ∷ []
handed_on left_by q c (c' ∷ cs) =
    flushes (q ++ c)
    ∷ next_post (total_length (c' ∷ cs))
    ∷ handed_on left_by (left_by (q ++ c)) c' cs

-- A command that has received a part of its payload, and has no object ids.
pub record Receives (r : Reader) (missing : ℕ) : Type 0 where
  pub handled : r.has_handler ≡ true
  pub with_object : r.has_object ≡ true
  pub without_ids : object_count r.current_header ≡ 0
  pub declared : r.received + missing ≡ payload_size r.current_header
  pub small : payload_size r.current_header < 2 ^ 64

-- The reader after the end of a command.
unfoldable ended : Handlers → Reader → Reader
ended h r =
    reset_handler (record r { payload_buffer = h.finish r.payload_buffer; has_object = false })

finalize_command_lem :
    (h : Handlers) (r : Reader)
    → r.has_handler ≡ true
    → r.has_object ≡ true
    → finalize_command h r ≡ (ended h r, finalizes r.payload_buffer ∷ ends_object ∷ [])
unfolding finalize_command cleanup_command ended
finalize_command_lem h r handled with_object =
    ap (λ b. then_do (finish_by h b r) cleanup_command) handled
    ∙ ap (λ o. (ended h r, finalizes r.payload_buffer ∷ end_object o)) with_object

-- The command after a transfer.
abbrev pub received_by : (List ℕ → List ℕ) → List ℕ → Reader → Reader
received_by left_by c r = record r {
  received = add64 r.received (length c);
  payload_buffer = left_by (r.payload_buffer ++ c);
}

module _ (h : Handlers) {left_by : List ℕ → List ℕ} (s : Streams h left_by) (r : Reader)
    (missing : ℕ) (w : Receives r missing) (c : List ℕ) where
  received_lem : length c ≤ missing → add64 r.received (length c) ≡ r.received + length c
  received_lem fits = omega (arith, w.declared, w.small)

  -- A transfer that fits is flushed, and what follows is as the sizes say.
  transfer_lem :
      0 < length c
      → length c ≤ missing
      → data_transaction_completed h true (report c) r
        ≡ with_events
            (flushes (r.payload_buffer ++ c) ∷ [])
            (ran_as (go_on h true (received_by left_by c r)))
  unfolding data_transaction_completed
  transfer_lem some_bytes fits =
      let e = received_lem fits in
      let more : (r.received == payload_size r.current_header) ≡ false =
        ground (arith, w.declared) in
      let inside : ltb (payload_size r.current_header) (add64 r.received (length c)) ≡ false =
        ground (arith, e, w.declared) in
      rw (more, inside)
        (ap (λ p. flush_by h true r.has_handler (with_payload (r.payload_buffer ++ p)))
            (take-all (length c) c (omega arith))
          ∙ ap (λ b. flush_by h true b (with_payload (r.payload_buffer ++ c))) w.handled
          ∙ ap
              (λ f.
                after_flush h true (flushes (r.payload_buffer ++ c) ∷ []) f
                  (with_payload (r.payload_buffer ++ c)))
              (s.flushed (r.payload_buffer ++ c)))
    where
      with_payload : List ℕ → Reader
      with_payload q = record r { received = add64 r.received (length c); payload_buffer = q }

  received_by-Receives :
      length c < missing → Receives (received_by left_by c r) (missing - length c)
  received_by-Receives part = record {
    handled = w.handled;
    with_object = w.with_object;
    without_ids = w.without_ids;
    declared = omega (arith, received_lem (omega arith), w.declared);
    small = w.small;
  }

  part_lem :
      length c < missing
      → go_on h true (received_by left_by c r)
        ≡ (received_by left_by c r, next_post (missing - length c) ∷ [])
  unfolding go_on post_data_buffer
  part_lem part =
      let e = received_lem (omega arith) in
      let more : ltb (add64 r.received (length c)) (payload_size r.current_header) ≡ true =
        ground (arith, e, w.declared) in
      rw more (
        ap (λ n. (received_by left_by c r, posts_data n ∷ []))
          (ground (arith, e, w.declared, w.small)))

  last_lem :
      length c ≡ missing
      → go_on h true (received_by left_by c r) ≡ (
        ended h (received_by left_by c r),
        finalizes (left_by (r.payload_buffer ++ c)) ∷ ends_object ∷ [],
      )
  unfolding go_on
  last_lem whole =
      let e = received_lem (omega arith) in
      let more : ltb (add64 r.received (length c)) (payload_size r.current_header) ≡ false =
        ground (arith, e, w.declared) in
      let ids : ltb 0 (object_count r.current_header) ≡ false = ground (arith, w.without_ids) in
      rw (more, ids) (finalize_command_lem h (received_by left_by c r) w.handled w.with_object)

-- Where a USB command has a payload and no object ids, every transfer succeeds and every buffer is
-- accepted, and its handler neither begins its response nor throws in a flush: the payload, in
-- whatever parts that are not empty it arrives, is handed to the handler in order, each part behind
-- what was left of those before; the buffers that are posted are for what is missing and fit the
-- transfer buffer, and the last part ends the command.
pub run_data-payload :
    (h : Handlers) {left_by : List ℕ → List ℕ} (r : Reader) (c : List ℕ) (cs : List (List ℕ))
    → Streams h left_by
    → Receives r (total_length (c ∷ cs))
    → AllNonempty (c ∷ cs)
    → (r' : Reader) × (run_data h r (c ∷ cs) ≡ ran r' (handed_on left_by r.payload_buffer c cs))
      × (r'.has_handler ≡ false)
      × (r'.has_object ≡ false)
unfolding run_data handed_on ended reset_handler
run_data-payload h {left_by} r c [] s w (nonempty, rest) = (
  ended h (received_by left_by c r),
  ap (then_run (λ r'. run_data h r' [])) (
      transfer_lem h s r (length c + 0) w c nonempty (omega arith)
      ∙ ap (λ x. with_events (flushes (r.payload_buffer ++ c) ∷ []) (ran_as x))
          (last_lem h s r (length c + 0) w c (omega arith))),
  refl,
  refl,
)
run_data-payload h {left_by} r c (c' ∷ cs) s w (nonempty, (more, rest)) =
    let missing = length c + total_length (c' ∷ cs) in
    let one = received_by left_by c r in
    let left : missing - length c ≡ total_length (c' ∷ cs) = omega arith in
    let w' = subst (Receives one) left (received_by-Receives h s r missing w c (omega arith)) in
    let (r', e, k, k') = run_data-payload h one c' cs s w' (more, rest) in
    (
      r',
      ap (then_run (λ r'. run_data h r' (c' ∷ cs))) (
            transfer_lem h s r missing w c nonempty (omega arith)
            ∙ ap (λ x. with_events (flushes (r.payload_buffer ++ c) ∷ []) (ran_as x))
                (part_lem h s r missing w c (omega arith))
            ∙ ap (λ n. ran one (flushes (r.payload_buffer ++ c) ∷ next_post n ∷ [])) left)
          ∙ ap
              (with_events
                (flushes (r.payload_buffer ++ c) ∷ next_post (total_length (c' ∷ cs)) ∷ []))
              e,
      k,
      k',
    )
