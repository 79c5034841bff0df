-- ===== src/TcpConnection/Partial.antt =====
-- `Process` while only a part of a header has arrived.
use twili.Protocol.{header_size, payload_size}
use twili.Base.{
  List, [], add64, ap, arith, drop, false, length, ltb, min, not, refl, sub64, suc, true, zero, ℕ,
  ◌&&◌, ◌++◌, ◌<◌, ◌==◌, ◌^◌, ◌∙◌, ◌∷◌, ◌≡◌,
}
use twili.TcpConnection.{
  Connection, Event, after, again, finalize_command, flush_receive_buffer, go_on, header_in,
  out_of_fuel, payload_in, process, settle, transfer, turn,
}

-- Behind a command that is done: no header, all of the last payload received.
pub record IsBetween (c : Connection) : Type 0 where
  pub no_header : c.has_current_mh ≡ false
  pub no_payload : c.has_current_payload ≡ false
  pub all_received : c.received ≡ payload_size c.current_mh
  pub size_fits : payload_size c.current_mh < 2 ^ 64
  pub stays : c.deletion_flag ≡ false

module _ (left_by : List ℕ → List ℕ) where
  abbrev waited : Connection → Connection
  waited c = record c {
    in_buffer = drop 0 c.in_buffer;
    received = add64 c.received 0;
    payload_buffer = left_by (c.payload_buffer ++ []);
    has_current_mh = false;
    has_current_payload = false;
  }

  abbrev waits_with : Connection → List Event
  waits_with c =
      flush_receive_buffer (c.payload_buffer ++ [])
      ∷ finalize_command (left_by (c.payload_buffer ++ []))
      ∷ []

  -- The turn changes nothing that the next one looks at, and asks for one.
  turn-partial :
      (c : Connection)
      → IsBetween c
      → length c.in_buffer < header_size
      → turn left_by c ≡ again (waited c) (waits_with c)
  unfolding turn
  turn-partial c b h =
      ap (λ x. header_in left_by x c) b.no_header
      ∙ no_header_yet
      ∙ ap (λ x. payload_in left_by x c []) b.no_payload
      ∙ ap (λ n. transfer left_by n c []) none_left
      ∙ ap
          (λ x.
            settle left_by x
              (record c {
                in_buffer = drop 0 c.in_buffer;
                received = add64 c.received 0;
                payload_buffer = left_by (c.payload_buffer ++ []);
              })
              (flush_receive_buffer (c.payload_buffer ++ []) ∷ []))
          complete
    where
      no_header_yet : header_in left_by false c ≡ payload_in left_by c.has_current_payload c []
      no_header_yet =
          let short : ltb (length c.in_buffer) header_size ≡ true = ground arith in rw short refl

      none_left : min (length c.in_buffer) (sub64 (payload_size c.current_mh) c.received) ≡ 0
      none_left = omega (arith, b.all_received, b.size_fits)

      complete : (add64 c.received 0 == payload_size c.current_mh) ≡ true
      complete =
          let e : add64 c.received 0 ≡ payload_size c.current_mh =
            omega (arith, b.all_received, b.size_fits) in
          ground arith

  waited-IsBetween : (c : Connection) → IsBetween c → IsBetween (waited c)
  waited-IsBetween c b = record {
    no_header = refl;
    no_payload = refl;
    all_received = omega (arith, b.all_received, b.size_fits);
    size_fits = b.size_fits;
    stays = b.stays;
  }

  -- Between two commands, a part of a header in the input buffer keeps `Process` in its loop however
  -- often the loop is run.
  pub process-partial :
      (fuel : ℕ) (c : Connection)
      → IsBetween c
      → 0 < length c.in_buffer
      → length c.in_buffer < header_size
      → process left_by fuel c ≡ out_of_fuel
  unfolding process
  process-partial zero c b p h = refl
  process-partial (suc fuel) c b p h =
      let goes : (not c.deletion_flag && ltb 0 (length c.in_buffer)) ≡ true =
        ground (arith, b.stays) in
      rw goes (
        ap (go_on left_by (process left_by fuel)) (turn-partial c b h)
        ∙ ap (after left_by (waits_with c))
            (process-partial fuel (waited c) (waited-IsBetween c b) p h))
