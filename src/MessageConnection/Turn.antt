-- ===== src/MessageConnection/Turn.antt =====
-- One turn of `Process`, by what the connection holds.
use twili.Base.{
  Bool, Bool-cases, List, Option, [], ap, ap₂, arith, drop, false, inl, inr, length, length-append,
  length-drop, length-take, ltb, ltb→lt, none, refl, some, subst, subst₂, sym, take,
  take-append-drop, take-append_length, true, ℕ, ◌*◌, ◌++◌, ◌+◌, ◌∙◌, ◌≡◌, ◌≤◌,
}
use twili.Buffer.{Buffer, clear, get_data, read, read_into}
use twili.Buffer.Queue.{pop}
use twili.Buffer.Transfer.{transfer}
use twili.Buffer.Bounded.{IsOpen, clear-IsOpen, read-IsOpen, read_into-IsOpen, reserve-IsOpen}
use twili.Protocol.{header_size, ids_size, object_count, payload_size}
use twili.MessageConnection.{
  Connection, body, header_in, header_with, payload_in, payload_with, take_ids,
}
use twili.MessageConnection.Parse.{declared, parse-header, parse-short, parse_body-short}
use twili.MessageConnection.Stages.{
  FitsWith, Holds, IsRight, IsUsable, at_header, at_ids, at_payload, ids_with-IsRight,
}

pub take_ids-IsRight :
    {bound : ℕ} (c : Connection)
    → IsUsable bound c
    → c.has_current_mh ≡ true
    → c.has_current_payload ≡ true
    → length c.mh ≡ header_size
    → length (get_data c.payload) ≡ payload_size c.mh
    → get_data c.object_ids ≡ []
    → FitsWith bound c.mh (get_data c.in_buffer)
    → IsRight bound (c.mh ++ (get_data c.payload ++ get_data c.in_buffer)) (take_ids c)
unfolding take_ids
take_ids-IsRight {bound} c u h p m l i f =
    let no_wrap : ids_size c.mh ≡ object_count c.mh * 4 = omega (arith, f, u.in_open.moderate) in
    let r =
      read_into-IsOpen (ids_size c.mh) u.in_open u.ids_open
        (omega (arith, f, no_wrap, ap length i)) in
    ids_with-IsRight c (get_data c.in_buffer) (read_into c.in_buffer c.object_ids (ids_size c.mh)) u
      h p m l f (r.0, r.1, r.2 ∙ ap₂ (transfer (get_data c.in_buffer)) i no_wrap)

payload_with-IsRight :
    {bound : ℕ} (c : Connection) (q : List ℕ) (r : Bool × Buffer × Buffer)
    → IsUsable bound c
    → c.has_current_mh ≡ true
    → c.has_current_payload ≡ false
    → length c.mh ≡ header_size
    → FitsWith bound c.mh q
    → IsOpen bound r.1
      × IsOpen bound r.2
      × ((r.0, get_data r.1, get_data r.2) ≡ transfer q [] (payload_size c.mh))
    → IsRight bound (c.mh ++ q) (payload_with c r)
unfolding transfer
payload_with-IsRight {bound} c q (true, b, p) u h n m f (ob, op, e) =
    elim (Bool-cases (ltb (length q) (payload_size c.mh))) [
      | inl short ↦
          let e' : (true, get_data b, get_data p) ≡ (false, q, []) = rw short at e in
          cc (ap (λ x. x.0) e')
      | inr long ↦
          let e' : (true, get_data b, get_data p)
              ≡ (true, drop (payload_size c.mh) q, take (payload_size c.mh) q) =
            rw long at e in
          let k = clear-IsOpen u.ids_open in
          let d : Connection = record c {
            in_buffer = b;
            payload = p;
            has_current_payload = true;
            object_ids = clear c.object_ids;
          } in
          subst (λ s. IsRight bound s (take_ids d))
            (ap₂ (λ x y. c.mh ++ (x ++ y)) (ap (λ x. x.2) e') (ap (λ x. x.1) e')
              ∙ ap (λ x. c.mh ++ x) (take-append-drop (payload_size c.mh) q))
            (take_ids-IsRight d (record { in_open = ob; payload_open = op; ids_open = k.0 }) h refl
              m (ap (λ x. length x.2) e' ∙ length-take (payload_size c.mh) q ∙ ground arith) k.1
              (omega (arith, ap (λ x. length x.1) e', length-drop (payload_size c.mh) q, f)))
    ]
payload_with-IsRight {bound} c q (false, b, p) u h n m f (ob, op, e) =
    elim (Bool-cases (ltb (length q) (payload_size c.mh))) [
      | inr long ↦
          let e' : (false, get_data b, get_data p)
              ≡ (true, drop (payload_size c.mh) q, take (payload_size c.mh) q) =
            rw long at e in
          cc (ap (λ x. x.0) e')
      | inl short ↦
          let e' : (false, get_data b, get_data p) ≡ (false, q, []) = rw short at e in
          let r =
            reserve-IsOpen (payload_size c.mh) ob (omega (arith, ap (λ x. length x.1) e', f)) in
          (
            record { in_open = r.0; payload_open = op; ids_open = u.ids_open },
            at_payload h n m (ap (λ x. x.2) e') (ap (λ x. c.mh ++ x) (r.1 ∙ ap (λ x. x.1) e')),
            parse-header c.mh q m ∙ parse_body-short c.mh q (omega (arith, ltb→lt _ _ short)),
          )
    ]

pub payload-IsRight :
    {bound : ℕ} (c : Connection)
    → IsUsable bound c
    → c.has_current_mh ≡ true
    → c.has_current_payload ≡ false
    → length c.mh ≡ header_size
    → get_data c.payload ≡ []
    → FitsWith bound c.mh (get_data c.in_buffer)
    → IsRight bound (c.mh ++ get_data c.in_buffer) (payload_in false c)
payload-IsRight {bound} c u h n m p f =
    let r =
      read_into-IsOpen (payload_size c.mh) u.in_open u.payload_open
        (omega (arith, f, ap length p)) in
    payload_with-IsRight c (get_data c.in_buffer)
      (read_into c.in_buffer c.payload (payload_size c.mh)) u h n m f
      (r.0, r.1, r.2 ∙ ap (λ x. transfer (get_data c.in_buffer) x (payload_size c.mh)) p)

-- What is received fits with the input buffer's reserve, and its first message fits too.
pub record Fits (bound : ℕ) (s : List ℕ) : Type 0 where
  pub with_reserve : length s + 8192 ≤ bound
  pub with_message : header_size ≤ length s → FitsWith bound (take header_size s) s

pub header_with-IsRight :
    {bound : ℕ} (c : Connection) (q : List ℕ) (r : Option (List ℕ) × Buffer)
    → IsUsable bound c
    → c.has_current_mh ≡ false
    → Fits bound q
    → IsOpen bound r.1 × ((r.0, get_data r.1) ≡ pop q header_size)
    → IsRight bound q (header_with c r)
unfolding pop
header_with-IsRight {bound} c q (some mh, b) u h f (ob, e) =
    elim (Bool-cases (ltb (length q) header_size)) [
      | inl short ↦
          let e' : (some mh, get_data b) ≡ (none, q) = rw short at e in cc (ap (λ x. x.0) e')
      | inr long ↦
          let e' : (some mh, get_data b) ≡ (some (take header_size q), drop header_size q) =
            rw long at e in
          let h' : mh ≡ take header_size q = cc (ap (λ x. x.0) e') in
          let k = clear-IsOpen u.payload_open in
          let d : Connection = record c {
            in_buffer = b;
            mh = mh;
            has_current_mh = true;
            payload = clear c.payload;
            has_current_payload = false;
          } in
          let long' : header_size ≤ length q = ground arith in
          subst (λ s. IsRight bound s (payload_in false d))
            (ap₂ (λ x y. x ++ y) h' (ap (λ x. x.1) e') ∙ take-append-drop header_size q)
            (payload-IsRight d (record { in_open = ob; payload_open = k.0; ids_open = u.ids_open })
              refl refl (ap length h' ∙ length-take header_size q ∙ omega (arith, long')) k.1
              (omega (
                arith,
                ap (λ x. length x.1) e',
                length-drop header_size q,
                f.with_message long',
                ap declared h',
              )))
    ]
header_with-IsRight {bound} c q (none, b) u h f (ob, e) =
    elim (Bool-cases (ltb (length q) header_size)) [
      | inr long ↦
          let e' : (none, get_data b) ≡ (some (take header_size q), drop header_size q) =
            rw long at e in
          cc (ap (λ x. x.0) e')
      | inl short ↦
          let e' : (none, get_data b) ≡ (none, q) = rw short at e in
          let r =
            reserve-IsOpen header_size ob
              (omega (arith, ap (λ x. length x.1) e', f.with_reserve)) in
          (
            record { in_open = r.0; payload_open = u.payload_open; ids_open = u.ids_open },
            at_header h (r.1 ∙ ap (λ x. x.1) e'),
            parse-short q (ltb→lt _ _ short),
          )
    ]

-- The header of a stream that starts with one.
Fits-header :
    {bound : ℕ} (mh s : List ℕ)
    → length mh ≡ header_size
    → Fits bound (mh ++ s)
    → length s + header_size + declared mh + header_size ≤ bound
Fits-header {bound} mh s m f =
    let whole : length (mh ++ s) ≡ header_size + length s = omega (arith, length-append mh s, m) in
    let h : take header_size (mh ++ s) ≡ mh = take-append_length header_size mh s (sym m) in
    omega (arith, whole, ap declared h, f.with_message (omega (arith, whole)))

-- Whatever a connection holds, a turn of `Process` is right for it.
pub body-IsRight :
    {bound : ℕ} (c : Connection) (s : List ℕ)
    → IsUsable bound c
    → Fits bound s
    → Holds c s
    → IsRight bound s (body c)
unfolding body
body-IsRight {bound} c s u f (at_header h e) =
    let r = read-IsOpen header_size u.in_open (omega arith) in
    let t =
      header_with-IsRight c (get_data c.in_buffer) (read c.in_buffer header_size) u h
        (subst (Fits bound) (sym e) f) r in
    subst₂ (λ b q. IsRight bound q (header_in b c)) (sym h) e t
body-IsRight {bound} c s u f (at_payload h n m p e) =
    let g = Fits-header c.mh (get_data c.in_buffer) m (subst (Fits bound) (sym e) f) in
    let t = payload-IsRight c u h n m p (omega (arith, g)) in
    subst₂ (λ b q. IsRight bound q (header_in b c)) (sym h) e
      (subst (λ b. IsRight bound (c.mh ++ get_data c.in_buffer) (payload_in b c)) (sym n) t)
body-IsRight {bound} c s u f (at_ids h n m l i e) =
    let g =
      Fits-header c.mh (get_data c.payload ++ get_data c.in_buffer) m
        (subst (Fits bound) (sym e) f) in
    let t =
      take_ids-IsRight c u h n m l i
        (omega (arith, g, length-append (get_data c.payload) (get_data c.in_buffer))) in
    subst₂ (λ b q. IsRight bound q (header_in b c)) (sym h) e
      (subst
        (λ b. IsRight bound (c.mh ++ (get_data c.payload ++ get_data c.in_buffer)) (payload_in b c))
        (sym n) t)
