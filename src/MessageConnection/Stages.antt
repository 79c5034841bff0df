-- ===== src/MessageConnection/Stages.antt =====
-- What a connection holds of the message that it is in, and what one turn of `Process` does.
use twili.Base.{
  Bool, Bool-cases, List, [], ap, arith, drop, false, inl, inr, length, length-append, ltb, ltb→lt,
  none, refl, some, sym, take, true, ℕ, ◌*◌, ◌++◌, ◌+◌, ◌∙◌, ◌≡◌, ◌≤◌,
}
use twili.Buffer.{Buffer, get_data}
use twili.Buffer.Transfer.{transfer}
use twili.Buffer.Bounded.{IsOpen, reserve-IsOpen}
use twili.Protocol.{header_size, ids_size, object_count, payload_size}
use twili.MessageConnection.{Connection, Step, ids_with, returns, starves}
use twili.MessageConnection.Parse.{
  declared, parse, parse-header, parse_body-payload, parse_body-short,
}

pub record IsUsable (bound : ℕ) (c : Connection) : Type 0 where
  pub in_open : IsOpen bound c.in_buffer
  pub payload_open : IsOpen bound c.payload
  pub ids_open : IsOpen bound c.object_ids

-- The bytes that have come in since the last message, by how far the connection is.
pub data Holds (c : Connection) (s : List ℕ) : Type 0 where
  at_header : c.has_current_mh ≡ false → get_data c.in_buffer ≡ s → Holds c s
  at_payload :
      c.has_current_mh ≡ true
      → c.has_current_payload ≡ false
      → length c.mh ≡ header_size
      → get_data c.payload ≡ []
      → c.mh ++ get_data c.in_buffer ≡ s
      → Holds c s
  at_ids :
      c.has_current_mh ≡ true
      → c.has_current_payload ≡ true
      → length c.mh ≡ header_size
      → length (get_data c.payload) ≡ payload_size c.mh
      → get_data c.object_ids ≡ []
      → c.mh ++ (get_data c.payload ++ get_data c.in_buffer) ≡ s
      → Holds c s

-- The request that is returned.
abbrev pub message : Connection → List ℕ × List ℕ × List ℕ
message c = (c.mh, get_data c.payload, get_data c.object_ids)

-- A turn is right for the stream `s`: it returns the message there and leaves what is behind it, or
-- the message is not all there and nothing is lost.
abbrev pub IsRight : ℕ → List ℕ → Step → Type 0
IsRight bound s (returns d) =
    IsUsable bound d
    × (d.has_current_mh ≡ false)
    × (parse s ≡ some (message d, get_data d.in_buffer))
IsRight bound s (starves d) = IsUsable bound d × Holds d s × (parse s ≡ none)

-- What is held, and the message that a header declares, fit in the buffers.
abbrev pub FitsWith : ℕ → List ℕ → List ℕ → Type 0
FitsWith bound mh q = length q + header_size + declared mh ≤ bound

pub ids_with-IsRight :
    {bound : ℕ} (c : Connection) (q : List ℕ) (r : Bool × Buffer × Buffer)
    → IsUsable bound c
    → c.has_current_mh ≡ true
    → c.has_current_payload ≡ true
    → length c.mh ≡ header_size
    → length (get_data c.payload) ≡ payload_size c.mh
    → FitsWith bound c.mh q
    → IsOpen bound r.1
      × IsOpen bound r.2
      × ((r.0, get_data r.1, get_data r.2) ≡ transfer q [] (object_count c.mh * 4))
    → IsRight bound (c.mh ++ (get_data c.payload ++ q)) (ids_with c r)
unfolding transfer
ids_with-IsRight {bound} c q (true, b, ids) u h p m l f (ob, oi, e) =
    elim (Bool-cases (ltb (length q) (object_count c.mh * 4))) [
      | inl short ↦
          let e' : (true, get_data b, get_data ids) ≡ (false, q, []) = rw short at e in
          cc (ap (λ x. x.0) e')
      | inr long ↦
          let e' : (true, get_data b, get_data ids)
              ≡ (true, drop (object_count c.mh * 4) q, take (object_count c.mh * 4) q) =
            rw long at e in
          (
            record { in_open = ob; payload_open = u.payload_open; ids_open = oi },
            refl,
            parse-header c.mh (get_data c.payload ++ q) m
                ∙ parse_body-payload c.mh (get_data c.payload) q l (ground arith)
                ∙ ap (λ x. some ((c.mh, get_data c.payload, x.2), x.1)) (sym e'),
          )
    ]
ids_with-IsRight {bound} c q (false, b, ids) u h p m l f (ob, oi, e) =
    elim (Bool-cases (ltb (length q) (object_count c.mh * 4))) [
      | inr long ↦
          let e' : (false, get_data b, get_data ids)
              ≡ (true, drop (object_count c.mh * 4) q, take (object_count c.mh * 4) q) =
            rw long at e in
          cc (ap (λ x. x.0) e')
      | inl short ↦
          let e' : (false, get_data b, get_data ids) ≡ (false, q, []) = rw short at e in
          let r = reserve-IsOpen (ids_size c.mh) ob (omega (arith, ap (λ x. length x.1) e', f)) in
          (
            record { in_open = r.0; payload_open = u.payload_open; ids_open = oi },
            at_ids h p m l (ap (λ x. x.2) e')
                (ap (λ x. c.mh ++ (get_data c.payload ++ x)) (r.1 ∙ ap (λ x. x.1) e')),
            parse-header c.mh (get_data c.payload ++ q) m
                ∙ parse_body-short c.mh (get_data c.payload ++ q)
                    (omega (arith, length-append (get_data c.payload) q, l, ltb→lt _ _ short)),
          )
    ]
