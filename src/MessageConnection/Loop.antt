-- ===== src/MessageConnection/Loop.antt =====
-- The loop of `Process`, by its fuel and the pieces of the input.
use twili.Base.{
  Bool-cases, List, [], ap, append-nil, append_assoc, arith, drop, false, inl, inr, length,
  length-append, length-drop, ltb, none, refl, subst, suc, sym, take, take-append-drop, true, zero,
  ℕ, ◌++◌, ◌+◌, ◌<◌, ◌∙◌, ◌∷◌, ◌≡◌, ◌≤◌, ◌⊎◌,
}
use twili.Buffer.{Buffer, get_data, read_available, reserve}
use twili.Buffer.Inv.{IsValid, length-get_data}
use twili.Buffer.Bounded.{fill-IsOpen, reserve-IsOpen, reserve_space}
use twili.MessageConnection.{
  Connection, Processed, Step, after_body, body, has_input, process, process_loop, received,
  request_input, returns, signal_read, space, starves, turns, with_input, with_left,
}
use twili.MessageConnection.Parse.{parse, parse-append}
use twili.MessageConnection.Stages.{Holds, IsRight, IsUsable}
use twili.MessageConnection.Turn.{Fits, body-IsRight}
use twili.MessageConnection.Process.{
  Fits-append, Holds-pending, IsParse, joined, length-stored, signal_read-Holds, with_left-joined,
  with_left-turns,
}

-- A connection with an empty input buffer is not to hold a whole message.
abbrev pub IsAwake : Connection → List ℕ → Type 0
IsAwake c s = (ltb 0 (read_available c.in_buffer) ≡ true) ⊎ (parse s ≡ none)

-- What the loop is to do, as the rest of the input is read.
abbrev LoopIsRight : ℕ → (Connection → List (List ℕ) → Processed) → ℕ → Type 0
LoopIsRight bound loop fuel =
    (c : Connection) (s : List ℕ) (input : List (List ℕ))
    → IsUsable bound c
    → Holds c s
    → IsAwake c s
    → Fits bound (s ++ joined input)
    → turns input < fuel
    → IsParse bound (s ++ joined input) (loop c input)

has_bytes : (b : Buffer) → IsValid b → 0 < length (get_data b) → ltb 0 (read_available b) ≡ true
unfolding read_available
has_bytes b v h = ground (arith, length-get_data v, v.small, v.inside, v.ordered)

pub no_bytes : (b : Buffer) → IsValid b → ltb 0 (read_available b) ≡ false → get_data b ≡ []
unfolding read_available
no_bytes b v h = nil (get_data b) (ground (arith, length-get_data v, v.small, v.inside, v.ordered))
  where
    nil : (xs : List ℕ) → length xs ≡ 0 → xs ≡ []
    nil [] e = refl
    nil (x ∷ xs) e = absurd (omega arith)

received-IsAwake :
    {bound : ℕ} (c : Connection) (s stored : List ℕ)
    → IsUsable bound c
    → IsUsable bound (received c stored)
    → parse s ≡ none
    → length stored ≤ space c
    → length (get_data c.in_buffer) + 8192 ≤ bound
    → IsAwake (received c stored) (s ++ stored)
received-IsAwake c s [] u v n small f = inr (ap parse (append-nil s) ∙ n)
received-IsAwake c s (ch ∷ rest) u v n small f =
    let r = reserve-IsOpen 8192 u.in_open f in
    let w = fill-IsOpen (ch ∷ rest) r.0 (omega (arith, small, reserve_space 8192 u.in_open f)) in
    inl (
      has_bytes (received c (ch ∷ rest)).in_buffer v.in_open.valid (
        omega (
          arith,
          ap length w.1,
          length-append (get_data (reserve c.in_buffer 8192).1) (ch ∷ rest),
        )))

-- `Recv` splits what is ready into what it stores and what it leaves.
split_piece :
    (c : Connection) (s piece : List ℕ) (input : List (List ℕ))
    → (s ++ take (space c) piece) ++ joined (with_left (drop (space c) piece) input)
      ≡ s ++ (piece ++ joined input)
split_piece c s piece input =
    ap (λ x. (s ++ take (space c) piece) ++ x) (with_left-joined (drop (space c) piece) input)
    ∙ append_assoc s (take (space c) piece) (drop (space c) piece ++ joined input)
    ∙ ap (λ x. s ++ x)
        (sym (append_assoc (take (space c) piece) (drop (space c) piece) (joined input))
          ∙ ap (λ x. x ++ joined input) (take-append-drop (space c) piece))

fewer_turns :
    {bound : ℕ} (c : Connection) (piece : List ℕ) (input : List (List ℕ))
    → IsUsable bound c
    → length (get_data c.in_buffer) + 8192 ≤ bound
    → turns (with_left (drop (space c) piece) input) < turns (piece ∷ input)
fewer_turns {bound} c piece input u f =
    let r = reserve-IsOpen 8192 u.in_open f in
    with_left-turns (drop (space c) piece) input (length piece) (space c)
      (length-drop (space c) piece) (omega (arith, r.2, reserve_space 8192 u.in_open f))

Holds-left :
    {bound : ℕ} (loop : Connection → List (List ℕ) → Processed) (fuel : ℕ)
    → LoopIsRight bound loop fuel
    → (c : Connection) (s : List ℕ) (input : List (List ℕ)) (step : Step) → IsRight bound s step
    → Fits bound (s ++ joined input)
    → turns input ≤ fuel
    → IsParse bound (s ++ joined input) (after_body loop input step)
Holds-left {bound} loop fuel ih c s input (returns d) (u, h, e) f k =
    (u, inl (refl, h, parse-append s (joined input) e))
Holds-left {bound} loop fuel ih c s [] (starves d) (u, h, n) f k =
    (u, inr (refl, refl, subst (Holds d) (sym (append-nil s)) h, ap parse (append-nil s) ∙ n))
Holds-left {bound} loop fuel ih c s (piece ∷ input) (starves d) (u, h, n) f k =
    let fs = Fits-append s (piece ++ joined input) f in
    let pending : length (get_data d.in_buffer) + 8192 ≤ bound =
      omega (arith, Holds-pending h, fs.with_reserve) in
    let t = signal_read-Holds d s piece u h fs.with_reserve in
    let left = with_left (drop (space d) piece) input in
    subst (λ x. IsParse bound x (loop (signal_read d piece) left)) (split_piece d s piece input)
      (ih (signal_read d piece) (s ++ take (space d) piece) left t.0 t.1
        (received-IsAwake d s (take (space d) piece) u t.0 n (length-stored d piece) pending)
        (subst (Fits bound) (sym (split_piece d s piece input)) f)
        (omega (arith, fewer_turns d piece input u pending, k)))

turn_lem :
    {bound : ℕ} (loop : Connection → List (List ℕ) → Processed) (fuel : ℕ)
    → LoopIsRight bound loop fuel
    → (c : Connection) (s : List ℕ) (input : List (List ℕ)) → IsUsable bound c
    → Holds c s
    → IsAwake c s
    → Fits bound (s ++ joined input)
    → turns input < suc fuel
    → IsParse bound (s ++ joined input) (with_input loop c input (has_input c input))
turn_lem {bound} loop fuel ih c s input u h a f k =
    elim (Bool-cases (ltb 0 (read_available c.in_buffer))) [
      | inl e ↦ rw e (
          Holds-left loop fuel ih c s input (body c)
            (body-IsRight c s u (Fits-append s (joined input) f) h) f (omega arith))
      | inr e ↦ rw e (waits input f k e)
    ]
  where
    waits :
        (input : List (List ℕ))
        → Fits bound (s ++ joined input)
        → turns input < suc fuel
        → ltb 0 (read_available c.in_buffer) ≡ false
        → IsParse bound (s ++ joined input) (with_input loop c input (request_input c input))
    waits [] f k e =
        let n : parse s ≡ none = elim a [ inl t ↦ absurd (cc) | inr n ↦ n ] in
        (u, inr (refl, refl, subst (Holds c) (sym (append-nil s)) h, ap parse (append-nil s) ∙ n))
    waits (piece ∷ input) f k e =
        let fs = Fits-append s (piece ++ joined input) f in
        let pending : length (get_data c.in_buffer) + 8192 ≤ bound =
          omega (arith, Holds-pending h, fs.with_reserve) in
        let t = signal_read-Holds c s piece u h fs.with_reserve in
        let stored = take (space c) piece in
        let left = with_left (drop (space c) piece) input in
        let f' = subst (Fits bound) (sym (split_piece c s piece input)) f in
        subst (λ x. IsParse bound x (after_body loop left (body (signal_read c piece))))
          (split_piece c s piece input)
          (Holds-left loop fuel ih (signal_read c piece) (s ++ stored) left
            (body (signal_read c piece))
            (body-IsRight (signal_read c piece) (s ++ stored) t.0
              (Fits-append (s ++ stored) (joined left) f') t.1)
            f' (omega (arith, fewer_turns c piece input u pending, k)))

process_loop-right : {bound : ℕ} (fuel : ℕ) → LoopIsRight bound (process_loop fuel) fuel
unfolding process_loop
process_loop-right zero c s input u h a f k = absurd (omega arith)
process_loop-right {bound} (suc fuel) c s input u h a f k =
    turn_lem (process_loop fuel) fuel (process_loop-right {bound = bound} fuel) c s input u h a f k

-- `Process` returns, with the first message of the stream that is held and that comes in, or with
-- none where the stream has no whole message: then it holds all of it, and goes on from there.
pub process-IsParse :
    {bound : ℕ} (c : Connection) (s : List ℕ) (input : List (List ℕ))
    → IsUsable bound c
    → Holds c s
    → IsAwake c s
    → Fits bound (s ++ joined input)
    → IsParse bound (s ++ joined input) (process c input)
unfolding process
process-IsParse {bound} c s input u h a f =
    process_loop-right {bound = bound} (suc (turns input)) c s input u h a f (omega arith)
