-- ===== src/Daemon/Clients.antt =====
-- `AddClient`: the loop that draws an id, and the client's entry in the map.
use twili.Base.{
  List, Option, Option-cases, ap, arith, inl, inr, lookup, lookup-store, lookup-store_other, none,
  some, subst, suc, zero, ℕ, ◌+◌, ◌<◌, ◌∙◌, ◌≡◌, ◌≢◌,
}
use twili.Daemon.{Daemon, add_client, draw_unused, enter_client}
use twili.Messages.{Client}

-- The first of the next draws that no client has, with the number of draws before it.
pub record Draws (rng : ℕ → ℕ) (clients : List (ℕ × ℕ)) (drawn i : ℕ) : Type 0 where
  pub unused : lookup (rng (drawn + i)) clients ≡ none
  pub first : (j : ℕ) → j < i → lookup (rng (drawn + j)) clients ≢ none

Draws-now :
    {rng : ℕ → ℕ} {clients : List (ℕ × ℕ)} (drawn : ℕ)
    → lookup (rng drawn) clients ≡ none
    → Draws rng clients drawn 0
Draws-now {rng} {clients} drawn e = record {
  unused = subst (λ n. lookup (rng n) clients ≡ none) {x = drawn} {y = drawn + 0} (omega arith) e;
  first = λ j h. absurd (omega arith);
}

Draws-later :
    {rng : ℕ → ℕ} {clients : List (ℕ × ℕ)} {drawn i : ℕ} (used : ℕ)
    → lookup (rng drawn) clients ≡ some used
    → Draws rng clients (suc drawn) i
    → Draws rng clients drawn (suc i)
Draws-later {rng} {clients} {drawn} {i} used e rest = record {
  unused = subst (λ n. lookup (rng n) clients ≡ none) {x = suc drawn + i} (omega arith) rest.unused;
  first = before;
}
  where
    before : (j : ℕ) → j < suc i → lookup (rng (drawn + j)) clients ≢ none
    before zero h n =
        absurd (cc (e, subst (λ n. lookup (rng n) clients ≡ none) {y = drawn} (omega arith) n))
    before (suc j) h n =
        rest.first j (omega arith)
          (subst (λ n. lookup (rng n) clients ≡ none) {y = suc drawn + j} (omega arith) n)

abbrev Found : (ℕ → ℕ) → List (ℕ × ℕ) → ℕ → Option (ℕ × ℕ) → Type 0
Found rng clients drawn result =
    (i : ℕ) × (result ≡ some (rng (drawn + i), suc (drawn + i))) × Draws rng clients drawn i

Found-later :
    {rng : ℕ → ℕ} {clients : List (ℕ × ℕ)} {drawn used : ℕ} {rest : Option (ℕ × ℕ)}
    → lookup (rng drawn) clients ≡ some used
    → Found rng clients (suc drawn) rest
    → Found rng clients drawn rest
Found-later {rng} {drawn = drawn} {used} e (i, r, h) = (
  suc i,
  r ∙ ap (λ n. some (rng n, suc n)) {x = suc drawn + i} {y = drawn + suc i} (omega arith),
  Draws-later used e h,
)

Found-now :
    {rng : ℕ → ℕ} {clients : List (ℕ × ℕ)} (drawn : ℕ)
    → lookup (rng drawn) clients ≡ none
    → Found rng clients drawn (some (rng drawn, suc drawn))
Found-now {rng} drawn e =
    (0, ap (λ n. some (rng n, suc n)) {x = drawn} {y = drawn + 0} (omega arith), Draws-now drawn e)

draw_unused_lem :
    (rng : ℕ → ℕ) (clients : List (ℕ × ℕ)) (drawn k fuel : ℕ)
    → k < fuel
    → lookup (rng (drawn + k)) clients ≡ none
    → Found rng clients drawn (draw_unused rng clients drawn fuel)
unfolding draw_unused
draw_unused_lem rng clients drawn k zero small e = absurd (omega arith)
draw_unused_lem rng clients drawn zero (suc fuel) small e =
    let now = subst (λ n. lookup (rng n) clients ≡ none) {y = drawn} (omega arith) e in
    rw now (Found-now drawn now)
draw_unused_lem rng clients drawn (suc k) (suc fuel) small e =
    let later =
      draw_unused_lem rng clients (suc drawn) k fuel (omega arith)
        (subst (λ n. lookup (rng n) clients ≡ none) {y = suc drawn + k} (omega arith) e) in
    elim (Option-cases (lookup (rng drawn) clients)) [
      | inl now ↦ rw now (Found-now drawn now)
      | inr (used, e') ↦ rw e' (Found-later e' later)
    ]

-- What a client that is added changes: it is entered under an id that no client had.
pub record Enters (d : Daemon) (address : ℕ) (c : Client) (id : ℕ) (d' : Daemon) : Type 0 where
  pub fresh : lookup id d.clients ≡ none
  pub entered : lookup id d'.clients ≡ some address
  pub named : lookup address d'.client_memory ≡ some (record c { client_id = id })
  pub others : (i : ℕ) → i ≢ id → lookup i d'.clients ≡ lookup i d.clients
  pub others_memory : (a : ℕ) → a ≢ address → lookup a d'.client_memory ≡ lookup a d.client_memory

-- Where one of the next draws is unused and the fuel reaches it, the loop ends with the first of
-- them, and the client is entered under it; the other clients keep their ids and their fields.
pub add_client_lem :
    (rng : ℕ → ℕ) (fuel : ℕ) (d : Daemon) (address : ℕ) (c : Client) (k : ℕ)
    → k < fuel
    → lookup (rng (d.drawn + k)) d.clients ≡ none
    → (i : ℕ) × (d' : Daemon) × (add_client rng fuel d address c ≡ some d')
      × Draws rng d.clients d.drawn i
      × Enters d address c (rng (d.drawn + i)) d'
unfolding add_client
add_client_lem rng fuel d address c k small e =
    let (i, r, h) = draw_unused_lem rng d.clients d.drawn k fuel small e in
    (
      i,
      _,
      ap (enter_client d address c) r,
      h,
      record {
        fresh = h.unused;
        entered = lookup-store (rng (d.drawn + i)) address d.clients;
        named = lookup-store address _ d.client_memory;
        others = λ j n. lookup-store_other j _ address d.clients n;
        others_memory = λ a n. lookup-store_other a address _ d.client_memory n;
      },
    )
