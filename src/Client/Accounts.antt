-- ===== src/Client/Accounts.antt =====
-- Sequences of calls, and the functions that are sent, wait and are invoked.
use twili.Base.{
  Bool, List, Option, [], ap, arith, false, inl, inr, none, refl, some, true, ℕ, ◌++◌, ◌+◌, ◌∷◌,
  ◌≡◌, ◌⊎◌,
}
use twili.Client.{
  Client, Header, Invoked, fail_all_requests, find, invoke_found, post_response, post_with,
  read_ids, send_in, send_request,
}
use twili.Client.Pending.{
  count, count-append, count-assign, count-erase, invoked, invoked-fail_each, waiting,
}

-- A call: a request with its random tag and its function, a response, or the failure of all.
pub data Call : Type 0 where
  sends : ℕ → ℕ → Call
  posts : Header → List ℕ → List ℕ → Call
  fails : ℕ → Call

unfoldable pub call : Client → Call → Client × List Invoked
call c (sends tag f) = send_request c tag f
call c (posts mh payload object_ids) = post_response c mh payload object_ids
call c (fails code) = fail_all_requests c code

-- The functions that requests are sent with.
abbrev pub sent : List Call → List ℕ
sent [] = []
sent (sends tag f ∷ cs) = f ∷ sent cs
sent (posts mh payload object_ids ∷ cs) = sent cs
sent (fails code ∷ cs) = sent cs

unfoldable pub run : Client → List Call → Client × List Invoked
run c [] = (c, [])
run c (x ∷ cs) = let (d, now) = call c x in let (e, later) = run d cs in (e, now ++ later)

-- No request that is put into the map draws the tag of one that waits.
abbrev pub DrawsFresh : Client → Call → Type 0
DrawsFresh c (sends tag f) = (c.failed ≡ true) ⊎ (find tag c.response_map ≡ none)
DrawsFresh c (posts mh payload object_ids) = Unit {0}
DrawsFresh c (fails code) = Unit {0}

abbrev pub AllFresh : Client → List Call → Type 0
AllFresh c [] = Unit {0}
AllFresh c (x ∷ cs) = DrawsFresh c x × AllFresh (call c x).0 cs

-- A function is as often waiting or invoked as before, and once more for each request with it.
abbrev Balances : ℕ → Client → List ℕ → Client × List Invoked → Type 0
Balances k c new (d, now) =
    count k (waiting d.response_map) + count k (invoked now)
    ≡ count k (waiting c.response_map) + count k new

send_in-Balances :
    (k : ℕ) (c : Client) (tag f : ℕ) (failed : Bool)
    → (failed ≡ true) ⊎ (find tag c.response_map ≡ none)
    → Balances k c (f ∷ []) (send_in failed c tag f)
send_in-Balances k c tag f true h = refl
send_in-Balances k c tag f false (inl h) = absurd (cc h)
send_in-Balances k c tag f false (inr h) = omega (arith, count-assign k tag f c.response_map h)

invoke_found-Balances :
    (k : ℕ) (c : Client) (mh : Header) (payload objects : List ℕ) (found : Option ℕ)
    → find mh.tag c.response_map ≡ found
    → Balances k c [] (invoke_found c mh payload objects found)
invoke_found-Balances k c mh payload objects none e = refl
invoke_found-Balances k c mh payload objects (some f) e =
    omega (arith, count-erase k mh.tag f c.response_map e)

post_with-Balances :
    (k : ℕ) (c : Client) (mh : Header) (payload : List ℕ) (ids : Option (List ℕ))
    → Balances k c [] (post_with c mh payload ids)
post_with-Balances k c mh payload none = refl
post_with-Balances k c mh payload (some objects) =
    invoke_found-Balances k c mh payload objects (find mh.tag c.response_map) refl

call-Balances :
    (k : ℕ) (c : Client) (x : Call) → DrawsFresh c x → Balances k c (sent (x ∷ [])) (call c x)
unfolding call send_request post_response fail_all_requests
call-Balances k c (sends tag f) h = send_in-Balances k c tag f c.failed h
call-Balances k c (posts mh payload object_ids) h =
    post_with-Balances k c mh payload (read_ids mh.object_count object_ids)
call-Balances k c (fails code) h =
    omega (arith, ap (count k) (invoked-fail_each code c.response_map))

invoked-append : (xs ys : List Invoked) → invoked (xs ++ ys) ≡ invoked xs ++ invoked ys
invoked-append [] ys = refl
invoked-append ((f, r) ∷ xs) ys = ap (◌∷◌ f) (invoked-append xs ys)

sent-one :
    (k : ℕ) (x : Call) (cs : List Call)
    → count k (sent (x ∷ cs)) ≡ count k (sent (x ∷ [])) + count k (sent cs)
sent-one k (sends tag f) cs = omega arith
sent-one k (posts mh payload object_ids) cs = omega arith
sent-one k (fails code) cs = omega arith

-- Over any calls in which no request draws the tag of one that waits, a function is as often waiting
-- or invoked at the end as it waited at the start and was sent: none is lost or invoked twice.
pub run-Balances :
    (k : ℕ) (c : Client) (cs : List Call)
    → AllFresh c cs
    → let (d, now) = run c cs in
      count k (waiting d.response_map) + count k (invoked now)
      ≡ count k (waiting c.response_map) + count k (sent cs)
unfolding run
run-Balances k c [] h = refl
run-Balances k c (x ∷ cs) (h, hs) = omega (
  arith,
  call-Balances k c x h,
  run-Balances k (call c x).0 cs hs,
  sent-one k x cs,
  ap (count k) (invoked-append (call c x).1 (run (call c x).0 cs).1),
  count-append k (invoked (call c x).1) (invoked (run (call c x).0 cs).1),
)
