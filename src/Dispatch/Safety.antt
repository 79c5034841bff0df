-- ===== src/Dispatch/Safety.antt =====
-- The pointers that the daemon uses are not null, and its jobs keep it so.
use mathlib.Core.Option
use twili.Base.{
  All, All-append, All-map, Bool, Bool-cases, List, Option, Option-cases, [], ap, inl, inr, lookup,
  none, present-update, refl, some, subst, sym, ℕ, ◌==◌, ◌∷◌, ◌≡◌, ◌≢◌,
}
use twili.Messages.{BridgeObject, Client, Memory, Request, Response, target, twili_result}
use twili.Daemon.{
  Daemon, Device, Job, close_command, closing, destroy, destroy_all, drop_all, enqueue, fulfil,
  post_local, post_request, post_response, requests, responds, send_request, wakes,
}
use twili.Dispatch.{
  deliver, disown, dispatch, dispatch_request, dispatch_response, find_device, forward, get_client,
  own, process, process_from, respond_in, send_to,
}
use twili.Dispatch.Disowned.{disown_lem, kept_memory-present}
use twili.MetaInterface.{Outside}
use twili.MetaInterface.Answers.{
  AllAlive, Answers, handle_request-Answers, reply, respond_error_lem,
}

abbrev pub PointsIn : Memory → Option ℕ → Type 0
PointsIn memory none = ⊥
PointsIn memory (some address) = lookup address memory ≢ none

-- The client of a request is alive.
abbrev pub HasClient : Memory → Job → Type 0
HasClient memory wakes = Unit
HasClient memory (requests rq) = PointsIn memory rq.client
HasClient memory (responds rs) = Unit

-- The device of an entry is alive and has the entry's id.
abbrev pub IsEntry : List (ℕ × Device) → ℕ × ℕ → Type 0
IsEntry memory e = (dev : Device) × (lookup e.1 memory ≡ some dev) × (dev.device_id ≡ e.0)

pub record IsSafe (d : Daemon) : Type 0 where
  pub requesters : All (HasClient d.client_memory) d.dispatch_queue
  pub entries : All (IsEntry d.device_memory) d.devices
  pub local_alive : lookup d.local_client d.client_memory ≢ none

abbrev pub Extends : Memory → Memory → Type 0
Extends m m' = (a : ℕ) → lookup a m ≢ none → lookup a m' ≢ none

HasClient-Extends :
    (m m' : Memory) → Extends m m' → (job : Job) → HasClient m job → HasClient m' job
HasClient-Extends m m' f wakes h = h
HasClient-Extends m m' f (requests rq) h = points rq.client h
  where
    points : (p : Option ℕ) → PointsIn m p → PointsIn m' p
    points none h = h
    points (some a) h = f a h
HasClient-Extends m m' f (responds rs) h = h

module _ {d : Daemon} (s : IsSafe d) where
  pub enqueue-IsSafe : (job : Job) → HasClient d.client_memory job → IsSafe (enqueue d job)
  enqueue-IsSafe job h = record {
    requesters =
        All-append (HasClient d.client_memory) d.dispatch_queue (job ∷ []) s.requesters (h, tt);
    entries = s.entries;
    local_alive = s.local_alive;
  }

  pub send_request-IsSafe : (rng : ℕ → ℕ) (rq : Request) → IsSafe (send_request rng d rq)
  unfolding send_request post_request
  send_request-IsSafe rng rq = record {
    requesters =
        All-append (HasClient d.client_memory) d.dispatch_queue _ s.requesters (s.local_alive, tt);
    entries = s.entries;
    local_alive = s.local_alive;
  }

  -- New contents for the memory of clients, which lose none of them.
  pub memory-IsSafe :
      (m : Memory) → Extends d.client_memory m → IsSafe (record d { client_memory = m })
  memory-IsSafe m f = record {
    requesters =
        All-map (HasClient d.client_memory) (HasClient m) (HasClient-Extends d.client_memory m f)
          d.dispatch_queue s.requesters;
    entries = s.entries;
    local_alive = f d.local_client s.local_alive;
  }

  post_local-IsSafe : (rs : Response) → IsSafe (post_local d rs)
  unfolding post_local
  post_local-IsSafe rs = go (lookup rs.tag d.response_map)
    where
      go : (promise : Option ℕ) → IsSafe (fulfil d rs promise)
      go none = s
      go (some promise) = record {
        requesters = s.requesters;
        entries = s.entries;
        local_alive = s.local_alive;
      }

  deliver-IsSafe : (address : ℕ) (rs : Response) → IsSafe (deliver d address rs)
  deliver-IsSafe address rs = elim (Bool-cases (address == d.local_client)) [
    | inl e ↦ rw e (post_local-IsSafe rs)
    | inr e ↦
        rw e
          (record { requesters = s.requesters; entries = s.entries; local_alive = s.local_alive })
  ]

  own-IsSafe :
      (address : ℕ) (objects : List BridgeObject) (client : Option Client)
      → IsSafe (own d address objects client)
  own-IsSafe address objects none = s
  own-IsSafe address objects (some client) =
      memory-IsSafe _ (λ a h. present-update a address _ d.client_memory h)

  forward-IsSafe : (address : ℕ) (rq : Request) → IsSafe (forward d address rq)
  forward-IsSafe address rq = record {
    requesters = s.requesters;
    entries = s.entries;
    local_alive = s.local_alive;
  }

  disown-IsSafe : (rng : ℕ → ℕ) (id : ℕ) (p : Option ℕ) → IsSafe (disown rng d id p)
  disown-IsSafe rng id p =
      subst IsSafe (sym (disown_lem rng d id p))
        (memory-IsSafe _ (kept_memory-present id d.client_memory p))

  pub destroy-IsSafe : (rng : ℕ → ℕ) (o : BridgeObject) → IsSafe (destroy rng d o)
  unfolding destroy
  destroy-IsSafe rng o = elim (Bool-cases o.valid) [
    | inl e ↦ rw e (send_request-IsSafe rng (closing o))
    | inr e ↦ rw e s
  ]

pub destroy_all-IsSafe :
    (rng : ℕ → ℕ) (d : Daemon) (os : List BridgeObject) → IsSafe d → IsSafe (destroy_all rng d os)
unfolding destroy_all
destroy_all-IsSafe rng d [] s = s
destroy_all-IsSafe rng d (o ∷ os) s =
    destroy_all-IsSafe rng (destroy rng d o) os (destroy-IsSafe s rng o)

pub left_behind-IsSafe :
    {d : Daemon} (os : List BridgeObject) → IsSafe d → IsSafe (record d { left_behind = os })
left_behind-IsSafe os s = record {
  requesters = s.requesters;
  entries = s.entries;
  local_alive = s.local_alive;
}

pub drop_all-IsSafe :
    (held : BridgeObject → Bool) (rng : ℕ → ℕ) (d : Daemon) (os : List BridgeObject)
    → IsSafe d
    → IsSafe (drop_all held rng d os)
unfolding drop_all
drop_all-IsSafe held rng d [] s = s
drop_all-IsSafe held rng d (o ∷ os) s = elim (Bool-cases (held o)) [
  | inl e ↦ rw e (drop_all-IsSafe held rng _ os (left_behind-IsSafe _ s))
  | inr e ↦ rw e (drop_all-IsSafe held rng (destroy rng d o) os (destroy-IsSafe s rng o))
]

-- A result that is no use of a null pointer, and is safe again.
abbrev pub Runs : Option Daemon → Type 0
Runs result = (d' : Daemon) × (result ≡ some d') × IsSafe d'

AllAlive-entries :
    (memory : List (ℕ × Device)) (devices : List (ℕ × ℕ))
    → All (IsEntry memory) devices
    → AllAlive memory devices
AllAlive-entries memory [] h = tt
AllAlive-entries memory (e ∷ devices) ((dev, f, g), h) =
    ((dev, f), AllAlive-entries memory devices h)

module _ (outside : Outside) (rng : ℕ → ℕ) {d : Daemon} (s : IsSafe d) where
  respond_in-IsSafe :
      (rs : Response) (found : Option ℕ) → IsSafe (respond_in outside.still_held rng d rs found)
  respond_in-IsSafe rs none = drop_all-IsSafe outside.still_held rng d rs.objects s
  respond_in-IsSafe rs (some address) =
      deliver-IsSafe (own-IsSafe s address rs.objects (lookup address d.client_memory)) address rs

  post-Runs :
      (client : Client) (rq : Request) (answer : Option Response)
      → Answers client rq answer
      → Runs (Option.map (post_response d) answer)
  unfolding post_response
  post-Runs client rq answer (code, payload, e) = (
    post_response d (reply client rq code payload),
    ap (Option.map (post_response d)) e,
    enqueue-IsSafe s (responds (reply client rq code payload)) tt,
  )

  send_to-Runs :
      (client : Client) (rq : Request)
      → target d.client_memory rq.client ≡ some client
      → (found : Option ℕ) → Runs (send_to rng d rq found)
  send_to-Runs client rq alive none =
      post-Runs client rq _
        (twili_result 1004, [], respond_error_lem d.client_memory rq (twili_result 1004) alive)
  send_to-Runs client rq alive (some address) = elim (Bool-cases (rq.command_id == close_command)) [
    | inl e ↦ rw e (_, refl, forward-IsSafe (disown-IsSafe s rng rq.object_id rq.client) address rq)
    | inr e ↦ rw e (_, refl, forward-IsSafe s address rq)
  ]

  dispatch_request-Runs :
      (client : Client) (rq : Request)
      → target d.client_memory rq.client ≡ some client
      → Runs (dispatch_request outside rng d rq)
  unfolding dispatch_request
  dispatch_request-Runs client rq alive = elim (Bool-cases (rq.device_id == 0)) [
    | inl e ↦ rw e (
        post-Runs client rq _ (
          handle_request-Answers outside d rq client alive
            (AllAlive-entries d.device_memory d.devices s.entries)))
    | inr e ↦ rw e (send_to-Runs client rq alive (find_device d rq.device_id))
  ]

  pointed :
      (p : Option ℕ)
      → PointsIn d.client_memory p
      → (client : Client) × (target d.client_memory p ≡ some client)
  unfolding target
  pointed none h = absurd h
  pointed (some address) h = elim (Option-cases (lookup address d.client_memory)) [
    | inl e ↦ absurd (h e)
    | inr found ↦ found
  ]

  dispatch-Runs : (job : Job) → HasClient d.client_memory job → Runs (dispatch outside rng d job)
  unfolding dispatch dispatch_response
  dispatch-Runs wakes h = (d, refl, s)
  dispatch-Runs (requests rq) h =
      let (client, alive) = pointed rq.client h in dispatch_request-Runs client rq alive
  dispatch-Runs (responds rs) h = (_, refl, respond_in-IsSafe rs (get_client d rs.client_id))

process_from-Runs :
    (outside : Outside) (rng : ℕ → ℕ) (d : Daemon) (queue : List Job)
    → d.dispatch_queue ≡ queue
    → IsSafe d
    → Runs (process_from outside rng d queue)
process_from-Runs outside rng d [] e s = (d, refl, s)
process_from-Runs outside rng d (job ∷ jobs) e s =
    let (h, rest) = subst (All (HasClient d.client_memory)) e s.requesters in
    dispatch-Runs outside rng {d = record d { dispatch_queue = jobs }}
      (record { requesters = rest; entries = s.entries; local_alive = s.local_alive }) job h

pub process-Runs :
    (outside : Outside) (rng : ℕ → ℕ) (d : Daemon) → IsSafe d → Runs (process outside rng d)
unfolding process
process-Runs outside rng d s = process_from-Runs outside rng d d.dispatch_queue refl s
