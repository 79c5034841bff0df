-- ===== src/MetaInterface/Answers.antt =====
-- `HandleRequest`: its responses.
use mathlib.Core.Option
use twili.Base.{
  All, Bool-cases, List, Option, [], ap, ap₂, arith, false, inl, inr, length, lookup, none, refl,
  some, true, ℕ, ◌<◌, ◌==◌, ◌^◌, ◌∙◌, ◌∷◌, ◌≡◌,
}
use twili.Messages.{
  Client, Memory, Request, Response, respond_error, respond_ok, respond_to, target, twili_result,
}
use twili.Daemon.{Daemon, Device}
use twili.MetaInterface.{
  Outside, connect_tcp, connect_with, device_packs, handle_request, list_devices, list_with,
  pack_with, parse_connect, text_payload, with_payload,
}
use twili.MetaInterface.Texts.{parse_connect_lem, pop_texts, text, text_payload_lem}

-- A response to a request of a client.
abbrev pub reply : Client → Request → ℕ → List ℕ → Response
reply client rq code payload = record {
  client_id = client.client_id;
  device_id = rq.device_id;
  object_id = rq.object_id;
  result_code = code;
  tag = rq.tag;
  payload = payload;
  objects = [];
}

pub respond_error_lem :
    (memory : Memory) (rq : Request) {client : Client} (code : ℕ)
    → target memory rq.client ≡ some client
    → respond_error memory rq code ≡ some (reply client rq code [])
unfolding respond_error
respond_error_lem memory rq code e = ap (λ o. respond_to o rq code) e

-- What a `CONNECT_TCP` is answered.
abbrev pub connect_reply : Outside → Client → Request → Option (List ℕ × List ℕ) → Response
connect_reply outside client rq none = reply client rq (twili_result 1005) []
connect_reply outside client rq (some (hostname, port)) =
    reply client rq 0 (text (outside.connect hostname port))

module _ (outside : Outside) (memory : Memory) (rq : Request) {client : Client}
    (alive : target memory rq.client ≡ some client)
    (short : (hostname port : List ℕ) → length (outside.connect hostname port) < 2 ^ 62) where
  connect_with_lem :
      (texts : Option (List ℕ × List ℕ))
      → connect_with outside memory rq texts ≡ some (connect_reply outside client rq texts)
  unfolding respond_ok
  connect_with_lem none = respond_error_lem memory rq (twili_result 1005) alive
  connect_with_lem (some (hostname, port)) =
      ap (Option.map (with_payload (text_payload (outside.connect hostname port))))
        (respond_error_lem memory rq 0 alive)
      ∙ ap (λ p. some (reply client rq 0 p)) (text_payload_lem _ (short hostname port))

  connect_tcp_lem :
      length rq.payload < 2 ^ 63
      → connect_tcp outside memory rq
        ≡ some (connect_reply outside client rq (pop_texts rq.payload))
  unfolding connect_tcp
  connect_tcp_lem small =
      connect_with_lem (parse_connect rq.payload)
      ∙ ap (λ t. some (connect_reply outside client rq t)) (parse_connect_lem rq.payload small)

-- An answer to the client, with the request's own ids and without objects.
abbrev pub Answers : Client → Request → Option Response → Type 0
Answers client rq answer =
    (code : ℕ) × (payload : List ℕ) × (answer ≡ some (reply client rq code payload))

-- Every device of the map is alive.
abbrev pub AllAlive : List (ℕ × Device) → List (ℕ × ℕ) → Type 0
AllAlive memory devices = All (λ e. (dev : Device) × (lookup e.1 memory ≡ some dev)) devices

device_packs_lem :
    (memory : List (ℕ × Device)) (devices : List (ℕ × ℕ))
    → AllAlive memory devices
    → (packs : List (ℕ × List ℕ × List ℕ)) × (device_packs memory devices ≡ some packs)
unfolding device_packs
device_packs_lem memory [] alive = ([], refl)
device_packs_lem memory ((id, address) ∷ devices) ((dev, e), alive) =
    let (packs, p) = device_packs_lem memory devices alive in (_, ap₂ pack_with e p)

list_devices-Answers :
    (outside : Outside) (d : Daemon) (rq : Request) (client : Client)
    → target d.client_memory rq.client ≡ some client
    → AllAlive d.device_memory d.devices
    → Answers client rq (list_devices outside d rq)
unfolding list_devices respond_ok
list_devices-Answers outside d rq client alive devices =
    let (packs, p) = device_packs_lem d.device_memory d.devices devices in
    (
      0,
      text_payload (outside.dump packs),
      ap₂ (list_with outside) (respond_error_lem d.client_memory rq 0 alive) p,
    )

connect_tcp-Answers :
    (outside : Outside) (memory : Memory) (rq : Request) (client : Client)
    → target memory rq.client ≡ some client
    → (texts : Option (List ℕ × List ℕ)) → Answers client rq (connect_with outside memory rq texts)
unfolding respond_ok
connect_tcp-Answers outside memory rq client alive none =
    (twili_result 1005, [], respond_error_lem memory rq (twili_result 1005) alive)
connect_tcp-Answers outside memory rq client alive (some (hostname, port)) = (
  0,
  text_payload (outside.connect hostname port),
  ap (Option.map (with_payload (text_payload (outside.connect hostname port))))
      (respond_error_lem memory rq 0 alive),
)

-- Every request of a live client to the daemon itself is answered, while no device of the map has
-- expired.
pub handle_request-Answers :
    (outside : Outside) (d : Daemon) (rq : Request) (client : Client)
    → target d.client_memory rq.client ≡ some client
    → AllAlive d.device_memory d.devices
    → Answers client rq (handle_request outside d rq)
unfolding handle_request connect_tcp
handle_request-Answers outside d rq client alive devices = elim (Bool-cases (rq.object_id == 0)) [
  | inl e ↦ elim (Bool-cases (rq.command_id == 10)) [
    | inl f ↦ rw (e, f) (list_devices-Answers outside d rq client alive devices)
    | inr f ↦ elim (Bool-cases (rq.command_id == 11)) [
      | inl g ↦
          rw (e, f, g)
            (connect_tcp-Answers outside d.client_memory rq client alive (parse_connect rq.payload))
      | inr g ↦ rw (e, f, g) (twili_result 1002, [], respond_error_lem d.client_memory rq _ alive)
    ]
  ]
  | inr e ↦ rw e (twili_result 1001, [], respond_error_lem d.client_memory rq _ alive)
]

-- A `CONNECT_TCP` whose payload begins with two texts is answered with what the connection to this
-- host and port reports, as a text; any other payload with the error for a bad request.
pub handle_request-connect :
    (outside : Outside) (d : Daemon) (rq : Request) (client : Client)
    → target d.client_memory rq.client ≡ some client
    → ((hostname port : List ℕ) → length (outside.connect hostname port) < 2 ^ 62)
    → rq.object_id ≡ 0
    → rq.command_id ≡ 11
    → length rq.payload < 2 ^ 63
    → handle_request outside d rq ≡ some (connect_reply outside client rq (pop_texts rq.payload))
unfolding handle_request
handle_request-connect outside d rq client alive short e f small =
    let e' : (rq.object_id == 0) ≡ true = ground (arith, e) in
    let f' : (rq.command_id == 10) ≡ false = ground (arith, f) in
    let g' : (rq.command_id == 11) ≡ true = ground (arith, f) in
    rw (e', f', g') (connect_tcp_lem outside d.client_memory rq alive short small)
