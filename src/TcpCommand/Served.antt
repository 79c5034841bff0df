-- ===== src/TcpCommand/Served.antt =====
-- Whole commands over a TCP connection, from their bytes to what is done for them.
use twili.Base.{
  All, Bool, Bool-cases, List, Option, [], ap, append_assoc, ap₂, false, if◌then◌else◌, inl, inr,
  length, none, refl, some, subst, suc, sym, true, ℕ, ◌++◌, ◌==◌, ◌∙◌, ◌∷◌, ◌≡◌,
}
use twili.Messages.{twili_result}
use twili.TcpConnection.{Connection, Event, Run, after, finished, out_of_fuel, process}
use twili.TcpConnection.Commands.{Command, IsCommand, events, process-commands, wire}
use twili.UsbReader.{command_id, has, object_id}
use twili.TcpCommand.{
  Action, Commander, TcpHandlers, answers, begin_command, calls_finalize, calls_finalize_command,
  calls_flush, calls_open_request, close_id, insert_by, reset, synchronize, synchronized, then_act,
}

-- Between two commands there is no handler and no object.
pub record IsIdle (c : Commander) : Type 0 where
  pub no_handler : c.has_handler ≡ false
  pub no_object : c.has_object ≡ false

-- What is promised of a command, by the objects there are: the objects after it, and the actions.
abbrev pub opened_actions : (List ℕ → List ℕ) → Bool → Command → List Action
opened_actions left_by true k =
    calls_open_request k.mh
    ∷ calls_flush k.payload
    ∷ calls_finalize (left_by k.payload)
    ∷ calls_finalize_command
    ∷ []
opened_actions left_by false k = calls_open_request k.mh ∷ calls_finalize_command ∷ []

unfoldable pub serve : TcpHandlers → (List ℕ → List ℕ) → List ℕ → Command → List ℕ × List Action
serve h left_by objects k =
    if has (object_id k.mh) objects
    then (if command_id k.mh == 0xffffffff
        then (close_id (object_id k.mh) objects, answers 0 ∷ [])
        else (let actions = opened_actions left_by (h.handles k.mh) k in
            (insert_by h objects actions, actions)))
    else (objects, answers (twili_result 1001) ∷ [])

unfoldable pub serve_all :
    TcpHandlers → (List ℕ → List ℕ) → List ℕ → List Command → List ℕ × List Action
serve_all h left_by objects [] = (objects, [])
serve_all h left_by objects (k ∷ ks) =
    let (objects', now) = serve h left_by objects k in
    let (objects'', later) = serve_all h left_by objects' ks in (objects'', now ++ later)

then_act-append :
    (before more : List Action) (r : Commander × List Action)
    → then_act before (then_act more r) ≡ then_act (before ++ more) r
then_act-append before more (c, after) = ap (λ x. (c, x)) (sym (append_assoc before more after))

synchronize-append :
    (h : TcpHandlers) (c : Commander) (es fs : List Event)
    → synchronize h c (es ++ fs)
      ≡ (let r = synchronize h c es in then_act r.1 (synchronize h r.0 fs))
unfolding synchronize
synchronize-append h c [] fs = refl
synchronize-append h c (e ∷ es) fs =
    let (c', now) = synchronized h c e in
    ap (then_act now) (synchronize-append h c' es fs)
    ∙ then_act-append now (synchronize h c' es).1 _

-- What the main thread does for the tasks of a run that ends.
abbrev pub actions_of : TcpHandlers → Commander → Run → Option (Commander × List Action)
actions_of h c (finished d events) = some (synchronize h c events)
actions_of h c out_of_fuel = none

module _ (h : TcpHandlers) (left_by : List ℕ → List ℕ) where
  -- The three tasks of a command do what is promised, and leave the connection idle.
  abbrev Serves : Commander → List ℕ × List Action → Commander × List Action → Type 0
  Serves c (objects, promised) (c', actions) =
      (c'.objects ≡ objects) × (actions ≡ promised) × IsIdle c'

  command-Serves :
      (c : Commander) (k : Command)
      → IsIdle c
      → Serves c (serve h left_by c.objects k) (synchronize h c (events left_by (k ∷ [])))
  unfolding synchronize synchronized begin_command reset serve insert_by
  command-Serves c k i = elim (Bool-cases (has (object_id k.mh) c.objects)) [
    | inl e ↦ elim (Bool-cases (command_id k.mh == 0xffffffff)) [
      | inl f ↦
          rw (e, f, i.no_handler, i.no_object)
            (refl, refl, record { no_handler = refl; no_object = refl })
      | inr f ↦ elim (Bool-cases (h.handles k.mh)) [
        | inl g ↦ rw (e, f, g) (refl, refl, record { no_handler = refl; no_object = refl })
        | inr g ↦ rw (e, f, g) (refl, refl, record { no_handler = refl; no_object = refl })
      ]
    ]
    | inr e ↦
        rw (e, i.no_handler, i.no_object)
          (refl, refl, record { no_handler = refl; no_object = refl })
  ]

  commands-Serves :
      (c : Commander) (ks : List Command)
      → IsIdle c
      → Serves c (serve_all h left_by c.objects ks) (synchronize h c (events left_by ks))
  unfolding synchronize serve_all
  commands-Serves c [] i = (refl, refl, i)
  commands-Serves c (k ∷ ks) i =
      let one = synchronize h c (events left_by (k ∷ [])) in
      let (o, a, i') = command-Serves c k i in
      let promise = serve h left_by c.objects k in
      let (o', a', i'') = commands-Serves one.0 ks i' in
      subst (Serves c (serve_all h left_by c.objects (k ∷ ks)))
        (sym (synchronize-append h c (events left_by (k ∷ [])) (events left_by ks)))
        (
          o' ∙ ap (λ x. (serve_all h left_by x ks).0) o,
          ap₂ (◌++◌) a (a' ∙ ap (λ x. (serve_all h left_by x ks).1) o),
          i'',
        )

  -- Whole commands that lie in the input buffer are served, one after the other.
  pub process-serve_all :
      (conn : Connection) (c : Commander) (ks : List Command)
      → conn.deletion_flag ≡ false
      → All IsCommand ks
      → IsIdle c
      → (c' : Commander) × (actions_of h c (
            process left_by
              (suc (length ks))
              (record conn { in_buffer = wire ks; has_current_mh = false }))
          ≡ some (c', (serve_all h left_by c.objects ks).1))
        × (c'.objects ≡ (serve_all h left_by c.objects ks).0)
        × IsIdle c'
  process-serve_all conn c ks e v i =
      let r = synchronize h c (events left_by ks) in
      let (o, a, i') = commands-Serves c ks i in
      (
        r.0,
        ap (actions_of h c) (process-commands left_by conn ks e v) ∙ ap (λ x. some (r.0, x)) a,
        o,
        i',
      )
