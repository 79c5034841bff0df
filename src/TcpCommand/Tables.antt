-- ===== src/TcpCommand/Tables.antt =====
-- The objects of a connection as a table, the set of the ids that have one, and what is promised of
-- commands by it.
use twili.Base.{
  All, Bool, Bool-cases, List, [], ap, ap₂, arith, false, if◌then◌else◌, inl, inr, length, not,
  refl, some, subst, suc, sym, true, ℕ, ◌&&◌, ◌++◌, ◌==◌, ◌||◌, ◌∙◌, ◌∷◌, ◌≡◌,
}
use twili.Messages.{twili_result}
use twili.TcpConnection.{Connection, process}
use twili.TcpConnection.Commands.{Command, IsCommand, wire}
use twili.UsbReader.{command_id, has, object_id, without}
use twili.TcpCommand.{Action, Commander, TcpHandlers, answers, close_id, insert_by}
use twili.TcpCommand.Served.{
  IsIdle, actions_of, opened_actions, process-serve_all, serve, serve_all,
}

abbrev pub Table : Type 0
Table = ℕ → Bool

abbrev pub is_in : List ℕ → Table
is_in [] id = false
is_in (x ∷ xs) id = (id == x) || is_in xs id

-- Without an id, unless it is 0.
abbrev pub closed : ℕ → Table → Table
closed closing table id = table id && not ((id == closing) && not (closing == 0))

abbrev pub added_by : TcpHandlers → List Action → Table → Table
added_by h [] table id = table id
added_by h (a ∷ actions) table id = added_by h actions (λ x. table x || is_in (h.inserted a) x) id

-- The table after a command, and the actions for it.
abbrev pub promised : TcpHandlers → (List ℕ → List ℕ) → Table → Command → Table × List Action
promised h left_by table k =
    if table (object_id k.mh)
    then (if command_id k.mh == 0xffffffff
        then (closed (object_id k.mh) table, answers 0 ∷ [])
        else (let actions = opened_actions left_by (h.handles k.mh) k in
            (added_by h actions table, actions)))
    else (table, answers (twili_result 1001) ∷ [])

unfoldable pub promised_all :
    TcpHandlers → (List ℕ → List ℕ) → Table → List Command → Table × List Action
promised_all h left_by table [] = (table, [])
promised_all h left_by table (k ∷ ks) =
    let (table', now) = promised h left_by table k in
    let (table'', later) = promised_all h left_by table' ks in (table'', now ++ later)

-- A list of objects shows as a table.
abbrev pub Shows : List ℕ → Table → Type 0
Shows objects table = (id : ℕ) → is_in objects id ≡ table id

has-is_in : (id : ℕ) (xs : List ℕ) → has id xs ≡ is_in xs id
unfolding has
has-is_in id [] = refl
has-is_in id (x ∷ xs) = elim (Bool-cases (id == x)) [
  | inl e ↦ rw e refl
  | inr e ↦ rw e (has-is_in id xs)
]

and_true : (b : Bool) → b && true ≡ b
and_true true = refl
and_true false = refl

and_false : (b : Bool) → b && false ≡ false
and_false true = refl
and_false false = refl

is_in-without :
    (closing : ℕ) (xs : List ℕ) (id : ℕ)
    → is_in (without closing xs) id ≡ is_in xs id && not (id == closing)
unfolding without
is_in-without closing [] id = refl
is_in-without closing (x ∷ xs) id =
    let ih = is_in-without closing xs id in
    elim (Bool-cases (closing == x)) [
      | inl e ↦ elim (Bool-cases (id == closing)) [
        | inl f ↦
            rw e (ih ∙ rw f (and_false (is_in xs id) ∙ sym (and_false ((id == x) || is_in xs id))))
        | inr f ↦ let g : (id == x) ≡ false = ground (arith, e, f) in rw (e, g) ih
      ]
      | inr e ↦ elim (Bool-cases (id == x)) [
        | inl g ↦ let f : (id == closing) ≡ false = ground (arith, e, g) in rw (e, g, f) refl
        | inr g ↦ rw (e, g) ih
      ]
    ]

is_in-append : (xs ys : List ℕ) (id : ℕ) → is_in (xs ++ ys) id ≡ is_in xs id || is_in ys id
is_in-append [] ys id = refl
is_in-append (x ∷ xs) ys id = elim (Bool-cases (id == x)) [
  | inl e ↦ rw e refl
  | inr e ↦ rw e (is_in-append xs ys id)
]

close_id-Shows :
    (closing : ℕ) (objects : List ℕ) (table : Table)
    → Shows objects table
    → Shows (close_id closing objects) (closed closing table)
close_id-Shows closing objects table s id = elim (Bool-cases (closing == 0)) [
  | inl e ↦ rw e (s id ∙ rw (and_false (id == closing)) (sym (and_true (table id))))
  | inr e ↦ rw e (
      is_in-without closing objects id
      ∙ rw (and_true (id == closing)) (ap (λ b. b && not (id == closing)) (s id)))
]

insert_by-Shows :
    (h : TcpHandlers) (objects : List ℕ) (actions : List Action) (table : Table)
    → Shows objects table
    → Shows (insert_by h objects actions) (added_by h actions table)
unfolding insert_by
insert_by-Shows h objects [] table s = s
insert_by-Shows h objects (a ∷ actions) table s =
    insert_by-Shows h (objects ++ h.inserted a) actions (λ x. table x || is_in (h.inserted a) x)
      (λ id. is_in-append objects (h.inserted a) id ∙ ap (λ b. b || is_in (h.inserted a) id) (s id))

-- What the code does to its list of objects is what is promised of the table.
abbrev pub Promises : List ℕ × List Action → Table × List Action → Type 0
Promises (objects, actions) (table, expected) = Shows objects table × (actions ≡ expected)

serve-Promises :
    (h : TcpHandlers) (left_by : List ℕ → List ℕ) (objects : List ℕ) (table : Table) (k : Command)
    → Shows objects table
    → Promises (serve h left_by objects k) (promised h left_by table k)
unfolding serve
serve-Promises h left_by objects table k s =
    let known = has-is_in (object_id k.mh) objects ∙ s (object_id k.mh) in
    elim (Bool-cases (table (object_id k.mh))) [
      | inl e ↦ elim (Bool-cases (command_id k.mh == 0xffffffff)) [
        | inl f ↦ rw (known, e, f) (close_id-Shows (object_id k.mh) objects table s, refl)
        | inr f ↦
            rw (known, e, f)
              (insert_by-Shows h objects (opened_actions left_by (h.handles k.mh) k) table s, refl)
      ]
      | inr e ↦ rw (known, e) (s, refl)
    ]

pub serve_all-Promises :
    (h : TcpHandlers) (left_by : List ℕ → List ℕ) (objects : List ℕ) (table : Table)
    (ks : List Command)
    → Shows objects table
    → Promises (serve_all h left_by objects ks) (promised_all h left_by table ks)
unfolding serve_all promised_all
serve_all-Promises h left_by objects table [] s = (s, refl)
serve_all-Promises h left_by objects table (k ∷ ks) s =
    let one = serve-Promises h left_by objects table k s in
    let rest =
      serve_all-Promises h left_by (serve h left_by objects k).0 (promised h left_by table k).0 ks
        one.0 in
    (rest.0, ap₂ (◌++◌) one.1 rest.1)

-- Whole commands that lie in the input buffer of an idle TCP connection are taken off by Process and
-- served in order by Synchronized, as the table of the ids that have an object says: a command for an
-- unknown object gets the error; a request to close an object takes its id out of the table, unless
-- it is 0; any other command is opened, its handler gets the payload and the end, and the ids of the
-- objects that it adds are put into the table. What handlers leave of a payload is taken to be one
-- function of it. Then the connection is idle again, and its objects show as the table.
pub process-Promises :
    (h : TcpHandlers) (left_by : List ℕ → List ℕ) (conn : Connection) (c : Commander)
    (table : Table) (ks : List Command)
    → conn.deletion_flag ≡ false
    → All IsCommand ks
    → IsIdle c
    → Shows c.objects table
    → (c' : Commander) × (actions_of h c (
          process left_by
            (suc (length ks))
            (record conn { in_buffer = wire ks; has_current_mh = false }))
        ≡ some (c', (promised_all h left_by table ks).1))
      × Shows c'.objects (promised_all h left_by table ks).0
      × IsIdle c'
process-Promises h left_by conn c table ks e v i s =
    let (c', p, o, i') = process-serve_all h left_by conn c ks e v i in
    let (shown, same) = serve_all-Promises h left_by c.objects table ks s in
    (
      c',
      p ∙ ap (λ x. some (c', x)) same,
      subst (λ x. Shows x (promised_all h left_by table ks).0) (sym o) shown,
      i',
    )
