-- ===== src/TcpCommand.antt =====
-- twili/bridge/tcp/Connection.cpp, `Synchronized` and what it calls: the main thread's part of a
-- command that came over TCP, with the connection's table of objects. What the handlers do is a
-- parameter. `RespondError` and `RespondOk` are those of Responses, here an action each.
pub mod Served
pub mod Tables
mod Tests
use twili.Base.{Bool, List, [], false, if◌then◌else◌, true, ℕ, ◌++◌, ◌==◌, ◌∷◌}
use twili.Messages.{twili_result}
use twili.TcpConnection.{
  Event, after, begin_processing_command, finalize_command, flush_receive_buffer,
}
use twili.UsbReader.{command_id, has, object_id, without}

-- The objects by their ids, and whether the pointers are set; `has_handler` is whether the current
-- handler is not the discarding one.
pub record Commander : Type 0 where
  pub objects : List ℕ
  pub has_state : Bool
  pub has_object : Bool
  pub has_handler : Bool

pub data Action : Type 0 where
  answers : ℕ → Action
  calls_open_request calls_flush calls_finalize : List ℕ → Action
  calls_finalize_command : Action

unfoldable pub reset : Commander → Commander
reset c = record c { has_state = false; has_handler = false }

-- The handlers of the objects: whether `OpenRequest` returns one other than the discarding one, and
-- the ids of the objects that a call adds by `InsertObject`.
pub record TcpHandlers : Type 0 where
  pub handles : List ℕ → Bool
  pub inserted : Action → List ℕ

unfoldable pub insert_by : TcpHandlers → List ℕ → List Action → List ℕ
insert_by h objects [] = objects
insert_by h objects (a ∷ actions) = insert_by h (objects ++ h.inserted a) actions

-- Calls of handlers, one after the other.
abbrev pub act : TcpHandlers → List Action → Commander → Commander × List Action
act h actions c = (record c { objects = insert_by h c.objects actions }, actions)

-- Object 0 stays: the objects end with the connection.
abbrev pub close_id : ℕ → List ℕ → List ℕ
close_id id objects = if id == 0 then objects else without id objects

-- `BeginProcessingCommandImpl`
unfoldable pub begin_command : TcpHandlers → List ℕ → Commander → Commander × List Action
begin_command h mh c =
    let c' = record c { has_state = true } in
    if has (object_id mh) c.objects
    then (if command_id mh == 0xffffffff
        then (record c' { objects = close_id (object_id mh) c.objects }, answers 0 ∷ [])
        else act h (calls_open_request mh ∷ [])
            (record c' { has_object = true; has_handler = h.handles mh }))
    else (c', answers (twili_result 1001) ∷ [])

-- The call of the current handler; the discarding one drops the bytes.
abbrev pub by_handler : Bool → Action → List Action
by_handler true a = a ∷ []
by_handler false a = []

abbrev pub by_object : Bool → List Action
by_object true = calls_finalize_command ∷ []
by_object false = []

-- `Synchronized`
unfoldable pub synchronized : TcpHandlers → Commander → Event → Commander × List Action
synchronized h c (begin_processing_command mh) = begin_command h mh c
synchronized h c (flush_receive_buffer q) = act h (by_handler c.has_handler (calls_flush q)) c
synchronized h c (finalize_command q) =
    act h (by_handler c.has_handler (calls_finalize q) ++ by_object c.has_object)
      (reset (record c { has_object = false }))

abbrev pub then_act : List Action → Commander × List Action → Commander × List Action
then_act before (c, after) = (c, before ++ after)

-- The tasks of a connection, in order.
unfoldable pub synchronize : TcpHandlers → Commander → List Event → Commander × List Action
synchronize h c [] = (c, [])
synchronize h c (e ∷ es) = let (c', now) = synchronized h c e in then_act now (synchronize h c' es)
