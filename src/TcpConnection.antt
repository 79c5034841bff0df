-- ===== src/TcpConnection.antt =====
-- twili/bridge/tcp/Connection.cpp: how the console takes commands off a TCP connection. `Process`
-- hands each step to the main thread and waits for it, so it is an event in order. Buffers are the
-- lists of the bytes that they hold, the queue of `Buffer.Queue`. The main thread is taken not to
-- close the connection in between.
pub mod Commands
pub mod Partial
mod Tests
use twili.Protocol.{header_size, payload_size}
use twili.Base.{
  Bool, List, [], add64, drop, false, if◌then◌else◌, length, ltb, min, not, sub64, suc, take, true,
  zero, ℕ, ◌&&◌, ◌++◌, ◌==◌, ◌∷◌,
}

pub record Connection : Type 0 where
  pub in_buffer : List ℕ
  pub has_current_mh : Bool
  pub has_current_payload : Bool
  pub current_mh : List ℕ
  pub received : ℕ
  pub payload_buffer : List ℕ
  pub deletion_flag : Bool

-- `Synchronize`: the task, with what the main thread is to look at.
pub data Event : Type 0 where
  begin_processing_command flush_receive_buffer finalize_command : List ℕ → Event

pub data Turn : Type 0 where
  again stops : Connection → List Event → Turn

pub data Run : Type 0 where
  finished : Connection → List Event → Run
  out_of_fuel : Run

-- `PumpInput` with the bytes that `bsd_recv` has stored; none are an error, as `Panic` says.
unfoldable pub pump_input : Connection → List ℕ → Connection
pump_input c [] = record c { deletion_flag = true }
pump_input c (ch ∷ r) = record c { in_buffer = c.in_buffer ++ (ch ∷ r) }

-- What the handler of a command leaves in the payload buffer when it is flushed.
module _ (left_by : List ℕ → List ℕ) where
  -- The end of the payload's part, by whether all of it is there.
  abbrev pub settle : Bool → Connection → List Event → Turn
  settle true c events =
      again (record c { has_current_mh = false; has_current_payload = false })
        (events ++ (finalize_command c.payload_buffer ∷ []))
  settle false c events = stops c events

  -- The payload's part, with `payload_avail` bytes.
  abbrev pub transfer : ℕ → Connection → List Event → Turn
  transfer avail c events =
      let payload = c.payload_buffer ++ take avail c.in_buffer in
      let size = add64 c.received avail in
      settle (size == payload_size c.current_mh)
        (record c {
          in_buffer = drop avail c.in_buffer;
          received = size;
          payload_buffer = left_by payload;
        })
        (events ++ (flush_receive_buffer payload ∷ []))

  abbrev pub payload_in : Bool → Connection → List Event → Turn
  payload_in true c events = again c events
  payload_in false c events =
      transfer (min (length c.in_buffer) (sub64 (payload_size c.current_mh) c.received)) c events

  -- The header's part: with too few bytes for one, the turn goes on to the payload.
  abbrev pub header_in : Bool → Connection → Turn
  header_in true c = payload_in c.has_current_payload c []
  header_in false c =
      if ltb (length c.in_buffer) header_size
      then payload_in c.has_current_payload c []
      else payload_in false
          (record c {
            in_buffer = drop header_size c.in_buffer;
            has_current_mh = true;
            has_current_payload = false;
            current_mh = take header_size c.in_buffer;
            received = 0;
            payload_buffer = [];
          })
          (begin_processing_command (take header_size c.in_buffer) ∷ [])

  unfoldable pub turn : Connection → Turn
  turn c = header_in c.has_current_mh c

  abbrev pub after : List Event → Run → Run
  after events (finished c more) = finished c (events ++ more)
  after events out_of_fuel = out_of_fuel

  abbrev pub go_on : (Connection → Run) → Turn → Run
  go_on next (again c events) = after events (next c)
  go_on next (stops c events) = finished c events

  -- `Process`; the fuel is how often its loop is run.
  unfoldable pub process : ℕ → Connection → Run
  process zero c = out_of_fuel
  process (suc fuel) c =
      if not c.deletion_flag && ltb 0 (length c.in_buffer)
      then go_on (process fuel) (turn c)
      else finished c []
