-- ===== src/Pipe.antt =====
-- twili/TwibPipe.hpp and twili/TwibPipe.cpp: the pipe between a process and a host that reads or
-- writes with callbacks. A read callback is the function that it computes, with the call that it
-- makes on the pipe, if any; as the header asks, it calls neither `Read` nor `Write`. A write
-- callback is a number. What is called is listed as events. A callback that is told of the end of
-- the file is taken to make no call on the pipe. A write callback may make calls, as that of
-- twili/bridge/interfaces/ITwibPipeWriter.cpp does: where its own call is the last thing that the
-- pipe does, they are calls that follow; where a `Read` whose first flush ends the write goes on
-- behind it, they are arguments of `read_calling`, and `read` is the case that there are none.
pub mod Inv
pub mod Flush
pub mod Handlers
pub mod Stream
pub mod Read
pub mod Loss
pub mod Write
mod Tests
use twili.Base.{
  Bool, List, [], copy_at, drop, false, if◌then◌else◌, length, ltb, min, not, take, true, ℕ, ◌++◌,
  ◌==◌, ◌||◌, ◌∷◌,
}
use twili.Buffer
use twili.Buffer.{Buffer, get_data, limited, mark_read, read_available, reserve}

pub data Close : Type 0 where
  stays_open closes_reader closes_writer : Close

-- From the bytes that are offered to how many are taken, and the call that is made.
abbrev pub ReadCb : Type 0
ReadCb = List ℕ → ℕ × Close

pub data State : Type 0 where
  idle : State
  write_pending : List ℕ → ℕ → State
  read_pending : ReadCb → State

pub record TwibPipe : Type 0 where
  pub state : State
  pub hit_eof : Bool
  pub buffer : Buffer

-- A read callback's call with the bytes that it took, or with the end of the file; a write
-- callback's call with its `eof`.
pub data Event : Type 0 where
  took : List ℕ → Event
  read_eof : Event
  wrote : ℕ → Bool → Event

-- `twili::Abort(TWILI_ERR_INVALID_PIPE_STATE)`, and a call of a moved-from `std::function`.
pub data Result : Type 0 where
  done : TwibPipe → List Event → Result
  aborts empty_function : Result

-- `TwibPipe(size_t buffer_limit)`
unfoldable pub make : ℕ → TwibPipe
make buffer_limit = record { state = idle; hit_eof = false; buffer = limited buffer_limit }

unfoldable pub is_writer_closed : TwibPipe → Bool
is_writer_closed p = p.hit_eof

abbrev told_of_reader : State → List Event
told_of_reader idle = []
told_of_reader (write_pending d w) = wrote w true ∷ []
told_of_reader (read_pending cb) = read_eof ∷ []

unfoldable pub close_reader : TwibPipe → TwibPipe × List Event
close_reader p = (record p { hit_eof = true; state = idle }, told_of_reader p.state)

abbrev without_reader : State → State × List Event
without_reader idle = (idle, [])
without_reader (write_pending d w) = (write_pending d w, [])
without_reader (read_pending cb) = (idle, read_eof ∷ [])

unfoldable pub close_writer : TwibPipe → TwibPipe × List Event
close_writer p =
    let (s, events) = without_reader p.state in (record p { hit_eof = true; state = s }, events)

-- The call that a read callback makes while it runs.
unfoldable pub close_by : Close → TwibPipe → TwibPipe × List Event
unfolding close_reader close_writer
close_by stays_open p = (p, [])
close_by closes_reader p = close_reader p
close_by closes_writer p = close_writer p

-- `std::copy_n` to the write head, with no `MarkWritten`.
unfoldable pub copied : Buffer → List ℕ → Buffer
copied b src = record b { bytes = copy_at b.bytes b.write_head src }

-- `FlushWritePendingState` behind its `Reserve`; `ExitWritePendingState` is the last branch.
unfoldable pub settle : TwibPipe → List ℕ → ℕ → ℕ → Buffer → Bool × TwibPipe × List Event
settle p bytes w space b =
    let allowed = min space (length bytes) in
    let b' = copied b (take allowed bytes) in
    if ltb allowed (length bytes)
    then (false, record p { buffer = b'; state = write_pending (drop space bytes) w }, [])
    else (true, record p { buffer = b'; state = idle }, wrote w false ∷ [])

unfoldable pub flush : TwibPipe → List ℕ → ℕ → Bool × TwibPipe × List Event
flush p bytes w = let (space, b) = reserve p.buffer (length bytes) in settle p bytes w space b

-- `Read` in the idle state with an empty buffer, by `hit_eof`.
abbrev read_empty : Bool → TwibPipe → ReadCb → TwibPipe × List Event
read_empty true p cb = (p, read_eof ∷ [])
read_empty false p cb = (record p { state = read_pending cb }, [])

-- `Read` in the idle state, with the callback's answer to the buffered bytes.
abbrev read_front : TwibPipe → ℕ × Close → TwibPipe × List Event
read_front p (n, call) =
    let (q, events) = close_by call p in
    (record q { buffer = mark_read q.buffer n }, took (take n (get_data p.buffer)) ∷ events)

unfoldable pub read_idle : TwibPipe → ReadCb → TwibPipe × List Event
read_idle p cb =
    if ltb 0 (read_available p.buffer)
    then read_front p (cb (get_data p.buffer))
    else read_empty p.hit_eof p cb

-- The check behind a read callback that has made the pipe leave the write pending state.
abbrev exited : TwibPipe → List Event → Result
exited q events = if not q.hit_eof then aborts else done q events

abbrev pub result : TwibPipe × List Event → Result
result (p, events) = done p events

abbrev pub after : List Event → Result → Result
after events (done p more) = done p (events ++ more)
after events aborts = aborts
after events empty_function = empty_function

abbrev flush_result : Bool × TwibPipe × List Event → Result
flush_result (f, p, events) = done p events

-- `Read` in the write pending state from the buffer, when a flush has left bytes pending.
abbrev buffered_with : TwibPipe → List ℕ → ℕ → ℕ × Close → Result
buffered_with p bytes w (n, call) =
    let (q, events) = close_by call p in
    let seen = took (take n (get_data p.buffer)) ∷ events in
    elim q.state [
      | write_pending d v ↦
          after seen (flush_result (flush (record q { buffer = mark_read q.buffer n }) bytes w))
      | idle ↦ exited q seen
      | read_pending c ↦ exited q seen
    ]

unfoldable pub read_buffered : TwibPipe → List ℕ → ℕ → ReadCb → Result
read_buffered p bytes w cb = buffered_with p bytes w (cb (get_data p.buffer))

-- `Read` in the write pending state from the pending bytes themselves.
abbrev direct_with : TwibPipe → List ℕ → ℕ → ℕ × Close → Result
direct_with p bytes w (n, call) =
    let (q, events) = close_by call p in
    let seen = took (take n bytes) ∷ events in
    elim q.state [
      | write_pending d v ↦
          if ltb (length bytes) n
          then aborts
          else after seen (flush_result (flush q (drop n bytes) w))
      | idle ↦ exited q seen
      | read_pending c ↦ exited q seen
    ]

unfoldable pub read_direct : TwibPipe → List ℕ → ℕ → ReadCb → Result
read_direct p bytes w cb = direct_with p bytes w (cb bytes)

-- What the first flush of `Read` has left pending.
abbrev pub pending_in : State → List ℕ
pending_in idle = []
pending_in (write_pending d w) = d
pending_in (read_pending cb) = []

unfoldable pub read_flushed : Bool × TwibPipe × List Event → ℕ → ReadCb → Result
read_flushed (true, p, events) w cb = after events (result (read_idle p cb))
read_flushed (false, p, events) w cb = after events (
    if ltb 0 (read_available p.buffer)
    then read_buffered p (pending_in p.state) w cb
    else read_direct p (pending_in p.state) w cb)

abbrev read_in : State → TwibPipe → ReadCb → Result
read_in idle p cb = result (read_idle p cb)
read_in (write_pending bytes w) p cb = read_flushed (flush p bytes w) w cb
read_in (read_pending old) p cb = aborts

unfoldable pub read : TwibPipe → ReadCb → Result
read p cb = read_in p.state p cb

abbrev write_buffered : TwibPipe → List ℕ → ℕ → Bool × Buffer → Result
write_buffered p bytes w (true, b) = done (record p { buffer = b }) (wrote w false ∷ [])
write_buffered p bytes w (false, b) =
    done (record p { buffer = b; state = write_pending bytes w }) []

-- `Write` to a waiting reader. A callback that closes the pipe reaches the moved-from function.
abbrev write_through : TwibPipe → List ℕ → ℕ → ℕ × Close → Result
write_through p bytes w (n, stays_open) =
    if ltb n (length bytes)
    then done (record p { state = write_pending (drop n bytes) w }) (took (take n bytes) ∷ [])
    else if n == length bytes
    then done (record p { state = idle }) (took bytes ∷ wrote w false ∷ [])
    else aborts
write_through p bytes w (n, _) = empty_function

abbrev write_in : State → TwibPipe → List ℕ → ℕ → Result
write_in idle p bytes w = write_buffered p bytes w (Buffer.write p.buffer bytes)
write_in (write_pending d v) p bytes w = aborts
write_in (read_pending cb) p bytes w = write_through p bytes w (cb bytes)

unfoldable pub write : TwibPipe → List ℕ → ℕ → Result
write p bytes w =
    if length bytes == 0 || p.hit_eof
    then done p (wrote w p.hit_eof ∷ [])
    else write_in p.state p bytes w

-- The calls that a write callback makes.
pub data Call : Type 0 where
  writes : List ℕ → ℕ → Call
  closes : Close → Call

abbrev pub and_then : Result → (TwibPipe → Result) → Result
and_then (done p events) next = after events (next p)
and_then aborts next = aborts
and_then empty_function next = empty_function

abbrev pub make_call : Call → TwibPipe → Result
make_call (writes bytes w) p = write p bytes w
make_call (closes c) p = result (close_by c p)

unfoldable pub make_calls : List Call → TwibPipe → Result
make_calls [] p = done p []
make_calls (c ∷ cs) p = and_then (make_call c p) (make_calls cs)

-- `Read` in the write pending state; `next` is what follows a flush that ends the write.
abbrev pub flushed_calling :
    (TwibPipe → Result) → Bool × TwibPipe × List Event → ℕ → ReadCb → Result
flushed_calling next (true, p, events) w cb = after events (next p)
flushed_calling next (false, p, events) w cb = read_flushed (false, p, events) w cb

abbrev pub calling_in : (TwibPipe → Result) → State → TwibPipe → ReadCb → Result
calling_in next idle p cb = result (read_idle p cb)
calling_in next (write_pending bytes w) p cb = flushed_calling next (flush p bytes w) w cb
calling_in next (read_pending old) p cb = aborts

-- `Read`, with the calls of the write callbacks that its flushes end, one after the other, before
-- each `return Read(cb)`.
unfoldable pub read_calling : List (List Call) → TwibPipe → ReadCb → Result
read_calling [] p cb = read p cb
read_calling (cs ∷ more) p cb =
    calling_in (λ q. and_then (make_calls cs q) (λ q'. read_calling more q' cb)) p.state p cb
