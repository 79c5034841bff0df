-- ===== src/Pipe/Tests.antt =====
-- Runs of the pipe, and its theorems at concrete inputs.
use twili.Pipe.{
  TwibPipe, close_by, closes_reader, copied, done, flush, idle, make, make_calls, read,
  read_buffered, read_calling, read_flushed, read_pending, settle, took, write, write_pending,
  writes, wrote,
}
use twili.Base.{List, [], arith, false, length, min, refl, some, ℕ, ◌++◌, ◌+◌, ◌<◌, ◌∷◌, ◌≡◌}
use twili.Buffer.{
  compact, compact_for, get_data, mark_read, read_available, reserve, resize, try_ensure_space,
}
use twili.Buffer.Inv.{length-get_data}
use twili.Pipe.Inv.{PipeIsValid, Returns, TakesOffered, pending, quiet, taken}
use twili.Pipe.Write.{write-stream}
use twili.Pipe.Loss.{read_loses}
use twili.Pipe.Handlers.{AccountsFor, read-Accounts, write-Accounts}

-- A pipe with limit 4 that holds 1, 2, 3 while a writer with 4, 5 waits.
abbrev crowded : TwibPipe
crowded = record {
  state = write_pending (4 ∷ 5 ∷ []) 10;
  hit_eof = false;
  buffer = record { bytes = 1 ∷ 2 ∷ 3 ∷ 0 ∷ []; read_head = 0; write_head = 3; limit = some 4 };
}

crowded-IsValid : PipeIsValid 4 crowded
crowded-IsValid = record {
  limited_by = record { valid = omega arith; limit_is = refl };
  state_valid = omega arith;
}

-- A synchronous pipe with a writer that waits.
abbrev direct : TwibPipe
direct = record {
  state = write_pending (4 ∷ 5 ∷ []) 10;
  hit_eof = false;
  buffer = record { bytes = []; read_head = 0; write_head = 0; limit = some 0 };
}

abbrev take_all : List ℕ → ℕ
take_all offered = length offered

take_all-TakesOffered : TakesOffered take_all
take_all-TakesOffered offered = omega arith

-- The writer is told that all is well, and 4 and 5 are gone.
bytes_are_lost :
    read crowded (quiet take_all)
    ≡ done
        (record crowded {
          state = idle;
          buffer = record crowded.buffer { bytes = 1 ∷ 2 ∷ 3 ∷ 5 ∷ []; read_head = 3 };
        })
        (took (1 ∷ 2 ∷ 3 ∷ []) ∷ wrote 10 false ∷ [])
unfolding read flush settle copied reserve try_ensure_space compact_for compact resize read_flushed
    read_buffered read_available close_by mark_read get_data
bytes_are_lost = refl

read_loses_example :
    Returns
      (λ q events. length (taken events) + length (pending q) < length (pending crowded))
      (read crowded (quiet take_all))
read_loses_example =
    read_loses crowded (4 ∷ 5 ∷ []) 10 take_all crowded-IsValid refl held take_all-TakesOffered
  where
    held : length (get_data crowded.buffer) < 4
    held = omega (arith, length-get_data crowded-IsValid.limited_by.valid)

-- The writer's byte fits into the buffer, where it is lost, and its callback writes another before
-- the read goes on.
abbrev one_waits : TwibPipe
one_waits = record {
  state = write_pending (5 ∷ []) 10;
  hit_eof = false;
  buffer = record { bytes = 0 ∷ 0 ∷ []; read_head = 0; write_head = 0; limit = some 4 };
}

written_in_between :
    read_calling ((writes (6 ∷ []) 11 ∷ []) ∷ []) one_waits (quiet take_all)
    ≡ done
        (record one_waits {
          state = idle;
          buffer = record one_waits.buffer { bytes = 6 ∷ 0 ∷ []; read_head = 1; write_head = 1 };
        })
        (wrote 10 false ∷ wrote 11 false ∷ took (6 ∷ []) ∷ [])
unfolding read_calling make_calls write read flush settle reserve try_ensure_space compact_for
    twili.Buffer.write twili.Buffer.ensure_space copied twili.Pipe.read_idle read_available
    twili.Buffer.put close_by mark_read get_data
written_in_between = refl

-- A pipe with a reader that waits and takes one byte.
abbrev take_one : List ℕ → ℕ
take_one offered = min 1 (length offered)

abbrev awaited : TwibPipe
awaited = record {
  state = read_pending (quiet take_one);
  hit_eof = false;
  buffer = record { bytes = []; read_head = 0; write_head = 0; limit = some 7 };
}

awaited-IsValid : PipeIsValid 7 awaited
unfolding get_data
awaited-IsValid = record {
  limited_by = record { valid = omega arith; limit_is = refl };
  state_valid = (take_one, refl, (λ offered. ground arith), refl);
}

one_is_taken :
    write awaited (1 ∷ 2 ∷ []) 3
    ≡ done (record awaited { state = write_pending (2 ∷ []) 3 }) (took (1 ∷ []) ∷ [])
unfolding write
one_is_taken = refl

write-stream_example :
    Returns
      (λ q events. PipeIsValid 7 q × (taken events ++ pending q ≡ pending awaited ++ (1 ∷ 2 ∷ [])))
      (write awaited (1 ∷ 2 ∷ []) 3)
write-stream_example = write-stream awaited (1 ∷ 2 ∷ []) 3 awaited-IsValid tt (omega arith)

read-Accounts_example : AccountsFor (10 ∷ []) 1 (read crowded (λ offered. (2, closes_reader)))
read-Accounts_example = read-Accounts crowded (λ offered. (2, closes_reader))

write-Accounts_example : AccountsFor (3 ∷ []) 0 (write (make 7) (1 ∷ 2 ∷ []) 3)
unfolding make
write-Accounts_example = write-Accounts (make 7) (1 ∷ 2 ∷ []) 3 refl (omega arith)
