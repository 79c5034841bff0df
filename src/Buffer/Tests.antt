-- ===== src/Buffer/Tests.antt =====
-- Runs of the buffer, and its theorems at concrete inputs.
use twili.Base.{List, [], arith, false, none, refl, some, true, ◌∷◌, ◌≡◌}
use twili.Buffer.{
  Buffer, compact, compact_for, ensure_space, fill, get_data, mark_read, mark_written, put, read,
  read_available, reserve, resize, try_ensure_space, write,
}
use twili.Buffer.Inv.{IsValid}
use twili.Buffer.Trace.{
  Op, filled, fills, got, offered, queue_run, reads, run, run_refines, takes, writes, wrote,
}

-- Four bytes of which the last two are to be read; the limit is five.
abbrev half_read : Buffer
half_read = record { bytes = 1 ∷ 2 ∷ 3 ∷ 4 ∷ []; read_head = 2; write_head = 4; limit = some 5 }

half_read-IsValid : IsValid half_read
half_read-IsValid = omega arith

abbrev other_bytes : Buffer
other_bytes = record { bytes = 9 ∷ 0 ∷ []; read_head = 0; write_head = 1; limit = none }

other_bytes-IsValid : IsValid other_bytes
other_bytes-IsValid = omega arith

abbrev calls : List Op
calls =
    writes (5 ∷ 6 ∷ [])
    ∷ writes (7 ∷ 8 ∷ [])
    ∷ reads 3
    ∷ reads 2
    ∷ writes (7 ∷ [])
    ∷ reads 2
    ∷ fills 2 (9 ∷ 8 ∷ 7 ∷ [])
    ∷ takes 1
    ∷ reads 1
    ∷ []

run-half_read :
    run half_read calls
    ≡ wrote true
      ∷ wrote false
      ∷ got (some (3 ∷ 4 ∷ 5 ∷ []))
      ∷ got none
      ∷ wrote true
      ∷ got (some (6 ∷ 7 ∷ []))
      ∷ filled
      ∷ offered (9 ∷ 8 ∷ [])
      ∷ got (some (8 ∷ []))
      ∷ []
unfolding run reserve try_ensure_space fill mark_written get_data read_available write ensure_space
    compact_for compact put read mark_read resize
run-half_read = refl

run_refines_example : run half_read calls ≡ queue_run (some 5) (get_data half_read) calls
run_refines_example = run_refines calls half_read-IsValid (omega arith) (omega arith)
