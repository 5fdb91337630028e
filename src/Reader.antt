-- ===== src/Reader.antt =====
-- main.go: the read loop of `run`, from the samples of the ring buffer on.
pub mod Laws
pub mod Examples
use syscap.Base.{List, [], ◌∷◌, Option, none, some, Bytes}
use syscap.Base.Result.{Result, ok, err}
use syscap.Monitor.Loop.{Monitor, handle_event}
use syscap.Wire.{ReadError, read_event}

-- What rd.Read() gives: a record with its RawSample, ringbuf.ErrClosed, or another error.
pub data Read : Type 0 where
  sample : Bytes → Read
  closed failed : Read

-- How far the loop gets: `waiting` stands in rd.Read(), `panicked` is an index out of range.
pub data Loop : Type 0 where
  waiting returned_nil failed_to_read : Monitor → Loop
  failed_to_decode : ReadError → Monitor → Loop
  panicked : Loop

module _ (byte_slice_to_string : Bytes → Bytes) (target_syscall : Bytes) where
  unfoldable pub run_loop : List Read → Monitor → Loop
  unfolding read_event handle_event
  run_loop [] m = waiting m
  run_loop (closed ∷ reads) m = returned_nil m
  run_loop (failed ∷ reads) m = failed_to_read m
  run_loop (sample s ∷ reads) m = elim (read_event s) [
    | err e ↦ failed_to_decode e m
    | ok event ↦ elim (handle_event byte_slice_to_string target_syscall event m) [
      | none ↦ panicked
      | some m' ↦ run_loop reads m'
    ]
  ]
