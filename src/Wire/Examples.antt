-- ===== src/Wire/Examples.antt =====
-- The bytes of an event.
use syscap.Base.{◌++◌, [], ◌∷◌, codes, ◌≡◌, refl, arith, pos, negsuc, Bytes}
use syscap.Base.Result.{ok}
use syscap.Event.{Event}
use syscap.Wire.RoundTrip.{IsEvent, read_event-event_bytes}
use syscap.Wire.{event_bytes, read_event}

abbrev pub comm : Bytes
comm = codes "syscap-test" ++ (0 ∷ 0 ∷ 0 ∷ 0 ∷ 0 ∷ [])

-- A call of write that failed with EBADF.
abbrev pub failed_write : Event
failed_write = record {
  pid = 7;
  tid = 9;
  uid = 1000;
  syscall_id = 1;
  ppid = 1;
  errno = pos 9;
  ret = negsuc 8;
  time_stamp_enter = 1000000000000;
  time_stamp_exit = 1000000001300;
  cgroup_id = 4026531835;
  comm = comm;
  args = 1 ∷ 140737488347136 ∷ 8 ∷ 0 ∷ 0 ∷ 0 ∷ [];
  deref_args = 0 ∷ 77 ∷ 0 ∷ 0 ∷ 0 ∷ 0 ∷ [];
}

pub failed_write-IsEvent : IsEvent failed_write
failed_write-IsEvent = record {
  pid = omega arith;
  tid = omega arith;
  uid = omega arith;
  syscall_id = omega arith;
  ppid = omega arith;
  errno = omega arith;
  ret = omega arith;
  time_stamp_enter = omega arith;
  time_stamp_exit = omega arith;
  cgroup_id = omega arith;
  comm = refl;
  args = refl;
  args_below = omega arith;
  deref_args = refl;
  deref_args_below = omega arith;
}

read_event-event_bytes_example :
    read_event (event_bytes failed_write ++ codes "rest") ≡ ok failed_write
read_event-event_bytes_example =
    read_event-event_bytes failed_write (codes "rest") failed_write-IsEvent
