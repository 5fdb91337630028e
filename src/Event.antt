-- ===== src/Event.antt =====
-- ebpf.go: the event that the kernel side sends. The integers are unsigned words of 32 bits (pid,
-- tid, uid, syscall_id, ppid) or 64 bits; comm holds 16 bytes, args and deref_args six words each.
use syscap.Base.{ℕ, List, ℤ, Bytes, sub_u64, to_int64}

pub record Event : Type 0 where
  pub pid : ℕ
  pub tid : ℕ
  pub uid : ℕ
  pub syscall_id : ℕ
  pub ppid : ℕ
  pub errno : ℤ
  pub ret : ℤ
  pub time_stamp_enter : ℕ
  pub time_stamp_exit : ℕ
  pub cgroup_id : ℕ
  pub comm : Bytes
  pub args : List ℕ
  pub deref_args : List ℕ

-- `time.Duration(event.TimeStampExit - event.TimeStampEnter)`
unfoldable pub duration : Event → ℤ
unfolding sub_u64 to_int64
duration e = to_int64 (sub_u64 e.time_stamp_exit e.time_stamp_enter)
