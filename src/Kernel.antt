-- ===== src/Kernel.antt =====
-- bpf/program.bpf.c: the two tracepoint handlers. What the kernel's helpers answer in a call is a
-- field of the call; the memory of the process is a function from an address to the word there, if
-- it can be read.
pub mod Reads
pub mod Invariant
pub mod Pairing
pub mod Stale
pub mod Examples
use syscap.Base.{
  ℕ, suc, ◌+◌, ◌-◌, ◌*◌, ◌/◌, ◌%◌, ◌^◌, Bool, true, false, not, ◌||◌, List, [], ◌∷◌, ◌++◌, Option,
  none, some, bit_and, if◌then◌else◌, ltb, leb, ◌==◌, nat_eq, length, get_or, lookup, insert,
  remove, ℤ, pos, negsuc, Bytes, contains, ◌&&◌,
}
use syscap.Event.{Event}
use syscap.Wire.{to_int32}

-- struct enter_state
pub record EnterState : Type 0 where
  pub pid : ℕ
  pub tid : ℕ
  pub uid : ℕ
  pub syscall_id : ℕ
  pub ppid : ℕ
  pub ts_ns_enter : ℕ
  pub cgroup_id : ℕ
  pub comm : Bytes
  pub args : List ℕ
  pub deref_args : List ℕ

-- A call of capture_sys_enter: the helpers' answers and `ctx`. `id` is the 64-bit pattern of
-- `ctx->id`, and `comm` is `none` where bpf_get_current_comm fails.
pub record EnterCall : Type 0 where
  pub pid_tgid : ℕ
  pub uid_gid : ℕ
  pub cgroup_id : ℕ
  pub now : ℕ
  pub id : ℕ
  pub ppid : ℕ
  pub comm : Option Bytes
  pub args : List ℕ
  pub user : ℕ → Option ℕ

-- A call of capture_sys_exit. `reserved` tells whether bpf_ringbuf_reserve finds room.
pub record ExitCall : Type 0 where
  pub pid_tgid : ℕ
  pub ret : ℤ
  pub now : ℕ
  pub reserved : Bool
  pub user : ℕ → Option ℕ

-- The maps: `inflight` by thread, and the events submitted to the ring buffer.
pub record Kernel : Type 0 where
  pub inflight : List (ℕ × EnterState)
  pub submitted : List Event

abbrev pub loaded : Kernel
loaded = record { inflight = []; submitted = [] }

-- `syscall_ptr_args[id] & (1U << i)`
unfoldable pub is_pointer : ℕ → ℕ → Bool
is_pointer mask i = not (bit_and mask (2 ^ i) == 0)

-- bpf_probe_read_user leaves 0 where it fails.
unfoldable pub probe : (ℕ → Option ℕ) → ℕ → ℕ
probe user address = elim (user address) [ none ↦ 0 | some w ↦ w ]

-- The loop of capture_sys_enter from argument `i` on; deref_args starts as zeros.
unfoldable pub first_reads : (ℕ → Option ℕ) → ℕ → ℕ → List ℕ → List ℕ
unfolding probe
first_reads user mask i [] = []
first_reads user mask i (arg ∷ args) =
    (if is_pointer mask i then probe user arg else 0) ∷ first_reads user mask (suc i) args

-- The loop of capture_sys_exit from argument `i` on: a zero word of a pointer is read once more.
unfoldable pub second_reads : (ℕ → Option ℕ) → ℕ → ℕ → List ℕ → List ℕ → List ℕ
unfolding probe
second_reads user mask i args [] = []
second_reads user mask i [] (w ∷ words) = w ∷ words
second_reads user mask i (arg ∷ args) (w ∷ words) =
    (if not (w == 0) then w else if is_pointer mask i then probe user arg else 0)
    ∷ second_reads user mask (suc i) args words

-- `ret < 0 ? -ret : 0` in an __s32
unfoldable pub errno_of : ℤ → ℤ
unfolding to_int32
errno_of (pos n) = pos 0
errno_of (negsuc n) = to_int32 (suc n % 2 ^ 32)

abbrev pub max_inflight : ℕ
max_inflight = 10240

-- bpf_map_update_elem with BPF_ANY: a full map takes no new key.
unfoldable pub update_inflight : ℕ → EnterState → List (ℕ × EnterState) → List (ℕ × EnterState)
update_inflight tid state inflight = elim (lookup tid inflight) [
  | some old ↦ insert tid state inflight
  | none ↦ if ltb (length inflight) max_inflight then insert tid state inflight else inflight
]

-- What is read from the cgroup_id_map, and the table syscall_ptr_args.
module _ (target_cgroup_id : ℕ) (syscall_ptr_args : List ℕ) where
  abbrev pub state_of : EnterCall → Bytes → EnterState
  state_of call comm = record {
    pid = call.pid_tgid / 2 ^ 32;
    tid = call.pid_tgid % 2 ^ 32;
    uid = call.uid_gid % 2 ^ 32;
    syscall_id = call.id % 2 ^ 32;
    ppid = call.ppid;
    ts_ns_enter = call.now;
    cgroup_id = call.cgroup_id;
    comm = comm;
    args = call.args;
    deref_args = first_reads call.user (get_or syscall_ptr_args (call.id % 2 ^ 32) 0) 0 call.args;
  }

  unfoldable pub capture_sys_enter : EnterCall → Kernel → Kernel
  unfolding first_reads update_inflight
  capture_sys_enter call k =
      if not (target_cgroup_id == call.cgroup_id) then k else elim call.comm [
        | none ↦ k
        | some comm ↦ if leb (length syscall_ptr_args) (call.id % 2 ^ 32) then k else record k {
          inflight = update_inflight (call.pid_tgid % 2 ^ 32) (state_of call comm) k.inflight;
        }
      ]

  abbrev pub event_of : ExitCall → EnterState → Event
  event_of call state = record {
    pid = state.pid;
    tid = state.tid;
    uid = state.uid;
    syscall_id = state.syscall_id;
    ppid = state.ppid;
    errno = errno_of call.ret;
    ret = call.ret;
    time_stamp_enter = state.ts_ns_enter;
    time_stamp_exit = call.now;
    cgroup_id = state.cgroup_id;
    comm = state.comm;
    args = state.args;
    deref_args =
        second_reads call.user (get_or syscall_ptr_args state.syscall_id 0) 0 state.args
          state.deref_args;
  }

  -- The test of the id stands in the loop, and is reached only at a zero word.
  unfoldable pub capture_sys_exit : ExitCall → Kernel → Kernel
  unfolding second_reads errno_of
  capture_sys_exit call k =
      if not call.reserved then k else elim (lookup (call.pid_tgid % 2 ^ 32) k.inflight) [
        | none ↦ k
        | some state ↦
            if contains 0 state.deref_args && leb (length syscall_ptr_args) state.syscall_id
            then k
            else record {
              inflight = remove (call.pid_tgid % 2 ^ 32) k.inflight;
              submitted = k.submitted ++ event_of call state ∷ [];
            }
      ]
