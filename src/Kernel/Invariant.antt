-- ===== src/Kernel/Invariant.antt =====
-- bpf/program.bpf.c: what holds of the maps after any calls of the two handlers.
use syscap.Base.{
  ℕ, ◌%◌, ◌^◌, ◌<◌, Bool, true, false, ◌&&◌, List, some, ◌≡◌, refl, sym, ◌∙◌, eqb_iff, inl, inr,
  arith, Bool-cases, Option-cases, ltb, leb, ◌==◌, nat_eq, length, get_or, All, All-append,
  All-insert, All-remove, All-lookup, lookup, Bytes, contains,
}
use syscap.Event.{Event}
use syscap.Kernel.Reads.{
  IsWord, IsMemory, Masked, first_reads-Masked, second_reads-Masked, errno_of-IsInt,
}
use syscap.Kernel.{
  EnterState, EnterCall, ExitCall, Kernel, loaded, update_inflight, state_of, capture_sys_enter,
  event_of, capture_sys_exit, max_inflight,
}
use syscap.Wire.RoundTrip.{IsEvent, IsInt}

-- The types of what the helpers and `ctx` give.
pub record IsEnterCall (call : EnterCall) : Type 0 where
  pub pid_tgid : IsWord call.pid_tgid
  pub cgroup_id : IsWord call.cgroup_id
  pub now : IsWord call.now
  pub ppid : call.ppid < 256 ^ 4
  pub comm : (comm : Bytes) → call.comm ≡ some comm → length comm ≡ 16
  pub args : length call.args ≡ 6
  pub args_below : All IsWord call.args
  pub user : IsMemory call.user

pub record IsExitCall (call : ExitCall) : Type 0 where
  pub ret : IsInt (2 ^ 63) call.ret
  pub now : IsWord call.now
  pub user : IsMemory call.user

pub and_false : (b : Bool) {c : Bool} → c ≡ false → (b && c) ≡ false
and_false true h = h
and_false false h = refl

module _ (target_cgroup_id : ℕ) (syscall_ptr_args : List ℕ) where
  -- An entry of `inflight` stands under its own thread and comes from the target container.
  record IsInflight (entry : ℕ × EnterState) : Type 0 where
    tid : entry.1.tid ≡ entry.0
    pid_below : entry.1.pid < 256 ^ 4
    tid_below : entry.1.tid < 256 ^ 4
    uid_below : entry.1.uid < 256 ^ 4
    syscall_id_below : entry.1.syscall_id < 256 ^ 4
    ppid_below : entry.1.ppid < 256 ^ 4
    ts_ns_enter_below : IsWord entry.1.ts_ns_enter
    cgroup_id_below : IsWord entry.1.cgroup_id
    cgroup_id : entry.1.cgroup_id ≡ target_cgroup_id
    known : leb (length syscall_ptr_args) entry.1.syscall_id ≡ false
    comm : length entry.1.comm ≡ 16
    args : length entry.1.args ≡ 6
    args_below : All IsWord entry.1.args
    deref_args : length entry.1.deref_args ≡ 6
    deref_args_below : All IsWord entry.1.deref_args
    masked : Masked (get_or syscall_ptr_args entry.1.syscall_id 0) 0 entry.1.deref_args

  -- An event that the kernel side sends.
  pub record IsSent (e : Event) : Type 0 where
    pub event : IsEvent e
    pub cgroup_id : e.cgroup_id ≡ target_cgroup_id
    pub known : leb (length syscall_ptr_args) e.syscall_id ≡ false
    pub masked : Masked (get_or syscall_ptr_args e.syscall_id 0) 0 e.deref_args

  pub record IsKernel (k : Kernel) : Type 0 where
    inflight : All IsInflight k.inflight
    pub submitted : All IsSent k.submitted

  update_inflight-All :
      (tid : ℕ) (state : EnterState) (inflight : List (ℕ × EnterState))
      → IsInflight (tid, state)
      → All IsInflight inflight
      → All IsInflight (update_inflight tid state inflight)
  unfolding update_inflight
  update_inflight-All tid state inflight new h = elim (Option-cases (lookup tid inflight)) [
    | inr (old, known) ↦
        rw (known, update_inflight) (All-insert IsInflight tid state inflight new h)
    | inl missing ↦ elim (Bool-cases (ltb (length inflight) max_inflight)) [
      | inl room ↦
          rw (missing, update_inflight) (rw room (All-insert IsInflight tid state inflight new h))
      | inr full ↦ rw (missing, update_inflight) (rw full h)
    ]
  ]

  state_of-IsInflight :
      (call : EnterCall) (comm : Bytes)
      → IsEnterCall call
      → call.comm ≡ some comm
      → target_cgroup_id ≡ call.cgroup_id
      → leb (length syscall_ptr_args) (call.id % 2 ^ 32) ≡ false
      → IsInflight (call.pid_tgid % 2 ^ 32, state_of target_cgroup_id syscall_ptr_args call comm)
  state_of-IsInflight call comm c named own known =
      let (same, below, masked) =
        first_reads-Masked call.user (get_or syscall_ptr_args (call.id % 2 ^ 32) 0) c.user 0
          call.args in
      record {
        tid = refl;
        pid_below = omega (arith, c.pid_tgid);
        tid_below = omega arith;
        uid_below = omega arith;
        syscall_id_below = omega arith;
        ppid_below = c.ppid;
        ts_ns_enter_below = c.now;
        cgroup_id_below = c.cgroup_id;
        cgroup_id = sym own;
        known = known;
        comm = c.comm comm named;
        args = c.args;
        args_below = c.args_below;
        deref_args = same ∙ c.args;
        deref_args_below = below;
        masked = masked;
      }

  capture_sys_enter-IsKernel :
      (call : EnterCall) (k : Kernel)
      → IsEnterCall call
      → IsKernel k
      → IsKernel (capture_sys_enter target_cgroup_id syscall_ptr_args call k)
  unfolding capture_sys_enter
  capture_sys_enter-IsKernel call k c h = elim (Bool-cases (target_cgroup_id == call.cgroup_id)) [
    | inr other ↦ rw other h
    | inl own ↦ elim (Option-cases call.comm) [
      | inl nameless ↦ rw own (rw (nameless, capture_sys_enter) h)
      | inr (comm, named) ↦ elim (Bool-cases (leb (length syscall_ptr_args) (call.id % 2 ^ 32))) [
        | inl unknown ↦ rw own (rw (named, capture_sys_enter) (rw unknown h))
        | inr known ↦ rw own (
            rw (named, capture_sys_enter)
              (rw known (record {
                inflight =
                    update_inflight-All _ _ k.inflight
                      (state_of-IsInflight call comm c named ((eqb_iff _ _).0 own) known)
                      h.inflight;
                submitted = h.submitted;
              })))
      ]
    ]
  ]

  event_of-IsSent :
      (call : ExitCall) (tid : ℕ) (state : EnterState)
      → IsExitCall call
      → IsInflight (tid, state)
      → IsSent (event_of target_cgroup_id syscall_ptr_args call state)
  event_of-IsSent call tid state c s =
      let (same, below, masked) =
        second_reads-Masked call.user (get_or syscall_ptr_args state.syscall_id 0) c.user 0
          state.args state.deref_args s.deref_args_below s.masked in
      record {
        event = record {
          pid = s.pid_below;
          tid = s.tid_below;
          uid = s.uid_below;
          syscall_id = s.syscall_id_below;
          ppid = s.ppid_below;
          errno = errno_of-IsInt call.ret;
          ret = c.ret;
          time_stamp_enter = s.ts_ns_enter_below;
          time_stamp_exit = c.now;
          cgroup_id = s.cgroup_id_below;
          comm = s.comm;
          args = s.args;
          args_below = s.args_below;
          deref_args = same ∙ s.deref_args;
          deref_args_below = below;
        };
        cgroup_id = s.cgroup_id;
        known = s.known;
        masked = masked;
      }

  capture_sys_exit-IsKernel :
      (call : ExitCall) (k : Kernel)
      → IsExitCall call
      → IsKernel k
      → IsKernel (capture_sys_exit target_cgroup_id syscall_ptr_args call k)
  unfolding capture_sys_exit
  capture_sys_exit-IsKernel call k c h = elim (Bool-cases call.reserved) [
    | inr refused ↦ rw refused h
    | inl reserved ↦ elim (Option-cases (lookup (call.pid_tgid % 2 ^ 32) k.inflight)) [
      | inl missing ↦ rw reserved (rw (missing, capture_sys_exit) h)
      | inr (state, found) ↦
          let s = All-lookup IsInflight k.inflight (call.pid_tgid % 2 ^ 32) h.inflight found in
          rw reserved (
            rw (found, capture_sys_exit)
              (rw (and_false (contains 0 state.deref_args) s.known) (record {
                inflight = All-remove IsInflight (call.pid_tgid % 2 ^ 32) k.inflight h.inflight;
                submitted =
                    All-append IsSent k.submitted _ h.submitted
                      (event_of-IsSent call _ state c s, tt);
              })))
    ]
  ]

  -- The handlers run in any order, as threads enter and leave syscalls.
  pub data Step (k : Kernel) : Kernel → Type 0 where
    enter :
        (call : EnterCall)
        → IsEnterCall call
        → Step k (capture_sys_enter target_cgroup_id syscall_ptr_args call k)
    exit :
        (call : ExitCall)
        → IsExitCall call
        → Step k (capture_sys_exit target_cgroup_id syscall_ptr_args call k)

  pub data Reach : Kernel → Type 0 where
    here : Reach loaded
    next : {k l : Kernel} → Reach k → Step k l → Reach l

  Step-IsKernel : {k l : Kernel} → Step k l → IsKernel k → IsKernel l
  Step-IsKernel {k} (enter call c) h = capture_sys_enter-IsKernel call k c h
  Step-IsKernel {k} (exit call c) h = capture_sys_exit-IsKernel call k c h

  Reach-IsKernel : {k : Kernel} → Reach k → IsKernel k
  Reach-IsKernel here = record { inflight = tt; submitted = tt }
  Reach-IsKernel (next r s) = Step-IsKernel s (Reach-IsKernel r)

  -- After any calls of the two handlers, by threads in any order, every event in the ring buffer
  -- fits the Event of the Go side (with six arguments, a name of 16 bytes and all numbers in their
  -- ranges), belongs to the target container, has an id inside the table of pointer masks, and has
  -- read a word only for arguments that the table marks as pointers.
  pub Reach-IsSent : {k : Kernel} → Reach k → All IsSent k.submitted
  Reach-IsSent r = (Reach-IsKernel r).submitted
