-- ===== src/Kernel/Stale.antt =====
-- bpf/program.bpf.c: the state of a thread that an exit with no room in the ring buffer leaves behind.
use syscap.Base.{
  ℕ, ◌%◌, ◌^◌, ◌<◌, ◌++◌, ◌∷◌, [], List, true, false, ◌==◌, nat_eq, some, leb, length, lookup,
  Bytes, ◌≡◌, ap, ◌∙◌, inl, inr, Bool-cases, Option-cases,
}
use syscap.Kernel.Pairing.{lookup-enter_own, exit_found}
use syscap.Kernel.{
  EnterCall, ExitCall, Kernel, state_of, capture_sys_enter, event_of, capture_sys_exit,
  max_inflight,
}

module _ (target_cgroup_id : ℕ) (syscall_ptr_args : List ℕ) where
  -- An enter of a syscall that the table does not have leaves the maps alone.
  enter_unknown :
      (call : EnterCall) (k : Kernel)
      → leb (length syscall_ptr_args) (call.id % 2 ^ 32) ≡ true
      → capture_sys_enter target_cgroup_id syscall_ptr_args call k ≡ k
  unfolding capture_sys_enter
  enter_unknown call k unknown = elim (Bool-cases (target_cgroup_id == call.cgroup_id)) [
    | inr other ↦ rw other
    | inl own ↦ elim (Option-cases call.comm) [
      | inl nameless ↦ rw own (rw (nameless, capture_sys_enter))
      | inr (comm, named) ↦ rw own (rw (named, capture_sys_enter) (rw unknown))
    ]
  ]

  exit_refused :
      (call : ExitCall) (k : Kernel)
      → call.reserved ≡ false
      → capture_sys_exit target_cgroup_id syscall_ptr_args call k ≡ k
  unfolding capture_sys_exit
  exit_refused call k refused = rw refused

  -- A thread of the target container enters a syscall that the table has, and its exit finds no room
  -- in the ring buffer. If the thread then enters one that the table does not have, the exit of this
  -- one submits an event with the id, the arguments and the time of the first enter.
  pub capture_sys_exit_stale :
      (call : EnterCall) (dropped : ExitCall) (unknown : EnterCall) (ended : ExitCall) (k : Kernel)
      {comm : Bytes}
      → target_cgroup_id ≡ call.cgroup_id
      → call.comm ≡ some comm
      → leb (length syscall_ptr_args) (call.id % 2 ^ 32) ≡ false
      → length k.inflight < max_inflight
      → dropped.reserved ≡ false
      → leb (length syscall_ptr_args) (unknown.id % 2 ^ 32) ≡ true
      → ended.pid_tgid % 2 ^ 32 ≡ call.pid_tgid % 2 ^ 32
      → ended.reserved ≡ true
      → (capture_sys_exit target_cgroup_id syscall_ptr_args ended (
          capture_sys_enter target_cgroup_id syscall_ptr_args unknown (
            capture_sys_exit target_cgroup_id syscall_ptr_args dropped
              (capture_sys_enter target_cgroup_id syscall_ptr_args call k)))).submitted
        ≡ (capture_sys_enter target_cgroup_id syscall_ptr_args call k).submitted
          ++ event_of target_cgroup_id syscall_ptr_args ended
              (state_of target_cgroup_id syscall_ptr_args call comm)
            ∷ []
  capture_sys_exit_stale call dropped unknown ended k own named known room refused outside same
        reserved =
      let entered = capture_sys_enter target_cgroup_id syscall_ptr_args call k in
      let kept : capture_sys_enter target_cgroup_id syscall_ptr_args unknown
            (capture_sys_exit target_cgroup_id syscall_ptr_args dropped entered)
          ≡ entered =
        enter_unknown unknown _ outside ∙ exit_refused dropped entered refused in
      ap (λ l. (capture_sys_exit target_cgroup_id syscall_ptr_args ended l).submitted) kept
      ∙ ap (λ (l : Kernel). l.submitted)
          (exit_found target_cgroup_id syscall_ptr_args ended entered reserved
            (ap (λ t. lookup t entered.inflight) same
              ∙ lookup-enter_own target_cgroup_id syscall_ptr_args call k own named known room)
            known)
