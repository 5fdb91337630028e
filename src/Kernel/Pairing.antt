-- ===== src/Kernel/Pairing.antt =====
-- bpf/program.bpf.c: an exit is paired with the enter of its own thread.
use syscap.Base.{
  ℕ, ◌%◌, ◌^◌, ◌<◌, ◌++◌, ◌∷◌, [], List, true, false, ◌&&◌, ◌==◌, nat_eq, eqb_iff, ==_refl, some,
  ltb, leb, contains, ◌≡◌, refl, ap, ◌∙◌, inl, inr, arith, Bool-cases, Option-cases, length, lookup,
  lookup-insert, lookup-remove, remove, Bytes,
}
use syscap.Kernel.Invariant.{and_false}
use syscap.Kernel.{
  EnterState, EnterCall, ExitCall, Kernel, update_inflight, state_of, capture_sys_enter, event_of,
  capture_sys_exit, max_inflight,
}

lookup-update_inflight :
    (tid other : ℕ) (state : EnterState) (inflight : List (ℕ × EnterState))
    → (other == tid) ≡ false
    → lookup tid (update_inflight other state inflight) ≡ lookup tid inflight
unfolding update_inflight
lookup-update_inflight tid other state inflight apart =
    let skipped = lookup-insert other tid state inflight ∙ rw apart in
    elim (Option-cases (lookup other inflight)) [
      | inr (old, known) ↦ rw (known, update_inflight) skipped
      | inl missing ↦ elim (Bool-cases (ltb (length inflight) max_inflight)) [
        | inl room ↦ rw (missing, update_inflight) (rw room skipped)
        | inr full ↦ rw (missing, update_inflight) (rw full)
      ]
    ]

lookup-update_inflight_self :
    (tid : ℕ) (state : EnterState) (inflight : List (ℕ × EnterState))
    → length inflight < max_inflight
    → lookup tid (update_inflight tid state inflight) ≡ some state
unfolding update_inflight
lookup-update_inflight_self tid state inflight room =
    let kept = lookup-insert tid tid state inflight ∙ rw (==_refl tid) in
    elim (Option-cases (lookup tid inflight)) [
      | inr (old, known) ↦ rw (known, update_inflight) kept
      | inl missing ↦ rw (missing, update_inflight) (rw (has_room (length inflight) room) kept)
    ]
  where
    has_room : (n : ℕ) → n < max_inflight → ltb n max_inflight ≡ true
    has_room n h = ground arith

module _ (target_cgroup_id : ℕ) (syscall_ptr_args : List ℕ) where
  -- Calls in other threads.
  pub data Elsewhere (tid : ℕ) (k : Kernel) : Kernel → Type 0 where
    here : Elsewhere tid k k
    enter :
        {l : Kernel}
        → Elsewhere tid k l
        → (call : EnterCall) → (call.pid_tgid % 2 ^ 32 == tid) ≡ false
        → Elsewhere tid k (capture_sys_enter target_cgroup_id syscall_ptr_args call l)
    exit :
        {l : Kernel}
        → Elsewhere tid k l
        → (call : ExitCall) → (call.pid_tgid % 2 ^ 32 == tid) ≡ false
        → Elsewhere tid k (capture_sys_exit target_cgroup_id syscall_ptr_args call l)

  lookup-enter :
      (tid : ℕ) (call : EnterCall) (k : Kernel)
      → (call.pid_tgid % 2 ^ 32 == tid) ≡ false
      → lookup tid (capture_sys_enter target_cgroup_id syscall_ptr_args call k).inflight
        ≡ lookup tid k.inflight
  unfolding capture_sys_enter
  lookup-enter tid call k apart = elim (Bool-cases (target_cgroup_id == call.cgroup_id)) [
    | inr other ↦ rw other
    | inl own ↦ elim (Option-cases call.comm) [
      | inl nameless ↦ rw own (rw (nameless, capture_sys_enter))
      | inr (comm, named) ↦ elim (Bool-cases (leb (length syscall_ptr_args) (call.id % 2 ^ 32))) [
        | inl unknown ↦ rw own (rw (named, capture_sys_enter) (rw unknown))
        | inr known ↦ rw own (
            rw (named, capture_sys_enter)
              (rw known (lookup-update_inflight tid _ _ k.inflight apart)))
      ]
    ]
  ]

  lookup-exit :
      (tid : ℕ) (call : ExitCall) (k : Kernel)
      → (call.pid_tgid % 2 ^ 32 == tid) ≡ false
      → lookup tid (capture_sys_exit target_cgroup_id syscall_ptr_args call k).inflight
        ≡ lookup tid k.inflight
  unfolding capture_sys_exit
  lookup-exit tid call k apart = elim (Bool-cases call.reserved) [
    | inr refused ↦ rw refused
    | inl reserved ↦ elim (Option-cases (lookup (call.pid_tgid % 2 ^ 32) k.inflight)) [
      | inl missing ↦ rw reserved (rw (missing, capture_sys_exit))
      | inr (state, found) ↦
          elim (Bool-cases
            (contains 0 state.deref_args && leb (length syscall_ptr_args) state.syscall_id)) [
              | inl unknown ↦ rw reserved (rw (found, capture_sys_exit) (rw unknown))
              | inr known ↦ rw reserved (
                  rw (found, capture_sys_exit)
                    (rw known (lookup-remove (call.pid_tgid % 2 ^ 32) tid k.inflight ∙ rw apart)))
            ]
    ]
  ]

  lookup-Elsewhere :
      {tid : ℕ} {k l : Kernel} → Elsewhere tid k l → lookup tid l.inflight ≡ lookup tid k.inflight
  lookup-Elsewhere here = refl
  lookup-Elsewhere {tid} (enter {l} before call apart) =
      lookup-enter tid call l apart ∙ lookup-Elsewhere before
  lookup-Elsewhere {tid} (exit {l} before call apart) =
      lookup-exit tid call l apart ∙ lookup-Elsewhere before

  pub lookup-enter_own :
      (call : EnterCall) (k : Kernel) {comm : Bytes}
      → target_cgroup_id ≡ call.cgroup_id
      → call.comm ≡ some comm
      → leb (length syscall_ptr_args) (call.id % 2 ^ 32) ≡ false
      → length k.inflight < max_inflight
      → lookup
          (call.pid_tgid % 2 ^ 32)
          (capture_sys_enter target_cgroup_id syscall_ptr_args call k).inflight
        ≡ some (state_of target_cgroup_id syscall_ptr_args call comm)
  unfolding capture_sys_enter
  lookup-enter_own call k own named known room =
      rw ((eqb_iff target_cgroup_id call.cgroup_id).1 own)
        (rw (named, capture_sys_enter) (rw known (lookup-update_inflight_self _ _ k.inflight room)))

  pub exit_found :
      (call : ExitCall) (l : Kernel) {state : EnterState}
      → call.reserved ≡ true
      → lookup (call.pid_tgid % 2 ^ 32) l.inflight ≡ some state
      → leb (length syscall_ptr_args) state.syscall_id ≡ false
      → capture_sys_exit target_cgroup_id syscall_ptr_args call l ≡ record {
        inflight = remove (call.pid_tgid % 2 ^ 32) l.inflight;
        submitted = l.submitted ++ event_of target_cgroup_id syscall_ptr_args call state ∷ [];
      }
  unfolding capture_sys_exit
  exit_found call l {state} reserved found known =
      rw reserved
        (rw (found, capture_sys_exit) (rw (and_false (contains 0 state.deref_args) known)))

  -- A thread of the target container enters a syscall that the table of pointer masks has, while
  -- the map of threads has room. After any calls in other threads, the exit of this thread, if the
  -- ring buffer has room, submits one event: it has the numbers of the enter, the arguments of the
  -- enter, and the return value and the time of the exit; and the thread leaves the map.
  pub capture_sys_exit-enter :
      (call : EnterCall) (k : Kernel) {l : Kernel} (ended : ExitCall) {comm : Bytes}
      → target_cgroup_id ≡ call.cgroup_id
      → call.comm ≡ some comm
      → leb (length syscall_ptr_args) (call.id % 2 ^ 32) ≡ false
      → length k.inflight < max_inflight
      → Elsewhere
          (call.pid_tgid % 2 ^ 32)
          (capture_sys_enter target_cgroup_id syscall_ptr_args call k)
          l
      → ended.pid_tgid % 2 ^ 32 ≡ call.pid_tgid % 2 ^ 32
      → ended.reserved ≡ true
      → capture_sys_exit target_cgroup_id syscall_ptr_args ended l ≡ record {
        inflight = remove (call.pid_tgid % 2 ^ 32) l.inflight;
        submitted =
            l.submitted
            ++ event_of target_cgroup_id syscall_ptr_args ended
                (state_of target_cgroup_id syscall_ptr_args call comm)
              ∷ [];
      }
  capture_sys_exit-enter call k {l} ended {comm} own named known room others same reserved =
      let found = lookup-Elsewhere others ∙ lookup-enter_own call k own named known room in
      exit_found ended l reserved (ap (λ t. lookup t l.inflight) same ∙ found) known
      ∙ ap
          (λ t. record {
            inflight = remove t l.inflight;
            submitted =
                l.submitted
                ++ event_of target_cgroup_id syscall_ptr_args ended
                    (state_of target_cgroup_id syscall_ptr_args call comm)
                  ∷ [];
          })
          same
