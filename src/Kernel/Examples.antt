-- ===== src/Kernel/Examples.antt =====
-- bpf/program.bpf.c: a call of write in one thread, with a call in another thread before its exit.
use syscap.Base.{
  ℕ, ◌+◌, ◌*◌, ◌^◌, true, false, List, [], ◌∷◌, ◌++◌, Option, none, some, if◌then◌else◌, eqb,
  nat_eq, ◌≡◌, refl, inl, inr, arith, Bool-cases, some_inj, subst, All, Bytes, codes, length,
  negsuc, remove,
}
use syscap.Kernel.Stale.{capture_sys_exit_stale}
use syscap.Kernel.Reads.{IsMemory}
use syscap.Kernel.Invariant.{IsEnterCall, IsExitCall, IsSent, here, next, enter, exit, Reach-IsSent}
use syscap.Kernel.Pairing.{Elsewhere, capture_sys_exit-enter}
use syscap.Kernel.{
  EnterCall, ExitCall, Kernel, loaded, is_pointer, probe, capture_sys_enter, capture_sys_exit,
  state_of, event_of,
}

-- One word can be read.
abbrev pub memory : ℕ → Option ℕ
memory address = if eqb address 4096 then some 77 else none

memory-IsMemory : IsMemory memory
unfolding probe
memory-IsMemory address = elim (Bool-cases (eqb address 4096)) [
  | inl there ↦ rw (there, probe) (omega arith)
  | inr absent ↦ rw (absent, probe) (omega arith)
]

abbrev pub name : Bytes
name = codes "sh" ++ (0 ∷ 0 ∷ 0 ∷ 0 ∷ 0 ∷ 0 ∷ 0 ∷ 0 ∷ 0 ∷ 0 ∷ 0 ∷ 0 ∷ 0 ∷ 0 ∷ [])

abbrev pub entered : ℕ → ℕ → EnterCall
entered id tid = record {
  pid_tgid = 7 * 2 ^ 32 + tid;
  uid_gid = 0;
  cgroup_id = 5;
  now = 100;
  id = id;
  ppid = 1;
  comm = some name;
  args = 1 ∷ 4096 ∷ 8 ∷ 0 ∷ 0 ∷ 0 ∷ [];
  user = memory;
}

abbrev pub left : ℕ → ExitCall
left tid = record {
  pid_tgid = 7 * 2 ^ 32 + tid;
  ret = negsuc 8;
  now = 130;
  reserved = true;
  user = memory;
}

-- The masks of two syscalls: the second one's second argument is a pointer.
abbrev two_masks : List ℕ
two_masks = 0 ∷ 2 ∷ []

name_of : (comm : Bytes) → some name ≡ some comm → length comm ≡ 16
name_of comm h = subst (λ c. length c ≡ 16) (some_inj h) refl

pub entered-IsEnterCall : (id : ℕ) → IsEnterCall (entered id 9)
entered-IsEnterCall id = record {
  pid_tgid = omega arith;
  cgroup_id = omega arith;
  now = omega arith;
  ppid = omega arith;
  comm = name_of;
  args = refl;
  args_below = omega arith;
  user = memory-IsMemory;
}

pub left-IsExitCall : IsExitCall (left 9)
left-IsExitCall = record { ret = omega arith; now = omega arith; user = memory-IsMemory }

abbrev after : Kernel
after = capture_sys_exit 5 two_masks (left 9) (capture_sys_enter 5 two_masks (entered 1 9) loaded)

Reach-IsSent_example : All (IsSent 5 two_masks) after.submitted
Reach-IsSent_example =
    Reach-IsSent 5 two_masks (
      next (next here (enter (entered 1 9) (entered-IsEnterCall 1)))
        (exit (left 9) left-IsExitCall))

abbrev between : Kernel
between =
    capture_sys_enter 5 two_masks (entered 1 10)
      (capture_sys_enter 5 two_masks (entered 1 9) loaded)

capture_sys_exit-enter_example : capture_sys_exit 5 two_masks (left 9) between ≡ record {
  inflight = remove 9 between.inflight;
  submitted =
      between.submitted
      ++ event_of 5 two_masks (left 9) (state_of 5 two_masks (entered 1 9) name) ∷ [];
}
capture_sys_exit-enter_example =
    capture_sys_exit-enter 5 two_masks (entered 1 9) loaded (left 9) refl refl refl (omega arith)
      (Elsewhere.enter Elsewhere.here (entered 1 10) refl) refl refl

-- The exit finds the word, and takes the thread out.
after_events : length after.submitted ≡ 1
unfolding capture_sys_enter capture_sys_exit is_pointer
after_events = refl

-- An exit that finds no room.
abbrev refused : ExitCall
refused = record (left 9) { reserved = false }

capture_sys_exit_stale_example :
    (capture_sys_exit 5 two_masks (left 9) (
      capture_sys_enter 5 two_masks (entered 2 9) (
        capture_sys_exit 5 two_masks refused
          (capture_sys_enter 5 two_masks (entered 1 9) loaded)))).submitted
    ≡ (capture_sys_enter 5 two_masks (entered 1 9) loaded).submitted
      ++ event_of 5 two_masks (left 9) (state_of 5 two_masks (entered 1 9) name) ∷ []
capture_sys_exit_stale_example =
    capture_sys_exit_stale 5 two_masks (entered 1 9) refused (entered 2 9) (left 9) loaded refl refl
      refl (omega arith) refl refl refl refl
