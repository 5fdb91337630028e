-- ===== src/Pipeline/Examples.antt =====
-- A call of setitimer, from the handlers of the kernel side to the read loop.
use syscap.Base.{
  List, [], ◌∷◌, ◌++◌, map, some, ◌≡◌, refl, Bytes, codes, All, contains, true, nat_eq,
}
use syscap.Event.{Event}
use syscap.Kernel.Examples.{entered, left, entered-IsEnterCall, left-IsExitCall}
use syscap.Kernel.Invariant.{Reach, here, next, enter, exit}
use syscap.Kernel.{Kernel, loaded, capture_sys_enter, capture_sys_exit}
use syscap.Monitor.Loop.{Monitor, started, handle_events}
use syscap.Pipeline.{run_loop-Reach, Reach-lost_syscalls}
use syscap.PtrArgs.Lost.{lost_syscalls}
use syscap.PtrArgs.Masks.{fill_ptr_args}
use syscap.Reader.{sample, closed, returned_nil, run_loop}
use syscap.Wire.{event_bytes}

abbrev ended : Kernel
ended =
    capture_sys_exit 5 fill_ptr_args (left 9)
      (capture_sys_enter 5 fill_ptr_args (entered 38 9) loaded)

ended-Reach : Reach 5 fill_ptr_args ended
ended-Reach =
    next (next here (enter (entered 38 9) (entered-IsEnterCall 38))) (exit (left 9) left-IsExitCall)

-- Every event with a padding behind it.
abbrev padded : List Event → List (Event × Bytes)
padded [] = []
padded (e ∷ events) = (e, codes "padding") ∷ padded events

padded_lem : (events : List Event) → map (λ (e, rest). e) (padded events) ≡ events
padded_lem [] = refl
padded_lem (e ∷ events) = λ i. e ∷ padded_lem events i

abbrev first_bytes : Bytes → Bytes
first_bytes s = s

run_loop-Reach_example :
    (m : Monitor) × (handle_events first_bytes [] ended.submitted started ≡ some m)
    × (run_loop first_bytes []
          (map (λ (e, rest). sample (event_bytes e ++ rest)) (padded ended.submitted)
            ++ (closed ∷ []))
          started
        ≡ returned_nil m)
run_loop-Reach_example =
    run_loop-Reach first_bytes [] 5 (padded ended.submitted) ended-Reach
      (padded_lem ended.submitted)

Reach-lost_syscalls_example :
    All
      (λ (e : Event). contains e.syscall_id lost_syscalls ≡ true → All (λ w. w ≡ 0) e.deref_args)
      ended.submitted
Reach-lost_syscalls_example = Reach-lost_syscalls 5 ended-Reach
