-- ===== src/Startup/Run.antt =====
-- main.go: `run` around its read loop: the statements that set it up, in their order, what they
-- defer, and the reader that the shutdown goroutine closes. Whether a call of the kernel, of
-- cilium/ebpf or of os succeeds is an answer.
pub mod Laws
pub mod Order
use syscap.Base.Result.{Result, ok, err}
use syscap.Base.{ℕ, Bool, true, false, List, [], ◌∷◌, ◌++◌, map, Bytes, if◌then◌else◌}
use syscap.PtrArgs.Masks.{fill_ptr_args}
use syscap.Startup.Container.{Outside, ContainerError, resolve_cgroup_id}
use syscap.Startup.Flags.{Config, ArgsError, parse_args}

-- obj, tpEnter, tpExit, the signal context, the timeout context, rd and recordFile.
pub data Resource : Type 0 where
  objects enter_point exit_point signals timeout reader record_file : Resource

-- A release is a Close, stop or cancel.
pub data Call : Type 0 where
  remove_memlock load_program assign_specs start_shutdown : Call
  set_ptr_args : List ℕ → Call
  update_cgroup_id : ℕ → Call
  acquire release : Resource → Call

pub data RunError : Type 0 where
  bad_args : ArgsError → RunError
  no_cgroup_id : ContainerError → RunError
  failed : Call → RunError
  failed_to_read failed_to_decode : RunError

-- A call whose error is returned, a call without an error, and a deferred release.
pub data Statement : Type 0 where
  attempt plainly : Call → Statement
  defer : Resource → Statement

-- How the read loop ends: with ErrClosed, which a reader gives that is closed, and the goroutine is
-- what closes it; or with an error, when the goroutine has closed the reader or has not.
pub data LoopEnd : Type 0 where
  reader_closed : LoopEnd
  loop_failed : RunError → Bool → LoopEnd

-- The calls made, in order, and what `run` returns.
abbrev pub Run : Type 0
Run = List Call × Result RunError (Unit {0})

-- What the goroutine releases before the deferred releases. Behind an error of the loop it may close
-- the reader beside them, too; that call is in no list.
unfoldable pub by_shutdown : LoopEnd → List Call
by_shutdown reader_closed = release reader ∷ []
by_shutdown (loop_failed e closed) = if closed then release reader ∷ [] else []

unfoldable pub loop_result : LoopEnd → Result RunError (Unit {0})
loop_result reader_closed = ok tt
loop_result (loop_failed e closed) = err e

-- The calls behind the parsing and the lookup, from the target's cgroup id.
abbrev pub statements : ℕ → List Statement
statements cgroup_id =
    attempt remove_memlock
    ∷ (attempt load_program
        ∷ (attempt assign_specs
            ∷ (attempt (set_ptr_args fill_ptr_args)
                ∷ (attempt (acquire objects)
                    ∷ (defer objects
                        ∷ (attempt (update_cgroup_id cgroup_id)
                            ∷ (attempt (acquire enter_point)
                                ∷ (defer enter_point
                                    ∷ (attempt (acquire exit_point)
                                        ∷ (defer exit_point
                                            ∷ (plainly (acquire signals)
                                                ∷ (defer signals
                                                    ∷ (plainly (acquire timeout)
                                                        ∷ (defer timeout
                                                            ∷ (attempt (acquire reader)
                                                            ∷ (defer reader
                                                            ∷ (attempt (acquire record_file)
                                                            ∷ (defer record_file
                                                            ∷ (plainly start_shutdown
                                                            ∷ [])))))))))))))))))))

module _ (answers : Call → Bool) (loop : LoopEnd) where
  -- The statements, with the releases that are deferred so far, the last one first; a return runs
  -- these.
  unfoldable pub execute : List Resource → List Statement → Run
  unfolding by_shutdown loop_result
  execute deferred [] = (by_shutdown loop ++ map release deferred, loop_result loop)
  execute deferred (defer r ∷ more) = execute (r ∷ deferred) more
  execute deferred (plainly call ∷ more) =
      let (calls, result) = execute deferred more in (call ∷ calls, result)
  execute deferred (attempt call ∷ more) =
      let (calls, result) = execute deferred more in
      if answers call then (call ∷ calls, result) else (map release deferred, err (failed call))

  unfoldable pub run : Outside → List Bytes → Run
  unfolding execute
  run outside args = elim (parse_args args) [
    | err e ↦ ([], err (bad_args e))
    | ok cfg ↦ elim (resolve_cgroup_id outside cfg.container_id) [
      | err e ↦ ([], err (no_cgroup_id e))
      | ok cgroup_id ↦ execute [] (statements cgroup_id)
    ]
  ]
