-- ===== src/Reader/Examples.antt =====
-- main.go: a run of the read loop over the bytes of two events, a short sample and a closed reader.
use syscap.Base.{List, [], ◌∷◌, ◌++◌, map, some, if◌then◌else◌, eqb, ◌≡◌, ◌≢◌, refl, Bytes, codes}
use syscap.Event.{Event}
use syscap.Monitor.Loop.{Monitor, started, handle_events}
use syscap.Monitor.Total.{handle_events_total}
use syscap.Reader.Laws.{run_loop-ne-panicked, run_loop-handle_events}
use syscap.Reader.{sample, closed, panicked, run_loop}
use syscap.Wire.Examples.{failed_write, failed_write-IsEvent}
use syscap.Wire.{event_bytes}

-- unix.ByteSliceToString: the bytes up to the first zero.
unfoldable until_zero : Bytes → Bytes
until_zero [] = []
until_zero (c ∷ cs) = let rest = until_zero cs in if eqb c 0 then [] else c ∷ rest

run_loop-ne-panicked_example :
    run_loop until_zero
      (codes "write")
      (sample (event_bytes failed_write) ∷ (sample (codes "short") ∷ (closed ∷ [])))
      started
    ≢ panicked
run_loop-ne-panicked_example =
    run_loop-ne-panicked until_zero (codes "write")
      (sample (event_bytes failed_write) ∷ (sample (codes "short") ∷ (closed ∷ []))) started

abbrev two_events : List (Event × Bytes)
two_events = (failed_write, codes "padding") ∷ ((failed_write, []) ∷ [])

two_events_run :
    (m : Monitor) × (handle_events until_zero
        (codes "write")
        (failed_write ∷ (failed_write ∷ []))
        started
      ≡ some m)
two_events_run =
    handle_events_total until_zero (codes "write") (failed_write ∷ (failed_write ∷ [])) started
      (record { args = refl; deref_args = refl }, (record { args = refl; deref_args = refl }, tt))

run_loop-handle_events_example :
    run_loop until_zero
      (codes "write")
      (map (λ (e, rest). sample (event_bytes e ++ rest)) two_events ++ (closed ∷ []))
      started
    ≡ run_loop until_zero (codes "write") (closed ∷ []) two_events_run.0
run_loop-handle_events_example =
    run_loop-handle_events until_zero (codes "write") two_events (closed ∷ []) started
      (failed_write-IsEvent, (failed_write-IsEvent, tt)) two_events_run.1
