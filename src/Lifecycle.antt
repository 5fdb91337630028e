-- ===== src/Lifecycle.antt =====
-- main.go: the two goroutines of `run` from the start of its read loop on, the loop and the
-- shutdown, and when the process ends. rd.Close() makes rd.Read() fail with ringbuf.ErrClosed, and the
-- return of the loop ends the process, the shutdown with it.
pub mod Examples
use syscap.Base.{Bool, true, false, ◌≡◌, ◌≢◌, ◌↔◌, refl}

-- How far the shutdown goroutine is: it waits in its `select`; it has closed the reader, opened
-- running.json and then finding.json (which empties them), written running.json, written the lines of
-- performance.log with the findings collected, and written finding.json; or it gave up on an error.
pub data Stage : Type 0 where
  waiting reader_closed running_opened finding_opened running_written reported finding_written :
      Stage
  abandoned : Stage

-- What the read loop does.
pub data LoopState : Type 0 where
  reading returned_nil failed_to_read failed_to_decode : LoopState

pub record Process : Type 0 where
  pub loop : LoopState
  pub stage : Stage

abbrev pub both_running : Process
both_running = record { loop = reading; stage = waiting }

-- One action of the shutdown goroutine.
pub data Next : Stage → Stage → Type 0 where
  close : Next waiting reader_closed
  open_running : Next reader_closed running_opened
  no_running : Next reader_closed abandoned
  open_finding : Next running_opened finding_opened
  no_finding : Next running_opened abandoned
  write_running : Next finding_opened running_written
  no_write : Next finding_opened abandoned
  report : Next running_written reported
  write_finding : Next reported finding_written

-- The test for ringbuf.ErrClosed: the reader is closed.
unfoldable pub is_closed : Stage → Bool
is_closed waiting = false
is_closed reader_closed = true
is_closed running_opened = true
is_closed finding_opened = true
is_closed running_written = true
is_closed reported = true
is_closed finding_written = true
is_closed abandoned = true

-- The goroutines take turns while the process lives.
pub data Turn : Process → Process → Type 0 where
  handle :
      {stage : Stage}
      → Turn (record { loop = reading; stage = stage }) (record { loop = reading; stage = stage })
  shut_down :
      {stage later : Stage}
      → Next stage later
      → Turn (record { loop = reading; stage = stage }) (record { loop = reading; stage = later })
  see_closed :
      {stage : Stage}
      → is_closed stage ≡ true
      → Turn
          (record { loop = reading; stage = stage })
          (record { loop = returned_nil; stage = stage })
  fail_to_read :
      {stage : Stage}
      → Turn
          (record { loop = reading; stage = stage })
          (record { loop = failed_to_read; stage = stage })
  fail_to_decode :
      {stage : Stage}
      → Turn
          (record { loop = reading; stage = stage })
          (record { loop = failed_to_decode; stage = stage })

pub data Reach : Process → Type 0 where
  here : Reach both_running
  next : {p q : Process} → Reach p → Turn p q → Reach q

Turn-is_closed : {p q : Process} → Turn p q → q.loop ≡ returned_nil → is_closed q.stage ≡ true
Turn-is_closed handle h = cc
Turn-is_closed (shut_down s) h = cc
Turn-is_closed (see_closed closed) h = closed
Turn-is_closed fail_to_read h = cc
Turn-is_closed fail_to_decode h = cc

Reach-is_closed : {p : Process} → Reach p → p.loop ≡ returned_nil → is_closed p.stage ≡ true
Reach-is_closed here h = cc
Reach-is_closed (next r s) h = Turn-is_closed s h

then_reading :
    {stage later : Stage}
    → Reach (record { loop = reading; stage = stage })
    → Next stage later
    → Reach (record { loop = reading; stage = later })
then_reading r s = next r (shut_down s)

to_running_opened : Reach (record { loop = reading; stage = running_opened })
to_running_opened = then_reading (then_reading here close) open_running

to_running_written : Reach (record { loop = reading; stage = running_written })
to_running_written = then_reading (then_reading to_running_opened open_finding) write_running

all_reading : (stage : Stage) → Reach (record { loop = reading; stage = stage })
all_reading waiting = here
all_reading reader_closed = then_reading here close
all_reading running_opened = to_running_opened
all_reading finding_opened = then_reading to_running_opened open_finding
all_reading running_written = to_running_written
all_reading reported = then_reading to_running_written report
all_reading finding_written = then_reading (then_reading to_running_written report) write_finding
all_reading abandoned = then_reading (then_reading here close) no_running

is_closed_iff : (stage : Stage) → (is_closed stage ≡ true) ↔ (stage ≢ waiting)
unfolding is_closed
is_closed_iff waiting = (λ h. cc, λ h. absurd (h refl))
is_closed_iff reader_closed = (λ h e. cc, λ h. refl)
is_closed_iff running_opened = (λ h e. cc, λ h. refl)
is_closed_iff finding_opened = (λ h e. cc, λ h. refl)
is_closed_iff running_written = (λ h e. cc, λ h. refl)
is_closed_iff reported = (λ h e. cc, λ h. refl)
is_closed_iff finding_written = (λ h e. cc, λ h. refl)
is_closed_iff abandoned = (λ h e. cc, λ h. refl)

-- The process can end by the loop's nil return while the shutdown is at a stage exactly when this is
-- not the waiting for a signal or the timeout: so also when running.json and finding.json are
-- opened, and with that emptied, but not yet written.
pub returned_nil_iff :
    (stage : Stage) → Reach (record { loop = returned_nil; stage = stage }) ↔ (stage ≢ waiting)
returned_nil_iff stage = (
  λ r. (is_closed_iff stage).0 (Reach-is_closed r refl),
  λ left. next (all_reading stage) (see_closed ((is_closed_iff stage).1 left)),
)
