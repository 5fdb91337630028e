-- ===== src/Monitor/Examples.antt =====
-- main.go: a run of the read loop.
use mathlib.Core.List.{Perm}
use syscap.Base.{
  ℕ, ◌*◌, ◌<◌, List, [], ◌∷◌, some, map, eqb, if◌then◌else◌, ◌≡◌, refl, arith, Bytes, codes, All,
  keep, length, lookup_or, nat_eq, ℤ, pos, int_le, IsSorted, split,
}
use syscap.Event.{Event, duration}
use syscap.Monitor.Logged.{running_of, kept_entries, own_entries, handle_events-records}
use syscap.Monitor.Loop.{Monitor, started, is_kept, handle_events}
use syscap.Monitor.Median.{IsSmall, IsMedian, summarize_p50}
use syscap.Monitor.Percentiles.{summarize_sorts, summarize_p99}
use syscap.Monitor.Statistics.{StatisticalRes, no_calls, summarize}
use syscap.Monitor.Tally.{counts_for, is_failure, handle_events-statistics}
use syscap.Monitor.Total.{HasSix, handle_events_total}

-- unix.ByteSliceToString: the bytes up to the first zero.
unfoldable until_zero : Bytes → Bytes
until_zero [] = []
until_zero (c ∷ cs) = let rest = until_zero cs in if eqb c 0 then [] else c ∷ rest

abbrev zeros : List ℕ
zeros = 0 ∷ 0 ∷ 0 ∷ 0 ∷ 0 ∷ 0 ∷ []

abbrev event_of : ℕ → ℤ → ℕ → Event
event_of id errno exit = record {
  pid = 7;
  tid = 7;
  uid = 0;
  syscall_id = id;
  ppid = 1;
  errno = errno;
  ret = pos 0;
  time_stamp_enter = 100;
  time_stamp_exit = exit;
  cgroup_id = 5;
  comm = codes "sh";
  args = zeros;
  deref_args = zeros;
}

-- Two calls of close, one of which fails, around one of getpid.
abbrev three_events : List Event
three_events = event_of 3 (pos 0) 150 ∷ event_of 39 (pos 0) 120 ∷ event_of 3 (pos 9) 130 ∷ []

three_events-HasSix : All HasSix three_events
three_events-HasSix = (
  record { args = refl; deref_args = refl },
  (record { args = refl; deref_args = refl }, (record { args = refl; deref_args = refl }, tt)),
)

handle_events_total_example :
    (m : Monitor) × (handle_events until_zero (codes "close") three_events started ≡ some m)
handle_events_total_example =
    handle_events_total until_zero (codes "close") three_events started three_events-HasSix

three_events_run :
    (m : Monitor) × (handle_events until_zero (codes "close") three_events started ≡ some m)
three_events_run =
    handle_events_total until_zero (codes "close") three_events started three_events-HasSix

abbrev own : List Event
own = keep (counts_for (codes "close") 3) three_events

handle_events-statistics_example : lookup_or no_calls 3 three_events_run.0.statistics ≡ record {
  called_count = length own;
  failed_count = length (keep is_failure own);
  delays = map duration own;
  p50_delay = pos 0;
  p99_delay = pos 0;
}
handle_events-statistics_example =
    handle_events-statistics until_zero (codes "close") 3 three_events three_events_run.1

-- Of the three events two are counted for close, and one of them failed.
own_counts : (length own ≡ 2) × (length (keep is_failure own) ≡ 1)
unfolding is_kept split
own_counts = (refl, refl)

handle_events-records_example :
    (three_events_run.0.datas ≡ kept_entries until_zero (codes "close") three_events)
    × (three_events_run.0.events_caught ≡ length (keep (is_kept (codes "close")) three_events))
    × (running_of 3 three_events_run.0 ≡ own_entries until_zero (codes "close") 3 three_events)
handle_events-records_example =
    handle_events-records until_zero (codes "close") three_events 3 three_events_run.1

abbrev three_calls : StatisticalRes
three_calls = record no_calls { called_count = 3; delays = pos 30 ∷ pos 10 ∷ pos 20 ∷ [] }

summarize_sorts_example :
    IsSorted int_le (summarize three_calls).delays
    × Perm (summarize three_calls).delays (pos 30 ∷ pos 10 ∷ pos 20 ∷ [])
    × ((summarize three_calls).called_count ≡ 3)
    × ((summarize three_calls).failed_count ≡ 0)
summarize_sorts_example = summarize_sorts three_calls

summarize_p99_example :
    99 * length (summarize three_calls).delays
    < 100
      * length
          (keep (λ d. int_le d (summarize three_calls).p99_delay) (summarize three_calls).delays)
summarize_p99_example = summarize_p99 three_calls (omega arith)

three_calls-IsSmall : All IsSmall three_calls.delays
three_calls-IsSmall = (omega arith, (omega arith, (omega arith, tt)))

summarize_p50_example : IsMedian three_calls.delays (summarize three_calls).p50_delay
summarize_p50_example = summarize_p50 three_calls (omega arith) three_calls-IsSmall
