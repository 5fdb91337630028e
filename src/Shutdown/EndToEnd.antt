-- ===== src/Shutdown/EndToEnd.antt =====
-- main.go: what the findings read at the end, from the events that came in.
use syscap.Base.{
  any, ℕ, true, String, lookup, List, [], some, map, ◌≡◌, ◌∙◌, Bytes, keep, length, nat_eq, pos,
}
use syscap.Event.{Event, duration}
use syscap.Monitor.Logged.{own_entries, handle_events-records}
use syscap.Monitor.Loop.{Monitor, started, handle_events}
use syscap.Monitor.Records.{MetadataForRiskAnalysis, RunningLogMetadata, syscall_name_of}
use syscap.Monitor.Statistics.{StatisticalRes, summarize}
use syscap.Monitor.Seen.{handle_events-seen}
use syscap.Monitor.Tally.{counts_for, is_failure, handle_events-statistics}
use syscap.Risk.Collect.{get_info_from_syscall_name}
use syscap.Risk.Names.{get_info-known}
use syscap.Syscall.{syscall_table}
use syscap.Shutdown.{Report, info_of, report_all, report_all_lem}

-- What the shutdown starts from.
abbrev pub report_of : Monitor → Report
report_of m = record { statistics = m.statistics; overall = m.overall; findings = [] }

-- The counts and the durations of some events.
abbrev pub res_of : List Event → StatisticalRes
res_of own = record {
  called_count = length own;
  failed_count = length (keep is_failure own);
  delays = map duration own;
  p50_delay = pos 0;
  p99_delay = pos 0;
}

abbrev info_with : List RunningLogMetadata → StatisticalRes → MetadataForRiskAnalysis
info_with running res = record { running = running; result = summarize res }

same_info :
    {rs ss : List RunningLogMetadata} {s t : StatisticalRes}
    → rs ≡ ss
    → s ≡ t
    → info_with rs s ≡ info_with ss t
same_info p q = λ i. info_with (p i) (q i)

module _ (byte_slice_to_string : Bytes → Bytes) (target : Bytes) where
  -- What is stored for an id, with a name or without.
  info_of-events :
      (events : List Event) {m : Monitor} (id : ℕ)
      → handle_events byte_slice_to_string target events started ≡ some m
      → any (counts_for target id) events ≡ true
      → info_of id (report_all m.seen_syscalls (report_of m))
        ≡ info_with
            (own_entries byte_slice_to_string target id events)
            (res_of (keep (counts_for target id) events))
  info_of-events events {m} id h own =
      (report_all_lem m.seen_syscalls id (report_of m)).1
      ∙ rw (handle_events-seen byte_slice_to_string target id events h ∙ own) (
          same_info (handle_events-records byte_slice_to_string target events id h).2
            (handle_events-statistics byte_slice_to_string target id events h))

  -- When the read loop has handled some events from the start and the shutdown has gone through the
  -- seen ids, then for each id that has a name in SyscallTable and an event that the filter keeps,
  -- the information that a finding under this name reads holds the entries of these events of the
  -- id, in the order of arrival, and the summary of their number, of the number of those with a
  -- positive errno, and of their durations.
  pub report_all-events :
      (events : List Event) {m : Monitor} (id : ℕ) {name : String}
      → handle_events byte_slice_to_string target events started ≡ some m
      → lookup id syscall_table ≡ some name
      → any (counts_for target id) events ≡ true
      → get_info_from_syscall_name
          (report_all m.seen_syscalls (report_of m)).overall
          (syscall_name_of id)
        ≡ record {
          running = own_entries byte_slice_to_string target id events;
          result = summarize (res_of (keep (counts_for target id) events));
        }
  report_all-events events {m} id h named own =
      get_info-known (report_all m.seen_syscalls (report_of m)).overall id named
      ∙ info_of-events events id h own
