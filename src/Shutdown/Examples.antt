-- ===== src/Shutdown/Examples.antt =====
-- main.go: a run and its shutdown.
use syscap.Base.{
  ℕ, List, [], ◌∷◌, Option, some, if◌then◌else◌, ◌≡◌, refl, Bytes, codes, keep, contains, nat_eq,
  pos,
}
use syscap.Event.{Event}
use syscap.Monitor.Logged.{own_entries}
use syscap.Monitor.Loop.{is_kept, Monitor, started, handle_event, handle_events}
use syscap.Monitor.Records.{log_metadata, syscall_name_of}
use syscap.Risk.Collect.{get_info_from_syscall_name}
use syscap.Syscall.{syscall_table}
use syscap.Monitor.Statistics.{no_calls, summarize}
use syscap.Monitor.Seen.{handle_events-seen}
use syscap.Monitor.Tally.{counts_for}
use syscap.Shutdown.EndToEnd.{report_of, res_of, report_all-events}
use syscap.Shutdown.Lines.{performance_lines, blocks_of, performance_lines-blocks_of}
use syscap.Shutdown.{Report, info_of, statistics_of, report_all, report_all_lem, with_summary}

-- unix.ByteSliceToString on bytes with no zero.
abbrev as_it_is : Bytes → Bytes
as_it_is cs = cs

abbrev zeros : List ℕ
zeros = 0 ∷ 0 ∷ 0 ∷ 0 ∷ 0 ∷ 0 ∷ []

abbrev one_close : Event
one_close = record {
  pid = 7;
  tid = 7;
  uid = 0;
  syscall_id = 3;
  ppid = 1;
  errno = pos 9;
  ret = pos 0;
  time_stamp_enter = 100;
  time_stamp_exit = 150;
  cgroup_id = 5;
  comm = codes "sh";
  args = zeros;
  deref_args = zeros;
}

abbrev closed_run : Option Monitor
closed_run = handle_events as_it_is [] (one_close ∷ []) started

run_ends : (m : Monitor) × (closed_run ≡ some m)
unfolding handle_events handle_event log_metadata
run_ends = (_, refl)

report_all-events_example :
    get_info_from_syscall_name
      (report_all run_ends.0.seen_syscalls (report_of run_ends.0)).overall
      (syscall_name_of 3)
    ≡ record {
      running = own_entries as_it_is [] 3 (one_close ∷ []);
      result = summarize (res_of (keep (counts_for [] 3) (one_close ∷ [])));
    }
unfolding is_kept syscall_table
report_all-events_example = report_all-events as_it_is [] (one_close ∷ []) 3 run_ends.1 refl refl

abbrev two_calls : Report
two_calls = record {
  statistics = (3, record no_calls { called_count = 2; delays = pos 30 ∷ pos 10 ∷ [] }) ∷ [];
  overall = [];
  findings = [];
}

report_all_lem_example :
    (statistics_of 3 (report_all (39 ∷ 3 ∷ []) two_calls) ≡ (
      if contains {A = ℕ} 3 (39 ∷ 3 ∷ [])
      then summarize (statistics_of 3 two_calls)
      else statistics_of 3 two_calls))
    × (info_of 3 (report_all (39 ∷ 3 ∷ []) two_calls) ≡ (
        if contains {A = ℕ} 3 (39 ∷ 3 ∷ [])
        then with_summary (statistics_of 3 two_calls) (info_of 3 two_calls)
        else info_of 3 two_calls))
report_all_lem_example = report_all_lem (39 ∷ 3 ∷ []) 3 two_calls

-- A rate that is not printed.
abbrev no_rate : ℕ → ℕ → Bytes
no_rate failed called = codes "-"

performance_lines-blocks_of_example :
    performance_lines no_rate (3 ∷ []) (report_of run_ends.0)
    ≡ blocks_of as_it_is [] no_rate (one_close ∷ []) (3 ∷ [])
unfolding is_kept
performance_lines-blocks_of_example =
    performance_lines-blocks_of as_it_is [] no_rate (one_close ∷ []) (3 ∷ []) run_ends.1
      (handle_events-seen as_it_is [] 3 (one_close ∷ []) run_ends.1, tt)
