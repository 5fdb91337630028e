-- ===== src/Monitor/Statistics.antt =====
-- main.go: StatisticalRes, updateStatistics and summarizeOneSyscall, over the map
-- syscallStatistics.
use syscap.Base.{
  ℕ, ◌+◌, ◌-◌, ◌*◌, ◌/◌, ◌%◌, List, [], ◌∷◌, ◌++◌, if◌then◌else◌, ◌==◌, nat_eq, length, get_or,
  lookup_or, insert, ℤ, pos, int_lt, int_le, add_int64, half_int64, sort_by,
}
use syscap.Event.{Event, duration}

pub record StatisticalRes : Type 0 where
  pub called_count : ℕ
  pub failed_count : ℕ
  pub delays : List ℤ
  pub p50_delay : ℤ
  pub p99_delay : ℤ

-- The zero value, which a read of a missing key gives.
abbrev pub no_calls : StatisticalRes
no_calls = record {
  called_count = 0;
  failed_count = 0;
  delays = [];
  p50_delay = pos 0;
  p99_delay = pos 0;
}

abbrev pub Statistics : Type 0
Statistics = List (ℕ × StatisticalRes)

-- The counters are Go ints: 2^63 events do not arrive.
unfoldable pub count_event : Event → StatisticalRes → StatisticalRes
count_event event last_record = record last_record {
  called_count = last_record.called_count + 1;
  failed_count =
      if int_lt (pos 0) event.errno then last_record.failed_count + 1 else last_record.failed_count;
  delays = last_record.delays ++ duration event ∷ [];
}

unfoldable pub update_statistics : Event → Statistics → Statistics
update_statistics event statistics =
    insert event.syscall_id (count_event event (lookup_or no_calls event.syscall_id statistics))
      statistics

-- sort.Slice by `<`
abbrev pub sort_delays : List ℤ → List ℤ
sort_delays = sort_by int_le

-- The mean of the two middle delays, or the middle one. The reads are in range: see Median.
unfoldable pub p50 : List ℤ → ℤ
p50 delays =
    let n = length delays in
    if n % 2 == 0
    then half_int64 (add_int64 (get_or delays (n / 2 - 1) (pos 0)) (get_or delays (n / 2) (pos 0)))
    else get_or delays (n / 2) (pos 0)

unfoldable pub p99 : List ℤ → ℤ
p99 delays = get_or delays (99 * length delays / 100) (pos 0)

-- The body of summarizeOneSyscall on one record, with the sorted delays.
unfoldable pub with_percentiles : StatisticalRes → List ℤ → StatisticalRes
with_percentiles res [] = record res { delays = [] }
with_percentiles res (d ∷ ds) = record res {
  delays = d ∷ ds;
  p50_delay = p50 (d ∷ ds);
  p99_delay = p99 (d ∷ ds);
}

unfoldable pub summarize : StatisticalRes → StatisticalRes
unfolding with_percentiles p50 p99
summarize res = with_percentiles res (sort_delays res.delays)

unfoldable pub summarize_one_syscall : ℕ → Statistics → Statistics
unfolding summarize
summarize_one_syscall syscall_id statistics =
    insert syscall_id (summarize (lookup_or no_calls syscall_id statistics)) statistics
