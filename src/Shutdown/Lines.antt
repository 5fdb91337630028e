-- ===== src/Shutdown/Lines.antt =====
-- main.go: the lines that the shutdown goroutine prints for each seen id, on the terminal and into
-- performance.log.
use syscap.Event.{Event, duration}
use syscap.Monitor.Tally.{counts_for, is_failure, handle_events-statistics}
use syscap.Shutdown.EndToEnd.{report_of, res_of}
use syscap.Monitor.Statistics.{sort_delays, p50, p99, StatisticalRes, summarize}
use mathlib.Core.List.{append_assoc}
use syscap.Monitor.Loop.{Monitor, started, handle_events}
use syscap.Monitor.Seen.{handle_events-seen}
use syscap.Base.{
  All, any, contains, some, sym, true, Bool, String, arith, length-map, length-sort_by, int_le, map,
  length, keep, ◌<◌, ℕ, List, [], ◌∷◌, ◌++◌, ◌==◌, nat_eq, Bytes, codes, decimal, signed_decimal,
  ◌≡◌, refl, ap, ◌∙◌, inl, inr, Bool-cases, ==_refl,
}
use syscap.Monitor.Percentiles.{summarize_idem, summarize_sorts, percentiles-with_percentiles}
use syscap.Monitor.Records.{syscall_name_of}
use syscap.Shutdown.{Report, report_syscall, report_syscall-statistics, statistics_of}

-- `%f` of `1-float64(failed)/float64(called)` is a parameter.
module _ (success_rate : ℕ → ℕ → Bytes) where
  unfoldable pub syscall_lines : ℕ → StatisticalRes → Bytes
  unfolding decimal signed_decimal
  syscall_lines id res =
      codes (syscall_name_of id)
      ++ (codes ": \n    called: "
          ++ (decimal res.called_count
              ++ (codes "\n    failed: "
                  ++ (decimal res.failed_count
                      ++ (codes "\n    success rate: "
                          ++ (success_rate res.failed_count res.called_count
                              ++ (codes "\n    P50 delay: "
                                  ++ (signed_decimal res.p50_delay
                                      ++ (codes "\n    P99 delay: "
                                          ++ (signed_decimal res.p99_delay ++ codes "\n"))))))))))

  -- The lines of each round, from the statistics that the round has summarized.
  unfoldable pub performance_lines : List ℕ → Report → Bytes
  unfolding report_syscall syscall_lines
  performance_lines [] r = []
  performance_lines (id ∷ seen) r =
      let r' = report_syscall id r in
      syscall_lines id (statistics_of id r') ++ performance_lines seen r'

  -- What a seen id prints.
  abbrev all_lines : List ℕ → Report → Bytes
  all_lines [] r = []
  all_lines (id ∷ seen) r = syscall_lines id (summarize (statistics_of id r)) ++ all_lines seen r

  summary_kept :
      (k id : ℕ) (r : Report)
      → summarize (statistics_of id (report_syscall k r)) ≡ summarize (statistics_of id r)
  summary_kept k id r = elim (Bool-cases (k == id)) [
    | inl here ↦
        ap summarize (report_syscall-statistics k id r ∙ rw here)
        ∙ summarize_idem (statistics_of id r)
    | inr other ↦ ap summarize (report_syscall-statistics k id r ∙ rw other)
  ]

  all_lines_kept :
      (k : ℕ) (seen : List ℕ) (r : Report) → all_lines seen (report_syscall k r) ≡ all_lines seen r
  all_lines_kept k [] r = refl
  all_lines_kept k (id ∷ seen) r =
      ap (λ res. syscall_lines id res ++ all_lines seen (report_syscall k r)) (summary_kept k id r)
      ∙ ap (λ lines. syscall_lines id (summarize (statistics_of id r)) ++ lines)
          (all_lines_kept k seen r)

  -- A round changes no line of another.
  performance_lines-all_lines :
      (seen : List ℕ) (r : Report) → performance_lines seen r ≡ all_lines seen r
  unfolding performance_lines
  performance_lines-all_lines [] r = refl
  performance_lines-all_lines (id ∷ seen) r =
      let summed : statistics_of id (report_syscall id r) ≡ summarize (statistics_of id r) =
        report_syscall-statistics id id r ∙ rw (==_refl id) in
      ap (λ res. syscall_lines id res ++ performance_lines seen (report_syscall id r)) summed
      ∙ ap (λ lines. syscall_lines id (summarize (statistics_of id r)) ++ lines)
          (performance_lines-all_lines seen (report_syscall id r) ∙ all_lines_kept id seen r)

-- One line of a block: a label and a value.
abbrev pub block_line : String → Bytes → Bytes
block_line label value = codes "    " ++ (codes label ++ (codes ": " ++ (value ++ codes "\n")))

-- The block of some values.
abbrev pub block : ℕ → Bytes → Bytes → Bytes → Bytes → Bytes → Bytes
block id called failed rate fifty ninety_nine =
    codes (syscall_name_of id)
    ++ (codes ": \n"
        ++ (block_line "called" called
            ++ (block_line "failed" failed
                ++ (block_line "success rate" rate
                    ++ (block_line "P50 delay" fifty ++ block_line "P99 delay" ninety_nine)))))

-- What some events of an id come to: the block of performance.log that they should give.
abbrev pub block_of : (ℕ → ℕ → Bytes) → ℕ → List Event → Bytes
block_of success_rate id own =
    let called = length own in
    let failed = length (keep is_failure own) in
    let delays = sort_delays (map duration own) in
    block id (decimal called) (decimal failed) (success_rate failed called)
      (signed_decimal (p50 delays)) (signed_decimal (p99 delays))

length-keep-any {ℓ} :
    {A : Type ℓ} (p : A → Bool) (xs : List A) → any p xs ≡ true → 0 < length (keep p xs)
length-keep-any p [] h = cc h
length-keep-any p (x ∷ xs) h = elim (Bool-cases (p x)) [
  | inl kept ↦ rw kept (omega arith)
  | inr dropped ↦ rw dropped (length-keep-any p xs (rw dropped at h))
]

module _ (byte_slice_to_string : Bytes → Bytes) (target : Bytes)
    (success_rate : ℕ → ℕ → Bytes) where
  -- The blocks of some ids, in this order.
  abbrev pub blocks_of : List Event → List ℕ → Bytes
  blocks_of events [] = []
  blocks_of events (id ∷ seen) =
      block_of success_rate id (keep (counts_for target id) events) ++ blocks_of events seen

  syscall_lines-block :
      (id : ℕ) (res : StatisticalRes)
      → syscall_lines success_rate id res
        ≡ block id
            (decimal res.called_count)
            (decimal res.failed_count)
            (success_rate res.failed_count res.called_count)
            (signed_decimal res.p50_delay)
            (signed_decimal res.p99_delay)
  unfolding syscall_lines
  syscall_lines-block id res = simp (append_assoc)

  summary_fields :
      (id : ℕ) (own : List Event)
      → 0 < length own
      → syscall_lines success_rate id (summarize (res_of own)) ≡ block_of success_rate id own
  unfolding summarize
  summary_fields id own some_own =
      let ds = sort_delays (map duration own) in
      let (sorted, same, called, failed) = summarize_sorts (res_of own) in
      let (fifty, ninety_nine) = percentiles-with_percentiles (res_of own) ds (
        omega
          (arith, some_own, length-map duration own, length-sort_by int_le (map duration own))) in
      syscall_lines-block id (summarize (res_of own)) ∙ rw (called, failed, fifty, ninety_nine) refl

  performance_blocks :
      (events : List Event) {m : Monitor} (seen : List ℕ)
      → handle_events byte_slice_to_string target events started ≡ some m
      → All (λ id. contains id m.seen_syscalls ≡ true) seen
      → all_lines success_rate seen (report_of m) ≡ blocks_of events seen
  performance_blocks events [] h all_seen = refl
  performance_blocks events {m} (id ∷ seen) h (here, all_seen) =
      let own = keep (counts_for target id) events in
      let some_own : 0 < length own =
        length-keep-any (counts_for target id) events
          (sym (handle_events-seen byte_slice_to_string target id events h) ∙ here) in
      let counted = handle_events-statistics byte_slice_to_string target id events h in
      ap
        (λ res.
          syscall_lines success_rate id (summarize res)
          ++ all_lines success_rate seen (report_of m))
        counted
      ∙ ap (λ lines. lines ++ all_lines success_rate seen (report_of m))
          (summary_fields id own some_own)
      ∙ ap (λ rest. block_of success_rate id own ++ rest)
          (performance_blocks events seen h all_seen)

  -- When the read loop has handled some events from the start, then whatever seen ids the shutdown
  -- ranges over, in whatever order, performance.log holds for each of them, in this order, the name
  -- of the id and five labelled lines: the number of its events that the filter keeps, the number of
  -- those with a positive errno, the success rate of these two numbers, and the P50 and the P99 delay
  -- of the durations of these events in ascending order. No round changes the block of another.
  pub performance_lines-blocks_of :
      (events : List Event) {m : Monitor} (seen : List ℕ)
      → handle_events byte_slice_to_string target events started ≡ some m
      → All (λ id. contains id m.seen_syscalls ≡ true) seen
      → performance_lines success_rate seen (report_of m) ≡ blocks_of events seen
  performance_lines-blocks_of events {m} seen h all_seen =
      performance_lines-all_lines success_rate seen (report_of m)
      ∙ performance_blocks events seen h all_seen
