-- ===== src/Shutdown.antt =====
-- main.go: the loop of the shutdown goroutine in `run` over the seen ids. Lines has what it
-- prints.
pub mod EndToEnd
pub mod Lines
pub mod Examples
use syscap.Base.{
  ℕ, Bool, true, false, ◌||◌, List, [], ◌∷◌, ◌++◌, if◌then◌else◌, ◌==◌, nat_eq, contains, lookup_or,
  lookup_or-insert, eqb_iff, ◌≡◌, refl, ap, ◌∙◌, sym, inl, inr, arith, Bool-cases, eqb, ==_refl,
}
use syscap.Monitor.Percentiles.{summarize_idem}
use syscap.Monitor.Records.{
  MetadataForRiskAnalysis, no_info, OverallInfo, syscall_name_of, assign_result_to_overall_info,
  RunningLogMetadata,
}
use syscap.Monitor.Statistics.{
  StatisticalRes, no_calls, Statistics, summarize, summarize_one_syscall,
}
use syscap.Risk.Abnormal.{generate_overall_finding}
use syscap.Risk.Level.{Risk}

pub record Report : Type 0 where
  pub statistics : Statistics
  pub overall : OverallInfo
  pub findings : List Risk

-- One round, for one id.
unfoldable pub report_syscall : ℕ → Report → Report
unfolding summarize_one_syscall assign_result_to_overall_info generate_overall_finding
    syscall_name_of
report_syscall id r =
    let statistics = summarize_one_syscall id r.statistics in
    let overall = assign_result_to_overall_info id statistics r.overall in
    record {
      statistics = statistics;
      overall = overall;
      findings = r.findings ++ generate_overall_finding overall (syscall_name_of id);
    }

-- Go ranges over the set in any order: `seen` is one of them.
unfoldable pub report_all : List ℕ → Report → Report
unfolding report_syscall
report_all [] r = r
report_all (id ∷ seen) r = report_all seen (report_syscall id r)

abbrev pub statistics_of : ℕ → Report → StatisticalRes
statistics_of id r = lookup_or no_calls id r.statistics

abbrev pub info_of : ℕ → Report → MetadataForRiskAnalysis
info_of id r = lookup_or no_info id r.overall

pub report_syscall-statistics :
    (k id : ℕ) (r : Report)
    → statistics_of id (report_syscall k r)
      ≡ (if k == id then summarize (statistics_of id r) else statistics_of id r)
unfolding report_syscall summarize_one_syscall
report_syscall-statistics k id r =
    lookup_or-insert no_calls k id _ r.statistics ∙ elim (Bool-cases (k == id)) [
      | inl here ↦ rw (here, (eqb_iff k id).0 here)
      | inr other ↦ rw other
    ]

-- The information of an id, with the summary of this record as its result.
abbrev pub with_summary : StatisticalRes → MetadataForRiskAnalysis → MetadataForRiskAnalysis
with_summary res info = record info { result = summarize res }

report_syscall-info :
    (k id : ℕ) (r : Report)
    → info_of id (report_syscall k r)
      ≡ (if k == id then with_summary (statistics_of id r) (info_of id r) else info_of id r)
unfolding report_syscall assign_result_to_overall_info
report_syscall-info k id r =
    lookup_or-insert no_info k id _ r.overall ∙ elim (Bool-cases (k == id)) [
      | inl here ↦
          rw (here, (eqb_iff k id).0 here)
            (ap (λ res. record (info_of id r) { result = res })
              (report_syscall-statistics id id r ∙ rw (==_refl id)))
      | inr other ↦ rw other
    ]

-- A summary of a record that may be summarized already.
summary_once :
    (b c : Bool) (res : StatisticalRes)
    → (let once = if b then summarize res else res in if c then summarize once else once)
      ≡ (if b || c then summarize res else res)
summary_once true true res = summarize_idem res
summary_once true false res = refl
summary_once false true res = refl
summary_once false false res = refl

info_once :
    (b c : Bool) (res : StatisticalRes) (info : MetadataForRiskAnalysis)
    → (let once = if b then with_summary res info else info in
        if c then with_summary (if b then summarize res else res) once else once)
      ≡ (if b || c then with_summary res info else info)
info_once true true res info = ap (λ s. record info { result = s }) (summarize_idem res)
info_once true false res info = refl
info_once false true res info = refl
info_once false false res info = refl

-- Whatever the order in which the seen ids are ranged over, each of them ends with its delays
-- summarized once, in its statistics and, beside its records, in the information that the findings
-- read; an id that is not seen keeps both as they were.
pub report_all_lem :
    (seen : List ℕ) (id : ℕ) (r : Report)
    → (statistics_of id (report_all seen r)
        ≡ (if contains id seen then summarize (statistics_of id r) else statistics_of id r))
      × (info_of id (report_all seen r) ≡ (
          if contains id seen
          then with_summary (statistics_of id r) (info_of id r)
          else info_of id r))
unfolding report_all
report_all_lem [] id r = (refl, refl)
report_all_lem (k ∷ seen) id r =
    let (later, later_info) = report_all_lem seen id (report_syscall k r) in
    (
      later
          ∙ rw (report_syscall-statistics k id r)
              (summary_once (k == id) (contains id seen) (statistics_of id r)),
      later_info
          ∙ rw (report_syscall-statistics k id r) (
              rw (report_syscall-info k id r)
                (info_once (k == id) (contains id seen) (statistics_of id r) (info_of id r))),
    )
