-- ===== src/Risk/Overall.antt =====
-- risk.go: what generateOverallFinding gives, and when checkFailingTooMuch holds.
use syscap.Base.{
  ℕ, ◌*◌, ◌^◌, ◌≤◌, ◌<◌, sym, ◌∙◌, Bool, true, false, not, ◌||◌, String, List, [], ◌≡◌, ◌↔◌, inl,
  inr, arith, ltb, Bool-cases, string_eq, contains, All-append, lookup_or,
}
use syscap.Monitor.Records.{MetadataForRiskAnalysis, OverallInfo}
use syscap.Risk.Abnormal.{check_abnormal_ret_val, generate_overall_finding}
use syscap.Risk.Collect.{
  get_info_from_syscall_name, generate_finding_for_sensitive_syscall, check_sensitive_arg,
  syscall_has_sensitive_args, check_failing_too_much, min_recorded_called,
  generate_finding_for_syscalls_failing_too_much, high_delay_syscall_risk_rating,
  generate_finding_for_high_delay_syscalls,
}
use syscap.Risk.Findings.{
  IsAbout, AllAbout, one_more, if-not_none, delay-AllAbout, all_running-AllAbout,
}
use syscap.Risk.Level.{high, low, Risk}
use syscap.Risk.Rate.Laws.{rate_below_ceil_exact}
use syscap.Risk.Rate.{rate_below_ceil}
use syscap.Risk.Rules.{sensitive_arg_syscalls}
use syscap.Risk.Tables.{sensitive_syscalls}
use syscap.Risk.Telling.{abnormal_risks-AllAbout}

not_lt : (a b : ℕ) → (ltb a b ≡ false) ↔ (b ≤ a)
not_lt a b = (λ h. ground arith, λ h. ground arith)

not_or : (a b : Bool) → (not (a || b) ≡ true) ↔ ((a ≡ false) × (b ≡ false))
not_or true b = ground arith
not_or false b = ground arith

threshold :
    (called failed : ℕ)
    → called < 2 ^ 50
    → failed < 2 ^ 50
    → (not (ltb called min_recorded_called || rate_below_ceil failed called) ≡ true)
      ↔ ((20 ≤ called) × (2 * called ≤ 5 * failed))
threshold called failed few less = (
  λ h.
      let (a, b) = (not_or (ltb called min_recorded_called) (rate_below_ceil failed called)).0 h in
      let enough : 20 ≤ called = (not_lt called min_recorded_called).0 a in
      let exact = rate_below_ceil_exact failed called less (omega (arith, enough)) few in
      (enough, (not_lt (5 * failed) (2 * called)).0 (sym exact ∙ b)),
  λ h.
      let exact = rate_below_ceil_exact failed called less (omega (arith, h.0)) few in
      (not_or (ltb called min_recorded_called) (rate_below_ceil failed called)).1 (
        (not_lt called min_recorded_called).1 h.0,
        exact ∙ (not_lt (5 * failed) (2 * called)).1 h.1,
      ),
)

module _ (overall : OverallInfo) (name : String) where
  abbrev info : MetadataForRiskAnalysis
  info = get_info_from_syscall_name overall name

  sensitive-AllAbout :
      (risks : List Risk)
      → AllAbout name info risks
      → AllAbout name info (generate_finding_for_sensitive_syscall overall name risks)
  unfolding generate_finding_for_sensitive_syscall
  sensitive-AllAbout risks h = elim (Bool-cases (contains name sensitive_syscalls)) [
    | inl e ↦ rw e (one_more name info high _ _ risks (λ e. cc) h)
    | inr e ↦ rw e h
  ]

  failing-AllAbout :
      (risks : List Risk)
      → AllAbout name info risks
      → AllAbout name info (generate_finding_for_syscalls_failing_too_much overall name risks)
  unfolding generate_finding_for_syscalls_failing_too_much
  failing-AllAbout risks h = elim (Bool-cases (check_failing_too_much overall name)) [
    | inl e ↦
        rw e
          (one_more name info _ _ _ risks (if-not_none name info _ high low (λ e. cc) (λ e. cc)) h)
    | inr e ↦ rw e h
  ]

  delayed-AllAbout :
      (risks : List Risk)
      → AllAbout name info risks
      → AllAbout name info (generate_finding_for_high_delay_syscalls overall name risks)
  unfolding generate_finding_for_high_delay_syscalls
  delayed-AllAbout risks h =
      delay-AllAbout name info (high_delay_syscall_risk_rating overall name) risks h

  by_argument-AllAbout :
      (risks : List Risk)
      → AllAbout name info risks
      → AllAbout name info (syscall_has_sensitive_args overall name risks)
  unfolding syscall_has_sensitive_args check_sensitive_arg
  by_argument-AllAbout risks h =
      All-append (IsAbout name info) risks _ h
        (all_running-AllAbout name info (lookup_or [] name sensitive_arg_syscalls) info.running)

  abnormal-AllAbout :
      (risks : List Risk)
      → AllAbout name info risks
      → AllAbout name info (check_abnormal_ret_val overall name risks)
  unfolding check_abnormal_ret_val
  abnormal-AllAbout risks h =
      All-append (IsAbout name info) risks _ h (abnormal_risks-AllAbout info name info.running)

  -- Each finding that generateOverallFinding gives is about the syscall that it is asked about,
  -- carries the information that is recorded for it, and has a level other than none.
  pub generate_overall_finding-AllAbout :
      AllAbout name
        (get_info_from_syscall_name overall name)
        (generate_overall_finding overall name)
  unfolding generate_overall_finding
  generate_overall_finding-AllAbout =
      abnormal-AllAbout _ (
        by_argument-AllAbout _ (failing-AllAbout _ (delayed-AllAbout _ (sensitive-AllAbout [] tt))))

  -- With fewer than 2^50 calls and failures counted, checkFailingTooMuch, which divides in float64,
  -- holds exactly when at least 20 calls are counted and at least two fifths of them failed.
  pub check_failing_too_much_iff :
      (get_info_from_syscall_name overall name).result.called_count < 2 ^ 50
      → (get_info_from_syscall_name overall name).result.failed_count < 2 ^ 50
      → (check_failing_too_much overall name ≡ true) ↔ (
          (20 ≤ (get_info_from_syscall_name overall name).result.called_count)
          × (2 * (get_info_from_syscall_name overall name).result.called_count
              ≤ 5 * (get_info_from_syscall_name overall name).result.failed_count))
  unfolding check_failing_too_much
  check_failing_too_much_iff few less =
      let res = (get_info_from_syscall_name overall name).result in
      threshold res.called_count res.failed_count few less
