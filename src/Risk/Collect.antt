-- ===== src/Risk/Collect.antt =====
-- risk.go: the five checks of a syscall name, and generateOverallFinding. A collector is the list
-- of its risks, and the map syscallOverallInfo is an argument.
use syscap.Base.{
  ℕ, String, List, [], ◌∷◌, ◌++◌, Bool, not, ◌||◌, if◌then◌else◌, string_eq, int_has_eq, contains,
  nat_eq, lookup_or, ltb, ℤ, pos, int_lt,
}
use syscap.Monitor.Records.{RunningLogMetadata, MetadataForRiskAnalysis, no_info, OverallInfo}
use syscap.Risk.Level.{
  RiskLevel, critical, high, low, none, Risk, sensitive_call, matched, failing, delays,
}
use syscap.Risk.Pattern.{SensitiveArgRule, match_string}
use syscap.Risk.Rate.{rate_below_ceil}
use syscap.Risk.Rules.{sensitive_arg_syscalls}
use syscap.Risk.Tables.{sensitive_syscalls, sensitive_failing_syscalls, delay_critical_syscalls}
use syscap.Syscall.{reversed_syscall_table}

-- A name that is in no table reads as id 0.
unfoldable pub get_info_from_syscall_name : OverallInfo → String → MetadataForRiskAnalysis
unfolding reversed_syscall_table
get_info_from_syscall_name overall syscall_name =
    lookup_or no_info (lookup_or 0 syscall_name reversed_syscall_table) overall

unfoldable pub generate_finding_for_sensitive_syscall : OverallInfo → String → List Risk → List Risk
unfolding sensitive_syscalls get_info_from_syscall_name
generate_finding_for_sensitive_syscall overall syscall_name risks =
    if not (contains syscall_name sensitive_syscalls)
    then risks
    else risks
      ++ (record {
        risk_level = high;
        risk_category = "sensitive";
        related_syscall = syscall_name;
        evidence = sensitive_call syscall_name;
        snapshot = get_info_from_syscall_name overall syscall_name;
      }
          ∷ [])

-- The inner loop of checkSensitiveArg: the rules that match one record.
unfoldable pub check_running :
    MetadataForRiskAnalysis → String → RunningLogMetadata → List SensitiveArgRule → List Risk
unfolding sensitive_syscalls
check_running metadata syscall_name r [] = []
check_running metadata syscall_name r (cond ∷ conds) =
    let later = check_running metadata syscall_name r conds in
    if match_string cond r.arguments
    then record {
      risk_level = if contains syscall_name sensitive_syscalls then critical else high;
      risk_category = "arg_sensitive";
      related_syscall = syscall_name;
      evidence = matched r cond.source cond.reason r.arguments;
      snapshot = metadata;
    }
      ∷ later
    else later

unfoldable pub check_all_running :
    MetadataForRiskAnalysis → String → List SensitiveArgRule → List RunningLogMetadata → List Risk
check_all_running metadata syscall_name conds [] = []
check_all_running metadata syscall_name conds (r ∷ rs) =
    check_running metadata syscall_name r conds ++ check_all_running metadata syscall_name conds rs

unfoldable pub check_sensitive_arg : OverallInfo → String → List SensitiveArgRule → List Risk
unfolding get_info_from_syscall_name check_all_running check_running
check_sensitive_arg overall syscall_name conds =
    let metadata = get_info_from_syscall_name overall syscall_name in
    check_all_running metadata syscall_name conds metadata.running

unfoldable pub syscall_has_sensitive_args : OverallInfo → String → List Risk → List Risk
unfolding sensitive_arg_syscalls check_sensitive_arg
syscall_has_sensitive_args overall syscall_name risks =
    risks
    ++ check_sensitive_arg overall syscall_name (lookup_or [] syscall_name sensitive_arg_syscalls)

abbrev pub min_recorded_called : ℕ
min_recorded_called = 20

unfoldable pub check_failing_too_much : OverallInfo → String → Bool
unfolding get_info_from_syscall_name rate_below_ceil
check_failing_too_much overall syscall_name =
    let res = (get_info_from_syscall_name overall syscall_name).result in
    not (
      ltb res.called_count min_recorded_called || rate_below_ceil res.failed_count res.called_count)

unfoldable pub generate_finding_for_syscalls_failing_too_much :
    OverallInfo → String → List Risk → List Risk
unfolding check_failing_too_much sensitive_failing_syscalls
generate_finding_for_syscalls_failing_too_much overall syscall_name risks =
    let info = get_info_from_syscall_name overall syscall_name in
    if not (check_failing_too_much overall syscall_name)
    then risks
    else risks
      ++ (record {
        risk_level = if contains syscall_name sensitive_failing_syscalls then high else low;
        risk_category = "failing_too_much";
        related_syscall = syscall_name;
        evidence = failing info.result.called_count info.result.failed_count;
        snapshot = info;
      }
          ∷ [])

-- Nanoseconds.
abbrev pub warning_p50_delay : ℤ
warning_p50_delay = pos 5_000_000

abbrev pub warning_p99_delay : ℤ
warning_p99_delay = pos 50_000_000

unfoldable pub check_p50_delay_too_long : OverallInfo → String → Bool
unfolding get_info_from_syscall_name
check_p50_delay_too_long overall syscall_name =
    int_lt warning_p50_delay (get_info_from_syscall_name overall syscall_name).result.p50_delay

unfoldable pub check_p99_delay_too_long : OverallInfo → String → Bool
unfolding get_info_from_syscall_name
check_p99_delay_too_long overall syscall_name =
    int_lt warning_p99_delay (get_info_from_syscall_name overall syscall_name).result.p99_delay

unfoldable pub high_delay_syscall_risk_rating : OverallInfo → String → RiskLevel
unfolding check_p50_delay_too_long check_p99_delay_too_long delay_critical_syscalls
high_delay_syscall_risk_rating overall syscall_name =
    if not (check_p50_delay_too_long overall syscall_name)
    then none
    else if not (check_p99_delay_too_long overall syscall_name)
    then none
    else if contains syscall_name delay_critical_syscalls
    then high
    else low

unfoldable pub with_delay_risk :
    MetadataForRiskAnalysis → String → RiskLevel → List Risk → List Risk
with_delay_risk info syscall_name none risks = risks
with_delay_risk info syscall_name level risks =
    risks
    ++ (record {
      risk_level = level;
      risk_category = "delay_too_high";
      related_syscall = syscall_name;
      evidence = delays info.result.p50_delay info.result.p99_delay;
      snapshot = info;
    }
        ∷ [])

unfoldable pub generate_finding_for_high_delay_syscalls :
    OverallInfo → String → List Risk → List Risk
unfolding high_delay_syscall_risk_rating with_delay_risk
generate_finding_for_high_delay_syscalls overall syscall_name risks =
    with_delay_risk (get_info_from_syscall_name overall syscall_name) syscall_name
      (high_delay_syscall_risk_rating overall syscall_name) risks
