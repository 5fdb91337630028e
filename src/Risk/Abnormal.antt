-- ===== src/Risk/Abnormal.antt =====
-- risk.go: checkAbnormalRetVal, and generateOverallFinding.
use syscap.Base.{
  Bool, String, List, [], ◌∷◌, ◌++◌, Option, none, some, ◌||◌, not, if◌then◌else◌, ◌==◌, string_eq,
  int_has_eq, contains, lookup_or, ℤ,
}
use syscap.Monitor.Records.{RunningLogMetadata, MetadataForRiskAnalysis, OverallInfo}
use syscap.Risk.Collect.{
  get_info_from_syscall_name, generate_finding_for_sensitive_syscall, syscall_has_sensitive_args,
  generate_finding_for_syscalls_failing_too_much, generate_finding_for_high_delay_syscalls,
}
use syscap.Risk.Level.{
  RiskLevel, critical, high, low, raised, Risk, Evidence, breaks_border, failed_file_operation,
  exhausts_resource, net_issue,
}
use syscap.Risk.Tables.{
  eperm, enoent, eagain, enomem, enfile, emfile, econnrefused, ehostunreach, etimedout, enetunreach,
  sensitive_syscalls, sensitive_syscalls_with_errno,
}

-- The `switch running.ReturnValue`; `none` is its `continue`.
unfoldable pub rate_return_value : String → ℤ → Option (RiskLevel × Evidence)
rate_return_value syscall_name ret =
    if ret == eperm
    then some (critical, breaks_border syscall_name eperm)
    else if ret == enoent
    then some (high, failed_file_operation syscall_name enoent)
    else if ret == emfile || (ret == enfile || (ret == enomem || ret == eagain))
    then some (high, exhausts_resource syscall_name ret)
    else if ret == econnrefused || (ret == etimedout || (ret == enetunreach || ret == ehostunreach))
    then some (low, net_issue syscall_name ret)
    else none

-- `checkIfExistInMap(sensitiveSyscallsWithErrno[ret], syscallName)`: a missing number has no names.
unfoldable pub is_telling : String → ℤ → Bool
unfolding sensitive_syscalls_with_errno
is_telling syscall_name ret = contains syscall_name (lookup_or [] ret sensitive_syscalls_with_errno)

-- The loop body: at most one risk for one record.
unfoldable pub abnormal_risk : MetadataForRiskAnalysis → String → RunningLogMetadata → List Risk
unfolding is_telling rate_return_value sensitive_syscalls raised
abnormal_risk info syscall_name running =
    if not (is_telling syscall_name running.return_value)
    then []
    else elim (rate_return_value syscall_name running.return_value) [
      | none ↦ []
      | some (level, evidence) ↦
          record {
            risk_level = if contains syscall_name sensitive_syscalls then raised level else level;
            risk_category = "abnormal_ret_val";
            related_syscall = syscall_name;
            evidence = evidence;
            snapshot = info;
          }
          ∷ []
    ]

unfoldable pub abnormal_risks :
    MetadataForRiskAnalysis → String → List RunningLogMetadata → List Risk
unfolding abnormal_risk
abnormal_risks info syscall_name [] = []
abnormal_risks info syscall_name (running ∷ rest) =
    abnormal_risk info syscall_name running ++ abnormal_risks info syscall_name rest

unfoldable pub check_abnormal_ret_val : OverallInfo → String → List Risk → List Risk
unfolding abnormal_risks get_info_from_syscall_name
check_abnormal_ret_val overall syscall_name risks =
    let info = get_info_from_syscall_name overall syscall_name in
    risks ++ abnormal_risks info syscall_name info.running

unfoldable pub generate_overall_finding : OverallInfo → String → List Risk
unfolding generate_finding_for_sensitive_syscall generate_finding_for_high_delay_syscalls
    generate_finding_for_syscalls_failing_too_much syscall_has_sensitive_args check_abnormal_ret_val
generate_overall_finding overall syscall_name =
    let sensitive = generate_finding_for_sensitive_syscall overall syscall_name [] in
    let slow = generate_finding_for_high_delay_syscalls overall syscall_name sensitive in
    let failing = generate_finding_for_syscalls_failing_too_much overall syscall_name slow in
    let by_argument = syscall_has_sensitive_args overall syscall_name failing in
    check_abnormal_ret_val overall syscall_name by_argument
