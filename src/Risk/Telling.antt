-- ===== src/Risk/Telling.antt =====
-- risk.go: checkAbnormalRetVal finds something for each record whose return value is listed for its
-- syscall: the `continue` of its switch is never reached.
use syscap.Base.{
  Bool, true, false, ◌+◌, String, List, [], ◌∷◌, Option, none, some, if◌then◌else◌, ◌≡◌, ◌≢◌, refl,
  inl, inr, arith, Bool-cases, Option-cases, sym, subst, ap, ◌∙◌, string_eq, int_has_eq, contains,
  All, All-append, All-lookup, length, length-append, keep, lookup, lookup_or, ℤ,
}
use syscap.Monitor.Records.{RunningLogMetadata, MetadataForRiskAnalysis, OverallInfo}
use syscap.Risk.Abnormal.{
  rate_return_value, is_telling, abnormal_risk, abnormal_risks, check_abnormal_ret_val,
}
use syscap.Risk.Collect.{get_info_from_syscall_name}
use syscap.Risk.Findings.{IsAbout, AllAbout, risk_about-IsAbout, if-not_none}
use syscap.Risk.Level.{RiskLevel, raised, Risk, Evidence}
use syscap.Risk.Tables.{sensitive_syscalls_with_errno}

-- A level of a finding, after it is raised too.
abbrev IsRated : Option (RiskLevel × Evidence) → Type 0
IsRated none = false ≡ true
IsRated (some (level, _)) = (level ≢ RiskLevel.none) × (raised level ≢ RiskLevel.none)

table-IsRated :
    (name : String)
    → All (λ row. IsRated (rate_return_value name row.0)) sensitive_syscalls_with_errno
unfolding sensitive_syscalls_with_errno rate_return_value raised
table-IsRated name = (
  (λ e. cc, λ e. cc),
  (
    (λ e. cc, λ e. cc),
    (
      (λ e. cc, λ e. cc),
      (
        (λ e. cc, λ e. cc),
        (
          (λ e. cc, λ e. cc),
          (
            (λ e. cc, λ e. cc),
            (
              (λ e. cc, λ e. cc),
              ((λ e. cc, λ e. cc), ((λ e. cc, λ e. cc), ((λ e. cc, λ e. cc), tt))),
            ),
          ),
        ),
      ),
    ),
  ),
)

-- A listed return value has a case of the switch.
telling-IsRated :
    (name : String) (ret : ℤ) → is_telling name ret ≡ true → IsRated (rate_return_value name ret)
unfolding is_telling
telling-IsRated name ret h = elim (Option-cases (lookup ret sensitive_syscalls_with_errno)) [
  | inl missing ↦ cc (rw (missing, lookup_or, contains) at h)
  | inr (names, known) ↦
      All-lookup (λ row. IsRated (rate_return_value name row.0)) sensitive_syscalls_with_errno ret
        (table-IsRated name) known
]

-- What one record adds: nothing, or one risk.
abnormal_risk-cases :
    (info : MetadataForRiskAnalysis) (name : String) (r : RunningLogMetadata)
    → AllAbout name info (abnormal_risk info name r)
      × (length (abnormal_risk info name r) ≡ (if is_telling name r.return_value then 1 else 0))
unfolding abnormal_risk
abnormal_risk-cases info name r = elim (Bool-cases (is_telling name r.return_value)) [
  | inr unlisted ↦ rw unlisted (tt, refl)
  | inl listed ↦ elim (Option-cases (rate_return_value name r.return_value)) [
    | inl unrated ↦ cc (subst IsRated unrated (telling-IsRated name r.return_value listed))
    | inr ((level, evidence), h) ↦
        let (n, m) = subst IsRated h (telling-IsRated name r.return_value listed) in
        rw listed (
          rw h (
            (
              risk_about-IsAbout name info _ _ _ (if-not_none name info _ (raised level) level m n),
              tt,
            ),
            refl,
          ))
  ]
]

pub abnormal_risks-AllAbout :
    (info : MetadataForRiskAnalysis) (name : String) (rs : List RunningLogMetadata)
    → AllAbout name info (abnormal_risks info name rs)
unfolding abnormal_risks
abnormal_risks-AllAbout info name [] = tt
abnormal_risks-AllAbout info name (r ∷ rs) =
    All-append (IsAbout name info) (abnormal_risk info name r) _ (abnormal_risk-cases info name r).0
      (abnormal_risks-AllAbout info name rs)

length-keep-cons {ℓ} :
    {A : Type ℓ} (p : A → Bool) (x : A) (xs : List A)
    → length (keep p (x ∷ xs)) ≡ (if p x then 1 else 0) + length (keep p xs)
length-keep-cons p x xs = ground arith

length-abnormal_risks :
    (info : MetadataForRiskAnalysis) (name : String) (rs : List RunningLogMetadata)
    → length (abnormal_risks info name rs) ≡ length (keep (λ r. is_telling name r.return_value) rs)
unfolding abnormal_risks
length-abnormal_risks info name [] = refl
length-abnormal_risks info name (r ∷ rs) =
    length-append (abnormal_risk info name r) (abnormal_risks info name rs)
    ∙ rw ((abnormal_risk-cases info name r).1) (
        rw (length-abnormal_risks info name rs)
          (sym (length-keep-cons (λ x. is_telling name x.return_value) r rs)))

-- checkAbnormalRetVal adds exactly one risk for each record of the syscall whose return value is
-- listed for it in sensitiveSyscallsWithErrno.
pub length-check_abnormal_ret_val :
    (overall : OverallInfo) (name : String) (risks : List Risk)
    → length (check_abnormal_ret_val overall name risks)
      ≡ length risks
        + length (
            keep
              (λ r. is_telling name r.return_value)
              (get_info_from_syscall_name overall name).running)
unfolding check_abnormal_ret_val
length-check_abnormal_ret_val overall name risks =
    let info = get_info_from_syscall_name overall name in
    length-append risks _
    ∙ ap (λ n. length risks + n) (length-abnormal_risks info name info.running)
