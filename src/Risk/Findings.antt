-- ===== src/Risk/Findings.antt =====
-- risk.go: what holds of all findings, and when a check finds something.
use syscap.Base.{
  Bool, true, false, String, List, [], ◌∷◌, ◌++◌, if◌then◌else◌, ◌≡◌, ◌≢◌, refl, inl, inr,
  Bool-cases, string_eq, int_has_eq, All, All-append,
}
use syscap.Monitor.Records.{RunningLogMetadata, MetadataForRiskAnalysis}
use syscap.Risk.Collect.{check_running, check_all_running, with_delay_risk}
use syscap.Risk.Level.{RiskLevel, critical, high, low, Risk, Evidence}
use syscap.Risk.Pattern.{SensitiveArgRule, match_string}

-- A finding about this syscall, with this snapshot.
pub record IsAbout (name : String) (info : MetadataForRiskAnalysis) (r : Risk) : Type 0 where
  pub related_syscall : r.related_syscall ≡ name
  pub snapshot : r.snapshot ≡ info
  pub risk_level : r.risk_level ≢ RiskLevel.none

module _ (name : String) (info : MetadataForRiskAnalysis) where
  abbrev pub AllAbout : List Risk → Type 0
  AllAbout = All (IsAbout name info)

  abbrev pub risk_about : RiskLevel → String → Evidence → Risk
  risk_about level category evidence = record {
    risk_level = level;
    risk_category = category;
    related_syscall = name;
    evidence = evidence;
    snapshot = info;
  }

  pub risk_about-IsAbout :
      (level : RiskLevel) (category : String) (evidence : Evidence)
      → level ≢ RiskLevel.none
      → IsAbout name info (risk_about level category evidence)
  risk_about-IsAbout level category evidence h = record {
    related_syscall = refl;
    snapshot = refl;
    risk_level = h;
  }

  pub one_more :
      (level : RiskLevel) (category : String) (evidence : Evidence) (risks : List Risk)
      → level ≢ RiskLevel.none
      → AllAbout risks
      → AllAbout (risks ++ (risk_about level category evidence ∷ []))
  one_more level category evidence risks n h =
      All-append (IsAbout name info) risks _ h (risk_about-IsAbout level category evidence n, tt)

  pub delay-AllAbout :
      (level : RiskLevel) (risks : List Risk)
      → AllAbout risks
      → AllAbout (with_delay_risk info name level risks)
  unfolding with_delay_risk
  delay-AllAbout critical risks h = one_more critical _ _ risks (λ e. cc) h
  delay-AllAbout high risks h = one_more high _ _ risks (λ e. cc) h
  delay-AllAbout low risks h = one_more low _ _ risks (λ e. cc) h
  delay-AllAbout RiskLevel.none risks h = h

  pub if-not_none :
      (b : Bool) (x y : RiskLevel)
      → x ≢ RiskLevel.none
      → y ≢ RiskLevel.none
      → (if b then x else y) ≢ RiskLevel.none
  if-not_none true x y hx hy = hx
  if-not_none false x y hx hy = hy

  running-AllAbout :
      (r : RunningLogMetadata) (conds : List SensitiveArgRule)
      → AllAbout (check_running info name r conds)
  unfolding check_running
  running-AllAbout r [] = tt
  running-AllAbout r (cond ∷ conds) = elim (Bool-cases (match_string cond r.arguments)) [
    | inl e ↦ rw e (
      risk_about-IsAbout _ _ _ (if-not_none _ critical high (λ e. cc) (λ e. cc)),
      running-AllAbout r conds,
    )
    | inr e ↦ rw e (running-AllAbout r conds)
  ]

  pub all_running-AllAbout :
      (conds : List SensitiveArgRule) (rs : List RunningLogMetadata)
      → AllAbout (check_all_running info name conds rs)
  unfolding check_all_running
  all_running-AllAbout conds [] = tt
  all_running-AllAbout conds (r ∷ rs) =
      All-append (IsAbout name info) (check_running info name r conds) _ (running-AllAbout r conds)
        (all_running-AllAbout conds rs)
