-- ===== src/Risk/Level.antt =====
-- risk.go: RiskLevel and Risk.
use syscap.Base.{ℕ, String, ℤ, Bytes}
use syscap.Monitor.Records.{RunningLogMetadata, MetadataForRiskAnalysis}

-- In the order of the constants: the lower, the more dangerous.
pub data RiskLevel : Type 0 where
  critical high low none : RiskLevel

-- RiskLevel.String
unfoldable pub level_text : RiskLevel → String
level_text critical = "critical"
level_text high = "high"
level_text low = "low"
level_text none = "none"

-- The constant's number.
abbrev pub rank : RiskLevel → ℕ
rank critical = 0
rank high = 1
rank low = 2
rank none = 3

-- `max(0, riskLevel-1)`
unfoldable pub raised : RiskLevel → RiskLevel
raised critical = critical
raised high = critical
raised low = high
raised none = low

-- The evidence text before fmt.Sprintf: a constructor for each format, with its operands.
pub data Evidence : Type 0 where
  -- "syscall %s is sensitive in normal containers"
  sensitive_call : String → Evidence
  -- "pid=%d tid=%d comm=%q duration=%s ret=%d syscall=%s matched=%q reason=%q args=(%s)"
  matched : RunningLogMetadata → String → String → Bytes → Evidence
  -- "Totally count: %d, failing count: %d"
  failing : ℕ → ℕ → Evidence
  -- "P50Delay=%d, P99Delay=%d"
  delays : ℤ → ℤ → Evidence
  -- "syscall %s with return value %d(…) …", one text for each group of error numbers
  breaks_border : String → ℤ → Evidence
  failed_file_operation : String → ℤ → Evidence
  exhausts_resource : String → ℤ → Evidence
  net_issue : String → ℤ → Evidence

pub record Risk : Type 0 where
  pub risk_level : RiskLevel
  pub risk_category : String
  pub related_syscall : String
  pub evidence : Evidence
  pub snapshot : MetadataForRiskAnalysis
