-- ===== src/Models/Enums.antt =====
-- The enumerations of src/apex_ray/models.py.
use apex_ray.Base.{Eq}

pub data TargetMode : Type 0 where
  base staged worktree patch : TargetMode

pub data FileStatus : Type 0 where
  added modified deleted renamed copied : FileStatus

pub data FileKind : Type 0 where
  source test config migration schema dependency : FileKind
  lockfile docs generated vendored unknown : FileKind

pub data DiffLineKind : Type 0 where
  context add delete : DiffLineKind

pub data RiskSeverity : Type 0 where
  critical high medium low : RiskSeverity

pub data LlmCoverageMode : Type 0 where
  fast balanced exhaustive : LlmCoverageMode

pub data FindingSeverity : Type 0 where
  critical high medium low : FindingSeverity

pub data FindingConfidence : Type 0 where
  high medium low : FindingConfidence

pub data RuleMode : Type 0 where
  advisory strict : RuleMode

pub data MemoryKind : Type 0 where
  invariant bug_pattern false_positive severity_calibration glossary : MemoryKind

-- The priorities "p0", "p1" and "p2" of a pack.
pub data Priority : Type 0 where
  p0 p1 p2 : Priority

-- The review depths "deep" and "shallow" of a pack.
pub data PackDepth : Type 0 where
  deep shallow : PackDepth

-- Equality of enumeration values.
FileStatus-discrete : Discrete FileStatus
FileStatus-discrete = hlevel

instance unfoldable pub file_status_eq : Eq FileStatus
unfolding FileStatus-discrete
file_status_eq = record { dec = FileStatus-discrete }

FileKind-discrete : Discrete FileKind
FileKind-discrete = hlevel

instance unfoldable pub file_kind_eq : Eq FileKind
unfolding FileKind-discrete
file_kind_eq = record { dec = FileKind-discrete }

DiffLineKind-discrete : Discrete DiffLineKind
DiffLineKind-discrete = hlevel

instance unfoldable pub diff_line_kind_eq : Eq DiffLineKind
unfolding DiffLineKind-discrete
diff_line_kind_eq = record { dec = DiffLineKind-discrete }

RiskSeverity-discrete : Discrete RiskSeverity
RiskSeverity-discrete = hlevel

instance unfoldable pub risk_severity_eq : Eq RiskSeverity
unfolding RiskSeverity-discrete
risk_severity_eq = record { dec = RiskSeverity-discrete }

FindingSeverity-discrete : Discrete FindingSeverity
FindingSeverity-discrete = hlevel

instance unfoldable pub finding_severity_eq : Eq FindingSeverity
unfolding FindingSeverity-discrete
finding_severity_eq = record { dec = FindingSeverity-discrete }

FindingConfidence-discrete : Discrete FindingConfidence
FindingConfidence-discrete = hlevel

instance unfoldable pub finding_confidence_eq : Eq FindingConfidence
unfolding FindingConfidence-discrete
finding_confidence_eq = record { dec = FindingConfidence-discrete }

RuleMode-discrete : Discrete RuleMode
RuleMode-discrete = hlevel

instance unfoldable pub rule_mode_eq : Eq RuleMode
unfolding RuleMode-discrete
rule_mode_eq = record { dec = RuleMode-discrete }

LlmCoverageMode-discrete : Discrete LlmCoverageMode
LlmCoverageMode-discrete = hlevel

instance unfoldable pub coverage_mode_eq : Eq LlmCoverageMode
unfolding LlmCoverageMode-discrete
coverage_mode_eq = record { dec = LlmCoverageMode-discrete }

Priority-discrete : Discrete Priority
Priority-discrete = hlevel

instance unfoldable pub priority_eq : Eq Priority
unfolding Priority-discrete
priority_eq = record { dec = Priority-discrete }
