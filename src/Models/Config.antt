-- ===== src/Models/Config.antt =====
-- The parts of the configuration that the modelled operations read, of src/apex_ray/models.py.
use apex_ray.Base.{ℕ, String, Bool, Option, List}
use apex_ray.Models.Enums.{FileKind, FileStatus, FindingSeverity, RiskSeverity, LlmCoverageMode}
use apex_ray.Models.Coverage.{PartialSeverity}

pub record ContextConfig : Type 0 where
  pub max_changed_snippets : ℕ
  pub max_changed_snippet_lines : ℕ
  pub max_hunk_snippets : ℕ
  pub hunk_context_lines : ℕ
  pub max_reference_snippets : ℕ
  pub reference_snippet_context_lines : ℕ
  pub max_related_test_snippets : ℕ
  pub max_related_test_snippet_lines : ℕ
  pub max_pack_chars : ℕ

pub record RiskRule : Type 0 where
  pub id : String
  pub title : String
  pub severity : RiskSeverity
  pub score : Option ℕ
  pub paths : List String
  pub exclude_paths : List String
  pub languages : List String
  pub file_kinds : List FileKind
  pub statuses : List FileStatus
  pub text : List String
  pub risk : List String
  pub categories : List String
  pub reviewer_tags : List String
  pub guidance : String

pub record RiskConfig : Type 0 where
  pub built_in_enabled : Bool
  pub rules : List RiskRule

pub data ReviewDepth : Type 0 where
  balanced deep shallow : ReviewDepth

pub record ReviewerConfig : Type 0 where
  pub id : String
  pub name : String
  pub enabled : Bool
  pub focus : String
  pub instructions : List String
  pub paths : List String
  pub exclude_paths : List String
  pub file_kinds : List FileKind
  pub risk : List String
  pub risk_tags : List String
  pub profile : Option String
  pub verify_profile : Option String
  pub coverage_mode : Option LlmCoverageMode
  pub review_depth : ReviewDepth
  pub max_packs : Option ℕ
  pub max_deep_packs : Option ℕ
  pub max_input_tokens : Option ℕ
  pub verify : Option Bool
  pub required : Bool

pub record TriageConfig : Type 0 where
  pub enabled : Bool
  pub state_path : String
  pub events_path : String
  pub default_expiry_days : ℕ
  pub max_active_suppressions : ℕ
  pub events_retention_days : Option ℕ

pub record PrePushGateConfig : Type 0 where
  pub enabled : Bool
  pub min_finding_severity : Option FindingSeverity
  pub require_verified_findings : Bool
  pub fail_on_quality_gate : Bool
  pub fail_on_partial_severity : Option PartialSeverity
