-- ===== src/Models.antt =====
-- The data model, src/apex_ray/models.py: the records that pass between the parts of a review.
-- A float (a cost, a ratio) is no field here, since no modelled operation reads one, and neither is a
-- field that only reports print. Paths, ids and texts are strings; counts and line numbers naturals.
mod Enums
mod Diff
mod Pack
mod Findings
mod Runs
mod Coverage
mod Config
mod Selection
mod Llm
pub mod Samples
pub use Enums.*
pub use Diff.*
pub use Pack.*
pub use Findings.*
pub use Runs.*
pub use Coverage.*
pub use Config.*
pub use Selection.*
pub use Llm.*
unfoldable pub use Llm.{provider_eq}
unfoldable pub use Enums.{
  file_status_eq, file_kind_eq, diff_line_kind_eq, risk_severity_eq, finding_severity_eq,
  finding_confidence_eq, rule_mode_eq, coverage_mode_eq, priority_eq,
}
unfoldable pub use Coverage.{reviewer_status_eq, partial_severity_eq, completion_status_eq}
