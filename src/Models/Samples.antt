-- ===== src/Models/Samples.antt =====
-- A context pack, a summary of coverage and findings for concrete runs.
use apex_ray.Base.{ℕ, ◌-◌, String, Bool, true, false, none, some, List, [], ◌∷◌}
use apex_ray.Models.Pack.{ContextPack, ContextPackStats}
use apex_ray.Models.Enums.{FileKind, FindingSeverity, FindingConfidence}
use apex_ray.Models.Coverage.{
  ReviewerStatus, PartialSeverity, LlmCoverageSummary, LlmReviewerCoverageSummary,
}
use apex_ray.Models.Findings.{Finding, FindingVerification}

abbrev stats : ℕ → ContextPackStats
stats chars = record {
  diff_lines = 1;
  changed_snippet_lines = 0;
  reference_snippet_lines = 0;
  callee_snippet_lines = 0;
  contract_snippet_lines = 0;
  metadata_snippet_lines = 0;
  related_test_snippet_lines = 0;
  memory_cards = 0;
  memory_chars = 0;
  estimated_chars = chars;
  truncated = false;
  truncation_notes = [];
  policy_key = "";
}

abbrev pub pack : String → String → FileKind → ℕ → ContextPack
pack id file kind chars = record {
  id = id;
  file = file;
  file_kind = kind;
  changed_lines = [];
  impact_notes = [];
  diff_snippet = [];
  changed_snippets = [];
  symbol = none;
  symbols = [];
  imports = [];
  exports = [];
  related_tests = [];
  references = [];
  callees = [];
  contracts = [];
  metadata = [];
  reference_snippets = [];
  callee_snippets = [];
  contract_snippets = [];
  metadata_snippets = [];
  related_test_snippets = [];
  risk_signals = [];
  rules = [];
  rule_matches = [];
  memory_matches = [];
  memory_omissions = [];
  reviewer = none;
  warnings = [];
  stats = stats chars;
}

abbrev reviewer : ℕ → LlmReviewerCoverageSummary
reviewer reviewed = record {
  reviewer_id = "general";
  required = true;
  status = ReviewerStatus.pass;
  reasons = [];
  matching_context_packs = 1;
  selected_context_packs = 1;
  reviewed_context_packs = reviewed;
  failed_review_runs = 0;
  failed_verify_runs = 0;
  matching_context_pack_ids = "a" ∷ [];
  selected_context_pack_ids = "a" ∷ [];
  reviewed_context_pack_ids = [];
}

abbrev pub summary : ℕ → LlmCoverageSummary
summary reviewed = record {
  enabled = true;
  verify_enabled = false;
  max_packs = 1;
  total_context_packs = 1;
  reviewed_context_packs = reviewed;
  unreviewed_context_packs = 1 - reviewed;
  high_risk_context_packs = 0;
  reviewed_high_risk_context_packs = 0;
  shallow_only_high_risk_context_pack_ids = [];
  quality_gate_status = "pass";
  quality_gate_reasons = [];
  partial_severity = PartialSeverity.none_severity;
  partial_reasons = [];
  reviewed_context_pack_ids = [];
  unreviewed_context_pack_ids = "a" ∷ [];
  pack_statuses = [];
  coverage_todos = [];
  over_budget_context_pack_ids = [];
  residual_risk_context_packs = [];
  reviewers = reviewer reviewed ∷ [];
}

abbrev pub finding : ℕ → List String → Finding
finding line reviewer_ids = record {
  title = "Index past the end";
  severity = FindingSeverity.high;
  confidence = FindingConfidence.medium;
  file = "src/a.py";
  line = some line;
  failure_mode = "fails";
  evidence = "the loop";
  suggested_fix = "stop earlier";
  suggested_test = "";
  context_pack_id = "a";
  reviewer_ids = reviewer_ids;
  reviewer_context_pack_ids = [];
}

abbrev pub verification : String → Bool → FindingVerification
verification reviewer_id approved = record {
  finding = finding 7 (reviewer_id ∷ []);
  reviewer_id = reviewer_id;
  approved = approved;
  confidence = FindingConfidence.medium;
  reason = "";
  review_snapshot_id = some "s";
  superseded = false;
  superseded_reason = none;
}
