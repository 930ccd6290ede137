-- ===== src/Gate/Examples.antt =====
-- The gate at a concrete report.
use apex_ray.Base.{
  ℕ, ◌≡◌, ◌⊎◌, ◌↔◌, String, Bool, true, false, none, some, [], ◌∷◌, ◌==◌, string_eq,
}
use apex_ray.Models.{PrePushGateConfig, FindingSeverity, PartialSeverity}
use apex_ray.Models.Samples.{summary, finding}
use apex_ray.Findings.Samples.{scan}
use apex_ray.Gate.{GatedReport, eligible_findings, evaluate_pre_push_gate}
use apex_ray.Gate.Blocks.{SeverityBlocks, PartialBlocks, evaluate_pre_push_gate-Blocks}

abbrev literally : String → String → Bool
literally path pattern = path == pattern

abbrev in_order : String × ℕ → String × ℕ → Bool
in_order a b = true

abbrev report : GatedReport
report = record {
  reviewers = [];
  reviewer_scope_ids = none;
  llm_coverage = summary 1;
  context_packs = [];
  findings = finding 7 ("removed" ∷ []) ∷ [];
  verifications = [];
  llm_runs = [];
}

abbrev config : PrePushGateConfig
config = record {
  enabled = true;
  min_finding_severity = some FindingSeverity.medium;
  require_verified_findings = false;
  fail_on_quality_gate = true;
  fail_on_partial_severity = some PartialSeverity.critical;
}

evaluate_pre_push_gate-Blocks_example :
    ((evaluate_pre_push_gate literally scan in_order report config).blocked ≡ true) ↔ (
      SeverityBlocks
        (eligible_findings literally scan in_order report config)
        (some FindingSeverity.medium)
      ⊎ (((true ≡ true) × (◌≡◌ {A = String} "pass" "fail"))
          ⊎ PartialBlocks PartialSeverity.none_severity (some PartialSeverity.critical)))
evaluate_pre_push_gate-Blocks_example =
    evaluate_pre_push_gate-Blocks literally scan in_order report config
