-- ===== src/Gate.antt =====
-- The decision on a push, `evaluate_pre_push_gate` of src/apex_ray/gates.py. A reason is a value that holds what its
-- text is made of.
pub mod Blocks
mod Examples
use apex_ray.Base.{
  ℕ, ◌+◌, String, Bool, true, false, not, ◌&&◌, ◌||◌, Option, none, some, List, [], ◌∷◌, ◌++◌, map,
  if◌then◌else◌, ◌==◌, contains, filter, length, leb, eqb, truthy, string_eq, pair_eq,
}
use apex_ray.Base.Dict.{Dict, lookup, insert}
use apex_ray.Base.Sort.{sorted}
use apex_ray.Base.Text.{starts_with}
use apex_ray.Models.{
  Finding, FindingVerification, FindingSeverity, PartialSeverity, LlmCoverageSummary, LlmRun,
  ContextPack, ReviewerConfig, PrePushGateConfig,
}
use apex_ray.Runs.{EffectiveLlmPackRunState, Key, reduce_llm_pack_run_states}
use apex_ray.Reviewers.{enabled_by_id, reviewer_matches_pack}
use apex_ray.Findings.{Scanner}
use apex_ray.Findings.Provenance.{
  provenance, reviewer_origin_pack_ids, reviewer_origins_are_explicit,
}
use apex_ray.Findings.Verify.{verified_report_findings}

-- What the gate reads of a report; `reviewers` are those of its configuration.
pub record GatedReport : Type 0 where
  pub reviewers : List ReviewerConfig
  pub reviewer_scope_ids : Option (List String)
  pub llm_coverage : LlmCoverageSummary
  pub context_packs : List ContextPack
  pub findings : List Finding
  pub verifications : List FindingVerification
  pub llm_runs : List LlmRun

abbrev pub finding_severity_rank : FindingSeverity → ℕ
finding_severity_rank FindingSeverity.low = 1
finding_severity_rank FindingSeverity.medium = 2
finding_severity_rank FindingSeverity.high = 3
finding_severity_rank FindingSeverity.critical = 4

abbrev pub partial_severity_rank : PartialSeverity → ℕ
partial_severity_rank PartialSeverity.none_severity = 0
partial_severity_rank PartialSeverity.minor = 1
partial_severity_rank PartialSeverity.major = 2
partial_severity_rank PartialSeverity.critical = 3

pub data Reason : Type 0 where
  blocking_findings : ℕ → FindingSeverity → Reason
  quality_gate_failed : List String → Reason
  review_run_failures : List (String × ℕ) → Reason
  partial_coverage : PartialSeverity → List String → Reason

pub record PrePushGateDecision : Type 0 where
  pub blocked : Bool
  pub reasons : List Reason
  pub blocking : List Finding
  pub quality_failed : Bool
  pub partial_blocked : Bool

unfoldable pub partial_severity_blocks : PartialSeverity → Option PartialSeverity → Bool
partial_severity_blocks current none = false
partial_severity_blocks current (some PartialSeverity.none_severity) = false
partial_severity_blocks current (some PartialSeverity.minor) = leb 1 (partial_severity_rank current)
partial_severity_blocks current (some PartialSeverity.major) = leb 2 (partial_severity_rank current)
partial_severity_blocks current (some PartialSeverity.critical) =
    leb 3 (partial_severity_rank current)

abbrev is_failed_review : LlmRun → Bool
is_failed_review run =
    (run.kind == "review" || run.kind == "review_shallow") && starts_with "failed_" run.status

abbrev one_more : Option ℕ → ℕ
one_more none = 1
one_more (some n) = n + 1

-- `Counter(...)`
unfoldable pub count_statuses : Dict String ℕ → List LlmRun → Dict String ℕ
count_statuses counts [] = counts
count_statuses counts (run ∷ runs) =
    count_statuses
      (if is_failed_review run
        then insert run.status (one_more (lookup run.status counts)) counts
        else counts)
      runs

abbrev find_pack : String → List ContextPack → Option ContextPack
find_pack id [] = none
find_pack id (p ∷ ps) = if p.id == id then some p else find_pack id ps

abbrev ids_match : List String → List String → Bool
ids_match [] ys = false
ids_match (x ∷ xs) ys = contains x ys || ids_match xs ys

abbrev is_clean : Option LlmRun → Bool
is_clean none = false
is_clean (some run) = (run.status == "ok") && eqb run.findings_count 0

abbrev clean_state : Option EffectiveLlmPackRunState → Bool
clean_state none = false
clean_state (some state) = is_clean state.review

abbrev all_clean : Dict Key EffectiveLlmPackRunState → String → List String → Bool
all_clean states reviewer_id [] = true
all_clean states reviewer_id (id ∷ ids) =
    clean_state (lookup (reviewer_id, id) states) && all_clean states reviewer_id ids

abbrev out_of_scope : Option (List String) → String → Bool
out_of_scope none reviewer_id = false
out_of_scope (some ids) reviewer_id = not (contains reviewer_id ids)

module _ (fnmatchcase : String → String → Bool) where
  abbrev pack_matches : ReviewerConfig → Option ContextPack → Bool
  pack_matches reviewer none = false
  pack_matches reviewer (some pack) = reviewer_matches_pack fnmatchcase reviewer pack

  abbrev matching_pack_ids : ReviewerConfig → List ContextPack → List String
  matching_pack_ids reviewer packs =
      map (λ p. p.id) (filter (reviewer_matches_pack fnmatchcase reviewer) packs)

  -- Whether an enabled reviewer of the scope still answers for the finding: its origins or its pack are the
  -- reviewer's, or the reviewer's packs were not all reviewed clean.
  abbrev reviewer_answers : GatedReport → Finding → String → ReviewerConfig → Bool
  reviewer_answers report finding reviewer_id reviewer =
      let ids = matching_pack_ids reviewer report.context_packs in
      if out_of_scope report.reviewer_scope_ids reviewer_id
      then false
      else if reviewer_origins_are_explicit finding reviewer_id
      then ids_match (reviewer_origin_pack_ids finding reviewer_id) ids
      else if pack_matches reviewer (find_pack finding.context_pack_id report.context_packs)
      then true
      else truthy ids
        && not (all_clean (reduce_llm_pack_run_states report.llm_runs) reviewer_id ids)

  abbrev answers_as : GatedReport → Finding → String → Option ReviewerConfig → Bool
  answers_as report finding reviewer_id none = true
  answers_as report finding reviewer_id (some reviewer) =
      reviewer_answers report finding reviewer_id reviewer

  -- The loop over the provenance.
  unfoldable pub any_answers : GatedReport → Finding → List String → Bool
  any_answers report finding [] = false
  any_answers report finding (reviewer_id ∷ ids) =
      let rest = any_answers report finding ids in
      answers_as report finding reviewer_id (lookup reviewer_id (enabled_by_id report.reviewers))
      || rest

  unfoldable pub legacy_finding_is_in_current_reviewer_scope : GatedReport → Finding → Bool
  legacy_finding_is_in_current_reviewer_scope report finding =
      any_answers report finding (provenance finding)

  module _ (scan : Scanner) (status_le : String × ℕ → String × ℕ → Bool) where
    unfoldable pub eligible_findings : GatedReport → PrePushGateConfig → List Finding
    eligible_findings report config =
        if not config.require_verified_findings
        then filter (legacy_finding_is_in_current_reviewer_scope report) report.findings
        else verified_report_findings scan report.findings report.verifications

    abbrev pub at_least : FindingSeverity → List Finding → List Finding
    at_least severity findings =
        filter (λ f. leb (finding_severity_rank severity) (finding_severity_rank f.severity))
          findings

    abbrev pub findings_over : Option FindingSeverity → List Finding → List Finding
    findings_over none findings = []
    findings_over (some severity) findings = at_least severity findings

    abbrev pub finding_reasons : Option FindingSeverity → List Finding → List Reason
    finding_reasons none findings = []
    finding_reasons (some severity) [] = []
    finding_reasons (some severity) (f ∷ fs) = blocking_findings (length (f ∷ fs)) severity ∷ []

    abbrev pub failure_reasons : List (String × ℕ) → List Reason
    failure_reasons [] = []
    failure_reasons (c ∷ cs) = review_run_failures (c ∷ cs) ∷ []

    abbrev pub quality_reasons : GatedReport → Bool → List Reason
    quality_reasons report false = []
    quality_reasons report true =
        quality_gate_failed report.llm_coverage.quality_gate_reasons
        ∷ failure_reasons (sorted status_le (count_statuses [] report.llm_runs))

    abbrev pub partial_reasons : GatedReport → Bool → List Reason
    partial_reasons report false = []
    partial_reasons report true =
        partial_coverage report.llm_coverage.partial_severity report.llm_coverage.partial_reasons
        ∷ []

    unfoldable pub evaluate_pre_push_gate : GatedReport → PrePushGateConfig → PrePushGateDecision
    evaluate_pre_push_gate report config =
        let found = findings_over config.min_finding_severity (eligible_findings report config) in
        let failed =
          config.fail_on_quality_gate && (report.llm_coverage.quality_gate_status == "fail") in
        let partial =
          partial_severity_blocks report.llm_coverage.partial_severity
            config.fail_on_partial_severity in
        let reasons =
          finding_reasons config.min_finding_severity found
          ++ (quality_reasons report failed ++ partial_reasons report partial) in
        record {
          blocked = truthy reasons;
          reasons = reasons;
          blocking = found;
          quality_failed = failed;
          partial_blocked = partial;
        }
