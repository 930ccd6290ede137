-- ===== src/Coverage.antt =====
-- When a review is complete: the computed `completion_status` of src/apex_ray/models.py, and for a scope of
-- reviewers `coverage_is_complete` and `_pending_context_pack_ids` of src/apex_ray/pipeline/coverage.py.
pub mod Drain
pub mod Program
mod Examples
use apex_ray.Base.{
  ℕ, zero, suc, ◌+◌, String, Bool, true, false, not, ◌&&◌, ◌||◌, Option, none, some, List, [], ◌∷◌,
  ◌++◌, map, if◌then◌else◌, ◌==◌, eqb, leb, ltb, length, filter, any, all, truthy, contains, sum_by,
  string_eq, option_eq,
}
use apex_ray.Base.Dict.{Dict, lookup, insert}
use apex_ray.Base.Sort.{sorted}
use apex_ray.Base.Text.{starts_with}
use apex_ray.Models.{
  ContextPack, ReviewerStatus, reviewer_status_eq, PartialSeverity, partial_severity_eq,
  CompletionStatus, completion_status_eq, LlmCoverageSummary, LlmReviewerCoverageSummary,
  LlmPackReviewStatus, LlmCoverageTodo,
}

abbrev pub has_assignment_debt : LlmReviewerCoverageSummary → Bool
has_assignment_debt r = ltb r.reviewed_context_packs r.matching_context_packs

abbrev pub has_status_debt : LlmReviewerCoverageSummary → Bool
has_status_debt r = r.status == ReviewerStatus.warn || r.status == ReviewerStatus.fail

abbrev pub has_required_failure : LlmReviewerCoverageSummary → Bool
has_required_failure r = r.required && r.status == ReviewerStatus.fail

abbrev pub has_failed_run : LlmReviewerCoverageSummary → Bool
has_failed_run r = not (eqb r.failed_review_runs 0) || not (eqb r.failed_verify_runs 0)

abbrev pub has_failed : LlmPackReviewStatus → Bool
has_failed s = starts_with "failed_" s.status

-- `completion_status`
unfoldable pub completion_status : LlmCoverageSummary → CompletionStatus
completion_status c =
    if not c.enabled
    then CompletionStatus.disabled
    else if any has_failed c.pack_statuses
        || any has_failed_run c.reviewers
        || truthy c.over_budget_context_pack_ids
        || any has_required_failure c.reviewers
    then CompletionStatus.incomplete
    else if eqb c.unreviewed_context_packs 0
        && c.partial_severity == PartialSeverity.none_severity
        && not (any has_assignment_debt c.reviewers)
        && not (any has_status_debt c.reviewers)
    then CompletionStatus.complete
    else CompletionStatus.partial

-- The parts of a report that the completion of its coverage reads.
pub record ReviewReport : Type 0 where
  pub context_packs : List ContextPack
  pub llm_coverage : LlmCoverageSummary
  pub reviewer_scope_ids : Option (List String)

-- `{summary.reviewer_id: summary for summary in coverage.reviewers}`
unfoldable pub summaries_by_id :
    Dict String LlmReviewerCoverageSummary
    → List LlmReviewerCoverageSummary
    → Dict String LlmReviewerCoverageSummary
summaries_by_id summaries [] = summaries
summaries_by_id summaries (s ∷ rest) = summaries_by_id (insert s.reviewer_id s summaries) rest

-- The tests on one reviewer's summary; a missing summary fails.
unfoldable pub reviewer_is_complete : Option LlmReviewerCoverageSummary → Bool
reviewer_is_complete none = false
reviewer_is_complete (some s) =
    eqb s.reviewed_context_packs s.matching_context_packs
    && (s.status == ReviewerStatus.pass || s.status == ReviewerStatus.not_applicable)

-- The reviewer's matching packs are none of those that had only a shallow review.
abbrev has_shallow_debt : List String → Option LlmReviewerCoverageSummary → Bool
has_shallow_debt shallow_only none = false
has_shallow_debt shallow_only (some s) =
    any (λ i. contains i shallow_only) s.matching_context_pack_ids

unfoldable pub coverage_is_complete : ReviewReport → Option (List String) → Bool
coverage_is_complete report none =
    completion_status report.llm_coverage == CompletionStatus.complete
coverage_is_complete report (some reviewer_ids) =
    let coverage = report.llm_coverage in
    let summaries = summaries_by_id [] coverage.reviewers in
    coverage.enabled
    && all (λ i. reviewer_is_complete (lookup i summaries)) reviewer_ids
    && not (
        any
          (λ i.
            has_shallow_debt coverage.shallow_only_high_risk_context_pack_ids (lookup i summaries))
          reviewer_ids)

-- `set(reviewer_ids or [])`
abbrev pub targets : Option (List String) → List String
targets none = []
targets (some ids) = ids

abbrev pub scoped_summaries :
    List String → List LlmReviewerCoverageSummary → List LlmReviewerCoverageSummary
scoped_summaries target summaries =
    filter (λ s. not (truthy target) || contains s.reviewer_id target) summaries

abbrev concat_map {ℓ} : {A : Type ℓ} → (A → List String) → List A → List String
concat_map f [] = []
concat_map f (x ∷ xs) = f x ++ concat_map f xs

abbrev pub is_in_scope : List String → Option String → Bool
is_in_scope target none = true
is_in_scope target (some reviewer_id) = contains reviewer_id target

abbrev pub is_some_id : Option String → Bool
is_some_id none = false
is_some_id (some _) = true

-- The casefolded substring test on a todo's reason is a parameter.
module _ (mentions_verification : String → Bool) where
  -- The guards of the loop over the todos.
  unfoldable pub todo_is_pending : List String → List String → List String → LlmCoverageTodo → Bool
  todo_is_pending target matching_scope reviewed todo =
      not (truthy target && not (is_in_scope target todo.reviewer_id))
      && not (truthy target && not (contains todo.context_pack_id matching_scope))
      && (not (contains todo.context_pack_id reviewed)
          || is_some_id todo.reviewer_id
          || mentions_verification todo.reason)

  -- The set `pending`, as a list that may name a pack more than once.
  unfoldable pub pending_ids : LlmCoverageSummary → List String → List String
  pending_ids coverage target =
      let summaries = scoped_summaries target coverage.reviewers in
      let matching_scope = concat_map (λ s. s.matching_context_pack_ids) summaries in
      let shallow_only = coverage.shallow_only_high_risk_context_pack_ids in
      let todos =
        filter (todo_is_pending target matching_scope coverage.reviewed_context_pack_ids)
          coverage.coverage_todos in
      (if truthy target
        then filter (λ i. contains i matching_scope) shallow_only
        else coverage.unreviewed_context_pack_ids ++ shallow_only)
      ++ concat_map
          (λ s.
            filter (λ i. not (contains i s.reviewed_context_pack_ids)) s.matching_context_pack_ids)
          summaries
      ++ map (λ t. t.context_pack_id) todos
