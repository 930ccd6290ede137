-- ===== src/Coverage/Drain.antt =====
-- The loop that drains a scope of reviewers in bounded batches, `continue_review_until_complete` of
-- src/apex_ray/pipeline/coverage.py. The two calls of `continue_review_from_report`, which runs language
-- models, and the validation of the input snapshot, which reads the repository, are parameters; each may
-- raise. The callback on a batch,
-- which returns nothing, is left out.
pub mod Outcomes
pub mod Total
use apex_ray.Base.{
  ℕ, zero, suc, ◌+◌, ◌-◌, String, Bool, true, false, not, ◌&&◌, ◌||◌, Option, none, some, List, [],
  ◌∷◌, ◌++◌, map, if◌then◌else◌, ◌==◌, eqb, leb, ltb, length, take, filter, any, all, truthy,
  contains, sum_by, string_eq,
}
use apex_ray.Base.Dict.{Dict, lookup, insert}
use apex_ray.Base.Sort.{sorted}
use apex_ray.Models.{
  ContextPack, LlmCoverageSummary, LlmReviewerCoverageSummary, LlmCoverageTodo,
  LlmResidualRiskSummary,
}
use apex_ray.Coverage.{
  ReviewReport, coverage_is_complete, pending_ids, targets, scoped_summaries, summaries_by_id,
}

-- What a call returns, or the message of the exception that it raises.
pub data Result (A : Type 0) : Type 0 where
  raised : String → Result A
  returned : A → Result A

pub data StopReason : Type 0 where
  complete no_eligible_work no_progress max_batches : StopReason

pub record CoverageDrainResult : Type 0 where
  pub report : ReviewReport
  pub is_complete : Bool
  pub batches : ℕ
  pub stop_reason : StopReason

-- `_priority_rank`
unfoldable pub priority_rank : String → ℕ
priority_rank p = if p == "p0" then 0 else if p == "p1" then 1 else if p == "p2" then 2 else 9

-- `priority_by_pack_id`: the residual priorities, then the todos' where these rank before.
unfoldable pub residual_priorities :
    Dict String String → List LlmResidualRiskSummary → Dict String String
residual_priorities d [] = d
residual_priorities d (r ∷ rest) = residual_priorities (insert r.context_pack_id r.priority d) rest

abbrev ranks_before : String → Option String → Bool
ranks_before p none = true
ranks_before p (some current) = ltb (priority_rank p) (priority_rank current)

unfoldable pub todo_priorities : Dict String String → List LlmCoverageTodo → Dict String String
todo_priorities d [] = d
todo_priorities d (t ∷ rest) =
    todo_priorities
      (if ranks_before t.priority (lookup t.context_pack_id d)
        then insert t.context_pack_id t.priority d
        else d)
      rest

-- `order_by_pack_id`
unfoldable pub pack_order : Dict String ℕ → ℕ → List ContextPack → Dict String ℕ
pack_order d i [] = d
pack_order d i (p ∷ packs) = pack_order (insert p.id i d) (suc i) packs

abbrev or_default {ℓ} : {A : Type ℓ} → A → Option A → A
or_default d none = d
or_default d (some a) = a

-- Each id once, where it stands last.
abbrev distinct_ids : List String → List String
distinct_ids [] = []
distinct_ids (i ∷ ids) = let rest = distinct_ids ids in if contains i ids then rest else i ∷ rest

-- The four numbers of `_coverage_progress_key`; two of them are differences in the source.
pub record Progress : Type 0 where
  pub reviewed : ℕ
  pub assignments : ℕ
  pub reviewed_high_risk : ℕ
  pub shallow_high_risk : ℕ
  pub pending : ℕ

-- `after <= before`, in the order of tuples of integers.
unfoldable pub progress_le : Progress → Progress → Bool
progress_le after before =
    if ltb after.reviewed before.reviewed
    then true
    else if ltb before.reviewed after.reviewed
    then false
    else if ltb after.assignments before.assignments
    then true
    else if ltb before.assignments after.assignments
    then false
    else if ltb (after.reviewed_high_risk + before.shallow_high_risk)
        (before.reviewed_high_risk + after.shallow_high_risk)
    then true
    else if ltb (before.reviewed_high_risk + after.shallow_high_risk)
        (after.reviewed_high_risk + before.shallow_high_risk)
    then false
    else leb before.pending after.pending

-- The arguments of `continue_review_from_report` that change from batch to batch.
pub record Batch : Type 0 where
  pub pack_ids : List String
  pub force_review_pack_ids : List String
  pub reviewer_ids : Option (List String)

-- What the loop calls, and the arguments that stay the same.
pub record Services : Type 0 where
  pub id_le : String → String → Bool
  pub mentions_verification : String → Bool
  pub validate : ReviewReport → Option String
  pub continue_review : Batch → ReviewReport → Result ReviewReport
  pub rebase : ReviewReport → Result ReviewReport
  pub config_changed : ReviewReport → Bool
  pub reviewer_ids : Option (List String)
  pub batch_size : ℕ

module _ (services : Services) where
  -- The sort key `(rank, order, pack_id)`.
  unfoldable pub pending_le : ReviewReport → String → String → Bool
  pending_le report a b =
      let coverage = report.llm_coverage in
      let priorities =
        todo_priorities (residual_priorities [] coverage.residual_risk_context_packs)
          coverage.coverage_todos in
      let orders = pack_order [] 0 report.context_packs in
      let rank : String → ℕ = λ i. priority_rank (or_default "p2" (lookup i priorities)) in
      let order : String → ℕ = λ i. or_default (length orders) (lookup i orders) in
      if eqb (rank a) (rank b)
      then if eqb (order a) (order b) then services.id_le a b else ltb (order a) (order b)
      else ltb (rank a) (rank b)

  -- `_pending_context_pack_ids`
  unfoldable pub pending_context_pack_ids : ReviewReport → List String
  pending_context_pack_ids report = sorted (pending_le report) (
      distinct_ids (
        pending_ids services.mentions_verification report.llm_coverage
          (targets services.reviewer_ids)))

  -- `_coverage_progress_key`
  unfoldable pub progress_key : ReviewReport → Progress
  progress_key report =
      let coverage = report.llm_coverage in
      record {
        reviewed = coverage.reviewed_context_packs;
        assignments =
            sum_by (λ s. s.reviewed_context_packs)
              (scoped_summaries (targets services.reviewer_ids) coverage.reviewers);
        reviewed_high_risk = coverage.reviewed_high_risk_context_packs;
        shallow_high_risk = length coverage.shallow_only_high_risk_context_pack_ids;
        pending = length (pending_context_pack_ids report);
      }

  -- `_completion_scope_needs_rebase`
  unfoldable pub needs_rebase : ReviewReport → Bool
  needs_rebase report = services.config_changed report || (elim services.reviewer_ids [
    | none ↦ false
    | some requested ↦
        not
          (all (λ i. contains i (map (λ s. s.reviewer_id) report.llm_coverage.reviewers)) requested)
        || (elim report.reviewer_scope_ids [
          | none ↦ false
          | some scope ↦ not (all (λ i. contains i scope) requested)
        ])
  ])

  -- The summaries of the given reviewers whose matching packs include the pack.
  unfoldable pub matching_summaries :
      Dict String LlmReviewerCoverageSummary
      → String
      → List String
      → List LlmReviewerCoverageSummary
  matching_summaries summaries pack_id [] = []
  matching_summaries summaries pack_id (i ∷ ids) =
      let rest = matching_summaries summaries pack_id ids in
      elim (lookup i summaries) [
        | none ↦ rest
        | some s ↦ if contains pack_id s.matching_context_pack_ids then s ∷ rest else rest
      ]

  -- The loop of `_single_reviewer_depth_upgrade` over the pending packs.
  unfoldable pub depth_upgrade_from :
      ReviewReport
      → List String
      → List String
      → List String
      → List String
      → Option (List String × String)
  depth_upgrade_from report pending force reviewer_ids [] = none
  depth_upgrade_from report pending force reviewer_ids (pack_id ∷ rest) =
      let summaries = summaries_by_id [] report.llm_coverage.reviewers in
      let later = depth_upgrade_from report pending force reviewer_ids rest in
      if not (contains pack_id force)
      then later
      else (elim (matching_summaries summaries pack_id reviewer_ids) [
        | [] ↦ later
        | s ∷ others ↦
            if any (λ r. not (contains pack_id r.reviewed_context_pack_ids)) (s ∷ others)
            then later
            else some (
              take services.batch_size (
                  filter (λ i. contains i force && contains i s.matching_context_pack_ids) pending),
              s.reviewer_id,
            )
      ])

  -- `_single_reviewer_depth_upgrade`
  unfoldable pub depth_upgrade :
      ReviewReport → List String → List String → Option (List String × String)
  depth_upgrade report pending force = elim services.reviewer_ids [
    | none ↦ none
    | some ids ↦
        if not (truthy force) || ltb (length ids) 2
        then none
        else depth_upgrade_from report pending force ids pending
  ]

  -- What the batch reviews.
  unfoldable pub next_batch : ReviewReport → List String → Batch
  next_batch report pending =
      let shallow_only = report.llm_coverage.shallow_only_high_risk_context_pack_ids in
      let force = filter (λ i. contains i shallow_only) pending in
      elim (depth_upgrade report pending force) [
        | none ↦ record {
          pack_ids = pending;
          force_review_pack_ids = force;
          reviewer_ids = services.reviewer_ids;
        }
        | some (packs, reviewer) ↦ record {
          pack_ids = packs;
          force_review_pack_ids = filter (λ i. contains i packs) force;
          reviewer_ids = some (reviewer ∷ []);
        }
      ]

  abbrev pub stopped : ReviewReport → Bool → ℕ → StopReason → Result CoverageDrainResult
  stopped report is_complete batches reason = returned (record {
    report = report;
    is_complete = is_complete;
    batches = batches;
    stop_reason = reason;
  })

  -- `_validate_current_snapshot`, and what follows it.
  abbrev pub validated : ReviewReport → Result CoverageDrainResult → Result CoverageDrainResult
  validated report rest = elim (services.validate report) [
    | some message ↦ raised message
    | none ↦ rest
  ]

  -- The end of a round: `next` is the report after the batch, `rest` the rounds that follow.
  unfoldable pub after_batch :
      ReviewReport → ReviewReport → ℕ → Result CoverageDrainResult → Result CoverageDrainResult
  after_batch current next batch rest =
      if coverage_is_complete next services.reviewer_ids
      then stopped next true batch complete
      else if progress_le (progress_key next) (progress_key current)
      then stopped next false batch no_progress
      else rest

  -- The loop over the batches, with `left` of them to go after `done`.
  unfoldable pub drain : ℕ → ℕ → ReviewReport → Result CoverageDrainResult
  drain zero done current = stopped current false done max_batches
  drain (suc left) done current = validated current (elim (pending_context_pack_ids current) [
    | [] ↦ stopped current false done no_eligible_work
    | i ∷ ids ↦ elim (services.continue_review (next_batch current (i ∷ ids)) current) [
      | raised message ↦ raised message
      | returned next ↦
          validated next (after_batch current next (suc done) (drain left (suc done) next))
    ]
  ])

  -- The loop behind the test whether the report is complete already.
  unfoldable pub start_drain : ℕ → ReviewReport → Result CoverageDrainResult
  start_drain limit current =
      if coverage_is_complete current services.reviewer_ids
      then stopped current true 0 complete
      else drain limit 0 current

  unfoldable pub continue_review_until_complete : ReviewReport → ℕ → Result CoverageDrainResult
  continue_review_until_complete report limit =
      if eqb services.batch_size 0
      then raised "batch_size must be greater than zero"
      else if eqb limit 0
      then raised "max_batches must be greater than zero"
      else validated report (
          if needs_rebase report
          then (elim (services.rebase report) [
            | raised message ↦ raised message
            | returned rebased ↦ validated rebased (start_drain limit rebased)
          ])
          else start_drain limit report)
