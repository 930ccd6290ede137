-- ===== src/Selection/Continue.antt =====
-- The continuation of a review, `select_continuation_context_packs` and `merge_continuation_selection`. The
-- slice of a pack is a parameter: it is the archived one, or the one that its content has.
use apex_ray.Base.{
  String, Bool, true, not, ◌&&◌, ◌||◌, Option, none, some, List, [], ◌∷◌, ◌++◌, map, filter,
  contains, string_eq,
}
use apex_ray.Base.Dict.{Dict, lookup}
use apex_ray.Models.{
  ContextPack, PackDepth, LlmContextSelection, LlmSelectionStageSummary, Priority, priority_eq,
}
use apex_ray.Selection.{pack_residual_priority}

-- What the report says of a pack: `status_by_id`.
pub record ArchivedStatus : Type 0 where
  pub priority : Option Priority
  pub slice : String

-- The keyword arguments; `none` selects every pack.
pub record Filters : Type 0 where
  pub residual_priorities : Option (List Priority)
  pub slices : Option (List String)
  pub pack_ids : Option (List String)
  pub only_unreviewed : Bool

abbrev archived_priority : Option ArchivedStatus → Option Priority
archived_priority none = none
archived_priority (some status) = status.priority

module _ (review_slice : ContextPack → String) where
  abbrev slice_of : Option ArchivedStatus → ContextPack → String
  slice_of none pack = review_slice pack
  slice_of (some status) pack = status.slice

  -- The guards of the loop's body.
  pub is_continued : Filters → List String → Dict String ArchivedStatus → ContextPack → Bool
  is_continued filters unreviewed_ids status_by_id pack =
      let status = lookup pack.id status_by_id in
      not (filters.only_unreviewed && not (contains pack.id unreviewed_ids))
      && (elim filters.pack_ids [ none ↦ true | some ids ↦ contains pack.id ids ])
      && (elim filters.residual_priorities [
        | none ↦ true
        | some ps ↦ contains (pack_residual_priority pack (archived_priority status)) ps
      ])
      && (elim filters.slices [ none ↦ true | some names ↦ contains (slice_of status pack) names ])

  pub select_continuation_context_packs :
      Filters → List String → Dict String ArchivedStatus → List ContextPack → List ContextPack
  select_continuation_context_packs filters unreviewed_ids status_by_id packs =
      filter (is_continued filters unreviewed_ids status_by_id) packs

-- `LLMContextSelection(total_context_pack_ids=total_ids)`
abbrev pub fresh_selection : List String → LlmContextSelection
fresh_selection total_ids = record {
  total_context_pack_ids = total_ids;
  selected_context_pack_ids = [];
  deep_selected_context_pack_ids = [];
  shallow_selected_context_pack_ids = [];
  unselected_context_pack_ids = [];
  over_budget_context_pack_ids = [];
  over_token_budget_context_pack_ids = [];
  skipped_context_pack_reasons = [];
  stages = [];
}

abbrev pub existing_or_fresh : Option LlmContextSelection → List String → LlmContextSelection
existing_or_fresh none total_ids = fresh_selection total_ids
existing_or_fresh (some existing) total_ids = existing

-- `selected_set`, `deep_set` and `shallow_set`, as tests.
abbrev pub in_selected : LlmContextSelection → List String → String → Bool
in_selected existing selected_ids i =
    contains i existing.selected_context_pack_ids || contains i selected_ids

abbrev pub in_deep : PackDepth → LlmContextSelection → List String → String → Bool
in_deep PackDepth.deep existing selected_ids i =
    contains i existing.deep_selected_context_pack_ids || contains i selected_ids
in_deep PackDepth.shallow existing selected_ids i =
    contains i existing.deep_selected_context_pack_ids

abbrev pub in_shallow : PackDepth → LlmContextSelection → List String → String → Bool
in_shallow PackDepth.deep existing selected_ids i =
    contains i existing.shallow_selected_context_pack_ids && not (contains i selected_ids)
in_shallow PackDepth.shallow existing selected_ids i =
    contains i existing.shallow_selected_context_pack_ids || contains i selected_ids

abbrev stage_name : PackDepth → String
stage_name PackDepth.deep = "continue_deep"
stage_name PackDepth.shallow = "continue_shallow"

abbrev continue_stage : PackDepth → List String → LlmSelectionStageSummary
continue_stage depth selected_ids = record {
  stage = stage_name depth;
  budget_packs = none;
  budget_tokens = none;
  selected_estimated_tokens = 0;
  selected_context_pack_ids = selected_ids;
  unselected_context_pack_ids = [];
  reason = "user-requested continuation pass over previously unreviewed context packs";
}

unfoldable pub merge_continuation_selection :
    Option LlmContextSelection
    → List ContextPack
    → List ContextPack
    → PackDepth
    → LlmContextSelection
merge_continuation_selection existing packs selected_packs depth =
    let selected_ids = map (λ p. p.id) selected_packs in
    let total_ids = map (λ p. p.id) packs in
    let old = existing_or_fresh existing total_ids in
    let unselected = filter (λ i. not (in_selected old selected_ids i)) total_ids in
    record {
      total_context_pack_ids = total_ids;
      selected_context_pack_ids = filter (in_selected old selected_ids) total_ids;
      deep_selected_context_pack_ids = filter (in_deep depth old selected_ids) total_ids;
      shallow_selected_context_pack_ids = filter (in_shallow depth old selected_ids) total_ids;
      unselected_context_pack_ids = unselected;
      over_budget_context_pack_ids =
          filter (λ i. contains i unselected) old.over_budget_context_pack_ids;
      over_token_budget_context_pack_ids =
          filter (λ i. contains i unselected) old.over_token_budget_context_pack_ids;
      skipped_context_pack_reasons =
          filter (λ (i, reason). contains i unselected) old.skipped_context_pack_reasons;
      stages = old.stages ++ continue_stage depth selected_ids ∷ [];
    }
