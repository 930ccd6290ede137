-- ===== src/Selection/Plan.antt =====
-- The plan of a review, `plan_llm_context_selection`: a deep stage over the packs that fit, then a shallow
-- stage over the rest. The sizes of prompts, which the source gets by rendering them, are parameters; the
-- cache of rendered prompts, which no result depends on, is left out.
pub mod Bounds
pub mod Disjoint
pub mod Partition
use apex_ray.Base.{
  ℕ, zero, suc, ◌-◌, String, Bool, true, false, not, Option, none, some, List, [], ◌∷◌, ◌++◌, map,
  if◌then◌else◌, ◌==◌, ltb, length, filter, contains, string_eq,
}
use apex_ray.Base.Dict.{Dict, insert}
use apex_ray.Base.Sort.{sorted}
use apex_ray.Models.{
  ChangedFile, ContextPack, LlmCoverageMode, Priority, LlmContextSelection,
  LlmSelectionStageSummary, coverage_mode_eq,
}
use apex_ray.Selection.{IndexedPack, bounded_deep_cap, index_le}
use apex_ray.Selection.Cap.{has_index, select_llm_context_pack_indexes}
use apex_ray.Selection.Tokens.{enumerate_from, select_indexes_with_token_budget}

-- What the rendering of prompts tells of a pack: the input tokens of its deep and of its shallow prompt, and
-- the characters of its shallow payload.
pub record Prompts : Type 0 where
  pub deep_tokens : ContextPack → ℕ
  pub shallow_tokens : ContextPack → ℕ
  pub shallow_chars : ContextPack → ℕ

-- The keyword arguments of `plan_llm_context_selection`.
pub record Limits : Type 0 where
  pub max_packs : Option ℕ
  pub max_deep_packs : Option ℕ
  pub max_input_tokens : Option ℕ
  pub max_pack_chars : Option ℕ
  pub coverage_mode : LlmCoverageMode

-- The local variables behind the two stages.
pub record Stages : Type 0 where
  pub deep_cap : Option ℕ
  pub deep_candidates : List IndexedPack
  pub deep : List IndexedPack
  pub deep_tokens : ℕ
  pub token_budget_remaining : Option ℕ
  pub shallow_cap : Option ℕ
  pub shallow_candidates : List IndexedPack
  pub shallow_budget_candidates : List IndexedPack
  pub shallow : List IndexedPack
  pub shallow_tokens : ℕ

abbrev pub is_fast : Limits → Bool
is_fast limits = limits.coverage_mode == LlmCoverageMode.fast

-- `max_pack_chars is not None and chars > max_pack_chars`
abbrev pub is_over : Option ℕ → ℕ → Bool
is_over none chars = false
is_over (some limit) chars = ltb limit chars

abbrev ids_of : List ContextPack → List String
ids_of packs = map (λ p. p.id) packs

abbrev pub item_ids : List IndexedPack → List String
item_ids items = map (λ x. x.1.id) items

pub deep_over_budget_ids : Limits → List ContextPack → List String
deep_over_budget_ids limits packs =
    ids_of (filter (λ p. is_over limits.max_pack_chars p.stats.estimated_chars) packs)

pub shallow_over_budget_ids : Prompts → Limits → List ContextPack → List String
shallow_over_budget_ids prompts limits packs =
    if is_fast limits
    then []
    else ids_of (filter (λ p. is_over limits.max_pack_chars (prompts.shallow_chars p)) packs)

pub effective_over_budget_ids : Prompts → Limits → List ContextPack → List String
effective_over_budget_ids prompts limits packs =
    let deep_over = deep_over_budget_ids limits packs in
    if is_fast limits
    then deep_over
    else filter (λ i. contains i (shallow_over_budget_ids prompts limits packs)) deep_over

-- The packs that a stage may take.
abbrev reviewable : List String → List ContextPack → List IndexedPack
reviewable over packs = filter (λ x. not (contains x.1.id over)) (enumerate_from 0 packs)

-- `max(0, token_budget_remaining - deep_tokens)`, where there is a budget.
abbrev pub remaining : Option ℕ → ℕ → Option ℕ
remaining none used = none
remaining (some budget) used = some (budget - used)

module _ (prompts : Prompts) (limits : Limits) (packs : List ContextPack) (files : List ChangedFile)
    (archived : Dict String Priority) where
  abbrev pub deep_candidates : List IndexedPack
  deep_candidates =
      select_llm_context_pack_indexes (reviewable (deep_over_budget_ids limits packs) packs) files
        (bounded_deep_cap limits.max_packs limits.max_deep_packs) archived

  abbrev pub deep_stage : List IndexedPack × ℕ
  deep_stage =
      select_indexes_with_token_budget prompts.deep_tokens deep_candidates packs files
        limits.max_input_tokens

  abbrev pub shallow_cap : Option ℕ
  shallow_cap = remaining limits.max_packs (length deep_stage.0)

  abbrev pub shallow_candidates : List IndexedPack
  shallow_candidates =
      if is_fast limits
      then []
      else filter (λ x. not (has_index x.0 deep_stage.0))
          (reviewable (shallow_over_budget_ids prompts limits packs) packs)

  abbrev pub shallow_budget_candidates : List IndexedPack
  shallow_budget_candidates =
      if is_fast limits
      then []
      else select_llm_context_pack_indexes shallow_candidates files shallow_cap archived

  abbrev pub shallow_stage : List IndexedPack × ℕ
  shallow_stage =
      if is_fast limits
      then ([], 0)
      else select_indexes_with_token_budget prompts.shallow_tokens shallow_budget_candidates packs
          files (remaining limits.max_input_tokens deep_stage.1)

  pub plan_stages : Stages
  plan_stages = record {
    deep_cap = bounded_deep_cap limits.max_packs limits.max_deep_packs;
    deep_candidates = deep_candidates;
    deep = deep_stage.0;
    deep_tokens = deep_stage.1;
    token_budget_remaining = remaining limits.max_input_tokens deep_stage.1;
    shallow_cap = shallow_cap;
    shallow_candidates = shallow_candidates;
    shallow_budget_candidates = shallow_budget_candidates;
    shallow = shallow_stage.0;
    shallow_tokens = shallow_stage.1;
  }

-- The items of `xs` whose index is not in `chosen`.
abbrev not_chosen : List IndexedPack → List IndexedPack → List IndexedPack
not_chosen chosen xs = filter (λ x. not (has_index x.0 chosen)) xs

pub deep_summary : Limits → Stages → LlmSelectionStageSummary
deep_summary limits st = record {
  stage = "deep";
  budget_packs = st.deep_cap;
  budget_tokens = limits.max_input_tokens;
  selected_estimated_tokens = st.deep_tokens;
  selected_context_pack_ids = item_ids (sorted index_le st.deep);
  unselected_context_pack_ids = item_ids (not_chosen st.deep st.deep_candidates);
  reason = "coverage-first deep context selection";
}

pub shallow_summary : Stages → LlmSelectionStageSummary
shallow_summary st = record {
  stage = "shallow";
  budget_packs = st.shallow_cap;
  budget_tokens = st.token_budget_remaining;
  selected_estimated_tokens = st.shallow_tokens;
  selected_context_pack_ids = item_ids (sorted index_le st.shallow);
  unselected_context_pack_ids = item_ids (not_chosen st.shallow st.shallow_candidates);
  reason = "compact breadth pass for reviewable packs not selected for deep review";
}

-- `set(deep_selected_indexes) | set(shallow_selected_indexes)`, sorted.
pub selected_items : Stages → List IndexedPack
selected_items st = sorted index_le (st.deep ++ not_chosen st.deep st.shallow)

-- The items that only the token budget left out of a stage.
pub token_budget_items : Limits → Stages → List IndexedPack
token_budget_items limits st =
    not_chosen st.deep st.deep_candidates
    ++ (if is_fast limits then [] else not_chosen st.shallow st.shallow_budget_candidates)

pub skipped_reason : List String → List String → String → String
skipped_reason over token_budget pack_id =
    if contains pack_id over
    then "over context budget"
    else if contains pack_id token_budget
    then "not selected by LLM token budget"
    else "not selected by LLM pack cap"

-- `{pack_id: reason for pack_id in unselected_ids}`
pub skipped_reasons : (String → String) → Dict String String → List String → Dict String String
skipped_reasons reason reasons [] = reasons
skipped_reasons reason reasons (i ∷ ids) = skipped_reasons reason (insert i (reason i) reasons) ids

unfoldable pub selection_of : Prompts → Limits → List ContextPack → Stages → LlmContextSelection
selection_of prompts limits packs st =
    let selected_ids = item_ids (selected_items st) in
    let over = effective_over_budget_ids prompts limits packs in
    let unselected_ids = ids_of (filter (λ p. not (contains p.id selected_ids)) packs) in
    let token_budget_ids =
      filter (λ i. not (contains i selected_ids)) (item_ids (token_budget_items limits st)) in
    record {
      total_context_pack_ids = ids_of packs;
      selected_context_pack_ids = selected_ids;
      deep_selected_context_pack_ids = item_ids (sorted index_le st.deep);
      shallow_selected_context_pack_ids = item_ids (sorted index_le st.shallow);
      unselected_context_pack_ids = unselected_ids;
      over_budget_context_pack_ids =
          ids_of (
            filter (λ p. contains p.id over)
              (filter (λ p. not (contains p.id selected_ids)) packs));
      over_token_budget_context_pack_ids =
          ids_of (filter (λ p. contains p.id token_budget_ids) packs);
      skipped_context_pack_reasons =
          skipped_reasons (skipped_reason over token_budget_ids) [] unselected_ids;
      stages = deep_summary limits st ∷ (if is_fast limits then [] else shallow_summary st ∷ []);
    }

unfoldable pub plan_llm_context_selection :
    Prompts
    → Limits
    → List ContextPack
    → List ChangedFile
    → Dict String Priority
    → LlmContextSelection
plan_llm_context_selection prompts limits packs files archived =
    selection_of prompts limits packs (plan_stages prompts limits packs files archived)
