-- ===== src/Selection/Examples.antt =====
-- The theorems on the selection of context packs, applied to three packs.
use mathlib.Core.List.{Mem}
use apex_ray.Base.{
  ℕ, ◌+◌, ◌≤◌, ◌≡◌, refl, min, false, not, if◌then◌else◌, ◌&&◌, ◌||◌, none, some, List, [], ◌∷◌,
  arith, length, sum_by, filter, contains, All, string_eq,
}
use apex_ray.Base.Dict.{lookup}
use apex_ray.Models.{ContextPack, FileKind, LlmCoverageMode, PackDepth, LlmContextSelection}
use apex_ray.Models.Samples.{pack}
use apex_ray.Selection.{IndexedPack}
use apex_ray.Selection.Cap.{has_index, select_llm_context_pack_indexes}
use apex_ray.Selection.Cap.Fill.{length-select_llm_context_pack_indexes}
use apex_ray.Selection.Cap.Source.{select_llm_context_pack_indexes-Mem}
use apex_ray.Selection.Tokens.{enumerate_from, select_indexes_with_token_budget}
use apex_ray.Selection.Tokens.Fits.{
  Settled, select_indexes_with_token_budget_fits, select_indexes_with_token_budget-Settled,
}
use apex_ray.Selection.Plan.{
  Prompts, Limits, Stages, plan_stages, selected_items, plan_llm_context_selection, selection_of,
}
use apex_ray.Selection.Plan.Bounds.{plan_stages-tokens, plan_stages-packs}
use apex_ray.Selection.Plan.Partition.{
  is_too_large, plan_llm_context_selection-partition, plan_llm_context_selection-reasons,
}
use apex_ray.Selection.Continue.{merge_continuation_selection}
use apex_ray.Selection.Consistent.{IsConsistent, planned, continued, Reach-IsConsistent}
use apex_ray.Selection.Plan.Disjoint.{plan_stages-disjoint}

abbrev packs : List ContextPack
packs =
    pack "a" "a.py" FileKind.source 400
    ∷ pack "b" "b.py" FileKind.source 900
    ∷ pack "t" "test_a.py" FileKind.test 200
    ∷ []

abbrev items : List IndexedPack
items =
    (0, pack "a" "a.py" FileKind.source 400)
    ∷ (1, pack "b" "b.py" FileKind.source 900)
    ∷ (2, pack "t" "test_a.py" FileKind.test 200)
    ∷ []

abbrev chars : ContextPack → ℕ
chars p = p.stats.estimated_chars

abbrev prompts : Prompts
prompts = record { deep_tokens = chars; shallow_tokens = λ p. 100; shallow_chars = λ p. 100 }

abbrev limits : Limits
limits = record {
  max_packs = some 2;
  max_deep_packs = some 1;
  max_input_tokens = some 1000;
  max_pack_chars = some 800;
  coverage_mode = LlmCoverageMode.balanced;
}

length-select_llm_context_pack_indexes_example :
    length (select_llm_context_pack_indexes items [] (some 2) []) ≡ min 2 (length items)
length-select_llm_context_pack_indexes_example =
    length-select_llm_context_pack_indexes items [] 2 []
      ((refl, (refl, tt)), ((refl, tt), (tt, tt)))

select_llm_context_pack_indexes-Mem_example :
    All (λ x. Mem x items) (select_llm_context_pack_indexes items [] (some 2) [])
select_llm_context_pack_indexes-Mem_example =
    select_llm_context_pack_indexes-Mem items [] (some 2) []

abbrev chosen : List IndexedPack × ℕ
chosen = select_indexes_with_token_budget chars items packs [] (some 1000)

select_indexes_with_token_budget_fits_example :
    (chosen.1 ≡ sum_by (λ x. chars x.1) chosen.0) × (chosen.1 ≤ 1000)
select_indexes_with_token_budget_fits_example =
    select_indexes_with_token_budget_fits chars items packs [] 1000

select_indexes_with_token_budget-Settled_example :
    All (Settled chars 1000 chosen) (filter (λ x. has_index x.0 items) (enumerate_from 0 packs))
select_indexes_with_token_budget-Settled_example =
    select_indexes_with_token_budget-Settled chars items packs [] 1000 (omega arith)

abbrev stages : Stages
stages = plan_stages prompts limits packs [] []

plan_stages-tokens_example : stages.deep_tokens + stages.shallow_tokens ≤ 1000
plan_stages-tokens_example = plan_stages-tokens prompts limits packs [] [] 1000 refl

plan_stages-packs_example : length (selected_items stages) ≤ 2
plan_stages-packs_example = plan_stages-packs prompts limits packs [] [] 2 refl

abbrev plan : LlmContextSelection
plan = plan_llm_context_selection prompts limits packs [] []

plan_llm_context_selection-partition_example :
    let in_stage =
      contains "b" plan.deep_selected_context_pack_ids
      || contains "b" plan.shallow_selected_context_pack_ids in
    (contains "b" plan.selected_context_pack_ids ≡ in_stage)
    × (contains "b" plan.unselected_context_pack_ids
        ≡ contains "b" plan.total_context_pack_ids && not in_stage)
plan_llm_context_selection-partition_example =
    plan_llm_context_selection-partition prompts limits packs [] [] "b"

plan_llm_context_selection-reasons_example : lookup "b" plan.skipped_context_pack_reasons ≡ (
    if contains "b" plan.deep_selected_context_pack_ids
      || contains "b" plan.shallow_selected_context_pack_ids
    then none
    else if is_too_large prompts limits packs "b"
    then some "over context budget"
    else if contains "b" plan.over_token_budget_context_pack_ids
    then some "not selected by LLM token budget"
    else some "not selected by LLM pack cap")
unfolding plan_llm_context_selection selection_of string_eq
plan_llm_context_selection-reasons_example =
    plan_llm_context_selection-reasons prompts limits packs [] [] "b" refl

plan_stages-disjoint_example : All (λ x. has_index x.0 stages.deep ≡ false) stages.shallow
plan_stages-disjoint_example = plan_stages-disjoint prompts limits packs [] []

abbrev continued_plan : LlmContextSelection
continued_plan =
    merge_continuation_selection (some plan) packs (pack "b" "b.py" FileKind.source 900 ∷ [])
      PackDepth.deep

Reach-IsConsistent_example : IsConsistent continued_plan
Reach-IsConsistent_example = Reach-IsConsistent (
    continued plan packs (pack "b" "b.py" FileKind.source 900 ∷ []) PackDepth.deep
      (planned prompts limits packs [] []))
