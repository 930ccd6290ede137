-- ===== src/Models/Selection.antt =====
-- What a selection of context packs records, of src/apex_ray/models.py.
use apex_ray.Base.{ℕ, String, Option, List}
use apex_ray.Base.Dict.{Dict}

pub record LlmSelectionStageSummary : Type 0 where
  pub stage : String
  pub budget_packs : Option ℕ
  pub budget_tokens : Option ℕ
  pub selected_estimated_tokens : ℕ
  pub selected_context_pack_ids : List String
  pub unselected_context_pack_ids : List String
  pub reason : String

pub record LlmContextSelection : Type 0 where
  pub total_context_pack_ids : List String
  pub selected_context_pack_ids : List String
  pub deep_selected_context_pack_ids : List String
  pub shallow_selected_context_pack_ids : List String
  pub unselected_context_pack_ids : List String
  pub over_budget_context_pack_ids : List String
  pub over_token_budget_context_pack_ids : List String
  pub skipped_context_pack_reasons : Dict String String
  pub stages : List LlmSelectionStageSummary
