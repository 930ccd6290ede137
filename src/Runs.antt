-- ===== src/Runs.antt =====
-- The state of each reviewer's work on each pack, src/apex_ray/report/run_state.py: a report's list of
-- language-model runs, reduced to the review and the verifications that count.
pub mod PerPack
mod Examples
use apex_ray.Base.{
  String, Bool, true, false, ◌||◌, Option, none, some, List, [], ◌∷◌, ◌++◌, if◌then◌else◌, ◌==◌,
  string_eq, pair_eq,
}
use apex_ray.Base.Dict.{Dict, lookup, insert, erase}
use apex_ray.Models.{LlmRun}

pub record EffectiveLlmPackRunState : Type 0 where
  pub reviewer_id : String
  pub context_pack_id : String
  pub review : Option LlmRun
  pub verify_runs : List LlmRun

abbrev pub Key : Type 0
Key = String × String

abbrev pub key_of : LlmRun → Key
key_of run = (run.reviewer_id, run.context_pack_id)

abbrev pub is_review : LlmRun → Bool
is_review run = run.kind == "review" || run.kind == "review_shallow"

abbrev pub is_verify : LlmRun → Bool
is_verify run = run.kind == "verify"

abbrev pub effective : LlmRun → Option LlmRun → List LlmRun → EffectiveLlmPackRunState
effective run review verify_runs = record {
  reviewer_id = run.reviewer_id;
  context_pack_id = run.context_pack_id;
  review = review;
  verify_runs = verify_runs;
}

-- `prior.review if prior is not None else None`
abbrev pub prior_review : Option EffectiveLlmPackRunState → Option LlmRun
prior_review none = none
prior_review (some prior) = prior.review

abbrev pub prior_verify_runs : Option EffectiveLlmPackRunState → List LlmRun
prior_verify_runs none = []
prior_verify_runs (some prior) = prior.verify_runs

-- `states[key] = EffectiveLLMPackRunState(..., review=prior.review)`, if there is a prior state.
pub reset_verify :
    LlmRun
    → Option EffectiveLlmPackRunState
    → Dict Key EffectiveLlmPackRunState
    → Dict Key EffectiveLlmPackRunState
unfolding insert
reset_verify run none states = states
reset_verify run (some prior) states = insert (key_of run) (effective run prior.review []) states

-- One round of the loop.
pub reduce_run : Dict Key EffectiveLlmPackRunState → LlmRun → Dict Key EffectiveLlmPackRunState
unfolding insert erase reset_verify
reduce_run states run =
    let prior = lookup (key_of run) states in
    if run.kind == "review_reset"
    then erase (key_of run) states
    else if run.kind == "verify_reset"
    then reset_verify run prior states
    else if is_review run
    then insert (key_of run) (effective run (some run) []) states
    else if is_verify run
    then insert (key_of run)
        (effective run (prior_review prior) (prior_verify_runs prior ++ run ∷ [])) states
    else states

pub reduce_from :
    Dict Key EffectiveLlmPackRunState → List LlmRun → Dict Key EffectiveLlmPackRunState
unfolding reduce_run
reduce_from states [] = states
reduce_from states (run ∷ runs) = reduce_from (reduce_run states run) runs

pub reduce_llm_pack_run_states : List LlmRun → Dict Key EffectiveLlmPackRunState
unfolding reduce_from
reduce_llm_pack_run_states = reduce_from []
