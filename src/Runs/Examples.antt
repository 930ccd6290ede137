-- ===== src/Runs/Examples.antt =====
-- A history of runs, and the theorems at it.
use apex_ray.Base.{
  ◌≡◌, refl, String, false, none, some, List, [], ◌∷◌, ◌++◌, string_eq, pair_eq, filter,
}
use apex_ray.Base.Dict.{lookup}
use apex_ray.Models.{LlmRun}
use apex_ray.Runs.{EffectiveLlmPackRunState, key_of, is_verify, reduce_llm_pack_run_states}
use apex_ray.Runs.PerPack.{
  observe_all, runs_of, lookup-reduce_llm_pack_run_states, reduce_llm_pack_run_states-latest_review,
}

abbrev run : String → String → String → LlmRun
run kind reviewer pack = record {
  kind = kind;
  provider = "fake";
  model = none;
  reviewer_id = reviewer;
  context_pack_id = pack;
  status = "ok";
  duration_ms = 3;
  findings_count = 0;
  cache_hit = false;
  error = none;
}

abbrev history : List LlmRun
history =
    run "review" "general" "a" ∷ run "verify" "general" "a" ∷ run "review_reset" "general" "b" ∷ []

abbrev later : List LlmRun
later = run "review" "general" "b" ∷ run "verify" "general" "a" ∷ []

lookup-reduce_llm_pack_run_states_example :
    lookup ("general", "a") (reduce_llm_pack_run_states (history ++ later))
    ≡ observe_all none (runs_of ("general", "a") (history ++ later))
lookup-reduce_llm_pack_run_states_example =
    lookup-reduce_llm_pack_run_states ("general", "a") (history ++ later)

reduce_llm_pack_run_states-latest_review_example :
    let again = run "review_shallow" "general" "a" in
    (s : EffectiveLlmPackRunState) × (lookup
        (key_of again)
        (reduce_llm_pack_run_states (history ++ again ∷ later))
      ≡ some s)
    × (s.review ≡ some again)
    × (s.verify_runs ≡ filter is_verify (runs_of (key_of again) later))
unfolding string_eq pair_eq
reduce_llm_pack_run_states-latest_review_example =
    reduce_llm_pack_run_states-latest_review history later (run "review_shallow" "general" "a") refl
      ((refl, refl, refl), tt)
