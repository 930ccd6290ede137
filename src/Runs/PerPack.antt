-- ===== src/Runs/PerPack.antt =====
-- The table of states is, for each reviewer and pack, a small machine that reads that pair's runs alone.
use mathlib.Core.List.{append-nil, append_assoc}
use apex_ray.Base.{
  ◌≡◌, refl, sym, ◌∙◌, ap, ==_other, inl, inr, String, true, false, Option, none, some, List, [],
  ◌∷◌, ◌++◌, arith, if◌then◌else◌, ◌==◌, ==_iff, ==_refl, string_eq, pair_eq, filter, All,
  Bool-cases, filter-append,
}
use apex_ray.Base.Dict.{Dict, lookup, lookup-insert, lookup-erase}
use apex_ray.Models.{LlmRun}
use apex_ray.Runs.{
  EffectiveLlmPackRunState, Key, key_of, is_review, is_verify, effective, prior_review,
  prior_verify_runs, reset_verify, reduce_run, reduce_from, reduce_llm_pack_run_states,
}

-- What one run of the pair makes of the pair's state.
pub observe : Option EffectiveLlmPackRunState → LlmRun → Option EffectiveLlmPackRunState
observe prior run =
    if run.kind == "review_reset"
    then none
    else if run.kind == "verify_reset"
    then (elim prior as (λ _. Option EffectiveLlmPackRunState) [
      | none ↦ none
      | some p ↦ some (effective run p.review [])
    ])
    else if is_review run
    then some (effective run (some run) [])
    else if is_verify run
    then some (effective run (prior_review prior) (prior_verify_runs prior ++ run ∷ []))
    else prior

pub observe_all : Option EffectiveLlmPackRunState → List LlmRun → Option EffectiveLlmPackRunState
unfolding observe
observe_all state [] = state
observe_all state (run ∷ runs) = observe_all (observe state run) runs

-- A round changes the state of its own pair, as the machine does, and no other.
lookup-reset_verify :
    (k : Key) (run : LlmRun) (prior : Option EffectiveLlmPackRunState)
    (states : Dict Key EffectiveLlmPackRunState)
    → lookup (key_of run) states ≡ prior
    → lookup k (reset_verify run prior states) ≡ (
        if k == key_of run
        then (elim prior as (λ _. Option EffectiveLlmPackRunState) [
          | none ↦ none
          | some p ↦ some (effective run p.review [])
        ])
        else lookup k states)
unfolding reset_verify
lookup-reset_verify k run none states e = ground arith
lookup-reset_verify k run (some p) states e =
    lookup-insert k (key_of run) (effective run p.review []) states

lookup-reduce_run :
    (k : Key) (states : Dict Key EffectiveLlmPackRunState) (run : LlmRun)
    → lookup k (reduce_run states run)
      ≡ (if k == key_of run then observe (lookup (key_of run) states) run else lookup k states)
unfolding reduce_run observe
lookup-reduce_run k states run = ground (
  arith,
  lookup-erase k (key_of run) states,
  lookup-reset_verify k run (lookup (key_of run) states) states refl,
  lookup-insert k (key_of run) (effective run (some run) []) states,
  lookup-insert k (key_of run)
      (effective run (prior_review (lookup (key_of run) states))
        (prior_verify_runs (lookup (key_of run) states) ++ run ∷ []))
      states,
)

abbrev pub runs_of : Key → List LlmRun → List LlmRun
runs_of k = filter (λ run. k == key_of run)

lookup-reduce_from :
    (k : Key) (states : Dict Key EffectiveLlmPackRunState) (runs : List LlmRun)
    → lookup k (reduce_from states runs) ≡ observe_all (lookup k states) (runs_of k runs)
unfolding reduce_from observe_all
lookup-reduce_from k states [] = refl
lookup-reduce_from k states (run ∷ runs) = elim (Bool-cases (k == key_of run)) [
  | inl e ↦
      let same : k ≡ key_of run = (==_iff k (key_of run)).0 e in
      let step : lookup k (reduce_run states run) ≡ observe (lookup k states) run =
        lookup-reduce_run k states run
        ∙ rw e (ap (λ j. observe (lookup j states) run) (sym same)) in
      rw e (lookup-reduce_from k (reduce_run states run) runs ∙ rw step)
  | inr e ↦
      let step : lookup k (reduce_run states run) ≡ lookup k states =
        lookup-reduce_run k states run ∙ rw e in
      rw e (lookup-reduce_from k (reduce_run states run) runs ∙ rw step)
]

-- The state of a reviewer and a pack is what a machine makes of that pair's runs alone, in their order.
pub lookup-reduce_llm_pack_run_states :
    (k : Key) (runs : List LlmRun)
    → lookup k (reduce_llm_pack_run_states runs) ≡ observe_all none (runs_of k runs)
unfolding reduce_llm_pack_run_states
lookup-reduce_llm_pack_run_states k runs = lookup-reduce_from k [] runs

observe_all-cons :
    (state : Option EffectiveLlmPackRunState) (run : LlmRun) (runs : List LlmRun)
    → observe_all state (run ∷ runs) ≡ observe_all (observe state run) runs
unfolding observe_all
observe_all-cons state run runs = refl

observe_all-append :
    (state : Option EffectiveLlmPackRunState) (xs ys : List LlmRun)
    → observe_all state (xs ++ ys) ≡ observe_all (observe_all state xs) ys
unfolding observe_all
observe_all-append state [] ys = refl
observe_all-append state (x ∷ xs) ys = observe_all-append (observe state x) xs ys

-- A run that neither resets nor reviews.
abbrev pub IsQuiet : LlmRun → Type 0
IsQuiet run =
    ((run.kind == "review_reset") ≡ false)
    × ((run.kind == "verify_reset") ≡ false)
    × (is_review run ≡ false)

-- A state with this review and these verifications behind it.
abbrev Holds : LlmRun → List LlmRun → Option EffectiveLlmPackRunState → Type 0
Holds r verified state =
    (s : EffectiveLlmPackRunState) × (state ≡ some s)
    × (s.review ≡ some r)
    × (s.verify_runs ≡ verified)

observe-Holds :
    (r : LlmRun) (verified : List LlmRun) (s : EffectiveLlmPackRunState) (run : LlmRun)
    → s.review ≡ some r
    → s.verify_runs ≡ verified
    → IsQuiet run
    → Holds r (verified ++ filter is_verify (run ∷ [])) (observe (some s) run)
unfolding observe
observe-Holds r verified s run er ev (a, b, c) = elim (Bool-cases (is_verify run)) [
  | inl e ↦ rw (a, b, c, e) (effective run s.review (s.verify_runs ++ run ∷ []), refl, er, rw ev)
  | inr e ↦ rw (a, b, c, e, append-nil) (s, refl, er, ev)
]

observe_all-Holds :
    (r : LlmRun) (verified : List LlmRun) (state : Option EffectiveLlmPackRunState)
    (runs : List LlmRun)
    → Holds r verified state
    → All IsQuiet runs
    → Holds r (verified ++ filter is_verify runs) (observe_all state runs)
unfolding observe_all
observe_all-Holds r verified state [] h q = rw append-nil h
observe_all-Holds r verified state (run ∷ runs) (s, e, er, ev) q =
    rw
      (
        e,
        filter-append is_verify (run ∷ []) runs,
        ← append_assoc verified (filter is_verify (run ∷ [])) (filter is_verify runs),
      )
      (observe_all-Holds r (verified ++ filter is_verify (run ∷ [])) (observe (some s) run) runs
        (observe-Holds r verified s run er ev q.0) q.1)

-- The kinds of runs are different texts.
kinds_differ :
    (◌==◌ {A = String} "review" "review_reset" ≡ false)
    × (◌==◌ {A = String} "review" "verify_reset" ≡ false)
    × (◌==◌ {A = String} "review_shallow" "review_reset" ≡ false)
    × (◌==◌ {A = String} "review_shallow" "verify_reset" ≡ false)
unfolding string_eq
kinds_differ = (refl, refl, refl, refl)

review-not-reset :
    (r : LlmRun)
    → is_review r ≡ true
    → ((r.kind == "review_reset") ≡ false) × ((r.kind == "verify_reset") ≡ false)
review-not-reset r h =
    let (a, b, c, d) = kinds_differ in
    elim (Bool-cases (r.kind == "review")) [
      | inl e ↦
          (==_other r.kind "review" "review_reset" a e, ==_other r.kind "review" "verify_reset" b e)
      | inr e ↦
          let f : (r.kind == "review_shallow") ≡ true = rw e at h in
          (
            ==_other r.kind "review_shallow" "review_reset" c f,
            ==_other r.kind "review_shallow" "verify_reset" d f,
          )
    ]

observe-review :
    (state : Option EffectiveLlmPackRunState) (r : LlmRun)
    → is_review r ≡ true
    → observe state r ≡ some (effective r (some r) [])
unfolding observe
observe-review state r h = let (a, b) = review-not-reset r h in rw (a, b, h)

-- The latest review of a pair counts, with exactly the pair's verifications that follow it: if no run of
-- the pair behind it is a review or a reset, whatever came before.
pub reduce_llm_pack_run_states-latest_review :
    (before after : List LlmRun) (r : LlmRun)
    → is_review r ≡ true
    → All IsQuiet (runs_of (key_of r) after)
    → (s : EffectiveLlmPackRunState) × (lookup
          (key_of r)
          (reduce_llm_pack_run_states (before ++ r ∷ after))
        ≡ some s)
      × (s.review ≡ some r)
      × (s.verify_runs ≡ filter is_verify (runs_of (key_of r) after))
reduce_llm_pack_run_states-latest_review before after r h q =
    let k = key_of r in
    let earlier = observe_all none (runs_of k before) in
    rw
      (
        lookup-reduce_llm_pack_run_states k (before ++ r ∷ after),
        filter-append (λ run. k == key_of run) before (r ∷ after),
        ==_refl k,
        observe_all-append none (runs_of k before) (r ∷ runs_of k after),
        observe_all-cons earlier r (runs_of k after),
        observe-review earlier r h,
      )
      (observe_all-Holds r [] (some (effective r (some r) [])) (runs_of k after)
        (effective r (some r) [], refl, refl, refl) q)
