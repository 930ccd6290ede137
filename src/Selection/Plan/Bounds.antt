-- ===== src/Selection/Plan/Bounds.antt =====
-- The plan keeps its caps and its budget.
use apex_ray.Base.{
  ℕ, ◌+◌, ◌-◌, ◌≤◌, min, ◌≡◌, refl, ap, ◌∙◌, String, Bool, true, false, not, Option, none, some,
  List, [], ◌++◌, if◌then◌else◌, arith, length, length-append, length-filter, filter,
}
use apex_ray.Base.Dict.{Dict}
use apex_ray.Base.Sort.{length-sorted}
use apex_ray.Base.Distinct.{Distinct, Distinct-filter}
use apex_ray.Models.{ChangedFile, ContextPack, Priority}
use apex_ray.Selection.{IndexedPack, bounded_deep_cap, index_le}
use apex_ray.Selection.Cap.{has_index, select_llm_context_pack_indexes}
use apex_ray.Selection.Cap.Fill.{same_index, length-select_llm_context_pack_indexes}
use apex_ray.Selection.Tokens.{enumerate_from, select_indexes_with_token_budget}
use apex_ray.Selection.Tokens.Few.{enumerate_from-Distinct, length-select_indexes_with_token_budget}
use apex_ray.Selection.Tokens.Fits.{select_indexes_with_token_budget_fits}
use apex_ray.Selection.Plan.{
  Prompts, Limits, plan_stages, is_fast, remaining, deep_stage, deep_candidates, shallow_stage,
  shallow_candidates, shallow_budget_candidates, shallow_cap, reviewable, deep_over_budget_ids,
  selected_items,
}

-- The choice of a stage, none if the mode is fast.
abbrev unless : Bool → List IndexedPack × ℕ → List IndexedPack × ℕ
unless b r = if b then ([], 0) else r

unless-tokens : (b : Bool) (r : List IndexedPack × ℕ) (n : ℕ) → r.1 ≤ n → (unless b r).1 ≤ n
unless-tokens true r n h = omega arith
unless-tokens false r n h = h

unless-length :
    (b : Bool) (r : List IndexedPack × ℕ) (n : ℕ) → length r.0 ≤ n → length (unless b r).0 ≤ n
unless-length true r n h = omega arith
unless-length false r n h = h

length-if-none :
    (b : Bool) (xs : List IndexedPack) (n : ℕ) → length xs ≤ n → length (if b then [] else xs) ≤ n
length-if-none true xs n h = omega arith
length-if-none false xs n h = h

if-Distinct :
    (b : Bool) (xs : List IndexedPack)
    → Distinct same_index xs
    → Distinct same_index (if b then [] else xs)
if-Distinct true xs h = tt
if-Distinct false xs h = h

within_budget :
    (tokens : ContextPack → ℕ) (candidates : List IndexedPack) (packs : List ContextPack)
    (files : List ChangedFile) (budget : Option ℕ) (n : ℕ)
    → budget ≡ some n
    → (select_indexes_with_token_budget tokens candidates packs files budget).1 ≤ n
within_budget tokens candidates packs files budget n e =
    rw e ((select_indexes_with_token_budget_fits tokens candidates packs files n).1)

under_cap :
    (items : List IndexedPack) (files : List ChangedFile) (cap : Option ℕ)
    (archived : Dict String Priority) (n : ℕ)
    → Distinct same_index items
    → cap ≡ some n
    → length (select_llm_context_pack_indexes items files cap archived) ≤ n
under_cap items files cap archived n d e =
    let full = length-select_llm_context_pack_indexes items files n archived d in
    let few : length (select_llm_context_pack_indexes items files (some n) archived) ≤ n =
      omega (arith, full) in
    rw e few

-- With a cap on packs, the deep stage has a cap that is not larger.
bounded_deep_cap-le :
    (max_packs : ℕ) (max_deep_packs : Option ℕ)
    → (n : ℕ) × (bounded_deep_cap (some max_packs) max_deep_packs ≡ some n) × (n ≤ max_packs)
unfolding bounded_deep_cap
bounded_deep_cap-le max_packs none = (max_packs, refl, omega arith)
bounded_deep_cap-le max_packs (some d) = (min max_packs d, refl, omega arith)

module _ (prompts : Prompts) (limits : Limits) (packs : List ContextPack) (files : List ChangedFile)
    (archived : Dict String Priority) where
  -- The two stages together stay within the budget of input tokens, if there is one.
  pub plan_stages-tokens :
      (budget : ℕ)
      → limits.max_input_tokens ≡ some budget
      → let st = plan_stages prompts limits packs files archived in
        st.deep_tokens + st.shallow_tokens ≤ budget
  unfolding plan_stages
  plan_stages-tokens budget e =
      let deep = deep_stage prompts limits packs files archived in
      let candidates = shallow_budget_candidates prompts limits packs files archived in
      let rest = remaining limits.max_input_tokens deep.1 in
      let deep_fits : deep.1 ≤ budget =
        within_budget prompts.deep_tokens (deep_candidates prompts limits packs files archived)
          packs files limits.max_input_tokens budget e in
      let shallow_fits =
        within_budget prompts.shallow_tokens candidates packs files rest (budget - deep.1)
          (ap (λ o. remaining o deep.1) e) in
      let fits =
        unless-tokens (is_fast limits)
          (select_indexes_with_token_budget prompts.shallow_tokens candidates packs files rest)
          (budget - deep.1) shallow_fits in
      omega (arith, deep_fits, fits)

  items-Distinct :
      (p : IndexedPack → Bool) → Distinct same_index (filter p (enumerate_from 0 packs))
  items-Distinct p =
      Distinct-filter same_index p (enumerate_from 0 packs) (enumerate_from-Distinct 0 packs)

  length-deep_stage :
      (max_packs : ℕ)
      → limits.max_packs ≡ some max_packs
      → length (deep_stage prompts limits packs files archived).0 ≤ max_packs
  length-deep_stage max_packs e =
      let candidates = deep_candidates prompts limits packs files archived in
      let cap = bounded_deep_cap-le max_packs limits.max_deep_packs in
      let few =
        length-select_indexes_with_token_budget prompts.deep_tokens files candidates packs
          limits.max_input_tokens in
      let capped =
        under_cap (reviewable (deep_over_budget_ids limits packs) packs) files
          (bounded_deep_cap limits.max_packs limits.max_deep_packs) archived cap.0
          (items-Distinct _) (ap (λ o. bounded_deep_cap o limits.max_deep_packs) e ∙ cap.1) in
      omega (arith, few, capped, cap.2)

  length-shallow_stage :
      (max_packs : ℕ)
      → limits.max_packs ≡ some max_packs
      → length (shallow_stage prompts limits packs files archived).0
        ≤ max_packs - length (deep_stage prompts limits packs files archived).0
  length-shallow_stage max_packs e =
      let deep = deep_stage prompts limits packs files archived in
      let rest = remaining limits.max_input_tokens deep.1 in
      let n = max_packs - length deep.0 in
      let items = shallow_candidates prompts limits packs files archived in
      let candidates = shallow_budget_candidates prompts limits packs files archived in
      let cap = shallow_cap prompts limits packs files archived in
      let distinct : Distinct same_index items =
        if-Distinct (is_fast limits) _
          (Distinct-filter same_index (λ x. not (has_index x.0 deep.0)) _ (items-Distinct _)) in
      let capped =
        under_cap items files cap archived n distinct (ap (λ o. remaining o (length deep.0)) e) in
      let few =
        length-if-none (is_fast limits) (select_llm_context_pack_indexes items files cap archived) n
          capped in
      let chosen =
        length-select_indexes_with_token_budget prompts.shallow_tokens files candidates packs
          rest in
      unless-length (is_fast limits)
        (select_indexes_with_token_budget prompts.shallow_tokens candidates packs files rest) n
        (omega (arith, few, chosen))

  -- The plan selects no more packs than its cap, if it has one.
  pub plan_stages-packs :
      (max_packs : ℕ)
      → limits.max_packs ≡ some max_packs
      → length (selected_items (plan_stages prompts limits packs files archived)) ≤ max_packs
  unfolding plan_stages selected_items
  plan_stages-packs max_packs e =
      let deep = deep_stage prompts limits packs files archived in
      let shallow = shallow_stage prompts limits packs files archived in
      let new = filter (λ x. not (has_index x.0 deep.0)) shallow.0 in
      omega (
        arith,
        length-sorted index_le (deep.0 ++ new),
        length-append deep.0 new,
        length-filter (λ x. not (has_index x.0 deep.0)) shallow.0,
        length-deep_stage max_packs e,
        length-shallow_stage max_packs e,
      )
