-- ===== src/Selection/Plan/Disjoint.antt =====
-- The two stages take different packs, and the selected packs are those of the two stages.
use apex_ray.Base.{
  ℕ, ◌≡◌, refl, sym, ap, ◌∙◌, String, Bool, true, false, not, ◌||◌, List, [], ◌∷◌, ◌++◌,
  if◌then◌else◌, ◌==◌, arith, any, filter, contains, string_eq, All, All_imp,
}
use apex_ray.Base.Dict.{Dict}
use apex_ray.Base.Sort.{sorted, any-sorted}
use apex_ray.Base.Distinct.{filter-All}
use apex_ray.Models.{ChangedFile, ContextPack, Priority}
use apex_ray.Selection.{IndexedPack, index_le}
use apex_ray.Selection.Cap.{has_index}
use apex_ray.Selection.Cap.Source.{All-select_llm_context_pack_indexes}
use apex_ray.Selection.Tokens.Outside.{select_indexes_with_token_budget-fails}
use apex_ray.Selection.Plan.{
  Prompts, Limits, plan_stages, is_fast, remaining, deep_stage, shallow_candidates,
  shallow_budget_candidates, shallow_cap, reviewable, shallow_over_budget_ids, item_ids,
  selected_items,
}

filter_all :
    (p : IndexedPack → Bool) (xs : List IndexedPack)
    → All (λ x. p x ≡ false) xs
    → filter (λ x. not (p x)) xs ≡ xs
filter_all p [] h = refl
filter_all p (x ∷ xs) h = rw (h.0, filter_all p xs h.1) refl

not-true : (b : Bool) → not b ≡ true → b ≡ false
not-true true h = cc
not-true false h = refl

module _ (q : ℕ → Bool) where
  All-unless :
      (b : Bool) (r : List IndexedPack × ℕ)
      → All (λ x. q x.0 ≡ false) r.0
      → All (λ x. q x.0 ≡ false) (if b then ([], 0) else r).0
  All-unless true r h = tt
  All-unless false r h = h

  All-if_none :
      (b : Bool) (xs : List IndexedPack)
      → All (λ x. q x.0 ≡ false) xs
      → All (λ x. q x.0 ≡ false) (if b then [] else xs)
  All-if_none true xs h = tt
  All-if_none false xs h = h

-- The tests for an id in the ids of items.
contains-item_ids :
    (i : String) (xs : List IndexedPack) → contains i (item_ids xs) ≡ any (λ x. i == x.1.id) xs
contains-item_ids i [] = refl
contains-item_ids i (x ∷ xs) = ap (λ b. i == x.1.id || b) (contains-item_ids i xs)

contains-sorted_ids :
    (i : String) (xs : List IndexedPack)
    → contains i (item_ids (sorted index_le xs)) ≡ contains i (item_ids xs)
contains-sorted_ids i xs =
    contains-item_ids i (sorted index_le xs)
    ∙ any-sorted index_le (λ x. i == x.1.id) xs
    ∙ sym (contains-item_ids i xs)

contains-append_ids :
    (i : String) (xs ys : List IndexedPack)
    → contains i (item_ids (xs ++ ys)) ≡ contains i (item_ids xs) || contains i (item_ids ys)
contains-append_ids i [] ys = refl
contains-append_ids i (x ∷ xs) ys = ground (arith, contains-append_ids i xs ys)

module _ (prompts : Prompts) (limits : Limits) (packs : List ContextPack) (files : List ChangedFile)
    (archived : Dict String Priority) where
  -- No pack, by its place in the list of packs, is in both the deep and the shallow stage.
  pub plan_stages-disjoint :
      let st = plan_stages prompts limits packs files archived in
      All (λ x. has_index x.0 st.deep ≡ false) st.shallow
  unfolding plan_stages
  plan_stages-disjoint =
      let deep = (deep_stage prompts limits packs files archived).0 in
      let used = (deep_stage prompts limits packs files archived).1 in
      let q : ℕ → Bool = λ i. has_index i deep in
      let items = reviewable (shallow_over_budget_ids prompts limits packs) packs in
      let fresh = shallow_candidates prompts limits packs files archived in
      let capped = shallow_budget_candidates prompts limits packs files archived in
      let cap = shallow_cap prompts limits packs files archived in
      let kept = All-if_none q (is_fast limits) (filter (λ x. not (q x.0)) items) (
        All_imp (λ x. not (q x.0) ≡ true) (λ x. q x.0 ≡ false) (filter (λ x. not (q x.0)) items)
          (λ x h. not-true (q x.0) h) (filter-All (λ x. not (q x.0)) items)) in
      All-unless q (is_fast limits) _ (
        select_indexes_with_token_budget-fails q prompts.shallow_tokens capped packs files
          (remaining limits.max_input_tokens used)
          (All-if_none q (is_fast limits) _ (
            All-select_llm_context_pack_indexes (λ x. q x.0 ≡ false) fresh files cap archived
              kept)))

  -- An id is selected if and only if it is in one of the stages.
  pub contains-selected_items :
      (i : String)
      → let st = plan_stages prompts limits packs files archived in
        contains i (item_ids (selected_items st))
        ≡ contains i (item_ids (sorted index_le st.deep))
          || contains i (item_ids (sorted index_le st.shallow))
  unfolding selected_items
  contains-selected_items i =
      let st = plan_stages prompts limits packs files archived in
      let same = filter_all (λ x. has_index x.0 st.deep) st.shallow plan_stages-disjoint in
      contains-sorted_ids i (st.deep ++ filter (λ x. not (has_index x.0 st.deep)) st.shallow)
      ∙ ap (λ xs. contains i (item_ids (st.deep ++ xs))) same
      ∙ contains-append_ids i st.deep st.shallow
      ∙ rw (contains-sorted_ids i st.deep, contains-sorted_ids i st.shallow) refl
