-- ===== src/Selection/Tokens/Fits.antt =====
-- What the choice under a token budget promises.
use apex_ray.Base.{
  ℕ, ◌+◌, ◌≤◌, ◌<◌, ◌≡◌, refl, sym, subst, ◌⊎◌, inl, inr, true, false, some, List, [], ◌∷◌, ◌++◌,
  arith, eqb, ltb, ltb→lt, filter, sum_by, All, Bool-cases,
}
use apex_ray.Base.Sort.{sorted, sorted-All}
use apex_ray.Models.{ChangedFile, ContextPack}
use apex_ray.Selection.{IndexedPack, priority_ge, kinds_by_path}
use apex_ray.Selection.Cap.{has_index}
use apex_ray.Selection.Tokens.{enumerate_from, take_fitting, select_indexes_with_token_budget}

has_index-snoc_old :
    (i : ℕ) (s : List IndexedPack) (x : IndexedPack)
    → has_index i s ≡ true
    → has_index i (s ++ x ∷ []) ≡ true
has_index-snoc_old i [] x h = ground arith
has_index-snoc_old i (y ∷ s) x h = ground (arith, has_index-snoc_old i s x)

has_index-snoc_new : (s : List IndexedPack) (x : IndexedPack) → has_index x.0 (s ++ x ∷ []) ≡ true
has_index-snoc_new [] x = ground arith
has_index-snoc_new (y ∷ s) x = ground (arith, has_index-snoc_new s x)

module _ (tokens : ContextPack → ℕ) (budget : ℕ) where
  abbrev used_by : List IndexedPack → ℕ
  used_by = sum_by (λ x. tokens x.1)

  used_by-snoc :
      (s : List IndexedPack) (x : IndexedPack) → used_by (s ++ x ∷ []) ≡ used_by s + tokens x.1
  used_by-snoc [] x = omega arith
  used_by-snoc (y ∷ s) x = omega (arith, used_by-snoc s x)

  take_fitting-used :
      (s : List IndexedPack) (used : ℕ) (xs : List IndexedPack)
      → used ≡ used_by s
      → used ≤ budget
      → let r = take_fitting tokens budget s used xs in (r.1 ≡ used_by r.0) × (r.1 ≤ budget)
  unfolding take_fitting
  take_fitting-used s used [] e h = (e, h)
  take_fitting-used s used (x ∷ xs) e h = elim (Bool-cases (ltb budget (used + tokens x.1))) [
    | inl over ↦ rw (take_fitting, over) (take_fitting-used s used xs e h)
    | inr fits ↦
        rw (take_fitting, fits)
          (take_fitting-used (s ++ x ∷ []) (used + tokens x.1) xs
            (omega (arith, e, used_by-snoc s x)) (ground arith))
  ]

  -- What is selected and used only grows.
  take_fitting-grows :
      (i : ℕ) (s : List IndexedPack) (used : ℕ) (xs : List IndexedPack)
      → let r = take_fitting tokens budget s used xs in
        (used ≤ r.1) × (has_index i s ≡ true → has_index i r.0 ≡ true)
  unfolding take_fitting
  take_fitting-grows i s used [] = (omega arith, λ h. h)
  take_fitting-grows i s used (x ∷ xs) = elim (Bool-cases (ltb budget (used + tokens x.1))) [
    | inl over ↦ rw (take_fitting, over) (take_fitting-grows i s used xs)
    | inr fits ↦
        let rest = take_fitting-grows i (s ++ x ∷ []) (used + tokens x.1) xs in
        rw (take_fitting, fits) (omega (arith, rest.0), λ h. rest.1 (has_index-snoc_old i s x h))
  ]

  -- A pack is selected, or it would not fit in what is left.
  abbrev pub Settled : List IndexedPack × ℕ → IndexedPack → Type 0
  Settled r x = (has_index x.0 r.0 ≡ true) ⊎ (budget < r.1 + tokens x.1)

  module _ (s : List IndexedPack) (used : ℕ) (x : IndexedPack) (xs : List IndexedPack) where
    take_fitting-over :
        ltb budget (used + tokens x.1) ≡ true
        → take_fitting tokens budget s used (x ∷ xs) ≡ take_fitting tokens budget s used xs
    unfolding take_fitting
    take_fitting-over e = rw (take_fitting, e) refl

    take_fitting-fits :
        ltb budget (used + tokens x.1) ≡ false
        → take_fitting tokens budget s used (x ∷ xs)
          ≡ take_fitting tokens budget (s ++ x ∷ []) (used + tokens x.1) xs
    unfolding take_fitting
    take_fitting-fits e = rw (take_fitting, e) refl

  take_fitting-Settled :
      (s : List IndexedPack) (used : ℕ) (xs : List IndexedPack)
      → All (Settled (take_fitting tokens budget s used xs)) xs
  unfolding take_fitting
  take_fitting-Settled s used [] = tt
  take_fitting-Settled s used (x ∷ xs) =
      let result : List IndexedPack × ℕ → Type 0 = λ r. All (Settled r) (x ∷ xs) in
      elim (Bool-cases (ltb budget (used + tokens x.1))) [
        | inl over ↦
            let grows = take_fitting-grows x.0 s used xs in
            let over' = ltb→lt budget (used + tokens x.1) over in
            subst result (sym (take_fitting-over s used x xs over))
              (inr (omega (arith, over', grows.0)), take_fitting-Settled s used xs)
        | inr fits ↦
            let grows = take_fitting-grows x.0 (s ++ x ∷ []) (used + tokens x.1) xs in
            subst result (sym (take_fitting-fits s used x xs fits)) (
              inl (grows.1 (has_index-snoc_new s x)),
              take_fitting-Settled (s ++ x ∷ []) (used + tokens x.1) xs,
            )
      ]

All-filter_none :
    (P : IndexedPack → Type 0) (xs : List IndexedPack) → All P (filter (λ x. has_index x.0 []) xs)
All-filter_none P [] = tt
All-filter_none P (x ∷ xs) = All-filter_none P xs

module _ (tokens : ContextPack → ℕ) where
  -- The reported tokens are those of the selected packs, and within the budget, if there is one.
  pub select_indexes_with_token_budget_fits :
      (candidates : List IndexedPack) (packs : List ContextPack) (files : List ChangedFile)
      (budget : ℕ)
      → let r = select_indexes_with_token_budget tokens candidates packs files (some budget) in
        (r.1 ≡ sum_by (λ x. tokens x.1) r.0) × (r.1 ≤ budget)
  unfolding select_indexes_with_token_budget
  select_indexes_with_token_budget_fits [] packs files budget = (refl, omega arith)
  select_indexes_with_token_budget_fits (c ∷ cs) packs files budget =
      elim (Bool-cases (eqb budget 0)) [
        | inl e ↦ rw (select_indexes_with_token_budget, e) (refl, omega arith)
        | inr e ↦
            rw (select_indexes_with_token_budget, e)
              (take_fitting-used tokens budget [] 0 _ refl (omega arith))
      ]

  -- The choice is greedy to the end: of the packs with a candidate's index, each is selected or would not
  -- fit in what the selected ones leave of the budget, if this is not 0.
  pub select_indexes_with_token_budget-Settled :
      (candidates : List IndexedPack) (packs : List ContextPack) (files : List ChangedFile)
      (budget : ℕ)
      → 1 ≤ budget
      → let r = select_indexes_with_token_budget tokens candidates packs files (some budget) in
        All
          (Settled tokens budget r)
          (filter (λ x. has_index x.0 candidates) (enumerate_from 0 packs))
  unfolding select_indexes_with_token_budget
  select_indexes_with_token_budget-Settled [] packs files budget h =
      All-filter_none (Settled tokens budget ([], 0)) (enumerate_from 0 packs)
  select_indexes_with_token_budget-Settled (c ∷ cs) packs files budget h =
      let candidates = filter (λ x. has_index x.0 (c ∷ cs)) (enumerate_from 0 packs) in
      let ge = priority_ge (kinds_by_path [] files) in
      let result : List IndexedPack × ℕ → Type 0 = λ r. All (Settled tokens budget r) candidates in
      let some_budget : eqb budget 0 ≡ false = ground arith in
      let chosen : List IndexedPack × ℕ = take_fitting tokens budget [] 0 (sorted ge candidates) in
      let settled =
        sorted-All ge (Settled tokens budget chosen) candidates
          (take_fitting-Settled tokens budget [] 0 (sorted ge candidates)) in
      rw some_budget settled
