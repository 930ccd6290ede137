-- ===== src/Selection/Tokens/Few.antt =====
-- The choice under a token budget takes no more packs than it has candidates.
use apex_ray.Base.{
  ℕ, suc, ◌+◌, ◌≤◌, ◌<◌, ◌≡◌, inl, inr, Bool, false, Option, none, some, List, [], ◌∷◌, ◌++◌, arith,
  eqb, ltb, length, length-append, filter, All, Bool-cases,
}
use apex_ray.Base.Sort.{sorted, length-sorted}
use apex_ray.Base.Distinct.{Distinct, Distinct-filter, filter-All}
use apex_ray.Models.{ChangedFile, ContextPack}
use apex_ray.Selection.{IndexedPack, priority_ge, kinds_by_path}
use apex_ray.Selection.Cap.{has_index}
use apex_ray.Selection.Cap.Fill.{same_index, pigeonhole}
use apex_ray.Selection.Tokens.{enumerate_from, take_fitting, select_indexes_with_token_budget}

later :
    (i j : ℕ) (packs : List ContextPack)
    → i < j
    → All (λ x. eqb i x.0 ≡ false) (enumerate_from j packs)
unfolding enumerate_from
later i j [] h = tt
later i j (p ∷ packs) h = (ground arith, later i (suc j) packs (omega (arith, h)))

pub enumerate_from-Distinct :
    (i : ℕ) (packs : List ContextPack) → Distinct same_index (enumerate_from i packs)
unfolding enumerate_from
enumerate_from-Distinct i [] = tt
enumerate_from-Distinct i (p ∷ packs) =
    (later i (suc i) packs (omega arith), enumerate_from-Distinct (suc i) packs)

module _ (tokens : ContextPack → ℕ) (files : List ChangedFile) where
  length-take_fitting :
      (budget : ℕ) (s : List IndexedPack) (used : ℕ) (xs : List IndexedPack)
      → length (take_fitting tokens budget s used xs).0 ≤ length s + length xs
  unfolding take_fitting
  length-take_fitting budget s used [] = omega arith
  length-take_fitting budget s used (x ∷ xs) = elim (Bool-cases (ltb budget (used + tokens x.1))) [
    | inl over ↦ rw (take_fitting, over) (omega (arith, length-take_fitting budget s used xs))
    | inr fits ↦
        rw (take_fitting, fits)
          (omega (
            arith,
            length-take_fitting budget (s ++ x ∷ []) (used + tokens x.1) xs,
            length-append s (x ∷ []),
          ))
  ]

  -- No more packs than candidates.
  pub length-select_indexes_with_token_budget :
      (candidates : List IndexedPack) (packs : List ContextPack) (budget : Option ℕ)
      → length (select_indexes_with_token_budget tokens candidates packs files budget).0
        ≤ length candidates
  unfolding select_indexes_with_token_budget
  length-select_indexes_with_token_budget [] packs budget = omega arith
  length-select_indexes_with_token_budget (c ∷ cs) packs none = omega arith
  length-select_indexes_with_token_budget (c ∷ cs) packs (some budget) =
      let in_candidates : IndexedPack → Bool = λ x. has_index x.0 (c ∷ cs) in
      let items = enumerate_from 0 packs in
      let candidates = filter in_candidates items in
      let ge = priority_ge (kinds_by_path [] files) in
      let few =
        pigeonhole candidates (c ∷ cs)
          (Distinct-filter same_index in_candidates items (enumerate_from-Distinct 0 packs))
          (filter-All in_candidates items) in
      elim (Bool-cases (eqb budget 0)) [
        | inl e ↦ rw e (omega arith)
        | inr e ↦ rw e (
            omega (
              arith,
              few,
              length-take_fitting budget [] 0 (sorted ge candidates),
              length-sorted ge candidates,
            ))
      ]
