-- ===== src/Selection/Tokens.antt =====
-- The choice under a budget of input tokens, `_select_indexes_with_token_budget`. The tokens of a pack, which
-- the source estimates from the rendered prompt and the provider, are a parameter.
pub mod Fits
pub mod Few
pub mod Outside
use apex_ray.Base.{
  ℕ, zero, suc, ◌+◌, ◌≤◌, ◌<◌, ◌≡◌, refl, ◌⊎◌, inl, inr, Bool, true, false, ◌||◌, Option, none,
  some, List, [], ◌∷◌, ◌++◌, if◌then◌else◌, arith, eqb, ltb, ltb→lt, length, filter, any, sum_by,
  All, Bool-cases,
}
use apex_ray.Base.Sort.{sorted, All-sorted, sorted-perm}
use apex_ray.Models.{ChangedFile, ContextPack}
use apex_ray.Selection.{IndexedPack, priority_ge, kinds_by_path}
use apex_ray.Selection.Cap.{has_index}

-- `list(enumerate(context_packs))`
pub enumerate_from : ℕ → List ContextPack → List IndexedPack
enumerate_from i [] = []
enumerate_from i (pack ∷ packs) = (i, pack) ∷ enumerate_from (suc i) packs

module _ (tokens : ContextPack → ℕ) where
  -- The loop over the packs by priority, with `selected` and `used_tokens`.
  pub take_fitting : ℕ → List IndexedPack → ℕ → List IndexedPack → List IndexedPack × ℕ
  take_fitting token_budget selected used [] = (selected, used)
  take_fitting token_budget selected used (x ∷ xs) = elim (ltb token_budget (used + tokens x.1)) [
    | true ↦ take_fitting token_budget selected used xs
    | false ↦ take_fitting token_budget (selected ++ x ∷ []) (used + tokens x.1) xs
  ]

  pub select_indexes_with_token_budget :
      List IndexedPack → List ContextPack → List ChangedFile → Option ℕ → List IndexedPack × ℕ
  select_indexes_with_token_budget [] packs files budget = ([], 0)
  select_indexes_with_token_budget (c ∷ cs) packs files none =
      (c ∷ cs, sum_by (λ x. tokens x.1) (c ∷ cs))
  select_indexes_with_token_budget (c ∷ cs) packs files (some budget) =
      if eqb budget 0
      then ([], 0)
      else (let candidates = filter (λ x. has_index x.0 (c ∷ cs)) (enumerate_from 0 packs) in
          take_fitting budget [] 0 (sorted (priority_ge (kinds_by_path [] files)) candidates))
