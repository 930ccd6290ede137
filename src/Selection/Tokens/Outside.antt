-- ===== src/Selection/Tokens/Outside.antt =====
-- The choice under a token budget takes only indexes of its candidates.
use apex_ray.Base.{
  ℕ, ◌+◌, ◌≡◌, ap, ◌∙◌, inl, inr, Bool, true, false, Option, none, some, List, [], ◌∷◌, ◌++◌, arith,
  eqb, ltb, filter, All, All_imp, All-append, Bool-cases,
}
use apex_ray.Base.Sort.{sorted, All-sorted}
use apex_ray.Base.Distinct.{filter-All}
use apex_ray.Models.{ChangedFile, ContextPack}
use apex_ray.Selection.{IndexedPack, priority_ge, kinds_by_path}
use apex_ray.Selection.Cap.{has_index}
use apex_ray.Selection.Tokens.{enumerate_from, take_fitting, select_indexes_with_token_budget}

-- A test of indexes that fails for each of the items fails for every index among them.
has_index-fails :
    (q : ℕ → Bool) (i : ℕ) (xs : List IndexedPack)
    → All (λ x. q x.0 ≡ false) xs
    → has_index i xs ≡ true
    → q i ≡ false
has_index-fails q i [] h k = cc
has_index-fails q i (x ∷ xs) h k = elim (Bool-cases (eqb i x.0)) [
  | inl e ↦ let same : i ≡ x.0 = ground arith in ap q same ∙ h.0
  | inr e ↦ has_index-fails q i xs h.1 (ground arith)
]

take_fitting-All :
    (P : IndexedPack → Type 0) (tokens : ContextPack → ℕ) (budget : ℕ) (s : List IndexedPack)
    (used : ℕ) (xs : List IndexedPack)
    → All P s
    → All P xs
    → All P (take_fitting tokens budget s used xs).0
unfolding take_fitting
take_fitting-All P tokens budget s used [] hs hx = hs
take_fitting-All P tokens budget s used (x ∷ xs) hs hx =
    elim (Bool-cases (ltb budget (used + tokens x.1))) [
      | inl over ↦ rw (take_fitting, over) (take_fitting-All P tokens budget s used xs hs hx.1)
      | inr fits ↦
          rw (take_fitting, fits)
            (take_fitting-All P tokens budget (s ++ x ∷ []) (used + tokens x.1) xs
              (All-append P s (x ∷ []) hs (hx.0, tt)) hx.1)
    ]

-- The choice under a token budget takes no index that no candidate has.
pub select_indexes_with_token_budget-fails :
    (q : ℕ → Bool) (tokens : ContextPack → ℕ) (candidates : List IndexedPack)
    (packs : List ContextPack) (files : List ChangedFile) (budget : Option ℕ)
    → All (λ x. q x.0 ≡ false) candidates
    → All
        (λ x. q x.0 ≡ false)
        (select_indexes_with_token_budget tokens candidates packs files budget).0
unfolding select_indexes_with_token_budget
select_indexes_with_token_budget-fails q tokens [] packs files budget h = tt
select_indexes_with_token_budget-fails q tokens (c ∷ cs) packs files none h = h
select_indexes_with_token_budget-fails q tokens (c ∷ cs) packs files (some budget) h =
    let items = filter (λ x. has_index x.0 (c ∷ cs)) (enumerate_from 0 packs) in
    let ge = priority_ge (kinds_by_path [] files) in
    elim (Bool-cases (eqb budget 0)) [
      | inl e ↦ rw (select_indexes_with_token_budget, e) tt
      | inr e ↦
          rw (select_indexes_with_token_budget, e)
            (take_fitting-All (λ x. q x.0 ≡ false) tokens budget [] 0 (sorted ge items) tt
              (All-sorted ge (λ x. q x.0 ≡ false) items
                (All_imp (λ x. has_index x.0 (c ∷ cs) ≡ true) (λ x. q x.0 ≡ false) items
                  (λ x k. has_index-fails q x.0 (c ∷ cs) h k)
                  (filter-All (λ x. has_index x.0 (c ∷ cs)) (enumerate_from 0 packs)))))
    ]
