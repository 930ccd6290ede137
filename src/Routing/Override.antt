-- ===== src/Routing/Override.antt =====
-- The model that the rules of a pack ask for.
use apex_ray.Base.{
  ℕ, suc, ◌≡◌, refl, sym, ap, ◌∙◌, inl, inr, true, false, String, Option, none, some, List, [], ◌∷◌,
  filter, if◌then◌else◌, length, All, All_imp, Any, arith, Bool-cases, string_eq,
}
use apex_ray.Base.Sort.{IsSorted, length-sorted, All-sorted, sorted-All, sorted-IsSorted}
use apex_ray.Base.Distinct.{filter-All}
use apex_ray.Models.{RuleMatch}
use apex_ray.Routing.{
  is_filled, Ranked, enumerate_rules, ranks_first, ranked_rules, first_field, rule_model_override,
}

ranks_first_total : (a b : Ranked) → ranks_first a b ≡ false → ranks_first b a ≡ true
ranks_first_total a b h = ground arith

ranks_first_trans :
    (a b c : Ranked) → ranks_first a b ≡ true → ranks_first b c ≡ true → ranks_first a c ≡ true
ranks_first_trans a b c h k = ground arith

ranks_first_refl : (a : Ranked) → ranks_first a a ≡ true
ranks_first_refl a = ground arith

all_among : (xs : List Ranked) → All (λ x. Any (λ y. y ≡ x) xs) xs
all_among [] = tt
all_among (x ∷ xs) = (
  inl refl,
  All_imp (λ z. Any (λ y. y ≡ z) xs) (λ z. Any (λ y. y ≡ z) (x ∷ xs)) xs (λ z h. inr h)
      (all_among xs),
)

module _ (field : RuleMatch → Option String) where
  -- The rules that fill the field, with their positions.
  abbrev pub filled_rules : List RuleMatch → List Ranked
  filled_rules rules = filter (λ r. is_filled (field r.1)) (enumerate_rules 0 rules)

  -- What an override says about the rules: `best` is one of the rules that fill the field, at its own position.
  abbrev pub IsOverride : List RuleMatch → Option String → Type 0
  IsOverride rules none = All (λ r. is_filled (field r) ≡ false) rules
  IsOverride rules (some name) =
      (best : Ranked) × (field best.1 ≡ some name)
      × Any (λ r. r ≡ best) (filled_rules rules)
      × All (λ r. ranks_first best r ≡ true) (filled_rules rules)

  none_filled :
      (i : ℕ) (rules : List RuleMatch)
      → length (filter (λ r. is_filled (field r.1)) (enumerate_rules i rules)) ≡ 0
      → All (λ r. is_filled (field r) ≡ false) rules
  unfolding enumerate_rules
  none_filled i [] h = tt
  none_filled i (r ∷ rs) h = elim (Bool-cases (is_filled (field r))) [
    | inl e ↦ absurd (
        let k = sym (ap (λ b. length (if b then (i, r) ∷ rest else rest)) e) ∙ h in
        omega (arith, k))
    | inr e ↦ (
      e,
      none_filled (suc i) rs (sym (ap (λ b. length (if b then (i, r) ∷ rest else rest)) e) ∙ h),
    )
  ]
    where
      rest : List Ranked
      rest = filter (λ q. is_filled (field q.1)) (enumerate_rules (suc i) rs)

  best_field :
      (rules : List RuleMatch) (best : Ranked) (o : Option String)
      → field best.1 ≡ o
      → is_filled o ≡ true
      → Any (λ r. r ≡ best) (filled_rules rules)
      → All (λ r. ranks_first best r ≡ true) (filled_rules rules)
      → IsOverride rules o
  best_field rules best none e h from top = cc
  best_field rules best (some name) e h from top = (best, e, from, top)

  -- Without an override no rule fills the field. An override is the field of one of the rules that fill it, taken with
  -- its position in the list: no other of them has a greater weight, severity before strictness, and of those with the
  -- same weight none stands before it.
  pub rule_model_override-IsOverride :
      (rules : List RuleMatch) → IsOverride rules (rule_model_override field rules)
  unfolding rule_model_override ranked_rules
  rule_model_override-IsOverride rules =
      go (ranked_rules field rules)
        (sorted-IsSorted ranks_first ranks_first_total ranks_first_trans (filled_rules rules))
        (length-sorted ranks_first (filled_rules rules))
        (All-sorted ranks_first (λ s. Any (λ r. r ≡ s) (filled_rules rules)) (filled_rules rules)
          (all_among (filled_rules rules)))
        (All-sorted ranks_first (λ s. is_filled (field s.1) ≡ true) (filled_rules rules)
          (filter-All (λ r. is_filled (field r.1)) (enumerate_rules 0 rules)))
        (λ best h. sorted-All ranks_first (λ s. ranks_first best s ≡ true) (filled_rules rules) h)
    where
      go :
          (ranked : List Ranked)
          → IsSorted ranks_first ranked
          → length ranked ≡ length (filled_rules rules)
          → All (λ s. Any (λ r. r ≡ s) (filled_rules rules)) ranked
          → All (λ s. is_filled (field s.1) ≡ true) ranked
          → ((best : Ranked)
              → All (λ s. ranks_first best s ≡ true) ranked
              → All (λ s. ranks_first best s ≡ true) (filled_rules rules))
          → IsOverride rules (first_field field ranked)
      go [] sort len from full back = none_filled 0 rules (sym len)
      go (best ∷ rest) sort len from full back =
          best_field rules best (field best.1) refl full.0 from.0
            (back best (ranks_first_refl best, sort.0))
