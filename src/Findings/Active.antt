-- ===== src/Findings/Active.antt =====
-- The active decisions of a history.
use apex_ray.Base.Or.{or_false, or_true, or_assoc}
use apex_ray.Base.{
  ℕ, suc, ◌≡◌, refl, sym, ap, ◌∙◌, inl, inr, String, Bool, true, false, not, ◌&&◌, ◌||◌, List, [],
  ◌∷◌, ◌++◌, if◌then◌else◌, ◌==◌, ==_iff, filter, any, any-append, arith, ne_of_test, All, All_imp,
  All-append, Bool-cases, string_eq,
}
use apex_ray.Base.Distinct.{Distinct, Distinct-filter, Distinct-snoc, All-filter, filter-All}
use apex_ray.Models.{FindingVerification}
use apex_ray.Findings.{Scanner}
use apex_ray.Findings.Verify.{
  Placed, placed_from, gives_way, verification_decisions_match, active_onto, active_verifications,
}

-- A filter that lets all of them through does not change whether there is one.
any-filter {ℓ} :
    {A : Type ℓ} (p q : A → Bool) (xs : List A)
    → ((x : A) → p x ≡ true → q x ≡ true)
    → any p (filter q xs) ≡ any p xs
any-filter p q [] h = refl
any-filter p q (x ∷ xs) h = elim (Bool-cases (q x)) [
  | inl e ↦ rw e (ap (λ b. p x || b) (any-filter p q xs h))
  | inr e ↦ elim (Bool-cases (p x)) [
    | inl k ↦ absurd (let e' : true ≡ false = sym (h x k) ∙ e in cc)
    | inr k ↦ rw (e, k) (any-filter p q xs h)
  ]
]

false_of_negation : (b : Bool) → not b ≡ true → b ≡ false
false_of_negation b e = ground arith

-- What is of `r` does not give way to what is not.
stays :
    (c v r : String) (m : Bool) → (c == r) ≡ true → (v == r) ≡ false → not ((c == v) && m) ≡ true
stays c v r m same other = elim (Bool-cases (c == v)) [
  | inl e ↦ absurd (ne_of_test v r other (sym ((==_iff c v).0 e) ∙ (==_iff c r).0 same))
  | inr e ↦ ap (λ b. not (b && m)) e
]

abbrev decided_by : String → FindingVerification → Bool
decided_by reviewer_id v = v.reviewer_id == reviewer_id

module _ (scan : Scanner) where
  abbrev displaces : Placed → Placed → Bool
  displaces a b = gives_way scan a.1 b.1

  -- Decisions that stand: none superseded, and none that gives way to a later one.
  pub record IsCurrent (active : List Placed) : Type 0 where
    pub valid : All (λ p. p.1.superseded ≡ false) active
    pub distinct : Distinct displaces active

  keep : FindingVerification → List Placed → List Placed
  keep v active = filter (λ c. not (gives_way scan c.1 v)) active

  keep-IsCurrent :
      (i : ℕ) (v : FindingVerification) (active : List Placed)
      → v.superseded ≡ false
      → IsCurrent active
      → IsCurrent (keep v active ++ (i, v) ∷ [])
  unfolding keep
  keep-IsCurrent i v active e h = record {
    valid =
        All-append (λ p. p.1.superseded ≡ false) (keep v active) ((i, v) ∷ [])
          (All-filter (λ p. p.1.superseded ≡ false) (λ c. not (gives_way scan c.1 v)) active
            h.valid)
          (e, tt);
    distinct =
        Distinct-snoc displaces (keep v active) (i, v)
          (Distinct-filter displaces (λ c. not (gives_way scan c.1 v)) active h.distinct)
          (All_imp (λ c. not (gives_way scan c.1 v) ≡ true) (λ c. displaces c (i, v) ≡ false)
            (keep v active) (λ c k. false_of_negation (gives_way scan c.1 v) k)
            (filter-All (λ c. not (gives_way scan c.1 v)) active));
  }

  -- The active decisions behind one more decision.
  next : Bool → ℕ → FindingVerification → List Placed → List Placed
  next superseded i v active = if superseded then active else keep v active ++ (i, v) ∷ []

  next-IsCurrent :
      (i : ℕ) (v : FindingVerification) (active : List Placed) (b : Bool)
      → v.superseded ≡ b
      → IsCurrent active
      → IsCurrent (next b i v active)
  unfolding next
  next-IsCurrent i v active true e h = h
  next-IsCurrent i v active false e h = keep-IsCurrent i v active e h

  active_onto-IsCurrent :
      (active history : List Placed)
      → IsCurrent active
      → IsCurrent (active_onto scan active history)
  unfolding active_onto keep next
  active_onto-IsCurrent active [] h = h
  active_onto-IsCurrent active ((i, v) ∷ history) h =
      active_onto-IsCurrent (next v.superseded i v active) history
        (next-IsCurrent i v active v.superseded refl h)

  -- A decision gives way only to one of the same reviewer.
  keep-reviewer :
      (r : String) (i : ℕ) (v : FindingVerification) (active : List Placed)
      → any (λ p. decided_by r p.1) (keep v active ++ (i, v) ∷ [])
        ≡ any (λ p. decided_by r p.1) active || decided_by r v
  unfolding keep
  keep-reviewer r i v active =
      any-append (λ p. decided_by r p.1) (keep v active) ((i, v) ∷ [])
      ∙ elim (Bool-cases (decided_by r v)) [
        | inl e ↦
            ap (λ b. any (λ p. decided_by r p.1) (keep v active) || (b || false)) e
            ∙ or_true (any (λ p. decided_by r p.1) (keep v active))
                (any (λ p. decided_by r p.1) active)
            ∙ sym (ap (λ b. any (λ p. decided_by r p.1) active || b) e)
        | inr e ↦
            ap (λ b. any (λ p. decided_by r p.1) (keep v active) || (b || false)) e
            ∙ ap (λ b. b || false)
                (any-filter (λ p. decided_by r p.1) (λ c. not (gives_way scan c.1 v)) active
                  (λ c k.
                    stays c.1.reviewer_id v.reviewer_id r (verification_decisions_match scan c.1 v)
                      k e))
            ∙ sym (ap (λ b. any (λ p. decided_by r p.1) active || b) e)
      ]

  abbrev stands_for : String → FindingVerification → Bool
  stands_for r v = not v.superseded && decided_by r v

  next-reviewer :
      (r : String) (i : ℕ) (v : FindingVerification) (active : List Placed) (b : Bool)
      → any (λ p. decided_by r p.1) (next b i v active)
        ≡ any (λ p. decided_by r p.1) active || (not b && decided_by r v)
  unfolding next
  next-reviewer r i v active true = sym (or_false (any (λ p. decided_by r p.1) active))
  next-reviewer r i v active false = keep-reviewer r i v active

  active_onto-reviewer :
      (r : String) (i : ℕ) (active : List Placed) (history : List FindingVerification)
      → any (λ p. decided_by r p.1) (active_onto scan active (placed_from i history))
        ≡ any (λ p. decided_by r p.1) active || any (stands_for r) history
  unfolding active_onto placed_from keep next
  active_onto-reviewer r i active [] =
      elim (any (λ p. decided_by r p.1) active) as (λ b. b ≡ b || false) [
        | true ↦ refl
        | false ↦ refl
      ]
  active_onto-reviewer r i active (v ∷ history) =
      active_onto-reviewer r (suc i) (next v.superseded i v active) history
      ∙ ap (λ b. b || any (stands_for r) history) (next-reviewer r i v active v.superseded)
      ∙ or_assoc (any (λ p. decided_by r p.1) active) (stands_for r v) (any (stands_for r) history)

  -- The active decisions are not superseded, none of them gives way to a later one of them, and a reviewer has one
  -- exactly if the history has a decision of that reviewer which is not superseded.
  pub active_verifications-IsCurrent :
      (history : List FindingVerification)
      → IsCurrent (active_verifications scan history)
        × ((r : String)
            → any (λ p. p.1.reviewer_id == r) (active_verifications scan history)
              ≡ any (λ v. not v.superseded && (v.reviewer_id == r)) history)
  unfolding active_verifications
  active_verifications-IsCurrent history = (
    active_onto-IsCurrent [] (placed_from 0 history) (record { valid = tt; distinct = tt }),
    λ r. active_onto-reviewer r 0 [] history,
  )
