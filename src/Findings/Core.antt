-- ===== src/Findings/Core.antt =====
-- Consolidated findings are findings that were given, but for their provenance.
use apex_ray.Base.{
  ◌≡◌, refl, subst, inl, inr, String, Bool, true, false, List, [], ◌∷◌, if◌then◌else◌, All, All_imp,
  Any,
}
use apex_ray.Models.{Finding}
use apex_ray.Findings.{Scanner, findings_are_duplicates}
use apex_ray.Findings.Provenance.{merge_finding_reviewer_provenance}
use apex_ray.Findings.Consolidate.{
  tuple_gt, finding_preference_key, merge_duplicate, consolidate_finding, consolidate_onto,
  consolidate_findings,
}

-- The finding without its provenance.
abbrev pub core : Finding → Finding
core finding = record finding { reviewer_ids = []; reviewer_context_pack_ids = [] }

given_of_given : (findings : List Finding) → All (λ g. Any (λ f. core g ≡ core f) findings) findings
given_of_given [] = tt
given_of_given (x ∷ xs) = (
  inl refl,
  All_imp (λ g. Any (λ f. core g ≡ core f) xs) (λ g. Any (λ f. core g ≡ core f) (x ∷ xs)) xs
      (λ g h. inr h) (given_of_given xs),
)

module _ (scan : Scanner) (le : String → String → Bool) (preferred_findings : List Finding) where
  module _ (P : Finding → Type 0) (whole : (f g : Finding) → core f ≡ core g → P f → P g) where
    merge_duplicate-keeps :
        (existing finding : Finding)
        → P existing
        → P finding
        → P (merge_duplicate scan le preferred_findings existing finding)
    unfolding merge_duplicate merge_finding_reviewer_provenance
    merge_duplicate-keeps existing finding h k = go (
        tuple_gt (finding_preference_key scan le preferred_findings finding)
          (finding_preference_key scan le preferred_findings existing))
      where
        go :
            (b : Bool)
            → P (
                merge_finding_reviewer_provenance le
                  (if b then finding else existing)
                  (existing ∷ finding ∷ []))
        go true = whole finding _ refl k
        go false = whole existing _ refl h

    consolidate_finding-All :
        (cs : List Finding) (finding : Finding)
        → All P cs
        → P finding
        → All P (consolidate_finding scan le preferred_findings cs finding)
    unfolding consolidate_finding
    consolidate_finding-All [] finding hs h = (h, tt)
    consolidate_finding-All (existing ∷ rest) finding hs h =
        elim (findings_are_duplicates scan existing finding)
          as (λ b. All P (
            if b
            then merge_duplicate scan le preferred_findings existing finding ∷ rest
            else existing ∷ consolidate_finding scan le preferred_findings rest finding)) [
              | true ↦ (merge_duplicate-keeps existing finding hs.0 h, hs.1)
              | false ↦ (hs.0, consolidate_finding-All rest finding hs.1 h)
            ]

    consolidate_onto-All :
        (cs findings : List Finding)
        → All P cs
        → All P findings
        → All P (consolidate_onto scan le preferred_findings cs findings)
    unfolding consolidate_onto
    consolidate_onto-All cs [] hs h = hs
    consolidate_onto-All cs (f ∷ fs) hs h =
        consolidate_onto-All (consolidate_finding scan le preferred_findings cs f) fs
          (consolidate_finding-All cs f hs h.0) h.1

  -- Every consolidated finding is, but for its provenance, one of the findings that were given.
  pub consolidate_findings-core :
      (findings : List Finding)
      → All
          (λ g. Any (λ f. core g ≡ core f) findings)
          (consolidate_findings scan le preferred_findings findings)
  unfolding consolidate_findings
  consolidate_findings-core findings =
      consolidate_onto-All (λ g. Any (λ f. core g ≡ core f) findings)
        (λ f g e h. subst (λ x. Any (λ k. x ≡ core k) findings) e h) [] findings tt
        (given_of_given findings)
