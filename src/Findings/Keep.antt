-- ===== src/Findings/Keep.antt =====
-- What consolidation keeps.
use apex_ray.Base.Or.{or_swap, or_swap_last, or_assoc, or_idle, or_false}
use apex_ray.Base.{
  ◌≡◌, refl, sym, ap, ◌∙◌, subst, inl, inr, String, Bool, true, false, ◌||◌, List, [], ◌∷◌, ◌++◌,
  if◌then◌else◌, ◌==◌, ==_iff, ==_refl, contains, truthy, Bool-cases, string_eq,
}
use apex_ray.Base.Sort.{sorted, insert_sorted}
use apex_ray.Models.{Finding}
use apex_ray.Findings.{Scanner, as_set, findings_are_duplicates}
use apex_ray.Findings.Provenance.{
  provenance, all_provenance, named_ids, merge_finding_reviewer_provenance,
}
use apex_ray.Findings.Consolidate.{
  merge_duplicate, consolidate_finding, consolidate_onto, consolidate_findings,
}

contains-append :
    (id : String) (xs ys : List String) → contains id (xs ++ ys) ≡ contains id xs || contains id ys
contains-append id [] ys = refl
contains-append id (x ∷ xs) ys =
    ap (λ b. id == x || b) (contains-append id xs ys)
    ∙ sym (or_assoc (id == x) (contains id xs) (contains id ys))

contains-insert_sorted :
    (le : String → String → Bool) (id x : String) (xs : List String)
    → contains id (insert_sorted le x xs) ≡ contains id (x ∷ xs)
unfolding insert_sorted
contains-insert_sorted le id x [] = refl
contains-insert_sorted le id x (y ∷ ys) =
    elim (le x y)
      as (λ b.
        contains id (if b then x ∷ y ∷ ys else y ∷ insert_sorted le x ys)
        ≡ contains id (x ∷ y ∷ ys)) [
          | true ↦ refl
          | false ↦
              ap (λ b. id == y || b) (contains-insert_sorted le id x ys)
              ∙ or_swap (id == y) (id == x) (contains id ys)
        ]

contains-sorted :
    (le : String → String → Bool) (id : String) (xs : List String)
    → contains id (sorted le xs) ≡ contains id xs
unfolding sorted
contains-sorted le id [] = refl
contains-sorted le id (x ∷ xs) =
    contains-insert_sorted le id x (sorted le xs)
    ∙ ap (λ b. id == x || b) (contains-sorted le id xs)

contains-as_set : (id : String) (xs : List String) → contains id (as_set xs) ≡ contains id xs
unfolding as_set
contains-as_set id [] = refl
contains-as_set id (x ∷ xs) = elim (Bool-cases (contains x (as_set xs))) [
  | inl e ↦
      rw (as_set, e)
        (contains-as_set id xs
          ∙ or_idle (id == x) (contains id xs) (λ same.
            subst (λ y. contains y xs ≡ true) (sym ((==_iff id x).0 same))
              (sym (contains-as_set x xs) ∙ e)))
  | inr e ↦ rw (as_set, e) (ap (λ b. id == x || b) (contains-as_set id xs))
]

-- Without names "general" is meant.
abbrev or_general : List String → List String
or_general ids = if truthy ids then ids else "general" ∷ []

contains-named_ids :
    (id : String) (ids : List String)
    → truthy ids ≡ true
    → contains id (or_general (named_ids ids)) ≡ contains id ids
contains-named_ids id [] h = cc
contains-named_ids id (x ∷ []) h = elim (Bool-cases (x == "general")) [
  | inl e ↦ rw e (ap (λ y. contains id (y ∷ [])) (sym ((==_iff x "general").0 e)))
  | inr n ↦ rw n refl
]
contains-named_ids id (x ∷ y ∷ xs) h = refl

truthy-contains : (id : String) (ids : List String) → contains id ids ≡ true → truthy ids ≡ true
truthy-contains id [] h = cc
truthy-contains id (x ∷ xs) h = refl

some_provenance : (f : Finding) → (id : String) × (contains id (provenance f) ≡ true)
some_provenance f = go f.reviewer_ids
  where
    go : (ids : List String) → (id : String) × (contains id (or_general ids) ≡ true)
    go [] = ("general", ap (λ b. b || false) (==_refl {A = String} "general"))
    go (x ∷ xs) = (x, ap (λ b. b || contains x xs) (==_refl {A = String} x))

module _ (le : String → String → Bool) where
  -- Merging keeps the provenance of both findings, and adds none.
  merge-provenance :
      (id : String) (preferred left right : Finding)
      → contains id
          (provenance (merge_finding_reviewer_provenance le preferred (left ∷ right ∷ [])))
        ≡ contains id (provenance left) || contains id (provenance right)
  unfolding merge_finding_reviewer_provenance
  merge-provenance id preferred left right =
      let whole = provenance left ++ (provenance right ++ []) in
      let same : (i : String)
          → contains i (sorted le (as_set whole))
            ≡ contains i (provenance left) || contains i (provenance right) =
        λ i.
          contains-sorted le i (as_set whole)
          ∙ contains-as_set i whole
          ∙ contains-append i (provenance left) (provenance right ++ [])
          ∙ ap (λ b. contains i (provenance left) || b)
              (contains-append i (provenance right) []
                ∙ or_false (contains i (provenance right))) in
      let (i, h) = some_provenance left in
      contains-named_ids id (sorted le (as_set whole)) (
        truthy-contains i (sorted le (as_set whole))
          (same i ∙ ap (λ b. b || contains i (provenance right)) h))
      ∙ same id

module _ (scan : Scanner) (le : String → String → Bool) (preferred_findings : List Finding) where
  consolidate_finding-provenance :
      (id : String) (consolidated : List Finding) (finding : Finding)
      → contains id
          (all_provenance (consolidate_finding scan le preferred_findings consolidated finding))
        ≡ contains id (all_provenance consolidated) || contains id (provenance finding)
  unfolding consolidate_finding merge_duplicate
  consolidate_finding-provenance id [] finding =
      contains-append id (provenance finding) [] ∙ or_false (contains id (provenance finding))
  consolidate_finding-provenance id (existing ∷ rest) finding =
      let of_existing = contains id (provenance existing) in
      let of_rest = contains id (all_provenance rest) in
      let of_finding = contains id (provenance finding) in
      elim (findings_are_duplicates scan existing finding)
        as (λ b.
          contains id (
            all_provenance (
              if b
              then merge_duplicate scan le preferred_findings existing finding ∷ rest
              else existing ∷ consolidate_finding scan le preferred_findings rest finding))
          ≡ contains id (all_provenance (existing ∷ rest)) || of_finding) [
            | true ↦
                contains-append id
                  (provenance (merge_duplicate scan le preferred_findings existing finding))
                  (all_provenance rest)
                ∙ ap (λ b. b || of_rest) (merge-provenance le id _ existing finding)
                ∙ or_swap_last of_existing of_finding of_rest
                ∙ ap (λ b. b || of_finding)
                    (sym (contains-append id (provenance existing) (all_provenance rest)))
            | false ↦
                contains-append id (provenance existing)
                  (all_provenance (consolidate_finding scan le preferred_findings rest finding))
                ∙ ap (λ b. of_existing || b) (consolidate_finding-provenance id rest finding)
                ∙ sym (or_assoc of_existing of_rest of_finding)
                ∙ ap (λ b. b || of_finding)
                    (sym (contains-append id (provenance existing) (all_provenance rest)))
          ]

  consolidate_onto-provenance :
      (id : String) (consolidated findings : List Finding)
      → contains id
          (all_provenance (consolidate_onto scan le preferred_findings consolidated findings))
        ≡ contains id (all_provenance consolidated) || contains id (all_provenance findings)
  unfolding consolidate_onto
  consolidate_onto-provenance id consolidated [] =
      sym (or_false (contains id (all_provenance consolidated)))
  consolidate_onto-provenance id consolidated (finding ∷ findings) =
      consolidate_onto-provenance id
        (consolidate_finding scan le preferred_findings consolidated finding) findings
      ∙ ap (λ b. b || contains id (all_provenance findings))
          (consolidate_finding-provenance id consolidated finding)
      ∙ or_assoc (contains id (all_provenance consolidated)) (contains id (provenance finding))
          (contains id (all_provenance findings))
      ∙ ap (λ b. contains id (all_provenance consolidated) || b)
          (sym (contains-append id (provenance finding) (all_provenance findings)))

  -- A reviewer is named by the consolidated findings exactly if it is by the findings that were given, where a
  -- finding without names is that of the general reviewer.
  pub consolidate_findings-provenance :
      (id : String) (findings : List Finding)
      → contains id (all_provenance (consolidate_findings scan le preferred_findings findings))
        ≡ contains id (all_provenance findings)
  unfolding consolidate_findings
  consolidate_findings-provenance id findings = consolidate_onto-provenance id [] findings
