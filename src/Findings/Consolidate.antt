-- ===== src/Findings/Consolidate.antt =====
-- The consolidation of findings, src/apex_ray/pipeline/findings.py.
use apex_ray.Base.{
  ℕ, String, Bool, true, false, not, ◌||◌, Option, none, some, List, [], ◌∷◌, if◌then◌else◌, eqb,
  ltb,
}
use apex_ray.Models.{Finding, FindingConfidence}
use apex_ray.Findings.{Scanner, same_decision, findings_are_duplicates, finding_path_is_test}
use apex_ray.Findings.Provenance.{merge_finding_reviewer_provenance}

abbrev same_as_any : Finding → List Finding → Bool
same_as_any finding [] = false
same_as_any finding (f ∷ fs) = same_decision f finding || same_as_any finding fs

abbrev confidence_rank : FindingConfidence → ℕ
confidence_rank FindingConfidence.low = 1
confidence_rank FindingConfidence.medium = 2
confidence_rank FindingConfidence.high = 3

abbrev has_line : Option ℕ → Bool
has_line none = false
has_line (some _) = true

abbrev bit : Bool → ℕ
bit true = 1
bit false = 0

-- `left > right`, for two tuples of four numbers.
abbrev pub tuple_gt : ℕ × ℕ × ℕ × ℕ → ℕ × ℕ × ℕ × ℕ → Bool
tuple_gt (a, b, c, d) (a', b', c', d') =
    if not (eqb a a')
    then ltb a' a
    else if not (eqb b b')
    then ltb b' b
    else if not (eqb c c')
    then ltb c' c
    else ltb d' d

module _ (scan : Scanner) (le : String → String → Bool) (preferred_findings : List Finding) where
  unfoldable pub finding_preference_key : Finding → ℕ × ℕ × ℕ × ℕ
  finding_preference_key finding = (
    bit (same_as_any finding preferred_findings),
    bit (not (finding_path_is_test scan finding.file)),
    confidence_rank finding.confidence,
    bit (has_line finding.line),
  )

  unfoldable pub merge_duplicate : Finding → Finding → Finding
  merge_duplicate existing finding =
      merge_finding_reviewer_provenance le
        (if tuple_gt (finding_preference_key finding) (finding_preference_key existing)
          then finding
          else existing)
        (existing ∷ finding ∷ [])

  -- The first duplicate in the list is merged with the finding; without one it is appended.
  unfoldable pub consolidate_finding : List Finding → Finding → List Finding
  consolidate_finding [] finding = finding ∷ []
  consolidate_finding (existing ∷ rest) finding =
      let later = consolidate_finding rest finding in
      if findings_are_duplicates scan existing finding
      then merge_duplicate existing finding ∷ rest
      else existing ∷ later

  unfoldable pub consolidate_onto : List Finding → List Finding → List Finding
  consolidate_onto consolidated [] = consolidated
  consolidate_onto consolidated (finding ∷ findings) =
      consolidate_onto (consolidate_finding consolidated finding) findings

  unfoldable pub consolidate_findings : List Finding → List Finding
  consolidate_findings findings = consolidate_onto [] findings
