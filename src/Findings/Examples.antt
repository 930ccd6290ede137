-- ===== src/Findings/Examples.antt =====
-- Findings at concrete values, where no regular expression finds anything.
use apex_ray.Base.{
  ◌≡◌, refl, String, Bool, true, false, not, ◌&&◌, ◌||◌, List, [], ◌∷◌, ◌==◌, contains, any,
  string_eq, option_eq, nat_eq,
}
use apex_ray.Base.Sort.{sorted, insert_sorted}
use apex_ray.Base.Text.{
  strip, strip_left, strip_right, is_blank, split_first, remove_prefix, starts_with, drop_prefix,
}
use apex_ray.Models.{Finding, FindingVerification, finding_severity_eq}
use apex_ray.Models.Samples.{finding, verification}
use apex_ray.Paths.{normalize_path, with_slashes}
use apex_ray.Findings.{
  normalized_context_pack_id, normalized_finding_file, same_decision, same_subject, same_content,
  split_slash, as_set, finding_path_is_test, findings_are_duplicates,
  verification_scope_is_compatible,
}
use apex_ray.Findings.Samples.{scan}
use apex_ray.Findings.Provenance.{
  all_provenance, reviewer_origin_pack_ids, reviewer_origins_are_explicit, merged_origins,
  merge_finding_reviewer_provenance,
}
use apex_ray.Findings.Consolidate.{
  finding_preference_key, merge_duplicate, consolidate_finding, consolidate_onto,
  consolidate_findings,
}
use apex_ray.Findings.Keep.{consolidate_findings-provenance}
use apex_ray.Findings.Verify.{
  placed_from, subject_matches, shares_cross_pack_origin, verification_decisions_match, active_onto,
  active_verifications,
}
use apex_ray.Findings.Active.{IsCurrent, active_verifications-IsCurrent}

abbrev text_le : String → String → Bool
text_le s t = s == "api" || t == "security"

abbrev findings : List Finding
findings = finding 7 ("security" ∷ []) ∷ finding 7 ("api" ∷ []) ∷ finding 90 [] ∷ []

findings_program : Unit {0}
unfolding string_eq option_eq nat_eq finding_severity_eq sorted insert_sorted strip strip_left
    strip_right is_blank split_first remove_prefix starts_with drop_prefix normalize_path
    with_slashes normalized_context_pack_id normalized_finding_file same_decision same_subject
    same_content split_slash as_set finding_path_is_test findings_are_duplicates
    verification_scope_is_compatible reviewer_origin_pack_ids reviewer_origins_are_explicit
    merged_origins merge_finding_reviewer_provenance finding_preference_key merge_duplicate
    consolidate_finding consolidate_onto consolidate_findings placed_from subject_matches
    shares_cross_pack_origin verification_decisions_match active_onto active_verifications
findings_program = tt

two_are_left :
    consolidate_findings scan text_le [] (finding 7 ("security" ∷ []) ∷ finding 7 ("api" ∷ []) ∷ [])
    ≡ finding 7 ("api" ∷ "security" ∷ []) ∷ []
unfolding findings_program
two_are_left = refl

consolidate_findings-provenance_example :
    contains "api" (all_provenance (consolidate_findings scan text_le [] findings))
    ≡ contains "api" (all_provenance findings)
consolidate_findings-provenance_example =
    consolidate_findings-provenance scan text_le [] "api" findings

abbrev history : List FindingVerification
history = verification "api" false ∷ verification "security" true ∷ verification "api" true ∷ []

last_decision_counts :
    active_verifications scan history
    ≡ (1, verification "security" true) ∷ (2, verification "api" true) ∷ []
unfolding findings_program
last_decision_counts = refl

active_verifications-IsCurrent_example :
    IsCurrent scan (active_verifications scan history)
    × ((r : String)
        → any (λ p. p.1.reviewer_id == r) (active_verifications scan history)
          ≡ any (λ v. not v.superseded && (v.reviewer_id == r)) history)
active_verifications-IsCurrent_example = active_verifications-IsCurrent scan history
