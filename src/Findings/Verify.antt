-- ===== src/Findings/Verify.antt =====
-- The decisions of reviewers on findings: which are active, which are still to be made again, and which count for a
-- finding of a report. A decision goes along with its position in the history, which stands for its identity.
use apex_ray.Base.{
  ℕ, suc, String, Bool, true, false, not, ◌&&◌, ◌||◌, Option, none, some, List, [], ◌∷◌, ◌++◌,
  if◌then◌else◌, ◌==◌, filter, any, ltb, length, truthy, map, string_eq, nat_eq,
}
use apex_ray.Base.Text.{starts_with}
use apex_ray.Models.{Finding, FindingVerification}
use apex_ray.Findings.{
  Scanner, normalized_context_pack_id, same_decision, same_subject, same_content, as_set,
  findings_are_duplicates, finding_consolidation_scope_is_compatible,
  verification_scope_is_compatible,
}
use apex_ray.Findings.Provenance.{reviewer_origins_are_explicit, findings_share_reviewer_origin}

abbrev pub Placed : Type 0
Placed = ℕ × FindingVerification

unfoldable pub placed_from : ℕ → List FindingVerification → List Placed
placed_from i [] = []
placed_from i (v ∷ vs) = (i, v) ∷ placed_from (suc i) vs

abbrev or_empty : Option String → String
or_empty none = ""
or_empty (some s) = s

unfoldable pub verification_is_terminally_replaced : FindingVerification → Bool
verification_is_terminally_replaced v =
    v.superseded && starts_with "Replaced by" (or_empty v.superseded_reason)

abbrev same_pack : Finding → Finding → Bool
same_pack left right =
    normalized_context_pack_id left.context_pack_id
    == normalized_context_pack_id right.context_pack_id

module _ (scan : Scanner) where
  -- `verification_subject_matches_any` for one candidate.
  unfoldable pub subject_matches : Finding → Finding → Bool
  subject_matches finding candidate =
      verification_scope_is_compatible scan finding candidate
      && (same_subject finding candidate || findings_are_duplicates scan finding candidate)

  unfoldable pub shares_cross_pack_origin : FindingVerification → FindingVerification → Bool
  shares_cross_pack_origin left right =
      (left.reviewer_id == right.reviewer_id)
      && not (same_pack left.finding right.finding)
      && finding_consolidation_scope_is_compatible scan left.finding right.finding
      && (reviewer_origins_are_explicit left.finding left.reviewer_id
          || reviewer_origins_are_explicit right.finding right.reviewer_id)
      && findings_share_reviewer_origin left.finding right.finding left.reviewer_id
      && same_content left.finding right.finding

  -- `verification_decisions_match`, for the two snapshots and the two decisions.
  abbrev decisions_match_at :
      Option String → Option String → FindingVerification → FindingVerification → Bool
  decisions_match_at (some a) (some b) left right =
      if a == b
      then same_decision left.finding right.finding
      else if shares_cross_pack_origin left right
      then true
      else subject_matches left.finding right.finding
  decisions_match_at _ _ left right =
      same_subject left.finding right.finding || shares_cross_pack_origin left right

  unfoldable pub verification_decisions_match : FindingVerification → FindingVerification → Bool
  verification_decisions_match left right =
      decisions_match_at left.review_snapshot_id right.review_snapshot_id left right

  -- The first decision gives way to the second.
  abbrev pub gives_way : FindingVerification → FindingVerification → Bool
  gives_way current verification =
      (current.reviewer_id == verification.reviewer_id)
      && verification_decisions_match current verification

  -- The loop of `active_verifications`.
  unfoldable pub active_onto : List Placed → List Placed → List Placed
  active_onto active [] = active
  active_onto active ((i, v) ∷ history) =
      active_onto
        (if v.superseded then active else filter (λ c. not (gives_way c.1 v)) active ++ (i, v) ∷ [])
        history

  unfoldable pub active_verifications : List FindingVerification → List Placed
  active_verifications history = active_onto [] (placed_from 0 history)

  abbrev has_position : ℕ → List Placed → Bool
  has_position i ps = any (λ p. p.0 == i) ps

  abbrev pub decisions : List Placed → List FindingVerification
  decisions ps = map (λ p. p.1) ps

  unfoldable pub inactive_placed : List FindingVerification → List Placed
  inactive_placed history =
      let active = active_verifications history in
      filter (λ p. not (has_position p.0 active)) (placed_from 0 history)

  abbrev resolves : Placed → Placed → Bool
  resolves p a =
      (a.1.reviewer_id == p.1.reviewer_id) && ltb p.0 a.0 && verification_decisions_match p.1 a.1

  unfoldable pub unresolved_placed : List FindingVerification → List Placed
  unresolved_placed history =
      let active = active_verifications history in
      filter
        (λ p.
          p.1.superseded
          && not (verification_is_terminally_replaced p.1)
          && not (any (resolves p) active))
        (placed_from 0 history)

  -- `historical_verifications`
  unfoldable pub historical_placed : List FindingVerification → List Placed
  historical_placed history =
      let unresolved = unresolved_placed history in
      filter (λ p. not (has_position p.0 unresolved)) (inactive_placed history)

  unfoldable pub has_cross_pack_reviewer_lineage : Finding → Finding → String → Bool
  has_cross_pack_reviewer_lineage finding verified reviewer_id =
      if same_pack finding verified
      then false
      else if findings_share_reviewer_origin finding verified reviewer_id
      then true
      else not (reviewer_origins_are_explicit finding reviewer_id)
        && ltb 1 (length finding.reviewer_ids)

  abbrev reviewers_of : List FindingVerification → List String
  reviewers_of vs = map (λ v. v.reviewer_id) vs

  abbrev dict_keys : List (String × List String) → List String
  dict_keys d = map (λ e. e.0) d

  -- The reviewers whose decisions concern the finding.
  unfoldable pub decision_reviewers : Finding → List FindingVerification → List String
  decision_reviewers finding current = as_set (
      if truthy finding.reviewer_ids
      then finding.reviewer_ids
      else if truthy finding.reviewer_context_pack_ids
      then dict_keys finding.reviewer_context_pack_ids
      else reviewers_of current)

  abbrev first_of : List FindingVerification → List FindingVerification → List FindingVerification
  first_of [] later = later
  first_of (v ∷ vs) later = v ∷ vs

  -- The decisions of one reviewer on the finding: the exact ones, or those on the same content from another pack, or
  -- those in scope, or those on a duplicate.
  unfoldable pub matching_of_reviewer :
      Finding → List FindingVerification → String → List FindingVerification
  matching_of_reviewer finding current reviewer_id =
      let own = filter (λ v. v.reviewer_id == reviewer_id) current in
      first_of (filter (λ v. same_decision v.finding finding) own) (
        first_of
          (filter
            (λ v.
              finding_consolidation_scope_is_compatible scan finding v.finding
              && has_cross_pack_reviewer_lineage finding v.finding reviewer_id
              && same_content finding v.finding)
            own)
          (first_of (filter (λ v. subject_matches finding v.finding) own) (
            filter
              (λ v.
                has_cross_pack_reviewer_lineage finding v.finding reviewer_id
                && findings_are_duplicates scan finding v.finding)
              own)))

  abbrev matching_of : Finding → List FindingVerification → List String → List FindingVerification
  matching_of finding current [] = []
  matching_of finding current (r ∷ rs) =
      matching_of_reviewer finding current r ++ matching_of finding current rs

  -- `_matching_verifications_for_finding`, without a reviewer.
  unfoldable pub matching_verifications_for_finding :
      Finding → List FindingVerification → List FindingVerification
  matching_verifications_for_finding finding current =
      matching_of finding current (decision_reviewers finding current)

  unfoldable pub verified_report_findings : List Finding → List FindingVerification → List Finding
  verified_report_findings findings history =
      let current = decisions (active_verifications history) in
      filter (λ f. any (λ v. v.approved) (matching_verifications_for_finding f current)) findings
