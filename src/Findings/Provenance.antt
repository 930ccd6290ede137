-- ===== src/Findings/Provenance.antt =====
-- Which reviewers a finding comes from, and the packs they found it in. The order of strings is a parameter.
use apex_ray.Base.{
  String, Bool, true, false, not, ◌||◌, Option, none, some, List, [], ◌∷◌, ◌++◌, if◌then◌else◌,
  ◌==◌, contains, filter, length, ltb, truthy, map, string_eq,
}
use apex_ray.Base.Dict.{Dict, lookup}
use apex_ray.Base.Sort.{sorted}
use apex_ray.Models.{Finding}
use apex_ray.Findings.{normalized_context_pack_id, as_set}

abbrev filled : List String → List String
filled ids = filter (λ id. not (id == "")) ids

abbrev origins_or : Option (List String) → String → List String
origins_or (some ids) _ = filled ids
origins_or none context_pack_id = filled (context_pack_id ∷ [])

unfoldable pub reviewer_origin_pack_ids : Finding → String → List String
reviewer_origin_pack_ids finding reviewer_id =
    origins_or (lookup reviewer_id finding.reviewer_context_pack_ids) finding.context_pack_id

abbrev is_given : Option (List String) → Bool
is_given none = false
is_given (some _) = true

unfoldable pub reviewer_origins_are_explicit : Finding → String → Bool
reviewer_origins_are_explicit finding reviewer_id =
    is_given (lookup reviewer_id finding.reviewer_context_pack_ids)

abbrev meets : List String → List String → Bool
meets [] ys = false
meets (x ∷ xs) ys = contains x ys || meets xs ys

unfoldable pub findings_share_reviewer_origin : Finding → Finding → String → Bool
findings_share_reviewer_origin left right reviewer_id =
    meets (map normalized_context_pack_id (reviewer_origin_pack_ids left reviewer_id))
      (map normalized_context_pack_id (reviewer_origin_pack_ids right reviewer_id))

-- `finding.reviewer_ids or ["general"]`
abbrev pub provenance : Finding → List String
provenance finding = if truthy finding.reviewer_ids then finding.reviewer_ids else "general" ∷ []

abbrev pub all_provenance : List Finding → List String
all_provenance [] = []
all_provenance (f ∷ fs) = provenance f ++ all_provenance fs

abbrev pack_ids : List Finding → List String
pack_ids [] = []
pack_ids (f ∷ fs) = filled (f.context_pack_id ∷ []) ++ pack_ids fs

abbrev any_explicit : List Finding → Bool
any_explicit [] = false
any_explicit (f ∷ fs) = truthy f.reviewer_context_pack_ids || any_explicit fs

abbrev any_implicit : String → List Finding → Bool
any_implicit reviewer_id [] = false
any_implicit reviewer_id (f ∷ fs) =
    not (reviewer_origins_are_explicit f reviewer_id) || any_implicit reviewer_id fs

abbrev all_origins : String → List Finding → List String
all_origins reviewer_id [] = []
all_origins reviewer_id (f ∷ fs) =
    reviewer_origin_pack_ids f reviewer_id ++ all_origins reviewer_id fs

-- `[] if provenance_ids == ["general"] else provenance_ids`
abbrev pub named_ids : List String → List String
named_ids (id ∷ []) = if id == "general" then [] else id ∷ []
named_ids ids = ids

module _ (le : String → String → Bool) where
  -- The loop over the provenance ids, which fills `merged_origins`.
  unfoldable pub merged_origins : List Finding → List String → Dict String (List String)
  merged_origins candidates [] = []
  merged_origins candidates (reviewer_id ∷ ids) =
      let rest = merged_origins candidates ids in
      let reviewer_candidates = filter (λ f. contains reviewer_id (provenance f)) candidates in
      let origin_pack_ids = as_set (all_origins reviewer_id reviewer_candidates) in
      if any_implicit reviewer_id reviewer_candidates || not (truthy origin_pack_ids)
      then rest
      else (reviewer_id, sorted le origin_pack_ids) ∷ rest

  unfoldable pub merge_finding_reviewer_provenance : Finding → List Finding → Finding
  merge_finding_reviewer_provenance preferred candidates =
      let provenance_ids = sorted le (as_set (all_provenance candidates)) in
      record preferred {
        reviewer_ids = named_ids provenance_ids;
        reviewer_context_pack_ids =
            if ltb 1 (length (as_set (pack_ids candidates))) || any_explicit candidates
            then merged_origins candidates provenance_ids
            else [];
      }
