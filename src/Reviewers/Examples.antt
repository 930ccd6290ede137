-- ===== src/Reviewers/Examples.antt =====
-- Reviewers at a concrete configuration.
use apex_ray.Base.{◌≡◌, refl, String, Bool, true, false, none, some, List, [], ◌∷◌, string_eq}
use apex_ray.Base.Dict.{insert}
use apex_ray.Models.{ReviewerConfig, file_kind_eq}
use apex_ray.Reviewers.{
  unknown_or_disabled, raised, returned, general, enabled_onto, select_requested,
  effective_reviewers, single_scope, resolve_completion_reviewer_scope,
}
use apex_ray.Reviewers.Effective.{IsAnswer, effective_reviewers-IsAnswer}
use apex_ray.Reviewers.Scope.{IsBounded, resolve_completion_reviewer_scope-IsBounded}

abbrev reviewer : String → Bool → ReviewerConfig
reviewer id enabled = record general { id = id; enabled = enabled; paths = "src/a.py" ∷ [] }

abbrev configured : List ReviewerConfig
configured = reviewer "security" true ∷ reviewer "style" false ∷ reviewer "api" true ∷ []

reviewers_program : Unit {0}
unfolding string_eq insert enabled_onto select_requested effective_reviewers single_scope
    resolve_completion_reviewer_scope
reviewers_program = tt

effective_reviewers-IsAnswer_example :
    IsAnswer configured
      ("api" ∷ "security" ∷ "api" ∷ [])
      (effective_reviewers configured (some ("api" ∷ "security" ∷ "api" ∷ [])))
effective_reviewers-IsAnswer_example =
    effective_reviewers-IsAnswer configured ("api" ∷ "security" ∷ "api" ∷ [])

selected_once :
    effective_reviewers configured (some ("api" ∷ "security" ∷ "api" ∷ []))
    ≡ returned (reviewer "api" true ∷ reviewer "security" true ∷ [])
unfolding reviewers_program
selected_once = refl

disabled_is_unknown :
    effective_reviewers configured (some ("style" ∷ [])) ≡ raised (unknown_or_disabled "style")
unfolding reviewers_program
disabled_is_unknown = refl

resolve_completion_reviewer_scope-IsBounded_example :
    IsBounded configured [] (resolve_completion_reviewer_scope configured none)
resolve_completion_reviewer_scope-IsBounded_example =
    resolve_completion_reviewer_scope-IsBounded configured none
