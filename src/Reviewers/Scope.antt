-- ===== src/Reviewers/Scope.antt =====
-- The scope of a completion.
use apex_ray.Base.{
  ℕ, ◌≡◌, ◌≢◌, ◌⊎◌, inl, inr, refl, ◌∙◌, String, Bool, true, false, Option, none, some, List, [],
  ◌∷◌, map, if◌then◌else◌, eqb, length, filter, truthy, contains, ◌==◌, arith, string_eq,
}
use apex_ray.Base.Distinct.{Distinct}
use apex_ray.Models.{ReviewerConfig}
use apex_ray.Reviewers.{
  ReviewerConfigError, unknown_or_disabled, none_selected, Outcome, raised, returned, or_general,
  effective_reviewers, enabled_by_id, single_scope, config_ids, CoverageScopeError, reviewer_error,
  scope_is_open, or_scope_error, resolve_completion_reviewer_scope,
}
use apex_ray.Reviewers.Enabled.{last_enabled}
use apex_ray.Reviewers.Effective.{IsAnswer, effective_reviewers-IsAnswer}

abbrev pub enabled_reviewers : List ReviewerConfig → List ReviewerConfig
enabled_reviewers configured = map (λ e. e.1) (enabled_by_id configured)

abbrev pub required_reviewers : List ReviewerConfig → List ReviewerConfig
required_reviewers configured = filter (λ r. r.required) (enabled_reviewers configured)

-- What an outcome says about the configuration and the request.
abbrev pub IsBounded :
    List ReviewerConfig → List String → Outcome CoverageScopeError (Option (List String)) → Type 0
IsBounded configured requested (returned none) = (configured ≡ []) × (requested ≡ [])
IsBounded configured [] (returned (some scope)) =
    (length scope ≡ 1)
    × ((scope ≡ config_ids (required_reviewers configured))
        ⊎ ((length (required_reviewers configured) ≢ 1)
            × (scope ≡ config_ids (enabled_reviewers configured))))
IsBounded configured (id ∷ ids) (returned (some scope)) =
    Distinct (λ a b. a == b) scope × ((i : String) → contains i scope ≡ contains i (id ∷ ids))
IsBounded configured requested (raised scope_is_open) =
    (truthy configured ≡ true)
    × (requested ≡ [])
    × (length (required_reviewers configured) ≢ 1)
    × (length (enabled_reviewers configured) ≢ 1)
IsBounded configured requested (raised (reviewer_error (unknown_or_disabled id))) =
    (contains id requested ≡ true) × (last_enabled id (or_general configured) ≡ none)
IsBounded configured requested (raised (reviewer_error none_selected)) = ⊥

is_not_one : (n : ℕ) → eqb n 1 ≡ false → n ≢ 1
is_not_one n e h = ground arith

is_one : (n : ℕ) → eqb n 1 ≡ true → n ≡ 1
is_one n e = ground arith

length-config_ids : (rs : List ReviewerConfig) → length (config_ids rs) ≡ length rs
length-config_ids [] = refl
length-config_ids (r ∷ rs) = omega (arith, length-config_ids rs)

single_scope-IsBounded :
    (configured : List ReviewerConfig)
    → IsBounded configured [] (single_scope configured (enabled_reviewers configured))
unfolding single_scope
single_scope-IsBounded [] = (refl, refl)
single_scope-IsBounded (c ∷ cs) =
    pick (eqb (length required) 1) (eqb (length reviewers) 1) refl refl
  where
    reviewers : List ReviewerConfig
    reviewers = enabled_reviewers (c ∷ cs)

    required : List ReviewerConfig
    required = required_reviewers (c ∷ cs)

    pick :
        (one only : Bool)
        → eqb (length required) 1 ≡ one
        → eqb (length reviewers) 1 ≡ only
        → IsBounded (c ∷ cs) [] (
            if one
            then returned (some (config_ids required))
            else if only
            then returned (some (config_ids reviewers))
            else raised scope_is_open)
    pick true only e k = (length-config_ids required ∙ is_one (length required) e, inl refl)
    pick false true e k = (
      length-config_ids reviewers ∙ is_one (length reviewers) k,
      inr (is_not_one (length required) e, refl),
    )
    pick false false e k =
        (refl, refl, is_not_one (length required) e, is_not_one (length reviewers) k)

request_scope :
    (configured : List ReviewerConfig) (id : String) (ids : List String)
    (out : Outcome ReviewerConfigError (List ReviewerConfig))
    → IsAnswer configured (id ∷ ids) out
    → IsBounded configured
        (id ∷ ids)
        (or_scope_error out (λ reviewers. returned (some (config_ids reviewers))))
request_scope configured id ids (returned rs) h = (h.0, h.1)
request_scope configured id ids (raised (unknown_or_disabled k)) h = h
request_scope configured id ids (raised none_selected) h = cc

-- Python takes an empty list for a missing request here.
abbrev pub asked : Option (List String) → List String
asked none = []
asked (some ids) = ids

-- A scope is open only without configured reviewers and without a request. A request is its own scope, each id once;
-- without a request the scope is one reviewer: the one that is enabled and required or, where these are not exactly
-- one, the one that is enabled. An unknown-reviewer error names an id of the request that no enabled reviewer has. The
-- error that the scope is open is raised only for configured reviewers without a request, of which neither exactly
-- one is enabled nor exactly one is enabled and required. No other error is raised.
pub resolve_completion_reviewer_scope-IsBounded :
    (configured : List ReviewerConfig) (requested : Option (List String))
    → IsBounded configured
        (asked requested)
        (resolve_completion_reviewer_scope configured requested)
unfolding resolve_completion_reviewer_scope effective_reviewers
resolve_completion_reviewer_scope-IsBounded configured none = single_scope-IsBounded configured
resolve_completion_reviewer_scope-IsBounded configured (some []) = single_scope-IsBounded configured
resolve_completion_reviewer_scope-IsBounded configured (some (id ∷ ids)) =
    request_scope configured id ids (effective_reviewers configured (some (id ∷ ids)))
      (effective_reviewers-IsAnswer configured (id ∷ ids))
