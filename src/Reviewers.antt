-- ===== src/Reviewers.antt =====
-- Which reviewers take part in a review and which packs are theirs, src/apex_ray/reviewers.py, and the scope of a
-- completion in src/apex_ray/pipeline/coverage.py. The matcher of glob patterns is a parameter.
pub mod Enabled
pub mod Effective
pub mod Scope
mod Examples
use apex_ray.Base.{
  ℕ, String, Bool, true, false, not, ◌||◌, ◌&&◌, Option, none, some, List, [], ◌∷◌, ◌++◌, map,
  if◌then◌else◌, ◌==◌, contains, filter, truthy, eqb, length, string_eq,
}
use apex_ray.Base.Dict.{Dict, lookup, insert}
use apex_ray.Models.{
  ContextPack, RiskSignal, ReviewerConfig, ReviewDepth, ReviewerPromptContext, LlmConfig,
  LlmRoutingConfig, LlmCoverageMode, file_kind_eq,
}
use apex_ray.Paths.{path_matches_any}

-- The messages of `ReviewerConfigError`.
pub data ReviewerConfigError : Type 0 where
  unknown_or_disabled : String → ReviewerConfigError
  none_selected : ReviewerConfigError

-- What a call returns, or the error that it raises.
pub data Outcome (E A : Type 0) : Type 0 where
  raised : E → Outcome E A
  returned : A → Outcome E A

-- `ReviewerConfig(id="general", name="General review")`
abbrev pub general : ReviewerConfig
general = record {
  id = "general";
  name = "General review";
  enabled = true;
  focus = "";
  instructions = [];
  paths = [];
  exclude_paths = [];
  file_kinds = [];
  risk = [];
  risk_tags = [];
  profile = none;
  verify_profile = none;
  coverage_mode = none;
  review_depth = ReviewDepth.balanced;
  max_packs = none;
  max_deep_packs = none;
  max_input_tokens = none;
  verify = none;
  required = false;
}

abbrev pub or_general : List ReviewerConfig → List ReviewerConfig
or_general [] = general ∷ []
or_general (r ∷ rs) = r ∷ rs

-- The dict comprehension over the enabled reviewers: a later one takes the place of an earlier one of its id.
unfoldable pub enabled_onto :
    Dict String ReviewerConfig → List ReviewerConfig → Dict String ReviewerConfig
enabled_onto d [] = d
enabled_onto d (r ∷ rs) = enabled_onto (if r.enabled then insert r.id r d else d) rs

abbrev pub enabled_by_id : List ReviewerConfig → Dict String ReviewerConfig
enabled_by_id configured = enabled_onto [] (or_general configured)

-- The loop over the requested ids, with `selected` and `seen`.
unfoldable pub select_requested :
    Dict String ReviewerConfig
    → List ReviewerConfig
    → List String
    → List String
    → Outcome ReviewerConfigError (List ReviewerConfig)
select_requested enabled selected seen [] =
    if truthy selected then returned selected else raised none_selected
select_requested enabled selected seen (reviewer_id ∷ ids) = elim (contains reviewer_id seen) [
  | true ↦ select_requested enabled selected seen ids
  | false ↦ elim (lookup reviewer_id enabled) [
    | none ↦ raised (unknown_or_disabled reviewer_id)
    | some reviewer ↦ select_requested enabled (selected ++ reviewer ∷ []) (reviewer_id ∷ seen) ids
  ]
]

unfoldable pub effective_reviewers :
    List ReviewerConfig → Option (List String) → Outcome ReviewerConfigError (List ReviewerConfig)
effective_reviewers configured none = returned (map (λ e. e.1) (enabled_by_id configured))
effective_reviewers configured (some ids) = select_requested (enabled_by_id configured) [] [] ids

abbrev pub signal_kinds : List RiskSignal → List String
signal_kinds [] = []
signal_kinds (s ∷ ss) = s.kind ∷ signal_kinds ss

abbrev pub signal_tags : List RiskSignal → List String
signal_tags [] = []
signal_tags (s ∷ ss) = s.reviewer_tags ++ signal_tags ss

-- `bool(xs.intersection(ys))`
abbrev pub intersects : List String → List String → Bool
intersects [] ys = false
intersects (x ∷ xs) ys = contains x ys || intersects xs ys

module _ (fnmatchcase : String → String → Bool) where
  unfoldable pub reviewer_matches_pack : ReviewerConfig → ContextPack → Bool
  reviewer_matches_pack reviewer pack =
      if truthy reviewer.paths && not (path_matches_any fnmatchcase pack.file reviewer.paths)
      then false
      else if truthy reviewer.exclude_paths
          && path_matches_any fnmatchcase pack.file reviewer.exclude_paths
      then false
      else if truthy reviewer.file_kinds && not (contains pack.file_kind reviewer.file_kinds)
      then false
      else if not (truthy reviewer.risk) && not (truthy reviewer.risk_tags)
      then true
      else intersects (signal_kinds pack.risk_signals) reviewer.risk
        || intersects (signal_tags pack.risk_signals) reviewer.risk_tags

-- `field if field is not None else default`
abbrev or_value {ℓ} : {A : Type ℓ} → Option A → A → A
or_value none default = default
or_value (some a) default = a

abbrev pub or_same {ℓ} : {A : Type ℓ} → Option A → Option A → Option A
or_same none default = default
or_same (some a) default = some a

unfoldable pub llm_config_for_reviewer : LlmConfig → ReviewerConfig → LlmConfig
llm_config_for_reviewer config reviewer = record config {
  routing = record config.routing {
    review_profile = or_same reviewer.profile config.routing.review_profile;
    verify_profile = or_same reviewer.verify_profile config.routing.verify_profile;
  };
  coverage_mode = or_value reviewer.coverage_mode config.coverage_mode;
  max_packs = or_value reviewer.max_packs config.max_packs;
  max_deep_packs = or_same reviewer.max_deep_packs config.max_deep_packs;
  max_input_tokens = or_same reviewer.max_input_tokens config.max_input_tokens;
  verify = or_value reviewer.verify config.verify;
}

unfoldable pub pack_for_reviewer : ContextPack → ReviewerConfig → ContextPack
pack_for_reviewer pack reviewer =
    if (reviewer.id == "general") && (reviewer.focus == "") && not (truthy reviewer.instructions)
    then pack
    else record pack {
      reviewer = some (record {
        id = reviewer.id;
        name = if reviewer.name == "" then reviewer.id else reviewer.name;
        focus = reviewer.focus;
        instructions = reviewer.instructions;
      });
    }

-- The messages of `CoverageScopeError`.
pub data CoverageScopeError : Type 0 where
  reviewer_error : ReviewerConfigError → CoverageScopeError
  scope_is_open : CoverageScopeError

abbrev pub config_ids : List ReviewerConfig → List String
config_ids rs = map (λ r. r.id) rs

-- The reviewers of the scope: all those requested, or the one that is required, or the only one.
unfoldable pub single_scope :
    List ReviewerConfig → List ReviewerConfig → Outcome CoverageScopeError (Option (List String))
single_scope configured reviewers =
    if not (truthy configured)
    then returned none
    else let required = filter (λ r. r.required) reviewers in
      if eqb (length required) 1
      then returned (some (config_ids required))
      else if eqb (length reviewers) 1
      then returned (some (config_ids reviewers))
      else raised scope_is_open

abbrev pub or_scope_error :
    Outcome ReviewerConfigError (List ReviewerConfig)
    → (List ReviewerConfig → Outcome CoverageScopeError (Option (List String)))
    → Outcome CoverageScopeError (Option (List String))
or_scope_error (raised e) k = raised (reviewer_error e)
or_scope_error (returned reviewers) k = k reviewers

-- `resolve_completion_reviewer_scope`, of the reviewers of the configuration.
unfoldable pub resolve_completion_reviewer_scope :
    List ReviewerConfig → Option (List String) → Outcome CoverageScopeError (Option (List String))
resolve_completion_reviewer_scope configured (some (id ∷ ids)) =
    or_scope_error (effective_reviewers configured (some (id ∷ ids)))
      (λ reviewers. returned (some (config_ids reviewers)))
resolve_completion_reviewer_scope configured requested =
    or_scope_error (effective_reviewers configured none) (single_scope configured)
