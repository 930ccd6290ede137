-- ===== src/Routing.antt =====
-- Which model reviews a pack or verifies its findings, src/apex_ray/llm/routing.py. The merge of two API
-- configurations, the order of strings and the digits of a number are parameters.
pub mod Override
mod Examples
use apex_ray.Base.{
  ℕ, zero, suc, ◌+◌, ◌*◌, String, Bool, true, false, not, ◌&&◌, ◌||◌, Option, none, some, List, [],
  ◌∷◌, map, if◌then◌else◌, ◌==◌, contains, filter, any, leb, ltb, truthy, string_eq, option_eq,
}
use apex_ray.Base.Dict.{lookup}
use apex_ray.Base.Sort.{sorted}
use apex_ray.Base.Text.{concat}
use apex_ray.Models.{
  ContextPack, Finding, RuleMatch, RuleMode, FileKind, FindingSeverity, FindingConfidence,
  PackDepth, LlmConfig, LlmApiConfig, LlmProfile, LlmProviderName, LlmRoutingCondition, provider_eq,
  file_kind_eq, finding_severity_eq, finding_confidence_eq,
}

-- The configuration to use, the profile that it comes from, and why.
abbrev pub Route : Type 0
Route = LlmConfig × Option String × String

-- `value or None`, for a text.
abbrev pub filled_text : Option String → Option String
filled_text none = none
filled_text (some s) = if s == "" then none else some s

abbrev pub is_filled : Option String → Bool
is_filled none = false
is_filled (some s) = not (s == "")

abbrev pub severity_rank : FindingSeverity → ℕ
severity_rank FindingSeverity.critical = 4
severity_rank FindingSeverity.high = 3
severity_rank FindingSeverity.medium = 2
severity_rank FindingSeverity.low = 1

abbrev strict_bit : RuleMode → ℕ
strict_bit RuleMode.strict = 1
strict_bit RuleMode.advisory = 0

-- The pair of severity and strictness as one number, in the order of the pairs.
abbrev pub rule_weight : RuleMatch → ℕ
rule_weight rule = 2 * severity_rank rule.severity + strict_bit rule.mode

abbrev pub Ranked : Type 0
Ranked = ℕ × RuleMatch

unfoldable pub enumerate_rules : ℕ → List RuleMatch → List Ranked
enumerate_rules i [] = []
enumerate_rules i (r ∷ rs) = (i, r) ∷ enumerate_rules (suc i) rs

-- The key of the first is not below that of the second.
abbrev pub ranks_first : Ranked → Ranked → Bool
ranks_first a b =
    ltb (rule_weight b.1) (rule_weight a.1)
    || (leb (rule_weight b.1) (rule_weight a.1) && leb a.0 b.0)

unfoldable pub ranked_rules : (RuleMatch → Option String) → List RuleMatch → List Ranked
ranked_rules field rules =
    sorted ranks_first (filter (λ r. is_filled (field r.1)) (enumerate_rules 0 rules))

abbrev pub first_field : (RuleMatch → Option String) → List Ranked → Option String
first_field field [] = none
first_field field (r ∷ rs) = field r.1

unfoldable pub rule_model_override : (RuleMatch → Option String) → List RuleMatch → Option String
rule_model_override field rules = first_field field (ranked_rules field rules)

abbrev pub file_kind_text : FileKind → String
file_kind_text FileKind.source = "source"
file_kind_text FileKind.test = "test"
file_kind_text FileKind.config = "config"
file_kind_text FileKind.migration = "migration"
file_kind_text FileKind.schema = "schema"
file_kind_text FileKind.dependency = "dependency"
file_kind_text FileKind.lockfile = "lockfile"
file_kind_text FileKind.docs = "docs"
file_kind_text FileKind.generated = "generated"
file_kind_text FileKind.vendored = "vendored"
file_kind_text FileKind.unknown = "unknown"

abbrev pub severity_text : FindingSeverity → String
severity_text FindingSeverity.critical = "critical"
severity_text FindingSeverity.high = "high"
severity_text FindingSeverity.medium = "medium"
severity_text FindingSeverity.low = "low"

abbrev pub confidence_text : FindingConfidence → String
confidence_text FindingConfidence.high = "high"
confidence_text FindingConfidence.medium = "medium"
confidence_text FindingConfidence.low = "low"

-- The first reason that there is.
abbrev or_reason : Option String → Option String → Option String
or_reason none later = later
or_reason (some reason) later = some reason

abbrev first_of_texts : String → List String → Option String
first_of_texts label [] = none
first_of_texts label (t ∷ ts) = some (concat label t)

abbrev default_api : LlmApiConfig
default_api = record {
  protocol = none;
  structured_output = none;
  base_url = none;
  base_url_env = none;
  api_key_env = none;
  allowed_hosts_env = "APEX_RAY_API_ALLOWED_HOSTS";
  headers_from_env = [];
  api_version = none;
  max_output_tokens = 4096;
  max_retries = 2;
  use_system_proxy = true;
  allow_insecure_loopback_http = false;
}

abbrev value_or {ℓ} : {A : Type ℓ} → Option A → A → A
value_or none default = default
value_or (some a) default = a

abbrev option_or {ℓ} : {A : Type ℓ} → Option A → Option A → Option A
option_or none default = default
option_or (some a) default = some a

abbrev changes_provider : Option LlmProviderName → LlmProviderName → Bool
changes_provider none current = false
changes_provider (some p) current = not (p == current)

module _ (merge_api : LlmApiConfig → LlmApiConfig → LlmApiConfig) where
  abbrev api_of : Option LlmApiConfig → LlmApiConfig → LlmApiConfig
  api_of none api = api
  api_of (some given) api = merge_api api given

  abbrev with_profile : LlmConfig → LlmProfile → LlmConfig
  with_profile config profile =
      let api =
        if changes_provider profile.provider config.provider then default_api else config.api in
      record config {
        provider = value_or profile.provider config.provider;
        model = option_or profile.model config.model;
        effort = option_or profile.effort config.effort;
        timeout_seconds = value_or profile.timeout_seconds config.timeout_seconds;
        codex_path = value_or profile.codex_path config.codex_path;
        claude_path = value_or profile.claude_path config.claude_path;
        api = api_of profile.api api;
      }

  abbrev route_of : LlmConfig → String → String → Option LlmProfile → Route
  route_of config name reason (some profile) = (with_profile config profile, some name, reason)
  route_of config name reason none = (record config { model = some name }, none, reason)

  unfoldable pub config_for_profile_or_model : LlmConfig → String → String → Route
  config_for_profile_or_model config profile_or_model reason =
      route_of config profile_or_model reason (lookup profile_or_model config.profiles)

  -- The escalated profile is taken after a failed quota, unless it is the one that failed.
  abbrev fallback_to : LlmConfig → Option String → String → Option String → Option Route
  fallback_to config failed_profile status none = none
  fallback_to config failed_profile status (some fallback) =
      if some fallback == failed_profile
      then none
      else some (
          config_for_profile_or_model config fallback
            (concat "fallback:" (concat fallback (concat ":after_" status))))

  unfoldable pub fallback_review_config_after_error :
      LlmConfig → Option String → String → Option Route
  fallback_review_config_after_error config failed_profile status =
      if not (status == "failed_quota")
      then none
      else fallback_to config failed_profile status
          (filled_text config.routing.escalated_review_profile)

  module _ (text_le : String → String → Bool) (show_number : ℕ → String) where
    abbrev severity_reason : LlmRoutingCondition → Option Finding → Option String
    severity_reason condition none = none
    severity_reason condition (some finding) =
        if contains finding.severity condition.finding_severity
        then some (concat "finding_severity:" (severity_text finding.severity))
        else if contains finding.confidence condition.finding_confidence
        then some (concat "finding_confidence:" (confidence_text finding.confidence))
        else none

    abbrev risk_reason : LlmRoutingCondition → ContextPack → Option String
    risk_reason condition pack =
        first_of_texts "risk:"
          (sorted text_le (filter (λ k. any (λ s. s.kind == k) pack.risk_signals) condition.risk))

    abbrev rule_severity_reason : LlmRoutingCondition → ContextPack → Option String
    rule_severity_reason condition pack = first_of_texts "rule_severity:" (
        sorted text_le (
          map severity_text
            (filter (λ s. any (λ r. r.severity == s) pack.rule_matches) condition.rule_severity)))

    abbrev is_strict_mode : RuleMode → Bool
    is_strict_mode RuleMode.strict = true
    is_strict_mode RuleMode.advisory = false

    abbrev strict_reason : LlmRoutingCondition → ContextPack → Option String
    strict_reason condition pack =
        if condition.strict_rule && any (λ r. is_strict_mode r.mode) pack.rule_matches
        then some "strict_rule"
        else if condition.pack_truncated && pack.stats.truncated
        then some "pack_truncated"
        else none

    abbrev size_reason : Option ℕ → ContextPack → Option String
    size_reason none pack = none
    size_reason (some n) pack =
        if leb n pack.stats.estimated_chars
        then some (concat "min_pack_chars:" (show_number n))
        else none

    unfoldable pub routing_condition_reason :
        LlmRoutingCondition → ContextPack → Option Finding → Option String
    routing_condition_reason condition pack finding =
        if contains pack.file_kind condition.exclude_file_kind
        then none
        else if contains pack.file_kind condition.file_kind
        then some (concat "file_kind:" (file_kind_text pack.file_kind))
        else or_reason (severity_reason condition finding) (
            or_reason (risk_reason condition pack) (
              or_reason (rule_severity_reason condition pack) (
                or_reason (strict_reason condition pack)
                  (size_reason condition.min_pack_chars pack))))

    -- `profile:...` if there is one, and the default otherwise.
    abbrev profile_route : LlmConfig → Option String → Route
    profile_route config none = (config, none, "default")
    profile_route config (some profile) =
        config_for_profile_or_model config profile (concat "profile:" profile)

    abbrev escalated_route :
        String → LlmConfig → Option String → Option String → Option String → Route
    escalated_route label config (some escalated) (some reason) plain =
        config_for_profile_or_model config escalated
          (concat label (concat escalated (concat ":" reason)))
    escalated_route label config _ _ plain = profile_route config plain

    abbrev shallow_route : LlmConfig → Option String → Route
    shallow_route config none = (config, none, "shallow:default")
    shallow_route config (some profile) =
        let r = config_for_profile_or_model config profile (concat "profile:" profile) in
        (r.0, r.1, concat "shallow:" r.2)

    abbrev review_route : LlmConfig → ContextPack → Option String → Route
    review_route config pack (some name) =
        config_for_profile_or_model config name (concat "rule:" name)
    review_route config pack none =
        escalated_route "escalated:" config (filled_text config.routing.escalated_review_profile)
          (routing_condition_reason config.routing.escalate_review_when pack none)
          (filled_text config.routing.review_profile)

    unfoldable pub review_config_for_pack : LlmConfig → ContextPack → Route
    review_config_for_pack config pack = elim config.review_depth [
      | PackDepth.shallow ↦ shallow_route config (filled_text config.routing.review_profile)
      | PackDepth.deep ↦
          review_route config pack (rule_model_override (λ r. r.model) pack.rule_matches)
    ]

    abbrev first_reason : LlmRoutingCondition → ContextPack → List Finding → Option String
    first_reason condition pack [] = none
    first_reason condition pack (f ∷ fs) =
        or_reason (routing_condition_reason condition pack (some f))
          (first_reason condition pack fs)

    abbrev verify_route : LlmConfig → ContextPack → List Finding → Option String → Route
    verify_route config pack findings (some name) =
        config_for_profile_or_model config name (concat "rule-verify:" name)
    verify_route config pack findings none =
        escalated_route "escalated-verify:" config
          (filled_text config.routing.escalated_verify_profile)
          (first_reason config.routing.escalate_verify_when pack findings)
          (filled_text config.routing.verify_profile)

    unfoldable pub verification_config_for_findings : LlmConfig → List Finding → ContextPack → Route
    verification_config_for_findings config findings pack =
        verify_route config pack findings (rule_model_override (λ r. r.verify) pack.rule_matches)
