-- ===== src/Models/Llm.antt =====
-- The configuration of the models, of src/apex_ray/models.py.
use apex_ray.Base.{ℕ, String, Bool, Option, List, Eq}
use apex_ray.Base.Dict.{Dict}
use apex_ray.Models.Enums.{FindingSeverity, FindingConfidence, FileKind, LlmCoverageMode, PackDepth}

pub data LlmProviderName : Type 0 where
  fake codex_cli claude_code_cli openai_api anthropic_api deepseek_api : LlmProviderName
  qwen_api kimi_api zai_api openai_compatible : LlmProviderName

LlmProviderName-discrete : Discrete LlmProviderName
LlmProviderName-discrete = hlevel

instance unfoldable pub provider_eq : Eq LlmProviderName
unfolding LlmProviderName-discrete
provider_eq = record { dec = LlmProviderName-discrete }

pub data LlmApiProtocol : Type 0 where
  openai_responses anthropic_messages openai_chat : LlmApiProtocol

pub data LlmStructuredOutput : Type 0 where
  json_schema json_object prompt_only : LlmStructuredOutput

pub data LlmReasoningEffort : Type 0 where
  no_effort minimal low medium high xhigh max_effort : LlmReasoningEffort

pub record LlmApiConfig : Type 0 where
  pub protocol : Option LlmApiProtocol
  pub structured_output : Option LlmStructuredOutput
  pub base_url : Option String
  pub base_url_env : Option String
  pub api_key_env : Option String
  pub allowed_hosts_env : String
  pub headers_from_env : Dict String String
  pub api_version : Option String
  pub max_output_tokens : ℕ
  pub max_retries : ℕ
  pub use_system_proxy : Bool
  pub allow_insecure_loopback_http : Bool

pub record LlmProfile : Type 0 where
  pub provider : Option LlmProviderName
  pub model : Option String
  pub effort : Option LlmReasoningEffort
  pub timeout_seconds : Option ℕ
  pub codex_path : Option String
  pub claude_path : Option String
  pub api : Option LlmApiConfig

pub record LlmRoutingCondition : Type 0 where
  pub risk : List String
  pub rule_severity : List FindingSeverity
  pub finding_severity : List FindingSeverity
  pub finding_confidence : List FindingConfidence
  pub file_kind : List FileKind
  pub exclude_file_kind : List FileKind
  pub strict_rule : Bool
  pub pack_truncated : Bool
  pub min_pack_chars : Option ℕ

pub record LlmRoutingConfig : Type 0 where
  pub review_profile : Option String
  pub verify_profile : Option String
  pub escalated_review_profile : Option String
  pub escalated_verify_profile : Option String
  pub escalate_review_when : LlmRoutingCondition
  pub escalate_verify_when : LlmRoutingCondition

pub record LlmConfig : Type 0 where
  pub enabled : Bool
  pub provider : LlmProviderName
  pub model : Option String
  pub effort : Option LlmReasoningEffort
  pub timeout_seconds : ℕ
  pub jobs : ℕ
  pub max_consecutive_provider_failures : ℕ
  pub max_packs : ℕ
  pub coverage_mode : LlmCoverageMode
  pub max_deep_packs : Option ℕ
  pub max_input_tokens : Option ℕ
  pub review_depth : PackDepth
  pub codex_path : String
  pub claude_path : String
  pub api : LlmApiConfig
  pub verify : Bool
  pub cache_enabled : Bool
  pub cache_dir : Option String
  pub refresh_cache : Bool
  pub profiles : Dict String LlmProfile
  pub routing : LlmRoutingConfig
