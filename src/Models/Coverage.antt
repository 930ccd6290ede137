-- ===== src/Models/Coverage.antt =====
-- What a review has covered, of src/apex_ray/models.py. Of the long summary these are the fields that the
-- gate and the drain loop read.
use apex_ray.Base.{Eq, ℕ, String, Bool, Option, List}

pub data ReviewerStatus : Type 0 where
  not_applicable pass warn fail : ReviewerStatus

pub data PartialSeverity : Type 0 where
  none_severity minor major critical : PartialSeverity

pub data CompletionStatus : Type 0 where
  disabled complete partial incomplete : CompletionStatus

ReviewerStatus-discrete : Discrete ReviewerStatus
ReviewerStatus-discrete = hlevel

instance unfoldable pub reviewer_status_eq : Eq ReviewerStatus
unfolding ReviewerStatus-discrete
reviewer_status_eq = record { dec = ReviewerStatus-discrete }

PartialSeverity-discrete : Discrete PartialSeverity
PartialSeverity-discrete = hlevel

instance unfoldable pub partial_severity_eq : Eq PartialSeverity
unfolding PartialSeverity-discrete
partial_severity_eq = record { dec = PartialSeverity-discrete }

CompletionStatus-discrete : Discrete CompletionStatus
CompletionStatus-discrete = hlevel

instance unfoldable pub completion_status_eq : Eq CompletionStatus
unfolding CompletionStatus-discrete
completion_status_eq = record { dec = CompletionStatus-discrete }

pub record LlmPackReviewStatus : Type 0 where
  pub context_pack_id : String
  pub file : String
  pub status : String
  pub priority : Option String
  pub slice : String
  pub reason : String

pub record LlmCoverageTodo : Type 0 where
  pub context_pack_id : String
  pub file : String
  pub reviewer_id : Option String
  pub priority : String
  pub slice : String
  pub reason : String
  pub suggested_command : String

pub record LlmReviewerCoverageSummary : Type 0 where
  pub reviewer_id : String
  pub required : Bool
  pub status : ReviewerStatus
  pub reasons : List String
  pub matching_context_packs : ℕ
  pub selected_context_packs : ℕ
  pub reviewed_context_packs : ℕ
  pub failed_review_runs : ℕ
  pub failed_verify_runs : ℕ
  pub matching_context_pack_ids : List String
  pub selected_context_pack_ids : List String
  pub reviewed_context_pack_ids : List String

pub record LlmResidualRiskSummary : Type 0 where
  pub context_pack_id : String
  pub file : String
  pub priority : String
  pub reason : String

pub record LlmCoverageSummary : Type 0 where
  pub enabled : Bool
  pub verify_enabled : Bool
  pub max_packs : ℕ
  pub total_context_packs : ℕ
  pub reviewed_context_packs : ℕ
  pub unreviewed_context_packs : ℕ
  pub high_risk_context_packs : ℕ
  pub reviewed_high_risk_context_packs : ℕ
  pub shallow_only_high_risk_context_pack_ids : List String
  pub quality_gate_status : String
  pub quality_gate_reasons : List String
  pub partial_severity : PartialSeverity
  pub partial_reasons : List String
  pub reviewed_context_pack_ids : List String
  pub unreviewed_context_pack_ids : List String
  pub pack_statuses : List LlmPackReviewStatus
  pub coverage_todos : List LlmCoverageTodo
  pub over_budget_context_pack_ids : List String
  pub residual_risk_context_packs : List LlmResidualRiskSummary
  pub reviewers : List LlmReviewerCoverageSummary
