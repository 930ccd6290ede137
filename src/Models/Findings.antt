-- ===== src/Models/Findings.antt =====
-- Findings and their verifications, of src/apex_ray/models.py.
use apex_ray.Base.{ℕ, String, Bool, Option, List}
use apex_ray.Models.Enums.{FindingSeverity, FindingConfidence}

pub record Finding : Type 0 where
  pub title : String
  pub severity : FindingSeverity
  pub confidence : FindingConfidence
  pub file : String
  pub line : Option ℕ
  pub failure_mode : String
  pub evidence : String
  pub suggested_fix : String
  pub suggested_test : String
  pub context_pack_id : String
  pub reviewer_ids : List String
  pub reviewer_context_pack_ids : List (String × List String)

pub record FindingVerification : Type 0 where
  pub finding : Finding
  pub reviewer_id : String
  pub approved : Bool
  pub confidence : FindingConfidence
  pub reason : String
  pub review_snapshot_id : Option String
  pub superseded : Bool
  pub superseded_reason : Option String
