-- ===== src/Models/Runs.antt =====
-- One call of a language model, of src/apex_ray/models.py. Its costs, its token counts and the route that
-- chose its model are left out.
use apex_ray.Base.{ℕ, String, Bool, Option}

pub record LlmRun : Type 0 where
  pub kind : String
  pub provider : String
  pub model : Option String
  pub reviewer_id : String
  pub context_pack_id : String
  pub status : String
  pub duration_ms : ℕ
  pub findings_count : ℕ
  pub cache_hit : Bool
  pub error : Option String
