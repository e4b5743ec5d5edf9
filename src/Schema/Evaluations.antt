-- ===== src/Schema/Evaluations.antt =====
-- backend/app/models/quality_evaluation.py
use data_analytics_platform.Base.{ℕ, String, Bool, true, false, Option}
use data_analytics_platform.Schema.Json.{Fields}

pub data EvaluationStatus : Type 0 where
  pending running completed error cancelled : EvaluationStatus

pub record QualityEvaluation : Type 0 where
  pub id : ℕ
  pub dataset_id : ℕ
  pub owner_id : ℕ
  pub contract_id : ℕ
  pub contract_version : ℕ
  pub dataset_version : ℕ
  pub snapshot_path : String
  pub snapshot_sha256 : Option String
  pub task_id : String
  pub idempotency_key : String
  pub status : EvaluationStatus
  pub passed : Option Bool
  pub result_json : Option Fields
  pub error_message : Option String
  pub created_at : ℕ
  pub completed_at : Option ℕ

-- `status.in_(("pending", "running"))`
abbrev pub is_open : EvaluationStatus → Bool
is_open pending = true
is_open running = true
is_open _ = false

abbrev pub is_error : EvaluationStatus → Bool
is_error error = true
is_error _ = false
