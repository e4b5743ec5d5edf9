-- ===== src/Schema/Jobs.antt =====
-- backend/app/models/job.py, and the status sets of backend/app/services/job_service.py.
-- Timestamps are microseconds of UTC.
use data_analytics_platform.Base.{ℕ, String, Bool, true, false, Option}
use data_analytics_platform.Schema.Json.{Fields}

pub data JobStatus : Type 0 where
  pending started success failure cancellation_requested cancelled : JobStatus

pub data JobKind : Type 0 where
  import profile transformation_preview transformation report quality_evaluation : JobKind

pub record JobRecord : Type 0 where
  pub task_id : String
  pub owner_id : ℕ
  pub dataset_id : Option ℕ
  pub report_id : Option ℕ
  pub transformation_id : Option ℕ
  pub kind : JobKind
  pub correlation_id : Option String
  pub status : JobStatus
  pub progress : ℕ
  pub stage : Option String
  pub result_json : Option Fields
  pub error_message : Option String
  pub attempt_token : Option String
  pub attempt_count : ℕ
  pub max_attempts : ℕ
  pub lease_expires_at : Option ℕ
  pub cancellation_requested_at : Option ℕ
  pub started_at : Option ℕ
  pub finished_at : Option ℕ
  pub created_at : ℕ
  pub updated_at : ℕ

abbrev pub is_pending : JobStatus → Bool
is_pending pending = true
is_pending _ = false

abbrev pub is_started : JobStatus → Bool
is_started started = true
is_started _ = false

abbrev pub is_success : JobStatus → Bool
is_success success = true
is_success _ = false

abbrev pub is_failure : JobStatus → Bool
is_failure failure = true
is_failure _ = false

abbrev pub is_cancelled : JobStatus → Bool
is_cancelled cancelled = true
is_cancelled _ = false

-- ACTIVE_JOB_STATUSES
abbrev pub is_active : JobStatus → Bool
is_active pending = true
is_active started = true
is_active _ = false

-- CANCELLATION_JOB_STATUSES
abbrev pub is_cancellation : JobStatus → Bool
is_cancellation cancellation_requested = true
is_cancellation cancelled = true
is_cancellation _ = false

-- TERMINAL_JOB_STATUSES
abbrev pub is_terminal : JobStatus → Bool
is_terminal success = true
is_terminal failure = true
is_terminal cancelled = true
is_terminal _ = false

-- CAPACITY_JOB_STATUSES: the active ones, and those asked to stop.
abbrev pub is_capacity : JobStatus → Bool
is_capacity pending = true
is_capacity started = true
is_capacity cancellation_requested = true
is_capacity _ = false
