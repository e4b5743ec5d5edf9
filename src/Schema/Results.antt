-- ===== src/Schema/Results.antt =====
-- The exceptions of backend/app/services/job_service.py, and those that artifact_service.py raises, as
-- values.
use data_analytics_platform.Base.{ℕ}
use data_analytics_platform.Schema.Jobs.{JobStatus}

-- The messages of `JobStateConflict`.
pub data Conflict : Type 0 where
  not_found disappeared lease_lost not_owner budget_exhausted failed_stale no_publication : Conflict
  lease_required writer_lost reservation_gone not_publishable : Conflict
  bad_state : JobStatus → Conflict

-- The messages of `ValueError` and `LookupError` in dataset_service.py, dataset_audit_service.py,
-- quality_service.py and snapshot_service.py, and the other exceptions that these let through.
pub data Refusal : Type 0 where
  dataset_not_found dataset_changed not_ready version_changed key_reused bad_key : Refusal
  transformation_not_found no_durable_job nothing_to_undo snapshot_fault : Refusal
  contract_not_found contract_changed : Refusal
  not_capable output_too_large over_quota low_storage os_error : Refusal

-- `lease_unavailable` carries `retry_after_seconds`; `no_result` and
-- `integrity_error` are SQLAlchemy's `NoResultFound` and `IntegrityError`.
pub data ServiceError : Type 0 where
  invalid_token cancellation capacity_exceeded result_size_exceeded : ServiceError
  no_result integrity_error invalid_paths : ServiceError
  state_conflict : Conflict → ServiceError
  lease_unavailable : ℕ → ServiceError
  refusal : Refusal → ServiceError

pub data Result {ℓ} (A : Type ℓ) : Type ℓ where
  ok : A → Result A
  err : ServiceError → Result A
