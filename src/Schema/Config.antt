-- ===== src/Schema/Config.antt =====
-- The settings of backend/app/core/config.py that the modelled code reads.
use data_analytics_platform.Base.{ℕ}

pub record Settings : Type 0 where
  pub max_active_jobs_per_user : ℕ
  pub max_job_result_size_mb : ℕ
  pub outbox_claim_ttl_seconds : ℕ
  pub outbox_max_retry_seconds : ℕ
