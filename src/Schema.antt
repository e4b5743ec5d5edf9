-- ===== src/Schema.antt =====
-- The database tables that the services of backend/app/services share (backend/app/models), the
-- settings of backend/app/core/config.py that they read, and the results that they return.
pub mod Json
pub mod Jobs
pub mod Outbox
pub mod Evaluations
pub mod Catalog
mod Results
mod Config
pub use Results.*
pub use Config.*
use data_analytics_platform.Base.{ℕ, List}
use Jobs.{JobRecord}
use Outbox.{TaskOutbox}
use Evaluations.{QualityEvaluation}

-- What one session sees: the ids of the users, and three tables.
pub record Database : Type 0 where
  pub users : List ℕ
  pub jobs : List JobRecord
  pub outbox : List TaskOutbox
  pub evaluations : List QualityEvaluation
