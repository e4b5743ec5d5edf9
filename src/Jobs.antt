-- ===== src/Jobs.antt =====
-- `JobService` of backend/app/services/job_service.py.
pub mod Clock
pub mod Admission
pub mod Worker
pub mod Ending
pub mod Keys
pub mod Lifecycle
pub mod Acquisition
pub mod Fencing
pub mod Outcomes
pub mod Cancellation
