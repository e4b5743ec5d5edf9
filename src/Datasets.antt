-- ===== src/Datasets.antt =====
-- The heads of datasets and what changes them: the transactions of
-- backend/app/services/dataset_service.py and backend/app/tasks/dataset_tasks.py, with the receipts of
-- backend/app/services/dataset_audit_service.py.
pub mod Session
pub mod Audit
pub mod Quota
pub mod Prepare
pub mod Execute
pub mod Undo
pub mod Recovery
pub mod Closed
pub mod Ledger
pub mod Steps
pub mod Admitted
pub mod Heads
pub mod Completion
pub mod History
pub mod Traced
pub mod Replayed
pub mod Stale
