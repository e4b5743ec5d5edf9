-- ===== src/Outbox.antt =====
-- `OutboxService` of backend/app/services/outbox_service.py.
pub mod Intent
pub mod Dispatch
pub mod Reconcile
pub mod Lifecycle
pub mod Fencing
pub mod Recovery
pub mod Pacing
