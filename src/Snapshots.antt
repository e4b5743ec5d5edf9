-- ===== src/Snapshots.antt =====
-- The retention of immutable dataset snapshots: backend/app/services/snapshot_service.py.
pub mod Manifests
pub mod Integrity
pub mod Expiry
pub mod Rows
pub mod Recent
pub mod Retention
pub mod History
