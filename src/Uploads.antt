-- ===== src/Uploads.antt =====
-- The limits on request bodies: backend/app/core/upload_guard.py.
pub mod Headers
pub mod Stream
pub mod Limit
pub mod Admission
pub mod Slots
