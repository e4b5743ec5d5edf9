-- ===== src/Operations.antt =====
-- Transformation operations: backend/app/services/operations.py, operation_handlers.py and
-- engines/contracts.py.
pub mod Parameters
pub mod Handlers
pub mod Registry
pub mod Plan
pub mod Agreement
pub mod Releases
