-- ===== src/Engines.antt =====
-- The supervised child process of backend/app/services/engines/runner.py, and the resource policy of
-- backend/app/services/engines/contracts.py.
pub mod Runner
pub mod Supervision
