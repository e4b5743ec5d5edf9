-- ===== src/Charts.antt =====
-- The limits on chart queries: backend/app/services/chart_cache.py, and `QueryGate` of
-- backend/app/services/chart_query.py.
pub mod Cache
pub mod Accounting
pub mod Books
