-- ===== src/Artifacts.antt =====
-- `ArtifactService` of backend/app/services/artifact_service.py: files are written under a durable
-- reservation, published with the job's state, and collected when nothing refers to them.
pub mod Table
pub mod Writer
pub mod References
pub mod Cleanup
pub mod Files
pub mod History
pub mod Safety
pub mod Publication
pub mod Collection
