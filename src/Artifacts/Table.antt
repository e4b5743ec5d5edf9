-- ===== src/Artifacts/Table.antt =====
-- backend/app/models/storage_artifact.py
use data_analytics_platform.Base.{ℕ, String, Bool, true, false, Option, List, str_eq}
use data_analytics_platform.Schema.{Database}
use data_analytics_platform.Schema.Catalog.{Catalog}

pub data ArtifactState : Type 0 where
  reserved live deleting deleted : ArtifactState

pub record StorageArtifact : Type 0 where
  pub id : String
  pub owner_id : Option ℕ
  pub task_id : Option String
  pub attempt_token : Option String
  pub final_path : String
  pub temporary_path : Option String
  pub state : ArtifactState
  pub expires_at : Option ℕ
  pub deletion_requested_at : Option ℕ
  pub checked_at : Option ℕ
  pub created_at : ℕ

abbrev pub is_reserved : ArtifactState → Bool
is_reserved reserved = true
is_reserved _ = false

abbrev pub is_live : ArtifactState → Bool
is_live live = true
is_live _ = false

abbrev pub is_deleting : ArtifactState → Bool
is_deleting deleting = true
is_deleting _ = false

-- `state.in_({"DELETING", "DELETED"})`
abbrev pub is_tombstone : ArtifactState → Bool
is_tombstone deleting = true
is_tombstone deleted = true
is_tombstone _ = false

abbrev pub has_id : String → StorageArtifact → Bool
has_id id a = str_eq a.id id

abbrev pub has_path : String → StorageArtifact → Bool
has_path path a = str_eq a.final_path path

-- The session's view of the artifacts beside the other tables.
pub record Storage : Type 0 where
  pub database : Database
  pub catalog : Catalog
  pub artifacts : List StorageArtifact
