-- ===== src/Schema/Catalog.antt =====
-- The tables behind a dataset: backend/app/models/project.py, dataset.py, dataset_snapshot.py,
-- transformation.py, report.py, dataset_event.py and quality_contract.py. The columns are those that
-- the modelled code reads or writes.
use data_analytics_platform.Base.{ℕ, String, Bool, Option, List}
use data_analytics_platform.Schema.Json.{Fields, Items}

pub record Project : Type 0 where
  pub id : ℕ
  pub owner_id : ℕ

pub record Dataset : Type 0 where
  pub id : ℕ
  pub project_id : ℕ
  pub stored_path : String
  pub status : String
  pub row_count : Option ℕ
  pub column_count : Option ℕ
  pub profile_json : Option Fields
  pub version : ℕ
  pub deleted_at : Option ℕ

pub record DatasetSnapshot : Type 0 where
  pub id : String
  pub dataset_id : ℕ
  pub stored_path : String
  pub version : ℕ
  pub sha256 : String
  pub size_bytes : ℕ
  pub availability : String
  pub pinned : Bool
  pub created_at : ℕ
  pub expired_at : Option ℕ
  pub retention_checked_at : Option ℕ

pub record Transformation : Type 0 where
  pub id : ℕ
  pub dataset_id : ℕ
  pub operation : String
  pub operation_version : String
  pub engine_name : String
  pub parameters : Fields
  pub user_id : ℕ
  pub status : String
  pub task_id : Option String
  pub idempotency_key : String
  pub expected_version : ℕ
  pub input_path : String
  pub output_path : String
  pub before_rows : ℕ
  pub after_rows : ℕ
  pub before_columns : ℕ
  pub after_columns : ℕ
  pub error_message : Option String
  pub undone_at : Option ℕ
  pub created_at : ℕ

pub record Report : Type 0 where
  pub id : ℕ
  pub project_id : ℕ
  pub status : String
  pub file_path : Option String
  pub error_message : Option String

-- The dictionaries that events keep, one of a transformation and one of an undo. Times are not texts.
pub record TransformationReceipt : Type 0 where
  pub status : String
  pub transformation_id : ℕ
  pub operation_version : String
  pub dataset_id : ℕ
  pub before_rows : ℕ
  pub after_rows : ℕ
  pub before_columns : ℕ
  pub after_columns : ℕ
  pub progress : ℕ
  pub correlation_id : Option String
  pub result_version : ℕ
  pub engine_name : String
  pub sha256 : String
  pub size_bytes : ℕ
  pub semantics : String

pub record UndoReceipt : Type 0 where
  pub correlation_id : Option String
  pub id : ℕ
  pub operation : String
  pub operation_version : String
  pub parameters : Fields
  pub status : String
  pub task_id : Option String
  pub expected_version : ℕ
  pub before_rows : ℕ
  pub after_rows : ℕ
  pub before_columns : ℕ
  pub after_columns : ℕ
  pub created_at : ℕ
  pub undone_at : Option ℕ
  pub event_id : String
  pub previous_version : ℕ
  pub result_version : ℕ
  pub snapshot_integrity : String
  pub snapshot_id : Option String

pub data Receipt : Type 0 where
  of_transformation : TransformationReceipt → Receipt
  of_undo : UndoReceipt → Receipt

pub record DatasetEvent : Type 0 where
  pub id : String
  pub dataset_id : ℕ
  pub actor_id : ℕ
  pub transformation_id : ℕ
  pub kind : String
  pub idempotency_key : Option String
  pub request_fingerprint : String
  pub task_id : Option String
  pub previous_version : ℕ
  pub result_version : ℕ
  pub input_path : String
  pub output_path : String
  pub operation_version : String
  pub result_json : Receipt

pub record QualityContract : Type 0 where
  pub id : ℕ
  pub dataset_id : ℕ
  pub owner_id : ℕ
  pub version : ℕ
  pub name : String
  pub rules_json : Items

pub record Catalog : Type 0 where
  pub projects : List Project
  pub datasets : List Dataset
  pub snapshots : List DatasetSnapshot
  pub transformations : List Transformation
  pub reports : List Report
  pub events : List DatasetEvent
  pub contracts : List QualityContract
