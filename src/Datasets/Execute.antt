-- ===== src/Datasets/Execute.antt =====
-- `execute_prepared_transformation`: what it does before the engine runs and after, and the last
-- transaction of `transform_dataset_task`, which completes the job with it.
use data_analytics_platform.Base.{
  ℕ, ◌+◌, ◌-◌, List, String, Bool, not, ◌&&◌, ◌||◌, Option, none, some, ◌==◌, str_eq, is_none,
  if◌then◌else◌, count_where,
}
use data_analytics_platform.Schema.{
  Settings, Result, ok, err, transformation_not_found, no_durable_job, dataset_changed,
  version_changed, os_error, integrity_error,
}
use data_analytics_platform.Schema.Json.{Fields}
use data_analytics_platform.Schema.Catalog.{Dataset, DatasetSnapshot, Transformation}
use data_analytics_platform.Artifacts.Table.{Storage}
use data_analytics_platform.Artifacts.Writer.{Paths, Reservation, reserve, publish}
use data_analytics_platform.Jobs.Clock.{Clock}
use data_analytics_platform.Jobs.Admission.{lock_owner}
use data_analytics_platform.Jobs.Worker.{ensure_active, progress, succeed, job_lease_seconds}
use data_analytics_platform.Snapshots.Manifests.{
  Verified, valid, fault, new_manifest, record_manifest,
}
use data_analytics_platform.Datasets.Session.{
  Action, pure, or_raise, on_database, transaction, ◌>>=◌, require, get_storage, modify,
  find_dataset, find_transformation, is_transformation, set_datasets, set_transformations,
}
use data_analytics_platform.Datasets.Audit.{MaterializedArtifact, record_transformation}
use data_analytics_platform.Datasets.Quota.{
  SpaceSettings, Disk, ensure_storage_quota, ensure_output_size, ensure_capacity, megabytes,
  tracked_storage_usage_bytes,
}

-- The local variables of a run that the engine works for.
pub record Attempt : Type 0 where
  pub transformation_id : ℕ
  pub owner_id : ℕ
  pub dataset_id : ℕ
  pub expected_version : ℕ
  pub input_path : String
  pub task_id : String
  pub attempt_token : String
  pub reservation_id : String
  pub final_path : String
  pub temporary_path : String

-- A transformation that is settled is returned as it is.
pub data Begun : Type 0 where
  already : Transformation → Begun
  running : Attempt → Begun

abbrev pub is_settled : String → Bool
is_settled status = str_eq status "completed" || str_eq status "undone"

-- The dataset is still the version that the transformation was asked for.
abbrev pub is_current : Dataset → ℕ → String → Bool
is_current d version path =
    is_none d.deleted_at && ((d.version == version) && str_eq d.stored_path path)

-- The clocks of the checkpoint and of the reservation, and the names that `uuid4` makes.
pub record Beginning : Type 0 where
  pub paths : Paths
  pub attempt_token : String
  pub clock : Clock
  pub now : ℕ
  pub lease_seconds : ℕ
  pub reservation_id : String
  pub final_path : String
  pub temporary_path : String
  pub space : SpaceSettings
  pub disk : Disk

abbrev pub checkpoint : String → String → Clock → Action (Unit {0})
checkpoint task token c =
    transaction do job ← on_database (ensure_active task (some token) job_lease_seconds c); pure tt

abbrev pub attempt_of : Beginning → Transformation → String → Attempt
attempt_of w t task = record {
  transformation_id = t.id;
  owner_id = t.user_id;
  dataset_id = t.dataset_id;
  expected_version = t.expected_version;
  input_path = t.input_path;
  task_id = task;
  attempt_token = w.attempt_token;
  reservation_id = w.reservation_id;
  final_path = w.final_path;
  temporary_path = w.temporary_path;
}

abbrev pub reservation_of : Beginning → Attempt → Reservation
reservation_of w a = record {
  id = a.reservation_id;
  owner_id = a.owner_id;
  task_id = a.task_id;
  attempt_token = a.attempt_token;
  final_path = a.final_path;
  temporary_path = a.temporary_path;
  lease_seconds = w.lease_seconds;
}

unfoldable pub reserve_steps : Beginning → Attempt → Action (Unit {0})
unfolding reserve
reserve_steps w a = do
  st ← get_storage
  d ← or_raise (find_dataset a.dataset_id st.catalog) dataset_changed
  current ← require (is_current d a.expected_version a.input_path) dataset_changed
  reservation ← reserve w.paths (reservation_of w a) w.now
  pure tt

unfoldable pub reserve_output : Beginning → Attempt → Action (Unit {0})
unfolding reserve_steps
reserve_output w a = transaction (reserve_steps w a)

abbrev pub remaining_quota : SpaceSettings → Disk → Attempt → Action ℕ
remaining_quota s k a st = (
  ok (megabytes s.user_storage_quota_mb - tracked_storage_usage_bytes k a.owner_id st.catalog),
  st,
)

-- The checks of space before the engine starts; what remains of the quota goes into its policy.
unfoldable pub ensure_input : SpaceSettings → Disk → Attempt → Action ℕ
unfolding ensure_storage_quota
ensure_input s k a = do
  size ← or_raise (k.size_of a.input_path) os_error
  small ← ensure_output_size s size
  room ← ensure_capacity s k size
  within_quota ← ensure_storage_quota s k a.owner_id size
  remaining_quota s k a

abbrev pub begin_running : Beginning → Transformation → String → Action Begun
begin_running w t task = do
  alive ← checkpoint task w.attempt_token w.clock
  reserved ← reserve_output w (attempt_of w t task)
  remaining ← ensure_input w.space w.disk (attempt_of w t task)
  pure (running (attempt_of w t task))

abbrev pub begin_found : Beginning → Transformation → Action Begun
begin_found w t =
    if is_settled t.status
    then pure (already t)
    else or_raise t.task_id no_durable_job >>= begin_running w t

unfoldable pub begin_execution : Beginning → ℕ → Action Begun
unfolding reserve_output ensure_active ensure_input
begin_execution w id = do
  st ← get_storage
  t ← or_raise (find_transformation id st.catalog) transformation_not_found
  begin_found w t

-- What the last transaction meets: the disk, the clocks of its calls, whether the rename raises, the ids
-- of the rows that it adds and the digest of the request.
pub record Finishing : Type 0 where
  pub space : SpaceSettings
  pub disk : Disk
  pub paths : Paths
  pub active_clock : Clock
  pub progress_clock : Clock
  pub success_clock : Clock
  pub now : ℕ
  pub rename_raises : Bool
  pub snapshot_id : String
  pub event_id : String
  pub context : Option String
  pub fingerprint : Transformation → String
  pub settings : Settings
  pub serialized_size : Fields → ℕ
  pub result : Transformation → Fields

abbrev pub recorded :
    Storage → Verified DatasetSnapshot × List DatasetSnapshot → Result DatasetSnapshot × Storage
recorded st (valid m, ms) = (ok m, record st { catalog = record st.catalog { snapshots = ms } })
recorded st (fault e, ms) = (err integrity_error, st)

abbrev pub add_snapshot : DatasetSnapshot → Action DatasetSnapshot
add_snapshot m st = recorded st (record_manifest m st.catalog.snapshots)

-- The filter of the guarded update.
abbrev pub is_head : Attempt → Dataset → Bool
is_head a d =
    (d.id == a.dataset_id)
    && ((d.version == a.expected_version)
        && (str_eq d.stored_path a.input_path && is_none d.deleted_at))

unfoldable pub advanced : Attempt → MaterializedArtifact → Dataset → Dataset
advanced a x d = record d {
  stored_path = a.final_path;
  row_count = some x.rows;
  column_count = some x.columns;
  profile_json = none;
  version = a.expected_version + 1;
  status = "ready";
}

unfoldable pub materialized : Attempt → MaterializedArtifact → Transformation → Transformation
materialized a x t = record t {
  output_path = a.final_path;
  status = "completed";
  before_rows = x.before_rows;
  after_rows = x.rows;
  before_columns = x.before_columns;
  after_columns = x.columns;
  error_message = none;
}

-- The new head, the transformation's outcome and the receipt.
unfoldable pub advance :
    Finishing → Attempt → MaterializedArtifact → Transformation → Action Transformation
unfolding advanced materialized record_transformation
advance w a x t = do
  st ← get_storage
  only ← require (count_where (is_head a) st.catalog.datasets == 1) version_changed
  moved ← modify (set_datasets (is_head a) (advanced a x))
  closed ← modify (set_transformations (is_transformation a.transformation_id) (materialized a x))
  event ← record_transformation w.event_id w.context w.fingerprint x (materialized a x t)
  pure (materialized a x t)

abbrev pub is_closed : String → Bool
is_closed status = is_settled status || str_eq status "cancelled"

unfoldable pub finish_execution : Finishing → Attempt → MaterializedArtifact → Action Transformation
unfolding lock_owner ensure_active progress ensure_storage_quota publish record_manifest advance
finish_execution w a x = do
  small ← ensure_output_size w.space x.size_bytes
  locked ← on_database (λ db. (lock_owner db a.owner_id, db))
  active ←
      on_database (ensure_active a.task_id (some a.attempt_token) job_lease_seconds w.active_clock)
  fenced ←
      on_database
        (progress a.task_id a.attempt_token 90 "persisting" job_lease_seconds w.progress_clock)
  st ← get_storage
  t ← or_raise (find_transformation a.transformation_id st.catalog) dataset_changed
  d ← or_raise (find_dataset a.dataset_id st.catalog) dataset_changed
  current ←
      require (is_current d a.expected_version a.input_path && not (is_closed t.status))
        dataset_changed
  within_quota ← ensure_storage_quota w.space w.disk a.owner_id x.size_bytes
  room ← ensure_capacity w.space w.disk 0
  live ← publish a.reservation_id a.attempt_token w.now
  moved ← require (not w.rename_raises) os_error
  manifest ← add_snapshot (
      new_manifest w.paths w.snapshot_id a.dataset_id a.final_path (a.expected_version + 1)
        x.size_bytes x.sha256 w.now)
  advance w a x t

-- The head, the receipt and the job's success commit together.
unfoldable pub complete_transformation :
    Finishing → Attempt → MaterializedArtifact → Action Transformation
unfolding finish_execution succeed
complete_transformation w a x = transaction do
  t ← finish_execution w a x
  done ←
      on_database (
        succeed w.settings w.serialized_size a.task_id (w.result t) a.attempt_token w.success_clock)
  pure t
