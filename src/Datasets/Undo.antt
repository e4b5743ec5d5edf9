-- ===== src/Datasets/Undo.antt =====
-- `undo_last`: what it observes before the file is hashed, and the transaction that follows.
use data_analytics_platform.Base.{
  ℕ, ◌+◌, String, Bool, true, false, ◌&&◌, Option, none, some, ◌==◌, str_eq, is_none, ltb,
  first_where, order_by,
}
use data_analytics_platform.Schema.{
  err, refusal, dataset_not_found, dataset_changed, version_changed, bad_key, nothing_to_undo,
  snapshot_fault,
}
use data_analytics_platform.Schema.Catalog.{
  Catalog, Dataset, DatasetSnapshot, Transformation, Receipt,
}
use data_analytics_platform.Artifacts.Writer.{Paths}
use data_analytics_platform.Jobs.Admission.{lock_owner}
use data_analytics_platform.Snapshots.Manifests.{
  FileStat, VerifiedFile, Reading, Verified, valid, fault, unchanged, is_available, manifest,
  verify,
}
use data_analytics_platform.Datasets.Session.{
  Action, pure, lift, or_raise, on_database, transaction, ◌>>=◌, require, get_storage, modify,
  owned_dataset, is_dataset, is_transformation, set_datasets, set_transformations,
}
use data_analytics_platform.Datasets.Audit.{replay, record_undo}
use data_analytics_platform.Datasets.Prepare.{is_valid_key, ensure_ready}

pub record UndoRequest : Type 0 where
  pub dataset_id : ℕ
  pub user_id : ℕ
  pub expected_version : ℕ
  pub idempotency_key : Option String

-- What is known of the previous version once its file is hashed.
pub record Observation : Type 0 where
  pub candidate_id : ℕ
  pub restored_path : String
  pub verified_file : VerifiedFile
  pub manifest_id : Option String

pub data Observed : Type 0 where
  replayed : Receipt → Observed
  candidate : Observation → Observed

-- `is_blank` is `not key.strip()`; `fingerprint` digests a dataset and a version.
pub record Undoing : Type 0 where
  pub is_blank : String → Bool
  pub fingerprint : ℕ → ℕ → String
  pub paths : Paths
  pub now : ℕ
  pub event_id : String
  pub context : Option String

abbrev pub valid_key : Undoing → Option String → Bool
valid_key w none = true
valid_key w (some key) = is_valid_key w.is_blank key

abbrev pub later_id : Transformation → Transformation → Bool
later_id a b = ltb b.id a.id

abbrev pub is_undoable : Dataset → Transformation → Bool
is_undoable d t =
    (t.dataset_id == d.id)
    && (str_eq t.status "completed" && (is_none t.undone_at && str_eq t.output_path d.stored_path))

-- `ORDER BY id DESC`, `.first()`
unfoldable pub newest : (Transformation → Bool) → Catalog → Option Transformation
unfolding order_by
newest p c = first_where p (order_by later_id c.transformations)

abbrev pub verified_or_raise : {A : Type 0} → Verified A → Action A
verified_or_raise (valid a) = pure a
verified_or_raise (fault e) = lift (err (refusal snapshot_fault))

abbrev pub observation_of : Transformation → VerifiedFile × Option String → Observed
observation_of t (v, id) = candidate (record {
  candidate_id = t.id;
  restored_path = t.input_path;
  verified_file = v;
  manifest_id = id;
})

-- Before the hashing: a replay, or the candidate. `reading` is what hashing a path meets.
abbrev pub observe_found :
    Undoing → UndoRequest → (String → Reading) → Dataset → Option Receipt → Action Observed
observe_found w q reading d (some r) = pure (replayed r)
observe_found w q reading d none = do
  ready ← ensure_ready d
  current ← require (d.version == q.expected_version) version_changed
  st ← get_storage
  t ← or_raise (newest (is_undoable d) st.catalog) nothing_to_undo
  v ←
      verified_or_raise
        (verify w.paths st.catalog.snapshots q.dataset_id t.input_path (reading t.input_path))
  pure (observation_of t v)

unfoldable pub observe : Undoing → UndoRequest → (String → Reading) → Action Observed
unfolding owned_dataset replay newest verify
observe w q reading = do
  key ← require (valid_key w q.idempotency_key) bad_key
  st ← get_storage
  d ← or_raise (owned_dataset q.dataset_id q.user_id st.catalog) dataset_not_found
  receipt ← lift (
      replay q.dataset_id q.user_id "undo" q.idempotency_key
        (w.fingerprint q.dataset_id q.expected_version) st.catalog)
  observe_found w q reading d receipt

-- The manifest of the path is the one that was verified, and it is there to be restored.
abbrev pub same_manifest : Option DatasetSnapshot → Option String → Bool
same_manifest none none = true
same_manifest none (some id) = false
same_manifest (some m) none = false
same_manifest (some m) (some id) = str_eq m.id id && is_available m

unfoldable pub restored : Transformation → Dataset → Dataset
restored t d = record d {
  stored_path = t.input_path;
  row_count = some t.before_rows;
  column_count = some t.before_columns;
  version = d.version + 1;
  profile_json = none;
  status = "ready";
}

unfoldable pub undone : ℕ → Transformation → Transformation
undone now t = record t { undone_at = some now; status = "undone" }

-- The restored head, the transformation's mark and the receipt.
unfoldable pub restore :
    Undoing → UndoRequest → Observation → Dataset → Transformation → Action Receipt
unfolding restored undone record_undo
restore w q o d t = do
  marked ← modify (set_transformations (is_transformation t.id) (undone w.now))
  moved ← modify (set_datasets (is_dataset d.id) (restored t))
  record_undo w.event_id w.context q.user_id q.expected_version q.idempotency_key
      (w.fingerprint d.id q.expected_version) o.manifest_id (undone w.now t)

-- After the hashing: `stat` is that of the restored path now.
abbrev pub undo_locked :
    Undoing
    → UndoRequest
    → Observation
    → Option FileStat
    → Dataset
    → Option Receipt
    → Action Receipt
undo_locked w q o stat d (some r) = pure r
undo_locked w q o stat d none = do
  current ← require (d.version == q.expected_version) version_changed
  ready ← ensure_ready d
  st ← get_storage
  t ←
      or_raise (newest (λ t. is_undoable d t && (t.user_id == q.user_id)) st.catalog)
        nothing_to_undo
  same ← require ((t.id == o.candidate_id) && str_eq t.input_path o.restored_path) dataset_changed
  known ←
      require
        (same_manifest (manifest w.paths st.catalog.snapshots q.dataset_id o.restored_path)
          o.manifest_id)
        snapshot_fault
  file ← verified_or_raise (unchanged o.verified_file stat)
  restore w q o d t

unfoldable pub undo_observed :
    Undoing → UndoRequest → Observation → Option FileStat → Action Receipt
unfolding lock_owner owned_dataset replay newest manifest restore
undo_observed w q o stat = transaction do
  locked ← on_database (λ db. (lock_owner db q.user_id, db))
  st ← get_storage
  d ← or_raise (owned_dataset q.dataset_id q.user_id st.catalog) dataset_not_found
  receipt ← lift (
      replay d.id q.user_id "undo" q.idempotency_key (w.fingerprint d.id q.expected_version)
        st.catalog)
  undo_locked w q o stat d receipt

abbrev pub undo_candidate :
    Undoing → UndoRequest → (Observation → Option FileStat) → Observed → Action Receipt
undo_candidate w q stat (replayed r) = pure r
undo_candidate w q stat (candidate o) = undo_observed w q o (stat o)

-- The whole call, where no other session acts while the file is hashed.
unfoldable pub undo_last :
    Undoing → UndoRequest → (String → Reading) → (Observation → Option FileStat) → Action Receipt
unfolding observe undo_observed
undo_last w q reading stat = observe w q reading >>= undo_candidate w q stat
