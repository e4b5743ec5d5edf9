-- ===== src/Datasets/Audit.antt =====
-- `DatasetAuditService`: `replay`, `record_transformation` and `record_undo`. A receipt keeps what the
-- JSON texts hold; `fingerprint` is the digest of a request.
use data_analytics_platform.Base.{
  ℕ, ◌+◌, ◌++◌, [], ◌∷◌, String, Bool, false, ◌&&◌, ◌||◌, Option, none, some, ◌==◌, str_eq, opt_eq,
  if◌then◌else◌, count_where, first_where,
}
use data_analytics_platform.Schema.{Result, ok, err, refusal, key_reused, integrity_error}
use data_analytics_platform.Schema.Catalog.{
  Catalog, Transformation, DatasetEvent, TransformationReceipt, UndoReceipt, Receipt,
  of_transformation, of_undo,
}
use data_analytics_platform.Datasets.Session.{Action, pure, ◌>>=◌}

abbrev pub is_request : ℕ → ℕ → String → String → DatasetEvent → Bool
is_request dataset actor kind key e =
    (e.dataset_id == dataset)
    && ((e.actor_id == actor) && (str_eq e.kind kind && opt_eq e.idempotency_key (some key)))

abbrev pub replayed : Option DatasetEvent → String → Result (Option Receipt)
replayed none fingerprint = ok none
replayed (some e) fingerprint =
    if str_eq e.request_fingerprint fingerprint
    then ok (some e.result_json)
    else err (refusal key_reused)

unfoldable pub replay : ℕ → ℕ → String → Option String → String → Catalog → Result (Option Receipt)
replay dataset actor kind none fingerprint c = ok none
replay dataset actor kind (some key) fingerprint c =
    replayed (first_where (is_request dataset actor kind key) c.events) fingerprint

-- Two NULLs do not collide.
abbrev pub same_key : Option String → Option String → Bool
same_key (some s) (some t) = str_eq s t
same_key _ _ = false

-- The unique constraints of the table.
abbrev pub collides : DatasetEvent → DatasetEvent → Bool
collides a b =
    str_eq b.id a.id
    || (same_key b.task_id a.task_id
        || ((b.dataset_id == a.dataset_id)
            && ((b.result_version == a.result_version)
                || ((b.actor_id == a.actor_id)
                    && (str_eq b.kind a.kind && same_key b.idempotency_key a.idempotency_key)))))

-- `db.add(event)`, `db.flush()`
unfoldable pub insert_event : DatasetEvent → Action DatasetEvent
insert_event e st =
    if count_where (collides e) st.catalog.events == 0
    then (ok e, record st { catalog = record st.catalog { events = st.catalog.events ++ e ∷ [] } })
    else (err integrity_error, st)

-- `MaterializedArtifact`: what the engine made, its path and its engine's name apart.
pub record MaterializedArtifact : Type 0 where
  pub rows : ℕ
  pub columns : ℕ
  pub before_rows : ℕ
  pub before_columns : ℕ
  pub size_bytes : ℕ
  pub sha256 : String
  pub semantics : String

-- `correlation_id() or transformation.task_id`
abbrev pub or_task : Option String → Option String → Option String
or_task none task = task
or_task (some s) task = if str_eq s "" then task else some s

-- The entries of `transformation_result` and those that the update adds.
abbrev pub transformation_receipt :
    Option String → MaterializedArtifact → Transformation → TransformationReceipt
transformation_receipt context x t = record {
  status = "completed";
  transformation_id = t.id;
  operation_version = t.operation_version;
  dataset_id = t.dataset_id;
  before_rows = t.before_rows;
  after_rows = t.after_rows;
  before_columns = t.before_columns;
  after_columns = t.after_columns;
  progress = 100;
  correlation_id = or_task context t.task_id;
  result_version = t.expected_version + 1;
  engine_name = t.engine_name;
  sha256 = x.sha256;
  size_bytes = x.size_bytes;
  semantics = x.semantics;
}

abbrev pub transformation_event :
    String → Option String → String → MaterializedArtifact → Transformation → DatasetEvent
transformation_event id context fingerprint x t = record {
  id = id;
  dataset_id = t.dataset_id;
  actor_id = t.user_id;
  transformation_id = t.id;
  kind = "transformation";
  idempotency_key = some t.idempotency_key;
  request_fingerprint = fingerprint;
  task_id = t.task_id;
  previous_version = t.expected_version;
  result_version = t.expected_version + 1;
  input_path = t.input_path;
  output_path = t.output_path;
  operation_version = t.operation_version;
  result_json = of_transformation (transformation_receipt context x t);
}

unfoldable pub record_transformation :
    String
    → Option String
    → (Transformation → String)
    → MaterializedArtifact
    → Transformation
    → Action DatasetEvent
unfolding insert_event
record_transformation id context fingerprint x t =
    insert_event (transformation_event id context (fingerprint t) x t)

-- `snapshot_integrity`, as the caller gives it.
abbrev pub integrity_of : Option String → String
integrity_of none = "unverified"
integrity_of (some id) = "verified"

abbrev pub undo_receipt : String → Option String → ℕ → Option String → Transformation → UndoReceipt
undo_receipt id context previous snapshot t = record {
  correlation_id = or_task context t.task_id;
  id = t.id;
  operation = t.operation;
  operation_version = t.operation_version;
  parameters = t.parameters;
  status = "undone";
  task_id = t.task_id;
  expected_version = t.expected_version;
  before_rows = t.before_rows;
  after_rows = t.after_rows;
  before_columns = t.before_columns;
  after_columns = t.after_columns;
  created_at = t.created_at;
  undone_at = t.undone_at;
  event_id = id;
  previous_version = previous;
  result_version = previous + 1;
  snapshot_integrity = integrity_of snapshot;
  snapshot_id = snapshot;
}

abbrev pub undo_event :
    String
    → Option String
    → ℕ
    → ℕ
    → Option String
    → String
    → Option String
    → Transformation
    → DatasetEvent
undo_event id context actor previous key fingerprint snapshot t = record {
  id = id;
  dataset_id = t.dataset_id;
  actor_id = actor;
  transformation_id = t.id;
  kind = "undo";
  idempotency_key = key;
  request_fingerprint = fingerprint;
  task_id = none;
  previous_version = previous;
  result_version = previous + 1;
  input_path = t.output_path;
  output_path = t.input_path;
  operation_version = "1.0.0";
  result_json = of_undo (undo_receipt id context previous snapshot t);
}

unfoldable pub record_undo :
    String
    → Option String
    → ℕ
    → ℕ
    → Option String
    → String
    → Option String
    → Transformation
    → Action Receipt
unfolding insert_event
record_undo id context actor previous key fingerprint snapshot t = do
  e ← insert_event (undo_event id context actor previous key fingerprint snapshot t)
  pure e.result_json
