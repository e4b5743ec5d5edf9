-- ===== src/Datasets/Prepare.antt =====
-- `prepare_transformation`, and the transaction of `transform_dataset` in
-- backend/app/api/v1/routes/datasets.py that admits it with its job and its publication.
use data_analytics_platform.Base.{
  ℕ, ◌++◌, [], ◌∷◌, String, Bool, true, false, not, ◌&&◌, ◌||◌, Option, none, some, ◌==◌, ltb,
  text_length, str_eq, is_none, if◌then◌else◌, count_where, first_where,
}
use data_analytics_platform.Schema.{
  Database, Settings, Result, ok, err, refusal, dataset_not_found, not_ready, version_changed,
  key_reused, bad_key, not_capable, integrity_error,
}
use data_analytics_platform.Schema.Json.{Fields, Json}
use data_analytics_platform.Schema.Jobs.{JobKind, JobRecord}
use data_analytics_platform.Schema.Outbox.{TaskOutbox}
use data_analytics_platform.Schema.Catalog.{Dataset, Transformation}
use data_analytics_platform.Jobs.Admission.{lock_owner, create}
use data_analytics_platform.Outbox.Intent.{enqueue}
use data_analytics_platform.Operations.Parameters.{Checked, accepted, rejected}
use data_analytics_platform.Operations.Registry.{OperationRegistry}
use data_analytics_platform.Operations.Plan.{
  TransformationPlan, ArrowSchema, validate_operation_capability,
}
use data_analytics_platform.Datasets.Session.{
  Action, pure, lift, or_raise, on_database, transaction, ◌>>=◌, require, get_storage, modify,
  owned_dataset, is_dataset, is_transformation, set_datasets, set_transformations,
}

abbrev pub is_ready : String → Bool
is_ready status = str_eq status "ready" || str_eq status "profiled"

abbrev pub ensure_ready : Dataset → Action (Unit {0})
ensure_ready d = require (is_ready d.status) not_ready

pub record TransformationRequest : Type 0 where
  pub dataset_id : ℕ
  pub user_id : ℕ
  pub operation : String
  pub parameters : Fields
  pub expected_version : ℕ
  pub idempotency_key : String
  pub engine_name : Option String

-- What the route and `prepare_transformation` meet: whether a key is blank, Python's equality of parameters, the setting of the engine, the
-- released operations and what they look at, the name of a new version's path, and the new row's id.
pub record Preparing (F : Type 0) : Type 0 where
  pub is_blank : String → Bool
  pub same_parameters : Fields → Fields → Bool
  pub transformation_engine : String
  pub registry : OperationRegistry F
  pub max_columns : ℕ
  pub lower : String → String
  pub suffix : String → String
  pub schema : String → ArrowSchema
  pub version_path : String → String
  pub id : ℕ
  pub now : ℕ

-- `not key.strip() or len(key) > 120` refuses a key.
abbrev pub is_valid_key : (String → Bool) → String → Bool
is_valid_key is_blank key = not (is_blank key) && not (ltb 120 (text_length key))

abbrev pub or_zero : Option ℕ → ℕ
or_zero none = 0
or_zero (some n) = n

abbrev pub or_engine : Option String → String → String
or_engine none d = d
or_engine (some s) d = if str_eq s "" then d else s

abbrev pub names_engine : Option String → String → Bool
names_engine none engine = true
names_engine (some s) engine = str_eq engine s

abbrev pub is_key : ℕ → ℕ → String → Transformation → Bool
is_key dataset user key t =
    (t.dataset_id == dataset) && ((t.user_id == user) && str_eq t.idempotency_key key)

abbrev pub capable : Checked TransformationPlan → Action TransformationPlan
capable (accepted p) = pure p
capable (rejected e) = lift (err (refusal not_capable))

abbrev pub clashes : Transformation → Transformation → Bool
clashes a b = (b.id == a.id) || is_key a.dataset_id a.user_id a.idempotency_key b

-- `db.add(transformation)`, `db.flush()`. PostgreSQL holds the dataset's row, so no other session
-- inserts the key between the query and the flush.
unfoldable pub insert_transformation : Transformation → Action Transformation
insert_transformation t st =
    if count_where (clashes t) st.catalog.transformations == 0
    then (
      ok t,
      record st {
        catalog = record st.catalog { transformations = st.catalog.transformations ++ t ∷ [] };
      },
    )
    else (err integrity_error, st)

abbrev pub transforming : Dataset → Dataset
transforming d = record d { status = "transforming" }

abbrev pub with_task : String → Transformation → Transformation
with_task task t = record t { task_id = some task }

abbrev pub created_job :
    Settings → String → ℕ → ℕ → ℕ → Option String → ℕ → Database → Result JobRecord × Database
created_job s task user dataset transformation context now =
    create s
      (record {
        task_id = task;
        owner_id = user;
        dataset_id = some dataset;
        kind = JobKind.transformation;
        report_id = none;
        transformation_id = some transformation;
      })
      context now

abbrev pub without_event : TaskOutbox × Database → Result (Unit {0}) × Database
without_event (e, db) = (ok tt, db)

abbrev pub published_job :
    ℕ → String → Json → Option String → ℕ → Database → Result (Unit {0}) × Database
published_job event task argument context now db =
    without_event (enqueue event task JobKind.transformation (argument ∷ []) context now db)

-- `register_job`: the job and, in the same transaction, its publication. `argument` is the
-- transformation's id as a JSON number.
abbrev pub register_job :
    Settings → String → ℕ → ℕ → ℕ → Option String → ℕ → ℕ → Json → Action (Unit {0})
register_job s task user dataset transformation context now event argument = do
  job ← on_database (created_job s task user dataset transformation context now)
  on_database (published_job event task argument context now)

pub record Admission : Type 0 where
  pub task_id : String
  pub context : Option String
  pub now : ℕ
  pub event_id : ℕ
  pub argument : ℕ → Json

abbrev pub admit :
    Settings
    → Admission
    → TransformationRequest
    → Transformation × Bool
    → Action (Transformation × Bool)
admit s a q (t, created) = if not created && not (is_none t.task_id) then pure (t, created) else do
  tasked ← modify (set_transformations (is_transformation t.id) (with_task a.task_id))
  registered ←
      register_job s a.task_id q.user_id q.dataset_id t.id a.context a.now a.event_id
        (a.argument t.id)
  pure (with_task a.task_id t, created)

module _ {F : Type 0} where
  abbrev pub is_same_request : Preparing F → TransformationRequest → Transformation → Bool
  is_same_request w q t =
      str_eq t.operation q.operation
      && (w.same_parameters t.parameters q.parameters
          && ((t.expected_version == q.expected_version)
              && names_engine q.engine_name t.engine_name))

  abbrev pub plan_of : Preparing F → TransformationRequest → Dataset → Action TransformationPlan
  plan_of w q d = capable (
      validate_operation_capability w.lower w.max_columns w.registry q.operation q.parameters
        (or_engine q.engine_name w.transformation_engine) d.stored_path (w.suffix d.stored_path)
        (w.schema d.stored_path) none)

  abbrev pub new_transformation :
      Preparing F → TransformationRequest → Dataset → TransformationPlan → Transformation
  new_transformation w q d plan = record {
    id = w.id;
    dataset_id = d.id;
    operation = q.operation;
    operation_version = plan.operation_version;
    engine_name = or_engine q.engine_name w.transformation_engine;
    parameters = q.parameters;
    user_id = q.user_id;
    status = "pending";
    task_id = none;
    idempotency_key = q.idempotency_key;
    expected_version = q.expected_version;
    input_path = d.stored_path;
    output_path = w.version_path d.stored_path;
    before_rows = or_zero d.row_count;
    after_rows = or_zero d.row_count;
    before_columns = or_zero d.column_count;
    after_columns = or_zero d.column_count;
    error_message = none;
    undone_at = none;
    created_at = w.now;
  }

  abbrev pub prepare_new :
      Preparing F → TransformationRequest → Dataset → Action (Transformation × Bool)
  prepare_new w q d = do
    ready ← ensure_ready d
    current ← require (d.version == q.expected_version) version_changed
    plan ← plan_of w q d
    marked ← modify (set_datasets (is_dataset d.id) transforming)
    t ← insert_transformation (new_transformation w q d plan)
    pure (t, true)

  abbrev pub prepare_or_reuse :
      Preparing F
      → TransformationRequest
      → Dataset
      → Option Transformation
      → Action (Transformation × Bool)
  prepare_or_reuse w q d none = prepare_new w q d
  prepare_or_reuse w q d (some t) =
      lift (if is_same_request w q t then ok (t, false) else err (refusal key_reused))

  unfoldable pub prepare_transformation :
      Preparing F → TransformationRequest → Action (Transformation × Bool)
  unfolding lock_owner owned_dataset insert_transformation
  prepare_transformation w q = do
    locked ← on_database (λ db. (lock_owner db q.user_id, db))
    st ← get_storage
    d ← or_raise (owned_dataset q.dataset_id q.user_id st.catalog) dataset_not_found
    prepare_or_reuse w q d
        (first_where (is_key d.id q.user_id q.idempotency_key) st.catalog.transformations)

  unfoldable pub transform_dataset :
      Settings → Preparing F → Admission → TransformationRequest → Action (Transformation × Bool)
  unfolding prepare_transformation owned_dataset
  transform_dataset s w a q = transaction do
    key ← require (is_valid_key w.is_blank q.idempotency_key) bad_key
    st ← get_storage
    d ← or_raise (owned_dataset q.dataset_id q.user_id st.catalog) dataset_not_found
    prepared ← prepare_transformation w q
    admit s a q prepared
