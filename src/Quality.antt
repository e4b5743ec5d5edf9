-- ===== src/Quality.antt =====
-- `QualityService` of backend/app/services/quality_service.py: `create_contract` and
-- `admit_evaluation`. `owned_dataset` is that of Datasets/Session.
pub mod Replay
use data_analytics_platform.Base.{
  ℕ, ◌+◌, ◌++◌, [], ◌∷◌, List, String, Bool, true, false, ◌&&◌, ◌||◌, Option, none, some, ◌==◌,
  str_eq, if◌then◌else◌, count_where, first_where, ltb, order_by,
}
use data_analytics_platform.Schema.{
  Database, Settings, Result, ok, err, refusal, dataset_not_found, key_reused, contract_not_found,
  contract_changed, version_changed, snapshot_fault, integrity_error,
}
use data_analytics_platform.Schema.Json.{Json, Items}
use data_analytics_platform.Schema.Jobs.{JobKind, JobRecord}
use data_analytics_platform.Schema.Evaluations.{QualityEvaluation, EvaluationStatus}
use data_analytics_platform.Schema.Catalog.{Catalog, Dataset, DatasetSnapshot, QualityContract}
use data_analytics_platform.Artifacts.Table.{Storage}
use data_analytics_platform.Artifacts.Writer.{Paths}
use data_analytics_platform.Snapshots.Manifests.{manifest, is_available}
use data_analytics_platform.Jobs.Admission.{lock_owner, create}
use data_analytics_platform.Outbox.Intent.{enqueue}
use data_analytics_platform.Datasets.Session.{
  Action, pure, lift, or_raise, on_database, ◌>>=◌, require, get_storage, owned_dataset,
}
use data_analytics_platform.Datasets.Prepare.{ensure_ready, without_event}

-- `strip` is `str.strip`, `rules` the dumps of the rules, and `id` the new row's.
pub record QualityContractCreate : Type 0 where
  pub id : ℕ
  pub expected_contract_version : ℕ
  pub name : String
  pub rules : Items
  pub strip : String → String

abbrev pub later_version : QualityContract → QualityContract → Bool
later_version a b = ltb b.version a.version

unfoldable pub latest_contract : ℕ → Catalog → Option QualityContract
unfolding order_by
latest_contract dataset c =
    first_where (λ (k : QualityContract). k.dataset_id == dataset)
      (order_by later_version c.contracts)

abbrev pub version_of : Option QualityContract → ℕ
version_of none = 0
version_of (some k) = k.version

abbrev pub contract_clashes : QualityContract → QualityContract → Bool
contract_clashes a b =
    (b.id == a.id) || ((b.dataset_id == a.dataset_id) && (b.version == a.version))

unfoldable pub insert_contract : QualityContract → Action QualityContract
insert_contract k st =
    if count_where (contract_clashes k) st.catalog.contracts == 0
    then (
      ok k,
      record st { catalog = record st.catalog { contracts = st.catalog.contracts ++ k ∷ [] } },
    )
    else (err integrity_error, st)

unfoldable pub create_contract : ℕ → ℕ → QualityContractCreate → Action QualityContract
unfolding lock_owner owned_dataset latest_contract insert_contract
create_contract dataset owner q = do
  locked ← on_database (λ db. (lock_owner db owner, db))
  st ← get_storage
  d ← or_raise (owned_dataset dataset owner st.catalog) dataset_not_found
  current ←
      require (version_of (latest_contract dataset st.catalog) == q.expected_contract_version)
        contract_changed
  insert_contract (record {
    id = q.id;
    dataset_id = dataset;
    owner_id = owner;
    version = version_of (latest_contract dataset st.catalog) + 1;
    name = q.strip q.name;
    rules_json = q.rules;
  })

pub record QualityEvaluationCreate : Type 0 where
  pub dataset_id : ℕ
  pub owner_id : ℕ
  pub contract_id : ℕ
  pub expected_version : ℕ
  pub idempotency_key : String

-- The settings, the ids of the new rows, and the row's id as a JSON number.
pub record Evaluating : Type 0 where
  pub settings : Settings
  pub paths : Paths
  pub task_id : String
  pub context : Option String
  pub now : ℕ
  pub id : ℕ
  pub event_id : ℕ
  pub argument : Json

abbrev pub is_keyed : QualityEvaluationCreate → QualityEvaluation → Bool
is_keyed q e =
    (e.dataset_id == q.dataset_id)
    && ((e.owner_id == q.owner_id) && str_eq e.idempotency_key q.idempotency_key)

abbrev pub is_same_evaluation : QualityEvaluationCreate → QualityEvaluation → Bool
is_same_evaluation q e =
    (e.contract_id == q.contract_id) && (e.dataset_version == q.expected_version)

abbrev pub is_contract : QualityEvaluationCreate → QualityContract → Bool
is_contract q k =
    (k.id == q.contract_id) && ((k.dataset_id == q.dataset_id) && (k.owner_id == q.owner_id))

abbrev pub is_readable : Option DatasetSnapshot → Bool
is_readable none = true
is_readable (some m) = is_available m

abbrev pub sha256_of : Option DatasetSnapshot → Option String
sha256_of none = none
sha256_of (some m) = some m.sha256

abbrev pub new_evaluation :
    Evaluating
    → QualityEvaluationCreate
    → Dataset
    → QualityContract
    → Option DatasetSnapshot
    → QualityEvaluation
new_evaluation w q d k m = record {
  id = w.id;
  dataset_id = q.dataset_id;
  owner_id = q.owner_id;
  contract_id = k.id;
  contract_version = k.version;
  dataset_version = d.version;
  snapshot_path = d.stored_path;
  snapshot_sha256 = sha256_of m;
  task_id = w.task_id;
  idempotency_key = q.idempotency_key;
  status = EvaluationStatus.pending;
  passed = none;
  result_json = none;
  error_message = none;
  created_at = w.now;
  completed_at = none;
}

abbrev pub evaluation_clashes : QualityEvaluation → QualityEvaluation → Bool
evaluation_clashes a b =
    (b.id == a.id)
    || (str_eq b.task_id a.task_id
        || ((b.dataset_id == a.dataset_id)
            && ((b.owner_id == a.owner_id) && str_eq b.idempotency_key a.idempotency_key)))

unfoldable pub insert_evaluation :
    QualityEvaluation → Database → Result QualityEvaluation × Database
insert_evaluation e db =
    if count_where (evaluation_clashes e) db.evaluations == 0
    then (ok e, record db { evaluations = db.evaluations ++ e ∷ [] })
    else (err integrity_error, db)

abbrev pub quality_job :
    Evaluating → QualityEvaluationCreate → Database → Result JobRecord × Database
quality_job w q =
    create w.settings
      (record {
        task_id = w.task_id;
        owner_id = q.owner_id;
        dataset_id = some q.dataset_id;
        kind = JobKind.quality_evaluation;
        report_id = none;
        transformation_id = none;
      })
      w.context w.now

abbrev pub quality_event : Evaluating → Database → Result (Unit {0}) × Database
quality_event w db =
    without_event
      (enqueue w.event_id w.task_id JobKind.quality_evaluation (w.argument ∷ []) w.context w.now db)

abbrev pub evaluate_new :
    Evaluating → QualityEvaluationCreate → Dataset → Action (QualityEvaluation × Bool)
evaluate_new w q d = do
  st ← get_storage
  k ← or_raise (first_where (is_contract q) st.catalog.contracts) contract_not_found
  ready ← ensure_ready d
  current ← require (d.version == q.expected_version) version_changed
  readable ←
      require (is_readable (manifest w.paths st.catalog.snapshots q.dataset_id d.stored_path))
        snapshot_fault
  job ← on_database (quality_job w q)
  e ← on_database (
      insert_evaluation
        (new_evaluation w q d k (manifest w.paths st.catalog.snapshots q.dataset_id d.stored_path)))
  published ← on_database (quality_event w)
  pure (e, true)

abbrev pub evaluate_or_reuse :
    Evaluating
    → QualityEvaluationCreate
    → Dataset
    → Option QualityEvaluation
    → Action (QualityEvaluation × Bool)
evaluate_or_reuse w q d none = evaluate_new w q d
evaluate_or_reuse w q d (some e) =
    lift (if is_same_evaluation q e then ok (e, false) else err (refusal key_reused))

unfoldable pub admit_evaluation :
    Evaluating → QualityEvaluationCreate → Action (QualityEvaluation × Bool)
unfolding lock_owner owned_dataset manifest create enqueue insert_evaluation
admit_evaluation w q = do
  locked ← on_database (λ db. (lock_owner db q.owner_id, db))
  st ← get_storage
  d ← or_raise (owned_dataset q.dataset_id q.owner_id st.catalog) dataset_not_found
  evaluate_or_reuse w q d (first_where (is_keyed q) st.database.evaluations)
