-- ===== src/Tests/Datasets.antt =====
-- The theorems on datasets at one history: a column is dropped, and the change is undone.
use data_analytics_platform.Base.{
  ℕ, ◌≡◌, refl, List, [], ◌∷◌, String, true, false, first_where, count_where, text_length,
  update_where, none, some, arith,
}
use data_analytics_platform.Schema.{ok, err, ServiceError}
use data_analytics_platform.Schema.Json.{end, field, text, array, cons, nil}
use data_analytics_platform.Schema.Catalog.{Dataset, Transformation, Receipt, of_undo}
use data_analytics_platform.Artifacts.Table.{Storage}
use data_analytics_platform.Artifacts.Writer.{Paths}
use data_analytics_platform.Operations.Parameters.{drop_columns_parameters}
use data_analytics_platform.Operations.Plan.{validate_operation_capability}
use data_analytics_platform.Jobs.Admission.{create}
use data_analytics_platform.Jobs.Clock.{lease_clock, lease_deadline}
use data_analytics_platform.Outbox.Intent.{enqueue}
use data_analytics_platform.Snapshots.Manifests.{FileStat, Reading, same_file}
use data_analytics_platform.Datasets.Session.{owned_dataset, find_dataset}
use data_analytics_platform.Datasets.Quota.{SpaceSettings, Disk}
use data_analytics_platform.Datasets.Prepare.{Preparing, TransformationRequest, Admission}
use data_analytics_platform.Datasets.Execute.{
  Attempt, Beginning, Finishing, complete_transformation,
}
use data_analytics_platform.Datasets.Audit.{MaterializedArtifact, undo_receipt}
use data_analytics_platform.Datasets.Undo.{
  UndoRequest, Observation, Undoing, valid_key, undo_observed, undo_last,
}
use data_analytics_platform.Datasets.Ledger.{Extends}
use data_analytics_platform.Datasets.History.{
  Call, admitting, starting, beginning, completing, undoing, elsewhere, run, idle,
}
use data_analytics_platform.Datasets.Traced.{run-Extends}
use data_analytics_platform.Datasets.Replayed.{undo_last-run}
use data_analytics_platform.Datasets.Stale.{complete_transformation-run}
use data_analytics_platform.Tests.{settings, at}
use data_analytics_platform.Tests.Operations.{operations}

abbrev pub paths : Paths
paths = record {
  abspath = λ s. s;
  parent = λ s. "/data";
  name = λ s. s;
  spill_directory = λ s. s;
  spellings = λ s. s ∷ [];
}

abbrev dataset : Dataset
dataset = record {
  id = 3;
  project_id = 1;
  stored_path = "/data/a";
  status = "ready";
  row_count = some 5;
  column_count = some 2;
  profile_json = none;
  version = 1;
  deleted_at = none;
}

abbrev pub storage : Storage
storage = record {
  database = record { users = 7 ∷ []; jobs = []; outbox = []; evaluations = [] };
  catalog = record {
    projects = record { id = 1; owner_id = 7 } ∷ [];
    datasets = dataset ∷ [];
    snapshots = [];
    transformations = [];
    reports = [];
    events = [];
    contracts = [];
  };
  artifacts = [];
}

abbrev preparing : Preparing (List String)
preparing = record {
  is_blank = λ s. false;
  same_parameters = λ p q. true;
  transformation_engine = "pandas";
  registry = operations;
  max_columns = 256;
  lower = λ s. s;
  suffix = λ s. ".csv";
  schema = λ s. record { names = []; is_zoned_nanoseconds = λ c. false };
  version_path = λ s. "/data/b";
  id = 11;
  now = 20;
}

abbrev request : TransformationRequest
request = record {
  dataset_id = 3;
  user_id = 7;
  operation = "drop_columns";
  parameters = field "columns" (array (cons (text "a") nil)) end;
  expected_version = 1;
  idempotency_key = "key-1";
  engine_name = none;
}

abbrev admission : Admission
admission = record {
  task_id = "job-1";
  context = none;
  now = 20;
  event_id = 1;
  argument = λ n. text "11";
}

abbrev space : SpaceSettings
space = record {
  user_storage_quota_mb = 10;
  max_dataset_expanded_size_mb = 2;
  min_free_disk_space_mb = 1;
}

abbrev disk : Disk
disk = record { free = 1000000000; size_of = λ s. some 100 }

abbrev starts : Beginning
starts = record {
  paths = paths;
  attempt_token = "worker-a";
  clock = at 40;
  now = 40;
  lease_seconds = 60;
  reservation_id = "a1";
  final_path = "/data/b";
  temporary_path = "/data/w";
  space = space;
  disk = disk;
}

abbrev finishing : Finishing
finishing = record {
  space = space;
  disk = disk;
  paths = paths;
  active_clock = at 50;
  progress_clock = at 50;
  success_clock = at 50;
  now = 50;
  rename_raises = false;
  snapshot_id = "s1";
  event_id = "e1";
  context = none;
  fingerprint = λ t. "f1";
  settings = settings;
  serialized_size = λ r. 10;
  result = λ t. end;
}

abbrev artifact : MaterializedArtifact
artifact = record {
  rows = 5;
  columns = 1;
  before_rows = 5;
  before_columns = 2;
  size_bytes = 80;
  sha256 = "ab";
  semantics = "exact";
}

abbrev stat : FileStat
stat = record { is_regular = true; size = 100; device = 1; inode = 2; modified_ns = 3 }

abbrev observation : Observation
observation = record {
  candidate_id = 11;
  restored_path = "/data/a";
  verified_file = record {
    size_bytes = 100;
    sha256 = "cd";
    device = 1;
    inode = 2;
    modified_ns = 3;
  };
  manifest_id = none;
}

abbrev undoing_at : ℕ → String → Undoing
undoing_at now event = record {
  is_blank = λ s. false;
  fingerprint = λ d v. "u1";
  paths = paths;
  now = now;
  event_id = event;
  context = none;
}

abbrev undo_request : UndoRequest
undo_request = record {
  dataset_id = 3;
  user_id = 7;
  expected_version = 2;
  idempotency_key = some "undo-1";
}

abbrev calls : List (Call (List String))
calls =
    admitting settings preparing admission request
    ∷ starting "job-1" "worker-a" 360 (at 30) 11
    ∷ beginning starts 11
    ∷ completing 0 finishing artifact
    ∷ undoing (undoing_at 60 "e2") undo_request observation (some stat)
    ∷ []

-- The head moves to version 2 and the undo to version 3, on the first path again.
run_head :
    find_dataset 3 (run calls (idle storage)).storage.catalog
    ≡ some (record dataset { version = 3; row_count = some 5 })
unfolding run first_where count_where validate_operation_capability drop_columns_parameters create
    enqueue update_where lease_clock lease_deadline same_file
run_head = refl

run-Extends_example : Extends storage.catalog (run calls (idle storage)).storage.catalog
run-Extends_example = run-Extends calls storage

-- The same change, admitted elsewhere, as it stands before the undo.
abbrev change : Transformation
change = record {
  id = 11;
  dataset_id = 3;
  operation = "drop_columns";
  operation_version = "1.0.0";
  engine_name = "pandas";
  parameters = request.parameters;
  user_id = 7;
  status = "completed";
  task_id = some "job-1";
  idempotency_key = "key-1";
  expected_version = 1;
  input_path = "/data/a";
  output_path = "/data/b";
  before_rows = 5;
  after_rows = 5;
  before_columns = 2;
  after_columns = 1;
  error_message = none;
  undone_at = none;
  created_at = 20;
}

abbrev changed_dataset : Dataset
changed_dataset = record dataset { stored_path = "/data/b"; version = 2 }

abbrev changed : Storage
changed = record storage {
  catalog = record storage.catalog {
    datasets = changed_dataset ∷ [];
    transformations = change ∷ [];
  };
}

abbrev receipt : Receipt
receipt =
    of_undo
      (undo_receipt "e2" none 2 none (record change { status = "undone"; undone_at = some 60 }))

abbrev undone_storage : Storage
undone_storage = (undo_observed (undoing_at 60 "e2") undo_request observation (some stat) changed).1

committed :
    undo_observed (undoing_at 60 "e2") undo_request observation (some stat) changed
    ≡ (ok receipt, undone_storage)
unfolding undo_observed count_where first_where same_file
committed = refl

-- Then the other tables change, and the change is asked for again, which its row answers.
abbrev later_calls : List (Call (List String))
later_calls =
    elsewhere (record { users = 7 ∷ 8 ∷ []; jobs = []; outbox = []; evaluations = [] }) []
    ∷ admitting settings preparing admission request
    ∷ []

still_owned :
    owned_dataset 3 7 (run later_calls (idle undone_storage)).storage.catalog
    ≡ some (record dataset { version = 3 })
unfolding run undo_observed owned_dataset first_where count_where same_file update_where text_length
still_owned = refl

key_valid : valid_key (undoing_at 90 "e3") (some "undo-1") ≡ true
unfolding text_length
key_valid = refl

abbrev no_reading : Reading
no_reading = record { before = none; opened = none; sha256 = none; after = none }

undo_last-run_example :
    undo_last
      (undoing_at 90 "e3")
      undo_request
      (λ s. no_reading)
      (λ o. none)
      (run later_calls (idle undone_storage)).storage
    ≡ (ok receipt, (run later_calls (idle undone_storage)).storage)
undo_last-run_example =
    undo_last-run (undoing_at 60 "e2") (undoing_at 90 "e3") undo_request observation (some stat)
      "undo-1" changed undone_storage receipt later_calls (λ s. no_reading) (λ o. none)
      (record dataset { version = 3 }) refl committed refl key_valid still_owned

abbrev late_attempt : Attempt
late_attempt = record {
  transformation_id = 12;
  owner_id = 7;
  dataset_id = 3;
  expected_version = 1;
  input_path = "/data/a";
  task_id = "job-2";
  attempt_token = "worker-b";
  reservation_id = "a2";
  final_path = "/data/c";
  temporary_path = "/data/x";
}

changed_found : find_dataset 3 changed.catalog ≡ some changed_dataset
unfolding first_where
changed_found = refl

complete_transformation-run_example :
    (e : ServiceError) × (complete_transformation finishing late_attempt artifact
        (run calls (idle changed)).storage
      ≡ (err e, (run calls (idle changed)).storage))
complete_transformation-run_example =
    complete_transformation-run finishing late_attempt artifact calls changed changed_dataset
      changed_found (omega arith)
