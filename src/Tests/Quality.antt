-- ===== src/Tests/Quality.antt =====
-- The theorem on quality evaluations at a dataset with one contract.
use data_analytics_platform.Base.{◌≡◌, refl, false, true, none, first_where, count_where}
use data_analytics_platform.Schema.{ok}
use data_analytics_platform.Schema.Json.{nil, text}
use data_analytics_platform.Schema.Evaluations.{QualityEvaluation, EvaluationStatus}
use data_analytics_platform.Artifacts.Table.{Storage}
use data_analytics_platform.Quality.{
  QualityContractCreate, QualityEvaluationCreate, Evaluating, create_contract, admit_evaluation,
}
use data_analytics_platform.Quality.Replay.{admit_evaluation_again}
use data_analytics_platform.Tests.{settings}
use data_analytics_platform.Tests.Datasets.{storage, paths}

abbrev contract : QualityContractCreate
contract = record {
  id = 5;
  expected_contract_version = 0;
  name = "rules";
  rules = nil;
  strip = λ s. s;
}

abbrev governed : Storage
governed = (create_contract 3 7 contract storage).1

abbrev request : QualityEvaluationCreate
request = record {
  dataset_id = 3;
  owner_id = 7;
  contract_id = 5;
  expected_version = 1;
  idempotency_key = "q-1";
}

abbrev evaluating : Evaluating
evaluating = record {
  settings = settings;
  paths = paths;
  task_id = "quality-1";
  context = none;
  now = 30;
  id = 9;
  event_id = 4;
  argument = text "9";
}

abbrev again : Evaluating
again = record evaluating { task_id = "quality-2"; now = 40; id = 10; event_id = 5 }

abbrev evaluation : QualityEvaluation
evaluation = record {
  id = 9;
  dataset_id = 3;
  owner_id = 7;
  contract_id = 5;
  contract_version = 1;
  dataset_version = 1;
  snapshot_path = "/data/a";
  snapshot_sha256 = none;
  task_id = "quality-1";
  idempotency_key = "q-1";
  status = EvaluationStatus.pending;
  passed = none;
  result_json = none;
  error_message = none;
  created_at = 30;
  completed_at = none;
}

first_call :
    admit_evaluation evaluating request governed
    ≡ (ok (evaluation, true), (admit_evaluation evaluating request governed).1)
unfolding admit_evaluation create_contract first_where count_where
first_call = refl

admit_evaluation_again_example :
    admit_evaluation again request (admit_evaluation evaluating request governed).1
    ≡ (ok (evaluation, false), (admit_evaluation evaluating request governed).1)
admit_evaluation_again_example =
    admit_evaluation_again evaluating request again evaluation true governed
      (admit_evaluation evaluating request governed).1 first_call
