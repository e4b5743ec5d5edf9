-- ===== src/Datasets/Recovery.antt =====
-- How a run ends without a new head: the branches of `transform_dataset_task` and the helpers of
-- backend/app/tasks/dataset_tasks.py. Each is one transaction; `false` means that the job was not the
-- caller's to move, and nothing is written.
use data_analytics_platform.Base.{
  ℕ, [], String, Bool, true, false, ◌&&◌, Option, none, some, ◌==◌, str_eq, opt_eq, if◌then◌else◌,
  text_take,
}
use data_analytics_platform.Schema.{Database, Result, ok, err, state_conflict, not_found, not_owner}
use data_analytics_platform.Schema.Jobs.{
  JobRecord, JobKind, is_success, cancellation_requested, JobStatus,
}
use data_analytics_platform.Schema.Catalog.{Dataset, Transformation}
use data_analytics_platform.Artifacts.Writer.{Paths, schedule_delete, abandon_attempt}
use data_analytics_platform.Jobs.Clock.{Clock}
use data_analytics_platform.Jobs.Worker.{get, start}
use data_analytics_platform.Jobs.Ending
use data_analytics_platform.Datasets.Session.{
  Action, pure, on_database, transaction, ◌>>=◌, ◌>>◌, get_storage, modify, find_transformation,
  is_dataset, is_transformation, set_datasets, set_transformations,
}
use data_analytics_platform.Datasets.Execute.{is_settled}

abbrev pub is_transformation_job : JobKind → Bool
is_transformation_job JobKind.transformation = true
is_transformation_job _ = false

abbrev pub opt_id_eq : Option ℕ → ℕ → Bool
opt_id_eq none n = false
opt_id_eq (some m) n = m == n

-- The row names the job and the job names the row.
abbrev pub is_target : String → Transformation → JobRecord → Bool
is_target task t job =
    opt_id_eq job.transformation_id t.id
    && (opt_id_eq job.dataset_id t.dataset_id
        && ((job.owner_id == t.user_id) && opt_eq t.task_id (some task)))

abbrev pub accepts_target : String → Option Transformation → JobRecord → Bool
accepts_target task none job = is_transformation_job job.kind
accepts_target task (some t) job = is_transformation_job job.kind && is_target task t job

abbrev pub target_checked : String → Option Transformation → Option JobRecord → Result (Unit {0})
target_checked task t none = err (state_conflict not_found)
target_checked task t (some job) =
    if accepts_target task t job then ok tt else err (state_conflict not_owner)

-- `_validate_job_target` of a transformation
unfoldable pub validate_job_target : String → ℕ → Action (Unit {0})
unfolding get
validate_job_target task id st =
    (target_checked task (find_transformation id st.catalog) (get st.database task), st)

-- The first transaction of `transform_dataset_task`.
unfoldable pub start_transformation : String → String → ℕ → Clock → ℕ → Action (JobRecord × Bool)
unfolding validate_job_target start
start_transformation task token seconds c id =
    transaction
      do target ← validate_job_target task id; on_database (start task token 20 "reading" seconds c)

unfoldable pub with_status : String → Dataset → Dataset
with_status s d = record d { status = s }

unfoldable pub with_outcome : String → Option String → Transformation → Transformation
with_outcome s message t = record t { status = s; error_message = message }

abbrev pub set_outcome : ℕ → String → Option String → Action (Unit {0})
set_outcome id s message =
    modify (set_transformations (is_transformation id) (with_outcome s message))

-- The dataset of a transformation goes to a status while it still is the version asked for.
abbrev pub awaits : Transformation → Dataset → Bool
awaits t d = is_dataset t.dataset_id d && (d.version == t.expected_version)

abbrev pub still_awaits : Transformation → Dataset → Bool
still_awaits t d = awaits t d && str_eq d.stored_path t.input_path

abbrev pub release : (Dataset → Bool) → String → Action (Unit {0})
release p s = modify (set_datasets p (with_status s))

-- The names that a deletion needs.
pub record Deleting : Type 0 where
  pub paths : Paths
  pub id : String
  pub now : ℕ

abbrev pub delete_path : Deleting → String → Action (Unit {0})
delete_path w path st = (ok tt, schedule_delete w.paths w.id path none w.now [] st)

abbrev pub abandon : String → String → ℕ → Action (Unit {0})
abandon task token now st = (ok tt, (abandon_attempt task token now st).1)

abbrev pub as_result : Bool × Database → Result Bool × Database
as_result (b, db) = (ok b, db)

abbrev pub if_moved : Bool → Action (Unit {0}) → Action Bool
if_moved true m = m >> pure true
if_moved false m = pure false

-- After `JobCancellationRequested`: the job is cancelled, and with it the transformation.
abbrev pub cancel_found : Deleting → Option Transformation → Action (Unit {0})
cancel_found w none = pure tt
cancel_found w (some t) = do
  closed ← set_outcome t.id "cancelled" none
  freed ← release (awaits t) "ready"
  delete_path w t.output_path

abbrev pub cancel_row : Deleting → ℕ → Action (Unit {0})
cancel_row w id st = cancel_found w (find_transformation id st.catalog) st

unfoldable pub cancel_run : Deleting → String → String → Clock → ℕ → Action Bool
unfolding with_status with_outcome schedule_delete
cancel_run w task token c id = transaction do
  moved ← on_database (λ db. as_result (Ending.cancel task none (some token) true none c db))
  if_moved moved (cancel_row w id)

-- The token of the job of a failed transformation, whose artifacts are given up.
abbrev pub abandon_job : Option JobRecord → ℕ → Action (Unit {0})
abandon_job none now = pure tt
abandon_job (some job) now = abandon_token job.task_id job.attempt_token
  where
    abandon_token : String → Option String → Action (Unit {0})
    abandon_token task none = pure tt
    abandon_token task (some token) = abandon task token now

abbrev pub job_of_row : Database → Option String → Option JobRecord
job_of_row db none = none
job_of_row db (some task) = get db task

abbrev pub fail_found : ℕ → String → Option Transformation → Action (Unit {0})
fail_found now message none = pure tt
fail_found now message (some t) = if is_settled t.status then pure tt else do
  st ← get_storage
  abandoned ← abandon_job (job_of_row st.database t.task_id) now
  closed ← set_outcome t.id "failed" (some (text_take 2000 message))
  release (still_awaits t) "ready"

-- `_fail_transformation`
unfoldable pub fail_transformation : ℕ → String → ℕ → Action (Unit {0})
unfolding with_status with_outcome abandon_attempt get
fail_transformation now message id st =
    fail_found now message (find_transformation id st.catalog) st

-- After any other exception before the head has moved.
unfoldable pub fail_run : String → String → String → Clock → ℕ → ℕ → Action Bool
unfolding fail_transformation
fail_run task token message c now id = transaction do
  moved ← on_database (λ db. as_result (Ending.fail task message (some token) false none c db))
  if_moved moved (fail_transformation now message id)

abbrev pub retry_found : String → Option Transformation → Action (Unit {0})
retry_found message none = pure tt
retry_found message (some t) = do
  waiting ← set_outcome t.id "pending" (some (text_take 2000 message))
  release (awaits t) "transforming"

abbrev pub retry_row : String → ℕ → Action (Unit {0})
retry_row message id st = retry_found message (find_transformation id st.catalog) st

-- After `OSError` with attempts left: the job waits again, and so does its transformation.
unfoldable pub retry_run : String → String → String → Clock → ℕ → Action Bool
unfolding with_status with_outcome
retry_run task token message c id = transaction do
  moved ← on_database (Ending.retry task message token c)
  if_moved moved (retry_row message id)

-- The answers of `_recover_transformation_finalization`, "unknown" apart.
pub data Recovered : Type 0 where
  completed cancelled failed superseded : Recovered

abbrev pub has_completed : String → Option JobRecord → Option Transformation → Bool
has_completed task (some job) (some t) =
    is_success job.status && (is_settled t.status && is_target task t job)
has_completed task _ _ = false

abbrev pub wants_cancellation : Option JobRecord → Bool
wants_cancellation none = false
wants_cancellation (some job) = is_requested job.status
  where
    is_requested : JobStatus → Bool
    is_requested cancellation_requested = true
    is_requested _ = false

abbrev pub end_job : Bool → String → String → String → Clock → Database → Bool × Database
end_job true task token message c db = Ending.cancel task none (some token) true none c db
end_job false task token message c db = Ending.fail task message (some token) false none c db

abbrev pub close_found : Deleting → Bool → String → Option Transformation → Action (Unit {0})
close_found w cancelling message none = pure tt
close_found w cancelling message (some t) = do
  closed ←
      set_outcome t.id (if cancelling then "cancelled" else "failed")
        (if cancelling then none else some (text_take 2000 message))
  freed ← release (still_awaits t) "ready"
  delete_path w t.output_path

abbrev pub recovered : Bool → Bool → Recovered
recovered cancelling true = if cancelling then cancelled else failed
recovered cancelling false = superseded

abbrev pub close_and_abandon :
    Deleting → Bool → String → String → String → Option Transformation → Action (Unit {0})
close_and_abandon w cancelling task token message t = do
  closed ← close_found w cancelling message t
  abandon task token w.now

abbrev pub recover_checked :
    Deleting
    → String
    → String
    → String
    → Clock
    → Option JobRecord
    → Option Transformation
    → Action Recovered
recover_checked w task token message c job t =
    if has_completed task job t then pure completed else do
      moved ←
          on_database (λ db. as_result (end_job (wants_cancellation job) task token message c db))
      written ← if_moved moved (close_and_abandon w (wants_cancellation job) task token message t)
      pure (recovered (wants_cancellation job) moved)

-- `_recover_transformation_finalization`
unfoldable pub recover_finalization :
    Deleting → String → String → String → Clock → ℕ → Action Recovered
unfolding validate_job_target with_status with_outcome schedule_delete abandon_attempt get
recover_finalization w task token message c id = transaction do
  target ← validate_job_target task id
  st ← get_storage
  recover_checked w task token message c (get st.database task) (find_transformation id st.catalog)
