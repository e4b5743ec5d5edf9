-- ===== src/Jobs/Admission.antt =====
-- Admission of background jobs: `active_count`, `ensure_capacity`, `create`, and the size limit of
-- results. `serialized_size` is the length of `json.dumps(result)`.
use data_analytics_platform.Base.{
  ℕ, ◌*◌, ◌++◌, ◌∷◌, [], String, Bool, true, not, ◌&&◌, Option, none, some, leb, ltb, ◌==◌, str_eq,
  if◌then◌else◌, count_where,
}
use data_analytics_platform.Schema.{
  Database, Settings, Result, ok, err, capacity_exceeded, result_size_exceeded, no_result,
  integrity_error,
}
use data_analytics_platform.Schema.Json.{Fields}
use data_analytics_platform.Schema.Jobs.{
  JobRecord, JobKind, transformation, transformation_preview, is_capacity, pending,
}

-- The filter of `active_count`.
abbrev pub counts_for : ℕ → Option String → JobRecord → Bool
counts_for owner none r = (r.owner_id == owner) && is_capacity r.status
counts_for owner (some task) r =
    (r.owner_id == owner) && (is_capacity r.status && not (str_eq r.task_id task))

unfoldable pub active_count : Database → ℕ → Option String → ℕ
active_count db owner exclude = count_where (counts_for owner exclude) db.jobs

-- `.one()` raises where the user is not there.
unfoldable pub lock_owner : Database → ℕ → Result (Unit {0})
lock_owner db owner = if count_where (λ u. u == owner) db.users == 1 then ok tt else err no_result

unfoldable pub check_capacity : Settings → Database → ℕ → Option String → Result (Unit {0})
unfolding active_count
check_capacity s db owner exclude =
    if leb s.max_active_jobs_per_user (active_count db owner exclude)
    then err capacity_exceeded
    else ok tt

abbrev pub after_lock : Result (Unit {0}) → Result (Unit {0}) → Result (Unit {0})
after_lock (ok u) r = r
after_lock (err e) r = err e

unfoldable pub ensure_capacity : Settings → Database → ℕ → Bool → Option String → Result (Unit {0})
unfolding lock_owner check_capacity
ensure_capacity s db owner lock exclude =
    if lock
    then after_lock (lock_owner db owner) (check_capacity s db owner exclude)
    else check_capacity s db owner exclude

abbrev pub attempts_for : JobKind → ℕ
attempts_for transformation = 3
attempts_for transformation_preview = 3
attempts_for _ = 4

-- What a caller of `create` gives.
pub record NewJob : Type 0 where
  pub task_id : String
  pub owner_id : ℕ
  pub dataset_id : Option ℕ
  pub kind : JobKind
  pub report_id : Option ℕ
  pub transformation_id : Option ℕ

abbrev pub or_text : Option String → String → String
or_text none d = d
or_text (some s) d = if str_eq s "" then d else s

-- The row that `create` adds; `context` is the request's correlation id and `now` the column default.
unfoldable pub new_record : NewJob → Option String → ℕ → JobRecord
new_record j context now = record {
  task_id = j.task_id;
  owner_id = j.owner_id;
  dataset_id = j.dataset_id;
  report_id = j.report_id;
  transformation_id = j.transformation_id;
  kind = j.kind;
  correlation_id = some (or_text context j.task_id);
  status = pending;
  progress = 0;
  stage = some "dispatch_pending";
  result_json = none;
  error_message = none;
  attempt_token = none;
  attempt_count = 0;
  max_attempts = attempts_for j.kind;
  lease_expires_at = none;
  cancellation_requested_at = none;
  started_at = none;
  finished_at = none;
  created_at = now;
  updated_at = now;
}

abbrev pub is_task : String → JobRecord → Bool
is_task task r = str_eq r.task_id task

-- `db.add(job)`, where the primary key refuses a second row of the task.
abbrev pub add_job : Database → JobRecord → Result (Unit {0}) → Result JobRecord × Database
add_job db job (ok _) =
    if count_where (is_task job.task_id) db.jobs == 0
    then (ok job, record db { jobs = db.jobs ++ job ∷ [] })
    else (err integrity_error, db)
add_job db job (err e) = (err e, db)

unfoldable pub create :
    Settings → NewJob → Option String → ℕ → Database → Result JobRecord × Database
unfolding ensure_capacity new_record
create s j context now db =
    add_job db (new_record j context now) (ensure_capacity s db j.owner_id true none)

unfoldable pub ensure_result_size : Settings → (Fields → ℕ) → Fields → Result (Unit {0})
ensure_result_size s serialized_size result =
    if ltb (s.max_job_result_size_mb * 1024 * 1024) (serialized_size result)
    then err result_size_exceeded
    else ok tt
