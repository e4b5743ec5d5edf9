-- ===== src/System/Maintenance.antt =====
-- The other code of the backend that writes the job table: `remove_expired_job_history` of
-- backend/app/tasks/retention_tasks.py, which deletes old finished jobs and their publications, and the
-- deletion of a report in backend/app/api/v1/routes/reports.py, which takes the report off its job.
use data_analytics_platform.Base.{
  ℕ, min, max, String, Bool, false, not, ◌&&◌, ◌||◌, ◌==◌, ltb, Option, none, some, List, [], ◌∷◌,
  map, take, filter, order_by, str_eq, update_where,
}
use data_analytics_platform.Schema.{Database, Settings}
use data_analytics_platform.Schema.Jobs.{JobRecord, is_terminal}
use data_analytics_platform.Schema.Outbox.{TaskOutbox}
use data_analytics_platform.System.{Call, step}

abbrev finished_before : Option ℕ → ℕ → Bool
finished_before none cutoff = false
finished_before (some t) cutoff = ltb t cutoff

abbrev pub is_expired : ℕ → JobRecord → Bool
is_expired cutoff r = is_terminal r.status && finished_before r.finished_at cutoff

-- `ORDER BY finished_at, task_id`, where `earlier` is the order of the ids.
abbrev pub finished_first : (String → String → Bool) → JobRecord → JobRecord → Bool
finished_first earlier a b = by_finish a.finished_at b.finished_at
  where
    by_finish : Option ℕ → Option ℕ → Bool
    by_finish (some t) (some u) = ltb t u || ((t == u) && earlier a.task_id b.task_id)
    by_finish _ _ = false

abbrev pub task_of : JobRecord → String
task_of r = r.task_id

abbrev pub has_task : String → List String → Bool
has_task task [] = false
has_task task (t ∷ ts) = str_eq t task || has_task task ts

-- The ids of a batch; `skips` says which rows another session has locked.
unfoldable pub expired_ids :
    (JobRecord → Bool) → (String → String → Bool) → ℕ → ℕ → List JobRecord → List String
unfolding order_by
expired_ids skips earlier batch cutoff rows = map task_of (
    take (min (max batch 1) 10000)
      (order_by (finished_first earlier) (filter (λ r. is_expired cutoff r && not (skips r)) rows)))

abbrev without : List String → Database → Database
without ids db = record db {
  jobs = filter (λ (r : JobRecord). not (has_task r.task_id ids)) db.jobs;
  outbox = filter (λ (e : TaskOutbox). not (has_task e.task_id ids)) db.outbox;
}

unfoldable pub remove_expired_job_history :
    (JobRecord → Bool) → (String → String → Bool) → ℕ → ℕ → Database → Database
unfolding expired_ids
remove_expired_job_history skips earlier batch cutoff db =
    without (expired_ids skips earlier batch cutoff db.jobs) db

abbrev pub is_of_report : ℕ → JobRecord → Bool
is_of_report n r = same r.report_id
  where
    same : Option ℕ → Bool
    same none = false
    same (some k) = k == n

abbrev pub unreported : JobRecord → JobRecord
unreported r = record r { report_id = none }

unfoldable pub delete_report : ℕ → Database → Database
unfolding update_where
delete_report n db = record db { jobs = update_where (is_of_report n) unreported db.jobs }

-- A call of a service, a run of the retention, or the deletion of a report.
pub data Event : Type 0 where
  call : Call → Event
  remove_expired : (JobRecord → Bool) → (String → String → Bool) → ℕ → ℕ → Event
  report_deleted : ℕ → Event

unfoldable pub proceed : Settings → Event → Database → Database
unfolding step remove_expired_job_history delete_report
proceed s (call c) db = step s c db
proceed s (remove_expired skips earlier batch cutoff) db =
    remove_expired_job_history skips earlier batch cutoff db
proceed s (report_deleted n) db = delete_report n db

unfoldable pub pass : Settings → List Event → Database → Database
unfolding proceed
pass s [] db = db
pass s (e ∷ es) db = pass s es (proceed s e db)
