-- ===== src/Datasets/Closed.antt =====
-- What the ends of a run keep: Recovery's transactions leave heads and receipts as they are.
use data_analytics_platform.Base.{
  ℕ, refl, [], String, Bool, true, false, Option, none, some, inl, inr, Bool-cases, Option-cases,
  if◌then◌else◌, text_take,
}
use data_analytics_platform.Schema.{Database, Result}
use data_analytics_platform.Schema.Jobs.{JobRecord}
use data_analytics_platform.Schema.Catalog.{Dataset, Transformation}
use data_analytics_platform.Artifacts.Table.{Storage}
use data_analytics_platform.Artifacts.Writer.{abandon_attempt}
use data_analytics_platform.Snapshots.Rows.{schedule_delete-catalog}
use data_analytics_platform.Jobs.Clock.{Clock}
use data_analytics_platform.Jobs.Worker.{get, start}
use data_analytics_platform.Jobs.Ending
use data_analytics_platform.Datasets.Session.{
  Action, pure, on_database, ◌>>=◌, get_storage, find_transformation, is_transformation,
}
use data_analytics_platform.Datasets.Execute.{is_settled}
use data_analytics_platform.Datasets.Recovery.{
  validate_job_target, start_transformation, with_status, with_outcome, set_outcome, awaits,
  still_awaits, release, Deleting, delete_path, abandon, as_result, if_moved, cancel_found,
  cancel_row, cancel_run, abandon_job, job_of_row, fail_found, fail_transformation, fail_run,
  retry_found, retry_row, retry_run, completed, has_completed, wants_cancellation, end_job,
  close_found, recovered, close_and_abandon, recover_checked, recover_finalization,
}
use data_analytics_platform.Datasets.Ledger.{Extends}
use data_analytics_platform.Datasets.Steps.{
  Keeps, same-Keeps, on_database-Keeps, transaction-Keeps, bind-Keeps, modify_datasets-Keeps,
  modify_transformations-Keeps,
}

pure-Keeps : {A : Type 0} (a : A) → Keeps (pure a)
pure-Keeps a = same-Keeps (pure a) (λ st. refl)

get_storage-Keeps : Keeps get_storage
get_storage-Keeps = same-Keeps get_storage (λ st. refl)

-- A step that works on the row of an id.
row-Keeps :
    {A : Type 0} (f : Option Transformation → Action A) (id : ℕ)
    → ((o : Option Transformation) → Keeps (f o))
    → Keeps (λ st. f (find_transformation id st.catalog) st)
row-Keeps f id k st = k (find_transformation id st.catalog) st

set_outcome-Keeps :
    (id : ℕ) (s : String) (message : Option String) → Keeps (set_outcome id s message)
unfolding with_outcome
set_outcome-Keeps id s message =
    modify_transformations-Keeps (is_transformation id) (with_outcome s message) (λ x. refl)
      (λ x. (refl, refl, refl))

release-Keeps : (p : Dataset → Bool) (s : String) → Keeps (release p s)
unfolding with_status
release-Keeps p s = modify_datasets-Keeps p (with_status s) (λ x. refl) (λ x. refl)

delete_path-Keeps : (w : Deleting) (path : String) → Keeps (delete_path w path)
delete_path-Keeps w path =
    same-Keeps (delete_path w path) (schedule_delete-catalog w.paths w.id path none w.now [])

abandon-Keeps : (task token : String) (now : ℕ) → Keeps (abandon task token now)
unfolding abandon_attempt
abandon-Keeps task token now = same-Keeps (abandon task token now) (λ st. refl)

if_moved-Keeps : (b : Bool) (m : Action (Unit {0})) → Keeps m → Keeps (if_moved b m)
if_moved-Keeps true m k = bind-Keeps m (λ u. pure true) k (λ u. pure-Keeps true)
if_moved-Keeps false m k = pure-Keeps false

-- A transaction that moves the job and then, where it could, the rows.
moved-Keeps :
    (f : Database → Result Bool × Database) (m : Action (Unit {0}))
    → Keeps m
    → Keeps (on_database f >>= λ moved. if_moved moved m)
moved-Keeps f m k =
    bind-Keeps (on_database f) _ (on_database-Keeps f) λ moved. if_moved-Keeps moved m k

validate_job_target-Keeps : (task : String) (id : ℕ) → Keeps (validate_job_target task id)
unfolding validate_job_target
validate_job_target-Keeps task id = same-Keeps (validate_job_target task id) (λ st. refl)

pub start_transformation-Extends :
    (task token : String) (seconds : ℕ) (c : Clock) (id : ℕ) (st : Storage)
    → Extends st.catalog (start_transformation task token seconds c id st).1.catalog
unfolding start_transformation
start_transformation-Extends task token seconds c id =
    transaction-Keeps
      (validate_job_target task id >>= λ target.
        on_database (start task token 20 "reading" seconds c))
      (bind-Keeps (validate_job_target task id) _ (validate_job_target-Keeps task id)
        λ target. on_database-Keeps (start task token 20 "reading" seconds c))

cancel_found-Keeps : (w : Deleting) (o : Option Transformation) → Keeps (cancel_found w o)
cancel_found-Keeps w none = pure-Keeps tt
cancel_found-Keeps w (some t) = bind-Keeps _ _ (set_outcome-Keeps t.id "cancelled" none) λ closed.
    bind-Keeps _ _ (release-Keeps (awaits t) "ready") λ freed. delete_path-Keeps w t.output_path

pub cancel_run-Extends :
    (w : Deleting) (task token : String) (c : Clock) (id : ℕ) (st : Storage)
    → Extends st.catalog (cancel_run w task token c id st).1.catalog
unfolding cancel_run
cancel_run-Extends w task token c id = transaction-Keeps _ (
    moved-Keeps (λ db. as_result (Ending.cancel task none (some token) true none c db))
      (cancel_row w id) (row-Keeps (cancel_found w) id (cancel_found-Keeps w)))

abandon_job-Keeps : (o : Option JobRecord) (now : ℕ) → Keeps (abandon_job o now)
abandon_job-Keeps none now = pure-Keeps tt
abandon_job-Keeps (some job) now = elim (Option-cases job.attempt_token) [
  | inl e ↦ rw e (pure-Keeps tt)
  | inr (token, e) ↦ rw e (abandon-Keeps job.task_id token now)
]

fail_found-Keeps :
    (now : ℕ) (message : String) (o : Option Transformation) → Keeps (fail_found now message o)
fail_found-Keeps now message none = pure-Keeps tt
fail_found-Keeps now message (some t) = elim (Bool-cases (is_settled t.status)) [
  | inl e ↦ rw e (pure-Keeps tt)
  | inr e ↦ rw e (
      bind-Keeps get_storage _ get_storage-Keeps λ st.
        bind-Keeps _ _ (abandon_job-Keeps (job_of_row st.database t.task_id) now) λ abandoned.
          bind-Keeps _ _ (set_outcome-Keeps t.id "failed" (some (text_take 2000 message)))
            λ closed. release-Keeps (still_awaits t) "ready")
]

pub fail_run-Extends :
    (task token message : String) (c : Clock) (now id : ℕ) (st : Storage)
    → Extends st.catalog (fail_run task token message c now id st).1.catalog
unfolding fail_run fail_transformation
fail_run-Extends task token message c now id = transaction-Keeps _ (
    moved-Keeps (λ db. as_result (Ending.fail task message (some token) false none c db))
      (fail_transformation now message id)
      (row-Keeps (fail_found now message) id (fail_found-Keeps now message)))

retry_found-Keeps : (message : String) (o : Option Transformation) → Keeps (retry_found message o)
retry_found-Keeps message none = pure-Keeps tt
retry_found-Keeps message (some t) =
    bind-Keeps _ _ (set_outcome-Keeps t.id "pending" (some (text_take 2000 message)))
      λ waiting. release-Keeps (awaits t) "transforming"

pub retry_run-Extends :
    (task token message : String) (c : Clock) (id : ℕ) (st : Storage)
    → Extends st.catalog (retry_run task token message c id st).1.catalog
unfolding retry_run
retry_run-Extends task token message c id = transaction-Keeps _ (
    moved-Keeps (Ending.retry task message token c) (retry_row message id)
      (row-Keeps (retry_found message) id (retry_found-Keeps message)))

module _ (w : Deleting) (message : String) where
  close_found-Keeps :
      (cancelling : Bool) (o : Option Transformation) → Keeps (close_found w cancelling message o)
  close_found-Keeps cancelling none = pure-Keeps tt
  close_found-Keeps cancelling (some t) =
      bind-Keeps _ _
        (set_outcome-Keeps t.id (if cancelling then "cancelled" else "failed")
          (if cancelling then none else some (text_take 2000 message)))
        λ closed.
          bind-Keeps _ _ (release-Keeps (still_awaits t) "ready")
            λ freed. delete_path-Keeps w t.output_path

  close_and_abandon-Keeps :
      (cancelling : Bool) (task token : String) (o : Option Transformation)
      → Keeps (close_and_abandon w cancelling task token message o)
  close_and_abandon-Keeps cancelling task token o =
      bind-Keeps (close_found w cancelling message o) _ (close_found-Keeps cancelling o)
        λ closed. abandon-Keeps task token w.now

  recover_checked-Keeps :
      (task token : String) (c : Clock) (job : Option JobRecord) (o : Option Transformation)
      → Keeps (recover_checked w task token message c job o)
  recover_checked-Keeps task token c job o = elim (Bool-cases (has_completed task job o)) [
    | inl e ↦ rw e (pure-Keeps completed)
    | inr e ↦ rw e (
        bind-Keeps _ _
          (on_database-Keeps
            (λ db. as_result (end_job (wants_cancellation job) task token message c db)))
          λ moved.
            bind-Keeps _ _
              (if_moved-Keeps moved
                (close_and_abandon w (wants_cancellation job) task token message o)
                (close_and_abandon-Keeps (wants_cancellation job) task token o))
              λ written. pure-Keeps (recovered (wants_cancellation job) moved))
  ]

  pub recover_finalization-Extends :
      (task token : String) (c : Clock) (id : ℕ) (st : Storage)
      → Extends st.catalog (recover_finalization w task token message c id st).1.catalog
  unfolding recover_finalization
  recover_finalization-Extends task token c id = transaction-Keeps _ (
      bind-Keeps (validate_job_target task id) _ (validate_job_target-Keeps task id) λ target.
        bind-Keeps get_storage _ get_storage-Keeps λ st.
          recover_checked-Keeps task token c (get st.database task)
            (find_transformation id st.catalog))
