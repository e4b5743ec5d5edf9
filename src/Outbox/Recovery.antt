-- ===== src/Outbox/Recovery.antt =====
-- What `reconcile` does with one job: it never touches a live attempt, and a lapsed one either goes
-- back to the queue with its publication armed, or ends with its publication cancelled.
use data_analytics_platform.Base.{
  ℕ, ◌+◌, ◌≡◌, ◌⊎◌, inl, inr, refl, String, Bool, true, false, not, ◌&&◌, ◌||◌, some, arith, ◌∙◌,
  ap, Bool-cases, is_none, if◌then◌else◌, str_eq, count_where, first_where-update_key,
  count_where-update,
}
use data_analytics_platform.Schema.{Database, ok}
use data_analytics_platform.Schema.Jobs.{JobRecord, is_started, is_pending, is_failure}
use data_analytics_platform.Schema.Outbox.{TaskOutbox, is_cancelled}
use data_analytics_platform.Schema.Outbox
use data_analytics_platform.Jobs.Admission.{is_task}
use data_analytics_platform.Jobs.Worker.{get}
use data_analytics_platform.Jobs.Outcomes.{
  IsUnique, IsClosed, find_event-rearm, get-rearm, complete_evaluation-error,
}
use data_analytics_platform.Outbox.Intent.{find_event, for_task, rearmed, withdrawn}
use data_analytics_platform.Outbox.Reconcile.{
  requeued, failed, verdict, exhausted, lapsed, abandoned, recovered, save_job, abandon, requeue,
  reconcile_job,
}

-- No publication of the task is left to dispatch.
abbrev pub IsWithdrawn : String → Database → Type 0
IsWithdrawn task db =
    count_where (λ (e : TaskOutbox). for_task task e && not (is_cancelled e.status)) db.outbox ≡ 0

get-save_job :
    (task : String) (change : JobRecord → JobRecord) (db : Database) (r : JobRecord)
    → ((s : JobRecord) → (change s).task_id ≡ s.task_id)
    → get db task ≡ some r
    → get (save_job task change db) task ≡ some (change r)
unfolding get
get-save_job task change db r same h =
    first_where-update_key (is_task task) change db.jobs r
      (λ s m. ap (λ t. str_eq t task) (same s) ∙ m) h

abandon_lem :
    (task : String) (spent : Bool) (now later : ℕ) (db : Database) (r : JobRecord)
    → get db task ≡ some r
    → (get (abandon task spent now later db) task ≡ some (abandoned spent now r))
      × IsClosed task (abandon task spent now later db)
      × IsWithdrawn task (abandon task spent now later db)
unfolding abandon get
abandon_lem task spent now later db r h = (
  get-save_job task (abandoned spent now) db r (λ s. refl) h,
  complete_evaluation-error task now (save_job task (abandoned spent now) db),
  count_where-update (λ (e : TaskOutbox). for_task task e && not (is_cancelled e.status))
      (withdrawn later) (unfold withdrawn in λ e. ground arith) db.outbox,
)

requeue_lem :
    (task : String) (now : ℕ) (db : Database) (r : JobRecord) (e : TaskOutbox)
    → IsUnique task db
    → get db task ≡ some r
    → find_event db task ≡ some e
    → ((requeue task now db).0 ≡ ok tt)
      × (get (requeue task now db).1 task ≡ some (recovered now r))
      × (find_event (requeue task now db).1 task ≡ some (rearmed now e))
unfolding requeue find_event
requeue_lem task now db r e u h f =
    let db1 = save_job task (recovered now) db in
    let armed = find_event-rearm task now db1 e u f in
    (
      armed.0,
      get-rearm task task now db1 ∙ get-save_job task (recovered now) db r (λ s. refl) h,
      armed.1,
    )

-- The job went back to the queue: nobody owns it, and its publication waits under the next generation.
pub record IsRequeued (task : String) (r : JobRecord) (e : TaskOutbox) (db : Database)
    : Type 0 where
  pub job : JobRecord
  pub row : get db task ≡ some job
  pub waiting : is_pending job.status ≡ true
  pub unowned : (is_none job.attempt_token ≡ true) × (is_none job.lease_expires_at ≡ true)
  pub same_count : job.attempt_count ≡ r.attempt_count
  pub event : TaskOutbox
  pub publication : find_event db task ≡ some event
  pub armed : Outbox.is_pending event.status ≡ true
  pub next : event.generation ≡ e.generation + 1

-- The job ended: it has failed, and neither a publication nor an open evaluation of it is left.
pub record IsEnded (task : String) (db : Database) : Type 0 where
  pub job : JobRecord
  pub row : get db task ≡ some job
  pub failed : is_failure job.status ≡ true
  pub closed : IsClosed task db
  pub withdrawn : IsWithdrawn task db

verdict-lapsed :
    (r : JobRecord) (e : TaskOutbox) (now : ℕ)
    → is_started r.status ≡ true
    → lapsed r now ≡ true
    → verdict r (some e) now ≡ (if exhausted r || is_cancelled e.status then failed else requeued)
unfolding verdict
verdict-lapsed r e now st l = ground arith

module _ (task : String) (now later : ℕ) (db : Database) (r : JobRecord)
    (found : get db task ≡ some r) where
  reconcile_job-failed :
      verdict r (find_event db task) now ≡ failed
      → (reconcile_job task now later db ≡ (ok failed, abandon task (exhausted r) now later db))
        × IsEnded task (abandon task (exhausted r) now later db)
  unfolding reconcile_job abandoned
  reconcile_job-failed v =
      let (a, b, c) = abandon_lem task (exhausted r) now later db r found in
      (
        rw (found, v),
        record {
          job = abandoned (exhausted r) now r;
          row = a;
          failed = refl;
          closed = b;
          withdrawn = c;
        },
      )

  reconcile_job-requeued :
      (e : TaskOutbox)
      → IsUnique task db
      → find_event db task ≡ some e
      → verdict r (some e) now ≡ requeued
      → ((reconcile_job task now later db).0 ≡ ok requeued)
        × IsRequeued task r e (reconcile_job task now later db).1
  unfolding reconcile_job recovered rearmed
  reconcile_job-requeued e u f v =
      let (a, b, c) = requeue_lem task now db r e u found f in
      let same : reconcile_job task now later db ≡ (ok requeued, (requeue task now db).1) =
        ground (arith, found, f, v, a) in
      rw same (
        refl,
        record {
          job = recovered now r;
          row = b;
          waiting = refl;
          unowned = (refl, refl);
          same_count = refl;
          event = rearmed now e;
          publication = c;
          armed = refl;
          next = refl;
        },
      )

  -- A started job whose lease has run out, with one publication intent: if its attempts are used up or
  -- the intent is cancelled it fails, with no open evaluation and no publication left; otherwise it
  -- waits again with no owner, and its publication is pending under the next generation.
  pub reconcile_job-lapsed :
      (e : TaskOutbox)
      → IsUnique task db
      → find_event db task ≡ some e
      → is_started r.status ≡ true
      → lapsed r now ≡ true
      → let (result, db') = reconcile_job task now later db in
        (((exhausted r || is_cancelled e.status) ≡ true) × (result ≡ ok failed) × IsEnded task db')
        ⊎ (((exhausted r || is_cancelled e.status) ≡ false)
            × (result ≡ ok requeued)
            × IsRequeued task r e db')
  reconcile_job-lapsed e u f st l = elim (Bool-cases (exhausted r || is_cancelled e.status)) [
    | inl x ↦
        let (same, ended) = reconcile_job-failed (rw f (verdict-lapsed r e now st l ∙ rw x)) in
        inl (x, rw same refl, rw same ended)
    | inr x ↦
        let (done, back) = reconcile_job-requeued e u f (verdict-lapsed r e now st l ∙ rw x) in
        inr (x, done, back)
  ]
