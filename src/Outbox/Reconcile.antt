-- ===== src/Outbox/Reconcile.antt =====
-- `OutboxService.reconcile` of backend/app/services/outbox_service.py: recovery of lost deliveries and
-- of attempts whose lease has run out, in one transaction.
use data_analytics_platform.Base.{
  ℕ, ◌+◌, ◌*◌, max, List, [], ◌∷◌, ◌++◌, String, Bool, false, not, ◌&&◌, ◌||◌, Option, none, some,
  leb, ltb, ◌==◌, is_none, if◌then◌else◌, filter, take, update_where, order_by,
}
use data_analytics_platform.Schema.{Database, Result, ok, err}
use data_analytics_platform.Schema.Jobs.{JobRecord, is_pending, is_started, pending, failure}
use data_analytics_platform.Schema.Outbox
use data_analytics_platform.Schema.Outbox.{TaskOutbox}
use data_analytics_platform.Schema.Evaluations.{EvaluationStatus}
use data_analytics_platform.Jobs.Clock.{second, lease_by, lease_after}
use data_analytics_platform.Jobs.Admission.{is_task}
use data_analytics_platform.Jobs.Worker.{get}
use data_analytics_platform.Jobs.Ending.{complete_evaluation}
use data_analytics_platform.Outbox.Intent.{find_event, rearm, cancel}

-- DELIVERY_ACK_TIMEOUT_SECONDS, in microseconds.
abbrev pub delivery_ack_timeout : ℕ
delivery_ack_timeout = 120 * second

-- `published_at <= now - timeout`
abbrev pub unacknowledged : Option ℕ → ℕ → Bool
unacknowledged none now = false
unacknowledged (some t) now = leb (t + delivery_ack_timeout) now

abbrev pub exhausted : JobRecord → Bool
exhausted r = leb r.max_attempts r.attempt_count

abbrev pub lost_delivery : Option TaskOutbox → ℕ → Bool
lost_delivery none now = false
lost_delivery (some e) now = Outbox.is_published e.status && unacknowledged e.published_at now

abbrev pub lapsed : JobRecord → ℕ → Bool
lapsed r now = is_none r.lease_expires_at || lease_by r.lease_expires_at now

-- The filter of the discovery query.
unfoldable pub needs_recovery : Database → ℕ → JobRecord → Bool
unfolding find_event
needs_recovery db now r =
    (is_started r.status && lapsed r now)
    || ((is_pending r.status && lost_delivery (find_event db r.task_id) now)
        || (is_pending r.status && exhausted r))

-- What the surroundings give: the clock when the query runs, when each job is handled and when its
-- publication is cancelled, the rows that other sessions hold, and the database's order of texts.
pub record Recovery : Type 0 where
  pub now : ℕ
  pub check_time : String → ℕ
  pub cancel_time : String → ℕ
  pub is_locked : String → Bool
  pub text_le : String → String → Bool

-- `order_by(updated_at, task_id)`
abbrev pub recovered_first : Recovery → JobRecord → JobRecord → Bool
recovered_first w a b =
    ltb a.updated_at b.updated_at
    || ((a.updated_at == b.updated_at) && w.text_le a.task_id b.task_id)

unfoldable pub candidates : Recovery → ℕ → Database → List JobRecord
unfolding needs_recovery
candidates w limit db = take (max 1 limit) (
    filter (λ r. not (w.is_locked r.task_id))
      (order_by (recovered_first w) (filter (needs_recovery db w.now) db.jobs)))

unfoldable pub abandoned : Bool → ℕ → JobRecord → JobRecord
abandoned spent now r = record r {
  status = failure;
  stage = some "recovery_exhausted";
  error_message =
      if spent
      then some "The durable execution attempt budget was exhausted."
      else some "The job has no recoverable publication intent.";
  lease_expires_at = none;
  finished_at = some now;
  updated_at = now;
}

unfoldable pub recovered : ℕ → JobRecord → JobRecord
recovered now r = record r {
  status = pending;
  stage = some "lease_recovery";
  attempt_token = none;
  lease_expires_at = none;
  updated_at = now;
}

-- A locked row is written back by its primary key.
abbrev pub save_job : String → (JobRecord → JobRecord) → Database → Database
save_job task change db = record db { jobs = update_where (is_task task) change db.jobs }

unfoldable pub abandon : String → Bool → ℕ → ℕ → Database → Database
unfolding abandoned complete_evaluation cancel
abandon task spent now later db =
    cancel task later
      (complete_evaluation task EvaluationStatus.error now (save_job task (abandoned spent now) db))

unfoldable pub requeue : String → ℕ → Database → Result (Unit {0}) × Database
unfolding recovered rearm
requeue task now db = rearm task now (save_job task (recovered now) db)

pub data Outcome : Type 0 where
  skipped requeued failed : Outcome

-- Whether the publication of a waiting job is not yet overdue.
abbrev pub delivery_in_time : Option TaskOutbox → ℕ → Bool
delivery_in_time event now = not (lost_delivery event now)

abbrev pub has_intent : Option TaskOutbox → Bool
has_intent none = false
has_intent (some e) = not (Outbox.is_cancelled e.status)

-- What the loop does with a job, read again under its lock.
unfoldable pub verdict : JobRecord → Option TaskOutbox → ℕ → Outcome
verdict r event now =
    if is_started r.status && lease_after r.lease_expires_at now
    then skipped
    else if not (is_started r.status) && not (is_pending r.status)
    then skipped
    else if is_pending r.status && (not (exhausted r) && delivery_in_time event now)
    then skipped
    else if exhausted r || not (has_intent event)
    then failed
    else requeued

abbrev pub apply_requeue : Result (Unit {0}) × Database → Result Outcome × Database
apply_requeue (ok _, db) = (ok requeued, db)
apply_requeue (err e, db) = (err e, db)

abbrev pub apply_verdict : Outcome → String → Bool → ℕ → ℕ → Database → Result Outcome × Database
apply_verdict skipped task spent now later db = (ok skipped, db)
apply_verdict failed task spent now later db = (ok failed, abandon task spent now later db)
apply_verdict requeued task spent now later db = apply_requeue (requeue task now db)

-- `db.refresh(job)` finds the row, which is locked.
abbrev pub reconcile_found :
    String → ℕ → ℕ → Option JobRecord → Database → Result Outcome × Database
reconcile_found task now later none db = (ok skipped, db)
reconcile_found task now later (some r) db =
    apply_verdict (verdict r (find_event db task) now) task (exhausted r) now later db

-- One round of the loop.
unfoldable pub reconcile_job : String → ℕ → ℕ → Database → Result Outcome × Database
unfolding get find_event verdict abandon requeue
reconcile_job task now later db = reconcile_found task now later (get db task) db

pub record Outcomes : Type 0 where
  pub requeued_ids : List String
  pub failed_ids : List String

abbrev pub note : String → Outcome → Outcomes → Outcomes
note task skipped o = o
note task requeued o = record o { requeued_ids = o.requeued_ids ++ task ∷ [] }
note task failed o = record o { failed_ids = o.failed_ids ++ task ∷ [] }

abbrev pub continue_with :
    String
    → Outcomes
    → Result Outcome × Database
    → (Outcomes → Database → Result Outcomes × Database)
    → Result Outcomes × Database
continue_with task o (ok v, db) rest = rest (note task v o) db
continue_with task o (err e, db) rest = (err e, db)

unfoldable pub reconcile_each :
    Recovery → List JobRecord → Outcomes → Database → Result Outcomes × Database
unfolding reconcile_job
reconcile_each w [] o db = (ok o, db)
reconcile_each w (r ∷ rs) o db =
    continue_with r.task_id o
      (reconcile_job r.task_id (w.check_time r.task_id) (w.cancel_time r.task_id) db)
      (reconcile_each w rs)

unfoldable pub reconcile : Recovery → ℕ → Database → Result Outcomes × Database
unfolding reconcile_each candidates
reconcile w limit db =
    reconcile_each w (candidates w limit db) (record { requeued_ids = []; failed_ids = [] }) db
