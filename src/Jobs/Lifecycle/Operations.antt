-- ===== src/Jobs/Lifecycle/Operations.antt =====
-- Each operation of `JobService`, on every branch, errors included, takes every row of the job table
-- along the lifecycle.
use data_analytics_platform.Base.{
  ℕ, ◌≡◌, String, Bool, true, ◌&&◌, Option, none, some, arith, &&-eq-true, max, ap, sym, ◌∙◌,
  str_eq, count_where-Pointwise-le, Pointwise, Pointwise-refl, update_where-Pointwise,
}
use data_analytics_platform.Schema.{Database, Settings}
use data_analytics_platform.Schema.Json.{Fields}
use data_analytics_platform.Schema.Jobs.{JobRecord, is_active, is_pending}
use data_analytics_platform.Jobs.Clock.{Clock, later, database_now, lease_clock, lease_deadline}
use data_analytics_platform.Jobs.Admission.{is_task}
use data_analytics_platform.Jobs.Keys.{IsKeyed, unmatched}
use data_analytics_platform.Jobs.Worker.{
  update_task, renewed, acquired, reported, completed, holds_lease, claimable, ensure_active, start,
  progress, succeed, succeed_sized, succeed_refused, ensure_active,
}
use data_analytics_platform.Jobs.Ending.{
  requeued, retryable, failed, failable, asked_to_stop, cancelled_early, cancellable, stopped,
  retry, fail, request_cancellation, cancel_pending, cancel,
}
use data_analytics_platform.Outbox.Intent.{rearm}
use data_analytics_platform.Jobs.Lifecycle.{Lawful, Lawful-refl}
use data_analytics_platform.Jobs.Lifecycle.Changes.{
  renewed-Lawful, acquired-Lawful, reported-Lawful, completed-Lawful, requeued-Lawful,
  failed-Lawful, asked_to_stop-Lawful, cancelled_early-Lawful, stopped-Lawful,
}

-- The job table before and after, row by row.
abbrev pub Evolves : Database → Database → Type 0
Evolves db db' = Pointwise Lawful db.jobs db'.jobs

pub Evolves-refl : (db : Database) → Evolves db db
Evolves-refl db = Pointwise-refl Lawful Lawful-refl db.jobs

pub Lawful-key : (task : String) (r q : JobRecord) → Lawful r q → is_task task q ≡ is_task task r
Lawful-key task r q l = ap (λ t. str_eq t task) l.same_task

-- Rows that keep their task keep the primary key.
pub Evolves-IsKeyed : (db db' : Database) → Evolves db db' → IsKeyed db → IsKeyed db'
Evolves-IsKeyed db db' e k task = omega (
  arith,
  k task,
  count_where-Pointwise-le Lawful (is_task task) (λ r q l h. sym (Lawful-key task r q l) ∙ h)
      db.jobs db'.jobs e,
)

pub update_task-Evolves :
    (task : String) (guard : JobRecord → Bool) (change : JobRecord → JobRecord) (db : Database)
    → ((r : JobRecord) → guard r ≡ true → Lawful r (change r))
    → Evolves db (update_task task guard change db)
update_task-Evolves task guard change db h =
    update_where-Pointwise Lawful (λ r. is_task task r && guard r) change Lawful-refl
      (λ r e. h r (&&-eq-true (is_task task r) (guard r) e).1) db.jobs

pub ensure_active-Evolves :
    (task : String) (token : Option String) (seconds : ℕ) (c : Clock) (db : Database)
    → Evolves db (ensure_active task token seconds c db).1
unfolding ensure_active
ensure_active-Evolves task none seconds c db = Evolves-refl db
ensure_active-Evolves task (some token) seconds c db =
    let now = database_now c in
    let clock = lease_clock c now in
    let deadline = lease_deadline c now seconds in
    ground (
      arith,
      update_task-Evolves task (holds_lease token clock) (renewed deadline now) db
          (renewed-Lawful token clock deadline now),
    )

pub start-Evolves :
    (task token : String) (percent : ℕ) (stage : String) (seconds : ℕ) (c : Clock) (db : Database)
    → Evolves db (start task token percent stage seconds c db).1
unfolding start
start-Evolves task token percent stage seconds c db =
    let now = database_now c in
    let clock = lease_clock c now in
    let deadline = lease_deadline c now (max 1 seconds) in
    ground (
      arith,
      Evolves-refl db,
      update_task-Evolves task (claimable clock) (acquired token percent stage deadline now) db
          (acquired-Lawful token percent stage clock deadline now),
    )

pub progress-Evolves :
    (task token : String) (percent : ℕ) (stage : String) (seconds : ℕ) (c : Clock) (db : Database)
    → IsKeyed db
    → Evolves db (progress task token percent stage seconds c db).1
unfolding progress
progress-Evolves task token percent stage seconds c db k =
    let now = database_now c in
    let clock = lease_clock c now in
    let deadline = lease_deadline c now seconds in
    let change = reported percent stage deadline now in
    ground (
      arith,
      unmatched task (holds_lease token clock) change db k,
      update_task-Evolves task (holds_lease token clock) change db
          (reported-Lawful token percent stage clock deadline now),
      ensure_active-Evolves task (some token) 360 (later c) db,
    )

succeed_sized-Evolves :
    (task : String) (result : Fields) (token : String) (c : Clock) (db : Database)
    → IsKeyed db
    → Evolves db (succeed_sized task result token c db).1
unfolding succeed_sized succeed_refused
succeed_sized-Evolves task result token c db k =
    let now = database_now c in
    let clock = lease_clock c now in
    let change = completed result now in
    ground (
      arith,
      Evolves-refl db,
      unmatched task (holds_lease token clock) change db k,
      update_task-Evolves task (holds_lease token clock) change db
          (completed-Lawful token result clock now),
      ensure_active-Evolves task (some token) 360 (later c) db,
    )

pub succeed-Evolves :
    (s : Settings) (size : Fields → ℕ) (task : String) (result : Fields) (token : String)
    (c : Clock) (db : Database)
    → IsKeyed db
    → Evolves db (succeed s size task result token c db).1
unfolding succeed
succeed-Evolves s size task result token c db k =
    ground (arith, Evolves-refl db, succeed_sized-Evolves task result token c db k)

pub retry-Evolves :
    (task message token : String) (c : Clock) (db : Database)
    → Evolves db (retry task message token c db).1
unfolding retry rearm
retry-Evolves task message token c db =
    let now = database_now c in
    let clock = lease_clock c now in
    ground (
      arith,
      update_task-Evolves task (retryable token clock) (requeued message now) db
          (requeued-Lawful token message clock now),
    )

pub fail-Evolves :
    (task message : String) (token : Option String) (enforced : Bool) (before : Option ℕ)
    (c : Clock) (db : Database)
    → Evolves db (fail task message token enforced before c db).1
unfolding fail
fail-Evolves task message token enforced before c db =
    let now = database_now c in
    let guard = failable token enforced before (lease_clock c now) in
    ground (
      arith,
      update_task-Evolves task guard (failed message now) db
          (λ r h. failed-Lawful message now r (&&-eq-true (is_active r.status) _ h).0),
    )

pub request_cancellation-Evolves :
    (job : JobRecord) (c : Clock) (db : Database) → Evolves db (request_cancellation job c db).1
unfolding request_cancellation
request_cancellation-Evolves job c db =
    let now = database_now c in
    ground (
      arith,
      Evolves-refl db,
      update_task-Evolves job.task_id (λ r. is_active r.status) (asked_to_stop now) db
          (asked_to_stop-Lawful now),
    )

pub cancel_pending-Evolves :
    (task : String) (result : Option Fields) (c : Clock) (db : Database)
    → Evolves db (cancel_pending task result c db).1
unfolding cancel_pending
cancel_pending-Evolves task result c db =
    let now = database_now c in
    ground (
      arith,
      update_task-Evolves task (λ r. is_pending r.status) (cancelled_early result now) db
          (cancelled_early-Lawful result now),
    )

pub cancel-Evolves :
    (task : String) (result : Option Fields) (token : Option String) (enforced : Bool)
    (before : Option ℕ) (c : Clock) (db : Database)
    → Evolves db (cancel task result token enforced before c db).1
unfolding cancel
cancel-Evolves task result token enforced before c db =
    let now = database_now c in
    let clock = lease_clock c now in
    ground (
      arith,
      update_task-Evolves task (cancellable token enforced before clock) (stopped result now) db
          (stopped-Lawful token enforced before result clock now),
    )
