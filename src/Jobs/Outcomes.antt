-- ===== src/Jobs/Outcomes.antt =====
-- What the ends of a job leave behind: the job's row, its publication intent and its evaluation move
-- together, or nothing moves.
use data_analytics_platform.Base.{
  ℕ, ◌≡◌, ◌⊎◌, inl, inr, refl, String, Bool, true, false, ◌&&◌, Option, none, some, arith, ◌+◌, ◌<◌,
  opt_eq, text_take, ◌==◌, ◌∙◌, Bool-cases, str_eq, if◌then◌else◌, IsSingle, count_where,
  first_where-update_key, count_where_pos, count_where-update,
}
use data_analytics_platform.Schema.{Database, ok, err, state_conflict, no_publication}
use data_analytics_platform.Schema.Json.{Fields}
use data_analytics_platform.Schema.Jobs.{JobRecord, JobStatus, is_pending, is_started, is_active}
use data_analytics_platform.Schema.Outbox.{TaskOutbox, OutboxStatus}
use data_analytics_platform.Schema.Evaluations.{EvaluationStatus, QualityEvaluation, is_open}
use data_analytics_platform.Jobs.Clock.{Clock, database_now, lease_clock, lease_after}
use data_analytics_platform.Jobs.Worker.{get, update_task, matched}
use data_analytics_platform.Jobs.Ending.{
  retry, fail, cancel, cancel_pending, requeued, failed, stopped, cancelled_early, retryable,
  failable, cancellable, complete_evaluation, ended_evaluation,
}
use data_analytics_platform.Jobs.Keys.{IsKeyed, unmatched, matched_found, get-update_task}
use data_analytics_platform.Outbox.Intent.{find_event, for_task, rearm, rearmed}

-- The task has one publication intent at most, by the table's unique constraint.
abbrev pub IsUnique : String → Database → Type 0
IsUnique task db = IsSingle (for_task task) db.outbox

pub find_event-rearm :
    (task : String) (now : ℕ) (db : Database) (e : TaskOutbox)
    → IsUnique task db
    → find_event db task ≡ some e
    → ((rearm task now db).0 ≡ ok tt)
      × (find_event (rearm task now db).1 task ≡ some (rearmed now e))
unfolding find_event rearm rearmed
find_event-rearm task now db e u h =
    let armed =
      first_where-update_key (for_task task) (rearmed now) db.outbox e (unfold rearmed in λ a m. m)
        h in
    let present = count_where_pos (for_task task) db.outbox e h in (ground arith, ground arith)

pub get-rearm : (t task : String) (now : ℕ) (db : Database) → get (rearm task now db).1 t ≡ get db t
unfolding get rearm
get-rearm t task now db = ground arith

retried :
    (task message token : String) (c : Clock) (db : Database) (r : JobRecord) (e : TaskOutbox)
    → IsKeyed db
    → IsUnique task db
    → get db task ≡ some r
    → find_event db task ≡ some e
    → retryable token (lease_clock c (database_now c)) r ≡ true
    → let (result, db') = retry task message token c db in
      (result ≡ ok true)
      × (get db' task ≡ some (requeued message (database_now c) r))
      × (find_event db' task ≡ some (rearmed (database_now c) e))
unfolding retry requeued find_event
retried task message token c db r e k u h f g =
    let now = database_now c in
    let guard = retryable token (lease_clock c now) in
    let db' = update_task task guard (requeued message now) db in
    let row = get-update_task task guard (requeued message now) db r (λ s. refl) h in
    let armed = find_event-rearm task now db' e u f in
    let hit = matched_found task guard db r k h in
    (ground arith, ground (arith, get-rearm task task now db'), ground arith)

-- Where the task has one publication intent, a retry by the attempt that holds the live lease, while
-- attempts are left, sends the job back to the queue and arms the publication in the same database:
-- the job is pending without an attempt or a lease, and has used the same number of attempts; the
-- publication is pending under the next generation, unclaimed and available now.
pub retry-requeues :
    (task message token : String) (c : Clock) (db : Database) (r : JobRecord) (e : TaskOutbox)
    (t : ℕ)
    → IsKeyed db
    → IsUnique task db
    → get db task ≡ some r
    → find_event db task ≡ some e
    → is_started r.status ≡ true
    → opt_eq r.attempt_token (some token) ≡ true
    → r.lease_expires_at ≡ some t
    → lease_clock c (database_now c) < t
    → r.attempt_count < r.max_attempts
    → (j : JobRecord) × (x : TaskOutbox) × ((retry task message token c db).0 ≡ ok true)
      × (get (retry task message token c db).1 task ≡ some j)
      × (find_event (retry task message token c db).1 task ≡ some x)
      × (is_pending j.status ≡ true)
      × (j.attempt_token ≡ none)
      × (j.lease_expires_at ≡ none)
      × (j.attempt_count ≡ r.attempt_count)
      × (j.error_message ≡ some (text_take 2000 message))
      × (x.status ≡ OutboxStatus.pending)
      × (x.generation ≡ e.generation + 1)
      × (x.claim_token ≡ none)
      × (x.available_at ≡ database_now c)
unfolding requeued rearmed
retry-requeues task message token c db r e t k u h f st mine l live left =
    let (result, row, armed) = retried task message token c db r e k u h f (ground arith) in
    (
      requeued message (database_now c) r,
      rearmed (database_now c) e,
      result,
      row,
      armed,
      refl,
      refl,
      refl,
      refl,
      refl,
      refl,
      refl,
      refl,
      refl,
    )

-- Where nothing is left to publish, the retry raises; the caller rolls back.
pub retry-no_intent :
    (task message token : String) (c : Clock) (db : Database) (r : JobRecord)
    → IsKeyed db
    → get db task ≡ some r
    → count_where (for_task task) db.outbox ≡ 0
    → retryable token (lease_clock c (database_now c)) r ≡ true
    → (retry task message token c db).0 ≡ err (state_conflict no_publication)
unfolding retry rearm
retry-no_intent task message token c db r k h f g =
    ground (arith, matched_found task (retryable token (lease_clock c (database_now c))) db r k h)

-- No evaluation of the task is still open.
abbrev pub IsClosed : String → Database → Type 0
IsClosed task db =
    count_where (λ (e : QualityEvaluation). str_eq e.task_id task && is_open e.status)
      db.evaluations
    ≡ 0

pub complete_evaluation-error :
    (task : String) (now : ℕ) (db : Database)
    → IsClosed task (complete_evaluation task EvaluationStatus.error now db)
unfolding complete_evaluation
complete_evaluation-error task now db =
    count_where-update (λ (e : QualityEvaluation). str_eq e.task_id task && is_open e.status)
      (ended_evaluation EvaluationStatus.error now) (unfold ended_evaluation in λ e. ground arith)
      db.evaluations

complete_evaluation-cancelled :
    (task : String) (now : ℕ) (db : Database)
    → IsClosed task (complete_evaluation task EvaluationStatus.cancelled now db)
unfolding complete_evaluation
complete_evaluation-cancelled task now db =
    count_where-update (λ (e : QualityEvaluation). str_eq e.task_id task && is_open e.status)
      (ended_evaluation EvaluationStatus.cancelled now)
      (unfold ended_evaluation in λ e. ground arith) db.evaluations

-- The end of a job: either the job's row passed the guard, now is `ended`, and no evaluation of the
-- task is open; or the answer is false and nothing has changed.
abbrev pub Ends :
    String → JobRecord → (JobRecord → Bool) → JobRecord → Database → Bool × Database → Type 0
Ends task r guard ended db (done, db') =
    ((guard r ≡ true) × (done ≡ true) × (get db' task ≡ some ended) × IsClosed task db')
    ⊎ ((guard r ≡ false) × (done ≡ false) × (db' ≡ db))

pub get-complete_evaluation :
    (t task : String) (status : EvaluationStatus) (now : ℕ) (db : Database)
    → get (complete_evaluation task status now db) t ≡ get db t
unfolding get complete_evaluation
get-complete_evaluation t task status now db = refl

-- The shape that `fail`, `cancel_pending` and `cancel` share.
ends :
    (task : String) (guard : JobRecord → Bool) (change : JobRecord → JobRecord)
    (status : EvaluationStatus) (now : ℕ) (db : Database) (r : JobRecord)
    → IsKeyed db
    → get db task ≡ some r
    → ((s : JobRecord) → (change s).task_id ≡ s.task_id)
    → ((d : Database) → IsClosed task (complete_evaluation task status now d))
    → Ends task r guard (change r) db (
        if matched task guard db == 1
        then (true, complete_evaluation task status now (update_task task guard change db))
        else (false, update_task task guard change db))
ends task guard change status now db r k h same closed = elim (Bool-cases (guard r)) [
  | inl g ↦
      let hit : (matched task guard db == 1) ≡ true =
        ground (arith, matched_found task guard db r k h) in
      let row = get-update_task task guard change db r same h in
      rw hit (
        inl (
          g,
          refl,
          get-complete_evaluation task task status now _ ∙ ground arith,
          closed (update_task task guard change db),
        ))
  | inr g ↦
      let miss : (matched task guard db == 1) ≡ false =
        ground (arith, matched_found task guard db r k h) in
      rw miss (inr (g, refl, unmatched task guard change db k miss))
]

leased :
    (o : Option ℕ) (clock : ℕ) → lease_after o clock ≡ true → (t : ℕ) × (o ≡ some t) × (clock < t)
leased none clock h = absurd (cc)
leased (some t) clock h = (t, refl, ground arith)

module _ (task : String) (c : Clock) (db : Database) (r : JobRecord) (keyed : IsKeyed db)
    (found : get db task ≡ some r) where
  fail-Ends :
      (message : String) (token : Option String) (enforced : Bool) (before : Option ℕ)
      → Ends task r
          (failable token enforced before (lease_clock c (database_now c)))
          (failed message (database_now c) r)
          db
          (fail task message token enforced before c db)
  unfolding fail
  fail-Ends message token enforced before =
      ends task (failable token enforced before (lease_clock c (database_now c)))
        (failed message (database_now c)) EvaluationStatus.error (database_now c) db r keyed found
        (unfold failed in λ s. refl) (complete_evaluation-error task (database_now c))

  -- `fail` by a worker on the task's row, with its token and no `before`: either the job was pending or
  -- started, in the worker's hands and under a live lease, and now is FAILURE with the message cut to
  -- 2000 characters, without a lease, finished now, and no evaluation of the task is left open; or one
  -- of these did not hold, the answer is false and the database is unchanged.
  pub fail_attempt :
      (message token : String) (enforced : Bool)
      → ((j : JobRecord) × (is_active r.status ≡ true)
          × (opt_eq r.attempt_token (some token) ≡ true)
          × ((t : ℕ) × (r.lease_expires_at ≡ some t) × (lease_clock c (database_now c) < t))
          × ((fail task message (some token) enforced none c db).0 ≡ true)
          × (get (fail task message (some token) enforced none c db).1 task ≡ some j)
          × (j.status ≡ JobStatus.failure)
          × (j.error_message ≡ some (text_take 2000 message))
          × (j.lease_expires_at ≡ none)
          × (j.finished_at ≡ some (database_now c))
          × (j.attempt_token ≡ r.attempt_token)
          × IsClosed task (fail task message (some token) enforced none c db).1)
        ⊎ ((is_active r.status
                && (opt_eq r.attempt_token (some token)
                    && lease_after r.lease_expires_at (lease_clock c (database_now c)))
              ≡ false)
            × ((fail task message (some token) enforced none c db).0 ≡ false)
            × ((fail task message (some token) enforced none c db).1 ≡ db))
  unfolding failed
  fail_attempt message token enforced = elim (fail-Ends message (some token) enforced none) [
    | inl (g, done, row, closed) ↦
        let clock = lease_clock c (database_now c) in
        let open_ : is_active r.status
              && (opt_eq r.attempt_token (some token) && lease_after r.lease_expires_at clock)
            ≡ true =
          ground arith in
        inl (
          failed message (database_now c) r,
          ground arith,
          ground arith,
          leased r.lease_expires_at clock (ground arith),
          done,
          row,
          refl,
          refl,
          refl,
          refl,
          refl,
          closed,
        )
    | inr (g, done, same) ↦ inr (ground arith, done, same)
  ]

  -- `cancel_pending` on the task's row: if the job waits it is cancelled and no evaluation of the task
  -- is left open; if not, the answer is false and the database is unchanged.
  pub cancel_pending-Ends :
      (result : Option Fields)
      → Ends task r
          (λ q. is_pending q.status)
          (cancelled_early result (database_now c) r)
          db
          (cancel_pending task result c db)
  unfolding cancel_pending
  cancel_pending-Ends result =
      ends task (λ q. is_pending q.status) (cancelled_early result (database_now c))
        EvaluationStatus.cancelled (database_now c) db r keyed found
        (unfold cancelled_early in λ s. refl) (complete_evaluation-cancelled task (database_now c))

  -- `cancel` on the task's row: if it passes the filters the job is cancelled and no evaluation of the
  -- task is left open; if not, the answer is false and the database is unchanged.
  pub cancel-Ends :
      (result : Option Fields) (token : Option String) (enforced : Bool) (before : Option ℕ)
      → Ends task r
          (cancellable token enforced before (lease_clock c (database_now c)))
          (stopped result (database_now c) r)
          db
          (cancel task result token enforced before c db)
  unfolding cancel
  cancel-Ends result token enforced before =
      ends task (cancellable token enforced before (lease_clock c (database_now c)))
        (stopped result (database_now c)) EvaluationStatus.cancelled (database_now c) db r keyed
        found (unfold stopped in λ s. refl) (complete_evaluation-cancelled task (database_now c))
