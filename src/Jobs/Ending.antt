-- ===== src/Jobs/Ending.antt =====
-- How a job ends or goes back to the queue: `retry`, `fail`, `request_cancellation`,
-- `cancel_pending` and `cancel`, with the domain record that ends in the same transaction.
use data_analytics_platform.Base.{
  ℕ, String, Bool, true, false, not, ◌&&◌, ◌||◌, Option, none, some, ltb, ◌==◌, str_eq, opt_eq,
  is_none, if◌then◌else◌, update_where, text_take,
}
use data_analytics_platform.Schema.{Database, Result, ok, err}
use data_analytics_platform.Schema.Json.{Fields, text, end, field, or_default}
use data_analytics_platform.Schema.Jobs.{
  JobRecord, is_pending, is_active, is_cancellation, is_terminal, pending, failure,
  cancellation_requested, cancelled,
}
use data_analytics_platform.Schema.Evaluations.{
  EvaluationStatus, QualityEvaluation, is_open, is_error,
}
use data_analytics_platform.Jobs.Clock.{Clock, database_now, lease_clock, lease_after, lease_by}
use data_analytics_platform.Jobs.Worker.{holds_lease, update_task, matched}
use data_analytics_platform.Outbox.Intent.{rearm}

abbrev pub incomplete_message : String
incomplete_message = "Quality evaluation did not complete. Check execution status before retrying."

unfoldable pub ended_evaluation : EvaluationStatus → ℕ → QualityEvaluation → QualityEvaluation
ended_evaluation status now e = record e {
  status = status;
  passed = none;
  result_json = none;
  error_message = if is_error status then some incomplete_message else none;
  completed_at = some now;
}

-- `_complete_quality_evaluation`
unfoldable pub complete_evaluation : String → EvaluationStatus → ℕ → Database → Database
unfolding ended_evaluation
complete_evaluation task status now db = record db {
  evaluations =
      update_where (λ e. str_eq e.task_id task && is_open e.status) (ended_evaluation status now)
        db.evaluations;
}

unfoldable pub requeued : String → ℕ → JobRecord → JobRecord
requeued message now r = record r {
  status = pending;
  stage = some "retrying";
  error_message = some (text_take 2000 message);
  attempt_token = none;
  lease_expires_at = none;
  updated_at = now;
}

abbrev pub retryable : String → ℕ → JobRecord → Bool
retryable token clock r = holds_lease token clock r && ltb r.attempt_count r.max_attempts

abbrev pub then_true : Result (Unit {0}) × Database → Result Bool × Database
then_true (ok _, db) = (ok true, db)
then_true (err e, db) = (err e, db)

unfoldable pub retry : String → String → String → Clock → Database → Result Bool × Database
unfolding requeued rearm
retry task message token c db =
    let now = database_now c in
    let guard = retryable token (lease_clock c now) in
    let db' = update_task task guard (requeued message now) db in
    if matched task guard db == 1 then then_true (rearm task now db') else (ok false, db')

-- The optional filters of `fail` and `cancel`. `enforced` adds the token's test also for `None`.
abbrev pub in_attempt : Option String → Bool → JobRecord → Bool
in_attempt token enforced r =
    if not (is_none token) || enforced then opt_eq r.attempt_token token else true

abbrev pub in_lease : Option String → Option ℕ → ℕ → JobRecord → Bool
in_lease token (some before) clock r =
    lease_by r.lease_expires_at before || is_none r.lease_expires_at
in_lease none none clock r = true
in_lease (some token) none clock r = lease_after r.lease_expires_at clock

abbrev pub failable : Option String → Bool → Option ℕ → ℕ → JobRecord → Bool
failable token enforced before clock r =
    is_active r.status && (in_attempt token enforced r && in_lease token before clock r)

unfoldable pub failed : String → ℕ → JobRecord → JobRecord
failed message now r = record r {
  status = failure;
  stage = some "failed";
  error_message = some (text_take 2000 message);
  lease_expires_at = none;
  finished_at = some now;
  updated_at = now;
}

unfoldable pub fail :
    String → String → Option String → Bool → Option ℕ → Clock → Database → Bool × Database
unfolding failed complete_evaluation
fail task message token enforced before c db =
    let now = database_now c in
    let guard = failable token enforced before (lease_clock c now) in
    let db' = update_task task guard (failed message now) db in
    if matched task guard db == 1
    then (true, complete_evaluation task EvaluationStatus.error now db')
    else (false, db')

unfoldable pub asked_to_stop : ℕ → JobRecord → JobRecord
asked_to_stop now r = record r {
  status = cancellation_requested;
  stage = some "cancellation_requested";
  cancellation_requested_at = some now;
  updated_at = now;
}

-- `job` is the caller's copy of the row, which may be stale.
unfoldable pub request_cancellation : JobRecord → Clock → Database → Bool × Database
unfolding asked_to_stop
request_cancellation job c db =
    let guard = λ (r : JobRecord). is_active r.status in
    let db' = update_task job.task_id guard (asked_to_stop (database_now c)) db in
    if is_cancellation job.status
    then (true, db)
    else if is_terminal job.status
    then (false, db)
    else (matched job.task_id guard db == 1, db')

abbrev pub cancelled_result : Option Fields → Fields
cancelled_result none = field "status" (text "cancelled") end
cancelled_result (some fs) = or_default fs (field "status" (text "cancelled") end)

unfoldable pub cancelled_early : Option Fields → ℕ → JobRecord → JobRecord
unfolding or_default
cancelled_early result now r = record r {
  status = cancelled;
  stage = some "cancelled";
  result_json = some (cancelled_result result);
  error_message = none;
  cancellation_requested_at = some now;
  lease_expires_at = none;
  finished_at = some now;
  updated_at = now;
}

unfoldable pub cancel_pending : String → Option Fields → Clock → Database → Bool × Database
unfolding cancelled_early complete_evaluation
cancel_pending task result c db =
    let now = database_now c in
    let guard = λ (r : JobRecord). is_pending r.status in
    let db' = update_task task guard (cancelled_early result now) db in
    if matched task guard db == 1
    then (true, complete_evaluation task EvaluationStatus.cancelled now db')
    else (false, db')

abbrev pub cancellable : Option String → Bool → Option ℕ → ℕ → JobRecord → Bool
cancellable token enforced before clock r =
    (is_active r.status || is_cancellation r.status)
    && (in_attempt token enforced r && in_lease token before clock r)

unfoldable pub stopped : Option Fields → ℕ → JobRecord → JobRecord
unfolding or_default
stopped result now r = record r {
  status = cancelled;
  stage = some "cancelled";
  result_json = some (cancelled_result result);
  error_message = none;
  lease_expires_at = none;
  finished_at = some now;
  updated_at = now;
}

unfoldable pub cancel :
    String → Option Fields → Option String → Bool → Option ℕ → Clock → Database → Bool × Database
unfolding stopped complete_evaluation
cancel task result token enforced before c db =
    let now = database_now c in
    let guard = cancellable token enforced before (lease_clock c now) in
    let db' = update_task task guard (stopped result now) db in
    if matched task guard db == 1
    then (true, complete_evaluation task EvaluationStatus.cancelled now db')
    else (false, db')
