-- ===== src/Tests.antt =====
-- The theorems at concrete databases.
mod Storage
mod Fallback
mod Requests
mod Operations
mod Charts
mod Engines
mod Snapshots
mod Datasets
mod Quality
use data_analytics_platform.Base.{
  inl, inr, ◌&&◌, ◌<◌, opt_eq, text_take, ℕ, ◌≡◌, ◌≤◌, ◌⊎◌, refl, String, true, false, Option, none,
  some, List, [], ◌∷◌, arith, count_where, first_where, ◌+◌, ◌*◌, ◌||◌, update_where, order_by,
  text_length,
}
use data_analytics_platform.Schema.{
  Database, Settings, ok, err, state_conflict, lease_lost, lease_unavailable, cancellation,
}
use data_analytics_platform.Schema.Json.{end}
use data_analytics_platform.Schema.Jobs.{
  JobRecord, JobKind, JobStatus, is_pending, is_started, is_active,
}
use data_analytics_platform.Schema.Outbox.{TaskOutbox, OutboxStatus}
use data_analytics_platform.Jobs.Clock.{lease_after, Clock, second, database_now, lease_clock}
use data_analytics_platform.Jobs.Admission.{active_count}
use data_analytics_platform.Jobs.Worker.{get, start, ensure_active, claimable, token_rejected}
use data_analytics_platform.Jobs.Keys.{IsKeyed}
use data_analytics_platform.Jobs.Lifecycle.{IsShaped}
use data_analytics_platform.Jobs.Fencing.{fenced_attempt}
use data_analytics_platform.Jobs.Acquisition.{start-acquires, start-live_lease, start-true, taken}
use data_analytics_platform.Jobs.Cancellation.{request_cancellation-stops_worker}
use data_analytics_platform.Jobs.Ending.{
  retry, fail, cancel, cancel_pending, request_cancellation, failable, cancellable, failed, stopped,
  cancelled_early,
}
use data_analytics_platform.Jobs.Outcomes.{
  Ends, IsUnique, retry-requeues, fail_attempt, IsClosed, cancel-Ends, cancel_pending-Ends,
}
use data_analytics_platform.Outbox.Intent.{find_event, rearm}
use data_analytics_platform.Outbox.Dispatch.{
  Surroundings, claim, due, dispatch, dispatch_pending, finished_event, candidate_ids,
}
use data_analytics_platform.Outbox.Fencing.{
  Row, claim-exclusive, dispatch-undisturbed, dispatch-superseded,
}
use data_analytics_platform.Outbox.Pacing.{
  finished_event-delay, dispatch_pending_bounds, dispatch_pending-outage,
}
use data_analytics_platform.Outbox.Reconcile.{
  skipped, failed as given_up, requeued as sent_back, reconcile_job,
}
use data_analytics_platform.Outbox.Recovery.{IsEnded, IsRequeued, reconcile_job-lapsed}
use data_analytics_platform.System.{Call, run}
use data_analytics_platform.System.History.{Inv, run-Inv}
use data_analytics_platform.System.Budget.{acquisitions, acquisitions_bounded}
use data_analytics_platform.System.Maintenance.{Event, call, remove_expired, report_deleted}

abbrev pub settings : Settings
settings = record {
  max_active_jobs_per_user = 5;
  max_job_result_size_mb = 2;
  outbox_claim_ttl_seconds = 120;
  outbox_max_retry_seconds = 300;
}

abbrev waiting_job : JobRecord
waiting_job = record {
  task_id = "import-1";
  owner_id = 7;
  dataset_id = none;
  report_id = none;
  transformation_id = none;
  kind = JobKind.import;
  correlation_id = some "request-1";
  status = JobStatus.pending;
  progress = 0;
  stage = some "queued";
  result_json = none;
  error_message = none;
  attempt_token = none;
  attempt_count = 0;
  max_attempts = 4;
  lease_expires_at = none;
  cancellation_requested_at = none;
  started_at = none;
  finished_at = none;
  created_at = 10;
  updated_at = 10;
}

-- The same job in the hands of the attempt "worker-a", with a lease of six minutes.
abbrev pub running_job : JobRecord
running_job = record waiting_job {
  status = JobStatus.started;
  attempt_token = some "worker-a";
  attempt_count = 1;
  lease_expires_at = some 360000020;
  started_at = some 20;
}

abbrev event : TaskOutbox
event = record {
  id = 1;
  task_id = "import-1";
  kind = JobKind.import;
  payload = record { args = []; correlation_id = "request-1" };
  status = OutboxStatus.pending;
  attempts = 0;
  generation = 1;
  claim_token = none;
  available_at = 10;
  claimed_at = none;
  published_at = none;
  last_error = none;
  created_at = 10;
  updated_at = 10;
}

abbrev pub with_job : JobRecord → Database
with_job j = record { users = 7 ∷ []; jobs = j ∷ []; outbox = event ∷ []; evaluations = [] }

-- A clock that reads `t` throughout.
abbrev pub at : ℕ → Clock
at t = record {
  postgresql = true;
  override = none;
  selected = t;
  executed = t;
  then_selected = t;
  then_executed = t;
}

with_job-IsKeyed : (j : JobRecord) → IsKeyed (with_job j)
unfolding count_where
with_job-IsKeyed j task = ground arith

waiting_job-IsShaped : IsShaped waiting_job
waiting_job-IsShaped = ground arith

waiting-Inv : Inv settings (with_job waiting_job)
unfolding active_count count_where
waiting-Inv = record {
  keyed = with_job-IsKeyed waiting_job;
  shaped = (waiting_job-IsShaped, tt);
  capped = λ owner. ground arith;
}

-- A worker takes the job, reports, loses its lease, and another takes over.
abbrev history : List Call
history =
    Call.start "import-1" "worker-a" 0 "starting" 360 (at 20)
    ∷ Call.progress "import-1" "worker-a" 40 "loading" 360 (at 30)
    ∷ Call.reconcile_job "import-1" 400000000 400000001
    ∷ Call.start "import-1" "worker-b" 0 "starting" 360 (at 400000100)
    ∷ []

run-Inv_example : Inv settings (run settings history (with_job waiting_job))
run-Inv_example = run-Inv settings history (with_job waiting_job) waiting-Inv

found_waiting : get (with_job waiting_job) "import-1" ≡ some waiting_job
unfolding get first_where
found_waiting = refl

found_running : get (with_job running_job) "import-1" ≡ some running_job
unfolding get first_where
found_running = refl

acquisitions_bounded_example :
    acquisitions settings "import-1" history (with_job waiting_job) + 0 ≤ 4
acquisitions_bounded_example =
    acquisitions_bounded settings "import-1" history (with_job waiting_job) waiting_job waiting-Inv
      found_waiting

-- The worker's calls, then a run of the retention and the deletion of a report.
abbrev events : List Event
events =
    call (Call.start "import-1" "worker-a" 0 "starting" 360 (at 20))
    ∷ call (Call.fail "import-1" "boom" (some "worker-a") true none (at 30))
    ∷ report_deleted 3
    ∷ remove_expired (λ r. false) (λ a b. false) 100 31
    ∷ []

fenced_attempt_example :
    ensure_active "import-1" (some "worker-b") 360 (at 30) (with_job running_job)
    ≡ (err (state_conflict lease_lost), with_job running_job)
fenced_attempt_example =
    (fenced_attempt settings (λ _. 0) "import-1" "worker-b" (with_job running_job) running_job
      (with_job-IsKeyed running_job) found_running refl 50 "loading" "lost" 360 end true none
      (at 30)).0

accepted_a : token_rejected "worker-a" ≡ false
unfolding text_length
accepted_a = refl

accepted_b : token_rejected "worker-b" ≡ false
unfolding text_length
accepted_b = refl

start-acquires_example :
    (j : JobRecord) × ((start "import-1" "worker-a" 0 "starting" 360
        (at 20)
        (with_job waiting_job)).0
      ≡ ok (j, true))
    × (get
          (start "import-1" "worker-a" 0 "starting" 360 (at 20) (with_job waiting_job)).1
          "import-1"
        ≡ some j)
    × (is_started j.status ≡ true)
    × (j.attempt_token ≡ some "worker-a")
    × (j.attempt_count ≡ 1)
    × (j.lease_expires_at ≡ some 360000020)
    × (j.owner_id ≡ 7)
    × (j.max_attempts ≡ 4)
unfolding lease_clock database_now
start-acquires_example =
    start-acquires "import-1" "worker-a" 0 "starting" 360 (at 20) accepted_a (with_job waiting_job)
      waiting_job (with_job-IsKeyed waiting_job) found_waiting (omega arith) (inl refl)

start-live_lease_example :
    (n : ℕ) × (start "import-1" "worker-b" 0 "starting" 360 (at 30) (with_job running_job)
      ≡ (err (lease_unavailable n), with_job running_job))
    × (1 ≤ n)
    × (n ≤ 360)
    × ((n ≡ 360) ⊎ (360000020 ≤ 30 + n * 1000000))
unfolding lease_clock database_now
start-live_lease_example =
    start-live_lease "import-1" "worker-b" 0 "starting" 360 (at 30) accepted_b
      (with_job running_job) running_job 360000020 (with_job-IsKeyed running_job) found_running refl
      refl (omega arith) (omega arith)

start_result :
    (start "import-1" "worker-a" 0 "starting" 360 (at 20) (with_job waiting_job)).0
    ≡ ok (taken "import-1" "worker-a" 0 "starting" 360 (at 20) accepted_a waiting_job, true)
unfolding start count_where update_where first_where text_length
start_result = refl

start-true_example :
    let j = taken "import-1" "worker-a" 0 "starting" 360 (at 20) accepted_a waiting_job in
    (r : JobRecord) × (get (with_job waiting_job) "import-1" ≡ some r)
    × (claimable 20 r ≡ true)
    × (j ≡ taken "import-1" "worker-a" 0 "starting" 360 (at 20) accepted_a r)
    × (get
          (start "import-1" "worker-a" 0 "starting" 360 (at 20) (with_job waiting_job)).1
          "import-1"
        ≡ some j)
unfolding lease_clock database_now
start-true_example =
    start-true "import-1" "worker-a" 0 "starting" 360 (at 20) accepted_a (with_job waiting_job) _
      (with_job-IsKeyed waiting_job) start_result

accepted_request : (request_cancellation running_job (at 40) (with_job running_job)).0 ≡ true
unfolding request_cancellation count_where
accepted_request = refl

request_cancellation-stops_worker_example :
    let db' = (request_cancellation running_job (at 40) (with_job running_job)).1 in
    ensure_active "import-1" (some "worker-a") 360 (at 50) db' ≡ (err cancellation, db')
request_cancellation-stops_worker_example =
    (request_cancellation-stops_worker settings (λ _. 0) "worker-a" (at 40) (with_job running_job)
      running_job running_job (with_job-IsKeyed running_job) found_running (λ e. e) accepted_request
      refl 50 "loading" "lost" 360 end true none (at 50)).0

event-IsUnique : (j : JobRecord) → IsUnique "import-1" (with_job j)
unfolding count_where
event-IsUnique j = omega arith

found_event : (j : JobRecord) → find_event (with_job j) "import-1" ≡ some event
unfolding find_event first_where
found_event j = refl

retry-requeues_example :
    (j : JobRecord) × (x : TaskOutbox) × ((retry "import-1" "timed out" "worker-a"
        (at 50)
        (with_job running_job)).0
      ≡ ok true)
    × (get (retry "import-1" "timed out" "worker-a" (at 50) (with_job running_job)).1 "import-1"
        ≡ some j)
    × (find_event
          (retry "import-1" "timed out" "worker-a" (at 50) (with_job running_job)).1
          "import-1"
        ≡ some x)
    × (is_pending j.status ≡ true)
    × (j.attempt_token ≡ none)
    × (j.lease_expires_at ≡ none)
    × (j.attempt_count ≡ 1)
    × (j.error_message ≡ some (text_take 2000 "timed out"))
    × (x.status ≡ OutboxStatus.pending)
    × (x.generation ≡ 2)
    × (x.claim_token ≡ none)
    × (x.available_at ≡ 50)
unfolding lease_clock database_now
retry-requeues_example =
    retry-requeues "import-1" "timed out" "worker-a" (at 50) (with_job running_job) running_job
      event 360000020 (with_job-IsKeyed running_job) (event-IsUnique running_job) found_running
      (found_event running_job) refl refl refl (omega arith) (omega arith)

fail_attempt_example :
    let (done, db') =
      fail "import-1" "boom" (some "worker-a") true none (at 50) (with_job running_job) in
    ((j : JobRecord) × (is_active running_job.status ≡ true)
      × (opt_eq running_job.attempt_token (some "worker-a") ≡ true)
      × ((t : ℕ) × (running_job.lease_expires_at ≡ some t)
          × (lease_clock (at 50) (database_now (at 50)) < t))
      × (done ≡ true)
      × (get db' "import-1" ≡ some j)
      × (j.status ≡ JobStatus.failure)
      × (j.error_message ≡ some (text_take 2000 "boom"))
      × (j.lease_expires_at ≡ none)
      × (j.finished_at ≡ some (database_now (at 50)))
      × (j.attempt_token ≡ some "worker-a")
      × IsClosed "import-1" db')
    ⊎ ((is_active running_job.status
            && (opt_eq running_job.attempt_token (some "worker-a")
                && lease_after running_job.lease_expires_at
                    (lease_clock (at 50) (database_now (at 50))))
          ≡ false)
        × (done ≡ false)
        × (db' ≡ with_job running_job))
fail_attempt_example =
    fail_attempt "import-1" (at 50) (with_job running_job) running_job
      (with_job-IsKeyed running_job) found_running "boom" "worker-a" true

cancel-Ends_example :
    Ends "import-1" running_job
      (cancellable none false none (lease_clock (at 50) (database_now (at 50))))
      (stopped none (database_now (at 50)) running_job)
      (with_job running_job)
      (cancel "import-1" none none false none (at 50) (with_job running_job))
cancel-Ends_example =
    cancel-Ends "import-1" (at 50) (with_job running_job) running_job (with_job-IsKeyed running_job)
      found_running none none false none

cancel_pending-Ends_example :
    Ends "import-1" waiting_job
      (λ q. is_pending q.status)
      (cancelled_early none (database_now (at 50)) waiting_job)
      (with_job waiting_job)
      (cancel_pending "import-1" none (at 50) (with_job waiting_job))
cancel_pending-Ends_example =
    cancel_pending-Ends "import-1" (at 50) (with_job waiting_job) waiting_job
      (with_job-IsKeyed waiting_job) found_waiting none

event-Row : (j : JobRecord) → Row 1 event (with_job j).outbox
unfolding count_where first_where
event-Row j = (omega arith, refl)

claim-exclusive_example :
    let db' = (claim settings 1 "tick-1" 60 (with_job waiting_job)).1 in
    claim settings 1 "tick-2" 70 db' ≡ (none, db')
claim-exclusive_example =
    claim-exclusive settings 1 "tick-1" "tick-2" 60 70 (with_job waiting_job) event
      (event-Row waiting_job) refl (omega arith)

-- A broker that answers every publication with `answer`.
abbrev around : Option String → (Database → Database) → Surroundings
around answer between = record {
  token = "tick-1";
  claimed_at = 60;
  finished_at = 65;
  publish = λ _. answer;
  uniform = λ low high. high * second;
  between = between;
}

dispatch-undisturbed_example :
    (x : TaskOutbox) × ((dispatch settings (around none (λ d. d)) 1 (with_job waiting_job)).0
      ≡ true)
    × Row 1 x (dispatch settings (around none (λ d. d)) 1 (with_job waiting_job)).1.outbox
    × ((x.status ≡ OutboxStatus.published)
        × (x.published_at ≡ some 65)
        × (x.last_error ≡ none)
        × (x.claim_token ≡ none)
        × (x.attempts ≡ 1)
        × (x.generation ≡ 1))
dispatch-undisturbed_example =
    dispatch-undisturbed settings (around none (λ d. d)) 1 (with_job waiting_job) event
      (event-Row waiting_job) refl (λ d. refl)

-- While the broker is asked, the event is armed again and another dispatcher claims it.
abbrev overtaken : Database → Database
overtaken d = (claim settings 1 "tick-2" 63 (rearm "import-1" 62 d).1).1

abbrev overtaken_event : TaskOutbox
overtaken_event = record event {
  status = OutboxStatus.dispatching;
  attempts = 2;
  generation = 2;
  claim_token = some "tick-2";
  claimed_at = some 63;
  available_at = 62;
  updated_at = 63;
}

overtaken-Row :
    Row 1 overtaken_event (overtaken (claim settings 1 "tick-1" 60 (with_job waiting_job)).1).outbox
unfolding claim rearm count_where first_where update_where
overtaken-Row = (omega arith, refl)

dispatch-superseded_example :
    dispatch settings (around none overtaken) 1 (with_job waiting_job)
    ≡ (false, overtaken (claim settings 1 "tick-1" 60 (with_job waiting_job)).1)
dispatch-superseded_example =
    dispatch-superseded settings (around none overtaken) 1 (with_job waiting_job) event
      (event-Row waiting_job) refl overtaken_event overtaken-Row (inl (λ e. cc))

reconcile_job-lapsed_example :
    let (result, db') = reconcile_job "import-1" 400000000 400000001 (with_job running_job) in
    (((false || false) ≡ true) × (result ≡ ok given_up) × IsEnded "import-1" db')
    ⊎ (((false || false) ≡ false)
        × (result ≡ ok sent_back)
        × IsRequeued "import-1" running_job event db')
reconcile_job-lapsed_example =
    reconcile_job-lapsed "import-1" 400000000 400000001 (with_job running_job) running_job
      found_running event (event-IsUnique running_job) (found_event running_job) refl refl

at_most :
    (low high : ℕ) → low ≤ high → (low * second ≤ high * second) × (high * second ≤ high * second)
at_most low high h = (omega arith, omega arith)

finished_event-delay_example :
    let e' = finished_event settings (around none (λ d. d)) event (some "down") event in
    (65 + second ≤ e'.available_at)
    × (e'.available_at ≤ 65 + 256 * second)
    × (due settings 65 e' ≡ false)
finished_event-delay_example =
    finished_event-delay settings (around none (λ d. d)) event event "down" at_most

dispatch_pending_bounds_example :
    let t =
      (dispatch_pending settings (λ _. around none (λ d. d)) 50 10 (with_job waiting_job)).0 in
    (t.published ≤ t.examined) × (t.examined ≤ 10)
dispatch_pending_bounds_example =
    dispatch_pending_bounds settings (λ _. around none (λ d. d)) 50 10 (with_job waiting_job)

found_candidates : candidate_ids settings 50 10 (with_job waiting_job) ≡ 1 ∷ []
unfolding candidate_ids order_by
found_candidates = refl

dispatch_pending-outage_example :
    (dispatch_pending settings (λ _. around (some "down") (λ d. d)) 50 10 (with_job waiting_job)).0
    ≡ record { examined = 1; published = 0 }
dispatch_pending-outage_example =
    dispatch_pending-outage settings (λ _. around (some "down") (λ d. d)) 50 10 1 []
      (with_job waiting_job) event "down" found_candidates (event-Row waiting_job) (omega arith)
      (λ d. refl) (λ x. refl) refl
