-- ===== src/Jobs/Worker.antt =====
-- What a worker calls: `get`, `owned`, `ensure_active`, `start`, `progress` and `succeed`. Each locks
-- the job's row first, so each is one step.
use data_analytics_platform.Base.{
  ℕ, ◌+◌, max, String, Bool, true, false, not, ◌&&◌, ◌||◌, Option, none, some, leb, ltb, ◌==◌,
  opt_eq, is_none, if◌then◌else◌, count_where, update_where, first_where, text_length,
}
use data_analytics_platform.Schema.{
  Database, Settings, Result, ok, err, invalid_token, cancellation, state_conflict,
  lease_unavailable, not_found, disappeared, lease_lost, not_owner, budget_exhausted, failed_stale,
  bad_state,
}
use data_analytics_platform.Schema.Json.{Fields}
use data_analytics_platform.Schema.Jobs.{
  JobRecord, is_pending, is_started, is_success, is_failure, is_cancelled, is_active,
  is_cancellation, is_terminal, started, success,
}
use data_analytics_platform.Jobs.Clock.{
  Clock, later, database_now, lease_clock, lease_deadline, lease_after, lease_by, remaining_seconds,
}
use data_analytics_platform.Jobs.Admission.{ensure_result_size, is_task}

unfoldable pub get : Database → String → Option JobRecord
get db task = first_where (is_task task) db.jobs

unfoldable pub owned : Database → String → ℕ → Option JobRecord
owned db task owner = first_where (λ r. is_task task r && (r.owner_id == owner)) db.jobs

-- The guard of every fenced write: the attempt still owns a live lease.
abbrev pub holds_lease : String → ℕ → JobRecord → Bool
holds_lease token clock r =
    is_started r.status
    && (opt_eq r.attempt_token (some token) && lease_after r.lease_expires_at clock)

-- The rows after `query.filter(task_id == task, guard).update(change)`, and how many it changed.
abbrev pub update_task : String → (JobRecord → Bool) → (JobRecord → JobRecord) → Database → Database
update_task task guard change db = record db {
  jobs = update_where (λ r. is_task task r && guard r) change db.jobs;
}

abbrev pub matched : String → (JobRecord → Bool) → Database → ℕ
matched task guard db = count_where (λ r. is_task task r && guard r) db.jobs

abbrev pub renewed : ℕ → ℕ → JobRecord → JobRecord
renewed deadline now r = record r { lease_expires_at = some deadline; updated_at = now }

-- `ensure_active` once the heartbeat has not matched, or with no token.
unfoldable pub inactive_result : Option String → Option JobRecord → Result JobRecord
inactive_result token none = err (state_conflict not_found)
inactive_result token (some job) =
    if not (is_none token) && not (opt_eq job.attempt_token token)
    then err (state_conflict lease_lost)
    else if is_cancellation job.status
    then err cancellation
    else if not (is_active job.status)
    then err (state_conflict (bad_state job.status))
    else if not (is_none token)
    then err (state_conflict lease_lost)
    else ok job

abbrev pub found_or {ℓ} : {A : Type ℓ} → Option JobRecord → (JobRecord → A) → A → A
found_or none f a = a
found_or (some r) f a = f r

unfoldable pub ensure_active :
    String → Option String → ℕ → Clock → Database → Result JobRecord × Database
unfolding get inactive_result
ensure_active task none seconds c db = (inactive_result none (get db task), db)
ensure_active task (some token) seconds c db =
    let now = database_now c in
    let guard = holds_lease token (lease_clock c now) in
    let db' = update_task task guard (renewed (lease_deadline c now seconds) now) db in
    let refused : Result JobRecord × Database =
      (inactive_result (some token) (get db' task), db') in
    if matched task guard db == 1
    then found_or (get db' task) (λ r. (ok r, db')) refused
    else refused

-- A waiting job, or a started one whose lease has run out, with attempts left.
abbrev pub claimable : ℕ → JobRecord → Bool
claimable clock r =
    ltb r.attempt_count r.max_attempts
    && (is_pending r.status
        || (is_started r.status
            && (is_none r.lease_expires_at || lease_by r.lease_expires_at clock)))

unfoldable pub acquired : String → ℕ → String → ℕ → ℕ → JobRecord → JobRecord
acquired token progress stage deadline now r = record r {
  status = started;
  progress = progress;
  stage = some stage;
  attempt_token = some token;
  attempt_count = r.attempt_count + 1;
  lease_expires_at = some deadline;
  started_at = some now;
  updated_at = now;
}

abbrev pub token_rejected : String → Bool
token_rejected token = (text_length token == 0) || ltb 64 (text_length token)

-- `remaining` for `JobLeaseUnavailable`, which keeps it at 1 or more.
abbrev pub retry_after : ℕ → Option ℕ → ℕ → ℕ
retry_after seconds none current = max 1 seconds
retry_after seconds (some lease) current = max 1 (remaining_seconds seconds lease current)

-- `start` when no row was acquired.
unfoldable pub start_refused : String → ℕ → ℕ → Option JobRecord → Result (JobRecord × Bool)
unfolding remaining_seconds
start_refused token seconds now none = err (state_conflict not_found)
start_refused token seconds now (some job) =
    if (is_cancellation job.status || is_terminal job.status)
      && not (opt_eq job.attempt_token (some token))
    then err (state_conflict not_owner)
    else if is_terminal job.status
    then ok (job, false)
    else if is_cancellation job.status
    then err cancellation
    else if leb job.max_attempts job.attempt_count
        && (is_pending job.status
            || (is_none job.lease_expires_at || lease_by job.lease_expires_at now))
    then err (state_conflict budget_exhausted)
    else if is_started job.status
    then err (lease_unavailable (retry_after seconds job.lease_expires_at now))
    else err (state_conflict (bad_state job.status))

unfoldable pub start_found : Option JobRecord → Result (JobRecord × Bool)
start_found none = err (state_conflict disappeared)
start_found (some job) = ok (job, true)

unfoldable pub start :
    String → String → ℕ → String → ℕ → Clock → Database → Result (JobRecord × Bool) × Database
unfolding acquired start_refused start_found get
start task token progress stage lease_seconds c db =
    let now = database_now c in
    let seconds = max 1 lease_seconds in
    let guard = claimable (lease_clock c now) in
    let db' =
      update_task task guard (acquired token progress stage (lease_deadline c now seconds) now)
        db in
    if token_rejected token
    then (err invalid_token, db)
    else if matched task guard db == 1
    then (start_found (get db' task), db')
    else (start_refused token seconds now (get db' task), db')

unfoldable pub reported : ℕ → String → ℕ → ℕ → JobRecord → JobRecord
reported progress stage deadline now r = record r {
  progress = progress;
  stage = some stage;
  lease_expires_at = some deadline;
  updated_at = now;
}

abbrev pub discard : Result JobRecord × Database → Result (Unit {0}) × Database
discard (ok _, db) = (ok tt, db)
discard (err e, db) = (err e, db)

-- 360 seconds: JOB_LEASE_SECONDS.
abbrev pub job_lease_seconds : ℕ
job_lease_seconds = 360

unfoldable pub progress :
    String → String → ℕ → String → ℕ → Clock → Database → Result (Unit {0}) × Database
unfolding reported ensure_active
progress task token percent stage seconds c db =
    let now = database_now c in
    let guard = holds_lease token (lease_clock c now) in
    let db' =
      update_task task guard (reported percent stage (lease_deadline c now seconds) now) db in
    if matched task guard db == 1
    then (ok tt, db')
    else discard (ensure_active task (some token) job_lease_seconds (later c) db')

unfoldable pub completed : Fields → ℕ → JobRecord → JobRecord
completed result now r = record r {
  status = success;
  progress = 100;
  stage = some "completed";
  result_json = some result;
  error_message = none;
  lease_expires_at = none;
  finished_at = some now;
  updated_at = now;
}

-- `succeed` when no row was completed: what the row says, or what `ensure_active` says.
unfoldable pub succeed_refused :
    String → Option JobRecord → Result Bool × Database → Database → Result Bool × Database
succeed_refused token none otherwise db = otherwise
succeed_refused token (some job) otherwise db =
    if not (opt_eq job.attempt_token (some token))
    then (err (state_conflict not_owner), db)
    else if is_success job.status
    then (ok false, db)
    else if is_cancelled job.status
    then (err cancellation, db)
    else if is_failure job.status
    then (err (state_conflict failed_stale), db)
    else otherwise

abbrev pub then_false : Result JobRecord × Database → Result Bool × Database
then_false (ok _, db) = (ok false, db)
then_false (err e, db) = (err e, db)

unfoldable pub succeed_sized : String → Fields → String → Clock → Database → Result Bool × Database
unfolding completed succeed_refused ensure_active get
succeed_sized task result token c db =
    let now = database_now c in
    let guard = holds_lease token (lease_clock c now) in
    let db' = update_task task guard (completed result now) db in
    if matched task guard db == 1
    then (ok true, db')
    else succeed_refused token (get db' task)
        (then_false (ensure_active task (some token) job_lease_seconds (later c) db')) db'

abbrev pub when_ok {ℓ} :
    {A : Type ℓ} → Result (Unit {0}) → Database → Result A × Database → Result A × Database
when_ok (ok _) db next = next
when_ok (err e) db next = (err e, db)

unfoldable pub succeed :
    Settings → (Fields → ℕ) → String → Fields → String → Clock → Database → Result Bool × Database
unfolding ensure_result_size succeed_sized
succeed s serialized_size task result token c db =
    when_ok (ensure_result_size s serialized_size result) db (succeed_sized task result token c db)
