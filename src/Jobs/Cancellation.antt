-- ===== src/Jobs/Cancellation.antt =====
-- Cooperative cancellation: a request stops the worker at its next checkpoint, and only the
-- cancellation can end the job after that.
use data_analytics_platform.Base.{
  ℕ, ◌≡◌, ◌<◌, ◌*◌, ◌⊎◌, ◌∙◌, inl, inr, ap, Bool-cases, ltb, refl, String, Bool, true, false,
  Option, some, arith, opt_eq,
}
use data_analytics_platform.Schema.{Database, Settings, ok, err, cancellation, result_size_exceeded}
use data_analytics_platform.Schema.Json.{Fields}
use data_analytics_platform.Schema.Jobs.{JobRecord, is_active, is_cancellation, is_terminal}
use data_analytics_platform.Jobs.Clock.{Clock, later, database_now, lease_clock, lease_deadline}
use data_analytics_platform.Jobs.Worker.{
  get, holds_lease, ensure_active, inactive_result, renewed, progress, reported, succeed,
  succeed_sized, succeed_refused, completed,
}
use data_analytics_platform.Jobs.Admission.{ensure_result_size}
use data_analytics_platform.Jobs.Ending.{
  request_cancellation, asked_to_stop, retry, retryable, requeued, fail, failable, failed,
}
use data_analytics_platform.Jobs.Keys.{IsKeyed, matched_found, unselected, get-update_task}
use data_analytics_platform.Jobs.Lifecycle.Operations.{
  request_cancellation-Evolves, Evolves-IsKeyed,
}

module _ (task token : String) (db : Database) (r : JobRecord) (keyed : IsKeyed db)
    (found : get db task ≡ some r) (stopping : is_cancellation r.status ≡ true)
    (mine : opt_eq r.attempt_token (some token) ≡ true) where
  ensure_active-stopping :
      (seconds : ℕ) (c : Clock)
      → ensure_active task (some token) seconds c db ≡ (err cancellation, db)
  unfolding ensure_active inactive_result
  ensure_active-stopping seconds c =
      let now = database_now c in
      ground (
        arith,
        found,
        unselected task (holds_lease token (lease_clock c now))
            (renewed (lease_deadline c now seconds) now) db r keyed found (ground arith),
      )

  progress-stopping :
      (percent : ℕ) (stage : String) (seconds : ℕ) (c : Clock)
      → progress task token percent stage seconds c db ≡ (err cancellation, db)
  unfolding progress
  progress-stopping percent stage seconds c =
      let now = database_now c in
      ground (
        arith,
        unselected task (holds_lease token (lease_clock c now))
            (reported percent stage (lease_deadline c now seconds) now) db r keyed found
            (ground arith),
        ensure_active-stopping 360 (later c),
      )

  succeed_sized-stopping :
      (result : Fields) (c : Clock) → succeed_sized task result token c db ≡ (err cancellation, db)
  unfolding succeed_sized succeed_refused
  succeed_sized-stopping result c =
      let now = database_now c in
      ground (
        arith,
        found,
        unselected task (holds_lease token (lease_clock c now)) (completed result now) db r keyed
            found (ground arith),
        ensure_active-stopping 360 (later c),
      )

  succeed-stopping :
      (s : Settings) (size : Fields → ℕ) (result : Fields) (c : Clock)
      → (succeed s size task result token c db ≡ (err cancellation, db))
        ⊎ ((s.max_job_result_size_mb * 1024 * 1024 < size result)
            × (succeed s size task result token c db ≡ (err result_size_exceeded, db)))
  unfolding succeed ensure_result_size
  succeed-stopping s size result c =
      elim (Bool-cases (ltb (s.max_job_result_size_mb * 1024 * 1024) (size result))) [
        | inl e ↦ inr (ground arith, rw e refl)
        | inr e ↦ inl (rw e (succeed_sized-stopping result c))
      ]

  retry-stopping : (message : String) (c : Clock) → retry task message token c db ≡ (ok false, db)
  unfolding retry
  retry-stopping message c =
      let now = database_now c in
      ground (
        arith,
        unselected task (retryable token (lease_clock c now)) (requeued message now) db r keyed
            found (ground arith),
      )

  fail-stopping :
      (message : String) (enforced : Bool) (before : Option ℕ) (c : Clock)
      → fail task message (some token) enforced before c db ≡ (false, db)
  unfolding fail
  fail-stopping message enforced before c =
      let now = database_now c in
      ground (
        arith,
        unselected task (failable (some token) enforced before (lease_clock c now))
            (failed message now) db r keyed found (ground arith),
      )

-- An accepted request leaves a row that says so, whatever copy of the row it was given: the copy may be
-- stale, but where it says that the job was to stop, the row says so too.
accepted_row :
    (c : Clock) (db : Database) (copy q : JobRecord)
    → IsKeyed db
    → get db copy.task_id ≡ some q
    → (is_cancellation copy.status ≡ true → is_cancellation q.status ≡ true)
    → (request_cancellation copy c db).0 ≡ true
    → (x : JobRecord) × (get (request_cancellation copy c db).1 copy.task_id ≡ some x)
      × (is_cancellation x.status ≡ true)
      × (x.attempt_token ≡ q.attempt_token)
unfolding request_cancellation asked_to_stop
accepted_row c db copy q k h follows accepted = elim (Bool-cases (is_cancellation copy.status)) [
  | inl e ↦ rw e (q, h, follows e, refl)
  | inr e ↦ elim (Bool-cases (is_terminal copy.status)) [
    | inl f ↦ absurd (cc (rw f at (rw e at accepted)))
    | inr f ↦
        let one = matched_found copy.task_id (λ z. is_active z.status) db q k h in
        let row =
          get-update_task copy.task_id (λ z. is_active z.status) (asked_to_stop (database_now c)) db
            q (λ s. refl) h in
        let moved = rw f at (rw e at accepted) in
        let active : is_active q.status ≡ true = ground arith in
        rw e (rw f (asked_to_stop (database_now c) q, rw active at row, refl, refl))
  ]
]

-- After an accepted request, made with any copy of the row, the worker that still owns the attempt is
-- told to stop by every checkpoint, and nothing changes: `ensure_active` and `progress` raise the
-- cancellation; `succeed` raises it too, or refuses a result above the limit before it looks at the
-- row; `retry` and `fail` answer false.
pub request_cancellation-stops_worker :
    (s : Settings) (size : Fields → ℕ) (token : String) (c : Clock) (db : Database)
    (copy q : JobRecord)
    → IsKeyed db
    → get db copy.task_id ≡ some q
    → (is_cancellation copy.status ≡ true → is_cancellation q.status ≡ true)
    → (request_cancellation copy c db).0 ≡ true
    → opt_eq q.attempt_token (some token) ≡ true
    → (percent : ℕ) (stage message : String) (seconds : ℕ) (result : Fields) (enforced : Bool)
      (before : Option ℕ) (d : Clock)
    → let db' = (request_cancellation copy c db).1 in
      (ensure_active copy.task_id (some token) seconds d db' ≡ (err cancellation, db'))
      × (progress copy.task_id token percent stage seconds d db' ≡ (err cancellation, db'))
      × ((succeed s size copy.task_id result token d db' ≡ (err cancellation, db'))
          ⊎ ((s.max_job_result_size_mb * 1024 * 1024 < size result)
              × (succeed s size copy.task_id result token d db' ≡ (err result_size_exceeded, db'))))
      × (retry copy.task_id message token d db' ≡ (ok false, db'))
      × (fail copy.task_id message (some token) enforced before d db' ≡ (false, db'))
request_cancellation-stops_worker s size token c db copy q k h follows accepted m percent stage
      message seconds result enforced before d =
    let db' = (request_cancellation copy c db).1 in
    let (x, row, stopping, same) = accepted_row c db copy q k h follows accepted in
    let mine : opt_eq x.attempt_token (some token) ≡ true =
      ap (λ o. opt_eq o (some token)) same ∙ m in
    let k' = Evolves-IsKeyed db db' (request_cancellation-Evolves copy c db) k in
    (
      ensure_active-stopping copy.task_id token db' x k' row stopping mine seconds d,
      progress-stopping copy.task_id token db' x k' row stopping mine percent stage seconds d,
      succeed-stopping copy.task_id token db' x k' row stopping mine s size result d,
      retry-stopping copy.task_id token db' x k' row stopping mine message d,
      fail-stopping copy.task_id token db' x k' row stopping mine message enforced before d,
    )
