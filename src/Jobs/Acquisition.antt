-- ===== src/Jobs/Acquisition.antt =====
-- `start`: who gets a job, and what everybody else is told.
use data_analytics_platform.Base.{
  ℕ, ◌+◌, ◌*◌, ◌≡◌, ◌≤◌, ◌<◌, ◌⊎◌, inl, inr, refl, String, true, false, none, some, arith, ap, max,
  ◌∙◌, Bool-cases, Option-cases,
}
use native.Mathlib.Decide.{dec_le}
use data_analytics_platform.Schema.{Database, ok, err, lease_unavailable, state_conflict, not_found}
use data_analytics_platform.Schema.Jobs.{JobRecord, is_pending, is_started}
use data_analytics_platform.Jobs.Clock.{
  Clock, database_now, lease_clock, lease_deadline, remaining_seconds, second,
}
use data_analytics_platform.Jobs.Worker.{
  get, start, start_refused, acquired, claimable, token_rejected, retry_after,
}
use data_analytics_platform.Jobs.Keys.{
  IsKeyed, unmatched, matched_found, matched_absent, get-update_task,
}

module _ (task token : String) (percent : ℕ) (stage : String) (seconds : ℕ) (c : Clock)
    (accepted : token_rejected token ≡ false) where
  -- The row that a successful call leaves.
  abbrev pub taken : JobRecord → JobRecord
  taken r =
      acquired token percent stage (lease_deadline c (database_now c) (max 1 seconds))
        (database_now c) r

  abbrev pub test_clock : ℕ
  test_clock = lease_clock c (database_now c)

  -- A row that passes the guard goes to the caller.
  start-acquired :
      (db : Database) (r : JobRecord)
      → IsKeyed db
      → get db task ≡ some r
      → claimable test_clock r ≡ true
      → let (result, db') = start task token percent stage seconds c db in
        (result ≡ ok (taken r, true)) × (get db' task ≡ some (taken r))
  unfolding start acquired
  start-acquired db r k h g = ground (
    arith,
    matched_found task (claimable test_clock) db r k h,
    get-update_task task (claimable test_clock) taken db r (λ s. refl) h,
  )

  claimable_row :
      (r : JobRecord)
      → r.attempt_count < r.max_attempts
      → (is_pending r.status ≡ true)
        ⊎ ((is_started r.status ≡ true)
            × ((t : ℕ) × (r.lease_expires_at ≡ some t) × (t ≤ test_clock)))
      → claimable test_clock r ≡ true
  claimable_row r left (inl waits) = ground arith
  claimable_row r left (inr (st, (t, l, past))) = ground arith

  -- With an acceptable token: a waiting job, or a started one whose lease has run out, that has
  -- attempts left goes to the caller. The caller gets the row as it now stands in the table: started,
  -- under the caller's token, with one attempt more and a lease of the length asked for from the time
  -- of the update, for the same owner and out of the same budget.
  pub start-acquires :
      (db : Database) (r : JobRecord)
      → IsKeyed db
      → get db task ≡ some r
      → r.attempt_count < r.max_attempts
      → (is_pending r.status ≡ true)
        ⊎ ((is_started r.status ≡ true)
            × ((t : ℕ) × (r.lease_expires_at ≡ some t) × (t ≤ test_clock)))
      → (j : JobRecord) × ((start task token percent stage seconds c db).0 ≡ ok (j, true))
        × (get (start task token percent stage seconds c db).1 task ≡ some j)
        × (is_started j.status ≡ true)
        × (j.attempt_token ≡ some token)
        × (j.attempt_count ≡ r.attempt_count + 1)
        × (j.lease_expires_at ≡ some (lease_clock c (database_now c) + max 1 seconds * second))
        × (j.owner_id ≡ r.owner_id)
        × (j.max_attempts ≡ r.max_attempts)
  unfolding acquired lease_deadline
  start-acquires db r k h left free =
      let (result, row) = start-acquired db r k h (claimable_row r left free) in
      let same : max 1 (max 1 seconds) ≡ max 1 seconds = omega arith in
      let one_lease = ap (λ (n : ℕ). some (lease_clock c (database_now c) + n * second)) same in
      (taken r, result, row, refl, refl, refl, one_lease, refl, refl)

  -- Any other call leaves the database as it was.
  pub start-refuses :
      (db : Database) (r : JobRecord)
      → IsKeyed db
      → get db task ≡ some r
      → claimable test_clock r ≡ false
      → start task token percent stage seconds c db
        ≡ (start_refused token (max 1 seconds) (database_now c) (some r), db)
  unfolding start acquired
  start-refuses db r k h g = ground (
    arith,
    matched_found task (claimable test_clock) db r k h,
    unmatched task (claimable test_clock) taken db k,
  )

  pub start-absent :
      (db : Database)
      → IsKeyed db
      → get db task ≡ none
      → start task token percent stage seconds c db ≡ (err (state_conflict not_found), db)
  unfolding start acquired start_refused
  start-absent db k h = ground (
    arith,
    matched_absent task (claimable test_clock) db h,
    unmatched task (claimable test_clock) taken db k,
  )

  -- With an acceptable token, a started job whose lease is live is refused to every caller, and
  -- nothing changes. The `retry_after_seconds` of the refusal is from 1 to the lease length asked for,
  -- and unless it was cut to that length, the lease has run out when the caller comes back then.
  pub start-live_lease :
      (db : Database) (r : JobRecord) (t : ℕ)
      → IsKeyed db
      → get db task ≡ some r
      → is_started r.status ≡ true
      → r.lease_expires_at ≡ some t
      → test_clock < t
      → database_now c ≤ test_clock
      → (n : ℕ) × (start task token percent stage seconds c db ≡ (err (lease_unavailable n), db))
        × (1 ≤ n)
        × (n ≤ max 1 seconds)
        × ((n ≡ max 1 seconds) ⊎ (t ≤ database_now c + n * second))
  unfolding start_refused remaining_seconds
  start-live_lease db r t k h st l live order = (
    retry_after (max 1 seconds) (some t) (database_now c),
    start-refuses db r k h (ground arith) ∙ ground arith,
    omega arith,
    omega arith,
    elim (dec_le t
        (database_now c + retry_after (max 1 seconds) (some t) (database_now c) * second)) [
          | yes p ↦ inr p
          | no p ↦ inl (omega arith)
        ],
  )

  -- With an acceptable token, a call that hands the job over found a row that could be claimed, and
  -- returns that row as it left it in the table, with the caller's token and one attempt more.
  pub start-true :
      (db : Database) (j : JobRecord)
      → IsKeyed db
      → (start task token percent stage seconds c db).0 ≡ ok (j, true)
      → (r : JobRecord) × (get db task ≡ some r)
        × (claimable test_clock r ≡ true)
        × (j ≡ taken r)
        × (get (start task token percent stage seconds c db).1 task ≡ some j)
  unfolding start_refused acquired
  start-true db j k h = elim (Option-cases (get db task)) [
    | inl e ↦ absurd (ground (arith, start-absent db k e))
    | inr (r, e) ↦ elim (Bool-cases (claimable test_clock r)) [
      | inl g ↦
          let (result, row) = start-acquired db r k e g in
          let same : j ≡ taken r = ground arith in (r, e, g, same, rw same row)
      | inr g ↦ absurd (ground (arith, start-refuses db r k e g))
    ]
  ]
