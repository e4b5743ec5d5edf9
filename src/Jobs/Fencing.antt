-- ===== src/Jobs/Fencing.antt =====
-- Fencing: a worker attempt that another attempt has replaced, or whose job was taken back, cannot
-- write to the job.
use data_analytics_platform.Base.{
  ℕ, ◌≡◌, ◌≢◌, String, Bool, true, false, Option, some, arith, opt_eq,
}
use data_analytics_platform.Schema.{Database, Settings, ok, err, state_conflict, lease_lost}
use data_analytics_platform.Schema.Json.{Fields}
use data_analytics_platform.Schema.Jobs.{JobRecord}
use data_analytics_platform.Jobs.Clock.{Clock, later, database_now, lease_clock, lease_deadline}
use data_analytics_platform.Jobs.Worker.{
  get, holds_lease, ensure_active, inactive_result, progress, succeed, succeed_sized,
  succeed_refused, reported, completed, renewed,
}
use data_analytics_platform.Jobs.Ending.{
  retry, fail, cancel, requeued, failed, stopped, retryable, failable, cancellable,
}
use data_analytics_platform.Jobs.Keys.{IsKeyed, unselected}

module _ (task token : String) (db : Database) (r : JobRecord) (keyed : IsKeyed db)
    (found : get db task ≡ some r) (fenced : opt_eq r.attempt_token (some token) ≡ false) where
  ensure_active-fenced :
      (seconds : ℕ) (c : Clock)
      → ensure_active task (some token) seconds c db ≡ (err (state_conflict lease_lost), db)
  unfolding ensure_active inactive_result
  ensure_active-fenced seconds c =
      let now = database_now c in
      ground (
        arith,
        found,
        unselected task (holds_lease token (lease_clock c now))
            (renewed (lease_deadline c now seconds) now) db r keyed found (ground arith),
      )

  progress-fenced :
      (percent : ℕ) (stage : String) (seconds : ℕ) (c : Clock)
      → progress task token percent stage seconds c db ≡ (err (state_conflict lease_lost), db)
  unfolding progress
  progress-fenced percent stage seconds c =
      let now = database_now c in
      ground (
        arith,
        unselected task (holds_lease token (lease_clock c now))
            (reported percent stage (lease_deadline c now seconds) now) db r keyed found
            (ground arith),
        ensure_active-fenced 360 (later c),
      )

  succeed-fenced :
      (s : Settings) (size : Fields → ℕ) (result : Fields) (c : Clock)
      → ((succeed s size task result token c db).0 ≢ ok true)
        × ((succeed s size task result token c db).1 ≡ db)
  unfolding succeed succeed_sized succeed_refused
  succeed-fenced s size result c =
      let now = database_now c in
      let p =
        unselected task (holds_lease token (lease_clock c now)) (completed result now) db r keyed
          found (ground arith) in
      (
        ground (arith, p, found, ensure_active-fenced 360 (later c)),
        ground (arith, p, found, ensure_active-fenced 360 (later c)),
      )

  retry-fenced : (message : String) (c : Clock) → retry task message token c db ≡ (ok false, db)
  unfolding retry
  retry-fenced message c =
      let now = database_now c in
      ground (
        arith,
        unselected task (retryable token (lease_clock c now)) (requeued message now) db r keyed
            found (ground arith),
      )

  fail-fenced :
      (message : String) (enforced : Bool) (before : Option ℕ) (c : Clock)
      → fail task message (some token) enforced before c db ≡ (false, db)
  unfolding fail
  fail-fenced message enforced before c =
      let now = database_now c in
      ground (
        arith,
        unselected task (failable (some token) enforced before (lease_clock c now))
            (failed message now) db r keyed found (ground arith),
      )

  cancel-fenced :
      (result : Option Fields) (enforced : Bool) (before : Option ℕ) (c : Clock)
      → cancel task result (some token) enforced before c db ≡ (false, db)
  unfolding cancel
  cancel-fenced result enforced before c =
      let now = database_now c in
      ground (
        arith,
        unselected task (cancellable (some token) enforced before (lease_clock c now))
            (stopped result now) db r keyed found (ground arith),
      )

-- A write of an attempt whose token is not the row's changes nothing in the database, whichever of
-- the six operations it is, and none of them reports success.
pub fenced_attempt :
    (s : Settings) (size : Fields → ℕ) (task token : String) (db : Database) (r : JobRecord)
    → IsKeyed db
    → get db task ≡ some r
    → opt_eq r.attempt_token (some token) ≡ false
    → (percent : ℕ) (stage message : String) (seconds : ℕ) (result : Fields) (enforced : Bool)
      (before : Option ℕ) (c : Clock)
    → (ensure_active task (some token) seconds c db ≡ (err (state_conflict lease_lost), db))
      × (progress task token percent stage seconds c db ≡ (err (state_conflict lease_lost), db))
      × ((succeed s size task result token c db).0 ≢ ok true)
      × ((succeed s size task result token c db).1 ≡ db)
      × (retry task message token c db ≡ (ok false, db))
      × (fail task message (some token) enforced before c db ≡ (false, db))
      × (cancel task (some result) (some token) enforced before c db ≡ (false, db))
fenced_attempt s size task token db r k h f percent stage message seconds result enforced before c =
    let done = succeed-fenced task token db r k h f s size result c in
    (
      ensure_active-fenced task token db r k h f seconds c,
      progress-fenced task token db r k h f percent stage seconds c,
      done.0,
      done.1,
      retry-fenced task token db r k h f message c,
      fail-fenced task token db r k h f message enforced before c,
      cancel-fenced task token db r k h f (some result) enforced before c,
    )
