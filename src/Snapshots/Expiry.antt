-- ===== src/Snapshots/Expiry.antt =====
-- `expire_history`: the candidates, and the transaction on each. Times are microseconds.
use data_analytics_platform.Base.{
  ℕ, ◌+◌, ◌-◌, ◌*◌, min, max, List, [], ◌∷◌, map, take, filter, String, Bool, true, false, not,
  ◌&&◌, ◌||◌, Option, none, some, ◌==◌, str_eq, if◌then◌else◌, count_where, first_where,
  update_where, order_by, leb, ltb,
}
use data_analytics_platform.Schema.{Database, Result, ok, err, no_result}
use data_analytics_platform.Schema.Jobs.{JobRecord, is_capacity}
use data_analytics_platform.Jobs.Admission.{lock_owner}
use data_analytics_platform.Jobs.Clock.{second}
use data_analytics_platform.Artifacts.Table.{Storage}
use data_analytics_platform.Schema.Catalog.{Dataset, DatasetSnapshot}
use data_analytics_platform.Artifacts.Writer.{Paths, schedule_delete}
use data_analytics_platform.Snapshots.Manifests.{is_available}

pub record RetentionSettings : Type 0 where
  pub snapshot_retention_days : ℕ
  pub snapshot_retention_keep_last : ℕ

abbrev pub snapshot_id : String → DatasetSnapshot → Bool
snapshot_id id m = str_eq m.id id

abbrev pub retained : ℕ → DatasetSnapshot → Bool
retained dataset m = (m.dataset_id == dataset) && is_available m

-- `ORDER BY version DESC`
abbrev pub newer : DatasetSnapshot → DatasetSnapshot → Bool
newer a b = ltb b.version a.version

abbrev pub id_of : DatasetSnapshot → String
id_of m = m.id

abbrev pub contains : String → List String → Bool
contains s [] = false
contains s (t ∷ ts) = str_eq t s || contains s ts

unfoldable pub recent : ℕ → ℕ → List DatasetSnapshot → List String
unfolding order_by
recent keep dataset rows = map id_of (take keep (order_by newer (filter (retained dataset) rows)))

abbrev pub works_on : ℕ → JobRecord → Bool
works_on dataset r = is_dataset r.dataset_id && is_capacity r.status
  where
    is_dataset : Option ℕ → Bool
    is_dataset none = false
    is_dataset (some d) = d == dataset

abbrev pub in_flight : ℕ → Database → Bool
in_flight dataset db = leb 1 (count_where (works_on dataset) db.jobs)

-- What keeps a snapshot.
unfoldable pub is_kept : Paths → RetentionSettings → Storage → Dataset → DatasetSnapshot → Bool
unfolding recent
is_kept p s st d m =
    not (is_available m)
    || (m.pinned
        || (contains m.id (recent s.snapshot_retention_keep_last d.id st.catalog.snapshots)
            || (in_flight d.id st.database || str_eq m.stored_path (p.abspath d.stored_path))))

unfoldable pub seen_at : ℕ → DatasetSnapshot → DatasetSnapshot
seen_at now m = record m { retention_checked_at = some now }

unfoldable pub expired_at : ℕ → ℕ → DatasetSnapshot → DatasetSnapshot
expired_at now later m = record m {
  availability = "EXPIRED";
  expired_at = some later;
  retention_checked_at = some now;
}

abbrev pub set_snapshot : String → (DatasetSnapshot → DatasetSnapshot) → Storage → Storage
set_snapshot id f st = record st {
  catalog = record st.catalog { snapshots = update_where (snapshot_id id) f st.catalog.snapshots };
}

-- A candidate of the query, the clock's readings for it, and the id of a row that asks for deletion.
pub record Candidate : Type 0 where
  pub snapshot_id : String
  pub dataset_id : ℕ
  pub owner_id : ℕ
  pub now : ℕ
  pub later : ℕ
  pub fresh_id : String

abbrev pub expire_found :
    Paths
    → RetentionSettings
    → Candidate
    → Option Dataset
    → Option DatasetSnapshot
    → Storage
    → Result Bool × Storage
expire_found p s c none m st = (err no_result, st)
expire_found p s c (some d) none st = (err no_result, st)
expire_found p s c (some d) (some m) st =
    if is_kept p s st d m then (ok false, set_snapshot c.snapshot_id (seen_at c.now) st) else (
      ok true,
      schedule_delete p c.fresh_id m.stored_path (some c.owner_id) c.later []
          (set_snapshot c.snapshot_id (expired_at c.now c.later) st),
    )

abbrev pub after_lock : Result (Unit {0}) → Result Bool × Storage → Storage → Result Bool × Storage
after_lock (ok u) r st = r
after_lock (err e) r st = (err e, st)

unfoldable pub expire : Paths → RetentionSettings → Candidate → Storage → Result Bool × Storage
unfolding lock_owner is_kept seen_at expired_at schedule_delete
expire p s c st =
    after_lock (lock_owner st.database c.owner_id)
      (expire_found p s c (first_where (λ d. d.id == c.dataset_id) st.catalog.datasets)
        (first_where (snapshot_id c.snapshot_id) st.catalog.snapshots) st)
      st

abbrev pub counted : Bool → ℕ → ℕ
counted true n = n + 1
counted false n = n

abbrev pub go_on :
    Result Bool × Storage → ℕ → (ℕ → Storage → Result ℕ × Storage) → Result ℕ × Storage
go_on (ok b, st) n rest = rest (counted b n) st
go_on (err e, st) n rest = (err e, st)

unfoldable pub expire_each :
    Paths → RetentionSettings → List Candidate → ℕ → Storage → Result ℕ × Storage
unfolding expire
expire_each p s [] n st = (ok n, st)
expire_each p s (c ∷ cs) n st = go_on (expire p s c st) n (expire_each p s cs)

abbrev pub is_expirable : ℕ → DatasetSnapshot → Bool
is_expirable cutoff m = is_available m && (not m.pinned && ltb m.created_at cutoff)

-- The order of the rotation: the time of the last check with NULL first, the creation, the id.
abbrev pub rotates_before : (String → String → Bool) → DatasetSnapshot → DatasetSnapshot → Bool
rotates_before earlier a b = by_check a.retention_checked_at b.retention_checked_at
  where
    by_age : Bool
    by_age = ltb a.created_at b.created_at || ((a.created_at == b.created_at) && earlier a.id b.id)

    by_check : Option ℕ → Option ℕ → Bool
    by_check none none = by_age
    by_check none (some t) = true
    by_check (some s) none = false
    by_check (some s) (some t) = ltb s t || ((s == t) && by_age)

abbrev pub enabled : Result ℕ × Storage → Result (ℕ × Bool) × Storage
enabled (ok n, st) = (ok (n, true), st)
enabled (err e, st) = (err e, st)

-- `candidate` joins a row with its dataset's owner and gives it the readings of the clock.
unfoldable pub expire_history :
    Paths
    → RetentionSettings
    → (String → String → Bool)
    → (DatasetSnapshot → Candidate)
    → ℕ
    → ℕ
    → Storage
    → Result (ℕ × Bool) × Storage
unfolding expire_each order_by
expire_history p s earlier candidate limit now st =
    if s.snapshot_retention_days == 0
    then (ok (0, false), st)
    else enabled (
        expire_each p s
          (map candidate (
            take (min (max limit 1) 1000) (
              order_by (rotates_before earlier) (
                filter (is_expirable (now - s.snapshot_retention_days * 86400 * second))
                  st.catalog.snapshots))))
          0 st)
