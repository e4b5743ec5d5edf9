-- ===== src/Artifacts/Cleanup.antt =====
-- `cleanup`: the rotation over the rows that may have files to collect. Of one candidate, the
-- transaction that decides (`begin_collect`) and the transaction that closes the row
-- (`finish_collect`).
use data_analytics_platform.Base.{
  ℕ, max, min, List, map, take, filter, String, Bool, true, false, not, ◌&&◌, ◌||◌, Option, none,
  some, ◌==◌, str_eq, opt_eq, is_none, if◌then◌else◌, update_where, leb, order_by, ltb,
}
use data_analytics_platform.Schema.{Database}
use data_analytics_platform.Schema.Jobs.{JobStatus, JobRecord, started, cancellation_requested}
use data_analytics_platform.Jobs.Clock.{lease_after}
use data_analytics_platform.Jobs.Worker.{get}
use data_analytics_platform.Artifacts.Table.{
  ArtifactState, StorageArtifact, Storage, is_reserved, is_live, is_deleting, is_tombstone, has_id,
}
use data_analytics_platform.Artifacts.Writer.{Paths, find_artifact}
use data_analytics_platform.Artifacts.References.{referenced}

-- `expires_at <= now`, and NULL is not.
abbrev pub expired : ℕ → Option ℕ → Bool
expired now none = false
expired now (some t) = leb t now

-- `expires_at is not None and expires_at > now`
abbrev pub still_runs : ℕ → Option ℕ → Bool
still_runs now none = false
still_runs now (some t) = ltb now t

abbrev pub is_candidate : ℕ → StorageArtifact → Bool
is_candidate now a =
    is_tombstone a.state
    || ((is_live a.state && not (is_none a.temporary_path))
        || (not (is_none a.deletion_requested_at)
            || (is_reserved a.state && expired now a.expires_at)))

-- `nulls_first`, then the id; `earlier` is the order of the texts.
abbrev pub rotates_before : (String → String → Bool) → StorageArtifact → StorageArtifact → Bool
rotates_before earlier a b = checked_before a.checked_at b.checked_at
  where
    checked_before : Option ℕ → Option ℕ → Bool
    checked_before none none = earlier a.id b.id
    checked_before none (some t) = true
    checked_before (some s) none = false
    checked_before (some s) (some t) = ltb s t || (s == t && earlier a.id b.id)

pub record Candidate : Type 0 where
  pub id : String
  pub task_id : Option String

abbrev pub as_candidate : StorageArtifact → Candidate
as_candidate a = record { id = a.id; task_id = a.task_id }

unfoldable pub candidates : (String → String → Bool) → ℕ → ℕ → Storage → List Candidate
unfolding order_by
candidates earlier limit now st =
    take (min (max limit 1) 1000) (
      map as_candidate (order_by (rotates_before earlier) (filter (is_candidate now) st.artifacts)))

-- `if task_id:`
abbrev pub candidate_job : Database → Option String → Option JobRecord
candidate_job db none = none
candidate_job db (some task) = if str_eq task "" then none else get db task

abbrev pub may_write : JobStatus → Bool
may_write started = true
may_write cancellation_requested = true
may_write _ = false

abbrev pub live_attempt : Option JobRecord → StorageArtifact → ℕ → Bool
live_attempt none a now = false
live_attempt (some job) a now =
    may_write job.status
    && (opt_eq job.attempt_token a.attempt_token && lease_after job.lease_expires_at now)

abbrev pub auxiliaries_only : Bool → StorageArtifact → Bool
auxiliaries_only is_referenced a =
    is_live a.state && (is_referenced || is_none a.deletion_requested_at)

abbrev pub reservation_holds : ℕ → StorageArtifact → Bool
reservation_holds now a =
    is_reserved a.state && (is_none a.deletion_requested_at && still_runs now a.expires_at)

-- The files that the collector goes on to remove, and whether the row is closed after.
pub data Verdict : Type 0 where
  keep : Verdict
  auxiliaries whole : StorageArtifact → Verdict

unfoldable pub verdict : Option JobRecord → Bool → ℕ → StorageArtifact → Verdict
verdict job is_referenced now a =
    if live_attempt job a now
    then keep
    else if is_referenced && not (auxiliaries_only is_referenced a)
    then keep
    else if reservation_holds now a
    then keep
    else if auxiliaries_only is_referenced a
    then auxiliaries a
    else whole a

unfoldable pub checked : ℕ → StorageArtifact → StorageArtifact
checked now a = record a { checked_at = some now }

unfoldable pub collecting : ℕ → StorageArtifact → StorageArtifact
collecting now a = record a { checked_at = some now; state = ArtifactState.deleting }

abbrev pub change_of : Verdict → ℕ → StorageArtifact → StorageArtifact
change_of (whole _) now = collecting now
change_of _ now = checked now

abbrev pub begin_found : Paths → Option String → ℕ → Option StorageArtifact → Storage → Verdict
begin_found p task now none st = keep
begin_found p task now (some a) st =
    verdict (candidate_job st.database task) (referenced p st.catalog a.final_path) now a

-- The row's transaction, up to its commit: the verdict, and what is committed.
unfoldable pub begin_collect : Paths → Candidate → ℕ → Storage → Verdict × Storage
unfolding verdict checked collecting referenced get
begin_collect p c now st =
    let v = begin_found p c.task_id now (find_artifact c.id st) st in
    (v, record st { artifacts = update_where (has_id c.id) (change_of v now) st.artifacts })

abbrev pub closed : StorageArtifact → StorageArtifact
closed a = record a { state = ArtifactState.deleted }

-- The last transaction: a row that is still DELETING becomes DELETED.
unfoldable pub finish_collect : String → Storage → Storage
finish_collect id st = record st {
  artifacts = update_where (λ a. has_id id a && is_deleting a.state) closed st.artifacts;
}
