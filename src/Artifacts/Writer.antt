-- ===== src/Artifacts/Writer.antt =====
-- `reserve`, `publish`, `schedule_delete`, `abandon_attempt` and `managed_paths`.
use data_analytics_platform.Base.{
  ℕ, ◌+◌, ◌*◌, max, List, [], ◌∷◌, ◌++◌, String, Bool, false, not, ◌&&◌, ◌||◌, Option, none, some,
  ◌==◌, str_eq, opt_eq, if◌then◌else◌, count_where, update_where, first_where,
}
use data_analytics_platform.Schema.{
  Database, Result, ok, err, invalid_paths, integrity_error, state_conflict, lease_required,
  writer_lost, reservation_gone, not_publishable,
}
use data_analytics_platform.Schema.Jobs.{JobRecord, is_started}
use data_analytics_platform.Jobs.Clock.{second, lease_after}
use data_analytics_platform.Jobs.Worker.{get}
use data_analytics_platform.Artifacts.Table.{
  ArtifactState, StorageArtifact, Storage, is_reserved, has_id, has_path,
}

-- The path functions of `os.path` and `pathlib` that the code calls.
pub record Paths : Type 0 where
  pub abspath : String → String
  pub parent : String → String
  pub name : String → String
  pub spill_directory : String → String
  pub spellings : String → List String

-- The job is in the hands of this owner's attempt, under a live lease.
abbrev pub runs_attempt : ℕ → String → ℕ → JobRecord → Bool
runs_attempt owner token now job =
    (job.owner_id == owner)
    && (is_started job.status
        && (opt_eq job.attempt_token (some token) && lease_after job.lease_expires_at now))

abbrev pub job_runs : ℕ → String → ℕ → Option JobRecord → Bool
job_runs owner token now none = false
job_runs owner token now (some job) = runs_attempt owner token now job

-- What a caller of `reserve` gives; `id` is `uuid4().hex`.
pub record Reservation : Type 0 where
  pub id : String
  pub owner_id : ℕ
  pub task_id : String
  pub attempt_token : String
  pub final_path : String
  pub temporary_path : String
  pub lease_seconds : ℕ

abbrev pub reserved_row : Paths → Reservation → ℕ → StorageArtifact
reserved_row p q now = record {
  id = q.id;
  owner_id = some q.owner_id;
  task_id = some q.task_id;
  attempt_token = some q.attempt_token;
  final_path = p.abspath q.final_path;
  temporary_path = some (p.abspath q.temporary_path);
  state = ArtifactState.reserved;
  expires_at = some (now + max 900 q.lease_seconds * second);
  deletion_requested_at = none;
  checked_at = none;
  created_at = now;
}

-- Two NULLs do not collide.
abbrev pub same_temporary : Option String → Option String → Bool
same_temporary (some s) (some t) = str_eq s t
same_temporary _ _ = false

-- The table's unique columns refuse the row.
abbrev pub collides : StorageArtifact → StorageArtifact → Bool
collides a b =
    str_eq a.id b.id
    || (str_eq a.final_path b.final_path || same_temporary a.temporary_path b.temporary_path)

abbrev pub insert_artifact : StorageArtifact → Storage → Result StorageArtifact × Storage
insert_artifact a st =
    if count_where (collides a) st.artifacts == 0
    then (ok a, record st { artifacts = st.artifacts ++ a ∷ [] })
    else (err integrity_error, st)

unfoldable pub reserve : Paths → Reservation → ℕ → Storage → Result StorageArtifact × Storage
unfolding get
reserve p q now st =
    if str_eq (p.abspath q.final_path) (p.abspath q.temporary_path)
    then (err invalid_paths, st)
    else if not (str_eq (p.parent (p.abspath q.final_path)) (p.parent (p.abspath q.temporary_path)))
    then (err invalid_paths, st)
    else if not (job_runs q.owner_id q.attempt_token now (get st.database q.task_id))
    then (err (state_conflict lease_required), st)
    else insert_artifact (reserved_row p q now) st

abbrev pub find_artifact : String → Storage → Option StorageArtifact
find_artifact id st = first_where (has_id id) st.artifacts

-- `JobRecord.task_id == None` selects no row.
abbrev pub job_of : Database → Option String → Option JobRecord
job_of db none = none
job_of db (some task) = get db task

abbrev pub owner_runs : Option ℕ → String → ℕ → Option JobRecord → Bool
owner_runs none token now job = false
owner_runs (some owner) token now job = job_runs owner token now job

unfoldable pub published : StorageArtifact → StorageArtifact
published a = record a { state = ArtifactState.live; expires_at = none }

abbrev pub publish_found :
    String → String → ℕ → Option StorageArtifact → Storage → Result StorageArtifact × Storage
publish_found id token now none st = (err (state_conflict reservation_gone), st)
publish_found id token now (some a) st =
    if not (owner_runs a.owner_id token now (job_of st.database a.task_id))
    then (err (state_conflict writer_lost), st)
    else if not (is_reserved a.state) || not (opt_eq a.attempt_token (some token))
    then (err (state_conflict not_publishable), st)
    else (
      ok (published a),
      record st { artifacts = update_where (has_id id) published st.artifacts },
    )

unfoldable pub publish : String → String → ℕ → Storage → Result StorageArtifact × Storage
unfolding published get
publish id token now st = publish_found id token now (find_artifact id st) st

abbrev pub deletion_row : String → Option ℕ → String → ℕ → StorageArtifact
deletion_row id owner path now = record {
  id = id;
  owner_id = owner;
  task_id = none;
  attempt_token = none;
  final_path = path;
  temporary_path = none;
  state = ArtifactState.reserved;
  expires_at = some now;
  deletion_requested_at = some now;
  checked_at = none;
  created_at = now;
}

unfoldable pub requested : ℕ → StorageArtifact → StorageArtifact
requested now a = record a { deletion_requested_at = some now }

-- Ids are fresh, so the row that an insertion collides with is one of the path.
abbrev pub insert_deletion : Result StorageArtifact × Storage → String → ℕ → Storage
insert_deletion (ok _, st) path now = st
insert_deletion (err _, st) path now = record st {
  artifacts = update_where (has_path path) (requested now) st.artifacts;
}

abbrev pub schedule_found :
    Option StorageArtifact → StorageArtifact → String → ℕ → List StorageArtifact → Storage → Storage
schedule_found none row path now raced st =
    insert_deletion (insert_artifact row (record st { artifacts = st.artifacts ++ raced })) path now
schedule_found (some a) row path now raced st = record st {
  artifacts = update_where (has_path path) (requested now) st.artifacts;
}

-- `raced` holds the rows that other sessions commit between the query and the insertion.
unfoldable pub schedule_delete :
    Paths → String → String → Option ℕ → ℕ → List StorageArtifact → Storage → Storage
unfolding requested
schedule_delete p id path owner now raced st =
    schedule_found (first_where (has_path (p.abspath path)) st.artifacts)
      (deletion_row id owner (p.abspath path) now) (p.abspath path) now raced st

abbrev pub in_reservation : String → String → StorageArtifact → Bool
in_reservation task token a =
    opt_eq a.task_id (some task) && (opt_eq a.attempt_token (some token) && is_reserved a.state)

unfoldable pub abandon_attempt : String → String → ℕ → Storage → ℕ × Storage
unfolding requested
abandon_attempt task token now st = (
  count_where (in_reservation task token) st.artifacts,
  record st { artifacts = update_where (in_reservation task token) (requested now) st.artifacts },
)

abbrev pub auxiliary_paths : Paths → Option String → List String
auxiliary_paths p none = []
auxiliary_paths p (some t) = if str_eq t "" then [] else t ∷ p.spill_directory t ∷ []

abbrev pub paths_of : Paths → StorageArtifact → List String
paths_of p a = a.final_path ∷ auxiliary_paths p a.temporary_path

unfoldable pub managed_paths : Paths → List StorageArtifact → List String
managed_paths p [] = []
managed_paths p (a ∷ rest) = paths_of p a ++ managed_paths p rest
