-- ===== src/Tests/Storage.antt =====
-- The theorems on artifacts at one storage: a disk that is the list of the paths on it.
use data_analytics_platform.Base.{
  ℕ, ◌≡◌, ◌⊎◌, refl, sym, ap, ◌∙◌, String, true, false, not, ◌||◌, none, some, List, [], ◌∷◌,
  filter, str_eq, eq_iff, inl, inr, Bool-cases, first_where, count_where,
}
use data_analytics_platform.Jobs.Worker.{get}
use data_analytics_platform.Schema.{ok}
use data_analytics_platform.Artifacts.Table.{ArtifactState, StorageArtifact, Storage}
use data_analytics_platform.Artifacts.Writer.{
  Paths, Reservation, reserve, reserved_row, publish, find_artifact, job_runs,
}
use data_analytics_platform.Artifacts.References.{in_paths, referenced}
use data_analytics_platform.Artifacts.Cleanup.{
  Candidate, begin_collect, verdict, whole, checked, candidate_job,
}
use data_analytics_platform.Artifacts.Files.{FileSystem, Sweep, collect}
use data_analytics_platform.Artifacts.History.{
  StorageCall, apply_all, IsRefused, begin_collect-final, publishing, scheduling, finishing,
}
use data_analytics_platform.Artifacts.Publication.{publish-reserve}
use data_analytics_platform.Artifacts.Safety.{Spares, IsApart, protected, collect-protected}
use data_analytics_platform.Artifacts.Collection.{IsClosed, IsLeft, collect-whole}
use data_analytics_platform.Tests.{running_job, with_job}

abbrev remove : String → List String → List String
remove path d = filter (λ x. not (str_eq x path)) d

abbrev list_disk : FileSystem (List String)
list_disk = record {
  exists = in_paths;
  is_symlink = λ path d. false;
  unlink = λ path d. (false, remove path d);
  sync_directory = λ path d. false;
  rmtree = λ path d. (false, remove path d);
}

abbrev paths : Paths
paths = record {
  abspath = λ s. s;
  parent = λ s. "/data";
  name = λ s. s;
  spill_directory = λ s. "/data/.w.spill";
  spellings = λ s. s ∷ [];
}

str_eq_sym : (s t : String) → str_eq s t ≡ true → str_eq t s ≡ true
str_eq_sym s t h = (eq_iff t s).1 (sym ((eq_iff s t).0 h))

in_paths-remove_other :
    (path other : String)
    → str_eq path other ≡ false
    → (d : List String) → in_paths path (remove other d) ≡ in_paths path d
in_paths-remove_other path other h [] = refl
in_paths-remove_other path other h (x ∷ d) = elim (Bool-cases (str_eq x other)) [
  | inl e ↦
      let miss : str_eq path x ≡ false = ap (str_eq path) ((eq_iff x other).0 e) ∙ h in
      rw e (rw miss (in_paths-remove_other path other h d))
  | inr e ↦ rw e (ap (λ b. str_eq path x || b) (in_paths-remove_other path other h d))
]

in_paths-remove : (path : String) (d : List String) → in_paths path (remove path d) ≡ false
in_paths-remove path [] = refl
in_paths-remove path (x ∷ d) = elim (Bool-cases (str_eq x path)) [
  | inl e ↦ rw e (in_paths-remove path d)
  | inr e ↦ elim (Bool-cases (str_eq path x)) [
    | inl f ↦ let g = str_eq_sym path x f in absurd (cc)
    | inr f ↦ rw e (rw f (in_paths-remove path d))
  ]
]

spares : (path other : String) → str_eq path other ≡ false → Spares list_disk paths path other
spares path other h d = (in_paths-remove_other path other h d, in_paths-remove_other path other h d)

apart : IsApart list_disk paths "/data/a" (some "/data/w")
apart = (spares "/data/a" "/data/w" refl, spares "/data/a" "/data/.w.spill" refl)

abbrev reservation : Reservation
reservation = record {
  id = "a1";
  owner_id = 7;
  task_id = "import-1";
  attempt_token = "worker-a";
  final_path = "/data/a";
  temporary_path = "/data/w";
  lease_seconds = 60;
}

abbrev artifact : StorageArtifact
artifact = reserved_row paths reservation 30

abbrev storage_of : List StorageArtifact → Storage
storage_of rows = record {
  database = with_job running_job;
  catalog = record {
    projects = [];
    datasets = [];
    snapshots = [];
    transformations = [];
    reports = [];
    events = [];
    contracts = [];
  };
  artifacts = rows;
}

granted_a : (reserve paths reservation 30 (storage_of [])).0 ≡ ok artifact
unfolding reserve get first_where count_where
granted_a = refl

still_runs_job : job_runs 7 "worker-a" 50 (get (with_job running_job) "import-1") ≡ true
unfolding get first_where
still_runs_job = refl

publish-reserve_example :
    (b : StorageArtifact) × ((publish "a1" "worker-a" 50
        (reserve paths reservation 30 (storage_of [])).1).0
      ≡ ok b)
    × (find_artifact "a1"
          (publish "a1" "worker-a" 50 (reserve paths reservation 30 (storage_of [])).1).1
        ≡ some b)
    × (b.state ≡ ArtifactState.live)
    × (b.expires_at ≡ none)
    × (b.deletion_requested_at ≡ none)
    × (b.owner_id ≡ some reservation.owner_id)
    × (b.task_id ≡ some reservation.task_id)
    × (b.attempt_token ≡ some reservation.attempt_token)
    × (b.final_path ≡ paths.abspath reservation.final_path)
publish-reserve_example =
    publish-reserve paths reservation 30 50 (storage_of []) artifact granted_a still_runs_job

abbrev candidate : Candidate
candidate = record { id = "a1"; task_id = some "import-1" }

-- While the lease runs the collector keeps away, and after it has lapsed it collects.
abbrev early : ℕ
early = 40

abbrev late : ℕ
late = 1000000000

abbrev sweep : Sweep (List String)
sweep = record {
  storage = storage_of (artifact ∷ []);
  disk = "/data" ∷ "/data/a" ∷ "/data/w" ∷ [];
  removed = [];
  rechecked = 0;
  errors = 0;
}

found_artifact : find_artifact "a1" sweep.storage ≡ some artifact
unfolding first_where
found_artifact = refl

-- The job is in the hands of the artifact's attempt.
protected-early :
    protected
      (candidate_job sweep.storage.database (some "import-1"))
      (referenced paths sweep.storage.catalog "/data/a")
      early
      artifact
    ≡ true
unfolding get first_where
protected-early = refl

collect-protected_example :
    (in_paths "/data/a" (collect list_disk paths early candidate sweep).disk
      ≡ in_paths "/data/a" sweep.disk)
    × (find_artifact "a1" (collect list_disk paths early candidate sweep).storage
        ≡ some (checked early artifact))
collect-protected_example =
    collect-protected list_disk paths early candidate sweep artifact found_artifact protected-early
      apart

decided_late : (begin_collect paths candidate late sweep.storage).0 ≡ whole artifact
unfolding begin_collect verdict first_where count_where
decided_late = refl

verdict-late :
    verdict
      (candidate_job sweep.storage.database (some "import-1"))
      (referenced paths sweep.storage.catalog "/data/a")
      late
      artifact
    ≡ whole artifact
unfolding verdict referenced get first_where count_where
verdict-late = refl

abbrev afterwards : List StorageCall
afterwards =
    finishing "a1" ∷ publishing "a1" "worker-a" 60 ∷ scheduling "a2" "/data/a" none 70 [] ∷ []

begin_collect-final_example :
    let st = apply_all paths afterwards (begin_collect paths candidate late sweep.storage).1 in
    IsRefused (publish "a1" "worker-a" 80 st) st
begin_collect-final_example =
    begin_collect-final paths candidate late sweep.storage artifact decided_late afterwards
      "worker-a" 80

collect-whole_example :
    IsClosed list_disk paths late candidate artifact sweep
      (collect list_disk paths late candidate sweep)
    ⊎ IsLeft list_disk paths late candidate artifact sweep
        (collect list_disk paths late candidate sweep)
collect-whole_example =
    collect-whole list_disk paths late candidate sweep artifact found_artifact verdict-late
      (λ d h. in_paths-remove "/data/a" d) apart
