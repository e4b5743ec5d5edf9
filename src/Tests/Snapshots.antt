-- ===== src/Tests/Snapshots.antt =====
-- The theorems on snapshots at a dataset of three versions, the oldest of which expires.
use data_analytics_platform.Base.{
  ℕ, ◌≡◌, ◌≤◌, refl, List, [], ◌∷◌, String, Bool, ◌&&◌, leb, true, false, none, some, arith, inl,
  inr, Bool-cases, str_eq, eq_iff, sym, count_where, IsSingle, str_eq, order_by, first_where,
  update_where,
}
use data_analytics_platform.Artifacts.Table.{Storage}
use data_analytics_platform.Schema.Catalog.{DatasetSnapshot}
use data_analytics_platform.Artifacts.Writer.{Paths}
use data_analytics_platform.Snapshots.Manifests.{
  VerifiedFile, FileStat, Reading, corrupt, fault, digest, new_manifest, record_manifest, verify,
}
use data_analytics_platform.Snapshots.Integrity.{verify-record_manifest}
use data_analytics_platform.Snapshots.Expiry.{
  RetentionSettings, snapshot_id, retained, Candidate, expire_history,
}
use data_analytics_platform.Snapshots.History.{expire_history-newest}

abbrev paths : Paths
paths = record {
  abspath = λ s. s;
  parent = λ s. "/data";
  name = λ s. s;
  spill_directory = λ s. s;
  spellings = λ s. s ∷ [];
}

abbrev version_of : String → String → ℕ → DatasetSnapshot
version_of id path version = new_manifest paths id 7 path version 10 "ab" version

abbrev rows : List DatasetSnapshot
rows = version_of "a" "/data/a" 1 ∷ version_of "b" "/data/b" 2 ∷ version_of "c" "/data/c" 3 ∷ []

abbrev storage : Storage
storage = record {
  database = record { users = 4 ∷ []; jobs = []; outbox = []; evaluations = [] };
  catalog = record {
    datasets =
        record {
          id = 7;
          project_id = 1;
          stored_path = "/data/c";
          status = "ready";
          row_count = none;
          column_count = none;
          profile_json = none;
          version = 3;
          deleted_at = none;
        }
        ∷ [];
    snapshots = rows;
    transformations = [];
    reports = [];
    projects = [];
    events = [];
    contracts = [];
  };
  artifacts = [];
}

abbrev retention : RetentionSettings
retention = record { snapshot_retention_days = 1; snapshot_retention_keep_last = 2 }

abbrev candidate : DatasetSnapshot → Candidate
candidate m = record {
  snapshot_id = m.id;
  dataset_id = m.dataset_id;
  owner_id = 4;
  now = 90000000000;
  later = 90000000001;
  fresh_id = m.id;
}

abbrev earlier : String → String → Bool
earlier s t = false

rows-IsSingle : (id : String) → IsSingle (snapshot_id id) rows
unfolding count_where
rows-IsSingle id = elim (Bool-cases (str_eq "a" id)) [
  | inl e ↦ rw (sym ((eq_iff "a" id).0 e)) (omega arith)
  | inr e ↦ elim (Bool-cases (str_eq "b" id)) [
    | inl f ↦ rw (sym ((eq_iff "b" id).0 f)) (omega arith)
    | inr f ↦ ground arith
  ]
]

left_over :
    count_where
      (retained 7)
      (expire_history paths retention earlier candidate 100 90000000000 storage).1.catalog.snapshots
    ≡ 2
unfolding expire_history order_by count_where first_where update_where
left_over = refl

abbrev second_newest : DatasetSnapshot
second_newest = version_of "b" "/data/b" 2

found_second : first_where (snapshot_id "b") rows ≡ some second_newest
unfolding first_where
found_second = refl

two_newest : count_where (λ x. retained 7 x && leb 2 x.version) rows ≤ 2
unfolding count_where
two_newest = omega arith

expire_history-newest_example :
    (x : DatasetSnapshot) × (first_where
        (snapshot_id "b")
        (expire_history paths retention earlier candidate 100 90000000000
          storage).1.catalog.snapshots
      ≡ some x)
    × (x.version ≡ 2)
    × (retained 7 x ≡ true)
expire_history-newest_example =
    expire_history-newest paths retention earlier candidate 100 90000000000 storage rows-IsSingle
      (λ m. refl) (λ m. refl) 7 second_newest found_second refl two_newest

abbrev stat : FileStat
stat = record { is_regular = true; size = 10; device = 1; inode = 5; modified_ns = 8 }

abbrev reading : Reading
reading = record { before = some stat; opened = some stat; sha256 = some "cd"; after = some stat }

abbrev verified : VerifiedFile
verified = record { size_bytes = 10; sha256 = "cd"; device = 1; inode = 5; modified_ns = 8 }

verify-record_manifest_example :
    verify paths (record_manifest (version_of "d" "/data/d" 4) rows).1 7 "/data/d" reading
    ≡ fault corrupt
unfolding digest record_manifest count_where
verify-record_manifest_example =
    verify-record_manifest paths "d" 7 "/data/d" 4 10 "ab" 4 rows reading verified refl refl
