-- ===== src/Snapshots/Rows.antt =====
-- What `expire_history` reads and updates, in the rows of the table.
use data_analytics_platform.Base.{
  ℕ, ◌≡◌, refl, List, ◌++◌, String, Bool, false, not, ◌&&◌, Option, some, ◌==◌, str_eq, arith, inl,
  inr, Bool-cases, Option-cases, count_where, count_where_keyed, first_where, IsSingle,
}
use data_analytics_platform.Artifacts.Table.{Storage, StorageArtifact, has_path}
use data_analytics_platform.Schema.Catalog.{Dataset, DatasetSnapshot}
use data_analytics_platform.Artifacts.Writer.{Paths, schedule_delete, deletion_row, collides}
use data_analytics_platform.Snapshots.Expiry.{
  RetentionSettings, snapshot_id, contains, recent, is_kept, Candidate,
}

pub schedule_delete-catalog :
    (p : Paths) (id path : String) (owner : Option ℕ) (now : ℕ) (raced : List StorageArtifact)
    (st : Storage)
    → (schedule_delete p id path owner now raced st).catalog ≡ st.catalog
unfolding schedule_delete
schedule_delete-catalog p id path owner now raced st =
    elim (Option-cases (first_where (has_path (p.abspath path)) st.artifacts)) [
      | inr (a, e) ↦ rw e refl
      | inl e ↦
          elim (Bool-cases (
            count_where (collides (deletion_row id owner (p.abspath path) now))
              (st.artifacts ++ raced)
            == 0)) [ inl z ↦ rw e (rw z refl) | inr z ↦ rw e (rw z refl) ]
    ]

-- The rows that a candidate's id names and its dataset does not own.
unfoldable pub strays : Candidate → DatasetSnapshot → Bool
strays c m = str_eq m.id c.snapshot_id && not (m.dataset_id == c.dataset_id)

pub candidate_dataset :
    (c : Candidate) (rows : List DatasetSnapshot) (m : DatasetSnapshot)
    → IsSingle (snapshot_id c.snapshot_id) rows
    → count_where (strays c) rows ≡ 0
    → first_where (snapshot_id c.snapshot_id) rows ≡ some m
    → m.dataset_id ≡ c.dataset_id
unfolding strays
candidate_dataset c rows m u z f = ground (
  arith,
  count_where_keyed (snapshot_id c.snapshot_id) (λ x. not (x.dataset_id == c.dataset_id)) rows m u
      f,
)

pub not_recent :
    (p : Paths) (s : RetentionSettings) (st : Storage) (d : Dataset) (m : DatasetSnapshot)
    → is_kept p s st d m ≡ false
    → contains m.id (recent s.snapshot_retention_keep_last d.id st.catalog.snapshots) ≡ false
unfolding is_kept
not_recent p s st d m h = ground arith
