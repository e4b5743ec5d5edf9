-- ===== src/Snapshots/Integrity.antt =====
-- A recorded version is verified against what was recorded.
use data_analytics_platform.Base.{
  ℕ, ◌≡◌, refl, List, [], ◌∷◌, ◌++◌, String, true, ◌&&◌, none, some, ◌==◌, str_eq, arith, inl, inr,
  Bool-cases, if◌then◌else◌, count_where, first_where, first_where_last, eq_refl,
}
use data_analytics_platform.Schema.Catalog.{DatasetSnapshot}
use data_analytics_platform.Artifacts.Writer.{Paths}
use data_analytics_platform.Snapshots.Manifests.{
  VerifiedFile, corrupt, refused, valid, fault, Reading, digest, is_manifest, new_manifest,
  conflicts, is_insertable, record_manifest, verify,
}

no_manifest :
    (a : DatasetSnapshot) (rows : List DatasetSnapshot)
    → count_where (conflicts a) rows ≡ 0
    → first_where (is_manifest a.dataset_id a.stored_path) rows ≡ none
unfolding count_where first_where
no_manifest a [] h = refl
no_manifest a (x ∷ rows) h = ground (arith, no_manifest a rows)

own_manifest : (a : DatasetSnapshot) → is_manifest a.dataset_id a.stored_path a ≡ true
own_manifest a = ground (arith, eq_refl a.stored_path)

insertable_count :
    (a : DatasetSnapshot) (rows : List DatasetSnapshot)
    → is_insertable a rows ≡ true
    → count_where (conflicts a) rows ≡ 0
insertable_count a rows h = ground arith

-- Once a version of a file is recorded, a reading of the file whose digest succeeds is verified exactly
-- where its size and its hash are the recorded ones, and is corrupt otherwise.
pub verify-record_manifest :
    (p : Paths) (id : String) (dataset : ℕ) (path : String) (version size : ℕ) (sum : String)
    (now : ℕ) (rows : List DatasetSnapshot) (r : Reading) (v : VerifiedFile)
    → (record_manifest (new_manifest p id dataset path version size sum now) rows).0
      ≡ valid (new_manifest p id dataset path version size sum now)
    → digest r ≡ valid v
    → verify p
        (record_manifest (new_manifest p id dataset path version size sum now) rows).1
        dataset
        path
        r
      ≡ (if (v.size_bytes == size) && str_eq v.sha256 sum
          then valid (v, some id)
          else fault corrupt)
unfolding record_manifest verify
verify-record_manifest p id dataset path version size sum now rows r v g h =
    elim (Bool-cases (is_insertable row rows)) [
      | inl e ↦
          let found : first_where (is_manifest dataset (p.abspath path)) (rows ++ row ∷ [])
              ≡ some row =
            first_where_last (is_manifest dataset (p.abspath path)) row rows (own_manifest row)
              (no_manifest row rows (insertable_count row rows e)) in
          rw e (rw found (rw h refl))
      | inr e ↦ let bad : (record_manifest row rows).0 ≡ fault refused = rw e refl in absurd (cc)
    ]
  where
    row : DatasetSnapshot
    row = new_manifest p id dataset path version size sum now
