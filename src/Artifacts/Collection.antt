-- ===== src/Artifacts/Collection.antt =====
-- The end of a collection: the published file is gone and the row is closed, or OSError leaves the
-- row DELETING for the next rotation.
use data_analytics_platform.Base.{
  ℕ, ◌+◌, ◌≡◌, ◌⊎◌, refl, ap, ◌∙◌, List, [], ◌∷◌, String, Bool, true, false, ◌&&◌, Option, none,
  some, str_eq, inl, inr, Bool-cases, update_where, first_where-update_key, first_where-update,
}
use data_analytics_platform.Artifacts.Table.{StorageArtifact, Storage, is_deleting, has_id}
use data_analytics_platform.Artifacts.Writer.{Paths, find_artifact}
use data_analytics_platform.Artifacts.References.{referenced}
use data_analytics_platform.Artifacts.Cleanup.{
  whole, Candidate, candidate_job, verdict, begin_collect, begin_found, finish_collect, collecting,
  closed,
}
use data_analytics_platform.Artifacts.Files.{
  FileSystem, Removal, Sweep, delete, delete_paths, delete_spill, remove_files, collect,
  collect_begun, if_done, noted, after_temporary, present, temporary_of,
}
use data_analytics_platform.Artifacts.Safety.{IsApart, auxiliaries-Spares}

module _ {ℓ} {Disk : Type ℓ} (fs : FileSystem Disk) (p : Paths) where
  -- `unlink` of the path that returns leaves no file there.
  abbrev pub Unlinks : String → Type ℓ
  Unlinks path =
      (d : Disk) → (fs.unlink path d).0 ≡ false → fs.exists path (fs.unlink path d).1 ≡ false

  deleted_absent :
      (path : String) (existed : Bool) (x : Bool × Disk) (names : List String)
      → (x.0 ≡ false → fs.exists path x.1 ≡ false)
      → (noted fs p existed path (if_done fs p x path) names).failed ≡ false
      → fs.exists path (noted fs p existed path (if_done fs p x path) names).disk ≡ false
  deleted_absent path existed (true, d) names k h = absurd (cc)
  deleted_absent path existed (false, d) names k h =
      elim (Bool-cases (fs.exists (p.parent path) d && fs.sync_directory (p.parent path) d)) [
        | inl e ↦ rw e (k refl)
        | inr e ↦ rw e (k refl)
      ]

  delete_paths-failed :
      (paths : List String) (r : Removal Disk) → r.failed ≡ true → delete_paths fs p paths r ≡ r
  unfolding delete_paths
  delete_paths-failed [] r h = refl
  delete_paths-failed (path ∷ paths) r h = rw h refl

  after_temporary-failed :
      (temporary : Option String) (r : Removal Disk)
      → r.failed ≡ true
      → after_temporary fs p temporary r ≡ r
  unfolding delete_spill
  after_temporary-failed none r h = refl
  after_temporary-failed (some t) r h = elim (Bool-cases (str_eq t "")) [
    | inl e ↦ rw e refl
    | inr e ↦ rw e (rw h refl)
  ]

  remove_files-whole :
      (a : StorageArtifact) (d : Disk) (names : List String)
      → Unlinks a.final_path
      → IsApart fs p a.final_path a.temporary_path
      → (remove_files fs p (whole a) (record { disk = d; removed = names; failed = false })).failed
        ≡ false
      → fs.exists a.final_path
          (remove_files fs p (whole a) (record { disk = d; removed = names; failed = false })).disk
        ≡ false
  unfolding remove_files delete_paths delete
  remove_files-whole a d names u k h =
      let r : Removal Disk =
        noted fs p (present fs p a.final_path d) a.final_path (delete fs p a.final_path d) names in
      elim (Bool-cases r.failed) [
        | inl e ↦
            let same =
              ap (after_temporary fs p a.temporary_path)
                (delete_paths-failed (temporary_of fs p a.temporary_path) r e)
              ∙ after_temporary-failed a.temporary_path r e in
            let stuck = ap (λ (x : Removal Disk). x.failed) same ∙ e in absurd (cc)
        | inr e ↦
            auxiliaries-Spares fs p a.final_path a.temporary_path r k
            ∙ deleted_absent a.final_path (present fs p a.final_path d) (fs.unlink a.final_path d)
                names (u d) e
      ]

  finish_whole :
      (now : ℕ) (id : String) (st : Storage) (a : StorageArtifact)
      → find_artifact id st ≡ some (collecting now a)
      → find_artifact id (finish_collect id st) ≡ some (closed (collecting now a))
  unfolding finish_collect collecting
  finish_whole now id st a e =
      first_where-update (has_id id) (λ x. is_deleting x.state) closed st.artifacts (λ x m. m)
        (collecting now a) e

  -- What has become of the candidate, the disk and the count of errors.
  abbrev pub IsClosed : ℕ → Candidate → StorageArtifact → Sweep Disk → Sweep Disk → Type 0
  IsClosed now c a s after =
      (after.errors ≡ s.errors)
      × (fs.exists a.final_path after.disk ≡ false)
      × (find_artifact c.id after.storage ≡ some (closed (collecting now a)))

  abbrev pub IsLeft : ℕ → Candidate → StorageArtifact → Sweep Disk → Sweep Disk → Type 0
  IsLeft now c a s after =
      (after.errors ≡ s.errors + 1) × (find_artifact c.id after.storage ≡ some (collecting now a))

  whole_begun :
      (now : ℕ) (c : Candidate) (s : Sweep Disk) (a : StorageArtifact) (st : Storage)
      → find_artifact c.id st ≡ some (collecting now a)
      → Unlinks a.final_path
      → IsApart fs p a.final_path a.temporary_path
      → IsClosed now c a s (collect_begun fs p (whole a, st) c s)
        ⊎ IsLeft now c a s (collect_begun fs p (whole a, st) c s)
  unfolding finish_collect
  whole_begun now c s a st e u k =
      let r : Removal Disk = record { disk = s.disk; removed = s.removed; failed = false } in
      elim (Bool-cases (remove_files fs p (whole a) r).failed) [
        | inl f ↦ rw f (inr (refl, e))
        | inr f ↦
            let gone = remove_files-whole a s.disk s.removed u k f in
            rw f (inl (refl, gone, finish_whole now c.id st a e))
      ]

  -- When the verdict on an artifact is to collect it, and `unlink` does what it reports, and removing
  -- the temporary file and the spill directory leaves the published path as it is, a collection step
  -- ends in one of two ways: the published path is gone, the row is DELETED and no error is counted; or
  -- one error is counted and the row is DELETING.
  pub collect-whole :
      (now : ℕ) (c : Candidate) (s : Sweep Disk) (a : StorageArtifact)
      → find_artifact c.id s.storage ≡ some a
      → verdict
          (candidate_job s.storage.database c.task_id)
          (referenced p s.storage.catalog a.final_path)
          now
          a
        ≡ whole a
      → Unlinks a.final_path
      → IsApart fs p a.final_path a.temporary_path
      → IsClosed now c a s (collect fs p now c s) ⊎ IsLeft now c a s (collect fs p now c s)
  unfolding collect begin_collect
  collect-whole now c s a e h u k =
      let decided : begin_found p c.task_id now (find_artifact c.id s.storage) s.storage ≡ whole a =
        rw e h in
      let collected : Storage = record s.storage {
        artifacts = update_where (has_id c.id) (collecting now) s.storage.artifacts;
      } in
      rw decided (
        whole_begun now c s a collected
          (first_where-update_key (has_id c.id) (collecting now) s.storage.artifacts a
            (unfold collecting in λ x m. m) e)
          u k)
