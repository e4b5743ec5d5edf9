-- ===== src/Artifacts/Safety.antt =====
-- What the collector may not touch: the published file of an attempt that runs, of a row that the
-- catalog needs, of a reservation that holds, and of a LIVE artifact that nobody asked to delete.
use data_analytics_platform.Base.{
  ℕ, ◌≡◌, ◌⊎◌, refl, sym, ap, subst, ◌∙◌, List, [], ◌∷◌, String, Bool, true, false, not, ◌&&◌, ◌||◌,
  Option, none, some, str_eq, is_none, arith, inl, inr, Bool-cases, first_where, update_where,
  first_where-update_key,
}
use data_analytics_platform.Schema.Jobs.{JobRecord}
use data_analytics_platform.Artifacts.Table.{StorageArtifact, Storage, is_live, has_id}
use data_analytics_platform.Artifacts.Writer.{Paths, find_artifact}
use data_analytics_platform.Artifacts.References.{referenced}
use data_analytics_platform.Artifacts.Cleanup.{
  Verdict, keep, auxiliaries, Candidate, candidate_job, verdict, live_attempt, auxiliaries_only,
  reservation_holds, begin_collect, begin_found, change_of, checked,
}
use data_analytics_platform.Artifacts.Files.{
  FileSystem, Removal, Sweep, delete, delete_paths, delete_spill, remove_files, collect,
  collect_begun, if_done, noted, tree_removed, after_temporary, present, temporary_of,
}

abbrev pub protected : Option JobRecord → Bool → ℕ → StorageArtifact → Bool
protected job is_referenced now a =
    live_attempt job a now
    || (is_referenced
        || (reservation_holds now a || (is_live a.state && is_none a.deletion_requested_at)))

verdict-protected :
    (job : Option JobRecord) (is_referenced : Bool) (now : ℕ) (a : StorageArtifact)
    → protected job is_referenced now a ≡ true
    → (verdict job is_referenced now a ≡ keep) ⊎ (verdict job is_referenced now a ≡ auxiliaries a)
unfolding verdict
verdict-protected job is_referenced now a h = elim (Bool-cases (live_attempt job a now)) [
  | inl e ↦ inl (ground arith)
  | inr e ↦ elim (Bool-cases (is_referenced && not (auxiliaries_only is_referenced a))) [
    | inl f ↦ inl (ground arith)
    | inr f ↦ elim (Bool-cases (reservation_holds now a)) [
      | inl g ↦ inl (ground arith)
      | inr g ↦ inr (ground arith)
    ]
  ]
]

module _ {ℓ} {Disk : Type ℓ} (fs : FileSystem Disk) (p : Paths) where
  -- Removing what is at `other` leaves the presence of `path` as it is.
  abbrev pub Spares : String → String → Type ℓ
  Spares path other =
      (d : Disk)
      → (fs.exists path (fs.unlink other d).1 ≡ fs.exists path d)
        × (fs.exists path (fs.rmtree other d).1 ≡ fs.exists path d)

  if_done-disk : (x : Bool × Disk) (path : String) → (if_done fs p x path).1 ≡ x.1
  if_done-disk (true, d) path = refl
  if_done-disk (false, d) path = refl

  tree_removed-disk : (x : Bool × Disk) (path : String) → (tree_removed fs p x path).1 ≡ x.1
  tree_removed-disk (true, d) path = refl
  tree_removed-disk (false, d) path = refl

  noted-disk :
      (existed : Bool) (path : String) (x : Bool × Disk) (names : List String)
      → (noted fs p existed path x names).disk ≡ x.1
  noted-disk existed path (true, d) names = refl
  noted-disk existed path (false, d) names = refl

  delete-Spares :
      (path other : String) (existed : Bool) (d : Disk) (names : List String)
      → Spares path other
      → fs.exists path (noted fs p existed other (delete fs p other d) names).disk
        ≡ fs.exists path d
  unfolding delete
  delete-Spares path other existed d names k =
      ap (fs.exists path) (
        noted-disk existed other (if_done fs p (fs.unlink other d) other) names
        ∙ if_done-disk (fs.unlink other d) other)
      ∙ (k d).0

  delete_one-Spares :
      (path other : String) (r : Removal Disk)
      → Spares path other
      → fs.exists path (delete_paths fs p (other ∷ []) r).disk ≡ fs.exists path r.disk
  unfolding delete_paths
  delete_one-Spares path other r k = elim (Bool-cases r.failed) [
    | inl e ↦ rw e refl
    | inr e ↦ rw e (delete-Spares path other (present fs p other r.disk) r.disk r.removed k)
  ]

  delete_spill-Spares :
      (path spill : String) (r : Removal Disk)
      → Spares path spill
      → fs.exists path (delete_spill fs p spill r).disk ≡ fs.exists path r.disk
  unfolding delete_spill
  delete_spill-Spares path spill r k = elim (Bool-cases r.failed) [
    | inl e ↦ rw e refl
    | inr e ↦ rw e (elim (Bool-cases (fs.is_symlink spill r.disk)) [
      | inl f ↦ rw f (delete-Spares path spill true r.disk r.removed k)
      | inr f ↦ rw f (elim (Bool-cases (fs.exists spill r.disk)) [
        | inr g ↦ rw g refl
        | inl g ↦ rw g (
            ap (fs.exists path) (
              noted-disk true spill (tree_removed fs p (fs.rmtree spill r.disk) spill) r.removed
              ∙ tree_removed-disk (fs.rmtree spill r.disk) spill)
            ∙ (k r.disk).1)
      ])
    ])
  ]

  -- The artifact's other files are not its published one.
  abbrev pub IsApart : String → Option String → Type ℓ
  IsApart path none = Unit
  IsApart path (some t) = Spares path t × Spares path (p.spill_directory t)

  pub auxiliaries-Spares :
      (path : String) (temporary : Option String) (r : Removal Disk)
      → IsApart path temporary
      → fs.exists path
          (after_temporary fs p temporary (delete_paths fs p (temporary_of fs p temporary) r)).disk
        ≡ fs.exists path r.disk
  unfolding delete_paths
  auxiliaries-Spares path none r k = refl
  auxiliaries-Spares path (some t) r k = elim (Bool-cases (str_eq t "")) [
    | inl e ↦ rw e refl
    | inr e ↦ rw e (
        delete_spill-Spares path (p.spill_directory t) (delete_paths fs p (t ∷ []) r) k.1
        ∙ delete_one-Spares path t r k.0)
  ]

  keep_auxiliaries :
      (now : ℕ) (c : Candidate) (s : Sweep Disk) (a : StorageArtifact) (v : Verdict) (st : Storage)
      → IsApart a.final_path a.temporary_path
      → (v ≡ keep) ⊎ (v ≡ auxiliaries a)
      → (fs.exists a.final_path (collect_begun fs p (v, st) c s).disk
          ≡ fs.exists a.final_path s.disk)
        × ((collect_begun fs p (v, st) c s).storage ≡ st)
        × (change_of v now ≡ checked now)
  unfolding remove_files
  keep_auxiliaries now c s a v st k (inl e) = rw e (refl, refl, refl)
  keep_auxiliaries now c s a v st k (inr e) =
      let r : Removal Disk = record { disk = s.disk; removed = s.removed; failed = false } in
      rw e (
        auxiliaries-Spares a.final_path a.temporary_path r k,
        elim (Bool-cases (remove_files fs p (auxiliaries a) r).failed) [
          | inl f ↦ rw f refl
          | inr f ↦ rw f refl
        ],
        refl,
      )

  -- Where removing the temporary file and the spill directory leaves the published path as it is, a
  -- collection step leaves that path on disk as it was, and of the row changes only the time of the
  -- check, when the row's attempt still runs its job, or the catalog refers to the path, or the
  -- reservation has not expired and nobody asked for its deletion, or the artifact is LIVE and nobody
  -- asked for its deletion.
  pub collect-protected :
      (now : ℕ) (c : Candidate) (s : Sweep Disk) (a : StorageArtifact)
      → find_artifact c.id s.storage ≡ some a
      → protected
          (candidate_job s.storage.database c.task_id)
          (referenced p s.storage.catalog a.final_path)
          now
          a
        ≡ true
      → IsApart a.final_path a.temporary_path
      → (fs.exists a.final_path (collect fs p now c s).disk ≡ fs.exists a.final_path s.disk)
        × (find_artifact c.id (collect fs p now c s).storage ≡ some (checked now a))
  unfolding collect begin_collect
  collect-protected now c s a e h k =
      let v : Verdict = begin_found p c.task_id now (find_artifact c.id s.storage) s.storage in
      let st : Storage = record s.storage {
        artifacts = update_where (has_id c.id) (change_of v now) s.storage.artifacts;
      } in
      let decided =
        subst
          (λ o.
            (begin_found p c.task_id now o s.storage ≡ keep)
            ⊎ (begin_found p c.task_id now o s.storage ≡ auxiliaries a))
          (sym e)
          (verdict-protected (candidate_job s.storage.database c.task_id)
            (referenced p s.storage.catalog a.final_path) now a h) in
      let (spared, stored, change) = keep_auxiliaries now c s a v st k decided in
      (
        spared,
        ap (find_artifact c.id) stored
            ∙ ap (λ f. first_where (has_id c.id) (update_where (has_id c.id) f s.storage.artifacts))
                change
            ∙ first_where-update_key (has_id c.id) (checked now) s.storage.artifacts a
                (unfold checked in λ x m. m) e,
      )
