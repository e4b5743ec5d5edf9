-- ===== src/Artifacts/Files.antt =====
-- The removal of one candidate's files, and `cleanup` as the loop over the candidates.
use data_analytics_platform.Base.{
  ℕ, ◌+◌, List, [], ◌∷◌, ◌++◌, String, Bool, true, false, ◌&&◌, ◌||◌, Option, none, some, str_eq,
  if◌then◌else◌,
}
use data_analytics_platform.Artifacts.Table.{StorageArtifact, Storage}
use data_analytics_platform.Artifacts.Writer.{Paths, find_artifact}
use data_analytics_platform.Artifacts.Cleanup.{
  Verdict, keep, auxiliaries, whole, Candidate, candidates, begin_collect, finish_collect,
}

-- The operating system's calls, over its own state; each reports whether it raised OSError.
pub record FileSystem {ℓ} (Disk : Type ℓ) : Type ℓ where
  pub exists : String → Disk → Bool
  pub is_symlink : String → Disk → Bool
  pub unlink : String → Disk → Bool × Disk
  pub sync_directory : String → Disk → Bool
  pub rmtree : String → Disk → Bool × Disk

-- What is left on disk, the names removed, and whether OSError ended the removal.
pub record Removal {ℓ} (Disk : Type ℓ) : Type ℓ where
  pub disk : Disk
  pub removed : List String
  pub failed : Bool

module _ {ℓ} {Disk : Type ℓ} (fs : FileSystem Disk) (p : Paths) where
  -- `LocalStorage.delete` and what follows a removal: true when a call raised.
  abbrev pub synced : String → Disk → Bool × Disk
  synced path d = (fs.exists (p.parent path) d && fs.sync_directory (p.parent path) d, d)

  abbrev pub if_done : Bool × Disk → String → Bool × Disk
  if_done (true, d) path = (true, d)
  if_done (false, d) path = synced path d

  unfoldable pub delete : String → Disk → Bool × Disk
  delete path d = if_done (fs.unlink path d) path

  abbrev pub noted : Bool → String → Bool × Disk → List String → Removal Disk
  noted existed path (true, d) names = record { disk = d; removed = names; failed = true }
  noted existed path (false, d) names = record {
    disk = d;
    removed = if existed then names ++ p.name path ∷ [] else names;
    failed = false;
  }

  abbrev pub present : String → Disk → Bool
  present path d = fs.exists path d || fs.is_symlink path d

  unfoldable pub delete_paths : List String → Removal Disk → Removal Disk
  unfolding delete
  delete_paths [] r = r
  delete_paths (path ∷ paths) r =
      let next =
        delete_paths paths (noted (present path r.disk) path (delete path r.disk) r.removed) in
      if r.failed then r else next

  abbrev pub tree_removed : Bool × Disk → String → Bool × Disk
  tree_removed (true, d) spill = (true, d)
  tree_removed (false, d) spill = (fs.sync_directory (p.parent spill) d, d)

  unfoldable pub delete_spill : String → Removal Disk → Removal Disk
  unfolding delete
  delete_spill spill r =
      if r.failed
      then r
      else if fs.is_symlink spill r.disk
      then noted true spill (delete spill r.disk) r.removed
      else if fs.exists spill r.disk
      then noted true spill (tree_removed (fs.rmtree spill r.disk) spill) r.removed
      else r

  abbrev pub after_temporary : Option String → Removal Disk → Removal Disk
  after_temporary none r = r
  after_temporary (some t) r = if str_eq t "" then r else delete_spill (p.spill_directory t) r

  abbrev pub temporary_of : Option String → List String
  temporary_of none = []
  temporary_of (some t) = if str_eq t "" then [] else t ∷ []

  unfoldable pub remove_files : Verdict → Removal Disk → Removal Disk
  unfolding delete_paths delete_spill
  remove_files keep r = r
  remove_files (auxiliaries a) r =
      after_temporary a.temporary_path (delete_paths (temporary_of a.temporary_path) r)
  remove_files (whole a) r =
      after_temporary a.temporary_path
        (delete_paths (a.final_path ∷ temporary_of a.temporary_path) r)

-- The state of the loop, and what `cleanup` reports.
pub record Sweep {ℓ} (Disk : Type ℓ) : Type ℓ where
  pub storage : Storage
  pub disk : Disk
  pub removed : List String
  pub rechecked : ℕ
  pub errors : ℕ

module _ {ℓ} {Disk : Type ℓ} (fs : FileSystem Disk) (p : Paths) where
  abbrev pub close_row : Verdict → String → Storage → Storage
  close_row (whole _) id st = finish_collect id st
  close_row _ id st = st

  abbrev pub found_count : Option StorageArtifact → ℕ
  found_count none = 0
  found_count (some a) = 1

  abbrev pub after_files : Verdict → Candidate → Storage → Removal Disk → Sweep Disk → Sweep Disk
  after_files v c st r s = record {
    storage = if r.failed then st else close_row v c.id st;
    disk = r.disk;
    removed = r.removed;
    rechecked = s.rechecked + found_count (find_artifact c.id s.storage);
    errors = if r.failed then s.errors + 1 else s.errors;
  }

  abbrev pub collect_begun : Verdict × Storage → Candidate → Sweep Disk → Sweep Disk
  collect_begun (v, st) c s =
      after_files v c st
        (remove_files fs p v (record { disk = s.disk; removed = s.removed; failed = false })) s

  -- One candidate, at its own reading of the database clock.
  unfoldable pub collect : ℕ → Candidate → Sweep Disk → Sweep Disk
  unfolding begin_collect finish_collect remove_files
  collect now c s = collect_begun (begin_collect p c now s.storage) c s

  unfoldable pub collect_all : (String → ℕ) → List Candidate → Sweep Disk → Sweep Disk
  unfolding collect
  collect_all clock [] s = s
  collect_all clock (c ∷ cs) s = collect_all clock cs (collect (clock c.id) c s)

  unfoldable pub cleanup :
      (String → String → Bool) → ℕ → ℕ → (String → ℕ) → Storage → Disk → Sweep Disk
  unfolding collect_all candidates
  cleanup earlier limit now clock st d =
      collect_all clock (candidates earlier limit now st)
        (record { storage = st; disk = d; removed = []; rechecked = 0; errors = 0 })
