-- ===== src/Snapshots/Manifests.antt =====
-- `digest`, `record`, `manifest` and `verify`. What the file system and SHA-256 say of a path is an
-- argument.
use data_analytics_platform.Base.{
  ℕ, List, [], ◌∷◌, ◌++◌, String, Bool, false, not, ◌&&◌, ◌||◌, Option, none, some, ◌==◌, str_eq,
  if◌then◌else◌, first_where, count_where, leb,
}
use data_analytics_platform.Schema.Catalog.{DatasetSnapshot}
use data_analytics_platform.Artifacts.Writer.{Paths}

-- `stat` of a path, without following a link.
pub record FileStat : Type 0 where
  pub is_regular : Bool
  pub size : ℕ
  pub device : ℕ
  pub inode : ℕ
  pub modified_ns : ℕ

pub record VerifiedFile : Type 0 where
  pub size_bytes : ℕ
  pub sha256 : String
  pub device : ℕ
  pub inode : ℕ
  pub modified_ns : ℕ

pub data Fault : Type 0 where
  unavailable changed expired corrupt refused : Fault

pub data Verified {ℓ} (A : Type ℓ) : Type ℓ where
  valid : A → Verified A
  fault : Fault → Verified A

unfoldable pub same_file : VerifiedFile → FileStat → Bool
same_file v s =
    s.is_regular
    && ((s.size == v.size_bytes)
        && ((s.device == v.device) && ((s.inode == v.inode) && (s.modified_ns == v.modified_ns))))

-- What the operating system answers while a file is read: the three calls of `stat`, where they do not
-- raise OSError, and the digest of the bytes, where they can be read.
pub record Reading : Type 0 where
  pub before : Option FileStat
  pub opened : Option FileStat
  pub sha256 : Option String
  pub after : Option FileStat

abbrev pub unchanged : VerifiedFile → Option FileStat → Verified VerifiedFile
unchanged v none = fault unavailable
unchanged v (some s) = if same_file v s then valid v else fault changed

abbrev pub digest_read : FileStat → Option String → Option FileStat → Verified VerifiedFile
digest_read b none after = fault unavailable
digest_read b (some sum) after =
    unchanged
      (record {
        size_bytes = b.size;
        sha256 = sum;
        device = b.device;
        inode = b.inode;
        modified_ns = b.modified_ns;
      })
      after

abbrev pub digest_opened : FileStat → Option FileStat → Reading → Verified VerifiedFile
digest_opened b none r = fault unavailable
digest_opened b (some o) r =
    if (o.device == b.device) && (o.inode == b.inode)
    then digest_read b r.sha256 r.after
    else fault unavailable

abbrev pub digest_before : Option FileStat → Reading → Verified VerifiedFile
digest_before none r = fault unavailable
digest_before (some b) r =
    if not b.is_regular || (b.size == 0) then fault unavailable else digest_opened b r.opened r

unfoldable pub digest : Reading → Verified VerifiedFile
unfolding same_file
digest r = digest_before r.before r

abbrev pub is_manifest : ℕ → String → DatasetSnapshot → Bool
is_manifest dataset path m = (m.dataset_id == dataset) && str_eq m.stored_path path

unfoldable pub manifest : Paths → List DatasetSnapshot → ℕ → String → Option DatasetSnapshot
manifest p rows dataset path = first_where (is_manifest dataset (p.abspath path)) rows

abbrev pub new_manifest : Paths → String → ℕ → String → ℕ → ℕ → String → ℕ → DatasetSnapshot
new_manifest p id dataset path version size sum now = record {
  id = id;
  dataset_id = dataset;
  stored_path = p.abspath path;
  version = version;
  sha256 = sum;
  size_bytes = size;
  availability = "AVAILABLE";
  pinned = false;
  created_at = now;
  expired_at = none;
  retention_checked_at = none;
}

-- The table's unique constraints, and its CHECK on the identity.
abbrev pub conflicts : DatasetSnapshot → DatasetSnapshot → Bool
conflicts a b =
    str_eq b.id a.id
    || ((b.dataset_id == a.dataset_id)
        && (str_eq b.stored_path a.stored_path || (b.version == a.version)))

abbrev pub is_insertable : DatasetSnapshot → List DatasetSnapshot → Bool
is_insertable m rows =
    leb 1 m.version && (leb 1 m.size_bytes && (count_where (conflicts m) rows == 0))

-- `record`
unfoldable pub record_manifest :
    DatasetSnapshot → List DatasetSnapshot → Verified DatasetSnapshot × List DatasetSnapshot
record_manifest m rows =
    if is_insertable m rows then (valid m, rows ++ m ∷ []) else (fault refused, rows)

abbrev pub is_available : DatasetSnapshot → Bool
is_available m = str_eq m.availability "AVAILABLE"

abbrev pub compared :
    Verified VerifiedFile → DatasetSnapshot → Verified (VerifiedFile × Option String)
compared (fault e) m = fault e
compared (valid v) m =
    if (v.size_bytes == m.size_bytes) && str_eq v.sha256 m.sha256
    then valid (v, some m.id)
    else fault corrupt

abbrev pub unmanaged : Verified VerifiedFile → Verified (VerifiedFile × Option String)
unmanaged (fault e) = fault e
unmanaged (valid v) = valid (v, none)

abbrev pub verify_found : Option DatasetSnapshot → Reading → Verified (VerifiedFile × Option String)
verify_found none r = unmanaged (digest r)
verify_found (some m) r = if is_available m then compared (digest r) m else fault expired

unfoldable pub verify :
    Paths → List DatasetSnapshot → ℕ → String → Reading → Verified (VerifiedFile × Option String)
unfolding manifest digest
verify p rows dataset path r = verify_found (manifest p rows dataset path) r
