-- ===== src/Datasets/Quota.antt =====
-- Space: `tracked_storage_usage_bytes`, `ensure_storage_quota`, `_ensure_transformation_output_size`,
-- and `ensure_capacity` of backend/app/services/storage_service.py.
use data_analytics_platform.Base.{
  ℕ, ◌+◌, ◌*◌, List, [], ◌∷◌, String, Bool, false, ◌||◌, Option, none, some, str_eq, if◌then◌else◌,
  leb,
}
use data_analytics_platform.Schema.{over_quota, low_storage, output_too_large}
use data_analytics_platform.Schema.Catalog.{Catalog, Dataset, Transformation, Report}
use data_analytics_platform.Datasets.Session.{Action, require, owns_project, find_dataset}

pub record SpaceSettings : Type 0 where
  pub user_storage_quota_mb : ℕ
  pub max_dataset_expanded_size_mb : ℕ
  pub min_free_disk_space_mb : ℕ

-- What the disk says: the free space, and the size of a regular file at a path.
pub record Disk : Type 0 where
  pub free : ℕ
  pub size_of : String → Option ℕ

abbrev pub megabytes : ℕ → ℕ
megabytes n = n * 1024 * 1024

-- A set of paths as a list without repetition; an empty path is no member.
abbrev pub is_member : String → List String → Bool
is_member s [] = false
is_member s (t ∷ ts) = str_eq t s || is_member s ts

unfoldable pub add_path : String → List String → List String
add_path s ss = if str_eq s "" || is_member s ss then ss else s ∷ ss

abbrev pub owns_dataset : Catalog → ℕ → Option Dataset → Bool
owns_dataset c owner none = false
owns_dataset c owner (some d) = owns_project c owner d.project_id

unfoldable pub dataset_paths : Catalog → ℕ → List Dataset → List String → List String
unfolding add_path
dataset_paths c owner [] ss = ss
dataset_paths c owner (d ∷ ds) ss =
    dataset_paths c owner ds
      (if owns_project c owner d.project_id then add_path d.stored_path ss else ss)

unfoldable pub transformation_paths : Catalog → ℕ → List Transformation → List String → List String
unfolding add_path
transformation_paths c owner [] ss = ss
transformation_paths c owner (t ∷ ts) ss = transformation_paths c owner ts (
    if owns_dataset c owner (find_dataset t.dataset_id c)
    then add_path t.input_path (add_path t.output_path ss)
    else ss)

abbrev pub add_optional : Option String → List String → List String
add_optional none ss = ss
add_optional (some s) ss = add_path s ss

unfoldable pub report_paths : Catalog → ℕ → List Report → List String → List String
unfolding add_path
report_paths c owner [] ss = ss
report_paths c owner (r ∷ rs) ss =
    report_paths c owner rs
      (if owns_project c owner r.project_id then add_optional r.file_path ss else ss)

abbrev pub size_or_zero : Option ℕ → ℕ
size_or_zero none = 0
size_or_zero (some n) = n

unfoldable pub total_size : Disk → List String → ℕ
total_size k [] = 0
total_size k (s ∷ ss) = size_or_zero (k.size_of s) + total_size k ss

unfoldable pub tracked_storage_usage_bytes : Disk → ℕ → Catalog → ℕ
unfolding dataset_paths transformation_paths report_paths total_size
tracked_storage_usage_bytes k owner c = total_size k (
    report_paths c owner c.reports
      (transformation_paths c owner c.transformations (dataset_paths c owner c.datasets [])))

unfoldable pub ensure_storage_quota : SpaceSettings → Disk → ℕ → ℕ → Action (Unit {0})
unfolding tracked_storage_usage_bytes
ensure_storage_quota s k owner incoming st =
    require
      (leb (tracked_storage_usage_bytes k owner st.catalog + incoming)
        (megabytes s.user_storage_quota_mb))
      over_quota st

abbrev pub ensure_output_size : SpaceSettings → ℕ → Action (Unit {0})
ensure_output_size s bytes =
    require (leb bytes (megabytes s.max_dataset_expanded_size_mb)) output_too_large

-- `free - required < minimum` raises.
abbrev pub ensure_capacity : SpaceSettings → Disk → ℕ → Action (Unit {0})
ensure_capacity s k required =
    require (leb (megabytes s.min_free_disk_space_mb + required) k.free) low_storage
