-- ===== src/Artifacts/References.antt =====
-- `_referenced`: whether a row of the catalog still needs the file at a path.
use data_analytics_platform.Base.{
  ℕ, List, [], ◌∷◌, String, Bool, true, false, not, ◌&&◌, ◌||◌, Option, none, some, ◌==◌, str_eq,
  is_none, count_where, first_where, leb,
}
use data_analytics_platform.Schema.Catalog.{
  Dataset, DatasetSnapshot, Transformation, Report, Catalog,
}
use data_analytics_platform.Artifacts.Writer.{Paths}

-- `column.in_(paths)`
abbrev pub in_paths : String → List String → Bool
in_paths path [] = false
in_paths path (s ∷ ss) = str_eq path s || in_paths path ss

abbrev pub optional_in : Option String → List String → Bool
optional_in none ss = false
optional_in (some s) ss = in_paths s ss

abbrev pub any_row {ℓ} : {A : Type ℓ} → (A → Bool) → List A → Bool
any_row p rows = leb 1 (count_where p rows)

abbrev pub is_retained : Dataset → Bool
is_retained d =
    is_none d.deleted_at && not (str_eq d.status "failed" || str_eq d.status "cancelled")

abbrev pub stores : List String → Dataset → Bool
stores ss d = in_paths d.stored_path ss && is_retained d

abbrev pub found_retained : Option Dataset → Bool
found_retained none = false
found_retained (some d) = is_retained d

abbrev pub retained_dataset : ℕ → List Dataset → Bool
retained_dataset id rows = found_retained (first_where (λ d. d.id == id) rows)

abbrev pub manifest_keeps : List Dataset → Option DatasetSnapshot → Bool
manifest_keeps rows none = false
manifest_keeps rows (some m) =
    str_eq m.availability "AVAILABLE" && retained_dataset m.dataset_id rows

-- An expired manifest takes the path's historical reference away.
abbrev pub historical_reference : Option DatasetSnapshot → Bool
historical_reference none = true
historical_reference (some m) = not (str_eq m.availability "EXPIRED")

abbrev pub uses_path : List String → Bool → Transformation → Bool
uses_path ss historical t =
    (in_paths t.input_path ss
      && (historical || (str_eq t.status "pending" || str_eq t.status "processing")))
    || (in_paths t.output_path ss
        && ((str_eq t.status "completed" || str_eq t.status "undone") && historical))

abbrev pub reports_path : List String → Report → Bool
reports_path ss r = optional_in r.file_path ss && str_eq r.status "completed"

abbrev pub snapshot_of : List String → Catalog → Option DatasetSnapshot
snapshot_of ss c = first_where (λ m. in_paths m.stored_path ss) c.snapshots

abbrev pub referenced_by : List String → Catalog → Bool
referenced_by ss c =
    any_row (stores ss) c.datasets
    || (manifest_keeps c.datasets (snapshot_of ss c)
        || (any_row (uses_path ss (historical_reference (snapshot_of ss c))) c.transformations
            || any_row (reports_path ss) c.reports))

unfoldable pub referenced : Paths → Catalog → String → Bool
referenced p c path = referenced_by (p.spellings path) c
