-- ===== src/Operations/Handlers.antt =====
-- The handlers of backend/app/services/operation_handlers.py. What Pandas does to a frame is a
-- parameter: a frame has named columns, and the methods that the handlers call.
use data_analytics_platform.Base.{
  List, [], ◌∷◌, map, filter, String, Bool, true, not, ◌&&◌, Option, none, some, str_eq,
  if◌then◌else◌, codes, has_code,
}
use data_analytics_platform.Schema.Json.{Json, array, object, Fields, end, field}
use data_analytics_platform.Operations.Parameters.{
  malformed, unknown_columns, duplicate_names, Checked, accepted, rejected, is_in, is_distinct,
  get_field, text_items, text_entries, sources, targets,
}

-- `cast` is the loop of `cast_types_v1` over `safe_cast_column`.
pub record Frames (F : Type 0) : Type 0 where
  pub columns : F → List String
  pub drop : List String → F → F
  pub rename : List (String × String) → F → F
  pub fillna : Fields → F → F
  pub drop_duplicates : F → F
  pub cast : Fields → F → Checked F

abbrev pub all_known : List String → List String → Bool
all_known columns [] = true
all_known columns (s ∷ ss) = is_in s columns && all_known columns ss

-- `parameters.get("columns", [])`, as a list of texts.
abbrev pub texts_of : Option Json → Option (List String)
texts_of none = some []
texts_of (some (array xs)) = text_items xs
texts_of (some _) = none

unfoldable pub requested_columns : Fields → Option (List String)
unfolding get_field text_items
requested_columns fs = texts_of (get_field "columns" fs)

abbrev pub entries_of : Option Json → Option (List (String × String))
entries_of none = some []
entries_of (some (object fs)) = text_entries fs
entries_of (some _) = none

unfoldable pub requested_mapping : Fields → Option (List (String × String))
unfolding get_field text_entries
requested_mapping fs = entries_of (get_field "mapping" fs)

-- `mapping.get(name, name)`
unfoldable pub renamed : List (String × String) → String → String
renamed [] name = name
renamed ((s, t) ∷ m) name = if str_eq s name then t else renamed m name

abbrev pub same_name : String → String × String
same_name s = (s, s)

abbrev pub drop_projected : List String → Option (List String) → Checked (List (String × String))
drop_projected columns none = rejected malformed
drop_projected columns (some requested) =
    if all_known columns requested
    then accepted (map same_name (filter (λ s. not (is_in s requested)) columns))
    else rejected unknown_columns

unfoldable pub drop_projection_v1 : List String → Fields → Checked (List (String × String))
unfolding requested_columns
drop_projection_v1 columns fs = drop_projected columns (requested_columns fs)

abbrev pub no_null_bytes : List String → Bool
no_null_bytes [] = true
no_null_bytes (s ∷ ss) = not (has_code 0 (codes s)) && no_null_bytes ss

abbrev pub with_target : List (String × String) → String → String × String
with_target m s = (s, renamed m s)

abbrev pub rename_projected :
    List String → Option (List (String × String)) → Checked (List (String × String))
rename_projected columns none = rejected malformed
rename_projected columns (some m) =
    if not (no_null_bytes (targets m))
    then rejected malformed
    else if not (all_known columns (sources m))
    then rejected unknown_columns
    else if is_distinct (map (renamed m) columns)
    then accepted (map (with_target m) columns)
    else rejected duplicate_names

unfoldable pub rename_projection_v1 : List String → Fields → Checked (List (String × String))
unfolding requested_mapping renamed is_distinct
rename_projection_v1 columns fs = rename_projected columns (requested_mapping fs)

abbrev pub keys : Option Json → List String
keys (some (object fs)) = keys_in fs
  where
    keys_in : Fields → List String
    keys_in end = []
    keys_in (field k v gs) = k ∷ keys_in gs
keys _ = []

abbrev pub object_of : Option Json → Fields
object_of (some (object fs)) = fs
object_of _ = end

-- The handlers over frames. They are given parameters that their schema has passed, so what is not a
-- list of texts, or a mapping, does not reach them.
module _ {F : Type 0} (frames : Frames F) where
  abbrev pub drop_from : F → Option (List String) → Checked F
  drop_from frame none = rejected malformed
  drop_from frame (some columns) =
      if all_known (frames.columns frame) columns
      then accepted (frames.drop columns frame)
      else rejected unknown_columns

  unfoldable pub drop_columns_v1 : F → Fields → Checked F
  unfolding requested_columns
  drop_columns_v1 frame fs = drop_from frame (requested_columns fs)

  abbrev pub rename_in : F → Option (List (String × String)) → Checked F
  rename_in frame none = rejected malformed
  rename_in frame (some m) =
      if not (all_known (frames.columns frame) (sources m))
      then rejected unknown_columns
      else if is_distinct (map (renamed m) (frames.columns frame))
      then accepted (frames.rename m frame)
      else rejected duplicate_names

  unfoldable pub rename_columns_v1 : F → Fields → Checked F
  unfolding requested_mapping renamed is_distinct
  rename_columns_v1 frame fs = rename_in frame (requested_mapping fs)

  unfoldable pub fill_nulls_v1 : F → Fields → Checked F
  unfolding get_field
  fill_nulls_v1 frame fs =
      if all_known (frames.columns frame) (keys (get_field "values" fs))
      then accepted (frames.fillna (object_of (get_field "values" fs)) frame)
      else rejected unknown_columns

  abbrev pub drop_duplicates_v1 : F → Fields → Checked F
  drop_duplicates_v1 frame fs = accepted (frames.drop_duplicates frame)

  unfoldable pub cast_types_v1 : F → Fields → Checked F
  unfolding get_field
  cast_types_v1 frame fs =
      if all_known (frames.columns frame) (keys (get_field "mapping" fs))
      then frames.cast (object_of (get_field "mapping" fs)) frame
      else rejected unknown_columns
