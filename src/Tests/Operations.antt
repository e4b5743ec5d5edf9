-- ===== src/Tests/Operations.antt =====
-- The theorems on operations at the released registry, over frames that are lists of column names.
use data_analytics_platform.Base.{
  ◌≡◌, refl, List, [], ◌∷◌, map, filter, String, true, false, not, some, first_where,
}
use data_analytics_platform.Schema.Json.{text, object, Fields, end, field}
use data_analytics_platform.Operations.Parameters.{
  accepted, is_in, is_distinct, rename_columns_parameters,
}
use data_analytics_platform.Operations.Handlers.{Frames, renamed, rename_columns_v1}
use data_analytics_platform.Operations.Registry.{
  OperationRegistry, register_all, register, resolve, execute_operation, drop_columns,
  rename_columns,
}
use data_analytics_platform.Operations.Plan.{projection}
use data_analytics_platform.Operations.Agreement.{Behaves, Agrees, execute_operation-Agrees}
use data_analytics_platform.Operations.Releases.{resolve-register}

abbrev names : Frames (List String)
names = record {
  columns = λ f. f;
  drop = λ cs f. filter (λ s. not (is_in s cs)) f;
  rename = λ m f. map (renamed m) f;
  fillna = λ v f. f;
  drop_duplicates = λ f. f;
  cast = λ m f. accepted f;
}

names-Behaves : Behaves names
names-Behaves = record { drops = λ cs f. refl; renames = λ m f. refl }

abbrev pub operations : OperationRegistry (List String)
operations = record {
  versions = drop_columns names ∷ rename_columns names ∷ [];
  current = drop_columns names ∷ rename_columns names ∷ [];
}

abbrev renaming : Fields
renaming = field "mapping" (object (field "a" (text "b") end)) end

abbrev columns : List String
columns = "a" ∷ "c" ∷ []

released_rename :
    resolve "rename_columns" (some "1.0.0") operations ≡ accepted (rename_columns names)
unfolding resolve first_where
released_rename = refl

renaming_passes : rename_columns_parameters 256 renaming ≡ true
unfolding rename_columns_parameters
renaming_passes = refl

columns_distinct : is_distinct columns ≡ true
unfolding is_distinct
columns_distinct = refl

execute_operation-Agrees_example :
    Agrees names
      (execute_operation names 256 operations columns "rename_columns" renaming (some "1.0.0"))
      (projection operations
        (record {
          operation = "rename_columns";
          parameters = renaming;
          operation_version = "1.0.0";
        })
        columns)
execute_operation-Agrees_example =
    execute_operation-Agrees names names-Behaves false 256 operations columns "rename_columns"
      renaming released_rename renaming_passes columns_distinct

renamed_columns :
    execute_operation names 256 operations columns "rename_columns" renaming (some "1.0.0")
    ≡ accepted ("b" ∷ "c" ∷ [])
unfolding execute_operation first_where rename_columns_parameters rename_columns_v1
renamed_columns = refl

abbrev unreleased : OperationRegistry (List String)
unreleased = record { versions = []; current = [] }

abbrev first_release : OperationRegistry (List String)
first_release = record { versions = drop_columns names ∷ []; current = drop_columns names ∷ [] }

registered : register (drop_columns names) true unreleased ≡ accepted first_release
unfolding register first_where
registered = refl

registered_more : register_all (rename_columns names ∷ []) first_release ≡ accepted operations
unfolding register_all first_where
registered_more = refl

resolve-register_example :
    resolve "drop_columns" (some "1.0.0") operations ≡ accepted (drop_columns names)
resolve-register_example =
    resolve-register (drop_columns names) true (rename_columns names ∷ []) unreleased first_release
      operations registered registered_more
