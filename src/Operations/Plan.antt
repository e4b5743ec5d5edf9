-- ===== src/Operations/Plan.antt =====
-- `TransformationPlan` and `validate_operation_capability`: what a native engine is given.
use data_analytics_platform.Base.{
  ℕ, List, [], ◌∷◌, map, String, Bool, false, not, ◌&&◌, ◌||◌, Option, none, some, str_eq,
  if◌then◌else◌, codes, has_code,
}
use data_analytics_platform.Schema.Json.{Fields}
use data_analytics_platform.Operations.Parameters.{
  capability, no_columns, Checked, accepted, rejected, is_in, is_distinct, sources, targets,
}
use data_analytics_platform.Operations.Registry.{
  OperationRegistry, Projection, ◌>>=◌, require, resolve, validate_operation, is_empty,
}

pub record TransformationPlan : Type 0 where
  pub operation : String
  pub parameters : Fields
  pub operation_version : String

-- What the Parquet metadata say: the names, and which columns are zoned nanosecond timestamps.
pub record ArrowSchema : Type 0 where
  pub names : List String
  pub is_zoned_nanoseconds : String → Bool

abbrev pub nonempty : Projection → Checked Projection
nonempty p = if is_empty (sources p) then rejected no_columns else accepted p

abbrev pub projected :
    Option (List String → Fields → Checked Projection) → List String → Fields → Checked Projection
projected none columns parameters = rejected capability
projected (some handler) columns parameters = handler columns parameters >>= nonempty

abbrev pub any_zoned : ArrowSchema → List String → Bool
any_zoned schema [] = false
any_zoned schema (s ∷ ss) = schema.is_zoned_nanoseconds s || any_zoned schema ss

-- `lower` is `str.lower`.
abbrev pub duckdb_schema : (String → String) → ArrowSchema → Projection → Checked Projection
duckdb_schema lower schema p =
    if not (is_distinct (map lower schema.names)) || not (is_distinct (map lower (targets p)))
    then rejected capability
    else if any_zoned schema (sources p)
    then rejected capability
    else accepted p

-- ENGINE_FORMATS
abbrev pub engine_formats : String → Option (List String)
engine_formats name =
    if str_eq name "pandas"
    then some (".csv" ∷ ".json" ∷ ".xls" ∷ ".xlsx" ∷ ".parquet" ∷ [])
    else if str_eq name "polars" || str_eq name "duckdb"
    then some (".parquet" ∷ [])
    else none

abbrev pub formats_of : Option (List String) → Checked (List String)
formats_of none = rejected capability
formats_of (some fs) = accepted fs

abbrev pub is_glob : String → Bool
is_glob path =
    has_code b'*' (codes path)
    || (has_code b'?' (codes path) || (has_code b'[' (codes path) || has_code b']' (codes path)))

module _ {F : Type 0} where
  unfoldable pub projection :
      OperationRegistry F → TransformationPlan → List String → Checked Projection
  unfolding is_distinct resolve
  projection r plan columns = require (is_distinct columns) capability >>= λ _.
      resolve plan.operation (some plan.operation_version) r >>= λ definition.
      projected definition.projection_handler columns plan.parameters

  unfoldable pub validate_schema :
      (String → String)
      → OperationRegistry F
      → TransformationPlan
      → ArrowSchema
      → String
      → Checked Projection
  unfolding projection
  validate_schema lower r plan schema engine_name = projection r plan schema.names >>= λ p.
      if str_eq engine_name "duckdb" then duckdb_schema lower schema p else accepted p

  abbrev pub native_plan :
      (String → String)
      → OperationRegistry F
      → TransformationPlan
      → ArrowSchema
      → String
      → String
      → Checked TransformationPlan
  native_plan lower r plan schema engine_name path =
      if str_eq engine_name "pandas"
      then accepted plan
      else validate_schema lower r plan schema engine_name >>= λ p.
          require (not (str_eq engine_name "duckdb" && is_glob path)) capability >>= λ _.
          accepted plan

  -- `suffix` is the path's, in lower case, and `schema` what the file at the path has.
  unfoldable pub validate_operation_capability :
      (String → String)
      → ℕ
      → OperationRegistry F
      → String
      → Fields
      → String
      → String
      → String
      → ArrowSchema
      → Option String
      → Checked TransformationPlan
  unfolding resolve validate_operation validate_schema
  validate_operation_capability lower limit r operation parameters engine_name path suffix schema
        version =
      do
        definition ← resolve operation version r
        validated ←
            validate_operation limit r operation parameters (some definition.semantic_version)
        formats ← formats_of (engine_formats engine_name)
        supported ← require (is_in engine_name definition.engines) capability
        readable ← require (is_in suffix formats) capability
        native_plan lower r
            (record {
              operation = operation;
              parameters = validated;
              operation_version = definition.semantic_version;
            })
            schema engine_name path
