-- ===== src/Operations/Registry.antt =====
-- `OperationRegistry`, the released operations, and what requests and engines ask of them.
use data_analytics_platform.Base.{
  ℕ, List, [], ◌∷◌, ◌++◌, filter, String, Bool, true, false, not, ◌&&◌, Option, none, some, str_eq,
  if◌then◌else◌, first_where, is_none,
}
use data_analytics_platform.Schema.Json.{Fields}
use data_analytics_platform.Operations.Parameters.{
  Fault, validation, unsupported, already_registered, no_columns, Checked, accepted, rejected,
  drop_columns_parameters, rename_columns_parameters, fill_nulls_parameters,
  drop_duplicates_parameters, cast_types_parameters,
}
use data_analytics_platform.Operations.Handlers.{
  Frames, drop_projection_v1, rename_projection_v1, drop_columns_v1, rename_columns_v1,
  fill_nulls_v1, drop_duplicates_v1, cast_types_v1,
}

abbrev pub Projection : Type 0
Projection = List (String × String)

-- `parameters_model` says whether the schema passes; it is given the longest name that is allowed.
pub record OperationDefinition (F : Type 0) : Type 0 where
  pub name : String
  pub semantic_version : String
  pub parameters_model : ℕ → Fields → Bool
  pub engines : List String
  pub preserves_rows : Bool
  pub preserves_order : Bool
  pub preserves_types : Bool
  pub pandas_handler : F → Fields → Checked F
  pub projection_handler : Option (List String → Fields → Checked Projection)

-- The dictionaries as their values, in the order of insertion; each value has its key in it.
pub record OperationRegistry (F : Type 0) : Type 0 where
  pub versions : List (OperationDefinition F)
  pub current : List (OperationDefinition F)

abbrev pub or_unsupported {ℓ} : {A : Type ℓ} → Option A → Checked A
or_unsupported none = rejected unsupported
or_unsupported (some a) = accepted a

infixl 5 ◌>>=◌
abbrev pub ◌>>=◌ {ℓ κ} : {A : Type ℓ} {B : Type κ} → Checked A → (A → Checked B) → Checked B
accepted a >>= f = f a
rejected e >>= f = rejected e

-- The rest of a chain goes on where the test holds.
abbrev pub require : Bool → Fault → Checked (Unit {0})
require true e = accepted tt
require false e = rejected e

abbrev pub is_empty : List String → Bool
is_empty [] = true
is_empty (s ∷ ss) = false

-- The loop over the released definitions; `ValidationError` goes on with the next one.
abbrev pub or_next : Checked Fields → Checked Fields → Checked Fields
or_next (accepted parameters) rest = accepted parameters
or_next (rejected validation) rest = rest
or_next (rejected e) rest = rejected e

module _ {F : Type 0} where
  abbrev pub is_named : String → OperationDefinition F → Bool
  is_named name d = str_eq d.name name

  abbrev pub is_released : String → String → OperationDefinition F → Bool
  is_released name version d = str_eq d.name name && str_eq d.semantic_version version

  unfoldable pub set_current :
      OperationDefinition F → List (OperationDefinition F) → List (OperationDefinition F)
  set_current d [] = d ∷ []
  set_current d (e ∷ es) = if is_named d.name e then d ∷ es else e ∷ set_current d es

  unfoldable pub register :
      OperationDefinition F → Bool → OperationRegistry F → Checked (OperationRegistry F)
  unfolding set_current
  register d current r =
      if is_none (first_where (is_released d.name d.semantic_version) r.versions)
      then accepted (record {
        versions = r.versions ++ d ∷ [];
        current = if current then set_current d r.current else r.current;
      })
      else rejected already_registered

  unfoldable pub released : String → OperationRegistry F → List (OperationDefinition F)
  released operation r = filter (is_named operation) r.versions

  unfoldable pub resolve :
      String → Option String → OperationRegistry F → Checked (OperationDefinition F)
  resolve operation none r = or_unsupported (first_where (is_named operation) r.current)
  resolve operation (some v) r = or_unsupported (first_where (is_released operation v) r.versions)

  unfoldable pub validate_operation :
      ℕ → OperationRegistry F → String → Fields → Option String → Checked Fields
  unfolding resolve
  validate_operation limit r operation parameters version = do
    definition ← resolve operation version r
    require (definition.parameters_model limit parameters) validation >>= λ _. accepted parameters

  unfoldable pub try_released :
      ℕ
      → OperationRegistry F
      → String
      → Fields
      → String
      → List (OperationDefinition F)
      → Checked Fields
  unfolding validate_operation
  try_released limit r operation parameters current [] = rejected validation
  try_released limit r operation parameters current (d ∷ ds) =
      let rest = try_released limit r operation parameters current ds in
      if str_eq d.semantic_version current
      then rest
      else or_next (validate_operation limit r operation parameters (some d.semantic_version)) rest

  unfoldable pub validate_request_operation :
      ℕ → OperationRegistry F → String → Fields → Checked Fields
  unfolding resolve released validate_operation try_released
  validate_request_operation limit r operation parameters = do
    current ← resolve operation none r
    or_next (validate_operation limit r operation parameters (some current.semantic_version))
        (try_released limit r operation parameters current.semantic_version (released operation r))

  unfoldable pub execute_operation :
      Frames F → ℕ → OperationRegistry F → F → String → Fields → Option String → Checked F
  unfolding resolve validate_operation
  execute_operation frames limit r frame operation parameters version = do
    definition ← resolve operation version r
    validated ← validate_operation limit r operation parameters (some definition.semantic_version)
    result ← definition.pandas_handler frame validated
    require (not (is_empty (frames.columns result))) no_columns >>= λ _. accepted result

  unfoldable pub register_all :
      List (OperationDefinition F) → OperationRegistry F → Checked (OperationRegistry F)
  unfolding register
  register_all [] r = accepted r
  register_all (d ∷ ds) r = register d true r >>= register_all ds

-- The registry of the module: the five operations, registered in order.
module _ {F : Type 0} (frames : Frames F) where
  abbrev pub definition :
      String
      → (ℕ → Fields → Bool)
      → List String
      → Bool
      → Bool
      → (F → Fields → Checked F)
      → Option (List String → Fields → Checked Projection)
      → OperationDefinition F
  definition name model engines rows types handler projection = record {
    name = name;
    semantic_version = "1.0.0";
    parameters_model = model;
    engines = engines;
    preserves_rows = rows;
    preserves_order = true;
    preserves_types = types;
    pandas_handler = handler;
    projection_handler = projection;
  }

  abbrev pub all_engines : List String
  all_engines = "pandas" ∷ "polars" ∷ "duckdb" ∷ []

  abbrev pub drop_columns : OperationDefinition F
  drop_columns =
      definition "drop_columns" drop_columns_parameters all_engines true true
        (drop_columns_v1 frames) (some drop_projection_v1)

  abbrev pub rename_columns : OperationDefinition F
  rename_columns =
      definition "rename_columns" rename_columns_parameters all_engines true true
        (rename_columns_v1 frames) (some rename_projection_v1)

  abbrev pub fill_nulls : OperationDefinition F
  fill_nulls =
      definition "fill_nulls" fill_nulls_parameters ("pandas" ∷ []) true false
        (fill_nulls_v1 frames) none

  abbrev pub drop_duplicates : OperationDefinition F
  drop_duplicates =
      definition "drop_duplicates" drop_duplicates_parameters ("pandas" ∷ []) false true
        (drop_duplicates_v1 frames) none

  abbrev pub cast_types : OperationDefinition F
  cast_types =
      definition "cast_types" cast_types_parameters ("pandas" ∷ []) true false
        (cast_types_v1 frames) none

  unfoldable pub operation_registry : Checked (OperationRegistry F)
  unfolding register_all
  operation_registry =
      register_all (drop_columns ∷ rename_columns ∷ fill_nulls ∷ drop_duplicates ∷ cast_types ∷ [])
        (record { versions = []; current = [] })
