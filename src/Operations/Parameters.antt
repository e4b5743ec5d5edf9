-- ===== src/Operations/Parameters.antt =====
-- The parameter schemas of the operations. Pydantic checks a schema as the class declares it: strictly,
-- with no other key. A `dict` is the list of its fields, a name the text of its code points.
use data_analytics_platform.Base.{
  ℕ, List, [], ◌∷◌, String, Bool, true, false, not, ◌&&◌, ◌||◌, Option, none, some, ◌==◌, str_eq,
  if◌then◌else◌, leb, text_length, codes, all_codes, has_code,
}
use data_analytics_platform.Schema.Json.{
  Json, boolean, number, text, array, object, Items, nil, cons, Fields, end, field,
}

-- Why an operation is not accepted: `ValidationError`, `EngineCapabilityError`, or a `ValueError`.
pub data Fault : Type 0 where
  validation capability unsupported already_registered : Fault
  malformed unknown_columns duplicate_names no_columns not_castable : Fault

pub data Checked {ℓ} (A : Type ℓ) : Type ℓ where
  accepted : A → Checked A
  rejected : Fault → Checked A

abbrev pub is_in : String → List String → Bool
is_in s [] = false
is_in s (t ∷ ts) = str_eq s t || is_in s ts

unfoldable pub is_distinct : List String → Bool
is_distinct [] = true
is_distinct (s ∷ ss) = not (is_in s ss) && is_distinct ss

-- `parameters.get(key)`
unfoldable pub get_field : String → Fields → Option Json
get_field key end = none
get_field key (field k v fs) = if str_eq k key then some v else get_field key fs

abbrev pub push {ℓ} : {A : Type ℓ} → A → Option (List A) → Option (List A)
push a none = none
push a (some xs) = some (a ∷ xs)

-- The items of a list of texts, and the entries of a mapping of texts.
unfoldable pub text_items : Items → Option (List String)
text_items nil = some []
text_items (cons (text s) xs) = push s (text_items xs)
text_items (cons _ xs) = none

unfoldable pub text_entries : Fields → Option (List (String × String))
text_entries end = some []
text_entries (field k (text s) fs) = push (k, s) (text_entries fs)
text_entries (field k _ fs) = none

-- The white space that `str.strip` removes.
abbrev pub is_unicode_space : ℕ → Bool
is_unicode_space c =
    (leb 9 c && leb c 13)
    || ((leb 28 c && leb c 32)
        || ((c == 0x85)
            || ((c == 0xa0)
                || ((c == 0x1680)
                    || ((leb 0x2000 c && leb c 0x200a)
                        || ((c == 0x2028)
                            || ((c == 0x2029)
                                || ((c == 0x202f) || ((c == 0x205f) || (c == 0x3000))))))))))

-- `_valid_column_name`
unfoldable pub valid_column_name : ℕ → String → Bool
unfolding text_length
valid_column_name limit s =
    not (all_codes is_unicode_space (codes s))
    && (not (has_code 0 (codes s)) && leb (text_length s) limit)

abbrev pub all_names : ℕ → List String → Bool
all_names limit [] = true
all_names limit (s ∷ ss) = valid_column_name limit s && all_names limit ss

-- Every field has this key and a value that passes.
abbrev pub only_field : String → (Json → Bool) → Fields → Bool
only_field key p end = true
only_field key p (field k v fs) = str_eq k key && (p v && only_field key p fs)

abbrev pub names_pass : ℕ → Option (List String) → Bool
names_pass limit none = false
names_pass limit (some ss) = all_names limit ss && is_distinct ss

abbrev pub columns_pass : ℕ → Json → Bool
columns_pass limit (array xs) = names_pass limit (text_items xs)
columns_pass limit _ = false

-- `DropColumnsParameters`
unfoldable pub drop_columns_parameters : ℕ → Fields → Bool
unfolding valid_column_name is_distinct text_items
drop_columns_parameters limit fs = only_field "columns" (columns_pass limit) fs

abbrev pub sources : List (String × String) → List String
sources [] = []
sources ((s, t) ∷ m) = s ∷ sources m

abbrev pub targets : List (String × String) → List String
targets [] = []
targets ((s, t) ∷ m) = t ∷ targets m

abbrev pub entries_pass : ℕ → Option (List (String × String)) → Bool
entries_pass limit none = false
entries_pass limit (some m) =
    all_names limit (sources m) && (all_names limit (targets m) && is_distinct (targets m))

abbrev pub mapping_pass : ℕ → Json → Bool
mapping_pass limit (object fs) = entries_pass limit (text_entries fs)
mapping_pass limit _ = false

-- `RenameColumnsParameters`
unfoldable pub rename_columns_parameters : ℕ → Fields → Bool
unfolding valid_column_name is_distinct text_entries
rename_columns_parameters limit fs = only_field "mapping" (mapping_pass limit) fs

abbrev pub is_scalar : Json → Bool
is_scalar (boolean b) = true
is_scalar (number n) = true
is_scalar (text s) = true
is_scalar _ = false

abbrev pub values_of : ℕ → (Json → Bool) → Fields → Bool
values_of limit p end = true
values_of limit p (field k v fs) = valid_column_name limit k && (p v && values_of limit p fs)

abbrev pub object_pass : ℕ → (Json → Bool) → Json → Bool
object_pass limit p (object fs) = values_of limit p fs
object_pass limit p _ = false

-- `FillNullsParameters`
unfoldable pub fill_nulls_parameters : ℕ → Fields → Bool
unfolding valid_column_name
fill_nulls_parameters limit fs = only_field "values" (object_pass limit is_scalar) fs

-- `DropDuplicatesParameters`
unfoldable pub drop_duplicates_parameters : ℕ → Fields → Bool
drop_duplicates_parameters limit end = true
drop_duplicates_parameters limit (field k v fs) = false

abbrev pub cast_types : List String
cast_types =
    "string" ∷ "str" ∷ "object" ∷ "bool" ∷ "boolean" ∷ "int8" ∷ "int16" ∷ "int32" ∷ "int64"
    ∷ "uint8" ∷ "uint16" ∷ "uint32" ∷ "uint64" ∷ "Int8" ∷ "Int16" ∷ "Int32" ∷ "Int64" ∷ "UInt8"
    ∷ "UInt16" ∷ "UInt32" ∷ "UInt64" ∷ "float32" ∷ "float64" ∷ "Float32" ∷ "Float64"
    ∷ "datetime64[ns]" ∷ "timedelta64[ns]" ∷ []

abbrev pub is_cast_type : Json → Bool
is_cast_type (text s) = is_in s cast_types
is_cast_type _ = false

-- `CastTypesParameters`
unfoldable pub cast_types_parameters : ℕ → Fields → Bool
unfolding valid_column_name
cast_types_parameters limit fs = only_field "mapping" (object_pass limit is_cast_type) fs
