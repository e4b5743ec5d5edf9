-- ===== src/Operations/Agreement.antt =====
-- The native projection and the Pandas handler of one operation do the same to the columns.
use data_analytics_platform.Base.{
  ℕ, ◌≡◌, refl, sym, ap, subst, ◌∙◌, List, [], ◌∷◌, map, filter, String, Bool, true, false, not,
  Option, none, some, arith, inl, inr, Bool-cases, str_eq,
}
use data_analytics_platform.Schema.Json.{
  Json, null, boolean, number, text, array, object, Fields, end, field,
}
use data_analytics_platform.Operations.Parameters.{
  no_columns, Checked, accepted, rejected, is_in, is_distinct, sources, targets, all_names,
  valid_column_name, text_entries, rename_columns_parameters, mapping_pass, entries_pass,
}
use data_analytics_platform.Operations.Handlers.{
  Frames, all_known, requested_columns, requested_mapping, renamed, same_name, with_target,
  drop_projected, rename_projected, drop_projection_v1, rename_projection_v1, no_null_bytes,
  drop_from, rename_in, drop_columns_v1, rename_columns_v1, entries_of,
}
use data_analytics_platform.Operations.Registry.{
  OperationDefinition, OperationRegistry, Projection, ◌>>=◌, require, resolve, validate_operation,
  is_empty, execute_operation, drop_columns, rename_columns,
}
use data_analytics_platform.Operations.Plan.{nonempty, projection}

sources_same : (xs : List String) → sources (map same_name xs) ≡ xs
sources_same [] = refl
sources_same (x ∷ xs) = ap (λ (ys : List String). x ∷ ys) (sources_same xs)

targets_same : (xs : List String) → targets (map same_name xs) ≡ xs
targets_same [] = refl
targets_same (x ∷ xs) = ap (λ (ys : List String). x ∷ ys) (targets_same xs)

sources_with :
    (m : List (String × String)) (xs : List String) → sources (map (with_target m) xs) ≡ xs
sources_with m [] = refl
sources_with m (x ∷ xs) = ap (λ (ys : List String). x ∷ ys) (sources_with m xs)

targets_with :
    (m : List (String × String)) (xs : List String)
    → targets (map (with_target m) xs) ≡ map (renamed m) xs
targets_with m [] = refl
targets_with m (x ∷ xs) = ap (λ (ys : List String). renamed m x ∷ ys) (targets_with m xs)

is_empty-map : (f : String → String) (xs : List String) → is_empty (map f xs) ≡ is_empty xs
is_empty-map f [] = refl
is_empty-map f (x ∷ xs) = refl

-- Names that the schema has passed hold no null byte.
no_null_names : (limit : ℕ) (ss : List String) → all_names limit ss ≡ true → no_null_bytes ss ≡ true
unfolding valid_column_name
no_null_names limit [] h = refl
no_null_names limit (s ∷ ss) h = ground (arith, no_null_names limit ss)

entries_no_null :
    (limit : ℕ) (o : Option (List (String × String))) (m : List (String × String))
    → o ≡ some m
    → entries_pass limit o ≡ true
    → no_null_bytes (targets m) ≡ true
entries_no_null limit none m e h = absurd (cc)
entries_no_null limit (some m') m e h =
    let same : m' ≡ m = cc in
    subst (λ x. no_null_bytes (targets x) ≡ true) same
      (no_null_names limit (targets m') (ground arith))

value_no_null :
    (limit : ℕ) (v : Json) (m : List (String × String))
    → entries_of (some v) ≡ some m
    → mapping_pass limit v ≡ true
    → no_null_bytes (targets m) ≡ true
value_no_null limit (object fs) m e h = entries_no_null limit (text_entries fs) m e h
value_no_null limit null m e h = absurd (cc)
value_no_null limit (boolean b) m e h = absurd (cc)
value_no_null limit (number n) m e h = absurd (cc)
value_no_null limit (text t) m e h = absurd (cc)
value_no_null limit (array xs) m e h = absurd (cc)

mapping_no_null :
    (limit : ℕ) (fs : Fields) (m : List (String × String))
    → rename_columns_parameters limit fs ≡ true
    → requested_mapping fs ≡ some m
    → no_null_bytes (targets m) ≡ true
unfolding rename_columns_parameters requested_mapping
mapping_no_null limit end m h e = let same : m ≡ [] = cc in rw same refl
mapping_no_null limit (field k v fs) m h e =
    let first : str_eq k "mapping" ≡ true = ground arith in
    let pass : mapping_pass limit v ≡ true = ground arith in
    value_no_null limit v m (rw first at e) pass

module _ {F : Type 0} (frames : Frames F) where
  -- What Pandas documents of the two methods: they drop the columns named, and rename those mapped.
  pub record Behaves : Type 0 where
    pub drops :
        (cs : List String) (f : F)
        → frames.columns (frames.drop cs f) ≡ filter (λ s. not (is_in s cs)) (frames.columns f)
    pub renames :
        (m : List (String × String)) (f : F)
        → frames.columns (frames.rename m f) ≡ map (renamed m) (frames.columns f)

  -- Both succeed, with the same names in the same order, or both fail for the same reason.
  abbrev pub Agrees : Checked F → Checked Projection → Type 0
  Agrees (accepted f) (accepted p) = frames.columns f ≡ targets p
  Agrees (rejected e) (rejected e') = e ≡ e'
  Agrees _ _ = ⊥

  abbrev keeps : F → Checked F
  keeps f = require (not (is_empty (frames.columns f))) no_columns >>= λ _. accepted f

  keeps-Agrees :
      (f : F) (p : Projection)
      → frames.columns f ≡ targets p
      → is_empty (frames.columns f) ≡ is_empty (sources p)
      → Agrees (keeps f) (nonempty p)
  keeps-Agrees f p e h = elim (Bool-cases (is_empty (sources p))) [
    | inl t ↦ let none_left : is_empty (frames.columns f) ≡ true = h ∙ t in rw none_left (rw t refl)
    | inr t ↦ let some_left : is_empty (frames.columns f) ≡ false = h ∙ t in rw some_left (rw t e)
  ]

  drop-Agrees :
      (b : Behaves) (f : F) (o : Option (List String))
      → Agrees (drop_from frames f o >>= keeps) (drop_projected (frames.columns f) o >>= nonempty)
  drop-Agrees b f none = refl
  drop-Agrees b f (some cs) = elim (Bool-cases (all_known (frames.columns f) cs)) [
    | inr e ↦ rw e refl
    | inl e ↦
        let left = filter (λ s. not (is_in s cs)) (frames.columns f) in
        rw e (
          keeps-Agrees (frames.drop cs f) (map same_name left)
            (b.drops cs f ∙ sym (targets_same left))
            (ap is_empty (b.drops cs f ∙ sym (sources_same left))))
  ]

  rename-Agrees :
      (b : Behaves) (f : F) (o : Option (List (String × String)))
      → ((m : List (String × String)) → o ≡ some m → no_null_bytes (targets m) ≡ true)
      → Agrees (rename_in frames f o >>= keeps) (rename_projected (frames.columns f) o >>= nonempty)
  rename-Agrees b f none h = refl
  rename-Agrees b f (some m) h =
      let clean = h m refl in
      elim (Bool-cases (all_known (frames.columns f) (sources m))) [
        | inr e ↦ rw clean (rw e refl)
        | inl e ↦ elim (Bool-cases (is_distinct (map (renamed m) (frames.columns f)))) [
          | inr d ↦ rw clean (rw e (rw d refl))
          | inl d ↦
              let xs = frames.columns f in
              rw clean (
                rw e (
                  rw d (
                    keeps-Agrees (frames.rename m f) (map (with_target m) xs)
                      (b.renames m f ∙ sym (targets_with m xs))
                      (ap is_empty (b.renames m f)
                        ∙ is_empty-map (renamed m) xs
                        ∙ ap is_empty (sym (sources_with m xs))))))
        ]
      ]

  -- The two operations that the native engines run.
  abbrev pub native : Bool → OperationDefinition F
  native true = drop_columns frames
  native false = rename_columns frames

  -- Where a registry has released drop_columns or rename_columns as the module defines it, and Pandas
  -- drops and renames columns as it documents: on a frame of distinct column names, and parameters that
  -- the schema passes, the Pandas execution and the projection for the native engines either both give
  -- the same column names in the same order, or both fail for the same reason.
  pub execute_operation-Agrees :
      (b : Behaves) (is_drop : Bool) (limit : ℕ) (r : OperationRegistry F) (f : F)
      (operation : String) (fs : Fields)
      → resolve operation (some "1.0.0") r ≡ accepted (native is_drop)
      → (native is_drop).parameters_model limit fs ≡ true
      → is_distinct (frames.columns f) ≡ true
      → Agrees (execute_operation frames limit r f operation fs (some "1.0.0")) (
          projection r
            (record { operation = operation; parameters = fs; operation_version = "1.0.0" })
            (frames.columns f))
  unfolding execute_operation validate_operation projection drop_columns_v1 drop_projection_v1
      rename_columns_v1 rename_projection_v1
  execute_operation-Agrees b true limit r f operation fs e pass distinct =
      rw e (rw e (rw pass (rw distinct (drop-Agrees b f (requested_columns fs)))))
  execute_operation-Agrees b false limit r f operation fs e pass distinct = rw e (
      rw e (
        rw pass (
          rw distinct
            (rename-Agrees b f (requested_mapping fs) (λ m h. mapping_no_null limit fs m pass h)))))
