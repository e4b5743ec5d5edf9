-- ===== src/Datasets/Heads.antt =====
-- What moves a head: the end of a run and an undo, each with its receipt.
use data_analytics_platform.Base.{
  ℕ, ◌+◌, ◌≡◌, refl, sym, ap, ◌∙◌, subst, [], ◌∷◌, ◌++◌, String, Bool, true, some, ◌==◌, eq_iff,
  arith, inl, inr, Bool-cases, if◌then◌else◌, first_where-sat, first_where-update_same, count_where,
}
use data_analytics_platform.Schema.Catalog.{Catalog, Dataset, Transformation, DatasetEvent}
use data_analytics_platform.Artifacts.Table.{Storage}
use data_analytics_platform.Datasets.Session.{
  is_dataset, is_transformation, set_datasets, set_transformations, find_dataset,
}
use data_analytics_platform.Datasets.Audit.{collides, transformation_event, undo_event}
use data_analytics_platform.Datasets.Audit.{MaterializedArtifact}
use data_analytics_platform.Datasets.Execute.{
  Attempt, Finishing, is_current, is_head, advanced, materialized, advance,
}
use data_analytics_platform.Datasets.Undo.{
  UndoRequest, Undoing, Observation, is_undoable, restored, undone, restore,
}
use data_analytics_platform.Datasets.Ledger.{head, Leads, Extends, Extends-trans}
use data_analytics_platform.Datasets.Steps.{set_transformations-Extends, Ensures}

some-injective : (a b : Dataset) → some a ≡ some b → a ≡ b
some-injective a b h = cc

-- The catalog where one dataset's head moves and the receipt of that is added.
module _ (c : Catalog) (p : Dataset → Bool) (f : Dataset → Dataset) (e : DatasetEvent) where
  abbrev pub moved : Catalog
  moved = record c { datasets = (set_datasets p f c).datasets; events = c.events ++ e ∷ [] }

  pub moved-Extends :
      (d : Dataset)
      → find_dataset e.dataset_id c ≡ some d
      → p d ≡ true
      → ((x : Dataset) → (f x).id ≡ x.id)
      → ((x : Dataset) → p x ≡ true → x.id ≡ e.dataset_id)
      → e.previous_version ≡ d.version
      → e.input_path ≡ d.stored_path
      → e.result_version ≡ d.version + 1
      → head (f d) ≡ (e.result_version, e.output_path)
      → Extends c moved
  moved-Extends d g t ids only v i r h = record {
    receipts = e ∷ [];
    appended = refl;
    heads = λ id x k. (
      if p x then f x else x,
      first_where-update_same (is_dataset id) p f (λ y. ap (λ n. n == id) (ids y)) c.datasets x k,
      linked id x k,
    );
    requests = λ id x k. (x, k, (refl, refl, refl));
  }
    where
      linked :
          (id : ℕ) (x : Dataset)
          → find_dataset id c ≡ some x
          → Leads id (head x) (e ∷ []) (head (if p x then f x else x))
      linked id x k = elim (Bool-cases (e.dataset_id == id)) [
        | inl own ↦
            let named : e.dataset_id ≡ id = ground arith in
            let same : d ≡ x = some-injective d x (sym g ∙ ap (λ n. find_dataset n c) named ∙ k) in
            let chosen : p x ≡ true = subst (λ y. p y ≡ true) same t in
            rw own (
              rw chosen (
                v ∙ ap (λ (y : Dataset). y.version) same,
                i ∙ ap (λ (y : Dataset). y.stored_path) same,
                r ∙ ap (λ (y : Dataset). y.version + 1) same,
                subst (λ y. head (f y) ≡ (e.result_version, e.output_path)) same h,
              ))
        | inr other ↦ elim (Bool-cases (p x)) [
          | inl chosen ↦
              let id_x = first_where-sat (is_dataset id) c.datasets x k in
              let id_e = only x chosen in absurd (ground arith)
          | inr left ↦ rw other (rw left refl)
        ]
      ]

current_head :
    (d : Dataset) (v : ℕ) (path : String)
    → is_current d v path ≡ true
    → (d.version ≡ v) × (d.stored_path ≡ path)
current_head d v path h = (ground arith, ground (arith, eq_iff d.stored_path path))

is_head_current :
    (a : Attempt) (d : Dataset)
    → is_dataset a.dataset_id d ≡ true
    → is_current d a.expected_version a.input_path ≡ true
    → is_head a d ≡ true
is_head_current a d i h = ground arith

is_head_id : (a : Attempt) (d : Dataset) → is_head a d ≡ true → d.id ≡ a.dataset_id
is_head_id a d h = ground arith

-- The end of a run, where the run works for the request of the row and the dataset is still current.
module _ (w : Finishing) (a : Attempt) (x : MaterializedArtifact) (t : Transformation) (d : Dataset)
    (st : Storage) where
  advance-receipt : DatasetEvent
  advance-receipt =
      transformation_event w.event_id w.context (w.fingerprint (materialized a x t)) x
        (materialized a x t)

  pub advance-Extends :
      find_dataset a.dataset_id st.catalog ≡ some d
      → is_current d a.expected_version a.input_path ≡ true
      → t.dataset_id ≡ a.dataset_id
      → t.expected_version ≡ a.expected_version
      → t.input_path ≡ a.input_path
      → Ensures (λ r s. Extends st.catalog s.catalog) (advance w a x t st)
  unfolding advance advance-receipt
  advance-Extends g current own version path =
      elim (Bool-cases (count_where (is_head a) st.catalog.datasets == 1)) [
        | inr e ↦ rw e tt
        | inl e ↦
            elim (Bool-cases (count_where (collides advance-receipt) st.catalog.events == 0)) [
              | inr n ↦ rw e (rw n tt)
              | inl n ↦ rw e (
                  rw n (
                    Extends-trans st.catalog noted
                      (moved noted (is_head a) (advanced a x) advance-receipt)
                      (set_transformations-Extends (is_transformation a.transformation_id)
                        (materialized a x) st.catalog (λ y. refl) (λ y. (refl, refl, refl)))
                      (moved-Extends noted (is_head a) (advanced a x) advance-receipt d
                        (ap (λ n. find_dataset n st.catalog) own ∙ g)
                        (is_head_current a d
                          (first_where-sat (is_dataset a.dataset_id) st.catalog.datasets d g)
                          current)
                        (λ y. refl) (λ y k. is_head_id a y k ∙ sym own)
                        (version ∙ sym (current_head d a.expected_version a.input_path current).0)
                        (path ∙ sym (current_head d a.expected_version a.input_path current).1)
                        (ap (λ n. n + 1)
                          (version
                            ∙ sym (current_head d a.expected_version a.input_path current).0))
                        (ap (λ n. (n + 1, a.final_path)) (sym version)))))
            ]
      ]
    where
      noted : Catalog
      noted =
          set_transformations (is_transformation a.transformation_id) (materialized a x) st.catalog

undoable_head :
    (d : Dataset) (t : Transformation)
    → is_undoable d t ≡ true
    → (t.dataset_id ≡ d.id) × (t.output_path ≡ d.stored_path)
undoable_head d t h = (ground arith, ground (arith, eq_iff t.output_path d.stored_path))

-- An undo, where the transformation made the dataset's head.
module _ (w : Undoing) (q : UndoRequest) (o : Observation) (d : Dataset) (t : Transformation)
    (st : Storage) where
  restore-receipt : DatasetEvent
  restore-receipt =
      undo_event w.event_id w.context q.user_id q.expected_version q.idempotency_key
        (w.fingerprint d.id q.expected_version) o.manifest_id (undone w.now t)

  pub restore-Extends :
      find_dataset d.id st.catalog ≡ some d
      → is_undoable d t ≡ true
      → d.version ≡ q.expected_version
      → Ensures (λ r s. Extends st.catalog s.catalog) (restore w q o d t st)
  unfolding restore restore-receipt
  restore-Extends g made version =
      elim (Bool-cases (count_where (collides restore-receipt) st.catalog.events == 0)) [
        | inr n ↦ rw n tt
        | inl n ↦ rw n (
            Extends-trans st.catalog noted
              (moved noted (is_dataset d.id) (restored t) restore-receipt)
              (set_transformations-Extends (is_transformation t.id) (undone w.now) st.catalog
                (λ y. refl) (λ y. (refl, refl, refl)))
              (moved-Extends noted (is_dataset d.id) (restored t) restore-receipt d
                (ap (λ n. find_dataset n st.catalog) (undoable_head d t made).0 ∙ g)
                (first_where-sat (is_dataset d.id) st.catalog.datasets d g) (λ y. refl)
                (λ y k. is_dataset_id y k ∙ sym (undoable_head d t made).0) (sym version)
                (undoable_head d t made).1 (ap (λ n. n + 1) (sym version))
                (ap (λ n. (n + 1, t.input_path)) version)))
      ]
    where
      noted : Catalog
      noted = set_transformations (is_transformation t.id) (undone w.now) st.catalog

      is_dataset_id : (y : Dataset) → is_dataset d.id y ≡ true → y.id ≡ d.id
      is_dataset_id y k = ground arith
