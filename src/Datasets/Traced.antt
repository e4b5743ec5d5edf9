-- ===== src/Datasets/Traced.antt =====
-- Every history of a dataset is told by its receipts.
use data_analytics_platform.Base.{
  ℕ, zero, suc, true, count_where, count_where-append, ◌+◌, ◌≡◌, refl, sym, ap, ◌∙◌, subst, List,
  [], ◌∷◌, Bool, some, ◌==◌, arith, inl, inr, Bool-cases, All, All-append, first_where-sat,
}
use data_analytics_platform.Schema.{Result, ok, err}
use data_analytics_platform.Schema.Catalog.{Catalog, Dataset, Transformation, DatasetEvent}
use data_analytics_platform.Artifacts.Table.{Storage}
use data_analytics_platform.Datasets.Session.{find_dataset, find_transformation, is_transformation}
use data_analytics_platform.Datasets.Audit.{MaterializedArtifact}
use data_analytics_platform.Datasets.Execute.{
  Attempt, Begun, already, running, Beginning, begin_execution, Finishing,
}
use data_analytics_platform.Datasets.Ledger.{Head, Leads, Extends, Extends-refl, Extends-trans}
use data_analytics_platform.Datasets.Steps.{Ensures}
use data_analytics_platform.Datasets.Admitted.{
  transform_dataset-Extends, begin_execution-AlwaysKeeps, begin_execution-Named, Named,
}
use data_analytics_platform.Datasets.Completion.{
  Captured, complete_transformation-Extends, undo_observed-Extends,
}
use data_analytics_platform.Datasets.Closed.{
  start_transformation-Extends, cancel_run-Extends, fail_run-Extends, retry_run-Extends,
  recover_finalization-Extends,
}
use data_analytics_platform.Datasets.History.{
  Platform, Call, admitting, starting, beginning, completing, undoing, cancelling, failing,
  retrying, recovering, elsewhere, begun, run_at, complete_run, step, run, idle,
}

Captured-Extends : (a : Attempt) (c c' : Catalog) → Extends c c' → Captured a c → Captured a c'
Captured-Extends a c c' e (t, f, own, version, path) =
    let (t', f', same) = e.requests a.transformation_id t f in
    (t', f', same.0 ∙ own, same.1 ∙ version, same.2 ∙ path)

abbrev AllCaptured : Platform → Type 0
AllCaptured p = All (λ a. Captured a p.storage.catalog) p.runs

AllCaptured-Extends :
    (rs : List Attempt) (c c' : Catalog)
    → Extends c c'
    → All (λ a. Captured a c) rs
    → All (λ a. Captured a c') rs
AllCaptured-Extends [] c c' e k = tt
AllCaptured-Extends (a ∷ rs) c c' e k =
    (Captured-Extends a c c' e k.0, AllCaptured-Extends rs c c' e k.1)

Named-Captured :
    (w : Beginning) (id : ℕ) (c : Catalog) (a : Attempt) → Named w id c (running a) → Captured a c
Named-Captured w id c a (t, found, (task, same)) =
    let named : t.id ≡ id =
      key t id (first_where-sat (is_transformation id) c.transformations t found) in
    subst (λ x. Captured x c) (sym same)
      (t, subst (λ n. find_transformation n c ≡ some t) (sym named) found, refl, refl, refl)
  where
    key : (t : Transformation) (id : ℕ) → is_transformation id t ≡ true → t.id ≡ id
    key t id h = ground arith

-- One step extends the ledger, and what has begun stays captured.
abbrev Traced : Platform → Platform → Type 0
Traced p p' = Extends p.storage.catalog p'.storage.catalog × AllCaptured p'

begun-Traced :
    (w : Beginning) (id : ℕ) (p : Platform)
    → AllCaptured p
    → Traced p (begun p.runs (begin_execution w id p.storage))
begun-Traced w id p k =
    each (begin_execution w id p.storage) (begin_execution-AlwaysKeeps w id p.storage)
      (begin_execution-Named w id p.storage)
  where
    each :
        (r : Result Begun × Storage)
        → Extends p.storage.catalog r.1.catalog
        → Ensures (λ b s. Named w id p.storage.catalog b) r
        → Traced p (begun p.runs r)
    each (ok (running a), st) e n = (
      e,
      All-append (λ x. Captured x st.catalog) p.runs (a ∷ [])
          (AllCaptured-Extends p.runs p.storage.catalog st.catalog e k)
          (
            Captured-Extends a p.storage.catalog st.catalog e
                (Named-Captured w id p.storage.catalog a n),
            tt,
          ),
    )
    each (ok (already t), st) e n = (e, AllCaptured-Extends p.runs p.storage.catalog st.catalog e k)
    each (err x, st) e n = (e, AllCaptured-Extends p.runs p.storage.catalog st.catalog e k)

complete_run-Extends :
    (w : Finishing) (x : MaterializedArtifact) (n : ℕ) (rs : List Attempt) (st : Storage)
    → All (λ a. Captured a st.catalog) rs
    → Extends st.catalog (complete_run w x (run_at n rs) st).catalog
complete_run-Extends w x n [] st k = Extends-refl st.catalog
complete_run-Extends w x zero (a ∷ rs) st k = complete_transformation-Extends w a x st k.0
complete_run-Extends w x (suc n) (a ∷ rs) st k = complete_run-Extends w x n rs st k.1

both :
    (p : Platform) (c : Catalog)
    → AllCaptured p
    → Extends p.storage.catalog c
    → Extends p.storage.catalog c × All (λ a. Captured a c) p.runs
both p c k e = (e, AllCaptured-Extends p.runs p.storage.catalog c e k)

-- Receipts that lead from one head to another count the versions between.
abbrev pub of_dataset : ℕ → DatasetEvent → Bool
of_dataset id e = e.dataset_id == id

pub Leads-count :
    (id : ℕ) (es : List DatasetEvent) (h h' : Head)
    → Leads id h es h'
    → h'.0 ≡ h.0 + count_where (of_dataset id) es
unfolding count_where
Leads-count id [] h h' l = ap (λ (x : Head). x.0) l ∙ omega arith
Leads-count id (e ∷ es) h h' l = elim (Bool-cases (e.dataset_id == id)) [
  | inl q ↦
      let k = rw q at l in
      let n = Leads-count id es (e.result_version, e.output_path) h' k.3 in
      rw q (rw n (rw k.2 (omega arith)))
  | inr q ↦ let n = Leads-count id es h h' (rw q at l) in rw q (rw n (omega arith))
]

module _ {F : Type 0} where
  step-Traced : (p : Platform) (c : Call F) → AllCaptured p → Traced p (step p c)
  unfolding step
  step-Traced p (beginning w id) k = begun-Traced w id p k
  step-Traced p (admitting s w a q) k = both p _ k (transform_dataset-Extends w q s a p.storage)
  step-Traced p (starting task token seconds c id) k =
      both p _ k (start_transformation-Extends task token seconds c id p.storage)
  step-Traced p (completing n w x) k = both p _ k (complete_run-Extends w x n p.runs p.storage k)
  step-Traced p (undoing w q o stat) k = both p _ k (undo_observed-Extends w q o stat p.storage)
  step-Traced p (cancelling w task token c id) k =
      both p _ k (cancel_run-Extends w task token c id p.storage)
  step-Traced p (failing task token message c now id) k =
      both p _ k (fail_run-Extends task token message c now id p.storage)
  step-Traced p (retrying task token message c id) k =
      both p _ k (retry_run-Extends task token message c id p.storage)
  step-Traced p (recovering w task token message c id) k =
      both p _ k (recover_finalization-Extends w message task token c id p.storage)
  step-Traced p (elsewhere db rows) k = both p _ k (Extends-refl p.storage.catalog)

  run-Traced : (cs : List (Call F)) (p : Platform) → AllCaptured p → Traced p (run cs p)
  unfolding run
  run-Traced [] p k = (Extends-refl p.storage.catalog, k)
  run-Traced (c ∷ cs) p k =
      let (e, k') = step-Traced p c k in
      let (e', k'') = run-Traced cs (step p c) k' in
      (
        Extends-trans p.storage.catalog (step p c).storage.catalog
            (run cs (step p c)).storage.catalog e e',
        k'',
      )

  -- For every history: receipts are only added; for each dataset that was there, the new ones lead from
  -- its version and path, receipt by receipt, to its version and path at the end; no dataset and no
  -- transformation is lost, and no transformation's request changes.
  pub run-Extends :
      (cs : List (Call F)) (st : Storage) → Extends st.catalog (run cs (idle st)).storage.catalog
  run-Extends cs st = (run-Traced cs (idle st) tt).0

  -- What is between a dataset's version and the number of its receipts stays the same.
  pub run-version :
      (cs : List (Call F)) (st : Storage) (id : ℕ) (d : Dataset)
      → find_dataset id st.catalog ≡ some d
      → (d' : Dataset) × (find_dataset id (run cs (idle st)).storage.catalog ≡ some d')
        × (d'.version + count_where (of_dataset id) st.catalog.events
            ≡ d.version + count_where (of_dataset id) (run cs (idle st)).storage.catalog.events)
  run-version cs st id d found =
      let e = run-Extends cs st in
      let (d', found', l) = e.heads id d found in
      (
        d',
        found',
        rw e.appended (
            rw (count_where-append (of_dataset id) st.catalog.events e.receipts) (
              rw
                (Leads-count id e.receipts (d.version, d.stored_path) (d'.version, d'.stored_path)
                  l)
                (omega arith))),
      )
