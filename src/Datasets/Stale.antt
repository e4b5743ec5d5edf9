-- ===== src/Datasets/Stale.antt =====
-- A run that comes too late: the dataset has moved past the version that the run was asked for.
use data_analytics_platform.Base.{
  ℕ, ◌+◌, ◌≡◌, ◌<◌, refl, sym, ap, ◌∙◌, subst, List, String, Bool, true, not, ◌&&◌, Option, some,
  arith, count_where,
}
use data_analytics_platform.Schema.{Result, ok, err, ServiceError, dataset_changed}
use data_analytics_platform.Schema.Catalog.{Dataset}
use data_analytics_platform.Artifacts.Table.{Storage}
use data_analytics_platform.Jobs.Admission.{lock_owner}
use data_analytics_platform.Jobs.Worker.{ensure_active, progress, job_lease_seconds}
use data_analytics_platform.Datasets.Session.{
  on_database, or_raise, require, settle, find_dataset, find_transformation,
}
use data_analytics_platform.Datasets.Quota.{ensure_output_size}
use data_analytics_platform.Datasets.Audit.{MaterializedArtifact}
use data_analytics_platform.Datasets.Execute.{
  Attempt, Finishing, is_current, is_closed, finish_execution, complete_transformation,
}
use data_analytics_platform.Datasets.Steps.{
  Ensures, and_then-Ensures, require-Ensures, or_raise-Ensures, same-Ensures,
}
use data_analytics_platform.Datasets.History.{Call, run, idle}
use data_analytics_platform.Datasets.Traced.{of_dataset, Leads-count, run-Extends}

refused :
    {A : Type 0} (st : Storage) (r : Result A × Storage)
    → Ensures (λ a s. ⊥) r
    → (e : ServiceError) × (settle st r ≡ (err e, st))
refused st (ok a, s) h = absurd h
refused st (err e, s) h = (e, refl)

not_current :
    (d : Dataset) (version : ℕ) (path : String) (open_ : Bool)
    → version < d.version
    → (is_current d version path && open_) ≡ true
    → ⊥
not_current d version path open_ h k = ground arith

some_of {ℓ} : {A : Type ℓ} (o : Option A) (a b : A) → o ≡ some a → o ≡ some b → a ≡ b
some_of o a b f g = same (sym f ∙ g)
  where
    same : some a ≡ some b → a ≡ b
    same h = cc

module _ (w : Finishing) (a : Attempt) (x : MaterializedArtifact) where
  finish_execution_late :
      (st : Storage) (d : Dataset)
      → find_dataset a.dataset_id st.catalog ≡ some d
      → a.expected_version < d.version
      → Ensures (λ r s. ⊥) (finish_execution w a x st)
  unfolding finish_execution
  finish_execution_late st d found late =
      and_then-Ensures _ (λ r s. ⊥) (ensure_output_size w.space x.size_bytes st) _
        (same-Ensures (ensure_output_size w.space x.size_bytes st) st.catalog refl)
        λ small s1 e1.
          and_then-Ensures _ (λ r s. ⊥) (on_database (λ db. (lock_owner db a.owner_id, db)) s1) _
            (same-Ensures (on_database (λ db. (lock_owner db a.owner_id, db)) s1) st.catalog e1)
            λ locked s2 e2.
              and_then-Ensures _ (λ r s. ⊥)
                (on_database
                  (ensure_active a.task_id (some a.attempt_token) job_lease_seconds w.active_clock)
                  s2)
                _
                (same-Ensures
                  (on_database
                    (ensure_active a.task_id (some a.attempt_token) job_lease_seconds
                      w.active_clock)
                    s2)
                  st.catalog e2)
                λ active s3 e3.
                  and_then-Ensures _ (λ r s. ⊥)
                    (on_database
                      (progress a.task_id a.attempt_token 90 "persisting" job_lease_seconds
                        w.progress_clock)
                      s3)
                    _
                    (same-Ensures
                      (on_database
                        (progress a.task_id a.attempt_token 90 "persisting" job_lease_seconds
                          w.progress_clock)
                        s3)
                      st.catalog e3)
                    λ fenced s4 e4.
                      and_then-Ensures _ (λ r s. ⊥)
                        (or_raise (find_transformation a.transformation_id s4.catalog)
                          dataset_changed s4)
                        _
                        (or_raise-Ensures (find_transformation a.transformation_id s4.catalog)
                          dataset_changed s4)
                        λ t s5 e5.
                          and_then-Ensures _ (λ r s. ⊥)
                            (or_raise (find_dataset a.dataset_id s4.catalog) dataset_changed s5) _
                            (or_raise-Ensures (find_dataset a.dataset_id s4.catalog) dataset_changed
                              s5)
                            λ d' s6 e6.
                              and_then-Ensures _ (λ r s. ⊥)
                                (require
                                  (is_current d' a.expected_version a.input_path
                                    && not (is_closed t.status))
                                  dataset_changed s6)
                                _
                                (require-Ensures
                                  (is_current d' a.expected_version a.input_path
                                    && not (is_closed t.status))
                                  dataset_changed s6)
                                λ current s7 e7.
                                  let same : d ≡ d' =
                                    some_of (find_dataset a.dataset_id s4.catalog) d d'
                                      (ap (find_dataset a.dataset_id) e4 ∙ found) e6.0 in
                                  absurd (
                                    not_current d' a.expected_version a.input_path
                                      (not (is_closed t.status))
                                      (subst (λ (y : Dataset). a.expected_version < y.version) same
                                        late)
                                      e7.0)

  complete_transformation_late :
      (st : Storage) (d : Dataset)
      → find_dataset a.dataset_id st.catalog ≡ some d
      → a.expected_version < d.version
      → (e : ServiceError) × (complete_transformation w a x st ≡ (err e, st))
  unfolding complete_transformation
  complete_transformation_late st d found late = refused st _ (
      and_then-Ensures (λ r s. ⊥) (λ r s. ⊥) (finish_execution w a x st) _
        (finish_execution_late st d found late) λ t s1 none. absurd none)

  -- Once a dataset is past the version that a run was asked for, then after any history the run can
  -- only be refused, and its last transaction writes nothing.
  pub complete_transformation-run :
      {F : Type 0} (cs : List (Call F)) (st : Storage) (d : Dataset)
      → find_dataset a.dataset_id st.catalog ≡ some d
      → a.expected_version < d.version
      → (e : ServiceError) × (complete_transformation w a x (run cs (idle st)).storage
          ≡ (err e, (run cs (idle st)).storage))
  complete_transformation-run cs st d found late =
      let e = run-Extends cs st in
      let (d', found', l) = e.heads a.dataset_id d found in
      let grown : d'.version ≡ d.version + count_where (of_dataset a.dataset_id) e.receipts =
        Leads-count a.dataset_id e.receipts (d.version, d.stored_path) (d'.version, d'.stored_path)
          l in
      complete_transformation_late (run cs (idle st)).storage d' found' (omega (arith, late, grown))
