-- ===== src/Datasets/Admitted.antt =====
-- What the steps before the engine keep: the admission of a transformation and the start of its run.
use data_analytics_platform.Base.{
  ℕ, ◌≡◌, refl, ap, subst, String, Bool, true, false, Option, none, some, ◌==◌, inl, inr,
  Bool-cases, if◌then◌else◌, first_where, count_where, not, ◌&&◌, is_none, str_eq,
}
use data_analytics_platform.Schema.{
  ok, err, Settings, dataset_not_found, version_changed, not_ready, refusal, key_reused,
  transformation_not_found, no_durable_job, dataset_changed, os_error, bad_key,
}
use data_analytics_platform.Schema.Catalog.{Catalog, Dataset, Transformation}
use data_analytics_platform.Artifacts.Table.{Storage}
use data_analytics_platform.Artifacts.Writer.{
  Paths, Reservation, reserve, job_runs, collides, reserved_row,
}
use data_analytics_platform.Jobs.Clock.{Clock}
use data_analytics_platform.Jobs.Worker.{get, ensure_active, job_lease_seconds}
use data_analytics_platform.Operations.Parameters.{Checked, accepted, rejected}
use data_analytics_platform.Operations.Plan.{TransformationPlan}
use data_analytics_platform.Jobs.Admission.{lock_owner}
use data_analytics_platform.Datasets.Session.{
  pure, or_raise, on_database, ◌>>=◌, get_storage, owned_dataset, is_dataset, is_transformation,
  find_transformation, find_dataset,
}
use data_analytics_platform.Datasets.Prepare.{
  is_valid_key, Preparing, TransformationRequest, Admission, capable, insert_transformation,
  clashes, transforming, prepare_new, prepare_or_reuse, prepare_transformation, new_transformation,
  plan_of, is_key, is_same_request, admit, with_task, register_job, created_job, published_job,
  transform_dataset, is_ready,
}
use data_analytics_platform.Datasets.Execute.{
  Beginning, Begun, Attempt, running, already, is_settled, checkpoint, attempt_of, reserve_output,
  reserve_steps, reservation_of, is_current, ensure_input, begin_found, begin_running,
  remaining_quota, begin_execution,
}
use data_analytics_platform.Datasets.Ledger.{Extends}
use data_analytics_platform.Datasets.Steps.{
  append_transformation-Extends, Keeps, same-Keeps, or_raise-Keeps, lift-Keeps, on_database-Keeps,
  transaction-Keeps, require-Keeps, bind-Keeps, modify_datasets-Keeps, modify_transformations-Keeps,
  Ensures, weaken-Ensures, or_raise-Ensures, and_then-Ensures, anything-Ensures, AlwaysKeeps,
  same-AlwaysKeeps, or_raise-AlwaysKeeps, bind-AlwaysKeeps,
}
use data_analytics_platform.Datasets.Quota.{
  ensure_storage_quota, ensure_output_size, ensure_capacity,
}

insert_transformation-Keeps : (t : Transformation) → Keeps (insert_transformation t)
unfolding insert_transformation
insert_transformation-Keeps t st st' a h =
    elim (Bool-cases (count_where (clashes t) st.catalog.transformations == 0)) [
      | inl e ↦
          let g = rw e at h in
          subst (Extends st.catalog) (ap (λ r. r.1.catalog) g)
            (append_transformation-Extends st.catalog t)
      | inr e ↦ absurd (cc (ap (λ r. r.0) (rw e at h)))
    ]

module _ {F : Type 0} (w : Preparing F) (q : TransformationRequest) where
  capable-Keeps : (r : Checked TransformationPlan) → Keeps (capable r)
  capable-Keeps (accepted p) = same-Keeps (pure p) (λ st. refl)
  capable-Keeps (rejected e) = lift-Keeps _

  prepare_new-Keeps : (d : Dataset) → Keeps (prepare_new w q d)
  prepare_new-Keeps d = bind-Keeps _ _ (require-Keeps (is_ready d.status) not_ready) λ ready.
      bind-Keeps _ _ (require-Keeps (d.version == q.expected_version) version_changed) λ current.
        bind-Keeps (plan_of w q d) _ (capable-Keeps _) λ plan.
          bind-Keeps _ _
            (modify_datasets-Keeps (is_dataset d.id) transforming (λ x. refl) (λ x. refl))
            λ marked.
              bind-Keeps _ _ (insert_transformation-Keeps (new_transformation w q d plan))
                λ t. same-Keeps (pure (t, true)) (λ st. refl)

  prepare_or_reuse-Keeps :
      (d : Dataset) (o : Option Transformation) → Keeps (prepare_or_reuse w q d o)
  prepare_or_reuse-Keeps d none = prepare_new-Keeps d
  prepare_or_reuse-Keeps d (some t) =
      lift-Keeps (if is_same_request w q t then ok (t, false) else err (refusal key_reused))

  prepare_transformation-Keeps : Keeps (prepare_transformation w q)
  unfolding prepare_transformation
  prepare_transformation-Keeps =
      bind-Keeps _ _ (on_database-Keeps (λ db. (lock_owner db q.user_id, db))) λ locked.
        bind-Keeps get_storage _ (same-Keeps get_storage (λ st. refl)) λ st.
          bind-Keeps _ _
            (or_raise-Keeps (owned_dataset q.dataset_id q.user_id st.catalog) dataset_not_found)
            λ d.
              prepare_or_reuse-Keeps d
                (first_where (is_key d.id q.user_id q.idempotency_key) st.catalog.transformations)

  register_job-Keeps :
      (s : Settings) (a : Admission) (t : Transformation)
      → Keeps (
          register_job s a.task_id q.user_id q.dataset_id t.id a.context a.now a.event_id
            (a.argument t.id))
  register_job-Keeps s a t =
      bind-Keeps _ _
        (on_database-Keeps (created_job s a.task_id q.user_id q.dataset_id t.id a.context a.now))
        λ job.
          on_database-Keeps (published_job a.event_id a.task_id (a.argument t.id) a.context a.now)

  admit-Keeps : (s : Settings) (a : Admission) (r : Transformation × Bool) → Keeps (admit s a q r)
  admit-Keeps s a (t, created) = elim (Bool-cases (not created && not (is_none t.task_id))) [
    | inl e ↦ rw e (same-Keeps (pure (t, created)) (λ st. refl))
    | inr e ↦ rw e (
        bind-Keeps _ _
          (modify_transformations-Keeps (is_transformation t.id) (with_task a.task_id) (λ x. refl)
            (λ x. (refl, refl, refl)))
          λ tasked.
            bind-Keeps
              (register_job s a.task_id q.user_id q.dataset_id t.id a.context a.now a.event_id
                (a.argument t.id))
              _ (register_job-Keeps s a t)
              λ registered. same-Keeps (pure (with_task a.task_id t, created)) (λ st. refl))
  ]

  pub transform_dataset-Extends :
      (s : Settings) (a : Admission) (st : Storage)
      → Extends st.catalog (transform_dataset s w a q st).1.catalog
  unfolding transform_dataset
  transform_dataset-Extends s a = transaction-Keeps _ (
      bind-Keeps _ _ (require-Keeps (is_valid_key w.is_blank q.idempotency_key) bad_key) λ key.
        bind-Keeps get_storage _ (same-Keeps get_storage (λ st. refl)) λ st.
          bind-Keeps _ _
            (or_raise-Keeps (owned_dataset q.dataset_id q.user_id st.catalog) dataset_not_found)
            λ d.
              bind-Keeps (prepare_transformation w q) (admit s a q) prepare_transformation-Keeps
                (admit-Keeps s a))

-- The same of the start of a run.
reserve-catalog :
    (p : Paths) (q : Reservation) (now : ℕ) (st : Storage)
    → (reserve p q now st).1.catalog ≡ st.catalog
unfolding reserve
reserve-catalog p q now st =
    elim (Bool-cases (str_eq (p.abspath q.final_path) (p.abspath q.temporary_path))) [
      | inl e ↦ rw e refl
      | inr e ↦
          elim (Bool-cases (
            not (
              str_eq (p.parent (p.abspath q.final_path))
                (p.parent (p.abspath q.temporary_path))))) [
                  | inl f ↦ rw e (rw f refl)
                  | inr f ↦
                      elim (Bool-cases (
                        not
                          (job_runs q.owner_id q.attempt_token now (get st.database q.task_id)))) [
                            | inl g ↦ rw e (rw f (rw g refl))
                            | inr g ↦
                                elim (Bool-cases (
                                  count_where (collides (reserved_row p q now)) st.artifacts
                                  == 0)) [
                                    | inl k ↦ rw e (rw f (rw g (rw k refl)))
                                    | inr k ↦ rw e (rw f (rw g (rw k refl)))
                                  ]
                          ]
                ]
    ]

checkpoint-Extends :
    (task token : String) (c : Clock) (st : Storage)
    → Extends st.catalog (checkpoint task token c st).1.catalog
checkpoint-Extends task token c =
    transaction-Keeps
      (on_database (ensure_active task (some token) job_lease_seconds c) >>= λ job. pure tt)
      (bind-Keeps _ _ (on_database-Keeps (ensure_active task (some token) job_lease_seconds c))
        λ job. same-Keeps (pure tt) (λ st. refl))

module _ (w : Beginning) where
  reserve_output-Extends :
      (a : Attempt) (st : Storage) → Extends st.catalog (reserve_output w a st).1.catalog
  unfolding reserve_output
  reserve_output-Extends a = transaction-Keeps (reserve_steps w a) (
      bind-Keeps get_storage _ (same-Keeps get_storage (λ st. refl)) λ st.
        bind-Keeps _ _ (or_raise-Keeps (find_dataset a.dataset_id st.catalog) dataset_changed) λ d.
          bind-Keeps _ _
            (require-Keeps (is_current d a.expected_version a.input_path) dataset_changed)
            λ current.
              bind-Keeps _ _
                (same-Keeps (reserve w.paths (reservation_of w a) w.now)
                  (reserve-catalog w.paths (reservation_of w a) w.now))
                λ reservation. same-Keeps (pure tt) (λ st. refl))

  ensure_input-AlwaysKeeps : (a : Attempt) → AlwaysKeeps (ensure_input w.space w.disk a)
  unfolding ensure_input ensure_storage_quota
  ensure_input-AlwaysKeeps a =
      bind-AlwaysKeeps _ _ (or_raise-AlwaysKeeps (w.disk.size_of a.input_path) os_error) λ size.
        bind-AlwaysKeeps (ensure_output_size w.space size) _
          (same-AlwaysKeeps (ensure_output_size w.space size) (λ st. refl))
          λ small.
            bind-AlwaysKeeps (ensure_capacity w.space w.disk size) _
              (same-AlwaysKeeps (ensure_capacity w.space w.disk size) (λ st. refl))
              λ room.
                bind-AlwaysKeeps (ensure_storage_quota w.space w.disk a.owner_id size) _
                  (same-AlwaysKeeps (ensure_storage_quota w.space w.disk a.owner_id size)
                    (λ st. refl))
                  λ within_quota. same-AlwaysKeeps (remaining_quota w.space w.disk a) (λ st. refl)

  begin_running-AlwaysKeeps :
      (t : Transformation) (task : String) → AlwaysKeeps (begin_running w t task)
  begin_running-AlwaysKeeps t task =
      bind-AlwaysKeeps (checkpoint task w.attempt_token w.clock) _
        (checkpoint-Extends task w.attempt_token w.clock)
        λ alive.
          bind-AlwaysKeeps (reserve_output w (attempt_of w t task)) _
            (reserve_output-Extends (attempt_of w t task))
            λ begun.
              bind-AlwaysKeeps (ensure_input w.space w.disk (attempt_of w t task)) _
                (ensure_input-AlwaysKeeps (attempt_of w t task))
                λ remaining. same-AlwaysKeeps (pure (running (attempt_of w t task))) (λ st. refl)

  begin_found-AlwaysKeeps : (t : Transformation) → AlwaysKeeps (begin_found w t)
  begin_found-AlwaysKeeps t = elim (Bool-cases (is_settled t.status)) [
    | inl e ↦ rw e (same-AlwaysKeeps (pure (already t)) (λ st. refl))
    | inr e ↦ rw e (
        bind-AlwaysKeeps (or_raise t.task_id no_durable_job) (begin_running w t)
          (or_raise-AlwaysKeeps t.task_id no_durable_job) (begin_running-AlwaysKeeps t))
  ]

  pub begin_execution-AlwaysKeeps : (id : ℕ) → AlwaysKeeps (begin_execution w id)
  unfolding begin_execution
  begin_execution-AlwaysKeeps id =
      bind-AlwaysKeeps get_storage
        (λ st.
          or_raise (find_transformation id st.catalog) transformation_not_found >>= begin_found w)
        (same-AlwaysKeeps get_storage (λ st. refl))
        λ st.
          bind-AlwaysKeeps (or_raise (find_transformation id st.catalog) transformation_not_found)
            (begin_found w)
            (or_raise-AlwaysKeeps (find_transformation id st.catalog) transformation_not_found)
            begin_found-AlwaysKeeps

  -- A run works for the request that its transformation's row holds.
  abbrev pub WorksFor : Transformation → Begun → Type 0
  WorksFor t (already x) = Unit
  WorksFor t (running a) = (task : String) × (a ≡ attempt_of w t task)

  begin_running-WorksFor :
      (t : Transformation) (task : String) (st : Storage)
      → Ensures (λ b s. WorksFor t b) (begin_running w t task st)
  begin_running-WorksFor t task st =
      and_then-Ensures _ (λ b s. WorksFor t b) (checkpoint task w.attempt_token w.clock st) _
        (anything-Ensures _)
        λ alive s1 e1.
          and_then-Ensures _ (λ b s. WorksFor t b) (reserve_output w (attempt_of w t task) s1) _
            (anything-Ensures _)
            λ reserved s2 e2.
              and_then-Ensures _ (λ b s. WorksFor t b)
                (ensure_input w.space w.disk (attempt_of w t task) s2) _ (anything-Ensures _)
                λ left s3 e3. (task, refl)

  begin_found-WorksFor :
      (t : Transformation) (st : Storage) → Ensures (λ b s. WorksFor t b) (begin_found w t st)
  begin_found-WorksFor t st = elim (Bool-cases (is_settled t.status)) [
    | inl e ↦ rw e tt
    | inr e ↦ rw e (
        and_then-Ensures _ (λ b s. WorksFor t b) (or_raise t.task_id no_durable_job st)
          (begin_running w t) (anything-Ensures _) λ task s1 e1. begin_running-WorksFor t task s1)
  ]

  abbrev pub Named : ℕ → Catalog → Begun → Type 0
  Named id c b = (t : Transformation) × (find_transformation id c ≡ some t) × WorksFor t b

  -- The row that a run works for is the one of the id.
  pub begin_execution-Named :
      (id : ℕ) (st : Storage) → Ensures (λ b s. Named id st.catalog b) (begin_execution w id st)
  unfolding begin_execution
  begin_execution-Named id st =
      and_then-Ensures _ (λ b s. Named id st.catalog b)
        (or_raise (find_transformation id st.catalog) transformation_not_found st) (begin_found w)
        (or_raise-Ensures (find_transformation id st.catalog) transformation_not_found st)
        λ t s1 e.
          weaken-Ensures (λ b s. WorksFor t b) (λ b s. Named id st.catalog b) (begin_found w t s1)
            (λ b s k. (t, e.0, k)) (begin_found-WorksFor t s1)
