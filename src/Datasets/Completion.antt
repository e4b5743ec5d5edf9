-- ===== src/Datasets/Completion.antt =====
-- The transactions that move a head, as a whole.
use data_analytics_platform.Base.{
  ℕ, ◌+◌, ◌≡◌, refl, sym, ap, ◌∙◌, subst, List, String, Bool, true, Option, none, some, ◌==◌,
  str_eq, arith, inl, inr, Bool-cases, Option-cases, first_where-sat, not, ◌&&◌, order_by,
  &&-eq-true,
}
use data_analytics_platform.Schema.{
  dataset_changed, os_error, dataset_not_found, version_changed, not_ready, nothing_to_undo,
  snapshot_fault,
}
use data_analytics_platform.Schema.Catalog.{
  Catalog, Dataset, DatasetSnapshot, Transformation, Receipt,
}
use data_analytics_platform.Artifacts.Table.{Storage, StorageArtifact}
use data_analytics_platform.Artifacts.Writer.{
  publish, publish_found, find_artifact, owner_runs, job_of,
}
use data_analytics_platform.Jobs.Admission.{lock_owner}
use data_analytics_platform.Jobs.Worker.{ensure_active, progress, succeed, job_lease_seconds}
use data_analytics_platform.Snapshots.Manifests.{
  Verified, valid, fault, new_manifest, record_manifest, FileStat, unchanged, manifest,
}
use data_analytics_platform.Datasets.Session.{
  Action, lift, or_raise, on_database, ◌>>=◌, require, owned_dataset, is_dataset,
  find_transformation, find_dataset, and_then,
}
use data_analytics_platform.Datasets.Quota.{
  ensure_storage_quota, ensure_output_size, ensure_capacity,
}
use data_analytics_platform.Datasets.Audit.{MaterializedArtifact}
use data_analytics_platform.Datasets.Execute.{
  Attempt, Finishing, is_current, is_closed, recorded, add_snapshot, advance, finish_execution,
  complete_transformation,
}
use data_analytics_platform.Datasets.Prepare.{is_ready, ensure_ready}
use data_analytics_platform.Datasets.Audit.{replay}
use data_analytics_platform.Datasets.Undo.{
  UndoRequest, Undoing, Observation, is_undoable, later_id, newest, verified_or_raise,
  same_manifest, restore, undo_locked, undo_observed,
}
use data_analytics_platform.Datasets.Ledger.{Extends, Extends-refl, Extends-trans}
use data_analytics_platform.Datasets.Heads.{advance-Extends, restore-Extends}
use data_analytics_platform.Datasets.Steps.{
  snapshots-Extends, Ensures, weaken-Ensures, and_then-Ensures, require-Ensures, or_raise-Ensures,
  anything-Ensures, same-Ensures, settle-Extends,
}

-- The row that a run works for is there, and asks for what the run began with.
abbrev pub Captured : Attempt → Catalog → Type 0
Captured a c =
    (t : Transformation) × (find_transformation a.transformation_id c ≡ some t)
    × (t.dataset_id ≡ a.dataset_id)
    × (t.expected_version ≡ a.expected_version)
    × (t.input_path ≡ a.input_path)

publish-catalog :
    (id token : String) (now : ℕ) (st : Storage) → (publish id token now st).1.catalog ≡ st.catalog
unfolding publish
publish-catalog id token now st = found (find_artifact id st)
  where
    found : (o : Option StorageArtifact) → (publish_found id token now o st).1.catalog ≡ st.catalog
    found none = refl
    found (some a) =
        elim (Bool-cases (not (owner_runs a.owner_id token now (job_of st.database a.task_id)))) [
          | inl e ↦ rw e refl
          | inr e ↦ ground arith
        ]

some-injective {ℓ} : {A : Type ℓ} (a b : A) → some a ≡ some b → a ≡ b
some-injective a b h = cc

-- The version is recorded and the head moves.
module _ (w : Finishing) (a : Attempt) (x : MaterializedArtifact) where
  abbrev manifest_row : DatasetSnapshot
  manifest_row =
      new_manifest w.paths w.snapshot_id a.dataset_id a.final_path (a.expected_version + 1)
        x.size_bytes x.sha256 w.now

  record_and_advance :
      (c : Catalog) (s : Storage) (t : Transformation) (d : Dataset)
      → s.catalog ≡ c
      → find_dataset a.dataset_id c ≡ some d
      → is_current d a.expected_version a.input_path ≡ true
      → t.dataset_id ≡ a.dataset_id
      → t.expected_version ≡ a.expected_version
      → t.input_path ≡ a.input_path
      → Ensures
          (λ r s'. Extends c s'.catalog)
          (and_then (add_snapshot manifest_row s) (λ m. advance w a x t))
  record_and_advance c s t d same g current own version path =
      moved_on (record_manifest manifest_row s.catalog.snapshots)
    where
      moved_on :
          (r : Verified DatasetSnapshot × List DatasetSnapshot)
          → Ensures (λ r s'. Extends c s'.catalog) (and_then (recorded s r) (λ m. advance w a x t))
      moved_on (fault e, ms) = tt
      moved_on (valid m, ms) =
          let next = record s { catalog = record s.catalog { snapshots = ms } } in
          let here : find_dataset a.dataset_id s.catalog ≡ some d =
            ap (find_dataset a.dataset_id) same ∙ g in
          let start : Extends c next.catalog =
            subst (λ k. Extends k next.catalog) same (snapshots-Extends s.catalog ms) in
          weaken-Ensures (λ r s'. Extends next.catalog s'.catalog) (λ r s'. Extends c s'.catalog)
            (advance w a x t next) (λ r s' e. Extends-trans c next.catalog s'.catalog start e)
            (advance-Extends w a x t d next here current own version path)

  -- What stands between the locks and the new head.
  abbrev publish_and_record : Transformation → Action Transformation
  publish_and_record t = do
    within_quota ← ensure_storage_quota w.space w.disk a.owner_id x.size_bytes
    room ← ensure_capacity w.space w.disk 0
    live ← publish a.reservation_id a.attempt_token w.now
    renamed ← require (not w.rename_raises) os_error
    manifest ← add_snapshot manifest_row
    advance w a x t

  publish_and_record-Ensures :
      (c : Catalog) (s : Storage) (t : Transformation) (d : Dataset)
      → s.catalog ≡ c
      → find_dataset a.dataset_id c ≡ some d
      → is_current d a.expected_version a.input_path ≡ true
      → t.dataset_id ≡ a.dataset_id
      → t.expected_version ≡ a.expected_version
      → t.input_path ≡ a.input_path
      → Ensures (λ r s'. Extends c s'.catalog) (publish_and_record t s)
  unfolding ensure_storage_quota
  publish_and_record-Ensures c s t d same g current own version path =
      and_then-Ensures _ (λ r s'. Extends c s'.catalog)
        (ensure_storage_quota w.space w.disk a.owner_id x.size_bytes s) _
        (same-Ensures (ensure_storage_quota w.space w.disk a.owner_id x.size_bytes s) c same)
        λ within_quota s1 e1.
          and_then-Ensures _ (λ r s'. Extends c s'.catalog) (ensure_capacity w.space w.disk 0 s1) _
            (same-Ensures (ensure_capacity w.space w.disk 0 s1) c e1)
            λ room s2 e2.
              and_then-Ensures _ (λ r s'. Extends c s'.catalog)
                (publish a.reservation_id a.attempt_token w.now s2) _
                (same-Ensures (publish a.reservation_id a.attempt_token w.now s2) c
                  (publish-catalog a.reservation_id a.attempt_token w.now s2 ∙ e2))
                λ live s3 e3.
                  and_then-Ensures _ (λ r s'. Extends c s'.catalog)
                    (require (not w.rename_raises) os_error s3) _
                    (same-Ensures (require (not w.rename_raises) os_error s3) c e3)
                    λ renamed s4 e4. record_and_advance c s4 t d e4 g current own version path

  -- The checks on the locked rows.
  abbrev finish_locked : Action Transformation
  finish_locked st =
      (do
        t ← or_raise (find_transformation a.transformation_id st.catalog) dataset_changed
        d ← or_raise (find_dataset a.dataset_id st.catalog) dataset_changed
        current ←
            require (is_current d a.expected_version a.input_path && not (is_closed t.status))
              dataset_changed
        publish_and_record t)
        st

  finish_locked-Ensures :
      (s : Storage)
      → Captured a s.catalog
      → Ensures (λ r s'. Extends s.catalog s'.catalog) (finish_locked s)
  finish_locked-Ensures s (row, found, own, version, path) =
      and_then-Ensures _ (λ r s'. Extends s.catalog s'.catalog)
        (or_raise (find_transformation a.transformation_id s.catalog) dataset_changed s) _
        (or_raise-Ensures (find_transformation a.transformation_id s.catalog) dataset_changed s)
        λ t s1 e1.
          and_then-Ensures _ (λ r s'. Extends s.catalog s'.catalog)
            (or_raise (find_dataset a.dataset_id s.catalog) dataset_changed s1) _
            (or_raise-Ensures (find_dataset a.dataset_id s.catalog) dataset_changed s1)
            λ d s2 e2.
              and_then-Ensures _ (λ r s'. Extends s.catalog s'.catalog)
                (require (is_current d a.expected_version a.input_path && not (is_closed t.status))
                  dataset_changed s2)
                _
                (require-Ensures
                  (is_current d a.expected_version a.input_path && not (is_closed t.status))
                  dataset_changed s2)
                λ current s3 e3.
                  let same : row ≡ t = some-injective row t (sym found ∙ e1.0) in
                  publish_and_record-Ensures s.catalog s3 t d
                    (ap (λ (z : Storage). z.catalog) (e3.1 ∙ e2.1 ∙ e1.1)) e2.0
                    ((&&-eq-true (is_current d a.expected_version a.input_path)
                      (not (is_closed t.status)) e3.0).0)
                    (ap (λ (z : Transformation). z.dataset_id) (sym same) ∙ own)
                    (ap (λ (z : Transformation). z.expected_version) (sym same) ∙ version)
                    (ap (λ (z : Transformation). z.input_path) (sym same) ∙ path)

  finish_execution-Ensures :
      (st : Storage)
      → Captured a st.catalog
      → Ensures (λ r s'. Extends st.catalog s'.catalog) (finish_execution w a x st)
  unfolding finish_execution
  finish_execution-Ensures st k =
      and_then-Ensures _ (λ r s'. Extends st.catalog s'.catalog)
        (ensure_output_size w.space x.size_bytes st) _
        (same-Ensures (ensure_output_size w.space x.size_bytes st) st.catalog refl)
        λ small s1 e1.
          and_then-Ensures _ (λ r s'. Extends st.catalog s'.catalog)
            (on_database (λ db. (lock_owner db a.owner_id, db)) s1) _
            (same-Ensures (on_database (λ db. (lock_owner db a.owner_id, db)) s1) st.catalog e1)
            λ locked s2 e2.
              and_then-Ensures _ (λ r s'. Extends st.catalog s'.catalog)
                (on_database
                  (ensure_active a.task_id (some a.attempt_token) job_lease_seconds w.active_clock)
                  s2)
                _
                (same-Ensures
                  (on_database
                    (ensure_active a.task_id (some a.attempt_token) job_lease_seconds
                      w.active_clock)
                    s2)
                  st.catalog e2)
                λ active s3 e3.
                  and_then-Ensures _ (λ r s'. Extends st.catalog s'.catalog)
                    (on_database
                      (progress a.task_id a.attempt_token 90 "persisting" job_lease_seconds
                        w.progress_clock)
                      s3)
                    _
                    (same-Ensures
                      (on_database
                        (progress a.task_id a.attempt_token 90 "persisting" job_lease_seconds
                          w.progress_clock)
                        s3)
                      st.catalog e3)
                    λ fenced s4 e4.
                      subst (λ c. Ensures (λ r s'. Extends c s'.catalog) (finish_locked s4)) e4
                        (finish_locked-Ensures s4 (subst (Captured a) (sym e4) k))

  -- The whole transaction, whether it commits or not.
  pub complete_transformation-Extends :
      (st : Storage)
      → Captured a st.catalog
      → Extends st.catalog (complete_transformation w a x st).1.catalog
  unfolding complete_transformation
  complete_transformation-Extends st k = settle-Extends st _ (
      and_then-Ensures (λ r s'. Extends st.catalog s'.catalog)
        (λ r s'. Extends st.catalog s'.catalog) (finish_execution w a x st) _
        (finish_execution-Ensures st k)
        λ t s1 e1.
          and_then-Ensures (λ r s'. Extends st.catalog s'.catalog)
            (λ r s'. Extends st.catalog s'.catalog)
            (on_database
              (succeed w.settings w.serialized_size a.task_id (w.result t) a.attempt_token
                w.success_clock)
              s1)
            _
            (weaken-Ensures (λ r s'. s'.catalog ≡ s1.catalog)
              (λ r s'. Extends st.catalog s'.catalog)
              (on_database
                (succeed w.settings w.serialized_size a.task_id (w.result t) a.attempt_token
                  w.success_clock)
                s1)
              (λ r s' same. subst (Extends st.catalog) (sym same) e1)
              (same-Ensures
                (on_database
                  (succeed w.settings w.serialized_size a.task_id (w.result t) a.attempt_token
                    w.success_clock)
                  s1)
                s1.catalog refl))
            λ done s2 e2. e2)

pub owned_dataset-find :
    (id owner : ℕ) (c : Catalog) (d : Dataset)
    → owned_dataset id owner c ≡ some d
    → (find_dataset id c ≡ some d) × (find_dataset d.id c ≡ some d)
unfolding owned_dataset
owned_dataset-find id owner c d h = elim (Option-cases (find_dataset id c)) [
  | inl e ↦ absurd (cc (rw e at h))
  | inr (x, e) ↦
      let same : x ≡ d = ground arith in
      let found : find_dataset id c ≡ some d = e ∙ ap some same in
      let key = first_where-sat (is_dataset id) c.datasets d found in
      let named : d.id ≡ id = ground arith in (found, ap (λ n. find_dataset n c) named ∙ found)
]

pub newest-sat :
    (p : Transformation → Bool) (c : Catalog) (t : Transformation)
    → newest p c ≡ some t
    → p t ≡ true
unfolding newest
newest-sat p c t h = first_where-sat p (order_by later_id c.transformations) t h

pub verified-catalog :
    {A : Type 0} (r : Verified A) (s : Storage) → (verified_or_raise r s).1.catalog ≡ s.catalog
verified-catalog (valid a) s = refl
verified-catalog (fault e) s = refl

==-eq : (a b : ℕ) → (a == b) ≡ true → a ≡ b
==-eq a b h = ground arith

module _ (w : Undoing) (q : UndoRequest) (o : Observation) (stat : Option FileStat) where
  undo_locked-Ensures :
      (c : Catalog) (s : Storage) (d : Dataset) (r : Option Receipt)
      → s.catalog ≡ c
      → find_dataset d.id c ≡ some d
      → Ensures (λ b s'. Extends c s'.catalog) (undo_locked w q o stat d r s)
  undo_locked-Ensures c s d (some r) same g = subst (Extends c) (sym same) (Extends-refl c)
  undo_locked-Ensures c s d none same g =
      and_then-Ensures _ (λ r s'. Extends c s'.catalog)
        (require (d.version == q.expected_version) version_changed s) _
        (require-Ensures (d.version == q.expected_version) version_changed s)
        λ current s1 e1.
          and_then-Ensures _ (λ r s'. Extends c s'.catalog) (ensure_ready d s1) _
            (require-Ensures (is_ready d.status) not_ready s1)
            λ ready s2 e2.
              and_then-Ensures _ (λ r s'. Extends c s'.catalog)
                (or_raise (newest (λ t. is_undoable d t && (t.user_id == q.user_id)) s2.catalog)
                  nothing_to_undo s2)
                _
                (or_raise-Ensures
                  (newest (λ t. is_undoable d t && (t.user_id == q.user_id)) s2.catalog)
                  nothing_to_undo s2)
                λ t s3 e3.
                  and_then-Ensures _ (λ r s'. Extends c s'.catalog)
                    (require ((t.id == o.candidate_id) && str_eq t.input_path o.restored_path)
                      dataset_changed s3)
                    _
                    (require-Ensures
                      ((t.id == o.candidate_id) && str_eq t.input_path o.restored_path)
                      dataset_changed s3)
                    λ fixed s4 e4.
                      and_then-Ensures _ (λ r s'. Extends c s'.catalog)
                        (require
                          (same_manifest
                            (manifest w.paths s2.catalog.snapshots q.dataset_id o.restored_path)
                            o.manifest_id)
                          snapshot_fault s4)
                        _
                        (require-Ensures
                          (same_manifest
                            (manifest w.paths s2.catalog.snapshots q.dataset_id o.restored_path)
                            o.manifest_id)
                          snapshot_fault s4)
                        λ known s5 e5.
                          and_then-Ensures _ (λ r s'. Extends c s'.catalog)
                            (verified_or_raise (unchanged o.verified_file stat) s5) _
                            (same-Ensures (verified_or_raise (unchanged o.verified_file stat) s5) c
                              (verified-catalog (unchanged o.verified_file stat) s5
                                ∙ ap (λ (z : Storage). z.catalog) (e5.1 ∙ e4.1 ∙ e3.1 ∙ e2.1 ∙ e1.1)
                                ∙ same))
                            λ file s6 e6.
                              subst
                                (λ k. Ensures (λ r s'. Extends k s'.catalog) (restore w q o d t s6))
                                e6
                                (restore-Extends w q o d t s6 (ap (find_dataset d.id) e6 ∙ g)
                                  ((&&-eq-true (is_undoable d t) (t.user_id == q.user_id) (
                                    newest-sat (λ t. is_undoable d t && (t.user_id == q.user_id))
                                      s2.catalog t e3.0)).0)
                                  (==-eq d.version q.expected_version e1.0))

  pub undo_observed-Extends :
      (st : Storage) → Extends st.catalog (undo_observed w q o stat st).1.catalog
  unfolding undo_observed
  undo_observed-Extends st = settle-Extends st _ (
      and_then-Ensures _ (λ r s'. Extends st.catalog s'.catalog)
        (on_database (λ db. (lock_owner db q.user_id, db)) st) _
        (same-Ensures (on_database (λ db. (lock_owner db q.user_id, db)) st) st.catalog refl)
        λ locked s1 e1.
          and_then-Ensures _ (λ r s'. Extends st.catalog s'.catalog)
            (or_raise (owned_dataset q.dataset_id q.user_id s1.catalog) dataset_not_found s1) _
            (or_raise-Ensures (owned_dataset q.dataset_id q.user_id s1.catalog) dataset_not_found
              s1)
            λ d s2 e2.
              and_then-Ensures _ (λ r s'. Extends st.catalog s'.catalog)
                (lift
                  (replay d.id q.user_id "undo" q.idempotency_key
                    (w.fingerprint d.id q.expected_version) s1.catalog)
                  s2)
                _
                (anything-Ensures (
                  lift
                    (replay d.id q.user_id "undo" q.idempotency_key
                      (w.fingerprint d.id q.expected_version) s1.catalog)
                    s2))
                λ receipt s3 e3.
                  undo_locked-Ensures st.catalog s3 d receipt
                    (ap (λ (z : Storage). z.catalog) (e3 ∙ e2.1) ∙ e1)
                    (ap (find_dataset d.id) (sym e1)
                      ∙ (owned_dataset-find q.dataset_id q.user_id s1.catalog d e2.0).1))
