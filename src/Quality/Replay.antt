-- ===== src/Quality/Replay.antt =====
-- What a second admission of an evaluation under one key answers.
use data_analytics_platform.Base.{
  ℕ, ◌≡◌, refl, sym, ap, ◌∙◌, [], ◌∷◌, ◌++◌, Bool, true, false, Option, none, some, ◌==◌, arith,
  inl, inr, Bool-cases, if◌then◌else◌, count_where, first_where, first_where_last, first_where-sat,
  subst, eq_iff,
}
use data_analytics_platform.Schema.{
  Database, Settings, Result, ok, err, dataset_not_found, contract_not_found, version_changed,
  snapshot_fault, not_ready, no_result,
}
use data_analytics_platform.Schema.Jobs.{JobRecord}
use data_analytics_platform.Schema.Evaluations.{QualityEvaluation}
use data_analytics_platform.Schema.Catalog.{Catalog, Dataset, DatasetSnapshot, QualityContract}
use data_analytics_platform.Artifacts.Table.{Storage}
use data_analytics_platform.Snapshots.Manifests.{manifest}
use data_analytics_platform.Jobs.Admission.{
  lock_owner, create, add_job, NewJob, new_record, ensure_capacity, is_task,
}
use data_analytics_platform.Outbox.Intent.{enqueue}
use data_analytics_platform.Datasets.Session.{or_raise, on_database, require, owned_dataset, within}
use data_analytics_platform.Datasets.Prepare.{ensure_ready, is_ready}
use data_analytics_platform.Datasets.Steps.{
  Ensures, and_then-Ensures, require-Ensures, or_raise-Ensures,
}
use data_analytics_platform.Quality.{
  QualityEvaluationCreate, Evaluating, is_keyed, is_same_evaluation, is_contract, is_readable,
  new_evaluation, evaluation_clashes, insert_evaluation, quality_job, evaluate_new,
  evaluate_or_reuse, admit_evaluation,
}

-- Jobs and publications apart, the database stays as it is.
abbrev Kept : Database → Database → Type 0
Kept db db' = (db'.users ≡ db.users) × (db'.evaluations ≡ db.evaluations)

create-Kept :
    (s : Settings) (j : NewJob) (context : Option _) (now : ℕ) (db : Database)
    → Kept db (create s j context now db).1
unfolding create
create-Kept s j context now db = added (ensure_capacity s db j.owner_id true none)
  where
    added : (r : Result (Unit {0})) → Kept db (add_job db (new_record j context now) r).1
    added (err e) = (refl, refl)
    added (ok u) =
        elim (Bool-cases (count_where (is_task (new_record j context now).task_id) db.jobs == 0)) [
          | inl n ↦ rw n (refl, refl)
          | inr n ↦ rw n (refl, refl)
        ]

lock_owner-users :
    (db db' : Database) (owner : ℕ)
    → db'.users ≡ db.users
    → lock_owner db owner ≡ ok tt
    → lock_owner db' owner ≡ ok tt
unfolding lock_owner
lock_owner-users db db' owner same h =
    ap (λ us. if count_where (λ u. u == owner) us == 1 then ok tt else err no_result) same ∙ h

locked-Ensures :
    (r : Result (Unit {0})) (st : Storage) → Ensures (λ u s. (r ≡ ok tt) × (s ≡ st)) (r, st)
locked-Ensures (ok tt) st = (refl, refl)
locked-Ensures (err e) st = tt

database-Ensures :
    {A : Type 0} (f : Database → Result A × Database) (P : A → Database → Type 0) (st : Storage)
    → ((a : A) (db : Database) → f st.database ≡ (ok a, db) → P a db)
    → Ensures (λ a s. (s.catalog ≡ st.catalog) × P a s.database) (on_database f st)
database-Ensures {A} f P st k = done (f st.database) k
  where
    done :
        (r : Result A × Database)
        → ((a : A) (db : Database) → r ≡ (ok a, db) → P a db)
        → Ensures (λ a s. (s.catalog ≡ st.catalog) × P a s.database) (within st r)
    done (ok a, db) k = (refl, k a db refl)
    done (err e, db) k = tt

insert_evaluation_lem :
    (e x : QualityEvaluation) (db db' : Database)
    → insert_evaluation e db ≡ (ok x, db')
    → (x ≡ e) × (db'.users ≡ db.users) × (db'.evaluations ≡ db.evaluations ++ e ∷ [])
unfolding insert_evaluation
insert_evaluation_lem e x db db' h =
    elim (Bool-cases (count_where (evaluation_clashes e) db.evaluations == 0)) [
      | inl n ↦
          let g = rw n at h in
          (
            sym (same (ap (λ r. r.0) g)),
            sym (ap (λ r. r.1.users) g),
            sym (ap (λ r. r.1.evaluations) g),
          )
      | inr n ↦ absurd (cc (ap (λ r. r.0) (rw n at h)))
    ]
  where
    same : ok e ≡ ok x → e ≡ x
    same k = cc

-- What a later call under the key meets.
abbrev Answered : QualityEvaluationCreate → QualityEvaluation → Storage → Type 0
Answered q e st =
    (lock_owner st.database q.owner_id ≡ ok tt)
    × ((d : Dataset) × (owned_dataset q.dataset_id q.owner_id st.catalog ≡ some d))
    × (first_where (is_keyed q) st.database.evaluations ≡ some e)
    × (is_same_evaluation q e ≡ true)

Answered-admit_evaluation :
    (w : Evaluating) (q : QualityEvaluationCreate) (e : QualityEvaluation) (st : Storage)
    → Answered q e st
    → admit_evaluation w q st ≡ (ok (e, false), st)
unfolding admit_evaluation
Answered-admit_evaluation w q e st (locked, (d, owned), found, same) =
    rw locked (rw owned (rw found (rw same refl)))

module _ (w : Evaluating) (q : QualityEvaluationCreate) where
  is_keyed-new_evaluation :
      (d : Dataset) (k : QualityContract) (m : Option DatasetSnapshot)
      → is_keyed q (new_evaluation w q d k m) ≡ true
  is_keyed-new_evaluation d k m =
      ground (arith, (eq_iff q.idempotency_key q.idempotency_key).1 refl)

  is_same_evaluation-new_evaluation :
      (d : Dataset) (k : QualityContract) (m : Option DatasetSnapshot)
      → is_contract q k ≡ true
      → (d.version == q.expected_version) ≡ true
      → is_same_evaluation q (new_evaluation w q d k m) ≡ true
  is_same_evaluation-new_evaluation d k m here current = ground arith

  abbrev version_at : Dataset → Catalog → Option DatasetSnapshot
  version_at d c = manifest w.paths c.snapshots q.dataset_id d.stored_path

  quality_job-Kept :
      (db : Database) (j : JobRecord) (db' : Database)
      → quality_job w q db ≡ (ok j, db')
      → Kept db db'
  quality_job-Kept db j db' h =
      subst (Kept db) (ap (λ r. r.1) h) (create-Kept w.settings _ w.context w.now db)

  evaluate_new-Answered :
      (d : Dataset) (s : Storage)
      → lock_owner s.database q.owner_id ≡ ok tt
      → owned_dataset q.dataset_id q.owner_id s.catalog ≡ some d
      → first_where (is_keyed q) s.database.evaluations ≡ none
      → Ensures (λ r s'. Answered q r.0 s') (evaluate_new w q d s)
  unfolding enqueue lock_owner
  evaluate_new-Answered d s locked owned fresh =
      and_then-Ensures _ (λ r s'. Answered q r.0 s')
        (or_raise (first_where (is_contract q) s.catalog.contracts) contract_not_found s) _
        (or_raise-Ensures (first_where (is_contract q) s.catalog.contracts) contract_not_found s)
        λ k s1 e1.
          and_then-Ensures _ (λ r s'. Answered q r.0 s') (ensure_ready d s1) _
            (require-Ensures (is_ready d.status) not_ready s1)
            λ ready s2 e2.
              and_then-Ensures _ (λ r s'. Answered q r.0 s')
                (require (d.version == q.expected_version) version_changed s2) _
                (require-Ensures (d.version == q.expected_version) version_changed s2)
                λ current s3 e3.
                  and_then-Ensures _ (λ r s'. Answered q r.0 s')
                    (require (is_readable (version_at d s.catalog)) snapshot_fault s3) _
                    (require-Ensures (is_readable (version_at d s.catalog)) snapshot_fault s3)
                    λ readable s4 e4.
                      let same : s4 ≡ s = e4.1 ∙ e3.1 ∙ e2.1 ∙ e1.1 in
                      and_then-Ensures _ (λ r s'. Answered q r.0 s')
                        (on_database (quality_job w q) s4) _
                        (database-Ensures (quality_job w q) (λ j db. Kept s4.database db) s4
                          (quality_job-Kept s4.database))
                        λ job s5 e5.
                          and_then-Ensures _ (λ r s'. Answered q r.0 s')
                            (on_database
                              (insert_evaluation (new_evaluation w q d k (version_at d s.catalog)))
                              s5)
                            _
                            (database-Ensures
                              (insert_evaluation (new_evaluation w q d k (version_at d s.catalog)))
                              (λ x db.
                                (x ≡ new_evaluation w q d k (version_at d s.catalog))
                                × (db.users ≡ s5.database.users)
                                × (db.evaluations
                                    ≡ s5.database.evaluations
                                      ++ new_evaluation w q d k (version_at d s.catalog) ∷ []))
                              s5
                              (λ x db.
                                insert_evaluation_lem
                                  (new_evaluation w q d k (version_at d s.catalog)) x s5.database
                                  db))
                            λ x s6 e6. (
                              lock_owner-users s.database s6.database q.owner_id
                                  (e6.1.1 ∙ e5.1.0 ∙ ap (λ (z : Storage). z.database.users) same)
                                  locked,
                              (
                                d,
                                ap (owned_dataset q.dataset_id q.owner_id)
                                      (e6.0 ∙ e5.0 ∙ ap (λ (z : Storage). z.catalog) same)
                                    ∙ owned,
                              ),
                              rw e6.1.0 (
                                  ap (first_where (is_keyed q)) e6.1.2
                                  ∙ first_where_last (is_keyed q)
                                      (new_evaluation w q d k (version_at d s.catalog))
                                      s5.database.evaluations
                                      (is_keyed-new_evaluation d k (version_at d s.catalog))
                                      (ap (first_where (is_keyed q)) (
                                          e5.1.1
                                          ∙ ap (λ (z : Storage). z.database.evaluations) same)
                                        ∙ fresh)),
                              rw e6.1.0 (
                                  is_same_evaluation-new_evaluation d k (version_at d s.catalog)
                                    (first_where-sat (is_contract q) s.catalog.contracts k e1.0)
                                    e3.0),
                            )

  admit_evaluation-Answered :
      (st : Storage) → Ensures (λ r s'. Answered q r.0 s') (admit_evaluation w q st)
  unfolding admit_evaluation
  admit_evaluation-Answered st =
      and_then-Ensures _ (λ r s'. Answered q r.0 s')
        (on_database (λ db. (lock_owner db q.owner_id, db)) st) _
        (locked-Ensures (lock_owner st.database q.owner_id) st)
        λ locked s1 e1.
          and_then-Ensures _ (λ r s'. Answered q r.0 s')
            (or_raise (owned_dataset q.dataset_id q.owner_id s1.catalog) dataset_not_found s1) _
            (or_raise-Ensures (owned_dataset q.dataset_id q.owner_id s1.catalog) dataset_not_found
              s1)
            λ d s2 e2.
              let here : lock_owner s2.database q.owner_id ≡ ok tt =
                ap (λ (z : Storage). lock_owner z.database q.owner_id) (e2.1 ∙ e1.1) ∙ e1.0 in
              let owned : owned_dataset q.dataset_id q.owner_id s2.catalog ≡ some d =
                ap (λ (z : Storage). owned_dataset q.dataset_id q.owner_id z.catalog) e2.1 ∙ e2.0 in
              subst
                (λ (z : Storage).
                  Ensures (λ r s'. Answered q r.0 s')
                    (evaluate_or_reuse w q d (first_where (is_keyed q) z.database.evaluations) s2))
                e2.1 (found d s2 here owned (first_where (is_keyed q) s2.database.evaluations) refl)
    where
      found :
          (d : Dataset) (s : Storage)
          → lock_owner s.database q.owner_id ≡ ok tt
          → owned_dataset q.dataset_id q.owner_id s.catalog ≡ some d
          → (o : Option QualityEvaluation) → first_where (is_keyed q) s.database.evaluations ≡ o
          → Ensures (λ r s'. Answered q r.0 s') (evaluate_or_reuse w q d o s)
      found d s here owned none g = evaluate_new-Answered d s here owned g
      found d s here owned (some e) g = elim (Bool-cases (is_same_evaluation q e)) [
        | inl k ↦ rw k (here, (d, owned), g, k)
        | inr k ↦ rw k tt
      ]

  -- An admitted evaluation is what the same request is answered with: no second evaluation, job or
  -- publication is stored, whatever ids and clock the second call brings.
  pub admit_evaluation_again :
      (w' : Evaluating) (e : QualityEvaluation) (created : Bool) (st st' : Storage)
      → admit_evaluation w q st ≡ (ok (e, created), st')
      → admit_evaluation w' q st' ≡ (ok (e, false), st')
  admit_evaluation_again w' e created st st' h =
      Answered-admit_evaluation w' q e st'
        (subst (Ensures (λ r s'. Answered q r.0 s')) h (admit_evaluation-Answered st))
