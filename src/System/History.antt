-- ===== src/System/History.antt =====
-- What holds of the job table after any history of calls.
use data_analytics_platform.Base.{
  ℕ, ◌≡◌, ◌≤◌, ◌<◌, ◌⊎◌, inl, inr, refl, String, true, Option, none, List, [], ◌∷◌, ◌++◌, arith,
  ◌==◌, All, All-append, Pointwise, count_where, count_where-append, count_where-Pointwise-le,
  Bool-cases, eq_iff,
}
use data_analytics_platform.Schema.{Database, Settings, Result, ok, err}
use data_analytics_platform.Schema.Jobs.{JobRecord}
use data_analytics_platform.Jobs.Admission.{
  NewJob, is_task, counts_for, active_count, new_record, attempts_for, ensure_capacity,
  check_capacity, lock_owner,
}
use data_analytics_platform.Jobs.Admission
use data_analytics_platform.Jobs.Keys.{IsKeyed}
use data_analytics_platform.Jobs.Lifecycle.{Lawful, IsShaped}
use data_analytics_platform.Jobs.Lifecycle.Operations.{
  Evolves, Evolves-refl, Evolves-IsKeyed, ensure_active-Evolves, start-Evolves, progress-Evolves,
  succeed-Evolves, retry-Evolves, fail-Evolves, request_cancellation-Evolves,
  cancel_pending-Evolves, cancel-Evolves,
}
use data_analytics_platform.Outbox.Lifecycle.{claim-Evolves, finish-Evolves, reconcile_job-Evolves}
use data_analytics_platform.Outbox.Intent
use data_analytics_platform.System.{
  Call, create, ensure_active, start, progress, succeed, retry, fail, request_cancellation,
  cancel_pending, cancel, enqueue, cancel_publication, claim, finish, reconcile_job, step, run,
}

-- A call added one row, of a task that had none, for an owner below the limit.
pub record Created (s : Settings) (db db' : Database) : Type 0 where
  pub job : JobRecord
  pub added : db'.jobs ≡ db.jobs ++ job ∷ []
  pub new_task : count_where (is_task job.task_id) db.jobs ≡ 0
  pub below : active_count db job.owner_id none < s.max_active_jobs_per_user
  pub shaped : IsShaped job

new_record-IsShaped :
    (j : NewJob) (context : Option String) (now : ℕ) → IsShaped (new_record j context now)
unfolding new_record
new_record-IsShaped j context now = ground arith

ensure_capacity-below :
    (s : Settings) (db : Database) (owner : ℕ)
    → ensure_capacity s db owner true none ≡ ok tt
    → active_count db owner none < s.max_active_jobs_per_user
unfolding ensure_capacity
ensure_capacity-below s db owner h = ground arith

add_job-cases :
    (s : Settings) (db : Database) (job : JobRecord) (r : Result (Unit {0}))
    → (r ≡ ok tt → active_count db job.owner_id none < s.max_active_jobs_per_user)
    → IsShaped job
    → Evolves db (Admission.add_job db job r).1 ⊎ Created s db (Admission.add_job db job r).1
add_job-cases s db job (ok u) below shaped =
    elim (Bool-cases (count_where (is_task job.task_id) db.jobs == 0)) [
      | inl e ↦ rw e (
          inr (record {
            job = job;
            added = refl;
            new_task = ground arith;
            below = below refl;
            shaped = shaped;
          }))
      | inr e ↦ rw e (inl (Evolves-refl db))
    ]
add_job-cases s db job (err e) below shaped = inl (Evolves-refl db)

create-cases :
    (s : Settings) (j : NewJob) (context : Option String) (now : ℕ) (db : Database)
    → Evolves db (Admission.create s j context now db).1
      ⊎ Created s db (Admission.create s j context now db).1
unfolding Admission.create
create-cases s j context now db =
    add_job-cases s db (new_record j context now) (ensure_capacity s db j.owner_id true none)
      (ensure_capacity-below s db j.owner_id) (new_record-IsShaped j context now)

-- Every call but a `create` that succeeds keeps the rows and takes them along the lifecycle.
pub step-cases :
    (s : Settings) (c : Call) (db : Database)
    → IsKeyed db
    → Evolves db (step s c db) ⊎ Created s db (step s c db)
unfolding step Intent.enqueue Intent.cancel
step-cases s (create j context now) db k = create-cases s j context now db
step-cases s (ensure_active task token seconds c) db k =
    inl (ensure_active-Evolves task token seconds c db)
step-cases s (start task token percent stage seconds c) db k =
    inl (start-Evolves task token percent stage seconds c db)
step-cases s (progress task token percent stage seconds c) db k =
    inl (progress-Evolves task token percent stage seconds c db k)
step-cases s (succeed size task result token c) db k =
    inl (succeed-Evolves s size task result token c db k)
step-cases s (retry task message token c) db k = inl (retry-Evolves task message token c db)
step-cases s (fail task message token enforced before c) db k =
    inl (fail-Evolves task message token enforced before c db)
step-cases s (request_cancellation job c) db k = inl (request_cancellation-Evolves job c db)
step-cases s (cancel_pending task result c) db k = inl (cancel_pending-Evolves task result c db)
step-cases s (cancel task result token enforced before c) db k =
    inl (cancel-Evolves task result token enforced before c db)
step-cases s (enqueue id task kind args context now) db k = inl (Evolves-refl db)
step-cases s (cancel_publication task now) db k = inl (Evolves-refl db)
step-cases s (claim id token now) db k = inl (claim-Evolves s id token now db)
step-cases s (finish w id event error) db k = inl (finish-Evolves s w id event error db)
step-cases s (reconcile_job task now later) db k = inl (reconcile_job-Evolves task now later db k)

-- The invariant of the job table: one row to a task, columns that fit the status, and no account
-- above its limit of jobs that hold capacity.
pub record Inv (s : Settings) (db : Database) : Type 0 where
  pub keyed : IsKeyed db
  pub shaped : All IsShaped db.jobs
  pub capped : (owner : ℕ) → active_count db owner none ≤ s.max_active_jobs_per_user

Lawful-counts :
    (owner : ℕ) (r q : JobRecord)
    → Lawful r q
    → counts_for owner none q ≡ true
    → counts_for owner none r ≡ true
Lawful-counts owner r q l h = ground arith

IsShaped-Pointwise :
    (rs qs : List JobRecord) → Pointwise Lawful rs qs → All IsShaped rs → All IsShaped qs
IsShaped-Pointwise [] [] p h = tt
IsShaped-Pointwise [] (q ∷ qs) p h = absurd p
IsShaped-Pointwise (r ∷ rs) [] p h = absurd p
IsShaped-Pointwise (r ∷ rs) (q ∷ qs) p h = (p.0.shaped h.0, IsShaped-Pointwise rs qs p.1 h.1)

Evolves-Inv : (s : Settings) (db db' : Database) → Evolves db db' → Inv s db → Inv s db'
unfolding active_count
Evolves-Inv s db db' e v = record {
  keyed = Evolves-IsKeyed db db' e v.keyed;
  shaped = IsShaped-Pointwise db.jobs db'.jobs e v.shaped;
  capped = λ owner. omega (
    arith,
    v.capped owner,
    count_where-Pointwise-le Lawful (counts_for owner none) (Lawful-counts owner) db.jobs db'.jobs
        e,
  );
}

created-keyed :
    (task : String) (db : Database) (job : JobRecord)
    → IsKeyed db
    → count_where (is_task job.task_id) db.jobs ≡ 0
    → count_where (is_task task) (db.jobs ++ job ∷ []) ≤ 1
unfolding count_where
created-keyed task db job k h =
    rw (count_where-append (is_task task) db.jobs (job ∷ []))
      (ground (arith, k task, eq_iff job.task_id task))

created-capped :
    (s : Settings) (owner : ℕ) (db : Database) (job : JobRecord)
    → active_count db owner none ≤ s.max_active_jobs_per_user
    → active_count db job.owner_id none < s.max_active_jobs_per_user
    → count_where (counts_for owner none) (db.jobs ++ job ∷ []) ≤ s.max_active_jobs_per_user
unfolding count_where active_count
created-capped s owner db job k h =
    rw (count_where-append (counts_for owner none) db.jobs (job ∷ [])) (ground arith)

Created-Inv : (s : Settings) (db db' : Database) → Created s db db' → Inv s db → Inv s db'
unfolding active_count
Created-Inv s db db' c v = record {
  keyed = λ task. rw c.added (created-keyed task db c.job v.keyed c.new_task);
  shaped = rw c.added (All-append IsShaped db.jobs (c.job ∷ []) v.shaped (c.shaped, tt));
  capped = λ owner. rw c.added (created-capped s owner db c.job (v.capped owner) c.below);
}

-- One call keeps the invariant.
pub step-Inv : (s : Settings) (c : Call) (db : Database) → Inv s db → Inv s (step s c db)
step-Inv s c db v = elim (step-cases s c db v.keyed) [
  | inl e ↦ Evolves-Inv s db (step s c db) e v
  | inr n ↦ Created-Inv s db (step s c db) n v
]

-- Whatever calls are made, in whatever order and with whatever arguments, the invariant holds after
-- them if it held before: each task has one row, each row's columns fit its status and its attempts
-- its budget, and no account has more jobs that hold capacity than the limit allows.
pub run-Inv : (s : Settings) (cs : List Call) (db : Database) → Inv s db → Inv s (run s cs db)
unfolding run
run-Inv s [] db v = v
run-Inv s (c ∷ cs) db v = run-Inv s cs (step s c db) (step-Inv s c db v)
