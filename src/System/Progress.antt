-- ===== src/System/Progress.antt =====
-- What becomes of one job when the services, the retention and the deletion of reports work on one
-- database.
use data_analytics_platform.Base.{
  ◌≡◌, ◌≤◌, inl, inr, refl, String, true, some, [], ◌∷◌, arith, ap, first_where-append,
  first_where-Pointwise,
}
use data_analytics_platform.System.Maintenance.{is_expired, Event, remove_expired}
use data_analytics_platform.Schema.{Database, Settings}
use data_analytics_platform.Schema.Jobs.{JobRecord, is_cancellation, is_cancelled}
use data_analytics_platform.Jobs.Admission.{is_task}
use data_analytics_platform.Jobs.Worker.{get}
use data_analytics_platform.Jobs.Lifecycle.{Lawful, is_settled}
use data_analytics_platform.Jobs.Lifecycle.Operations.{Lawful-key}
use data_analytics_platform.System.{Call, step}
use data_analytics_platform.System.History.{Inv, step-cases}

-- The row `q` stands where `r` stood some calls before.
pub record Follows (r q : JobRecord) : Type 0 where
  pub same_task : q.task_id ≡ r.task_id
  pub same_owner : q.owner_id ≡ r.owner_id
  pub same_budget : q.max_attempts ≡ r.max_attempts
  pub settled : is_settled r.status ≡ true → q ≡ record r { report_id = q.report_id }
  pub stopping : is_cancellation r.status ≡ true → is_cancellation q.status ≡ true
  pub stopped : is_cancelled r.status ≡ true → is_cancelled q.status ≡ true
  pub counted : r.attempt_count ≤ q.attempt_count

Follows-refl : (r : JobRecord) → Follows r r
Follows-refl r = record {
  same_task = refl;
  same_owner = refl;
  same_budget = refl;
  settled = λ _. refl;
  stopping = λ h. h;
  stopped = λ h. h;
  counted = omega arith;
}

Lawful-Follows : (r q : JobRecord) → Lawful r q → Follows r q
Lawful-Follows r q l = record {
  same_task = l.same_task;
  same_owner = l.same_owner;
  same_budget = l.same_budget;
  settled = λ h. ap (λ (x : JobRecord). record x { report_id = q.report_id }) (l.settled h);
  stopping = ground arith;
  stopped = ground arith;
  counted = ground arith;
}

-- A task's row after the call that follows.
abbrev pub Continues : String → JobRecord → Database → Type 0
Continues task r db = (q : JobRecord) × (get db task ≡ some q) × Follows r q

pub step-Continues :
    (s : Settings) (c : Call) (db : Database) (task : String) (r : JobRecord)
    → Inv s db
    → get db task ≡ some r
    → Continues task r (step s c db)
unfolding get
step-Continues s c db task r v h = elim (step-cases s c db v.keyed) [
  | inl e ↦
      let (q, f, l) =
        first_where-Pointwise Lawful (is_task task) (Lawful-key task) db.jobs (step s c db).jobs e r
          h in
      (q, f, Lawful-Follows r q l)
  | inr n ↦
      (r, rw n.added (first_where-append (is_task task) db.jobs (n.job ∷ []) r h), Follows-refl r)
]

-- The event is a run of the retention, and the job had ended before its cutoff.
abbrev pub Expires : Event → JobRecord → Type 0
Expires (remove_expired skips earlier batch cutoff) q = is_expired cutoff q ≡ true
Expires _ q = ⊥
