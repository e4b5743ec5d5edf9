-- ===== src/Outbox/Lifecycle.antt =====
-- What dispatching and reconciling do to the job rows: both stay within the jobs' lifecycle.
use data_analytics_platform.Base.{
  ℕ, ◌≡◌, ◌≢◌, String, Bool, true, false, ◌&&◌, Option, some, List, arith, Option-cases, inl, inr,
  &&-eq-true, Pointwise, Pointwise-refl, update_where-Pointwise, update_key-Pointwise,
}
use data_analytics_platform.Schema.{Database, Settings}
use data_analytics_platform.Schema.Jobs.{JobRecord, is_pending, is_active}
use data_analytics_platform.Schema.Outbox.{TaskOutbox}
use data_analytics_platform.Jobs.Admission.{is_task}
use data_analytics_platform.Jobs.Worker.{get}
use data_analytics_platform.Jobs.Keys.{IsKeyed}
use data_analytics_platform.Jobs.Lifecycle.{Lawful, Lawful-refl}
use data_analytics_platform.Jobs.Lifecycle.Operations.{Evolves, Evolves-refl}
use data_analytics_platform.Outbox.Intent.{find_event, rearm, cancel}
use data_analytics_platform.Outbox.Dispatch.{Surroundings, claim, finish, restage, restaged}
use data_analytics_platform.Outbox.Reconcile.{
  Outcome, skipped, requeued, failed, verdict, exhausted, abandoned, recovered, save_job, abandon,
  requeue, reconcile_job, apply_verdict,
}
use data_analytics_platform.Jobs.Ending.{complete_evaluation}

restaged-Lawful :
    (now : ℕ) (error : Option String) (r : JobRecord)
    → is_pending r.status ≡ true
    → Lawful r (restaged now error r)
unfolding restaged
restaged-Lawful now error r h = ground arith

restage-Pointwise :
    (b : Bool) (task : String) (now : ℕ) (error : Option String) (jobs : List JobRecord)
    → Pointwise Lawful jobs (restage b task now error jobs)
restage-Pointwise true task now error jobs =
    update_where-Pointwise Lawful (λ r. is_task task r && is_pending r.status) (restaged now error)
      Lawful-refl
      (λ r h. restaged-Lawful now error r (&&-eq-true (is_task task r) (is_pending r.status) h).1)
      jobs
restage-Pointwise false task now error jobs = Pointwise-refl Lawful Lawful-refl jobs

pub claim-Evolves :
    (s : Settings) (id : ℕ) (token : String) (now : ℕ) (db : Database)
    → Evolves db (claim s id token now db).1
unfolding claim
claim-Evolves s id token now db = Evolves-refl db

pub finish-Evolves :
    (s : Settings) (w : Surroundings) (id : ℕ) (event : TaskOutbox) (error : Option String)
    (db : Database)
    → Evolves db (finish s w id event error db).1
unfolding finish
finish-Evolves s w id event error db = restage-Pointwise _ event.task_id w.finished_at error db.jobs

abandoned-Lawful :
    (spent : Bool) (now : ℕ) (r : JobRecord)
    → is_active r.status ≡ true
    → Lawful r (abandoned spent now r)
unfolding abandoned
abandoned-Lawful spent now r h = ground arith

recovered-Lawful :
    (now : ℕ) (r : JobRecord) → is_active r.status ≡ true → Lawful r (recovered now r)
unfolding recovered
recovered-Lawful now r h = ground arith

save_job-Evolves :
    (task : String) (change : JobRecord → JobRecord) (db : Database) (r : JobRecord)
    → IsKeyed db
    → get db task ≡ some r
    → Lawful r (change r)
    → Evolves db (save_job task change db)
unfolding get
save_job-Evolves task change db r k h l =
    update_key-Pointwise Lawful (is_task task) change Lawful-refl db.jobs r (k task) h l

apply_verdict-Evolves :
    (v : Outcome) (task : String) (spent : Bool) (now later : ℕ) (db : Database) (r : JobRecord)
    → IsKeyed db
    → get db task ≡ some r
    → (v ≢ skipped → is_active r.status ≡ true)
    → Evolves db (apply_verdict v task spent now later db).1
unfolding abandon complete_evaluation cancel requeue rearm
apply_verdict-Evolves skipped task spent now later db r k h a = Evolves-refl db
apply_verdict-Evolves failed task spent now later db r k h a =
    save_job-Evolves task (abandoned spent now) db r k h
      (abandoned-Lawful spent now r (a (λ e. cc)))
apply_verdict-Evolves requeued task spent now later db r k h a =
    ground
      (arith, save_job-Evolves task (recovered now) db r k h (recovered-Lawful now r (a (λ e. cc))))

verdict_active :
    (r : JobRecord) (event : Option TaskOutbox) (now : ℕ)
    → verdict r event now ≢ skipped
    → is_active r.status ≡ true
unfolding verdict
verdict_active r event now h = ground arith

pub reconcile_job-Evolves :
    (task : String) (now later : ℕ) (db : Database)
    → IsKeyed db
    → Evolves db (reconcile_job task now later db).1
unfolding reconcile_job
reconcile_job-Evolves task now later db k = elim (Option-cases (get db task)) [
  | inl e ↦ rw e (Evolves-refl db)
  | inr (r, e) ↦ rw e (
      apply_verdict-Evolves (verdict r (find_event db task) now) task (exhausted r) now later db r k
        e (verdict_active r (find_event db task) now))
]
