-- ===== src/System.antt =====
-- The operations of `JobService` and `OutboxService` together, as the steps of one database: what
-- API requests, workers and the scheduler do to it, in any order. A dispatch is two steps, its claim
-- and its finish, so other calls may stand between them.
pub mod History
pub mod Maintenance
pub mod Expired
pub mod Progress
pub mod Budget
use data_analytics_platform.Base.{ℕ, String, Bool, Option, List, [], ◌∷◌}
use data_analytics_platform.Schema.{Database, Settings}
use data_analytics_platform.Schema.Json.{Fields, Json}
use data_analytics_platform.Schema.Jobs.{JobRecord, JobKind}
use data_analytics_platform.Schema.Outbox.{TaskOutbox}
use data_analytics_platform.Jobs.Clock.{Clock}
use data_analytics_platform.Jobs.Admission.{NewJob}
use data_analytics_platform.Jobs.Admission
use data_analytics_platform.Jobs.Worker
use data_analytics_platform.Jobs.Ending
use data_analytics_platform.Outbox.Intent
use data_analytics_platform.Outbox.Dispatch.{Surroundings}
use data_analytics_platform.Outbox.Dispatch
use data_analytics_platform.Outbox.Reconcile

pub data Call : Type 0 where
  create : NewJob → Option String → ℕ → Call
  ensure_active : String → Option String → ℕ → Clock → Call
  start : String → String → ℕ → String → ℕ → Clock → Call
  progress : String → String → ℕ → String → ℕ → Clock → Call
  succeed : (Fields → ℕ) → String → Fields → String → Clock → Call
  retry : String → String → String → Clock → Call
  fail : String → String → Option String → Bool → Option ℕ → Clock → Call
  request_cancellation : JobRecord → Clock → Call
  cancel_pending : String → Option Fields → Clock → Call
  cancel : String → Option Fields → Option String → Bool → Option ℕ → Clock → Call
  enqueue : ℕ → String → JobKind → List Json → Option String → ℕ → Call
  cancel_publication : String → ℕ → Call
  claim : ℕ → String → ℕ → Call
  finish : Surroundings → ℕ → TaskOutbox → Option String → Call
  reconcile_job : String → ℕ → ℕ → Call

-- The database that a call leaves.
unfoldable pub step : Settings → Call → Database → Database
step s (create j context now) db = (Admission.create s j context now db).1
step s (ensure_active task token seconds c) db = (Worker.ensure_active task token seconds c db).1
step s (start task token percent stage seconds c) db =
    (Worker.start task token percent stage seconds c db).1
step s (progress task token percent stage seconds c) db =
    (Worker.progress task token percent stage seconds c db).1
step s (succeed size task result token c) db = (Worker.succeed s size task result token c db).1
step s (retry task message token c) db = (Ending.retry task message token c db).1
step s (fail task message token enforced before c) db =
    (Ending.fail task message token enforced before c db).1
step s (request_cancellation job c) db = (Ending.request_cancellation job c db).1
step s (cancel_pending task result c) db = (Ending.cancel_pending task result c db).1
step s (cancel task result token enforced before c) db =
    (Ending.cancel task result token enforced before c db).1
step s (enqueue id task kind args context now) db =
    (Intent.enqueue id task kind args context now db).1
step s (cancel_publication task now) db = Intent.cancel task now db
step s (claim id token now) db = (Dispatch.claim s id token now db).1
step s (finish w id event error) db = (Dispatch.finish s w id event error db).1
step s (reconcile_job task now later) db = (Reconcile.reconcile_job task now later db).1

unfoldable pub run : Settings → List Call → Database → Database
unfolding step
run s [] db = db
run s (c ∷ cs) db = run s cs (step s c db)
