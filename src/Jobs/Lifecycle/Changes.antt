-- ===== src/Jobs/Lifecycle/Changes.antt =====
-- Every change that the services make to a job row, under the guard of its query, is lawful.
use data_analytics_platform.Base.{ℕ, ◌≡◌, String, Bool, true, Option, arith}
use data_analytics_platform.Schema.Json.{Fields}
use data_analytics_platform.Schema.Jobs.{JobRecord, is_active, is_pending}
use data_analytics_platform.Jobs.Worker.{
  holds_lease, claimable, renewed, acquired, reported, completed,
}
use data_analytics_platform.Jobs.Ending.{
  requeued, retryable, failed, asked_to_stop, cancelled_early, cancellable, stopped,
}
use data_analytics_platform.Jobs.Lifecycle.{Lawful}

pub renewed-Lawful :
    (token : String) (clock deadline now : ℕ) (r : JobRecord)
    → holds_lease token clock r ≡ true
    → Lawful r (renewed deadline now r)
renewed-Lawful token clock deadline now r h = ground arith

pub acquired-Lawful :
    (token : String) (progress : ℕ) (stage : String) (clock deadline now : ℕ) (r : JobRecord)
    → claimable clock r ≡ true
    → Lawful r (acquired token progress stage deadline now r)
unfolding acquired
acquired-Lawful token progress stage clock deadline now r h = ground arith

pub reported-Lawful :
    (token : String) (percent : ℕ) (stage : String) (clock deadline now : ℕ) (r : JobRecord)
    → holds_lease token clock r ≡ true
    → Lawful r (reported percent stage deadline now r)
unfolding reported
reported-Lawful token percent stage clock deadline now r h = ground arith

pub completed-Lawful :
    (token : String) (result : Fields) (clock now : ℕ) (r : JobRecord)
    → holds_lease token clock r ≡ true
    → Lawful r (completed result now r)
unfolding completed
completed-Lawful token result clock now r h = ground arith

pub requeued-Lawful :
    (token message : String) (clock now : ℕ) (r : JobRecord)
    → retryable token clock r ≡ true
    → Lawful r (requeued message now r)
unfolding requeued
requeued-Lawful token message clock now r h = ground arith

pub failed-Lawful :
    (message : String) (now : ℕ) (r : JobRecord)
    → is_active r.status ≡ true
    → Lawful r (failed message now r)
unfolding failed
failed-Lawful message now r h = ground arith

pub asked_to_stop-Lawful :
    (now : ℕ) (r : JobRecord) → is_active r.status ≡ true → Lawful r (asked_to_stop now r)
unfolding asked_to_stop
asked_to_stop-Lawful now r h = ground arith

pub cancelled_early-Lawful :
    (result : Option Fields) (now : ℕ) (r : JobRecord)
    → is_pending r.status ≡ true
    → Lawful r (cancelled_early result now r)
unfolding cancelled_early
cancelled_early-Lawful result now r h = ground arith

pub stopped-Lawful :
    (token : Option String) (enforced : Bool) (before : Option ℕ) (result : Option Fields)
    (clock now : ℕ) (r : JobRecord)
    → cancellable token enforced before clock r ≡ true
    → Lawful r (stopped result now r)
unfolding stopped
stopped-Lawful token enforced before result clock now r h = ground arith
