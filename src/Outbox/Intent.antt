-- ===== src/Outbox/Intent.antt =====
-- Publication intents of backend/app/services/outbox_service.py: `enqueue`, `rearm` and `cancel`.
use data_analytics_platform.Base.{
  ℕ, ◌+◌, ◌++◌, ◌∷◌, [], List, String, Bool, not, ◌&&◌, Option, none, ◌==◌, str_eq, if◌then◌else◌,
  count_where, update_where, first_where,
}
use data_analytics_platform.Schema.{Database, Result, ok, err, state_conflict, no_publication}
use data_analytics_platform.Schema.Json.{Json}
use data_analytics_platform.Schema.Jobs.{JobKind}
use data_analytics_platform.Schema.Outbox.{TaskOutbox, pending, cancelled, is_cancelled}
use data_analytics_platform.Jobs.Admission.{or_text}

abbrev pub for_task : String → TaskOutbox → Bool
for_task task e = str_eq e.task_id task

unfoldable pub find_event : Database → String → Option TaskOutbox
find_event db task = first_where (for_task task) db.outbox

-- `id` and `now` are what the database fills in.
unfoldable pub new_event : ℕ → String → JobKind → List Json → Option String → ℕ → TaskOutbox
new_event id task kind args context now = record {
  id = id;
  task_id = task;
  kind = kind;
  payload = record { args = args; correlation_id = or_text context task };
  status = pending;
  attempts = 0;
  generation = 1;
  claim_token = none;
  available_at = now;
  claimed_at = none;
  published_at = none;
  last_error = none;
  created_at = now;
  updated_at = now;
}

unfoldable pub enqueue :
    ℕ → String → JobKind → List Json → Option String → ℕ → Database → TaskOutbox × Database
unfolding new_event
enqueue id task kind args context now db =
    let event = new_event id task kind args context now in
    (event, record db { outbox = db.outbox ++ event ∷ [] })

unfoldable pub rearmed : ℕ → TaskOutbox → TaskOutbox
rearmed now e = record e {
  status = pending;
  generation = e.generation + 1;
  claim_token = none;
  claimed_at = none;
  published_at = none;
  available_at = now;
  updated_at = now;
}

unfoldable pub rearm : String → ℕ → Database → Result (Unit {0}) × Database
unfolding rearmed
rearm task now db =
    let db' = record db { outbox = update_where (for_task task) (rearmed now) db.outbox } in
    if count_where (for_task task) db.outbox == 1
    then (ok tt, db')
    else (err (state_conflict no_publication), db')

unfoldable pub withdrawn : ℕ → TaskOutbox → TaskOutbox
withdrawn now e = record e {
  status = cancelled;
  claim_token = none;
  claimed_at = none;
  updated_at = now;
}

-- `OutboxService.cancel`
unfoldable pub cancel : String → ℕ → Database → Database
unfolding withdrawn
cancel task now db = record db {
  outbox =
      update_where (λ e. for_task task e && not (is_cancelled e.status)) (withdrawn now) db.outbox;
}
