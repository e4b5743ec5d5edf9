-- ===== src/Outbox/Dispatch.antt =====
-- Publication of backend/app/services/outbox_service.py: `_due`, `candidate_ids`, `dispatch`,
-- `dispatch_pending` and `dispatch_task`. `dispatch` commits between its parts, so it is a claim, a
-- broker call outside any transaction, and a finish: other sessions may act in between.
use data_analytics_platform.Base.{
  ℕ, ◌+◌, ◌*◌, ◌^◌, min, max, List, [], ◌∷◌, map, String, Bool, true, false, not, ◌&&◌, ◌||◌,
  Option, none, some, leb, ltb, ◌==◌, str_eq, opt_eq, is_none, if◌then◌else◌, filter, take,
  count_where, update_where, first_where, text_take, order_by,
}
use data_analytics_platform.Schema.{Database, Settings}
use data_analytics_platform.Schema.Jobs.{JobRecord}
use data_analytics_platform.Schema.Jobs
use data_analytics_platform.Schema.Outbox.{TaskOutbox, OutboxStatus, is_pending, is_dispatching}
use data_analytics_platform.Jobs.Clock.{second}
use data_analytics_platform.Jobs.Admission.{is_task}
use data_analytics_platform.Outbox.Intent.{find_event}

-- `claimed_at IS NULL OR claimed_at <= now - ttl`
abbrev pub claim_stale : ℕ → Option ℕ → ℕ → Bool
claim_stale ttl none now = true
claim_stale ttl (some t) now = leb (t + ttl * second) now

-- `_due`
abbrev pub due : Settings → ℕ → TaskOutbox → Bool
due s now e =
    (is_pending e.status && leb e.available_at now)
    || (is_dispatching e.status && claim_stale s.outbox_claim_ttl_seconds e.claimed_at now)

abbrev pub has_id : ℕ → TaskOutbox → Bool
has_id id e = e.id == id

-- `order_by(available_at, id)`
abbrev pub comes_before : TaskOutbox → TaskOutbox → Bool
comes_before a b =
    ltb a.available_at b.available_at || ((a.available_at == b.available_at) && leb a.id b.id)

unfoldable pub candidate_ids : Settings → ℕ → ℕ → Database → List ℕ
candidate_ids s now limit db =
    map (λ e. e.id) (take (max 1 limit) (order_by comes_before (filter (due s now) db.outbox)))

unfoldable pub claimed : String → ℕ → TaskOutbox → TaskOutbox
claimed token now e = record e {
  status = OutboxStatus.dispatching;
  claim_token = some token;
  claimed_at = some now;
  attempts = e.attempts + 1;
  updated_at = now;
}

abbrev pub claimable : Settings → ℕ → ℕ → TaskOutbox → Bool
claimable s now id e = has_id id e && due s now e

abbrev pub map_option {ℓ κ} : {A : Type ℓ} {B : Type κ} → (A → B) → Option A → Option B
map_option f none = none
map_option f (some a) = some (f a)

-- `UPDATE ... RETURNING`: the claimed row, as it is after the update.
unfoldable pub claim : Settings → ℕ → String → ℕ → Database → Option TaskOutbox × Database
unfolding claimed
claim s id token now db = (
  map_option (claimed token now) (first_where (claimable s now id) db.outbox),
  record db { outbox = update_where (claimable s now id) (claimed token now) db.outbox },
)

-- What the surroundings give to one dispatch: the claim's token, the two clock readings, the broker's
-- answer (the text of an exception, if it raised), the random delay in microseconds between two
-- numbers of seconds, and what other sessions commit while the broker is called.
pub record Surroundings : Type 0 where
  pub token : String
  pub claimed_at : ℕ
  pub finished_at : ℕ
  pub publish : TaskOutbox → Option String
  pub uniform : ℕ → ℕ → ℕ
  pub between : Database → Database

-- `min(2 ** min(attempts, 8), OUTBOX_MAX_RETRY_SECONDS)`
unfoldable pub retry_ceiling : Settings → ℕ → ℕ
retry_ceiling s attempts = min (2 ^ min attempts 8) s.outbox_max_retry_seconds

unfoldable pub finished_event :
    Settings → Surroundings → TaskOutbox → Option String → TaskOutbox → TaskOutbox
unfolding retry_ceiling
finished_event s w event none e = record e {
  status = OutboxStatus.published;
  claim_token = none;
  claimed_at = none;
  published_at = some w.finished_at;
  last_error = none;
  updated_at = w.finished_at;
}
finished_event s w event (some error) e = record e {
  status = OutboxStatus.pending;
  claim_token = none;
  claimed_at = none;
  available_at = w.finished_at + w.uniform 1 (max 1 (retry_ceiling s event.attempts));
  last_error = some (text_take 2000 error);
  updated_at = w.finished_at;
}

-- The row is still the one that was claimed: same generation, same claim.
abbrev pub is_held : String → TaskOutbox → TaskOutbox → Bool
is_held token event e =
    is_dispatching e.status
    && ((e.generation == event.generation) && opt_eq e.claim_token (some token))

abbrev pub still_claimed : ℕ → String → TaskOutbox → TaskOutbox → Bool
still_claimed id token event e = has_id id e && is_held token event e

unfoldable pub restaged : ℕ → Option String → JobRecord → JobRecord
restaged now error job = record job {
  stage = if is_none error then some "queued" else some "dispatch_retry";
  updated_at = now;
}

abbrev pub restage : Bool → String → ℕ → Option String → List JobRecord → List JobRecord
restage false task now error jobs = jobs
restage true task now error jobs =
    update_where (λ r. is_task task r && Jobs.is_pending r.status) (restaged now error) jobs

-- The second transaction of `dispatch`.
unfoldable pub finish :
    Settings → Surroundings → ℕ → TaskOutbox → Option String → Database → Bool × Database
unfolding finished_event restaged
finish s w id event error db =
    let changed = not (count_where (still_claimed id w.token event) db.outbox == 0) in
    (
      changed && is_none error,
      record db {
        outbox =
            update_where (still_claimed id w.token event) (finished_event s w event error)
              db.outbox;
        jobs = restage changed event.task_id w.finished_at error db.jobs;
      },
    )

abbrev pub finish_claim :
    Settings → Surroundings → ℕ → Option TaskOutbox → Database → Bool × Database
finish_claim s w id none db = (false, db)
finish_claim s w id (some event) db = finish s w id event (w.publish event) (w.between db)

unfoldable pub dispatch : Settings → Surroundings → ℕ → Database → Bool × Database
unfolding claim finish
dispatch s w id db =
    finish_claim s w id (claim s id w.token w.claimed_at db).0
      (claim s id w.token w.claimed_at db).1

-- `if error:` on the row's `last_error`
abbrev pub is_error : Option String → Bool
is_error none = false
is_error (some t) = not (str_eq t "")

abbrev pub error_of : Option TaskOutbox → Option String
error_of none = none
error_of (some e) = e.last_error

unfoldable pub last_error : Database → ℕ → Option String
last_error db id = error_of (first_where (has_id id) db.outbox)

pub record Tally : Type 0 where
  pub examined : ℕ
  pub published : ℕ

abbrev pub add_if : Bool → ℕ → ℕ
add_if true n = n + 1
add_if false n = n

-- The loop of `dispatch_pending`; `w` gives the surroundings of each event's dispatch.
unfoldable pub dispatch_each :
    Settings → (ℕ → Surroundings) → List ℕ → Tally → Database → Tally × Database
unfolding dispatch last_error
dispatch_each s w [] t db = (t, db)
dispatch_each s w (id ∷ ids) t db =
    let (done, db') = dispatch s (w id) id db in
    let t' : Tally = record { examined = t.examined + 1; published = add_if done t.published } in
    let rest = dispatch_each s w ids t' db' in
    if not done && is_error (last_error db' id) then (t', db') else rest

unfoldable pub dispatch_pending :
    Settings → (ℕ → Surroundings) → ℕ → ℕ → Database → Tally × Database
unfolding dispatch_each candidate_ids
dispatch_pending s w now limit db =
    dispatch_each s w (candidate_ids s now limit db) (record { examined = 0; published = 0 }) db

abbrev pub dispatch_found : Settings → Surroundings → Option TaskOutbox → Database → Bool × Database
dispatch_found s w none db = (false, db)
dispatch_found s w (some e) db = if e.id == 0 then (false, db) else dispatch s w e.id db

unfoldable pub dispatch_task : Settings → Surroundings → String → Database → Bool × Database
unfolding dispatch find_event
dispatch_task s w task db = dispatch_found s w (find_event db task) db
