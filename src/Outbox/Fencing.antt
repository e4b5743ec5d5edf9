-- ===== src/Outbox/Fencing.antt =====
-- Publication under concurrency: one dispatcher at a time holds an event, and an answer that comes
-- back after the event was armed again is dropped.
use data_analytics_platform.Base.{
  ℕ, ◌⊎◌, inl, inr, Bool-cases, opt_eq, text_take, ◌+◌, ◌*◌, ◌≡◌, ◌<◌, refl, String, Bool, true,
  false, ◌&&◌, Option, none, some, List, arith, ◌==◌, ap, is_none, if◌then◌else◌, IsSingle,
  count_where, first_where, update_where, update_where_zero, count_where_keyed, first_where-update,
  count_where_zero, first_where-and, count_where-update_same, eq_refl,
}
use data_analytics_platform.Schema.{Database, Settings}
use data_analytics_platform.Schema.Outbox.{TaskOutbox, OutboxStatus}
use data_analytics_platform.Jobs.Clock.{second}
use data_analytics_platform.Outbox.Dispatch.{
  Surroundings, has_id, due, claim, claimed, claimable, still_claimed, is_held, finish,
  finished_event, restage, dispatch,
}

-- The event's row, by its primary key.
abbrev pub Row : ℕ → TaskOutbox → List TaskOutbox → Type 0
Row id e rows = IsSingle (has_id id) rows × (first_where (has_id id) rows ≡ some e)

module _ (id : ℕ) (guard : TaskOutbox → Bool) (e : TaskOutbox) (rows : List TaskOutbox) where
  abbrev both : TaskOutbox → Bool
  both x = has_id id x && guard x

  -- The first row of key and guard is the key's row.
  first_where-both : Row id e rows → guard e ≡ true → first_where both rows ≡ some e
  first_where-both (u, h) g = first_where-and (has_id id) guard rows e h g

  count_where-both : Row id e rows → count_where both rows ≡ (if guard e then 1 else 0)
  count_where-both (u, h) = count_where_keyed (has_id id) guard rows e u h

  update-both :
      (f : TaskOutbox → TaskOutbox)
      → ((x : TaskOutbox) → (f x).id ≡ x.id)
      → Row id e rows
      → Row id (if guard e then f e else e) (update_where both f rows)
  update-both f same (u, h) = (
    omega (
      arith,
      u,
      count_where-update_same (has_id id) both f (λ x. ap (λ n. n == id) (same x)) rows,
    ),
    first_where-update (has_id id) guard f rows (λ x m. ground (arith, same x)) e h,
  )

-- A due event goes to the dispatcher: it gets the row under its own token and one attempt more.
pub claim-due :
    (s : Settings) (id : ℕ) (token : String) (now : ℕ) (db : Database) (e : TaskOutbox)
    → Row id e db.outbox
    → due s now e ≡ true
    → ((claim s id token now db).0 ≡ some (claimed token now e))
      × Row id (claimed token now e) (claim s id token now db).1.outbox
unfolding claim
claim-due s id token now db e row d =
    let first = first_where-both id (due s now) e db.outbox row d in
    let after =
      update-both id (due s now) e db.outbox (claimed token now) (unfold claimed in λ x. refl)
        row in
    (ground arith, rw d at after)

pub claim-not_due :
    (s : Settings) (id : ℕ) (token : String) (now : ℕ) (db : Database) (e : TaskOutbox)
    → Row id e db.outbox
    → due s now e ≡ false
    → claim s id token now db ≡ (none, db)
unfolding claim
claim-not_due s id token now db e row d =
    let zero : count_where (claimable s now id) db.outbox ≡ 0 =
      ground (arith, count_where-both id (due s now) e db.outbox row) in
    ground (
      arith,
      count_where_zero (claimable s now id) db.outbox zero,
      update_where_zero (claimable s now id) (claimed token now) db.outbox zero,
    )

-- Once a due event has been claimed, and while the claim is younger than its time to live, a second
-- claim of it gets nothing and changes nothing.
pub claim-exclusive :
    (s : Settings) (id : ℕ) (token other : String) (now soon : ℕ) (db : Database) (e : TaskOutbox)
    → Row id e db.outbox
    → due s now e ≡ true
    → soon < now + s.outbox_claim_ttl_seconds * second
    → let db' = (claim s id token now db).1 in claim s id other soon db' ≡ (none, db')
unfolding claimed
claim-exclusive s id token other now soon db e row d early =
    claim-not_due s id other soon (claim s id token now db).1 (claimed token now e)
      (claim-due s id token now db e row d).1 (ground arith)

-- A dispatcher that lost its claim, or whose event was armed again, writes nothing.
pub finish-superseded :
    (s : Settings) (w : Surroundings) (id : ℕ) (event : TaskOutbox) (error : Option String)
    (db : Database) (e : TaskOutbox)
    → Row id e db.outbox
    → is_held w.token event e ≡ false
    → finish s w id event error db ≡ (false, db)
unfolding finish
finish-superseded s w id event error db e row lost =
    let zero : count_where (still_claimed id w.token event) db.outbox ≡ 0 =
      ground (arith, count_where-both id (is_held w.token event) e db.outbox row) in
    ground (
      arith,
      zero,
      update_where_zero (still_claimed id w.token event) (finished_event s w event error) db.outbox
          zero,
    )

finished_event-id :
    (s : Settings) (w : Surroundings) (event : TaskOutbox) (error : Option String) (e : TaskOutbox)
    → (finished_event s w event error e).id ≡ e.id
unfolding finished_event
finished_event-id s w event none e = refl
finished_event-id s w event (some t) e = refl

pub finish-held :
    (s : Settings) (w : Surroundings) (id : ℕ) (event : TaskOutbox) (error : Option String)
    (db : Database) (e : TaskOutbox)
    → Row id e db.outbox
    → is_held w.token event e ≡ true
    → let (done, db') = finish s w id event error db in
      (done ≡ is_none error)
      × Row id (finished_event s w event error e) db'.outbox
      × (db'.jobs ≡ restage true event.task_id w.finished_at error db.jobs)
unfolding finish
finish-held s w id event error db e row held =
    let one : count_where (still_claimed id w.token event) db.outbox ≡ 1 =
      ground (arith, count_where-both id (is_held w.token event) e db.outbox row) in
    let after =
      update-both id (is_held w.token event) e db.outbox (finished_event s w event error)
        (finished_event-id s w event error) row in
    (ground arith, rw held at after, ground arith)

module _ (s : Settings) (w : Surroundings) (id : ℕ) (db : Database) (e : TaskOutbox)
    (row : Row id e db.outbox) (ready : due s w.claimed_at e ≡ true) where
  -- The row that the claim returns.
  abbrev pub mine : TaskOutbox
  mine = claimed w.token w.claimed_at e

  dispatch-claimed :
      dispatch s w id db
      ≡ finish s w id mine (w.publish mine) (w.between (claim s id w.token w.claimed_at db).1)
  unfolding dispatch
  dispatch-claimed = rw (claim-due s id w.token w.claimed_at db e row ready).0

  claimed-held : is_held w.token mine mine ≡ true
  unfolding claimed
  claimed-held = ground (arith, eq_refl w.token)

  undisturbed :
      ((d : Database) → w.between d ≡ d)
      → let (done, db') = dispatch s w id db in
        (done ≡ is_none (w.publish mine))
        × Row id (finished_event s w mine (w.publish mine) mine) db'.outbox
  undisturbed quiet =
      let db1 = (claim s id w.token w.claimed_at db).1 in
      let taken = (claim-due s id w.token w.claimed_at db e row ready).1 in
      let done = finish-held s w id mine (w.publish mine) db1 mine taken claimed-held in
      rw (dispatch-claimed, quiet db1) (done.0, done.1)

  -- What the event's row says of the broker's answer.
  abbrev pub Records : Option String → TaskOutbox → Type 0
  Records none x =
      (x.status ≡ OutboxStatus.published)
      × (x.published_at ≡ some w.finished_at)
      × (x.last_error ≡ none)
      × (x.claim_token ≡ none)
      × (x.attempts ≡ e.attempts + 1)
      × (x.generation ≡ e.generation)
  Records (some error) x =
      (x.status ≡ OutboxStatus.pending)
      × (x.published_at ≡ e.published_at)
      × (x.last_error ≡ some (text_take 2000 error))
      × (x.claim_token ≡ none)
      × (x.attempts ≡ e.attempts + 1)
      × (x.generation ≡ e.generation)

  finished-Records : (answer : Option String) → Records answer (finished_event s w mine answer mine)
  unfolding finished_event claimed
  finished-Records none = (refl, refl, refl, refl, refl, refl)
  finished-Records (some error) = (refl, refl, refl, refl, refl, refl)

  -- A due event that no other session touches during the broker call: the answer of the dispatch says
  -- whether the broker took it. If it did, the event is PUBLISHED at the time of the second
  -- transaction, without an error; if not, it is PENDING with the error cut to 2000 characters, and as
  -- published as it was. Either way it is unclaimed, of the same generation, with one attempt more.
  pub dispatch-undisturbed :
      ((d : Database) → w.between d ≡ d)
      → (x : TaskOutbox) × ((dispatch s w id db).0 ≡ is_none (w.publish mine))
        × Row id x (dispatch s w id db).1.outbox
        × Records (w.publish mine) x
  dispatch-undisturbed quiet =
      let (done, after) = undisturbed quiet in
      (
        finished_event s w mine (w.publish mine) mine,
        done,
        after,
        finished-Records (w.publish mine),
      )

  -- A due event, whatever other sessions do during the broker call: where the event's row then has
  -- another generation than the claimed one, or another claim token than the dispatcher's, or none, the
  -- broker's answer is dropped, whatever it was, and the second transaction changes nothing.
  pub dispatch-superseded :
      (x : TaskOutbox)
      → Row id x (w.between (claim s id w.token w.claimed_at db).1).outbox
      → (x.generation ≡ e.generation → ⊥) ⊎ (opt_eq x.claim_token (some w.token) ≡ false)
      → dispatch s w id db ≡ (false, w.between (claim s id w.token w.claimed_at db).1)
  unfolding claimed
  dispatch-superseded x there other =
      let lost : is_held w.token mine x ≡ false = elim other [
        | inl g ↦ elim (Bool-cases (x.generation == e.generation)) [
          | inl same ↦ absurd (g (ground arith))
          | inr n ↦ ground arith
        ]
        | inr t ↦ ground arith
      ] in
      rw dispatch-claimed (
        finish-superseded s w id mine (w.publish mine)
          (w.between (claim s id w.token w.claimed_at db).1) x there lost)
