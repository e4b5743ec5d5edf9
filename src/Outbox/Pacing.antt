-- ===== src/Outbox/Pacing.antt =====
-- How fast the outbox works: bounds of a tick, of the retry delay, and what an outage costs.
use data_analytics_platform.Base.{
  ℕ, subst, zero, suc, ◌+◌, ◌*◌, ◌^◌, ◌≡◌, ◌≤◌, refl, String, Bool, true, false, not, ◌&&◌, some,
  List, [], ◌∷◌, map, arith, ◌∙◌, ap, min, max, length, length-take-le, take, filter, order_by,
  count_where, count_where-order_by, count_where-filter-not, count_where-filter-le,
  count_where_keyed, text_take-ne-empty,
}
use data_analytics_platform.Schema.{Database, Settings}
use data_analytics_platform.Schema.Outbox.{TaskOutbox}
use data_analytics_platform.Jobs.Clock.{second}
use data_analytics_platform.Outbox.Dispatch.{
  Surroundings, Tally, due, has_id, claimed, finished_event, retry_ceiling, candidate_ids,
  comes_before, dispatch, dispatch_each, dispatch_pending, is_error, last_error, add_if,
}
use data_analytics_platform.Outbox.Fencing.{Row, Records, dispatch-undisturbed}

-- `random.uniform(low, high)`, in microseconds, for numbers of seconds.
abbrev pub IsUniform : (ℕ → ℕ → ℕ) → Type 0
IsUniform u =
    (low high : ℕ) → low ≤ high → (low * second ≤ u low high) × (u low high ≤ high * second)

pow_capped : (n : ℕ) → n ≤ 8 → 2 ^ n ≤ 256
pow_capped zero h = omega arith
pow_capped (suc zero) h = omega arith
pow_capped (suc (suc zero)) h = omega arith
pow_capped (suc (suc (suc zero))) h = omega arith
pow_capped (suc (suc (suc (suc zero)))) h = omega arith
pow_capped (suc (suc (suc (suc (suc zero))))) h = omega arith
pow_capped (suc (suc (suc (suc (suc (suc zero)))))) h = omega arith
pow_capped (suc (suc (suc (suc (suc (suc (suc zero))))))) h = omega arith
pow_capped (suc (suc (suc (suc (suc (suc (suc (suc zero)))))))) h = omega arith
pow_capped (suc (suc (suc (suc (suc (suc (suc (suc (suc n))))))))) h = absurd (omega arith)

-- If the random delay respects its bounds, then after a failed publication the event becomes available
-- no sooner than one second later, and no later than the larger of one second and the lesser of 256
-- seconds and the configured limit; it is not due at once.
pub finished_event-delay :
    (s : Settings) (w : Surroundings) (event e : TaskOutbox) (error : String)
    → IsUniform w.uniform
    → let e' = finished_event s w event (some error) e in
      (w.finished_at + second ≤ e'.available_at)
      × (e'.available_at ≤ w.finished_at + max 1 (min 256 s.outbox_max_retry_seconds) * second)
      × (due s w.finished_at e' ≡ false)
unfolding finished_event retry_ceiling
finished_event-delay s w event e error u =
    let ceiling = max 1 (retry_ceiling s event.attempts) in
    let (low, high) = u 1 ceiling (omega arith) in
    let cap = pow_capped (min event.attempts 8) (omega arith) in
    (omega arith, omega arith, ground arith)

dispatch_each_bounds :
    (s : Settings) (w : ℕ → Surroundings) (ids : List ℕ) (t : Tally) (db : Database)
    → t.published ≤ t.examined
    → let t' = (dispatch_each s w ids t db).0 in
      (t'.published ≤ t'.examined) × (t'.examined ≤ t.examined + length ids)
unfolding dispatch_each
dispatch_each_bounds s w [] t db h = (h, omega arith)
dispatch_each_bounds s w (id ∷ ids) t db h =
    let (done, db') = dispatch s (w id) id db in
    let t' : Tally = record { examined = t.examined + 1; published = add_if done t.published } in
    ground (arith, dispatch_each_bounds s w ids t' db')

length-map : (es : List TaskOutbox) → length (map (λ e. e.id) es) ≡ length es
length-map [] = refl
length-map (e ∷ es) = ap suc (length-map es)

-- A tick publishes no more events than it examines, and examines no more than its limit, or one.
pub dispatch_pending_bounds :
    (s : Settings) (w : ℕ → Surroundings) (now limit : ℕ) (db : Database)
    → let t = (dispatch_pending s w now limit db).0 in
      (t.published ≤ t.examined) × (t.examined ≤ max 1 limit)
unfolding dispatch_pending candidate_ids
dispatch_pending_bounds s w now limit db =
    let found = take (max 1 limit) (order_by comes_before (filter (due s now) db.outbox)) in
    let bounds =
      dispatch_each_bounds s w (candidate_ids s now limit db)
        (record { examined = 0; published = 0 }) db (omega arith) in
    (
      bounds.0,
      omega (
        arith,
        bounds.1,
        length-map found,
        length-take-le (max 1 limit) (order_by comes_before (filter (due s now) db.outbox)),
      ),
    )

candidate_head :
    (p : TaskOutbox → Bool) (n id : ℕ) (ids : List ℕ) (es : List TaskOutbox)
    → map (λ e. e.id) (take n es) ≡ id ∷ ids
    → count_where (λ e. not (p e)) es ≡ 0
    → 1 ≤ count_where (λ e. has_id id e && p e) es
unfolding count_where
candidate_head p zero id ids es h z = absurd (cc)
candidate_head p (suc n) id ids [] h z = absurd (cc)
candidate_head p (suc n) id ids (e ∷ es) h z = ground arith

-- The first candidate is due when the tick begins, so also when its turn comes.
candidate-due :
    (s : Settings) (now limit id : ℕ) (ids : List ℕ) (db : Database) (e : TaskOutbox)
    → candidate_ids s now limit db ≡ id ∷ ids
    → Row id e db.outbox
    → due s now e ≡ true
unfolding candidate_ids
candidate-due s now limit id ids db e h (u, f) =
    let waiting = filter (due s now) db.outbox in
    let sorted = order_by comes_before waiting in
    let all : count_where (λ x. not (due s now x)) sorted ≡ 0 =
      count_where-order_by comes_before (λ x. not (due s now x)) waiting
      ∙ count_where-filter-not (due s now) db.outbox in
    let head = candidate_head (due s now) (max 1 limit) id ids sorted h all in
    ground (
      arith,
      head,
      count_where-order_by comes_before (λ x. has_id id x && due s now x) waiting,
      count_where-filter-le (due s now) (λ x. has_id id x && due s now x) db.outbox,
      count_where_keyed (has_id id) (due s now) db.outbox e u f,
    )

due_mono :
    (s : Settings) (now after : ℕ) (e : TaskOutbox)
    → now ≤ after
    → due s now e ≡ true
    → due s after e ≡ true
due_mono s now after e h d = ground arith

dispatch-outage :
    (s : Settings) (w : Surroundings) (id : ℕ) (db : Database) (e : TaskOutbox) (error : String)
    → Row id e db.outbox
    → due s w.claimed_at e ≡ true
    → ((d : Database) → w.between d ≡ d)
    → ((x : TaskOutbox) → w.publish x ≡ some error)
    → is_error (some error) ≡ true
    → ((dispatch s w id db).0 ≡ false) × (is_error (last_error (dispatch s w id db).1 id) ≡ true)
unfolding last_error
dispatch-outage s w id db e error row ready quiet down text =
    let (x, done, (one, found), record_) = dispatch-undisturbed s w id db e row ready quiet in
    let told =
      subst (λ a. Records s w id db e row ready a x) (down (claimed w.token w.claimed_at e))
        record_ in
    (
      ground (arith, done, down (claimed w.token w.claimed_at e)),
      rw found (rw told.2 (ground (arith, text_take-ne-empty 1999 error))),
    )

-- If no other session interferes and the broker answers the first candidate's publication with an
-- error that has a text, the tick stops there: it has examined one event and published none.
pub dispatch_pending-outage :
    (s : Settings) (w : ℕ → Surroundings) (now limit id : ℕ) (ids : List ℕ) (db : Database)
    (e : TaskOutbox) (error : String)
    → candidate_ids s now limit db ≡ id ∷ ids
    → Row id e db.outbox
    → now ≤ (w id).claimed_at
    → ((d : Database) → (w id).between d ≡ d)
    → ((x : TaskOutbox) → (w id).publish x ≡ some error)
    → is_error (some error) ≡ true
    → (dispatch_pending s w now limit db).0 ≡ record { examined = 1; published = 0 }
unfolding dispatch_pending dispatch_each
dispatch_pending-outage s w now limit id ids db e error h row early quiet down text =
    let ready =
      due_mono s now (w id).claimed_at e early (candidate-due s now limit id ids db e h row) in
    let out = dispatch-outage s (w id) id db e error row ready quiet down text in
    rw h (ground (arith, out.0, out.1))
