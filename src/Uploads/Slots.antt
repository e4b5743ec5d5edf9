-- ===== src/Uploads/Slots.antt =====
-- Admission: what an admitted upload has passed, and the slots that bound the uploads in progress.
use data_analytics_platform.Base.{
  ℕ, suc, ◌+◌, ◌≡◌, ◌≤◌, ◌<◌, refl, sym, subst, String, true, false, Option, none, some, arith, inl,
  inr, Bool-cases, if◌then◌else◌, leb, ltb,
}
use data_analytics_platform.Schema.{Database, Settings, Result, ok, err, capacity_exceeded}
use data_analytics_platform.Jobs.Admission.{ensure_capacity, active_count, check_capacity}
use data_analytics_platform.Cache.{CacheSettings, Fallback, Outcome, runtime_error, increment}
use data_analytics_platform.Cache
use data_analytics_platform.Uploads.Headers.{
  ContentLength, absent, invalid, declared, declared_content_length, matches_upload_endpoint,
  access_subject, requested_task_id, client_fingerprint,
}
use data_analytics_platform.Uploads.Admission.{
  UploadSettings, request_limit_bytes, Request, Guard, Decision, passed_on, refused, admitted,
  try_acquire_upload_slot, release_upload_slot, slot_decision, after_capacity, check_account,
  rate_key, after_count, count_attempt, admit_sized, admit,
}

-- The declared size, where there is one, is within the limit.
abbrev pub Fits : ContentLength → ℕ → Type 0
Fits absent limit = Unit
Fits invalid limit = ⊥
Fits (declared n) limit = n ≤ limit

abbrev pub IsCounted : UploadSettings → Outcome ℕ → Type 0
IsCounted s runtime_error = ⊥
IsCounted s (Cache.returned attempts) = attempts ≤ s.upload_rate_limit_max_attempts

-- The account, where the request names one, has fewer jobs than it may.
abbrev pub HasCapacity : Settings → Option ℕ → Option String → Option Database → Type 0
HasCapacity jobs none task db = Unit
HasCapacity jobs (some owner) task none = ⊥
HasCapacity jobs (some owner) task (some db) =
    active_count db owner task < jobs.max_active_jobs_per_user

-- What a decision says of the slots, and an admission of a check that led to it.
abbrev Granted : UploadSettings → Type 0 → Guard → Decision × Guard → Type 0
Granted s P g (admitted limit, g') =
    P
    × (limit ≡ request_limit_bytes s)
    × (g.active_uploads < s.max_concurrent_upload_requests)
    × (g'.active_uploads ≡ g.active_uploads + 1)
Granted s P g (passed_on, g') = g'.active_uploads ≡ g.active_uploads
Granted s P g (refused status retry_after, g') = g'.active_uploads ≡ g.active_uploads

Granted-map :
    (s : UploadSettings) (P Q : Type 0) (g : Guard) (x : Decision × Guard)
    → (P → Q)
    → Granted s P g x
    → Granted s Q g x
Granted-map s P Q g (admitted limit, g') f h = (f h.0, h.1, h.2, h.3)
Granted-map s P Q g (passed_on, g') f h = h
Granted-map s P Q g (refused status retry_after, g') f h = h

slot-Granted :
    (s : UploadSettings) (g : Guard)
    → Granted s (Unit {0}) g (slot_decision s (try_acquire_upload_slot s g))
unfolding try_acquire_upload_slot
slot-Granted s g = elim (Bool-cases (leb s.max_concurrent_upload_requests g.active_uploads)) [
  | inl e ↦ rw e refl
  | inr e ↦ rw e (tt, refl, ground arith, refl)
]

after_capacity-Granted :
    (s : UploadSettings) (c : Result (Unit {0})) (g : Guard)
    → Granted s (c ≡ ok tt) g (after_capacity s c g)
after_capacity-Granted s (ok u) g =
    Granted-map s (Unit {0}) (ok u ≡ ok tt) g (slot_decision s (try_acquire_upload_slot s g))
      (λ x. refl) (slot-Granted s g)
after_capacity-Granted s (err capacity_exceeded) g = refl
after_capacity-Granted s (err _) g = refl

capacity_below :
    (jobs : Settings) (db : Database) (owner : ℕ) (task : Option String)
    → ensure_capacity jobs db owner false task ≡ ok tt
    → active_count db owner task < jobs.max_active_jobs_per_user
unfolding ensure_capacity check_capacity
capacity_below jobs db owner task h = ground arith

check_account-Granted :
    (s : UploadSettings) (jobs : Settings) (owner : Option ℕ) (task : Option String)
    (db : Option Database) (g : Guard)
    → Granted s (HasCapacity jobs owner task db) g (check_account s jobs owner task db g)
check_account-Granted s jobs none task db g = slot-Granted s g
check_account-Granted s jobs (some owner) task none g = refl
check_account-Granted s jobs (some owner) task (some db) g =
    Granted-map s (ensure_capacity jobs db owner false task ≡ ok tt)
      (HasCapacity jobs (some owner) task (some db)) g
      (after_capacity s (ensure_capacity jobs db owner false task) g)
      (capacity_below jobs db owner task)
      (after_capacity-Granted s (ensure_capacity jobs db owner false task) g)

after_count-Granted :
    (s : UploadSettings) (jobs : Settings) (r : Request) (owner : Option ℕ)
    (c : Outcome ℕ × Fallback) (g : Guard)
    → Granted s
        (IsCounted s c.0
          × HasCapacity jobs owner (requested_task_id r.uuid r.scope.headers) r.database)
        g
        (after_count s jobs r owner c g)
after_count-Granted s jobs r owner (runtime_error, fallback) g = refl
after_count-Granted s jobs r owner (Cache.returned attempts, fallback) g =
    elim (Bool-cases (ltb s.upload_rate_limit_max_attempts attempts)) [
      | inl e ↦ rw e refl
      | inr e ↦
          let few : attempts ≤ s.upload_rate_limit_max_attempts = ground arith in
          let task = requested_task_id r.uuid r.scope.headers in
          rw e (
            Granted-map s (HasCapacity jobs owner task r.database)
              ((attempts ≤ s.upload_rate_limit_max_attempts)
                × HasCapacity jobs owner task r.database)
              (record g { fallback = fallback })
              (check_account s jobs owner task r.database (record g { fallback = fallback }))
              (λ h. (few, h))
              (check_account-Granted s jobs owner task r.database
                (record g { fallback = fallback })))
    ]

module _ (s : UploadSettings) (cache : CacheSettings) (jobs : Settings) where
  -- The answer of the rate limit's counter.
  abbrev pub counted : Request → Guard → Outcome ℕ
  counted r g =
      (increment cache r.redis
        (rate_key r (access_subject r.decode r.scope.headers)
          (client_fingerprint r.hmac s.trust_proxy_headers r.client r.scope.headers))
        s.upload_rate_limit_window_seconds r.now g.fallback).0

  -- What an upload passes before it gets a slot.
  abbrev pub IsAdmissible : Request → Guard → Type 0
  IsAdmissible r g =
      (matches_upload_endpoint r.scope ≡ true)
      × Fits (declared_content_length r.scope.headers) (request_limit_bytes s)
      × IsCounted s (counted r g)
      × HasCapacity jobs (access_subject r.decode r.scope.headers)
          (requested_task_id r.uuid r.scope.headers) r.database

  abbrev Passed : Request → Guard → Type 0
  Passed r g =
      IsCounted s (counted r g)
      × HasCapacity jobs (access_subject r.decode r.scope.headers)
          (requested_task_id r.uuid r.scope.headers) r.database

  count_attempt-Granted :
      (r : Request) (g : Guard)
      → Granted s
          (Passed r g)
          g
          (count_attempt s cache jobs r (access_subject r.decode r.scope.headers) g)
  count_attempt-Granted r g =
      after_count-Granted s jobs r (access_subject r.decode r.scope.headers)
        (increment cache r.redis
          (rate_key r (access_subject r.decode r.scope.headers)
            (client_fingerprint r.hmac s.trust_proxy_headers r.client r.scope.headers))
          s.upload_rate_limit_window_seconds r.now g.fallback)
        g

  admit_sized-Granted :
      (r : Request) (l : ContentLength) (g : Guard)
      → Granted s (Fits l (request_limit_bytes s) × Passed r g) g (admit_sized s cache jobs r l g)
  admit_sized-Granted r invalid g = refl
  admit_sized-Granted r absent g =
      Granted-map s (Passed r g) (Unit × Passed r g) g
        (count_attempt s cache jobs r (access_subject r.decode r.scope.headers) g) (λ h. (tt, h))
        (count_attempt-Granted r g)
  admit_sized-Granted r (declared n) g = elim (Bool-cases (ltb (request_limit_bytes s) n)) [
    | inl e ↦ rw e refl
    | inr e ↦
        let fits : n ≤ request_limit_bytes s = ground arith in
        rw e (
          Granted-map s (Passed r g) ((n ≤ request_limit_bytes s) × Passed r g) g
            (count_attempt s cache jobs r (access_subject r.decode r.scope.headers) g)
            (λ h. (fits, h)) (count_attempt-Granted r g))
  ]

  admit-Granted :
      (r : Request) (g : Guard) → Granted s (IsAdmissible r g) g (admit s cache jobs r g)
  unfolding admit
  admit-Granted r g = elim (Bool-cases (matches_upload_endpoint r.scope)) [
    | inr e ↦ rw e refl
    | inl e ↦
        let l = declared_content_length r.scope.headers in
        subst
          (λ b.
            Granted s (IsAdmissible r g) g
              (if b then admit_sized s cache jobs r l g else (passed_on, g)))
          (sym e)
          (Granted-map s (Fits l (request_limit_bytes s) × Passed r g) (IsAdmissible r g) g
            (admit_sized s cache jobs r l g) (λ h. (e, h.0, h.1.0, h.1.1))
            (admit_sized-Granted r l g))
  ]

  -- An upload that is admitted has the upload path, declares no size or one within the limit, is
  -- within the rate limit, and names no account or one with room for another job; it gets the limit
  -- of the settings and the slot that was free.
  pub admit-admitted :
      (r : Request) (g g' : Guard) (limit : ℕ)
      → admit s cache jobs r g ≡ (admitted limit, g')
      → IsAdmissible r g
        × (limit ≡ request_limit_bytes s)
        × (g.active_uploads < s.max_concurrent_upload_requests)
        × (g'.active_uploads ≡ g.active_uploads + 1)
  admit-admitted r g g' limit h = subst (Granted s (IsAdmissible r g) g) h (admit-Granted r g)

  -- The requests of one process in any order: each is decided on, and an admitted one leaves later.
  -- The number is that of the uploads that have been admitted and have not left.
  pub data Reaches : Guard → ℕ → Type 0 where
    started : (fallback : Fallback) → Reaches (record { fallback = fallback; active_uploads = 0 }) 0
    passes :
        {g : Guard} {n : ℕ}
        → Reaches g n
        → (r : Request) (g' : Guard) → admit s cache jobs r g ≡ (passed_on, g')
        → Reaches g' n
    rejects :
        {g : Guard} {n : ℕ}
        → Reaches g n
        → (r : Request) (g' : Guard) (status : ℕ) (retry_after : Option ℕ)
        → admit s cache jobs r g ≡ (refused status retry_after, g')
        → Reaches g' n
    enters :
        {g : Guard} {n : ℕ}
        → Reaches g n
        → (r : Request) (g' : Guard) (limit : ℕ) → admit s cache jobs r g ≡ (admitted limit, g')
        → Reaches g' (suc n)
    leaves : {g : Guard} {n : ℕ} → Reaches g (suc n) → Reaches (release_upload_slot g) n

  -- In any interleaving of requests the counter is the number of the uploads in progress, and that
  -- is at most the configured number.
  pub active_uploads_bounds :
      {g : Guard} {n : ℕ}
      → Reaches g n
      → (g.active_uploads ≡ n) × (n ≤ s.max_concurrent_upload_requests)
  unfolding release_upload_slot
  active_uploads_bounds (started fallback) = (refl, omega arith)
  active_uploads_bounds (passes {g} {n} x r g' e) =
      let same = subst (Granted s (IsAdmissible r g) g) e (admit-Granted r g) in
      omega (arith, same, active_uploads_bounds x)
  active_uploads_bounds (rejects {g} {n} x r g' status retry_after e) =
      let same = subst (Granted s (IsAdmissible r g) g) e (admit-Granted r g) in
      omega (arith, same, active_uploads_bounds x)
  active_uploads_bounds (enters {g} {n} x r g' limit e) =
      let (ok', l, free, more) = admit-admitted r g g' limit e in
      omega (arith, free, more, active_uploads_bounds x)
  active_uploads_bounds (leaves x) = omega (arith, active_uploads_bounds x)
