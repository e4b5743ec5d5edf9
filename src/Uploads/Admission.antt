-- ===== src/Uploads/Admission.antt =====
-- `RequestBodyLimitMiddleware` and `UploadAdmissionMiddleware`.
use data_analytics_platform.Base.{
  ℕ, ◌+◌, ◌-◌, ◌*◌, List, [], ◌∷◌, String, Bool, true, false, not, ◌||◌, Option, none, some, str_eq,
  if◌then◌else◌, leb, ltb, Bytes,
}
use data_analytics_platform.Schema.{Database, Settings, Result, ok, err, capacity_exceeded}
use data_analytics_platform.Jobs.Admission.{ensure_capacity}
use data_analytics_platform.Cache.{
  CacheSettings, Fallback, Answer, Outcome, runtime_error, increment,
}
use data_analytics_platform.Cache
use data_analytics_platform.Uploads.Headers.{
  Scope, Claims, ContentLength, absent, invalid, declared, declared_content_length,
  matches_upload_endpoint, is_body_method, access_subject, requested_task_id, client_fingerprint,
}
use data_analytics_platform.Uploads.Stream.{Message, App, rejection, Exchange, serve, alone}

pub record UploadSettings : Type 0 where
  pub max_file_size_mb : ℕ
  pub upload_multipart_overhead_mb : ℕ
  pub max_concurrent_upload_requests : ℕ
  pub max_request_body_size_mb : ℕ
  pub upload_rate_limit_max_attempts : ℕ
  pub upload_rate_limit_window_seconds : ℕ
  pub trust_proxy_headers : Bool

abbrev pub request_limit_bytes : UploadSettings → ℕ
request_limit_bytes s = (s.max_file_size_mb + s.upload_multipart_overhead_mb) * 1024 * 1024

abbrev pub general_request_limit_bytes : UploadSettings → ℕ
general_request_limit_bytes s = s.max_request_body_size_mb * 1024 * 1024

-- `_reject`: one response, without its texts.
abbrev pub rejected : ℕ → Option ℕ → Exchange
rejected status retry_after = record {
  sent = rejection status retry_after ∷ [];
  seen = [];
  request_too_large = false;
  failed = false;
}

abbrev pub limited : ContentLength → ℕ → List Message → App → Exchange
limited absent limit ms app = serve limit ms app
limited invalid limit ms app = rejected 400 none
limited (declared n) limit ms app = if ltb limit n then rejected 413 none else serve limit ms app

-- `RequestBodyLimitMiddleware.__call__`
unfoldable pub limit_body : UploadSettings → Scope → List Message → App → Exchange
unfolding declared_content_length matches_upload_endpoint serve alone
limit_body s scope ms app =
    if not (str_eq scope.type "http")
      || (not (is_body_method scope.method) || matches_upload_endpoint scope)
    then alone ms app
    else limited (declared_content_length scope.headers) (general_request_limit_bytes s) ms app

-- What surrounds one upload: `key` writes the rate limit's key for an account or a client, `redis` and
-- `now` are what `CacheService.increment` meets, and no database stands for a session that fails.
pub record Request : Type 0 where
  pub scope : Scope
  pub decode : Bytes → Option Claims
  pub uuid : Bytes → Option String
  pub hmac : Bytes → String
  pub client : Option Bytes
  pub account_key : ℕ → String
  pub client_key : String → String
  pub redis : Answer ℕ
  pub now : ℕ
  pub database : Option Database

-- The process's own state: the fallback counters and the uploads that it receives.
pub record Guard : Type 0 where
  pub fallback : Fallback
  pub active_uploads : ℕ

pub data Decision : Type 0 where
  passed_on : Decision
  refused : ℕ → Option ℕ → Decision
  admitted : ℕ → Decision

unfoldable pub try_acquire_upload_slot : UploadSettings → Guard → Bool × Guard
try_acquire_upload_slot s g =
    if leb s.max_concurrent_upload_requests g.active_uploads
    then (false, g)
    else (true, record g { active_uploads = g.active_uploads + 1 })

-- `max(0, active - 1)`
unfoldable pub release_upload_slot : Guard → Guard
release_upload_slot g = record g { active_uploads = g.active_uploads - 1 }

abbrev pub slot_decision : UploadSettings → Bool × Guard → Decision × Guard
slot_decision s (true, g) = (admitted (request_limit_bytes s), g)
slot_decision s (false, g) = (refused 429 (some 1), g)

abbrev pub after_capacity : UploadSettings → Result (Unit {0}) → Guard → Decision × Guard
after_capacity s (ok u) g = slot_decision s (try_acquire_upload_slot s g)
after_capacity s (err capacity_exceeded) g =
    (refused 429 (some s.upload_rate_limit_window_seconds), g)
after_capacity s (err _) g = (refused 503 none, g)

abbrev pub check_account :
    UploadSettings
    → Settings
    → Option ℕ
    → Option String
    → Option Database
    → Guard
    → Decision × Guard
check_account s jobs none task db g = slot_decision s (try_acquire_upload_slot s g)
check_account s jobs (some owner) task none g = (refused 503 none, g)
check_account s jobs (some owner) task (some db) g =
    after_capacity s (ensure_capacity jobs db owner false task) g

abbrev pub rate_key : Request → Option ℕ → String → String
rate_key r none fingerprint = r.client_key fingerprint
rate_key r (some owner) fingerprint = r.account_key owner

abbrev pub after_count :
    UploadSettings → Settings → Request → Option ℕ → Outcome ℕ × Fallback → Guard → Decision × Guard
after_count s jobs r owner (runtime_error, fallback) g =
    (refused 503 none, record g { fallback = fallback })
after_count s jobs r owner (Cache.returned attempts, fallback) g =
    if ltb s.upload_rate_limit_max_attempts attempts
    then (refused 429 (some s.upload_rate_limit_window_seconds), record g { fallback = fallback })
    else check_account s jobs owner (requested_task_id r.uuid r.scope.headers) r.database
        (record g { fallback = fallback })

abbrev pub count_attempt :
    UploadSettings → CacheSettings → Settings → Request → Option ℕ → Guard → Decision × Guard
count_attempt s cache jobs r owner g =
    after_count s jobs r owner
      (increment cache r.redis
        (rate_key r owner
          (client_fingerprint r.hmac s.trust_proxy_headers r.client r.scope.headers))
        s.upload_rate_limit_window_seconds r.now g.fallback)
      g

abbrev pub admit_sized :
    UploadSettings → CacheSettings → Settings → Request → ContentLength → Guard → Decision × Guard
admit_sized s cache jobs r invalid g = (refused 400 none, g)
admit_sized s cache jobs r absent g =
    count_attempt s cache jobs r (access_subject r.decode r.scope.headers) g
admit_sized s cache jobs r (declared n) g =
    if ltb (request_limit_bytes s) n
    then (refused 413 none, g)
    else count_attempt s cache jobs r (access_subject r.decode r.scope.headers) g

-- `UploadAdmissionMiddleware.__call__`, up to the slot.
unfoldable pub admit :
    UploadSettings → CacheSettings → Settings → Request → Guard → Decision × Guard
unfolding matches_upload_endpoint declared_content_length access_subject requested_task_id
    client_fingerprint increment ensure_capacity try_acquire_upload_slot
admit s cache jobs r g =
    if matches_upload_endpoint r.scope
    then admit_sized s cache jobs r (declared_content_length r.scope.headers) g
    else (passed_on, g)

abbrev pub conducted : Decision × Guard → List Message → App → Exchange × Guard
conducted (passed_on, g) ms app = (alone ms app, g)
conducted (refused status retry_after, g) ms app = (rejected status retry_after, g)
conducted (admitted limit, g) ms app = (serve limit ms app, release_upload_slot g)

-- The whole call, where no other request comes between.
unfoldable pub receive_upload :
    UploadSettings
    → CacheSettings
    → Settings
    → Request
    → List Message
    → App
    → Guard
    → Exchange × Guard
unfolding admit serve alone release_upload_slot
receive_upload s cache jobs r ms app g = conducted (admit s cache jobs r g) ms app
