-- ===== src/Tests/Requests.antt =====
-- The theorems on request bodies at one upload.
use data_analytics_platform.Base.{
  ℕ, ◌≡◌, ◌≤◌, ◌<◌, ◌⊎◌, refl, true, false, none, some, List, [], ◌∷◌, arith, codes, first_where,
  count_where,
}
use data_analytics_platform.Cache.{CacheSettings, unavailable}
use data_analytics_platform.Uploads.Headers.{declared, declared_content_length}
use data_analytics_platform.Uploads.Stream.{
  Message, body, App, receive, send, returned, rejection, serve, alone,
}
use data_analytics_platform.Uploads.Admission.{UploadSettings, Request, Guard, admitted, admit}
use data_analytics_platform.Uploads.Limit.{
  body_bytes, serve-alone, serve-bounds, reads, serve-reads,
}
use data_analytics_platform.Uploads.Slots.{
  IsAdmissible, admit-admitted, Reaches, started, enters, active_uploads_bounds,
}
use data_analytics_platform.Tests.{settings, running_job, with_job}

-- An application that takes one message and answers.
abbrev echo : App
echo = receive (λ r. send "200" returned)

abbrev parts : List Message
parts = body 4 ∷ body 3 ∷ []

serve-alone_example : serve 7 parts echo ≡ alone parts echo
serve-alone_example = serve-alone 7 parts echo (omega arith)

serve-bounds_example : body_bytes (serve 5 parts echo).seen ≤ 5
serve-bounds_example = serve-bounds 5 parts echo

-- A handler that answers the exception of the limit with a response of its own.
abbrev refusing : App
refusing = send "400" returned

serve-reads_example :
    let e = serve 5 parts (reads refusing 2 echo) in
    ((e.failed ≡ false) × (e.sent ≡ rejection 413 none ∷ [])) ⊎ ((e.failed ≡ true) × (e.sent ≡ []))
serve-reads_example = serve-reads 5 parts refusing echo (omega arith)

abbrev limits : UploadSettings
limits = record {
  max_file_size_mb = 50;
  upload_multipart_overhead_mb = 2;
  max_concurrent_upload_requests = 2;
  max_request_body_size_mb = 1;
  upload_rate_limit_max_attempts = 10;
  upload_rate_limit_window_seconds = 60;
  trust_proxy_headers = false;
}

abbrev counters : CacheSettings
counters = record {
  fallback_allowed = true;
  cache_fallback_max_items = 2;
  cache_fallback_ttl_seconds = 60;
}

abbrev upload : Request
upload = record {
  scope = record {
    type = "http";
    method = "POST";
    path = codes "/api/v1/datasets/project/7/";
    headers =
        record { name = codes "Content-Length"; value = codes " 12, 12" }
        ∷ record { name = codes "Authorization"; value = codes "Bearer abc" }
        ∷ [];
  };
  decode = λ t. some (record { token_type = some "access"; subject = some 7 });
  uuid = λ v. none;
  hmac = λ a. "client";
  client = none;
  account_key = λ n. "user";
  client_key = λ f. f;
  redis = unavailable;
  now = 5;
  database = some (with_job running_job);
}

abbrev idle : Guard
idle = record { fallback = record { cache = []; counters = [] }; active_uploads = 0 }

declared_twelve : declared_content_length upload.scope.headers ≡ declared 12
unfolding declared_content_length
declared_twelve = refl

admitted_upload : (admit limits counters settings upload idle).0 ≡ admitted 54525952
unfolding admit first_where count_where
admitted_upload = refl

-- The guard after the admission.
receiving : Guard
receiving = (admit limits counters settings upload idle).1

admitted_now : admit limits counters settings upload idle ≡ (admitted 54525952, receiving)
unfolding receiving admit first_where count_where
admitted_now = refl

admit-admitted_example :
    IsAdmissible limits counters settings upload idle
    × ◌≡◌ {A = ℕ} 54525952 54525952
    × (0 < 2)
    × (receiving.active_uploads ≡ 1)
admit-admitted_example =
    admit-admitted limits counters settings upload idle receiving 54525952 admitted_now

entered : Reaches limits counters settings receiving 1
entered =
    enters (started (record { cache = []; counters = [] })) upload receiving 54525952 admitted_now

active_uploads_bounds_example : (receiving.active_uploads ≡ 1) × (1 ≤ 2)
active_uploads_bounds_example = active_uploads_bounds limits counters settings entered
