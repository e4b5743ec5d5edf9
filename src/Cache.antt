-- ===== src/Cache.antt =====
-- `CacheService` of backend/app/core/cache.py: Redis, and the process's own store where Redis fails
-- and the environment allows it. An OrderedDict is the list of its entries, the oldest first; times are
-- whole units of the monotonic clock; a JSON value is its text.
pub mod Limits
use data_analytics_platform.Base.{
  ℕ, ◌+◌, min, List, [], ◌∷◌, ◌++◌, length, filter, String, Bool, true, false, not, Option, none,
  some, str_eq, if◌then◌else◌, first_where, leb, ltb,
}

pub record CacheSettings : Type 0 where
  pub fallback_allowed : Bool
  pub cache_fallback_max_items : ℕ
  pub cache_fallback_ttl_seconds : ℕ

pub record Entry (A : Type 0) : Type 0 where
  pub key : String
  pub expires_at : ℕ
  pub value : A

pub record Fallback : Type 0 where
  pub cache : List (Entry String)
  pub counters : List (Entry ℕ)

-- What Redis answers to a call, or that the call raised.
pub data Answer (A : Type 0) : Type 0 where
  answered : A → Answer A
  unavailable : Answer A

pub data Outcome (A : Type 0) : Type 0 where
  returned : A → Outcome A
  runtime_error : Outcome A

module _ {A : Type 0} where
  abbrev pub at_key : String → Entry A → Bool
  at_key key e = str_eq e.key key

  -- `store.pop(key, None)`
  abbrev pub pop : String → List (Entry A) → List (Entry A)
  pop key store = filter (λ e. not (at_key key e)) store

  -- `store[key] = ...` and `move_to_end(key)`
  abbrev pub put : Entry A → List (Entry A) → List (Entry A)
  put e store = pop e.key store ++ e ∷ []

  -- `_trim`
  unfoldable pub trim : ℕ → List (Entry A) → List (Entry A)
  trim limit [] = []
  trim limit (e ∷ store) =
      let rest = trim limit store in if ltb limit (length (e ∷ store)) then rest else e ∷ store

-- `json.loads(value) if value else None`
abbrev pub loaded : Option String → Option String
loaded none = none
loaded (some s) = if str_eq s "" then none else some s

abbrev pub cached :
    String → ℕ → Option (Entry String) → Fallback → Outcome (Option String) × Fallback
cached key now none st = (returned none, st)
cached key now (some e) st =
    if leb e.expires_at now
    then (returned none, record st { cache = pop key st.cache })
    else (returned (loaded (some e.value)), record st { cache = put e st.cache })

unfoldable pub get_json :
    CacheSettings
    → Answer (Option String)
    → String
    → ℕ
    → Fallback
    → Outcome (Option String) × Fallback
get_json s (answered v) key now st = (returned (loaded v), st)
get_json s unavailable key now st =
    if s.fallback_allowed
    then cached key now (first_where (at_key key) st.cache) st
    else (runtime_error, st)

abbrev pub expires_in : Option ℕ → ℕ
expires_in none = 900
expires_in (some ttl) = ttl

unfoldable pub set_json :
    CacheSettings
    → Answer Unit
    → String
    → String
    → Option ℕ
    → ℕ
    → Fallback
    → Outcome Unit × Fallback
unfolding trim
set_json s (answered _) key encoded ttl now st = (returned tt, st)
set_json s unavailable key encoded ttl now st =
    if s.fallback_allowed
    then (
      returned tt,
      record st {
        cache = trim s.cache_fallback_max_items (
            put
              (record {
                key = key;
                expires_at = now + min (expires_in ttl) s.cache_fallback_ttl_seconds;
                value = encoded;
              })
              st.cache);
      },
    )
    else (runtime_error, st)

unfoldable pub delete : CacheSettings → Answer Unit → String → Fallback → Outcome Unit × Fallback
delete s redis key st =
    (deleted redis, record { cache = pop key st.cache; counters = pop key st.counters })
  where
    deleted : Answer Unit → Outcome Unit
    deleted (answered _) = returned tt
    deleted unavailable = if s.fallback_allowed then returned tt else runtime_error

-- The counter after one more attempt: a window that is over, or was never opened, starts now.
abbrev pub counted : String → ℕ → ℕ → Option (Entry ℕ) → Entry ℕ
counted key window now none = record { key = key; expires_at = now + window; value = 1 }
counted key window now (some e) =
    if leb e.expires_at now
    then record { key = key; expires_at = now + window; value = 1 }
    else record { key = key; expires_at = e.expires_at; value = e.value + 1 }

abbrev pub count_into : CacheSettings → Entry ℕ → Fallback → Outcome ℕ × Fallback
count_into s e st =
    (returned e.value, record st { counters = trim s.cache_fallback_max_items (put e st.counters) })

unfoldable pub increment :
    CacheSettings → Answer ℕ → String → ℕ → ℕ → Fallback → Outcome ℕ × Fallback
unfolding trim
increment s (answered n) key window now st = (returned n, st)
increment s unavailable key window now st =
    if s.fallback_allowed
    then count_into s (counted key window now (first_where (at_key key) st.counters)) st
    else (runtime_error, st)

unfoldable pub ping : CacheSettings → Answer Bool → Outcome Bool
ping s (answered b) = returned b
ping s unavailable = if s.fallback_allowed then returned false else runtime_error
