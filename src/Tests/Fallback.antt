-- ===== src/Tests/Fallback.antt =====
-- The theorems on the cache at one store.
use data_analytics_platform.Base.{
  ℕ, ◌≡◌, ◌≤◌, refl, true, none, some, [], ◌∷◌, arith, first_where, length,
}
use data_analytics_platform.Cache.{
  CacheSettings, Entry, Fallback, unavailable, returned, get_json, set_json, at_key, increment,
}
use data_analytics_platform.Cache.Limits.{
  get_json-set_json, attempts, IsCounted, attempts-IsCounted, trimmed_bounds,
}

abbrev small : CacheSettings
small = record {
  fallback_allowed = true;
  cache_fallback_max_items = 2;
  cache_fallback_ttl_seconds = 60;
}

abbrev counter : Entry ℕ
counter = record { key = "login"; expires_at = 100; value = 3 }

abbrev store : Fallback
store = record {
  cache =
      record { key = "old"; expires_at = 50; value = "1" }
      ∷ record { key = "older"; expires_at = 40; value = "2" }
      ∷ [];
  counters = counter ∷ [];
}

get_json-set_json_example :
    (get_json small unavailable "new" 69 (set_json small unavailable "new" "[3]" none 10 store).1).0
    ≡ returned (some "[3]")
get_json-set_json_example =
    get_json-set_json small "new" "[3]" none 10 69 store refl (omega arith) (omega arith)

counted_before : first_where (at_key "login") store.counters ≡ some counter
unfolding first_where
counted_before = refl

attempts-IsCounted_example :
    IsCounted small "login" 60
      (record { key = "login"; expires_at = 100; value = 5 })
      (attempts small "login" 60 (70 ∷ 99 ∷ []) store)
attempts-IsCounted_example =
    attempts-IsCounted small "login" 60 (70 ∷ 99 ∷ []) store 100 3 refl (omega arith)
      (omega arith, (omega arith, tt)) counted_before

trimmed_bounds_example :
    (length (set_json small unavailable "new" "[3]" none 10 store).1.cache ≤ 2)
    × (length (increment small unavailable "new" 60 10 store).1.counters ≤ 2)
trimmed_bounds_example = trimmed_bounds small "new" "[3]" none 60 10 store refl
