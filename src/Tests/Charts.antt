-- ===== src/Tests/Charts.antt =====
-- The theorems on the chart cache at one cache.
use data_analytics_platform.Base.{◌≡◌, refl, [], ◌∷◌, some, arith, text_length, count_where, ◌≤◌}
use data_analytics_platform.Charts.Cache.{CacheLimits, ChartCache, get, put}
use data_analytics_platform.Charts.Accounting.{IsValid, run, getting, putting, run-IsValid, get-put}

abbrev limits : CacheLimits
limits = record {
  dashboard_cache_max_bytes = 8;
  dashboard_cache_max_entries = 2;
  dashboard_cache_ttl_seconds = 30;
}

abbrev empty : ChartCache
empty = record { entries = []; bytes = 0 }

empty-IsValid : IsValid limits empty
unfolding count_where
empty-IsValid = record {
  accounted = refl;
  few = omega arith;
  small = omega arith;
  single = λ key. omega arith;
}

run-IsValid_example : IsValid limits (
    run limits
      (putting "a" "[1,2]" 0 ∷ putting "b" "[3,4]" 1 ∷ getting "b" 2 ∷ putting "b" "[]" 40 ∷ [])
      empty)
run-IsValid_example =
    run-IsValid limits
      (putting "a" "[1,2]" 0 ∷ putting "b" "[3,4]" 1 ∷ getting "b" 2 ∷ putting "b" "[]" 40 ∷ [])
      empty (omega arith) empty-IsValid

fits : text_length "[1,2]" ≤ 8
unfolding text_length
fits = omega arith

get-put_example : (get "a" 29 (put limits "a" "[1,2]" 0 empty)).0 ≡ some "[1,2]"
get-put_example =
    get-put limits "a" "[1,2]" 0 29 empty empty-IsValid fits (omega arith) (omega arith)
