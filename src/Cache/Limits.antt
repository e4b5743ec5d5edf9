-- ===== src/Cache/Limits.antt =====
-- The process's own store: it stays within its limit, returns what was stored, and counts attempts.
use data_analytics_platform.Base.{
  ℕ, suc, ◌+◌, ◌≡◌, ◌≤◌, ◌<◌, min, refl, List, [], ◌∷◌, ◌++◌, length, String, Bool, true, false,
  Option, none, some, eq_refl, arith, first_where, first_where_last, leb, All,
}
use data_analytics_platform.Cache.{
  CacheSettings, Entry, Fallback, unavailable, returned, at_key, pop, put, trim, get_json, set_json,
  increment, counted, expires_in, loaded,
}

module _ {A : Type 0} where
  length-trim-le : (limit : ℕ) (store : List (Entry A)) → length (trim limit store) ≤ limit
  unfolding trim
  length-trim-le limit [] = omega arith
  length-trim-le limit (e ∷ store) = ground (arith, length-trim-le limit store)

  first_where-pop :
      (key : String) (store : List (Entry A)) → first_where (at_key key) (pop key store) ≡ none
  unfolding first_where
  first_where-pop key [] = refl
  first_where-pop key (e ∷ store) = ground (arith, first_where-pop key store)

  -- The entry put last survives the trimming.
  first_where-trim :
      (p : Entry A → Bool) (limit : ℕ) (e : Entry A) (store : List (Entry A))
      → 1 ≤ limit
      → p e ≡ true
      → first_where p store ≡ none
      → first_where p (trim limit (store ++ e ∷ [])) ≡ some e
  unfolding first_where trim
  first_where-trim p limit e [] l t h = ground arith
  first_where-trim p limit e (x ∷ store) l t h =
      ground (arith, first_where-trim p limit e store l t, first_where_last p e store t)

  put_found :
      (limit : ℕ) (e : Entry A) (store : List (Entry A))
      → 1 ≤ limit
      → first_where (at_key e.key) (trim limit (put e store)) ≡ some e
  put_found limit e store l =
      first_where-trim (at_key e.key) limit e (pop e.key store) l (eq_refl e.key)
        (first_where-pop e.key store)

-- While Redis fails and the fallback is allowed and holds an entry at least, a value that `set_json`
-- stores is what `get_json` loads at any time before its lifetime, cut to the fallback's, is over.
pub get_json-set_json :
    (s : CacheSettings) (key encoded : String) (ttl : Option ℕ) (now later : ℕ) (st : Fallback)
    → s.fallback_allowed ≡ true
    → 1 ≤ s.cache_fallback_max_items
    → later < now + min (expires_in ttl) s.cache_fallback_ttl_seconds
    → (get_json s unavailable key later (set_json s unavailable key encoded ttl now st).1).0
      ≡ returned (loaded (some encoded))
unfolding get_json set_json
get_json-set_json s key encoded ttl now later st allowed l fresh =
    let e : Entry String = record {
      key = key;
      expires_at = now + min (expires_in ttl) s.cache_fallback_ttl_seconds;
      value = encoded;
    } in
    let not_expired : leb e.expires_at later ≡ false = ground arith in
    rw allowed (rw (put_found s.cache_fallback_max_items e st.cache l) (rw not_expired refl))

module _ (s : CacheSettings) (key : String) (window : ℕ) where
  -- The attempts at these times, in order.
  unfoldable pub attempts : List ℕ → Fallback → Fallback
  unfolding increment
  attempts [] st = st
  attempts (t ∷ ts) st = attempts ts (increment s unavailable key window t st).1

  abbrev pub IsCounted : Entry ℕ → Fallback → Type 0
  IsCounted e st = first_where (at_key key) st.counters ≡ some e

  increment-IsCounted :
      (t : ℕ) (st : Fallback) (expires n : ℕ)
      → s.fallback_allowed ≡ true
      → 1 ≤ s.cache_fallback_max_items
      → t < expires
      → IsCounted (record { key = key; expires_at = expires; value = n }) st
      → IsCounted
          (record { key = key; expires_at = expires; value = n + 1 })
          (increment s unavailable key window t st).1
  unfolding increment
  increment-IsCounted t st expires n allowed l early h =
      let e : Entry ℕ = record { key = key; expires_at = expires; value = n + 1 } in
      let fresh : leb expires t ≡ false = ground arith in
      rw allowed (rw h (rw fresh (put_found s.cache_fallback_max_items e st.counters l)))

  -- While Redis fails and the fallback is allowed and holds an entry at least, each further attempt in
  -- an open window counts once and leaves the window's end as it is.
  pub attempts-IsCounted :
      (ts : List ℕ) (st : Fallback) (expires n : ℕ)
      → s.fallback_allowed ≡ true
      → 1 ≤ s.cache_fallback_max_items
      → All (λ t. t < expires) ts
      → IsCounted (record { key = key; expires_at = expires; value = n }) st
      → IsCounted
          (record { key = key; expires_at = expires; value = n + length ts })
          (attempts ts st)
  unfolding attempts
  attempts-IsCounted [] st expires n allowed l early h =
      let none_more : n + 0 ≡ n = omega arith in rw none_more h
  attempts-IsCounted (t ∷ ts) st expires n allowed l early h =
      let one_more : n + suc (length ts) ≡ n + 1 + length ts = omega arith in
      rw one_more (
        attempts-IsCounted ts (increment s unavailable key window t st).1 expires (n + 1) allowed l
          early.1 (increment-IsCounted t st expires n allowed l early.0 h))

-- While Redis fails and the fallback is allowed, storing a value and counting an attempt leave no more
-- entries in the store that they write than the setting permits.
pub trimmed_bounds :
    (s : CacheSettings) (key encoded : String) (ttl : Option ℕ) (window now : ℕ) (st : Fallback)
    → s.fallback_allowed ≡ true
    → (length (set_json s unavailable key encoded ttl now st).1.cache ≤ s.cache_fallback_max_items)
      × (length (increment s unavailable key window now st).1.counters ≤ s.cache_fallback_max_items)
unfolding set_json increment
trimmed_bounds s key encoded ttl window now st allowed = rw allowed (
  length-trim-le s.cache_fallback_max_items (
      put
        (record {
          key = key;
          expires_at = now + min (expires_in ttl) s.cache_fallback_ttl_seconds;
          value = encoded;
        })
        st.cache),
  length-trim-le s.cache_fallback_max_items
      (put (counted key window now (first_where (at_key key) st.counters)) st.counters),
)
