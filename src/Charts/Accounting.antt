-- ===== src/Charts/Accounting.antt =====
-- The cache's books: the byte count is the size of the entries, both limits are kept, and a key has
-- one entry at most.
use data_analytics_platform.Base.{
  ℕ, ◌+◌, ◌≡◌, ◌≤◌, ◌<◌, refl, sym, ap, ◌∙◌, List, [], ◌∷◌, ◌++◌, length, String, Bool, false, some,
  ◌||◌, arith, inl, inr, Bool-cases, Option-cases, count_where, IsSingle, eq_refl, eq_iff,
  text_length, ◌==◌, ltb, count_where-append, count_where_zero, first_where_last, first_where-sat,
}
use data_analytics_platform.Charts.Cache.{
  CacheLimits, Entry, ChartCache, has_key, expired, remove, find, get, room, store, put, clear,
}
use data_analytics_platform.Charts.Books.{
  total, total-append, length-append, total-remove, count_where-remove-le, count_where-remove,
  room_lem, count_where-room-le, pop_gone, count_where-pop-le,
}

pub record IsValid (s : CacheLimits) (c : ChartCache) : Type 0 where
  pub accounted : c.bytes ≡ total c.entries
  pub few : length c.entries ≤ s.dashboard_cache_max_entries
  pub small : c.bytes ≤ s.dashboard_cache_max_bytes
  pub single : (key : String) → IsSingle (has_key key) c.entries

-- An entry at the end of a list that has none of its key.
IsSingle-last :
    (key : String) (e : Entry) (es : List Entry)
    → count_where (has_key e.key) es ≡ 0
    → IsSingle (has_key key) es
    → IsSingle (has_key key) (es ++ e ∷ [])
unfolding count_where
IsSingle-last key e es zero h = elim (Bool-cases (has_key key e)) [
  | inl m ↦
      let same : count_where (has_key key) es ≡ 0 =
        ap (λ k. count_where (has_key k) es) (sym ((eq_iff e.key key).0 m)) ∙ zero in
      rw (count_where-append (has_key key) es (e ∷ [])) (rw m (omega arith))
  | inr m ↦ rw (count_where-append (has_key key) es (e ∷ [])) (rw m (omega arith))
]

pub put-IsValid :
    (s : CacheLimits) (key payload : String) (now : ℕ) (c : ChartCache)
    → 1 ≤ s.dashboard_cache_max_entries
    → IsValid s c
    → IsValid s (put s key payload now c)
unfolding put
put-IsValid s key payload now c l v =
    elim (Bool-cases (
      ltb s.dashboard_cache_max_bytes (text_length payload)
      || (s.dashboard_cache_ttl_seconds == 0))) [
        | inl e ↦ rw e v
        | inr e ↦
            let k : text_length payload ≤ s.dashboard_cache_max_bytes = ground arith in
            let (books, few, small) = room_lem s key (text_length payload) now c v.accounted l k in
            let r = room s key (text_length payload) now c in
            let entry : Entry = record {
              key = key;
              expires_at = now + s.dashboard_cache_ttl_seconds;
              payload = payload;
            } in
            let below =
              λ (p : Entry → Bool). count_where-room-le s key (text_length payload) now c p in
            let within = λ (p : Entry → Bool). count_where-pop-le p key c in
            let gone : count_where (has_key key) r.entries ≡ 0 =
              omega (arith, below (has_key key), pop_gone key c (v.single key)) in
            rw e (record {
              accounted = omega (arith, books, total-append r.entries (entry ∷ []));
              few = omega (arith, few, length-append r.entries (entry ∷ []));
              small = small;
              single = λ k.
                  IsSingle-last k entry r.entries gone
                    (omega (arith, below (has_key k), within (has_key k), v.single k));
            })
      ]

pub get-IsValid :
    (s : CacheLimits) (key : String) (now : ℕ) (c : ChartCache)
    → IsValid s c
    → IsValid s (get key now c).1
unfolding get
get-IsValid s key now c v = elim (Option-cases (find key c)) [
  | inl e ↦ rw e v
  | inr (x, e) ↦
      let (sum, one) = total-remove key c.entries x e in
      let fewer = λ (p : Entry → Bool). count_where-remove-le p key c.entries in
      elim (Bool-cases (expired now x)) [
        | inl m ↦ rw e (
            rw m (record {
              accounted = omega (arith, sum, v.accounted);
              few = omega (arith, one, v.few);
              small = omega (arith, v.small);
              single = λ k. omega (arith, fewer (has_key k), v.single k);
            }))
        | inr m ↦
            let named : x.key ≡ key =
              (eq_iff x.key key).0 (first_where-sat (has_key key) c.entries x e) in
            let gone : count_where (has_key x.key) (remove key c.entries) ≡ 0 =
              rw named (count_where-remove key c.entries (v.single key)) in
            rw e (
              rw m (record {
                accounted =
                    omega (arith, sum, v.accounted, total-append (remove key c.entries) (x ∷ []));
                few = omega (arith, one, v.few, length-append (remove key c.entries) (x ∷ []));
                small = v.small;
                single = λ k.
                    IsSingle-last k x (remove key c.entries) gone
                      (omega (arith, fewer (has_key k), v.single k));
              }))
      ]
]

-- The calls of request threads, each at its reading of the clock.
pub data CacheCall : Type 0 where
  getting : String → ℕ → CacheCall
  putting : String → String → ℕ → CacheCall
  clearing : CacheCall

abbrev pub apply : CacheLimits → CacheCall → ChartCache → ChartCache
apply s (getting key now) c = (get key now c).1
apply s (putting key payload now) c = put s key payload now c
apply s clearing c = clear c

unfoldable pub run : CacheLimits → List CacheCall → ChartCache → ChartCache
run s [] c = c
run s (call ∷ calls) c = run s calls (apply s call c)

clear-IsValid : (s : CacheLimits) (c : ChartCache) → IsValid s (clear c)
unfolding count_where
clear-IsValid s c = record {
  accounted = refl;
  few = omega arith;
  small = omega arith;
  single = λ key. omega arith;
}

apply-IsValid :
    (s : CacheLimits) (call : CacheCall) (c : ChartCache)
    → 1 ≤ s.dashboard_cache_max_entries
    → IsValid s c
    → IsValid s (apply s call c)
apply-IsValid s (getting key now) c l v = get-IsValid s key now c v
apply-IsValid s (putting key payload now) c l v = put-IsValid s key payload now c l v
apply-IsValid s clearing c l v = clear-IsValid s c

-- Where the settings allow an entry at least, any sequence of calls on a cache that is in order leaves
-- it so: the byte count is the size of all payloads, neither limit is passed, and no key has two
-- entries.
pub run-IsValid :
    (s : CacheLimits) (calls : List CacheCall) (c : ChartCache)
    → 1 ≤ s.dashboard_cache_max_entries
    → IsValid s c
    → IsValid s (run s calls c)
unfolding run
run-IsValid s [] c l v = v
run-IsValid s (call ∷ calls) c l v =
    run-IsValid s calls (apply s call c) l (apply-IsValid s call c l v)

-- In a cache that is in order, a payload that fits is put and is then what `get` returns at any time
-- from then on before its lifetime is over, where a lifetime is set.
pub get-put :
    (s : CacheLimits) (key payload : String) (now later : ℕ) (c : ChartCache)
    → IsValid s c
    → text_length payload ≤ s.dashboard_cache_max_bytes
    → later < now + s.dashboard_cache_ttl_seconds
    → now ≤ later
    → (get key later (put s key payload now c)).0 ≡ some payload
unfolding get put
get-put s key payload now later c v k fresh order =
    let r = room s key (text_length payload) now c in
    let entry : Entry = record {
      key = key;
      expires_at = now + s.dashboard_cache_ttl_seconds;
      payload = payload;
    } in
    let gone : count_where (has_key key) r.entries ≡ 0 = omega (
      arith,
      count_where-room-le s key (text_length payload) now c (has_key key),
      pop_gone key c (v.single key),
    ) in
    let stored : (ltb s.dashboard_cache_max_bytes (text_length payload)
          || (s.dashboard_cache_ttl_seconds == 0))
        ≡ false =
      ground arith in
    let found : find key (store entry r) ≡ some entry =
      first_where_last (has_key key) entry r.entries (eq_refl key)
        (count_where_zero (has_key key) r.entries gone) in
    let live : expired later entry ≡ false = ground arith in rw stored (rw found (rw live refl))
