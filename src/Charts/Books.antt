-- ===== src/Charts/Books.antt =====
-- The cache's books: what its loops and the removal of an entry do to the byte count and the entries.
use data_analytics_platform.Base.{
  ℕ, ◌+◌, ◌-◌, ◌≡◌, ◌≤◌, ◌<◌, refl, List, [], ◌∷◌, ◌++◌, length, String, Bool, some, arith, inl,
  inr, Bool-cases, Option-cases, count_where, first_where, IsSingle, count_where-none,
}
use data_analytics_platform.Charts.Cache.{
  CacheLimits, Entry, ChartCache, has_key, size, expired, remove, find, pop, sweep, evict, room,
}

abbrev pub total : List Entry → ℕ
total [] = 0
total (e ∷ es) = size e + total es

pub total-append : (es fs : List Entry) → total (es ++ fs) ≡ total es + total fs
total-append [] fs = omega arith
total-append (e ∷ es) fs = omega (arith, total-append es fs)

pub length-append : (es fs : List Entry) → length (es ++ fs) ≡ length es + length fs
length-append [] fs = omega arith
length-append (e ∷ es) fs = omega (arith, length-append es fs)

pub total-remove :
    (key : String) (es : List Entry) (e : Entry)
    → first_where (has_key key) es ≡ some e
    → (total (remove key es) + size e ≡ total es) × (length (remove key es) + 1 ≡ length es)
unfolding remove first_where
total-remove key [] e h = absurd (cc)
total-remove key (x ∷ es) e h = ground (arith, total-remove key es e)

pub count_where-remove-le :
    (p : Entry → Bool) (key : String) (es : List Entry)
    → count_where p (remove key es) ≤ count_where p es
unfolding remove count_where
count_where-remove-le p key [] = omega arith
count_where-remove-le p key (x ∷ es) = ground (arith, count_where-remove-le p key es)

-- An entry removed by its own key.
pub count_where-remove :
    (key : String) (es : List Entry)
    → count_where (has_key key) es ≤ 1
    → count_where (has_key key) (remove key es) ≡ 0
unfolding remove count_where
count_where-remove key [] h = refl
count_where-remove key (x ∷ es) h = ground (arith, count_where-remove key es)

abbrev pub IsAccounted : ChartCache → Type 0
IsAccounted c = c.bytes ≡ total c.entries

-- The sweep takes the expired entries off the books; `kept` is what it has left standing.
sweep-total :
    (now : ℕ) (es : List Entry) (bytes kept : ℕ)
    → bytes ≡ kept + total es
    → (sweep now es bytes).bytes ≡ kept + total (sweep now es bytes).entries
unfolding sweep
sweep-total now [] bytes kept h = h
sweep-total now (e ∷ es) bytes kept h = elim (Bool-cases (expired now e)) [
  | inl x ↦ rw x (sweep-total now es (bytes - size e) kept (omega arith))
  | inr x ↦ rw x (omega (arith, sweep-total now es bytes (kept + size e) (omega arith)))
]

count_where-sweep-le :
    (p : Entry → Bool) (now : ℕ) (es : List Entry) (bytes : ℕ)
    → count_where p (sweep now es bytes).entries ≤ count_where p es
unfolding sweep count_where
count_where-sweep-le p now [] bytes = omega arith
count_where-sweep-le p now (e ∷ es) bytes = elim (Bool-cases (expired now e)) [
  | inl x ↦ rw x (omega (arith, count_where-sweep-le p now es (bytes - size e)))
  | inr x ↦ rw x (omega (arith, count_where-sweep-le p now es bytes))
]

evict-IsAccounted :
    (s : CacheLimits) (incoming : ℕ) (es : List Entry) (bytes : ℕ)
    → bytes ≡ total es
    → IsAccounted (evict s incoming es bytes)
unfolding evict
evict-IsAccounted s incoming [] bytes h = h
evict-IsAccounted s incoming (e ∷ es) bytes h =
    ground (arith, evict-IsAccounted s incoming es (bytes - size e))

count_where-evict-le :
    (p : Entry → Bool) (s : CacheLimits) (incoming : ℕ) (es : List Entry) (bytes : ℕ)
    → count_where p (evict s incoming es bytes).entries ≤ count_where p es
unfolding evict count_where
count_where-evict-le p s incoming [] bytes = omega arith
count_where-evict-le p s incoming (e ∷ es) bytes =
    ground (arith, count_where-evict-le p s incoming es (bytes - size e))

-- The eviction ends with room for the payload.
evict_room :
    (s : CacheLimits) (incoming : ℕ) (es : List Entry) (bytes : ℕ)
    → bytes ≡ total es
    → 1 ≤ s.dashboard_cache_max_entries
    → incoming ≤ s.dashboard_cache_max_bytes
    → (length (evict s incoming es bytes).entries < s.dashboard_cache_max_entries)
      × ((evict s incoming es bytes).bytes + incoming ≤ s.dashboard_cache_max_bytes)
unfolding evict
evict_room s incoming [] bytes h l k = omega arith
evict_room s incoming (e ∷ es) bytes h l k =
    ground (arith, evict_room s incoming es (bytes - size e))

pop-IsAccounted : (key : String) (c : ChartCache) → IsAccounted c → IsAccounted (pop key c)
unfolding pop
pop-IsAccounted key c h = elim (Option-cases (find key c)) [
  | inl e ↦ rw e h
  | inr (x, e) ↦ rw e (omega (arith, total-remove key c.entries x e))
]

pub pop_gone :
    (key : String) (c : ChartCache)
    → IsSingle (has_key key) c.entries
    → count_where (has_key key) (pop key c).entries ≡ 0
unfolding pop
pop_gone key c h = elim (Option-cases (find key c)) [
  | inl e ↦ rw e (count_where-none (has_key key) c.entries e)
  | inr (x, e) ↦ rw e (count_where-remove key c.entries h)
]

pub count_where-pop-le :
    (p : Entry → Bool) (key : String) (c : ChartCache)
    → count_where p (pop key c).entries ≤ count_where p c.entries
unfolding pop
count_where-pop-le p key c = elim (Option-cases (find key c)) [
  | inl e ↦ rw e (omega arith)
  | inr (x, e) ↦ rw e (count_where-remove-le p key c.entries)
]

module _ (s : CacheLimits) (key : String) (incoming now : ℕ) (c : ChartCache) where
  pub count_where-room-le :
      (p : Entry → Bool)
      → count_where p (room s key incoming now c).entries ≤ count_where p (pop key c).entries
  unfolding room
  count_where-room-le p =
      let popped = pop key c in
      let swept = sweep now popped.entries popped.bytes in
      omega (
        arith,
        count_where-evict-le p s incoming swept.entries swept.bytes,
        count_where-sweep-le p now popped.entries popped.bytes,
      )

  pub room_lem :
      IsAccounted c
      → 1 ≤ s.dashboard_cache_max_entries
      → incoming ≤ s.dashboard_cache_max_bytes
      → IsAccounted (room s key incoming now c)
        × (length (room s key incoming now c).entries < s.dashboard_cache_max_entries)
        × ((room s key incoming now c).bytes + incoming ≤ s.dashboard_cache_max_bytes)
  unfolding room
  room_lem h l k =
      let popped = pop key c in
      let swept = sweep now popped.entries popped.bytes in
      let books : swept.bytes ≡ total swept.entries = omega (
        arith,
        sweep-total now popped.entries popped.bytes 0 (omega (arith, pop-IsAccounted key c h)),
      ) in
      let (few, small) = evict_room s incoming swept.entries swept.bytes books l k in
      (evict-IsAccounted s incoming swept.entries swept.bytes books, few, small)
