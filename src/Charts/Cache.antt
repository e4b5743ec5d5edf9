-- ===== src/Charts/Cache.antt =====
-- `ChartCache`, its lock as atomicity: the OrderedDict is the list of its entries, the oldest first.
-- The JSON text of a result is ASCII, so its bytes are its characters. `_bytes` is a natural number;
-- it does not fall below zero, since it is the size of the entries (Charts/Accounting).
use data_analytics_platform.Base.{
  ℕ, ◌+◌, ◌-◌, List, [], ◌∷◌, ◌++◌, length, String, Bool, Option, none, some, ◌||◌, ◌==◌, str_eq,
  if◌then◌else◌, first_where, leb, ltb, text_length,
}

pub record CacheLimits : Type 0 where
  pub dashboard_cache_max_bytes : ℕ
  pub dashboard_cache_max_entries : ℕ
  pub dashboard_cache_ttl_seconds : ℕ

pub record Entry : Type 0 where
  pub key : String
  pub expires_at : ℕ
  pub payload : String

pub record ChartCache : Type 0 where
  pub entries : List Entry
  pub bytes : ℕ

abbrev pub has_key : String → Entry → Bool
has_key key e = str_eq e.key key

abbrev pub size : Entry → ℕ
size e = text_length e.payload

abbrev pub expired : ℕ → Entry → Bool
expired now e = leb e.expires_at now

unfoldable pub remove : String → List Entry → List Entry
remove key [] = []
remove key (e ∷ es) = if has_key key e then es else e ∷ remove key es

-- `pop` of an entry that was found, and of one that may not be there.
abbrev pub pop_found : String → Option Entry → ChartCache → ChartCache
pop_found key none c = c
pop_found key (some e) c = record { entries = remove key c.entries; bytes = c.bytes - size e }

abbrev pub find : String → ChartCache → Option Entry
find key c = first_where (has_key key) c.entries

unfoldable pub pop : String → ChartCache → ChartCache
unfolding remove
pop key c = pop_found key (find key c) c

abbrev pub got : String → ℕ → Option Entry → ChartCache → Option String × ChartCache
got key now none c = (none, c)
got key now (some e) c =
    if expired now e
    then (none, pop_found key (some e) c)
    else (some e.payload, record c { entries = remove key c.entries ++ e ∷ [] })

unfoldable pub get : String → ℕ → ChartCache → Option String × ChartCache
unfolding remove
get key now c = got key now (find key c) c

-- The loop over the expired entries.
unfoldable pub sweep : ℕ → List Entry → ℕ → ChartCache
sweep now [] bytes = record { entries = []; bytes = bytes }
sweep now (e ∷ es) bytes =
    let rest = sweep now es (if expired now e then bytes - size e else bytes) in
    if expired now e then rest else record rest { entries = e ∷ rest.entries }

abbrev pub is_full : CacheLimits → ℕ → ChartCache → Bool
is_full s incoming c =
    leb s.dashboard_cache_max_entries (length c.entries)
    || ltb s.dashboard_cache_max_bytes (c.bytes + incoming)

-- The loop that pops the oldest entry while there is one and the limits are not kept.
unfoldable pub evict : CacheLimits → ℕ → List Entry → ℕ → ChartCache
evict s incoming [] bytes = record { entries = []; bytes = bytes }
evict s incoming (e ∷ es) bytes =
    let rest = evict s incoming es (bytes - size e) in
    if is_full s incoming (record { entries = e ∷ es; bytes = bytes })
    then rest
    else record { entries = e ∷ es; bytes = bytes }

unfoldable pub room : CacheLimits → String → ℕ → ℕ → ChartCache → ChartCache
unfolding pop sweep evict
room s key incoming now c =
    let popped = pop key c in
    let swept = sweep now popped.entries popped.bytes in evict s incoming swept.entries swept.bytes

abbrev pub store : Entry → ChartCache → ChartCache
store e c = record { entries = c.entries ++ e ∷ []; bytes = c.bytes + size e }

unfoldable pub put : CacheLimits → String → String → ℕ → ChartCache → ChartCache
unfolding room
put s key payload now c =
    if ltb s.dashboard_cache_max_bytes (text_length payload) || (s.dashboard_cache_ttl_seconds == 0)
    then c
    else store
        (record { key = key; expires_at = now + s.dashboard_cache_ttl_seconds; payload = payload })
        (room s key (text_length payload) now c)

abbrev pub clear : ChartCache → ChartCache
clear c = record { entries = []; bytes = 0 }
