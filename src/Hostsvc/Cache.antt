-- ===== src/Hostsvc/Cache.antt =====
-- The cache of core/hostsvc/memory.go. A method is one step under the mutex; a clock reading is an
-- argument. The order of the association list stands for the order in which Go ranges over the map.
use moduless.Base.{
  ℕ, zero, suc, ◌+◌, ◌/◌, Bool, true, false, Option, none, some, List, [], ◌∷◌, if◌then◌else◌, leb,
  ltb, ◌==◌, ℤ, pos, negsuc, default_unless_pos, length, drop, Bytes, Dict, lookup, insert, erase,
  discard,
}
use moduless.Hostsvc.Keys.{scoped_key, expired}
pub mod Laws
mod Tests

pub record CacheEntry : Type 0 where
  pub value : Bytes
  pub expires_at : Option ℕ

pub record MemoryCache : Type 0 where
  pub entries : Dict CacheEntry
  pub max_entries : ℕ

abbrev pub default_cache_entries : ℕ
default_cache_entries = 10000

-- `NewMemoryCache`.
unfoldable pub new_memory_cache : ℤ → MemoryCache
new_memory_cache max_entries = record {
  entries = [];
  max_entries = default_unless_pos default_cache_entries max_entries;
}

abbrev pub is_stale : ℕ → CacheEntry → Bool
is_stale now e = expired now e.expires_at

-- `Get`, behind the computation of the key: what it finds, and the cache after it.
unfoldable pub get_at : ℕ → Bytes → MemoryCache → Option Bytes × MemoryCache
unfolding lookup erase expired
get_at now k c = elim (lookup k c.entries) [
  | none ↦ (none, c)
  | some e ↦
      if is_stale now e then (none, record c { entries = erase k c.entries }) else (some e.value, c)
]

-- `Get`.
unfoldable pub get : ℕ → Bytes → Bytes → MemoryCache → Option Bytes × MemoryCache
unfolding scoped_key get_at
get now plugin_key key c = get_at now (scoped_key plugin_key key) c

-- The second half of `evictLocked`: the loop deletes entries in order until `target` are gone, and
-- at least one.
unfoldable pub evict_tenth : Dict CacheEntry → Dict CacheEntry
evict_tenth entries =
    let target = length entries / 10 in drop (if target == 0 then 1 else target) entries

-- `evictLocked`; `freed > 0` says that the first loop made the map smaller.
unfoldable pub evict : ℕ → MemoryCache → MemoryCache
unfolding discard expired evict_tenth
evict now c =
    let fresh = discard (is_stale now) c.entries in
    if ltb (length fresh) (length c.entries)
    then record c { entries = fresh }
    else record c { entries = evict_tenth fresh }

-- The expiry that `Set` computes: the zero time, unless `ttl > 0`.
unfoldable pub expiry : ℕ → ℤ → Option ℕ
expiry now (pos zero) = none
expiry now (pos (suc n)) = some (now + suc n)
expiry now (negsuc n) = none

-- `Set`, behind the computation of the key and of the expiry.
unfoldable pub set_at : ℕ → Bytes → CacheEntry → MemoryCache → MemoryCache
unfolding evict insert
set_at now k e c =
    let c' = if leb c.max_entries (length c.entries) then evict now c else c in
    record c' { entries = insert k e c'.entries }

-- `Set`; both of its clock readings are `now`.
unfoldable pub set : ℕ → Bytes → Bytes → Bytes → ℤ → MemoryCache → MemoryCache
unfolding scoped_key set_at expiry
set now plugin_key key value ttl c =
    set_at now (scoped_key plugin_key key) (record { value = value; expires_at = expiry now ttl }) c

-- `Delete`.
unfoldable pub delete : Bytes → Bytes → MemoryCache → MemoryCache
unfolding scoped_key erase
delete plugin_key key c = record c { entries = erase (scoped_key plugin_key key) c.entries }
