-- ===== src/Hostsvc/Cache/Laws.antt =====
-- What a plugin can rely on from the cache of core/hostsvc/memory.go.
use moduless.Base.{
  ℕ, ◌-◌, ◌/◌, ◌≤◌, ◌<◌, ◌≡◌, ◌≢◌, ◌⊎◌, inl, inr, refl, Option, none, some, arith, length, Bytes,
  =?_iff, =?_refl, ℤ, Dict, lookup, discard, lookup-insert, lookup-insert_self, length-drop,
  length-discard-le, length-insert-le, if◌then◌else◌, HasUniqueKeys, insert-HasUniqueKeys,
  discard-HasUniqueKeys, lookup-discard, drop-HasUniqueKeys, lookup-drop, lookup-erase,
}
use moduless.Hostsvc.Keys.{scoped_key, expired, NoZero, scoped_key-injective}
use moduless.Hostsvc.Cache.{
  CacheEntry, MemoryCache, get_at, get, evict_tenth, evict, set_at, set, expiry, delete, is_stale,
}

-- The cache is a map within its cap, and the cap is not 0.
pub record IsValid (c : MemoryCache) : Type 0 where
  pub unique : HasUniqueKeys c.entries
  pub bounded : length c.entries ≤ c.max_entries
  pub cap_pos : 0 < c.max_entries

-- Where there is an entry, the second half of the eviction removes at least one.
length-evict_tenth : (m : Dict CacheEntry) → length (evict_tenth m) ≤ length m - 1
unfolding evict_tenth
length-evict_tenth m = ground (arith, length-drop 1 m, length-drop (length m / 10) m)

evict_tenth-HasUniqueKeys : (m : Dict CacheEntry) → HasUniqueKeys m → HasUniqueKeys (evict_tenth m)
unfolding evict_tenth
evict_tenth-HasUniqueKeys m u = drop-HasUniqueKeys _ m u

-- Eviction makes room.
length-evict :
    (now : ℕ) (c : MemoryCache)
    → 0 < length c.entries
    → length (evict now c).entries < length c.entries
unfolding evict
length-evict now c h = ground (
  arith,
  length-discard-le (is_stale now) c.entries,
  length-evict_tenth (discard (is_stale now) c.entries),
)

evict-HasUniqueKeys :
    (now : ℕ) (c : MemoryCache) → HasUniqueKeys c.entries → HasUniqueKeys (evict now c).entries
unfolding evict
evict-HasUniqueKeys now c u =
    let fresh = discard-HasUniqueKeys (is_stale now) c.entries u in
    ground (arith, fresh, evict_tenth-HasUniqueKeys (discard (is_stale now) c.entries) fresh)

evict-max_entries : (now : ℕ) (c : MemoryCache) → (evict now c).max_entries ≡ c.max_entries
unfolding evict
evict-max_entries now c = ground arith

set_at-IsValid :
    (now : ℕ) (k : Bytes) (e : CacheEntry) (c : MemoryCache)
    → IsValid c
    → IsValid (set_at now k e c)
unfolding set_at
set_at-IsValid now k e c v = ground (
  arith,
  length-evict now c,
  evict-max_entries now c,
  length-insert-le k e c.entries,
  length-insert-le k e (evict now c).entries,
  insert-HasUniqueKeys k e c.entries v.unique,
  insert-HasUniqueKeys k e (evict now c).entries (evict-HasUniqueKeys now c v.unique),
)

-- `Set` keeps the number of entries within the cap, whatever the cache holds and whatever is
-- written.
pub set-IsValid :
    (now : ℕ) (plugin_key key value : Bytes) (ttl : ℤ) (c : MemoryCache)
    → IsValid c
    → IsValid (set now plugin_key key value ttl c)
unfolding set
set-IsValid now plugin_key key value ttl c v = set_at-IsValid now _ _ c v

lookup-evict_tenth :
    (k : Bytes) (m : Dict CacheEntry)
    → HasUniqueKeys m
    → (lookup k (evict_tenth m) ≡ none) ⊎ (lookup k (evict_tenth m) ≡ lookup k m)
unfolding evict_tenth
lookup-evict_tenth k m u = lookup-drop _ k m u

-- What eviction leaves under a key is what stood there.
lookup-evict :
    (now : ℕ) (k : Bytes) (c : MemoryCache)
    → HasUniqueKeys c.entries
    → (lookup k (evict now c).entries ≡ none)
      ⊎ (lookup k (evict now c).entries ≡ lookup k c.entries)
unfolding evict
lookup-evict now k c u =
    let p = is_stale now in
    ground (
      arith,
      lookup-discard p k c.entries u,
      lookup-evict_tenth k (discard p c.entries) (discard-HasUniqueKeys p c.entries u),
    )

lookup-set_at :
    (now : ℕ) (k j : Bytes) (e : CacheEntry) (c : MemoryCache)
    → IsValid c
    → k ≢ j
    → (lookup j (set_at now k e c).entries ≡ none)
      ⊎ (lookup j (set_at now k e c).entries ≡ lookup j c.entries)
unfolding set_at
lookup-set_at now k j e c v n = ground (
  arith,
  lookup-insert k j e c.entries,
  lookup-insert k j e (evict now c).entries,
  =?_iff k j,
  lookup-evict now j c v.unique,
)

lookup-set_at_self :
    (now : ℕ) (k : Bytes) (e : CacheEntry) (c : MemoryCache)
    → lookup k (set_at now k e c).entries ≡ some e
unfolding set_at
lookup-set_at_self now k e c = lookup-insert_self k e _

-- What `Get` answers, by the entry under the key.
abbrev read : ℕ → Option CacheEntry → Option Bytes
read t none = none
read t (some e) = if is_stale t e then none else some e.value

get_at-read : (t : ℕ) (k : Bytes) (c : MemoryCache) → (get_at t k c).0 ≡ read t (lookup k c.entries)
unfolding get_at
get_at-read t k c = ground arith

-- A key read after it was written gives the value written until the time to live has passed, and
-- nothing from then on; with no positive time to live it gives the value at any time.
pub get-set :
    (t now : ℕ) (plugin_key key value : Bytes) (ttl : ℤ) (c : MemoryCache)
    → (get t plugin_key key (set now plugin_key key value ttl c)).0
      ≡ (if expired t (expiry now ttl) then none else some value)
unfolding get set
get-set t now plugin_key key value ttl c =
    let k = scoped_key plugin_key key in
    let e : CacheEntry = record { value = value; expires_at = expiry now ttl } in
    rw (get_at-read t k (set_at now k e c)) (rw (lookup-set_at_self now k e c) refl)

scoped_key-differ :
    (p q k j : Bytes) → NoZero p → NoZero q → (p ≢ q) ⊎ (k ≢ j) → scoped_key p k ≢ scoped_key q j
scoped_key-differ p q k j hp hq (inl n) = λ e. n (scoped_key-injective p q k j hp hq e).0
scoped_key-differ p q k j hp hq (inr n) = λ e. n (scoped_key-injective p q k j hp hq e).1

-- Writing a key does not change what another plugin reads, or the same plugin under another key,
-- but for a miss that an eviction can cause. Plugin keys hold no zero byte.
pub get-set_other :
    (t now : ℕ) (p q k j value : Bytes) (ttl : ℤ) (c : MemoryCache)
    → IsValid c
    → NoZero p
    → NoZero q
    → (p ≢ q) ⊎ (k ≢ j)
    → ((get t q j (set now p k value ttl c)).0 ≡ none)
      ⊎ ((get t q j (set now p k value ttl c)).0 ≡ (get t q j c).0)
unfolding get set
get-set_other t now p q k j value ttl c v hp hq n =
    let e : CacheEntry = record { value = value; expires_at = expiry now ttl } in
    let c' = set_at now (scoped_key p k) e c in
    ground (
      arith,
      get_at-read t (scoped_key q j) c,
      get_at-read t (scoped_key q j) c',
      lookup-set_at now (scoped_key p k) (scoped_key q j) e c v (scoped_key-differ p q k j hp hq n),
    )

-- A deleted key reads as a miss.
pub get-delete : (t : ℕ) (p k : Bytes) (c : MemoryCache) → (get t p k (delete p k c)).0 ≡ none
unfolding get delete
get-delete t p k c = rw (get_at-read t (scoped_key p k) _) (
    ground
      (arith, lookup-erase (scoped_key p k) (scoped_key p k) c.entries, =?_refl (scoped_key p k)))
