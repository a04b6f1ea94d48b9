-- ===== src/Hostsvc/Cache/Tests.antt =====
-- Runs of the cache.
use moduless.Base.{◌≡◌, ◌≢◌, refl, none, [], ◌∷◌, arith, bytes, lookup, Bytes}
use moduless.Hostsvc.Keys.{scoped_key-injective}
use moduless.Hostsvc.Cache.{MemoryCache, get, delete}
use moduless.Hostsvc.Cache.Laws.{IsValid, get-delete}

abbrev small : MemoryCache
small = record { entries = []; max_entries = 1 }

small-IsValid : IsValid small
small-IsValid = ground arith

abbrev full : MemoryCache
full = record {
  entries = (97 ∷ 0 ∷ 107 ∷ [], record { value = 1 ∷ []; expires_at = none }) ∷ [];
  max_entries = 1;
}

full-IsValid : IsValid full
unfolding lookup
full-IsValid = record { unique = (refl, tt); bounded = omega arith; cap_pos = omega arith }

a_not_b : ◌≢◌ {A = Bytes} (97 ∷ []) (98 ∷ [])
a_not_b = ground arith

scoped_key-injective_example : (bytes "ab" ≡ bytes "ab") × (bytes "c" ≡ bytes "c")
scoped_key-injective_example =
    scoped_key-injective (bytes "ab") (bytes "ab") (bytes "c") (bytes "c") (ground arith)
      (ground arith) refl

get-delete_example : (get 9 (97 ∷ []) (107 ∷ []) (delete (97 ∷ []) (107 ∷ []) full)).0 ≡ none
get-delete_example = get-delete 9 (97 ∷ []) (107 ∷ []) full
