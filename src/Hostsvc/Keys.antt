-- ===== src/Hostsvc/Keys.antt =====
-- The names and deadlines that the cache and the locks of core/hostsvc/memory.go share.
use moduless.Base.{
  ℕ, ◌≡◌, ◌≢◌, refl, Bool, false, Option, none, some, [], ◌∷◌, ◌++◌, arith, All, Bytes, leb,
}

-- `cacheKey` and `lockKey`: pluginKey + "\x00" + key.
unfoldable pub scoped_key : Bytes → Bytes → Bytes
scoped_key plugin_key key = plugin_key ++ 0 ∷ key

-- `expired`; the zero time, which means no deadline, is `none`.
unfoldable pub expired : ℕ → Option ℕ → Bool
expired now none = false
expired now (some deadline) = leb deadline now

abbrev pub NoZero : Bytes → Type 0
NoZero s = All (λ c. c ≢ 0) s

-- Two plugins whose keys hold no zero byte share no entry, and one plugin's entries are told apart
-- by their keys.
pub scoped_key-injective :
    (p q k j : Bytes) → NoZero p → NoZero q → scoped_key p k ≡ scoped_key q j → (p ≡ q) × (k ≡ j)
unfolding scoped_key
scoped_key-injective [] [] k j hp hq e = (refl, cc)
scoped_key-injective [] (d ∷ q) k j hp hq e = absurd (hq.0 (cc))
scoped_key-injective (c ∷ p) [] k j hp hq e = absurd (hp.0 (cc))
scoped_key-injective (c ∷ p) (d ∷ q) k j hp hq e =
    ground (arith, scoped_key-injective p q k j hp.1 hq.1 (cc))
