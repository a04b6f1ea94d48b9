-- ===== src/Db/Tx/Counts.antt =====
-- Counting the transactions of a plugin: the map, the counter and the pending calls of
-- core/db/tx.go.
use moduless.Base.{
  ℕ, ◌+◌, ◌-◌, Bool, true, false, List, [], ◌∷◌, ◌++◌, if◌then◌else◌, Bytes, ◌=?◌, =?→≡, =?_refl,
  none, some, Dict, lookup, insert, erase, lookup-insert, lookup-erase, HasUniqueKeys, ◌≡◌, refl,
  arith, Bool-cases, inl, inr,
}
use moduless.Db.Tx.{OpenTx, count_of, release}

abbrev pub one_if : Bool → ℕ
one_if true = 1
one_if false = 0

-- How many open transactions are the plugin's.
unfoldable pub held : Bytes → Dict OpenTx → ℕ
unfolding ◌=?◌
held key [] = 0
held key ((id, t) ∷ m) = one_if (t.plugin_key =? key) + held key m

-- How many pending calls are the plugin's.
unfoldable pub waiting : Bytes → List Bytes → ℕ
unfolding ◌=?◌
waiting key [] = 0
waiting key (k ∷ ks) = one_if (k =? key) + waiting key ks

pub waiting-append :
    (key k : Bytes) (before after : List Bytes)
    → waiting key (before ++ (k ∷ after)) ≡ one_if (k =? key) + waiting key (before ++ after)
unfolding waiting
waiting-append key k [] after = refl
waiting-append key k (b ∷ before) after = omega (arith, waiting-append key k before after)

pub held-insert :
    (key id : Bytes) (t : OpenTx) (m : Dict OpenTx)
    → lookup id m ≡ none
    → held key (insert id t m) ≡ held key m + one_if (t.plugin_key =? key)
unfolding held insert lookup
held-insert key id t [] h = omega arith
held-insert key id t ((j, u) ∷ m) h = ground (arith, held-insert key id t m)

held-erase_absent :
    (key id : Bytes) (m : Dict OpenTx) → lookup id m ≡ none → held key (erase id m) ≡ held key m
unfolding held erase lookup
held-erase_absent key id [] h = refl
held-erase_absent key id ((j, u) ∷ m) h = ground (arith, held-erase_absent key id m)

pub held-erase :
    (key id : Bytes) (t : OpenTx) (m : Dict OpenTx)
    → HasUniqueKeys m
    → lookup id m ≡ some t
    → held key (erase id m) + one_if (t.plugin_key =? key) ≡ held key m
unfolding held erase lookup
held-erase key id t [] u h = absurd (cc (h))
held-erase key id t ((j, w) ∷ m) u h = elim (Bool-cases (j =? id)) [
  | inl e ↦
      let q : w ≡ t = cc (rw e at h) in
      rw (e, q) (omega (arith, held-erase_absent key id m (rw (=?→≡ j id e) at u.0)))
  | inr e ↦ rw e (omega (arith, held-erase key id t m u.1 (rw e at h)))
]

pub count-insert :
    (key k : Bytes) (n : ℕ) (m : Dict ℕ)
    → count_of key (insert k n m) ≡ (if k =? key then n else count_of key m)
unfolding count_of
count-insert key k n m = elim (Bool-cases (k =? key)) [
  | inl e ↦ rw (lookup-insert k key n m, e) refl
  | inr e ↦ rw (lookup-insert k key n m, e) refl
]

count-erase :
    (key k : Bytes) (m : Dict ℕ)
    → count_of key (erase k m) ≡ (if k =? key then 0 else count_of key m)
unfolding count_of
count-erase key k m = elim (Bool-cases (k =? key)) [
  | inl e ↦ rw (lookup-erase k key m, e) refl
  | inr e ↦ rw (lookup-erase k key m, e) refl
]

pub count-release :
    (key k : Bytes) (m : Dict ℕ) → count_of key (release k m) ≡ count_of key m - one_if (k =? key)
unfolding release
count-release key k m = elim (Bool-cases (k =? key)) [
  | inl e ↦ rw (=?→≡ k key e) (
      ground
        (arith, =?_refl key, count-erase key key m, count-insert key key (count_of key m - 1) m))
  | inr e ↦ ground (arith, e, count-erase key k m, count-insert key k (count_of k m - 1) m)
]

pub count-take :
    (key k : Bytes) (m : Dict ℕ)
    → count_of key (insert k (count_of k m + 1) m) ≡ count_of key m + one_if (k =? key)
count-take key k m = elim (Bool-cases (k =? key)) [
  | inl e ↦ rw (count-insert key k (count_of k m + 1) m, e) (rw (=?→≡ k key e) refl)
  | inr e ↦ rw (count-insert key k (count_of k m + 1) m, e) (omega arith)
]
