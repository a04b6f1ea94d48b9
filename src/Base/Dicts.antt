-- ===== src/Base/Dicts.antt =====
-- Go maps with string keys, as association lists in an iteration order. A map holds a key once
-- when it is built by `insert`, `erase` and `discard` from the empty map: `HasUniqueKeys`.
use Prim.Native.Nat.{ℕ, zero, suc, ◌+◌, ◌≤◌}
use mathlib.Core.Path.{◌≡◌, refl, sym, ◌∙◌}
use mathlib.Core.Logic.{◌⊎◌, inl, inr}
use mathlib.Core.Bool.{Bool, true, false}
use mathlib.Core.Option.{Option, none, some}
use mathlib.Core.List.{List, [], ◌∷◌}
use native.Mathlib.Omega.{arith}
use moduless.Base.Tests.{if◌then◌else◌, Bool-cases, Option-cases}
use moduless.Base.Lists.{length, drop}
use moduless.Base.Text.{Bytes, ◌=?◌, =?_refl, =?→≡, =?_iff}

abbrev pub Dict {ℓ} : Type ℓ → Type ℓ
Dict V = List (Bytes × V)

module _ {ℓ} {V : Type ℓ} where
  -- `m[k]` with its `ok` result.
  unfoldable pub lookup : Bytes → Dict V → Option V
  unfolding ◌=?◌
  lookup k [] = none
  lookup k ((j, v) ∷ m) = if j =? k then some v else lookup k m

  -- `m[k] = v`.
  unfoldable pub insert : Bytes → V → Dict V → Dict V
  unfolding ◌=?◌
  insert k v [] = (k, v) ∷ []
  insert k v ((j, w) ∷ m) = if j =? k then (k, v) ∷ m else (j, w) ∷ insert k v m

  -- `delete(m, k)`.
  unfoldable pub erase : Bytes → Dict V → Dict V
  unfolding ◌=?◌
  erase k [] = []
  erase k ((j, v) ∷ m) = if j =? k then erase k m else (j, v) ∷ erase k m

  pub lookup-insert :
      (k j : Bytes) (v : V) (m : Dict V)
      → lookup j (insert k v m) ≡ (if k =? j then some v else lookup j m)
  unfolding lookup insert
  lookup-insert k j v [] = refl
  lookup-insert k j v ((i, w) ∷ m) =
      ground (arith, =?_iff k j, =?_iff i k, =?_iff i j, lookup-insert k j v m)

  pub lookup-insert_self : (k : Bytes) (v : V) (m : Dict V) → lookup k (insert k v m) ≡ some v
  lookup-insert_self k v m = simp (lookup-insert, =?_refl)

  pub lookup-erase :
      (k j : Bytes) (m : Dict V) → lookup j (erase k m) ≡ (if k =? j then none else lookup j m)
  unfolding lookup erase
  lookup-erase k j [] = ground arith
  lookup-erase k j ((i, w) ∷ m) =
      ground (arith, =?_iff k j, =?_iff i k, =?_iff i j, lookup-erase k j m)

  pub length-erase-le : (k : Bytes) (m : Dict V) → length (erase k m) ≤ length m
  unfolding erase
  length-erase-le k [] = omega arith
  length-erase-le k ((i, w) ∷ m) = ground (arith, length-erase-le k m)

  pub length-insert-le : (k : Bytes) (v : V) (m : Dict V) → length (insert k v m) ≤ length m + 1
  unfolding insert
  length-insert-le k v [] = omega arith
  length-insert-le k v ((i, w) ∷ m) = ground (arith, length-insert-le k v m)

  -- Writing a key that is present keeps the size.
  pub length-insert_present :
      (k : Bytes) (v w : V) (m : Dict V) → lookup k m ≡ some w → length (insert k v m) ≡ length m
  unfolding insert lookup
  length-insert_present k v w [] h = cc
  length-insert_present k v w ((i, u) ∷ m) h = ground (arith, length-insert_present k v w m)

  -- `for k, v := range m { if p(v) { delete(m, k) } }`.
  unfoldable pub discard : (V → Bool) → Dict V → Dict V
  discard p [] = []
  discard p ((j, v) ∷ m) = if p v then discard p m else (j, v) ∷ discard p m

  pub length-discard-le : (p : V → Bool) (m : Dict V) → length (discard p m) ≤ length m
  unfolding discard
  length-discard-le p [] = omega arith
  length-discard-le p ((i, w) ∷ m) = ground (arith, length-discard-le p m)

  -- An entry that the test spares is still found.
  pub lookup-discard_kept :
      (p : V → Bool) (k : Bytes) (v : V) (m : Dict V)
      → lookup k m ≡ some v
      → p v ≡ false
      → lookup k (discard p m) ≡ some v
  unfolding lookup discard
  lookup-discard_kept p k v [] h q = cc
  lookup-discard_kept p k v ((i, w) ∷ m) h q =
      ground (arith, =?_iff i k, lookup-discard_kept p k v m)

  -- Discarding an entry that is there makes the map smaller.
  pub length-discard-lt :
      (p : V → Bool) (k : Bytes) (v : V) (m : Dict V)
      → lookup k m ≡ some v
      → p v ≡ true
      → length (discard p m) + 1 ≤ length m
  unfolding lookup discard
  length-discard-lt p k v [] h q = cc
  length-discard-lt p k v ((i, w) ∷ m) h q =
      ground (arith, length-discard-le p m, length-discard-lt p k v m)

  -- No key stands twice.
  abbrev pub HasUniqueKeys : Dict V → Type ℓ
  HasUniqueKeys [] = Unit
  HasUniqueKeys ((j, v) ∷ m) = (lookup j m ≡ none) × HasUniqueKeys m

  pub insert-HasUniqueKeys :
      (k : Bytes) (v : V) (m : Dict V) → HasUniqueKeys m → HasUniqueKeys (insert k v m)
  unfolding insert lookup
  insert-HasUniqueKeys k v [] u = (refl, tt)
  insert-HasUniqueKeys k v ((j, w) ∷ m) u = elim (Bool-cases (j =? k)) [
    | inl e ↦ rw e (rw (=?→≡ j k e) at u.0, u.1)
    | inr e ↦ rw e (
      lookup-insert k j v m ∙ ground (arith, =?_iff j k, =?_iff k j, u.0),
      insert-HasUniqueKeys k v m u.1,
    )
  ]

  lookup-erase-none : (k j : Bytes) (m : Dict V) → lookup j m ≡ none → lookup j (erase k m) ≡ none
  lookup-erase-none k j m h = lookup-erase k j m ∙ ground (arith, h)

  pub erase-HasUniqueKeys : (k : Bytes) (m : Dict V) → HasUniqueKeys m → HasUniqueKeys (erase k m)
  unfolding erase
  erase-HasUniqueKeys k [] u = u
  erase-HasUniqueKeys k ((j, w) ∷ m) u = elim (Bool-cases (j =? k)) [
    | inl e ↦ rw e (erase-HasUniqueKeys k m u.1)
    | inr e ↦ rw e (lookup-erase-none k j m u.0, erase-HasUniqueKeys k m u.1)
  ]

  lookup-discard-none :
      (p : V → Bool) (j : Bytes) (m : Dict V) → lookup j m ≡ none → lookup j (discard p m) ≡ none
  unfolding lookup discard
  lookup-discard-none p j [] h = refl
  lookup-discard-none p j ((i, w) ∷ m) h = ground (arith, lookup-discard-none p j m)

  pub discard-HasUniqueKeys :
      (p : V → Bool) (m : Dict V) → HasUniqueKeys m → HasUniqueKeys (discard p m)
  unfolding discard
  discard-HasUniqueKeys p [] u = u
  discard-HasUniqueKeys p ((j, w) ∷ m) u = elim (Bool-cases (p w)) [
    | inl e ↦ rw e (discard-HasUniqueKeys p m u.1)
    | inr e ↦ rw e (lookup-discard-none p j m u.0, discard-HasUniqueKeys p m u.1)
  ]

  -- A discarded entry is gone.
  pub lookup-discard_gone :
      (p : V → Bool) (k : Bytes) (v : V) (m : Dict V)
      → HasUniqueKeys m
      → lookup k m ≡ some v
      → p v ≡ true
      → lookup k (discard p m) ≡ none
  unfolding lookup discard
  lookup-discard_gone p k v [] u h q = refl
  lookup-discard_gone p k v ((i, w) ∷ m) u h q = elim (Bool-cases (i =? k)) [
    | inl e ↦ ground (arith, e, lookup-discard-none p k m (rw (=?→≡ i k e) at u.0))
    | inr e ↦ ground (arith, e, lookup-discard_gone p k v m u.1)
  ]

  pub drop-HasUniqueKeys : (n : ℕ) (m : Dict V) → HasUniqueKeys m → HasUniqueKeys (drop n m)
  drop-HasUniqueKeys zero m u = u
  drop-HasUniqueKeys (suc n) [] u = u
  drop-HasUniqueKeys (suc n) ((j, v) ∷ m) u = drop-HasUniqueKeys n m u.1

  -- What `discard` leaves under a key is what stood there.
  pub lookup-discard :
      (p : V → Bool) (k : Bytes) (m : Dict V)
      → HasUniqueKeys m
      → (lookup k (discard p m) ≡ none) ⊎ (lookup k (discard p m) ≡ lookup k m)
  lookup-discard p k m u = elim (Option-cases (lookup k m)) [
    | inl e ↦ inl (lookup-discard-none p k m e)
    | inr (v, e) ↦ elim (Bool-cases (p v)) [
      | inl q ↦ inl (lookup-discard_gone p k v m u e q)
      | inr q ↦ inr (lookup-discard_kept p k v m e q ∙ sym e)
    ]
  ]

  lookup-drop-none :
      (n : ℕ) (k : Bytes) (m : Dict V) → lookup k m ≡ none → lookup k (drop n m) ≡ none
  unfolding lookup
  lookup-drop-none zero k m h = h
  lookup-drop-none (suc n) k [] h = refl
  lookup-drop-none (suc n) k ((j, v) ∷ m) h = ground (arith, lookup-drop-none n k m)

  -- So does dropping the first entries.
  pub lookup-drop :
      (n : ℕ) (k : Bytes) (m : Dict V)
      → HasUniqueKeys m
      → (lookup k (drop n m) ≡ none) ⊎ (lookup k (drop n m) ≡ lookup k m)
  unfolding lookup
  lookup-drop zero k m u = inr refl
  lookup-drop (suc n) k [] u = inl refl
  lookup-drop (suc n) k ((j, v) ∷ m) u = elim (Bool-cases (j =? k)) [
    | inl e ↦ inl (lookup-drop-none n k m (rw (=?→≡ j k e) at u.0))
    | inr e ↦ rw e (lookup-drop n k m u.1)
  ]
