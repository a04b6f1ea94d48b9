-- ===== src/Pluginhost/Registry.antt =====
-- core/pluginhost/registry.go. An instance is a pointer, here a number into a heap of instances; a
-- replica set is a pointer too, its number its place in the list of all sets that were made, because
-- snapshots share the mutable counters of a set. The counters and the total of `pick` are an `int` of
-- 64 bits, which wraps around.
use moduless.Base.{
  ℕ, zero, suc, ◌+◌, ◌%◌, Bool, true, false, ◌&&◌, ◌||◌, negate, Option, none, some, List, [], ◌∷◌,
  ◌++◌, ◌==◌, if◌then◌else◌, length, Bytes, ℤ, pos, ltb_ℤ, ◌+ℤ◌, ◌-ℤ◌, int64, Dict, lookup, insert,
  erase,
}
use moduless.Manifest.Filters.{CompiledFilter}
use moduless.Pipeline.Chain.{Defaults, PluginFilters, Chain, empty_chain, build_chain}
use moduless.Pluginhost.Instance.{Instance, State, is_ready, servable}
mod Exact
mod Ints
pub mod Turns
mod Balance
pub mod Fair
pub mod Table
mod Tests

pub record ReplicaSet : Type 0 where
  pub instances : List ℕ
  pub current : List ℤ

abbrev pub zeros : List ℕ → List ℤ
zeros [] = []
zeros (i ∷ is) = pos 0 ∷ zeros is

-- `newReplicaSet`.
unfoldable pub new_replica_set : List ℕ → ReplicaSet
new_replica_set instances = record { instances = instances; current = zeros instances }

-- `xs[n]`.
abbrev pub get_elem? {ℓ} : {A : Type ℓ} → List A → ℕ → Option A
get_elem? [] n = none
get_elem? (x ∷ xs) zero = some x
get_elem? (x ∷ xs) (suc n) = get_elem? xs n

-- `best < 0 || rs.current[idx] > rs.current[best]`, where `best` carries its counter.
abbrev pub beats : ℤ → Option (ℕ × ℤ) → Bool
beats c none = true
beats c (some (b, d)) = ltb_ℤ d c

-- The loop of `pick` from the position `idx` on: the counters behind it, the total, and the best
-- position with its counter.
unfoldable pub scan :
    (ℕ → Instance) → ℕ → List ℕ → List ℤ → Option (ℕ × ℤ) → ℤ → List ℤ × ℤ × Option (ℕ × ℤ)
unfolding ◌+ℤ◌ int64
scan heap idx [] cs best total = (cs, total, best)
scan heap idx (i ∷ is) [] best total = ([], total, best)
scan heap idx (i ∷ is) (c ∷ cs) best total =
    let inst = heap i in
    let ready = is_ready inst.state in
    let c' = if ready then int64 (c +ℤ pos inst.weight) else c in
    let best' = if ready && beats c' best then some (idx, c') else best in
    let (cs', total', best'') =
      scan heap (suc idx) is cs best' (if ready then int64 (total +ℤ pos inst.weight) else total) in
    (c' ∷ cs', total', best'')

-- `rs.current[best] -= total`.
unfoldable pub charge : ℕ → ℤ → List ℤ → List ℤ
unfolding ◌-ℤ◌ int64
charge n total [] = []
charge zero total (c ∷ cs) = int64 (c -ℤ total) ∷ cs
charge (suc n) total (c ∷ cs) = c ∷ charge n total cs

-- What `pick` does with what its loop leaves.
unfoldable pub charge_best : List ℤ × ℤ × Option (ℕ × ℤ) → Option ℕ × List ℤ
unfolding charge
charge_best (cs, total, none) = (none, cs)
charge_best (cs, total, some (b, c)) = (some b, charge b total cs)

-- The turn of `pick` among the ready replicas: the position, and the counters behind it.
unfoldable pub choose : (ℕ → Instance) → List ℕ → List ℤ → Option ℕ × List ℤ
unfolding scan charge_best
choose heap is cs = charge_best (scan heap 0 is cs none (pos 0))

-- The loop that finds the first servable replica.
unfoldable pub first_servable : (ℕ → Instance) → List ℕ → Option ℕ
unfolding servable
first_servable heap [] = none
first_servable heap (i ∷ is) = if servable (heap i) then some i else first_servable heap is

-- `pick`.
unfoldable pub pick : (ℕ → Instance) → ReplicaSet → Option ℕ × ReplicaSet
unfolding choose first_servable servable
pick heap rs = elim rs.instances [
  | [] ↦ (none, rs)
  | i ∷ [] ↦ (if servable (heap i) then some i else none, rs)
  | i ∷ j ∷ is ↦
      let (best, cs) = choose heap rs.instances rs.current in
      elim best [
        | none ↦ (first_servable heap rs.instances, record rs { current = cs })
        | some b ↦ (get_elem? rs.instances b, record rs { current = cs })
      ]
]
