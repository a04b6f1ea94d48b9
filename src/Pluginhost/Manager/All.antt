-- ===== src/Pluginhost/Manager/All.antt =====
-- `EnableAll` of core/pluginhost/manager.go, and `DrainAll` of core/pluginhost/registry.go with the keys
-- and instances of a snapshot.
use moduless.Base.{
  ℕ, Option, none, some, List, [], ◌∷◌, ◌++◌, map, if◌then◌else◌, Bytes, Dict, insert,
}
use moduless.Pipeline.Chain.{lt_bytes}
use moduless.Pluginhost.Registry.Table.{Registry, Snapshot, replicas, rebuild}
use moduless.Pluginhost.Registry.{ReplicaSet}
use moduless.Pluginhost.Package.{Package}
use moduless.Pluginhost.Manager.{Effect, drain, ManagerError, Manager, Outcome, enable}

-- `sort.Strings` of the installed keys.
unfoldable pub place_key : Bytes → List Bytes → List Bytes
unfolding lt_bytes
place_key k [] = k ∷ []
place_key k (j ∷ js) = if lt_bytes j k then j ∷ place_key k js else k ∷ j ∷ js

unfoldable pub sorted_keys : Dict Package → List Bytes
unfolding place_key
sorted_keys [] = []
sorted_keys ((k, p) ∷ ps) = place_key k (sorted_keys ps)

-- `m.errors[key] = err.Error()` for an error.
unfoldable pub note_error : Bytes → Option ManagerError → Manager → Manager
unfolding insert
note_error key none m = m
note_error key (some e) m = record m { errors = insert key e m.errors }

abbrev pub first_error : Option ManagerError → Option ManagerError → Option ManagerError
first_error none e = e
first_error (some d) e = some d

-- The loop of `EnableAll`, with what the launches of each key answer.
unfoldable pub enable_each :
    (Bytes → ℕ → Option ℕ) → List Bytes → Option ManagerError → List Effect → Manager → Outcome
unfolding enable note_error
enable_each launch [] err effects m = (err, effects, m)
enable_each launch (key ∷ keys) err effects m =
    let (e, done, m') = enable (launch key) key m in
    enable_each launch keys (first_error err e) (effects ++ done) (note_error key e m')

-- `EnableAll`.
unfoldable pub enable_all : (Bytes → ℕ → Option ℕ) → Manager → Outcome
unfolding enable_each sorted_keys
enable_all launch m = enable_each launch (sorted_keys m.packages) none [] m

-- `Snapshot.Keys`, and the instances of keys in order.
unfoldable pub snapshot_keys : Dict ℕ → List Bytes
unfolding place_key
snapshot_keys [] = []
snapshot_keys ((k, p) ∷ plugins) = place_key k (snapshot_keys plugins)

unfoldable pub instances_of_keys : List ReplicaSet → Snapshot → List Bytes → List ℕ
unfolding replicas
instances_of_keys sets snap [] = []
instances_of_keys sets snap (k ∷ keys) = replicas sets snap k ++ instances_of_keys sets snap keys

-- `Snapshot.All`.
unfoldable pub all_instances : List ReplicaSet → Snapshot → List ℕ
unfolding snapshot_keys instances_of_keys
all_instances sets snap = instances_of_keys sets snap (snapshot_keys snap.plugins)

-- `DrainAll`.
unfoldable pub drain_all : Registry → List Effect × Registry
unfolding rebuild all_instances
drain_all r = (map drain (all_instances r.sets r.current), rebuild (record r { regs = [] }))
