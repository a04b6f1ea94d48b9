-- ===== src/Pluginhost/Registry/Table.antt =====
-- The snapshot and the registry of core/pluginhost/registry.go. A call under the mutex is one step.
-- `sets` holds every replica set that was ever made, so an older snapshot's pointers stay meaningful;
-- the order of `regs` is the one in which Go ranges over the map.
use moduless.Base.{
  ℕ, zero, suc, ◌+◌, ◌%◌, Bool, true, false, ◌&&◌, Option, none, some, List, [], ◌∷◌, ◌++◌, ◌==◌,
  if◌then◌else◌, length, Bytes, pos, Dict, lookup, insert, erase,
}
use moduless.Manifest.Filters.{CompiledFilter}
use moduless.Pipeline.Chain.{
  Defaults, PluginFilters, Chain, empty_chain, build_chain, default_timeout, default_max_body,
}
use moduless.Pluginhost.Instance.{Instance}
use moduless.Pluginhost.Registry.{ReplicaSet, new_replica_set, get_elem?, pick}
pub mod Sets
pub mod Mirror
pub mod Filters

pub record Snapshot : Type 0 where
  pub plugins : Dict ℕ
  pub chain : Chain
  pub version : ℕ

pub record Registration : Type 0 where
  pub key : Bytes
  pub instances : List ℕ
  pub filters : List CompiledFilter
  pub allow_identity_mutation : Bool

pub record Registry : Type 0 where
  pub current : Snapshot
  pub version : ℕ
  pub regs : Dict Registration
  pub filter_defaults : Defaults
  pub sets : List ReplicaSet

abbrev pub no_replicas : ReplicaSet
no_replicas = record { instances = []; current = [] }

-- The set behind a pointer.
abbrev pub set_at : List ReplicaSet → ℕ → ReplicaSet
set_at sets p = elim (get_elem? sets p) [ none ↦ no_replicas | some rs ↦ rs ]

-- `NewRegistry`.
unfoldable pub new_registry : Registry
new_registry = record {
  current = record { plugins = []; chain = empty_chain; version = 0 };
  version = 0;
  regs = [];
  filter_defaults = record { timeout = pos default_timeout; max_body_bytes = pos default_max_body };
  sets = [];
}

-- `Replicas`.
unfoldable pub replicas : List ReplicaSet → Snapshot → Bytes → List ℕ
unfolding lookup
replicas sets snap key = elim (lookup key snap.plugins) [
  | none ↦ []
  | some p ↦ (set_at sets p).instances
]

-- `Has`.
unfoldable pub has : Snapshot → Bytes → Bool
unfolding lookup
has snap key = elim (lookup key snap.plugins) [ none ↦ false | some p ↦ true ]

-- A write through a pointer.
abbrev pub put_at : List ReplicaSet → ℕ → ReplicaSet → List ReplicaSet
put_at [] p rs = []
put_at (s ∷ sets) zero rs = rs ∷ sets
put_at (s ∷ sets) (suc p) rs = s ∷ put_at sets p rs

-- `Snapshot.Pick`, with the counters that it moves.
unfoldable pub pick_of :
    (ℕ → Instance) → List ReplicaSet → Snapshot → Bytes → Option ℕ × List ReplicaSet
unfolding lookup pick
pick_of heap sets snap key = elim (lookup key snap.plugins) [
  | none ↦ (none, sets)
  | some p ↦ let (i, rs) = pick heap (set_at sets p) in (i, put_at sets p rs)
]

-- `sameInstances`.
unfoldable pub same_instances : List ℕ → List ℕ → Bool
same_instances [] [] = true
same_instances [] (j ∷ js) = false
same_instances (i ∷ is) [] = false
same_instances (i ∷ is) (j ∷ js) = (i == j) && same_instances is js

abbrev pub make_set : List ReplicaSet → List ℕ → ℕ × List ReplicaSet
make_set sets instances = (length sets, sets ++ new_replica_set instances ∷ [])

-- The replica set of one plugin in the loop of `rebuildLocked`: carried over or new.
unfoldable pub set_for : Snapshot → Bytes → Registration → List ReplicaSet → ℕ × List ReplicaSet
unfolding lookup same_instances new_replica_set
set_for old key reg sets = elim (lookup key old.plugins) [
  | none ↦ make_set sets reg.instances
  | some p ↦
      if same_instances (set_at sets p).instances reg.instances
      then (p, sets)
      else make_set sets reg.instances
]

-- The loop of `rebuildLocked`, as to the replica sets.
unfoldable pub rebuild_sets :
    Snapshot → Dict Registration → Dict ℕ → List ReplicaSet → Dict ℕ × List ReplicaSet
unfolding set_for insert
rebuild_sets old [] plugins sets = (plugins, sets)
rebuild_sets old ((key, reg) ∷ regs) plugins sets =
    let (p, sets') = set_for old key reg sets in rebuild_sets old regs (insert key p plugins) sets'

-- `len(reg.Filters) > 0`.
abbrev pub has_filters : List CompiledFilter → Bool
has_filters [] = false
has_filters (f ∷ fs) = true

-- The loop of `rebuildLocked`, as to the filters.
unfoldable pub plugin_filters : Dict Registration → List PluginFilters
plugin_filters [] = []
plugin_filters ((key, reg) ∷ regs) =
    let rest = plugin_filters regs in
    if has_filters reg.filters
    then record {
      key = key;
      filters = reg.filters;
      allow_identity_mutation = reg.allow_identity_mutation;
    }
      ∷ rest
    else rest

-- The chain of the next snapshot; an error leaves it empty.
unfoldable pub rebuild_chain : Dict Registration → Defaults → Chain
unfolding plugin_filters build_chain
rebuild_chain regs d = elim (build_chain (plugin_filters regs) d) [
  | none ↦ empty_chain
  | some c ↦ c
]

-- `x++` on a `uint64`.
abbrev pub next_version : ℕ → ℕ
next_version n = (n + 1) % 18446744073709551616

-- `rebuildLocked` with `publishLocked`.
unfoldable pub rebuild : Registry → Registry
unfolding rebuild_sets rebuild_chain
rebuild r =
    let (plugins, sets) = rebuild_sets r.current r.regs [] r.sets in
    record r {
      current = record {
        plugins = plugins;
        chain = rebuild_chain r.regs r.filter_defaults;
        version = next_version r.version;
      };
      version = next_version r.version;
      sets = sets;
    }

-- The change of `InstallPlugin` to the registrations.
unfoldable pub register : Registration → Dict Registration → Dict Registration
unfolding insert erase
register reg regs = elim reg.instances [
  | [] ↦ erase reg.key regs
  | i ∷ is ↦ insert reg.key reg regs
]

-- `InstallPlugin`: the displaced instances, and the registry after it.
unfoldable pub install_plugin : Registration → Registry → List ℕ × Registry
unfolding replicas register rebuild
install_plugin reg r =
    (replicas r.sets r.current reg.key, rebuild (record r { regs = register reg r.regs }))

-- `Install` and `Remove`.
abbrev pub bare : Bytes → List ℕ → Registration
bare key instances = record {
  key = key;
  instances = instances;
  filters = [];
  allow_identity_mutation = false;
}

unfoldable pub install : Bytes → List ℕ → Registry → List ℕ × Registry
unfolding install_plugin
install key instances r = install_plugin (bare key instances) r

unfoldable pub remove : Bytes → Registry → List ℕ × Registry
unfolding install_plugin
remove key r = install_plugin (bare key []) r
