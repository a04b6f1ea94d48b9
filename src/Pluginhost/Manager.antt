-- ===== src/Pluginhost/Manager.antt =====
-- core/pluginhost/manager.go, with `Swap` of core/pluginhost/registry.go. An operation
-- is one step: what its launches answer is an argument, and the processes that it watches, drains or
-- kills are listed in order. `Launch`, the environment and the data directories are not modelled.
use moduless.Base.{
  ℕ, zero, suc, ◌+◌, Bool, true, false, Option, none, some, List, [], ◌∷◌, ◌++◌, map, if◌then◌else◌,
  negate, Bytes, ◌=?◌, mem_bytes, Dict, lookup, insert,
}
use moduless.Manifest.Plugin.{Manifest, replica_count}
use moduless.Manifest.Plugin.Config.{merge_config}
use moduless.Pipeline.Chain.{lt_bytes}
use moduless.Pluginhost.Supervisor.{Supervisor, RawSupervisorConfig, new_supervisor, clear_crashes}
use moduless.Pluginhost.Registry.Table.{
  Registration, Registry, Snapshot, replicas, rebuild, install_plugin, remove,
}
use moduless.Pluginhost.Registry.{ReplicaSet}
use moduless.Pluginhost.Package.{
  Package, LoadError, Loaded, loaded, refused, allows_identity_mutation,
}
pub mod All
pub mod Rollback
pub mod Chained
pub mod Sound
pub mod Routing
mod Tests

pub data Effect : Type 0 where
  watch drain kill : ℕ → Effect

pub data ManagerError : Type 0 where
  not_installed launch_failed plugin_disabled drain_failed : ManagerError
  reload_failed : LoadError → ManagerError
  scan_failed : LoadError → ManagerError

pub record Manager : Type 0 where
  pub registry : Registry
  pub sup : Supervisor
  pub packages : Dict Package
  pub enabled : List Bytes
  pub errors : Dict ManagerError

-- `NewManager` over a registry.
unfoldable pub new_manager : RawSupervisorConfig → Registry → Manager
unfolding new_supervisor
new_manager raw reg = record {
  registry = reg;
  sup = new_supervisor raw;
  packages = [];
  enabled = [];
  errors = [];
}

-- The error, or `none` for `nil`; the effects; and the manager afterwards.
abbrev pub Outcome : Type 0
Outcome = Option ManagerError × List Effect × Manager

unfoldable pub packages_from : Dict Package → List Package → Dict Package
unfolding insert
packages_from found [] = found
packages_from found (p ∷ ps) = packages_from (insert p.manifest.key p found) ps

unfoldable pub errors_from : Dict LoadError → Dict ManagerError
errors_from [] = []
errors_from ((name, e) ∷ es) = (name, scan_failed e) ∷ errors_from es

-- `Scan`, with what `ScanPackages` answers.
unfoldable pub scan : List Package × Dict LoadError → Manager → Manager
unfolding packages_from errors_from
scan (packages, failures) m = record m {
  packages = packages_from [] packages;
  errors = errors_from failures;
}

-- `launchAll` after the replicas below `i` have started, with what `launchOne` answers for each.
unfoldable pub launch_from : (ℕ → Option ℕ) → ℕ → ℕ → List ℕ → Option (List ℕ) × List Effect
launch_from launch i zero instances = (some instances, [])
launch_from launch i (suc n) instances = elim (launch i) [
  | none ↦ (none, map kill instances)
  | some inst ↦ launch_from launch (i + 1) n (instances ++ inst ∷ [])
]

-- `launchAll`.
unfoldable pub launch_all : (ℕ → Option ℕ) → Package → Option (List ℕ) × List Effect
unfolding launch_from replica_count
launch_all launch p = launch_from launch 0 (replica_count p.manifest) []

-- `m.enabled[key] = struct{}{}` and `delete(m.enabled, key)`.
abbrev pub add_key : Bytes → List Bytes → List Bytes
add_key key keys = if mem_bytes keys key then keys else key ∷ keys

unfoldable pub drop_key : Bytes → List Bytes → List Bytes
unfolding ◌=?◌
drop_key key [] = []
drop_key key (k ∷ keys) = let rest = drop_key key keys in if k =? key then rest else k ∷ rest

-- What is registered for a package.
abbrev pub registration : Bytes → Package → List ℕ → Registration
registration key p instances = record {
  key = key;
  instances = instances;
  filters = p.filters;
  allow_identity_mutation = allows_identity_mutation p;
}

-- `Enable` once the replicas are up.
unfoldable pub publish : Bytes → Package → List ℕ → Manager → Outcome
unfolding install_plugin clear_crashes mem_bytes allows_identity_mutation
publish key p instances m = (
  none,
  map watch instances,
  record m {
    registry = (install_plugin (registration key p instances) m.registry).1;
    enabled = add_key key m.enabled;
    sup = clear_crashes key m.sup;
  },
)

-- `Enable`.
unfoldable pub enable : (ℕ → Option ℕ) → Bytes → Manager → Outcome
unfolding lookup launch_all publish
enable launch key m = elim (lookup key m.packages) [
  | none ↦ (some not_installed, [], m)
  | some p ↦
      let (launched, kills) = launch_all launch p in
      elim launched [
        | none ↦ (some launch_failed, kills, m)
        | some instances ↦ publish key p instances m
      ]
]

-- The first error of the drains, with whether each one fails.
abbrev pub drain_error : (ℕ → Bool) → List ℕ → Option ManagerError
drain_error fails [] = none
drain_error fails (i ∷ is) = if fails i then some drain_failed else drain_error fails is

-- `Disable` after `Remove` has given the displaced instances.
unfoldable pub drain_displaced : (ℕ → Bool) → Bytes → List ℕ → Manager → Outcome
unfolding clear_crashes
drain_displaced fails key [] m = (none, [], m)
drain_displaced fails key (i ∷ is) m =
    (drain_error fails (i ∷ is), map drain (i ∷ is), record m { sup = clear_crashes key m.sup })

-- `Disable`.
unfoldable pub disable : (ℕ → Bool) → Bytes → Manager → Outcome
unfolding drop_key remove drain_displaced
disable fails key m =
    let (displaced, registry) = remove key m.registry in
    drain_displaced fails key displaced
      (record m { registry = registry; enabled = drop_key key m.enabled })

-- `Swap`.
unfoldable pub swap : Registration → Registry → List Effect × Registry
unfolding install_plugin
swap reg r = let (displaced, r') = install_plugin reg r in (map drain displaced, r')

-- `Upgrade` once the replicas are up.
unfoldable pub replace : Bytes → Package → List ℕ → Manager → Outcome
unfolding swap clear_crashes insert mem_bytes allows_identity_mutation
replace key p instances m =
    let (drains, registry) = swap (registration key p instances) m.registry in
    (
      none,
      drains ++ map watch instances,
      record m {
        registry = registry;
        packages = insert key p m.packages;
        enabled = add_key key m.enabled;
        sup = clear_crashes key m.sup;
      },
    )

-- `Upgrade`, with what `LoadPackage` answers.
unfoldable pub upgrade : Loaded Package → (ℕ → Option ℕ) → Bytes → Manager → Outcome
unfolding launch_all replace
upgrade (refused e) launch key m = (some (reload_failed e), [], m)
upgrade (loaded p) launch key m =
    let (launched, kills) = launch_all launch p in
    elim launched [
      | none ↦ (some launch_failed, kills, m)
      | some instances ↦ replace key p instances m
    ]

-- `ConfigFor`, with what the source of settings answers.
unfoldable pub config_for : Dict Bytes → Bytes → Manager → Dict Bytes
unfolding lookup merge_config
config_for set key m = elim (lookup key m.packages) [
  | none ↦ set
  | some p ↦ merge_config p.manifest.config set
]

-- `relaunch`, with what `launchOne` answers.
unfoldable pub relaunch : Option ℕ → Bytes → Manager → Option ManagerError × Option ℕ
unfolding lookup mem_bytes
relaunch launched key m = elim (lookup key m.packages) [
  | none ↦ (some plugin_disabled, none)
  | some p ↦
      if mem_bytes m.enabled key
      then elim launched [ none ↦ (some launch_failed, none) | some i ↦ (none, some i) ]
      else (some plugin_disabled, none)
]
