-- ===== src/Pluginhost/Manager/Tests.antt =====
-- Runs of the manager.
use moduless.Base.{
  ℕ, zero, suc, ◌≡◌, refl, true, Option, some, none, List, [], ◌∷◌, ◌++◌, map, Bytes, bytes, pos,
  lookup, All, length,
}
use moduless.Manifest.Plugin.{replica_count}
use moduless.Pipeline.Context.{Phase}
use moduless.Pipeline.Chain.{build_chain, sort_filters}
use moduless.Pipeline.Chain.Build.{declared}
use moduless.Pluginhost.Supervisor.{RawSupervisorConfig}
use moduless.Pluginhost.Registry.Table.{new_registry, install_plugin, replicas, plugin_filters}
use moduless.Pluginhost.Registry.Table.Mirror.{
  IsValid, new_registry-IsValid, install_plugin-IsValid,
}
use moduless.Pluginhost.Package.{Package, loaded, entries}
use moduless.Pluginhost.Package.Sample.{
  auth_manifest, auth_entry, auth_dir, decode_auth, first_byte,
}
use moduless.Pluginhost.Manager.{
  Manager, new_manager, watch, drain, kill, launch_failed, enable, upgrade, registration,
}
use moduless.Pluginhost.Manager.Rollback.{
  IsRerouted, started, enable_rolls_back, upgrade_rolls_back, upgrade_swaps, enable_reroutes,
}
use moduless.Pluginhost.Manager.Routing.{
  Operation, rescan, turn_on, update, perform, perform_all, managed_chain, managed_authenticate,
}

abbrev raw : RawSupervisorConfig
raw = record {
  raw_initial_backoff = pos 0;
  raw_max_backoff = pos 0;
  raw_crash_threshold = pos 0;
  raw_crash_window = pos 0;
}

abbrev auth : Bytes
auth = bytes "auth"

-- Two replicas, without filters.
abbrev plain : Package
plain = record {
  dir = bytes "/plugins/auth";
  manifest = auth_manifest;
  binary_path = bytes "/plugins/auth/bin/auth";
  checksum = [];
  frontend_dir = [];
  filters = [];
}

-- It serves from the instances 7 and 8.
abbrev serving : Manager
serving = record (new_manager raw new_registry) {
  registry = (install_plugin (registration auth plain (7 ∷ 8 ∷ [])) new_registry).1;
  packages = (auth, plain) ∷ [];
  enabled = auth ∷ [];
}

serving-IsValid : IsValid serving.registry
serving-IsValid =
    install_plugin-IsValid (registration auth plain (7 ∷ 8 ∷ [])) new_registry new_registry-IsValid

-- The second launch fails, or none does.
abbrev only_first : ℕ → Option ℕ
only_first zero = some 20
only_first (suc i) = none

abbrev both : ℕ → Option ℕ
both i = some i

installed : lookup auth serving.packages ≡ some plain
unfolding lookup
installed = refl

enable_rolls_back_example :
    enable only_first auth serving
    ≡ (some launch_failed, map kill (started only_first plain), serving)
unfolding replica_count
enable_rolls_back_example = enable_rolls_back only_first auth plain serving installed refl

killed : (enable only_first auth serving).1 ≡ kill 20 ∷ []
unfolding enable
killed = refl

upgrade_rolls_back_example :
    upgrade (loaded plain) only_first auth serving
    ≡ (some launch_failed, map kill (started only_first plain), serving)
unfolding replica_count
upgrade_rolls_back_example = upgrade_rolls_back only_first auth plain serving refl

upgrade_swaps_example :
    let (err, effects, m') = upgrade (loaded plain) both auth serving in
    (err ≡ none)
    × (effects
        ≡ map drain (replicas serving.registry.sets serving.registry.current auth)
          ++ map watch (started both plain))
    × IsRerouted auth (started both plain) serving m'
unfolding replica_count
upgrade_swaps_example = upgrade_swaps both auth plain serving serving-IsValid refl

enable_reroutes_example :
    let (err, effects, m') = enable both auth serving in
    (err ≡ none)
    × (effects ≡ map watch (started both plain))
    × IsRerouted auth (started both plain) serving m'
unfolding replica_count
enable_reroutes_example = enable_reroutes both auth plain serving installed serving-IsValid refl

abbrev history : List Operation
history = rescan (entries (auth_entry ∷ [])) ∷ turn_on both auth ∷ update auth_dir both auth ∷ []

guarded :
    length (
      (perform_all decode_auth first_byte history
          (new_manager raw new_registry)).registry.current.chain.phases
        Phase.authenticate)
    ≡ 1
unfolding perform new_manager new_registry
guarded = refl

managed_chain_example :
    let r = (perform_all decode_auth first_byte history (new_manager raw new_registry)).registry in
    (build_chain (plugin_filters r.regs) r.filter_defaults ≡ some r.current.chain)
    × (r.current.chain.phases Phase.authenticate
        ≡ sort_filters (declared r.filter_defaults Phase.authenticate (plugin_filters r.regs)))
managed_chain_example = managed_chain decode_auth first_byte raw history Phase.authenticate

managed_authenticate_example :
    All
      (λ f. f.allow_identity_mutation ≡ true)
      ((perform_all decode_auth first_byte history
          (new_manager raw new_registry)).registry.current.chain.phases
        Phase.authenticate)
managed_authenticate_example = managed_authenticate decode_auth first_byte raw history
