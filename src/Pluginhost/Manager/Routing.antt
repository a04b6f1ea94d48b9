-- ===== src/Pluginhost/Manager/Routing.antt =====
-- The filter chain under the operations of core/pluginhost/manager.go, and under the calls with which
-- core/pluginhost/supervisor.go brings a crashed plugin back (`Install`) or gives it up (`Remove`).
use moduless.Base.{
  ℕ, ◌≡◌, refl, inl, inr, Bool, true, Option, some, List, [], ◌∷◌, Bytes, All, Bool-cases,
  Option-cases, lookup,
}
use moduless.Manifest.Plugin.{Manifest}
use moduless.Pipeline.Context.{Phase}
use moduless.Pipeline.Chain.{build_chain, sort_filters}
use moduless.Pipeline.Chain.Order.{All-sort_filters}
use moduless.Pipeline.Chain.Build.{declared, build_chain-phases}
use moduless.Pipeline.Chain.Known.{MaySetIdentity, declared-MaySetIdentity}
use moduless.Pluginhost.Supervisor.{RawSupervisorConfig}
use moduless.Pluginhost.Registry.Table.{
  Registration, Registry, new_registry, plugin_filters, install_plugin, install, remove, bare,
  replicas,
}
use moduless.Pluginhost.Package.{
  Directory, Package, Loaded, loaded, refused, Listing, scan_packages, load_package,
}
use moduless.Pluginhost.Manager.{
  Manager, new_manager, scan, enable, publish, disable, upgrade, replace, registration, drop_key,
}
use moduless.Pluginhost.Manager.Rollback.{
  is_up, started, enable-missing, enable-publish, enable_rolls_back, upgrade-replace,
  upgrade_rolls_back, drain_displaced_lem,
}
use moduless.Pluginhost.Manager.Chained.{
  IsSoundPackage, IsSound, AllValues, insert-AllValues, lookup-AllValues, IsChained,
  plugin_filters-IsKnownPlugin, install_plugin-IsChained, new_registry-IsChained,
}
use moduless.Pluginhost.Manager.Sound.{
  IsSoundLoaded, packages_from-AllValues, load_package-IsSoundLoaded, scan_packages-IsSoundPackage,
}

pub data Operation : Type 0 where
  rescan : Listing → Operation
  turn_on : (ℕ → Option ℕ) → Bytes → Operation
  turn_off : (ℕ → Bool) → Bytes → Operation
  update : Directory → (ℕ → Option ℕ) → Bytes → Operation
  brought_back : Bytes → ℕ → Operation
  given_up : Bytes → Operation

abbrev with_registry : Manager → Registry → Manager
with_registry m r = record m { registry = r }

module _ (decode : Bytes → Option Manifest) (sha256 : Bytes → Bytes) where
  unfoldable pub perform : Operation → Manager → Manager
  unfolding scan scan_packages enable disable upgrade load_package install remove
  perform (rescan listing) m = scan (scan_packages decode sha256 listing) m
  perform (turn_on launch key) m = (enable launch key m).2
  perform (turn_off fails key) m = (disable fails key m).2
  perform (update dir launch key) m = (upgrade (load_package decode sha256 dir) launch key m).2
  perform (brought_back key inst) m = with_registry m (install key (inst ∷ []) m.registry).1
  perform (given_up key) m = with_registry m (remove key m.registry).1

  abbrev pub perform_all : List Operation → Manager → Manager
  perform_all [] m = m
  perform_all (op ∷ ops) m = perform_all ops (perform op m)

-- The packages are sound, and the chain is that of the registrations.
record IsManaged (m : Manager) : Type 0 where
  packages : AllValues IsSoundPackage m.packages
  routed : IsChained m.registry

rerouted :
    (m m' : Manager) (reg : Registration)
    → IsManaged m
    → IsSound reg
    → AllValues IsSoundPackage m'.packages
    → m'.registry ≡ (install_plugin reg m.registry).1
    → IsManaged m'
rerouted m m' reg h s p e = record {
  packages = p;
  routed = rw e (install_plugin-IsChained reg m.registry s h.routed.sound);
}

enable-IsManaged :
    (launch : ℕ → Option ℕ) (key : Bytes) (m : Manager)
    → IsManaged m
    → IsManaged (enable launch key m).2
unfolding publish
enable-IsManaged launch key m h = elim (Option-cases (lookup key m.packages)) [
  | inl e ↦ rw (enable-missing launch key m e) h
  | inr (p, e) ↦ elim (Bool-cases (is_up launch p)) [
    | inr u ↦ rw (enable_rolls_back launch key p m e u) h
    | inl u ↦ rw (enable-publish launch key p m e u) (
        rerouted m _ (registration key p (started launch p)) h
          (lookup-AllValues IsSoundPackage key p m.packages h.packages e) h.packages refl)
  ]
]

disable-IsManaged :
    (fails : ℕ → Bool) (key : Bytes) (m : Manager) → IsManaged m → IsManaged (disable fails key m).2
unfolding disable remove
disable-IsManaged fails key m h =
    let displaced = replicas m.registry.sets m.registry.current key in
    let m' = record m { registry = (remove key m.registry).1; enabled = drop_key key m.enabled } in
    let (effects, registry, packages) = drain_displaced_lem fails key displaced m' in
    rerouted m _ (bare key []) h tt (rw packages h.packages) registry

module _ (decode : Bytes → Option Manifest) (sha256 : Bytes → Bytes) where
  upgrade-IsManaged :
      (d : Directory) (launch : ℕ → Option ℕ) (key : Bytes) (m : Manager)
      → IsManaged m
      → IsManaged (upgrade (load_package decode sha256 d) launch key m).2
  unfolding upgrade replace
  upgrade-IsManaged d launch key m h =
      go (load_package decode sha256 d) (load_package-IsSoundLoaded decode sha256 d)
    where
      go : (w : Loaded Package) → IsSoundLoaded w → IsManaged (upgrade w launch key m).2
      go (refused e) s = h
      go (loaded p) s = elim (Bool-cases (is_up launch p)) [
        | inr u ↦ rw (upgrade_rolls_back launch key p m u) h
        | inl u ↦ rw (upgrade-replace launch key p m u) (
            rerouted m _ (registration key p (started launch p)) h s
              (insert-AllValues IsSoundPackage key p m.packages s h.packages) refl)
      ]

  scan-IsManaged :
      (listing : Listing) (m : Manager)
      → IsManaged m
      → IsManaged (scan (scan_packages decode sha256 listing) m)
  unfolding scan scan_packages
  scan-IsManaged listing m h = record {
    packages =
        packages_from-AllValues [] (scan_packages decode sha256 listing).0 tt
          (scan_packages-IsSoundPackage decode sha256 listing);
    routed = h.routed;
  }

  perform-IsManaged :
      (op : Operation) (m : Manager) → IsManaged m → IsManaged (perform decode sha256 op m)
  unfolding install remove perform
  perform-IsManaged (rescan listing) m h = scan-IsManaged listing m h
  perform-IsManaged (turn_on launch key) m h = enable-IsManaged launch key m h
  perform-IsManaged (turn_off fails key) m h = disable-IsManaged fails key m h
  perform-IsManaged (update dir launch key) m h = upgrade-IsManaged dir launch key m h
  perform-IsManaged (brought_back key inst) m h =
      rerouted m _ (bare key (inst ∷ [])) h tt h.packages refl
  perform-IsManaged (given_up key) m h = rerouted m _ (bare key []) h tt h.packages refl

  perform_all-IsManaged :
      (ops : List Operation) (m : Manager)
      → IsManaged m
      → IsManaged (perform_all decode sha256 ops m)
  perform_all-IsManaged [] m h = h
  perform_all-IsManaged (op ∷ ops) m h =
      perform_all-IsManaged ops (perform decode sha256 op m) (perform-IsManaged op m h)

  managed :
      (raw : RawSupervisorConfig) (ops : List Operation)
      → IsManaged (perform_all decode sha256 ops (new_manager raw new_registry))
  unfolding new_manager
  managed raw ops =
      perform_all-IsManaged ops (new_manager raw new_registry)
        (record { packages = tt; routed = new_registry-IsChained })

  -- After any operations on a new manager, whatever the packages hold: the filters that the
  -- registrations hold build a chain, which is the live one, and each of its phases holds exactly
  -- those of them that are declared for it, sorted. A registration that the supervisor made for a
  -- plugin that it brought back holds none.
  pub managed_chain :
      (raw : RawSupervisorConfig) (ops : List Operation) (q : Phase)
      → let r = (perform_all decode sha256 ops (new_manager raw new_registry)).registry in
        (build_chain (plugin_filters r.regs) r.filter_defaults ≡ some r.current.chain)
        × (r.current.chain.phases q
            ≡ sort_filters (declared r.filter_defaults q (plugin_filters r.regs)))
  managed_chain raw ops q =
      let r = (perform_all decode sha256 ops (new_manager raw new_registry)).registry in
      let built = (managed raw ops).routed.chained in
      (built, build_chain-phases (plugin_filters r.regs) r.filter_defaults r.current.chain q built)

  -- After any operations on a new manager, whatever the packages hold: each filter of the phase
  -- `authenticate` of the live chain is one whose plugin may set identities.
  pub managed_authenticate :
      (raw : RawSupervisorConfig) (ops : List Operation)
      → All
          (λ f. f.allow_identity_mutation ≡ true)
          ((perform_all decode sha256 ops
              (new_manager raw new_registry)).registry.current.chain.phases
            Phase.authenticate)
  managed_authenticate raw ops =
      let r = (perform_all decode sha256 ops (new_manager raw new_registry)).registry in
      let routed = (managed raw ops).routed in
      rw
        (build_chain-phases (plugin_filters r.regs) r.filter_defaults r.current.chain
          Phase.authenticate routed.chained)
        (All-sort_filters MaySetIdentity _ (
          declared-MaySetIdentity r.filter_defaults (plugin_filters r.regs)
            (plugin_filters-IsKnownPlugin r.regs routed.sound)))
