-- ===== src/Pluginhost/Manager/Rollback.antt =====
-- What `Enable`, `Upgrade` and `Disable` of core/pluginhost/manager.go start, route to, drain and kill.
use moduless.Base.{
  ℕ, zero, suc, ◌+◌, ◌≡◌, refl, ap, ◌∙◌, Bool, true, false, Option, none, some, List, [], ◌∷◌, ◌++◌,
  map, if◌then◌else◌, Bytes, ◌=?◌, lookup, Option-cases, inl, inr, append_assoc, append-nil,
}
use moduless.Manifest.Plugin.{replica_count}
use moduless.Pluginhost.Registry.Table.{replicas, remove, bare}
use moduless.Pluginhost.Registry.Table.Mirror.{IsValid, replicas-install_plugin}
use moduless.Pluginhost.Package.{Package, loaded}
use moduless.Pluginhost.Manager.{
  Manager, watch, drain, kill, launch_from, launch_all, enable, publish, upgrade, replace, disable,
  drain_displaced, drop_key, launch_failed, not_installed, registration,
}

-- The replicas that start, up to the first that does not.
abbrev pub begun : (ℕ → Option ℕ) → ℕ → ℕ → List ℕ
begun launch i zero = []
begun launch i (suc n) = elim (launch i) [ none ↦ [] | some inst ↦ inst ∷ begun launch (i + 1) n ]

-- All of them start.
abbrev pub all_start : (ℕ → Option ℕ) → ℕ → ℕ → Bool
all_start launch i zero = true
all_start launch i (suc n) = elim (launch i) [
  | none ↦ false
  | some inst ↦ all_start launch (i + 1) n
]

launch_from_lem :
    (launch : ℕ → Option ℕ) (i n : ℕ) (started : List ℕ)
    → launch_from launch i n started ≡ (
        if all_start launch i n
        then (some (started ++ begun launch i n), [])
        else (none, map kill (started ++ begun launch i n)))
unfolding launch_from
launch_from_lem launch i zero started = rw (append-nil started) refl
launch_from_lem launch i (suc n) started = elim (Option-cases (launch i)) [
  | inl e ↦ rw (e, launch_from, all_start, begun) (rw (append-nil started) refl)
  | inr (inst, e) ↦
      rw (e, launch_from, all_start, begun)
        (launch_from_lem launch (i + 1) n (started ++ inst ∷ [])
          ∙ rw (append_assoc started (inst ∷ []) (begun launch (i + 1) n)) refl)
]

-- The replicas of a package that start.
abbrev pub started : (ℕ → Option ℕ) → Package → List ℕ
started launch p = begun launch 0 (replica_count p.manifest)

abbrev pub is_up : (ℕ → Option ℕ) → Package → Bool
is_up launch p = all_start launch 0 (replica_count p.manifest)

launch_all-up :
    (launch : ℕ → Option ℕ) (p : Package)
    → is_up launch p ≡ true
    → launch_all launch p ≡ (some (started launch p), [])
unfolding launch_all
launch_all-up launch p u = launch_from_lem launch 0 (replica_count p.manifest) [] ∙ rw u refl

launch_all-down :
    (launch : ℕ → Option ℕ) (p : Package)
    → is_up launch p ≡ false
    → launch_all launch p ≡ (none, map kill (started launch p))
unfolding launch_all
launch_all-down launch p u = launch_from_lem launch 0 (replica_count p.manifest) [] ∙ rw u refl

-- Where the package is installed and one of its replicas does not start, `Enable` fails, kills
-- exactly those that started, and leaves the manager as it was.
pub enable_rolls_back :
    (launch : ℕ → Option ℕ) (key : Bytes) (p : Package) (m : Manager)
    → lookup key m.packages ≡ some p
    → is_up launch p ≡ false
    → enable launch key m ≡ (some launch_failed, map kill (started launch p), m)
unfolding enable
enable_rolls_back launch key p m e u =
    rw (e, enable, launch_all-down launch p u) (rw (launch_all-down launch p u) refl)

-- The same holds of `Upgrade`, for a package that loads.
pub upgrade_rolls_back :
    (launch : ℕ → Option ℕ) (key : Bytes) (p : Package) (m : Manager)
    → is_up launch p ≡ false
    → upgrade (loaded p) launch key m ≡ (some launch_failed, map kill (started launch p), m)
unfolding upgrade
upgrade_rolls_back launch key p m u =
    rw (upgrade, launch_all-down launch p u) (rw (launch_all-down launch p u) refl)

pub enable-publish :
    (launch : ℕ → Option ℕ) (key : Bytes) (p : Package) (m : Manager)
    → lookup key m.packages ≡ some p
    → is_up launch p ≡ true
    → enable launch key m ≡ publish key p (started launch p) m
unfolding enable
enable-publish launch key p m e u = rw (e, enable, launch_all-up launch p u) refl

pub enable-missing :
    (launch : ℕ → Option ℕ) (key : Bytes) (m : Manager)
    → lookup key m.packages ≡ none
    → enable launch key m ≡ (some not_installed, [], m)
unfolding enable
enable-missing launch key m e = rw (e, enable) refl

pub upgrade-replace :
    (launch : ℕ → Option ℕ) (key : Bytes) (p : Package) (m : Manager)
    → is_up launch p ≡ true
    → upgrade (loaded p) launch key m ≡ replace key p (started launch p) m
unfolding upgrade
upgrade-replace launch key p m u = rw (upgrade, launch_all-up launch p u) refl

-- `key` is routed to `instances`, and every other key as before.
abbrev pub IsRerouted : Bytes → List ℕ → Manager → Manager → Type 0
IsRerouted key instances m m' =
    (k : Bytes)
    → replicas m'.registry.sets m'.registry.current k
      ≡ (if key =? k then instances else replicas m.registry.sets m.registry.current k)

-- Where all replicas of a loaded package start, `Upgrade` succeeds, drains exactly the instances that
-- the key was routed to, watches the new ones, and routes that key, and no other, to the new ones.
pub upgrade_swaps :
    (launch : ℕ → Option ℕ) (key : Bytes) (p : Package) (m : Manager)
    → IsValid m.registry
    → is_up launch p ≡ true
    → let (err, effects, m') = upgrade (loaded p) launch key m in
      (err ≡ none)
      × (effects
          ≡ map drain (replicas m.registry.sets m.registry.current key)
            ++ map watch (started launch p))
      × IsRerouted key (started launch p) m m'
unfolding upgrade
upgrade_swaps launch key p m v u =
    rw (upgrade, launch_all-up launch p u)
      (
        refl,
        refl,
        λ k. replicas-install_plugin (registration key p (started launch p)) m.registry k v,
      )

-- Where all replicas of an installed package start, `Enable` succeeds, watches the new ones and routes
-- the key, and no other, to them. It drains and kills nothing, not even the instances
-- that the key was routed to before.
pub enable_reroutes :
    (launch : ℕ → Option ℕ) (key : Bytes) (p : Package) (m : Manager)
    → lookup key m.packages ≡ some p
    → IsValid m.registry
    → is_up launch p ≡ true
    → let (err, effects, m') = enable launch key m in
      (err ≡ none)
      × (effects ≡ map watch (started launch p))
      × IsRerouted key (started launch p) m m'
unfolding enable publish
enable_reroutes launch key p m e v u =
    rw (e, enable, launch_all-up launch p u)
      (
        refl,
        refl,
        λ k. replicas-install_plugin (registration key p (started launch p)) m.registry k v,
      )

pub drain_displaced_lem :
    (fails : ℕ → Bool) (key : Bytes) (displaced : List ℕ) (m : Manager)
    → let (err, effects, m') = drain_displaced fails key displaced m in
      (effects ≡ map drain displaced) × (m'.registry ≡ m.registry) × (m'.packages ≡ m.packages)
unfolding drain_displaced
drain_displaced_lem fails key [] m = (refl, refl, refl)
drain_displaced_lem fails key (i ∷ is) m = (refl, refl, refl)

-- `Disable` drains exactly the instances that the key was routed to, and afterwards routes no request
-- to them, and every other key as before.
pub disable_drains :
    (fails : ℕ → Bool) (key : Bytes) (m : Manager)
    → IsValid m.registry
    → let (err, effects, m') = disable fails key m in
      (effects ≡ map drain (replicas m.registry.sets m.registry.current key))
      × IsRerouted key [] m m'
unfolding disable remove
disable_drains fails key m v =
    let displaced = replicas m.registry.sets m.registry.current key in
    let m' = record m { registry = (remove key m.registry).1; enabled = drop_key key m.enabled } in
    let (effects, registry, packages) = drain_displaced_lem fails key displaced m' in
    (
      effects,
      λ k.
          ap (λ r. replicas r.sets r.current k) registry
          ∙ replicas-install_plugin (bare key []) m.registry k v,
    )
