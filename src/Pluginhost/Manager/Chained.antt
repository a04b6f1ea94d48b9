-- ===== src/Pluginhost/Manager/Chained.antt =====
-- The filter chain of the registry (core/pluginhost/registry.go) while its registrations are sound.
use moduless.Base.{
  ℕ, ◌≡◌, refl, inl, inr, sym, some, List, [], ◌∷◌, Bytes, ◌=?◌, All, Bool-cases, Dict, lookup,
  insert, erase,
}
use mathlib.Core.Option.{some-injective}
use moduless.Pipeline.Chain.{build_chain}
use moduless.Pipeline.Chain.Known.{IsKnown, IsKnownPlugin, build_chain-known}
use moduless.Pluginhost.Registry.Table.{
  Registration, Registry, new_registry, has_filters, plugin_filters, rebuild_chain, register,
  rebuild, install_plugin,
}
use moduless.Pluginhost.Package.{Package, allows_identity_mutation}

-- A package's filters are those that its permissions allow.
abbrev pub IsSoundPackage : Package → Type 0
IsSoundPackage p = All (IsKnown (allows_identity_mutation p)) p.filters

abbrev pub IsSound : Registration → Type 0
IsSound reg = All (IsKnown reg.allow_identity_mutation) reg.filters

module _ {V : Type 0} (P : V → Type 0) where
  abbrev pub AllValues : Dict V → Type 0
  AllValues [] = Unit
  AllValues ((k, v) ∷ m) = P v × AllValues m

  pub insert-AllValues :
      (k : Bytes) (v : V) (m : Dict V) → P v → AllValues m → AllValues (insert k v m)
  unfolding insert
  insert-AllValues k v [] p h = (p, tt)
  insert-AllValues k v ((j, w) ∷ m) p h = elim (Bool-cases (j =? k)) [
    | inl e ↦ rw e (p, h.1)
    | inr e ↦ rw e (h.0, insert-AllValues k v m p h.1)
  ]

  erase-AllValues : (k : Bytes) (m : Dict V) → AllValues m → AllValues (erase k m)
  unfolding erase
  erase-AllValues k [] h = tt
  erase-AllValues k ((j, w) ∷ m) h = elim (Bool-cases (j =? k)) [
    | inl e ↦ rw e (erase-AllValues k m h.1)
    | inr e ↦ rw e (h.0, erase-AllValues k m h.1)
  ]

  pub lookup-AllValues : (k : Bytes) (v : V) (m : Dict V) → AllValues m → lookup k m ≡ some v → P v
  unfolding lookup
  lookup-AllValues k v [] h e = absurd (cc)
  lookup-AllValues k v ((j, w) ∷ m) h e = elim (Bool-cases (j =? k)) [
    | inl q ↦ rw (sym (some-injective w v (rw q at e))) h.0
    | inr q ↦ lookup-AllValues k v m h.1 (rw q at e)
  ]

-- The chain of a registry is that of its registrations, which are sound.
pub record IsChained (r : Registry) : Type 0 where
  pub sound : AllValues IsSound r.regs
  pub chained : build_chain (plugin_filters r.regs) r.filter_defaults ≡ some r.current.chain

pub plugin_filters-IsKnownPlugin :
    (regs : Dict Registration) → AllValues IsSound regs → All IsKnownPlugin (plugin_filters regs)
unfolding plugin_filters
plugin_filters-IsKnownPlugin [] h = tt
plugin_filters-IsKnownPlugin ((key, reg) ∷ regs) h = elim (Bool-cases (has_filters reg.filters)) [
  | inl e ↦ rw e (h.0, plugin_filters-IsKnownPlugin regs h.1)
  | inr e ↦ rw e (plugin_filters-IsKnownPlugin regs h.1)
]

rebuild-IsChained : (r : Registry) → AllValues IsSound r.regs → IsChained (rebuild r)
unfolding rebuild rebuild_chain
rebuild-IsChained r h =
    let (c, e) =
      build_chain-known (plugin_filters r.regs) r.filter_defaults
        (plugin_filters-IsKnownPlugin r.regs h) in
    record { sound = h; chained = rw (e, rebuild_chain) refl }

register_from :
    (reg : Registration) (regs : Dict Registration)
    → IsSound reg
    → AllValues IsSound regs
    → (is : List ℕ) → reg.instances ≡ is
    → AllValues IsSound (register reg regs)
unfolding register
register_from reg regs s h [] e = rw (e, register) (erase-AllValues IsSound reg.key regs h)
register_from reg regs s h (i ∷ is) e =
    rw (e, register) (insert-AllValues IsSound reg.key reg regs s h)

register-AllValues :
    (reg : Registration) (regs : Dict Registration)
    → IsSound reg
    → AllValues IsSound regs
    → AllValues IsSound (register reg regs)
register-AllValues reg regs s h = register_from reg regs s h reg.instances refl

pub install_plugin-IsChained :
    (reg : Registration) (r : Registry)
    → IsSound reg
    → AllValues IsSound r.regs
    → IsChained (install_plugin reg r).1
unfolding install_plugin
install_plugin-IsChained reg r s h =
    rebuild-IsChained (record r { regs = register reg r.regs }) (register-AllValues reg r.regs s h)

pub new_registry-IsChained : IsChained new_registry
unfolding new_registry plugin_filters build_chain
new_registry-IsChained = record { sound = tt; chained = refl }
