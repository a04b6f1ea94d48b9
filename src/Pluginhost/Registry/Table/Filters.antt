-- ===== src/Pluginhost/Registry/Table/Filters.antt =====
-- The filters of a snapshot, after the call of `Install` with which core/pluginhost/supervisor.go
-- brings a crashed plugin back.
use moduless.Base.{
  ℕ, ◌≡◌, ◌≢◌, false, none, some, List, [], ◌∷◌, arith, All, All-append, Bytes, ◌=?◌, =?→≡, Dict,
  lookup, lookup-insert_self, lookup-erase, HasUniqueKeys, Bool-cases, inl, inr, Option-cases,
  =?_refl,
}
use moduless.Manifest.Filters.{CompiledFilter}
use moduless.Pipeline.Context.{Phase}
use moduless.Pipeline.Chain.{
  Filter, Defaults, PluginFilters, Chain, empty_chain, build_chain, make_filter,
}
use moduless.Pipeline.Chain.Order.{All-sort_filters}
use moduless.Pipeline.Chain.Build.{declared, declared_by, is_declared_in, build_chain-phases}
use moduless.Pluginhost.Registry.Table.{
  Registration, Registry, has_filters, plugin_filters, rebuild_chain, register, rebuild,
  install_plugin, install, bare,
}
use moduless.Pluginhost.Registry.Table.Mirror.{IsValid, register-HasUniqueKeys}

-- The filter is another plugin's.
abbrev pub IsOther : Bytes → Filter → Type 0
IsOther key f = f.plugin_key ≢ key

declared_by-IsOther :
    (key : Bytes) (d : Defaults) (q : Phase) (p : PluginFilters) (cfs : List CompiledFilter)
    → p.key ≢ key
    → All (IsOther key) (declared_by d q p cfs)
unfolding declared_by make_filter
declared_by-IsOther key d q p [] n = tt
declared_by-IsOther key d q p (cf ∷ cfs) n = elim (Bool-cases (is_declared_in q cf)) [
  | inl e ↦ rw e (n, declared_by-IsOther key d q p cfs n)
  | inr e ↦ rw e (declared_by-IsOther key d q p cfs n)
]

declared-IsOther :
    (key : Bytes) (d : Defaults) (q : Phase) (ps : List PluginFilters)
    → All (λ p. p.key ≢ key) ps
    → All (IsOther key) (declared d q ps)
unfolding declared
declared-IsOther key d q [] h = tt
declared-IsOther key d q (p ∷ ps) h =
    All-append (IsOther key) (declared_by d q p p.filters) (declared d q ps)
      (declared_by-IsOther key d q p p.filters h.0) (declared-IsOther key d q ps h.1)

-- No filters are registered for the key.
abbrev IsSilent : Bytes → Dict Registration → Type 0
IsSilent key regs =
    (reg : Registration) → lookup key regs ≡ some reg → has_filters reg.filters ≡ false

plugin_filters-IsSilent :
    (key : Bytes) (regs : Dict Registration)
    → HasUniqueKeys regs
    → IsSilent key regs
    → All (λ p. p.key ≢ key) (plugin_filters regs)
unfolding plugin_filters lookup
plugin_filters-IsSilent key [] u s = tt
plugin_filters-IsSilent key ((k, reg) ∷ regs) u s =
    let rest : IsSilent key regs = λ reg' e. elim (Bool-cases (k =? key)) [
      | inl q ↦ absurd (cc (rw (=?→≡ k key q) at u.0, e))
      | inr q ↦ s reg' (ground (arith, q, e))
    ] in
    elim (Bool-cases (has_filters reg.filters)) [
      | inr e ↦ rw e (plugin_filters-IsSilent key regs u.1 rest)
      | inl e ↦ rw e (
        λ (same : k ≡ key). absurd (cc (e, s reg (ground (arith, same, =?_refl key)))),
        plugin_filters-IsSilent key regs u.1 rest,
      )
    ]

rebuild_chain-some :
    (regs : Dict Registration) (d : Defaults) (c : Chain)
    → build_chain (plugin_filters regs) d ≡ some c
    → rebuild_chain regs d ≡ c
unfolding rebuild_chain
rebuild_chain-some regs d c e = rw (e, rebuild_chain)

rebuild_chain-none :
    (regs : Dict Registration) (d : Defaults)
    → build_chain (plugin_filters regs) d ≡ none
    → rebuild_chain regs d ≡ empty_chain
unfolding rebuild_chain
rebuild_chain-none regs d e = rw (e, rebuild_chain)

rebuild_chain-IsSilent :
    (key : Bytes) (regs : Dict Registration) (d : Defaults) (q : Phase)
    → HasUniqueKeys regs
    → IsSilent key regs
    → All (IsOther key) ((rebuild_chain regs d).phases q)
rebuild_chain-IsSilent key regs d q u s =
    elim (Option-cases (build_chain (plugin_filters regs) d)) [
      | inl e ↦ rw (rebuild_chain-none regs d e) tt
      | inr (c, e) ↦ rw (rebuild_chain-some regs d c e) (
          rw (build_chain-phases (plugin_filters regs) d c q e) (
            All-sort_filters (IsOther key) _ (
              declared-IsOther key d q (plugin_filters regs)
                (plugin_filters-IsSilent key regs u s))))
    ]

bare-IsSilent :
    (key : Bytes) (is : List ℕ) (regs : Dict Registration)
    → IsSilent key (register (bare key is) regs)
unfolding register
bare-IsSilent key [] regs reg e = ground (arith, e, lookup-erase key key regs, =?_refl key)
bare-IsSilent key (i ∷ is) regs reg e =
    ground (arith, e, lookup-insert_self key (bare key (i ∷ is)) regs)

-- A call of `Install` leaves its plugin without filters, in every phase of the next snapshot, whatever
-- filters it had before.
pub install_drops_filters :
    (key : Bytes) (instances : List ℕ) (r : Registry) (q : Phase)
    → IsValid r
    → All (λ f. f.plugin_key ≢ key) ((install key instances r).1.current.chain.phases q)
unfolding install install_plugin rebuild
install_drops_filters key instances r q v =
    rebuild_chain-IsSilent key (register (bare key instances) r.regs) r.filter_defaults q
      (register-HasUniqueKeys (bare key instances) r.regs v.unique)
      (bare-IsSilent key instances r.regs)
