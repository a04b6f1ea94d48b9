-- ===== src/Pipeline/Chain/Build.antt =====
-- What `BuildChain` of core/pipeline/chain.go puts where.
use mathlib.Core.List.{Perm}
use mathlib.Core.Option.{some-injective}
use moduless.Base.{
  ◌≡◌, inl, inr, sym, ◌∙◌, ap, Bool, false, List, [], ◌∷◌, ◌++◌, append_assoc, append-nil, none,
  some, arith, Bool-cases, Option-cases, if◌then◌else◌,
}
use moduless.Manifest.Filters.{CompiledFilter}
use moduless.Pipeline.Context.{Phase}
use moduless.Pipeline.Chain.{
  Filter, Defaults, PluginFilters, Chain, empty_chain, phase_from_name, make_filter, same_phase,
  add_filter, add_filters, add_plugins, sort_filters, sort_chain, build_chain,
}
use moduless.Pipeline.Chain.Order.{
  IsOrdered, IsSorted-IsOrdered, sort_filters-IsSorted, sort_filters-perm,
}

-- The declaration names the phase.
abbrev pub is_declared_in : Phase → CompiledFilter → Bool
is_declared_in q cf = elim (phase_from_name cf.decl.phase) [
  | none ↦ false
  | some phase ↦ same_phase phase q
]

-- The filters that a plugin declares for a phase, in the order of its manifest.
unfoldable pub declared_by : Defaults → Phase → PluginFilters → List CompiledFilter → List Filter
unfolding make_filter
declared_by d q p [] = []
declared_by d q p (cf ∷ cfs) =
    if is_declared_in q cf
    then make_filter d p cf ∷ declared_by d q p cfs
    else declared_by d q p cfs

-- Those of all plugins.
unfoldable pub declared : Defaults → Phase → List PluginFilters → List Filter
unfolding declared_by
declared d q [] = []
declared d q (p ∷ ps) = declared_by d q p p.filters ++ declared d q ps

pub add_filters-some :
    (d : Defaults) (p : PluginFilters) (cf : CompiledFilter) (cfs : List CompiledFilter) (c : Chain)
    (phase : Phase)
    → phase_from_name cf.decl.phase ≡ some phase
    → add_filters d p (cf ∷ cfs) c ≡ add_filters d p cfs (add_filter phase (make_filter d p cf) c)
unfolding add_filters
add_filters-some d p cf cfs c phase e = rw (e, add_filters)

add_filters-none :
    (d : Defaults) (p : PluginFilters) (cf : CompiledFilter) (cfs : List CompiledFilter) (c : Chain)
    → phase_from_name cf.decl.phase ≡ none
    → add_filters d p (cf ∷ cfs) c ≡ none
unfolding add_filters
add_filters-none d p cf cfs c e = rw (e, add_filters)

-- One filter more in its phase.
add_filter-phases :
    (d : Defaults) (q : Phase) (p : PluginFilters) (cf : CompiledFilter) (cfs : List CompiledFilter)
    (c : Chain) (phase : Phase)
    → phase_from_name cf.decl.phase ≡ some phase
    → (add_filter phase (make_filter d p cf) c).phases q ++ declared_by d q p cfs
      ≡ c.phases q ++ declared_by d q p (cf ∷ cfs)
unfolding add_filter declared_by
add_filter-phases d q p cf cfs c phase e = elim (Bool-cases (same_phase phase q)) [
  | inl s ↦
      ground
        (arith, e, s, append_assoc (c.phases q) (make_filter d p cf ∷ []) (declared_by d q p cfs))
  | inr s ↦ ground (arith, e, s)
]

add_filters-phases :
    (d : Defaults) (q : Phase) (p : PluginFilters) (cfs : List CompiledFilter) (c c' : Chain)
    → add_filters d p cfs c ≡ some c'
    → c'.phases q ≡ c.phases q ++ declared_by d q p cfs
unfolding add_filters declared_by
add_filters-phases d q p [] c c' h =
    rw append-nil (ap (λ (t : Chain). t.phases q) (sym (some-injective _ _ h)))
add_filters-phases d q p (cf ∷ cfs) c c' h = elim (Option-cases (phase_from_name cf.decl.phase)) [
  | inl e ↦ cc (add_filters-none d p cf cfs c e)
  | inr (phase, e) ↦
      add_filters-phases d q p cfs (add_filter phase (make_filter d p cf) c) c'
        (sym (add_filters-some d p cf cfs c phase e) ∙ h)
      ∙ add_filter-phases d q p cf cfs c phase e
]

pub add_plugins-some :
    (d : Defaults) (p : PluginFilters) (ps : List PluginFilters) (c m : Chain)
    → add_filters d p p.filters c ≡ some m
    → add_plugins d (p ∷ ps) c ≡ add_plugins d ps m
unfolding add_plugins
add_plugins-some d p ps c m e = rw (e, add_plugins)

add_plugins-none :
    (d : Defaults) (p : PluginFilters) (ps : List PluginFilters) (c : Chain)
    → add_filters d p p.filters c ≡ none
    → add_plugins d (p ∷ ps) c ≡ none
unfolding add_plugins
add_plugins-none d p ps c e = rw (e, add_plugins)

add_plugins-phases :
    (d : Defaults) (q : Phase) (ps : List PluginFilters) (c c' : Chain)
    → add_plugins d ps c ≡ some c'
    → c'.phases q ≡ c.phases q ++ declared d q ps
unfolding add_plugins declared
add_plugins-phases d q [] c c' h =
    rw append-nil (ap (λ (t : Chain). t.phases q) (sym (some-injective _ _ h)))
add_plugins-phases d q (p ∷ ps) c c' h = elim (Option-cases (add_filters d p p.filters c)) [
  | inl e ↦ cc (add_plugins-none d p ps c e)
  | inr (m, e) ↦
      add_plugins-phases d q ps m c' (sym (add_plugins-some d p ps c m e) ∙ h)
      ∙ ap (λ t. t ++ declared d q ps) (add_filters-phases d q p p.filters c m e)
      ∙ append_assoc (c.phases q) (declared_by d q p p.filters) (declared d q ps)
]

build_chain_inv :
    (ps : List PluginFilters) (d : Defaults) (c : Chain)
    → build_chain ps d ≡ some c
    → (m : Chain) × (add_plugins d ps empty_chain ≡ some m) × (c ≡ sort_chain m)
unfolding build_chain
build_chain_inv ps d c h = elim (Option-cases (add_plugins d ps empty_chain)) [
  | inl e ↦ absurd (ground (arith, e))
  | inr (m, e) ↦ (m, e, ground (arith, e))
]

-- Each phase of a built chain holds exactly the filters that the plugins declare for it, sorted.
pub build_chain-phases :
    (ps : List PluginFilters) (d : Defaults) (c : Chain) (q : Phase)
    → build_chain ps d ≡ some c
    → c.phases q ≡ sort_filters (declared d q ps)
build_chain-phases ps d c q h =
    let (m, e, s) = build_chain_inv ps d c h in
    ap (λ (t : Chain). t.phases q) s ∙ ap sort_filters (add_plugins-phases d q ps empty_chain m e)

-- In each phase of a built chain the filters are in order, by the declared order, then the plugin's
-- key, then the name, and they are a permutation of those that the plugins declare for the phase.
pub build_chain-order :
    (ps : List PluginFilters) (d : Defaults) (c : Chain) (q : Phase)
    → build_chain ps d ≡ some c
    → IsOrdered (c.phases q) × Perm (c.phases q) (declared d q ps)
build_chain-order ps d c q h = rw (build_chain-phases ps d c q h) (
  IsSorted-IsOrdered _ (sort_filters-IsSorted (declared d q ps)),
  sort_filters-perm (declared d q ps),
)
