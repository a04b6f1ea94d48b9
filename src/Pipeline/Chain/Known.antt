-- ===== src/Pipeline/Chain/Known.antt =====
-- `BuildChain` of core/pipeline/chain.go on filters whose phases `Validate` of manifest/plugin.go lets
-- through.
use moduless.Base.{
  ◌≡◌, refl, inl, inr, sym, ◌∙◌, Bool, true, false, Option, none, some, List, [], ◌∷◌, arith, Bytes,
  ◌=?◌, bytes, mem_bytes, =?→≡, All, All-append, Bool-cases, if◌then◌else◌,
}
use moduless.Manifest.Filters.{CompiledFilter}
use moduless.Manifest.Plugin.{known_phases}
use moduless.Pipeline.Context.{Phase}
use moduless.Pipeline.Chain.{
  Filter, same_phase, Defaults, PluginFilters, Chain, empty_chain, phase_from_name, make_filter,
  add_filter, add_filters, add_plugins, sort_chain, build_chain,
}
use moduless.Pipeline.Chain.Build.{
  declared, declared_by, is_declared_in, add_filters-some, add_plugins-some,
}

-- The phase is known, and in `authenticate` only where the plugin may set identities.
pub record IsKnown (allow : Bool) (cf : CompiledFilter) : Type 0 where
  pub known : mem_bytes known_phases cf.decl.phase ≡ true
  pub allowed : cf.decl.phase =? bytes "authenticate" ≡ true → allow ≡ true

abbrev pub IsKnownPlugin : PluginFilters → Type 0
IsKnownPlugin p = All (IsKnown p.allow_identity_mutation) p.filters

mem_bytes-All :
    (P : Bytes → Type 0) (names : List Bytes) (name : Bytes)
    → All P names
    → mem_bytes names name ≡ true
    → P name
unfolding mem_bytes
mem_bytes-All P [] name h e = absurd (ground (arith, e))
mem_bytes-All P (n ∷ names) name h e = elim (Bool-cases (n =? name)) [
  | inl q ↦ rw (sym (=?→≡ n name q)) h.0
  | inr q ↦ mem_bytes-All P names name h.1 (ground (arith, e, q))
]

abbrev HasPhase : Bytes → Type 0
HasPhase name = (q : Phase) × (phase_from_name name ≡ some q)

phase_from_name-known :
    (name : Bytes)
    → mem_bytes known_phases name ≡ true
    → (q : Phase) × (phase_from_name name ≡ some q)
unfolding phase_from_name mem_bytes
phase_from_name-known name h =
    mem_bytes-All HasPhase known_phases name
      ((_, refl), ((_, refl), ((_, refl), ((_, refl), ((_, refl), ((_, refl), ((_, refl), tt)))))))
      h

-- `phase_from_name`, on the answers of its tests.
abbrev phase_of : Bool → Bool → Bool → Bool → Bool → Bool → Bool → Option Phase
phase_of a b c d e f g =
    if a
    then some Phase.pre_route
    else if b
    then some Phase.authenticate
    else if c
    then some Phase.authorize
    else if d
    then some Phase.pre_handler
    else if e
    then some Phase.post_handler
    else if f
    then some Phase.on_error
    else if g
    then some Phase.log
    else none

abbrev is_authenticate : Option Phase → Bool
is_authenticate none = false
is_authenticate (some phase) = same_phase phase Phase.authenticate

phase_of-authenticate :
    (a b c d e f g : Bool) → is_authenticate (phase_of a b c d e f g) ≡ true → b ≡ true
phase_of-authenticate a true c d e f g h = refl
phase_of-authenticate true false c d e f g h = absurd (cc)
phase_of-authenticate false false true d e f g h = absurd (cc)
phase_of-authenticate false false false true e f g h = absurd (cc)
phase_of-authenticate false false false false true f g h = absurd (cc)
phase_of-authenticate false false false false false true g h = absurd (cc)
phase_of-authenticate false false false false false false true h = absurd (cc)
phase_of-authenticate false false false false false false false h = absurd (cc)

is_declared_in-authenticate :
    (cf : CompiledFilter)
    → is_declared_in Phase.authenticate cf ≡ true
    → cf.decl.phase =? bytes "authenticate" ≡ true
unfolding phase_from_name
is_declared_in-authenticate cf h =
    let name = cf.decl.phase in
    phase_of-authenticate (name =? bytes "pre_route") (name =? bytes "authenticate")
      (name =? bytes "authorize") (name =? bytes "pre_handler") (name =? bytes "post_handler")
      (name =? bytes "on_error") (name =? bytes "log") h

add_filters-known :
    (d : Defaults) (p : PluginFilters) (cfs : List CompiledFilter) (c : Chain)
    → All (IsKnown p.allow_identity_mutation) cfs
    → (c' : Chain) × (add_filters d p cfs c ≡ some c')
unfolding add_filters
add_filters-known d p [] c h = (c, refl)
add_filters-known d p (cf ∷ cfs) c h =
    let (phase, e) = phase_from_name-known cf.decl.phase h.0.known in
    let (c', f) = add_filters-known d p cfs (add_filter phase (make_filter d p cf) c) h.1 in
    (c', add_filters-some d p cf cfs c phase e ∙ f)

add_plugins-known :
    (d : Defaults) (ps : List PluginFilters) (c : Chain)
    → All IsKnownPlugin ps
    → (c' : Chain) × (add_plugins d ps c ≡ some c')
unfolding add_plugins
add_plugins-known d [] c h = (c, refl)
add_plugins-known d (p ∷ ps) c h =
    let (m, e) = add_filters-known d p p.filters c h.0 in
    let (c', f) = add_plugins-known d ps m h.1 in (c', add_plugins-some d p ps c m e ∙ f)

pub build_chain-known :
    (ps : List PluginFilters) (d : Defaults)
    → All IsKnownPlugin ps
    → (c : Chain) × (build_chain ps d ≡ some c)
unfolding build_chain
build_chain-known ps d h =
    let (m, e) = add_plugins-known d ps empty_chain h in (sort_chain m, rw (e, build_chain) refl)

abbrev pub MaySetIdentity : Filter → Type 0
MaySetIdentity f = f.allow_identity_mutation ≡ true

declared_by-MaySetIdentity :
    (d : Defaults) (p : PluginFilters) (cfs : List CompiledFilter)
    → All (IsKnown p.allow_identity_mutation) cfs
    → All MaySetIdentity (declared_by d Phase.authenticate p cfs)
unfolding declared_by make_filter
declared_by-MaySetIdentity d p [] h = tt
declared_by-MaySetIdentity d p (cf ∷ cfs) h =
    elim (Bool-cases (is_declared_in Phase.authenticate cf)) [
      | inl e ↦
          rw e
            (h.0.allowed (is_declared_in-authenticate cf e), declared_by-MaySetIdentity d p cfs h.1)
      | inr e ↦ rw e (declared_by-MaySetIdentity d p cfs h.1)
    ]

pub declared-MaySetIdentity :
    (d : Defaults) (ps : List PluginFilters)
    → All IsKnownPlugin ps
    → All MaySetIdentity (declared d Phase.authenticate ps)
unfolding declared
declared-MaySetIdentity d [] h = tt
declared-MaySetIdentity d (p ∷ ps) h =
    All-append MaySetIdentity (declared_by d Phase.authenticate p p.filters)
      (declared d Phase.authenticate ps) (declared_by-MaySetIdentity d p p.filters h.0)
      (declared-MaySetIdentity d ps h.1)
