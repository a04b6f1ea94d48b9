-- ===== src/Pipeline/Chain.antt =====
-- core/pipeline/chain.go: the per-phase filter table. Times are nanoseconds; `int` values are
-- integers. `sort.SliceStable` is a stable insertion sort by the same comparison.
use moduless.Base.{
  ℕ, zero, suc, ◌+◌, ◌*◌, Bool, true, false, ◌||◌, ◌&&◌, negate, Option, none, some, List, [], ◌∷◌,
  ◌++◌, if◌then◌else◌, ltb, leb, ◌==◌, length, Bytes, bytes, ◌=?◌, is_empty, ℤ, pos, negsuc,
  default_unless_pos, int64,
}
use moduless.Manifest.Filters.{FilterDecl, CompiledFilter, matches}
use moduless.Pipeline.Context.{
  Phase, unspecified, pre_route, authenticate, authorize, pre_handler, post_handler, on_error, log,
}
pub mod Order
pub mod Build
pub mod Known
mod Tests

pub record Defaults : Type 0 where
  pub timeout : ℤ
  pub max_body_bytes : ℤ

pub record Filter : Type 0 where
  pub plugin_key : Bytes
  pub name : Bytes
  pub order : ℤ
  pub decl : FilterDecl
  pub match : CompiledFilter
  pub timeout : ℤ
  pub max_body : ℕ
  pub allow_identity_mutation : Bool

pub record PluginFilters : Type 0 where
  pub key : Bytes
  pub filters : List CompiledFilter
  pub allow_identity_mutation : Bool

pub record Chain : Type 0 where
  pub phases : Phase → List Filter
  pub any_needs_request_body : Bool
  pub max_request_body : ℕ
  pub any_needs_response_body : Bool

-- `EmptyChain`.
abbrev pub empty_chain : Chain
empty_chain = record {
  phases = λ phase. [];
  any_needs_request_body = false;
  max_request_body = 0;
  any_needs_response_body = false;
}

-- `Filter.Matches`.
unfoldable pub filter_matches : Filter → Bytes → Bytes → Bool
unfolding matches
filter_matches f method path = matches f.match method path

-- `Label`.
unfoldable pub label : Filter → Bytes
label f =
    if negate (is_empty f.name)
    then f.plugin_key ++ b'/' ∷ f.name
    else f.plugin_key ++ b'/' ∷ f.decl.phase

-- `phaseFromName`; `none` is the error.
unfoldable pub phase_from_name : Bytes → Option Phase
unfolding ◌=?◌
phase_from_name name =
    if name =? bytes "pre_route"
    then some pre_route
    else if name =? bytes "authenticate"
    then some authenticate
    else if name =? bytes "authorize"
    then some authorize
    else if name =? bytes "pre_handler"
    then some pre_handler
    else if name =? bytes "post_handler"
    then some post_handler
    else if name =? bytes "on_error"
    then some on_error
    else if name =? bytes "log"
    then some log
    else none

-- 50 * time.Millisecond, and 1 << 20.
abbrev pub default_timeout : ℕ
default_timeout = 50_000_000

abbrev pub default_max_body : ℕ
default_max_body = 1_048_576

abbrev pub millisecond : ℕ
millisecond = 1_000_000

-- `time.Duration(TimeoutMS) * time.Millisecond` if `TimeoutMS` is positive; it wraps around.
unfoldable pub timeout_of : ℕ → ℤ → ℤ
unfolding int64
timeout_of d (pos zero) = pos d
timeout_of d (pos (suc n)) = int64 (pos (suc n * millisecond))
timeout_of d (negsuc n) = pos d

-- The body of the inner loop of `BuildChain` up to the record `f`.
unfoldable pub make_filter : Defaults → PluginFilters → CompiledFilter → Filter
unfolding timeout_of
make_filter d p cf = record {
  plugin_key = p.key;
  name = cf.decl.name;
  order = cf.decl.order;
  decl = cf.decl;
  match = cf;
  timeout = timeout_of (default_unless_pos default_timeout d.timeout) cf.decl.timeout_ms;
  max_body =
      default_unless_pos (default_unless_pos default_max_body d.max_body_bytes)
        cf.decl.max_body_bytes;
  allow_identity_mutation = p.allow_identity_mutation;
}

-- The numbers of the enumeration.
abbrev pub phase_index : Phase → ℕ
phase_index unspecified = 0
phase_index pre_route = 1
phase_index authenticate = 2
phase_index authorize = 3
phase_index pre_handler = 4
phase_index post_handler = 5
phase_index on_error = 6
phase_index log = 7

abbrev pub same_phase : Phase → Phase → Bool
same_phase a b = phase_index a == phase_index b

-- The rest of the inner loop: the flags, and the append to the phase's slice.
unfoldable pub add_filter : Phase → Filter → Chain → Chain
add_filter phase f c = record {
  phases = λ q. if same_phase phase q then c.phases q ++ f ∷ [] else c.phases q;
  any_needs_request_body = f.decl.needs_request_body || c.any_needs_request_body;
  max_request_body =
      if f.decl.needs_request_body && ltb c.max_request_body f.max_body
      then f.max_body
      else c.max_request_body;
  any_needs_response_body = f.decl.needs_response_body || c.any_needs_response_body;
}

-- The inner loop of `BuildChain`; `none` is an unknown phase.
unfoldable pub add_filters : Defaults → PluginFilters → List CompiledFilter → Chain → Option Chain
unfolding phase_from_name make_filter add_filter
add_filters d p [] c = some c
add_filters d p (cf ∷ cfs) c = elim (phase_from_name cf.decl.phase) [
  | none ↦ none
  | some phase ↦ add_filters d p cfs (add_filter phase (make_filter d p cf) c)
]

-- The outer loop.
unfoldable pub add_plugins : Defaults → List PluginFilters → Chain → Option Chain
unfolding add_filters
add_plugins d [] c = some c
add_plugins d (p ∷ ps) c = elim (add_filters d p p.filters c) [
  | none ↦ none
  | some c' ↦ add_plugins d ps c'
]

-- `a < b` on strings.
unfoldable pub lt_bytes : Bytes → Bytes → Bool
lt_bytes [] [] = false
lt_bytes [] (d ∷ t) = true
lt_bytes (c ∷ s) [] = false
lt_bytes (c ∷ s) (d ∷ t) = ltb c d || (c == d) && lt_bytes s t

-- `a < b` and `a == b` on `int`.
abbrev pub lt_int : ℤ → ℤ → Bool
lt_int (pos a) (pos b) = ltb a b
lt_int (pos a) (negsuc b) = false
lt_int (negsuc a) (pos b) = true
lt_int (negsuc a) (negsuc b) = ltb b a

abbrev pub eq_int : ℤ → ℤ → Bool
eq_int (pos a) (pos b) = a == b
eq_int (pos a) (negsuc b) = false
eq_int (negsuc a) (pos b) = false
eq_int (negsuc a) (negsuc b) = a == b

-- The `less` of `sort.SliceStable`.
unfoldable pub less : Filter → Filter → Bool
unfolding lt_bytes ◌=?◌
less a b =
    if negate (eq_int a.order b.order)
    then lt_int a.order b.order
    else if negate (a.plugin_key =? b.plugin_key)
    then lt_bytes a.plugin_key b.plugin_key
    else lt_bytes a.name b.name

-- `f` goes in front of the first filter that is not less than it, so equal filters keep their order.
unfoldable pub place : Filter → List Filter → List Filter
unfolding less
place f [] = f ∷ []
place f (g ∷ gs) = if less g f then g ∷ place f gs else f ∷ g ∷ gs

unfoldable pub sort_filters : List Filter → List Filter
unfolding place
sort_filters [] = []
sort_filters (f ∷ fs) = place f (sort_filters fs)

abbrev pub sort_chain : Chain → Chain
sort_chain c = record c { phases = λ phase. sort_filters (c.phases phase) }

-- `BuildChain`.
unfoldable pub build_chain : List PluginFilters → Defaults → Option Chain
unfolding add_plugins sort_filters
build_chain plugins d = elim (add_plugins d plugins empty_chain) [
  | none ↦ none
  | some c ↦ some (sort_chain c)
]

abbrev is_nil : List Filter → Bool
is_nil [] = true
is_nil (f ∷ fs) = false

-- `HasPhase` and `Filters`; every phase of the model is an index of the array.
unfoldable pub has_phase : Chain → Phase → Bool
has_phase c phase = negate (is_nil (c.phases phase))
