-- ===== src/Pipeline/Chain/Tests.antt =====
-- Runs of the filter table.
use mathlib.Core.List.{Perm}
use moduless.Base.{◌≡◌, List, Bytes, ℤ, false, true, refl, some, none, [], ◌∷◌, pos, negsuc, bytes}
use moduless.Manifest.Filters.{FilterDecl, CompiledFilter}
use moduless.Pipeline.Context.{authorize}
use moduless.Pipeline.Chain.{
  PluginFilters, Defaults, Chain, add_plugins, build_chain, empty_chain, sort_filters,
}
use moduless.Pipeline.Chain.Order.{IsOrdered}
use moduless.Pipeline.Chain.Build.{declared, build_chain-order}

abbrev decl_of : Bytes → ℤ → FilterDecl
decl_of name order = record {
  name = name;
  phase = bytes "authorize";
  match = record { paths = bytes "/**" ∷ []; methods = [] };
  order = order;
  fail_closed = true;
  timeout_ms = pos 0;
  needs_request_body = false;
  needs_response_body = false;
  max_body_bytes = pos 0;
}

abbrev compiled_of : Bytes → ℤ → CompiledFilter
compiled_of name order = record {
  decl = decl_of name order;
  paths = record { patterns = []; match_all = true };
  methods = none;
}

abbrev plugins : List PluginFilters
plugins =
    record {
      key = bytes "a";
      filters = compiled_of (bytes "late") (pos 9) ∷ compiled_of (bytes "early") (negsuc 0) ∷ [];
      allow_identity_mutation = false;
    }
    ∷ []

abbrev defaults : Defaults
defaults = record { timeout = pos 0; max_body_bytes = pos 0 }

abbrev built : Chain
unfolding add_plugins sort_filters
built = elim (build_chain plugins defaults) [ none ↦ empty_chain | some c ↦ c ]

built_ok : build_chain plugins defaults ≡ some built
unfolding build_chain
built_ok = refl

build_chain-order_example :
    IsOrdered (built.phases authorize)
    × Perm (built.phases authorize) (declared defaults authorize plugins)
build_chain-order_example = build_chain-order plugins defaults built authorize built_ok
