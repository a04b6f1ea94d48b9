-- ===== src/Pluginhost/Registry/Tests.antt =====
-- Runs of the registry.
use moduless.Base.{
  ℕ, ◌≡◌, ◌≢◌, refl, true, false, List, [], ◌∷◌, some, none, pos, bytes, arith, All, Bytes, ℤ,
  length,
}
use moduless.Manifest.Filters.{CompiledFilter}
use moduless.Pipeline.Context.{authenticate}
use moduless.Pluginhost.Instance.{Instance, ready, new_instance}
use moduless.Pluginhost.Registry.{zeros, pick, new_replica_set}
use moduless.Pluginhost.Registry.Turns.{weight_sum}
use moduless.Pluginhost.Registry.Balance.{weights, none_yet}
use moduless.Pluginhost.Registry.Fair.{turns, turns_fair}
use moduless.Pluginhost.Registry.Table.{
  Registration, Registry, new_registry, install_plugin, install, replicas, bare,
}
use moduless.Pluginhost.Registry.Table.Mirror.{
  IsValid, new_registry-IsValid, install_plugin-IsValid, install_all, assign_all,
  install_all-new_registry,
}
use moduless.Pluginhost.Registry.Table.Filters.{IsOther, install_drops_filters}

-- A ready instance of weight 3 at 0, others of weight 1.
abbrev heap : ℕ → Instance
heap i = record (new_instance [] [] [] (weight i)) { state = ready }
  where
    weight : ℕ → ℤ
    weight ℕ.zero = pos 3
    weight (ℕ.suc n) = pos 1

abbrev pair : List ℕ
pair = 0 ∷ 1 ∷ []

turns_fair_example :
    turns heap pair (weight_sum heap pair) (zeros pair) (none_yet pair)
    ≡ (zeros pair, weights heap pair)
unfolding new_instance
turns_fair_example = turns_fair heap pair (refl, (refl, tt)) (omega arith) (omega arith)

first_pick : (pick heap (new_replica_set pair)).0 ≡ some 0
unfolding pick new_replica_set new_instance
first_pick = refl

abbrev guard : CompiledFilter
guard = record {
  decl = record {
    name = bytes "guard";
    phase = bytes "authenticate";
    match = record { paths = bytes "/**" ∷ []; methods = [] };
    order = pos 1;
    fail_closed = true;
    timeout_ms = pos 0;
    needs_request_body = false;
    needs_response_body = false;
    max_body_bytes = pos 0;
  };
  paths = record { patterns = []; match_all = true };
  methods = none;
}

abbrev auth_plugin : Registration
auth_plugin = record {
  key = bytes "auth";
  instances = pair;
  filters = guard ∷ [];
  allow_identity_mutation = true;
}

abbrev serving : Registry
serving = (install_plugin auth_plugin new_registry).1

serving-IsValid : IsValid serving
serving-IsValid = install_plugin-IsValid auth_plugin new_registry new_registry-IsValid

guarded : length (serving.current.chain.phases authenticate) ≡ 1
unfolding install_plugin new_registry
guarded = refl

install_drops_filters_example :
    All
      (IsOther (bytes "auth"))
      ((install (bytes "auth") (2 ∷ []) serving).1.current.chain.phases authenticate)
install_drops_filters_example =
    install_drops_filters (bytes "auth") (2 ∷ []) serving authenticate serving-IsValid

install_all-new_registry_example :
    let r = install_all (auth_plugin ∷ bare (bytes "auth") (2 ∷ []) ∷ []) new_registry in
    replicas r.sets r.current (bytes "auth")
    ≡ assign_all (auth_plugin ∷ bare (bytes "auth") (2 ∷ []) ∷ []) (λ k. []) (bytes "auth")
install_all-new_registry_example =
    install_all-new_registry (auth_plugin ∷ bare (bytes "auth") (2 ∷ []) ∷ []) (bytes "auth")

a_not_auth : ◌≢◌ {A = Bytes} (bytes "a") (bytes "auth")
a_not_auth = ground arith
