-- ===== src/Pipeline/Context/Cache.antt =====
-- The cached wire form of the headers (`wireHeaders` in core/pipeline/context.go).
use moduless.Base.{ℕ, ◌≡◌, ◌⊎◌, Bool, true, [], ◌∷◌, Option, none, some, Bytes, Dict, arith, pos}
use moduless.Pipeline.Headers.{to_proto_headers}
use moduless.Pipeline.Context.{
  Phase, RequestContext, RequestMutation, BodyNeeds, build_filter_request, mutate_headers,
  mutate_path, mutate_identity, apply_mutation, set_value, set_values, is_response_phase,
}

-- The cache is empty or holds the headers' wire form.
abbrev pub IsCoherent : RequestContext → Type 0
IsCoherent rc = (rc.proto_headers ≡ none) ⊎ (rc.proto_headers ≡ some (to_proto_headers rc.header))

-- A filter is sent the request's present headers, and the cache stays coherent.
pub build_filter_request-headers :
    (phase : Phase) (f : BodyNeeds) (elapsed : ℕ) (rc : RequestContext)
    → IsCoherent rc
    → ((build_filter_request phase f elapsed rc).0.headers ≡ to_proto_headers rc.header)
      × IsCoherent (build_filter_request phase f elapsed rc).1
unfolding build_filter_request
build_filter_request-headers phase f elapsed rc c = ground arith

set_values-IsCoherent :
    (m : Dict Bytes) (rc : RequestContext) → IsCoherent rc → IsCoherent (set_values m rc)
unfolding set_values
set_values-IsCoherent [] rc c = c
set_values-IsCoherent ((k, v) ∷ m) rc c = set_values-IsCoherent m (set_value k v rc) c

mutate-IsCoherent :
    (m : RequestMutation) (phase : Phase) (allow_identity : Bool) (rc : RequestContext)
    → IsCoherent
        (mutate_identity m allow_identity (mutate_path m phase (mutate_headers m phase rc)))
unfolding mutate_identity mutate_path mutate_headers
mutate-IsCoherent m phase allow_identity rc = ground arith

-- A mutation never leaves a stale cache behind.
pub apply_mutation-IsCoherent :
    (m : Option RequestMutation) (phase : Phase) (allow_identity : Bool) (rc : RequestContext)
    → IsCoherent rc
    → IsCoherent (apply_mutation m phase allow_identity rc)
unfolding apply_mutation
apply_mutation-IsCoherent none phase allow_identity rc c = c
apply_mutation-IsCoherent (some m) phase allow_identity rc c =
    set_values-IsCoherent m.set_context _ (mutate-IsCoherent m phase allow_identity rc)

-- A filter that did not ask for a body is sent none, and before the backend has run nobody is sent
-- anything of the response.
pub build_filter_request-bodies :
    (phase : Phase) (f : BodyNeeds) (elapsed : ℕ) (rc : RequestContext)
    → let req = (build_filter_request phase f elapsed rc).0 in
      ((f.needs_request_body ≡ true) ⊎ (req.body ≡ []))
      × ((f.needs_response_body ≡ true) ⊎ (req.upstream_body ≡ []))
      × ((is_response_phase phase ≡ true) ⊎ (req.upstream_status ≡ pos 0))
      × ((is_response_phase phase ≡ true) ⊎ (req.upstream_headers ≡ []))
      × ((is_response_phase phase ≡ true) ⊎ (req.upstream_body ≡ []))
unfolding build_filter_request
build_filter_request-bodies phase f elapsed rc = ground arith
