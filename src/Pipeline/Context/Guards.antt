-- ===== src/Pipeline/Context/Guards.antt =====
-- What a filter's mutation can and cannot change (`applyMutation` in core/pipeline/context.go).
use moduless.Base.{
  ◌≡◌, ◌⊎◌, refl, Bool, true, false, [], ◌∷◌, Option, none, some, Bytes, Dict, arith,
}
use moduless.Pipeline.Context.{
  Phase, RequestContext, RequestMutation, is_response_phase, set_value, set_values, mutate_headers,
  mutate_path, mutate_identity, apply_mutation,
}

-- `set_values` writes the context values and nothing else.
set_values-frame :
    (m : Dict Bytes) (rc : RequestContext)
    → set_values m rc ≡ record rc { values = (set_values m rc).values }
unfolding set_values
set_values-frame [] rc = refl
set_values-frame ((k, v) ∷ m) rc = set_values-frame m (set_value k v rc)

-- What stays as it is, for a phase and a gate on identity.
pub record Keeps (phase : Phase) (allow_identity : Bool) (rc rc' : RequestContext) : Type 0 where
  pub same_trace : rc'.trace_id ≡ rc.trace_id
  pub same_method : rc'.method ≡ rc.method
  pub same_query : rc'.query ≡ rc.query
  pub same_client : rc'.client_ip ≡ rc.client_ip
  pub same_request_body : rc'.request_body ≡ rc.request_body
  pub same_status : rc'.response_status ≡ rc.response_status
  pub same_response_body : rc'.response_body ≡ rc.response_body
  pub identity_gated : (allow_identity ≡ true) ⊎ (rc'.identity ≡ rc.identity)
  pub path_final : (is_response_phase phase ≡ false) ⊎ (rc'.path ≡ rc.path)
  pub response_pending :
      (is_response_phase phase ≡ true) ⊎ (rc'.response_header ≡ rc.response_header)

pub Keeps-refl :
    (phase : Phase) (allow_identity : Bool) (rc : RequestContext) → Keeps phase allow_identity rc rc
Keeps-refl phase allow_identity rc = ground arith

pub Keeps-trans :
    (phase : Phase) (allow_identity : Bool) (a b c : RequestContext)
    → Keeps phase allow_identity a b
    → Keeps phase allow_identity b c
    → Keeps phase allow_identity a c
Keeps-trans phase allow_identity a b c h k = ground arith

mutate-Keeps :
    (m : RequestMutation) (phase : Phase) (allow_identity : Bool) (rc : RequestContext)
    → Keeps phase allow_identity rc
        (mutate_identity m allow_identity (mutate_path m phase (mutate_headers m phase rc)))
unfolding mutate_identity mutate_path mutate_headers
mutate-Keeps m phase allow_identity rc = ground arith

-- A mutation never changes the method, the query, the client, the bodies or the status; it changes
-- the identity only through the gate, the path only before the backend has run and the response
-- headers only afterwards.
pub apply_mutation-Keeps :
    (m : Option RequestMutation) (phase : Phase) (allow_identity : Bool) (rc : RequestContext)
    → Keeps phase allow_identity rc (apply_mutation m phase allow_identity rc)
unfolding apply_mutation
apply_mutation-Keeps none phase allow_identity rc = Keeps-refl phase allow_identity rc
apply_mutation-Keeps (some m) phase allow_identity rc =
    rw (set_values-frame m.set_context _) (ground (arith, mutate-Keeps m phase allow_identity rc))
