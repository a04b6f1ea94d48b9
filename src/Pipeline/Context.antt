-- ===== src/Pipeline/Context.antt =====
-- core/pipeline/context.go: the state that one request carries through the pipeline. The clock
-- reading behind `ElapsedMicros` is an argument. An admission is the key of the plugin that it is
-- held on; its release function belongs to the plugin host.
use moduless.Base.{
  ℕ, Bool, true, false, ◌&&◌, Option, none, some, List, [], ◌∷◌, if◌then◌else◌, negate, Bytes,
  is_empty, mem_bytes, Dict, insert, ℤ, pos, negsuc, ltb_ℤ, eq_ℤ, int32,
}
use moduless.Pipeline.Headers.{Headers, apply_header_mutation, to_proto_headers}
pub mod Cache
pub mod Guards
mod Tests

pub data Phase : Type 0 where
  unspecified pre_route authenticate authorize pre_handler post_handler on_error log : Phase

pub record Identity : Type 0 where
  pub user_id : Bytes
  pub username : Bytes
  pub roles : List Bytes

pub record RequestContext : Type 0 where
  pub trace_id : Bytes
  pub method : Bytes
  pub path : Bytes
  pub query : Bytes
  pub client_ip : Bytes
  pub header : Headers
  pub identity : Option Identity
  pub values : Dict Bytes
  pub request_body : Bytes
  pub response_status : ℤ
  pub response_header : Headers
  pub response_body : Bytes
  pub proto_headers : Option Headers
  pub admissions : List Bytes

pub record RequestMutation : Type 0 where
  pub set_request_headers : Headers
  pub remove_request_headers : List Bytes
  pub set_response_headers : Headers
  pub remove_response_headers : List Bytes
  pub rewrite_path : Bytes
  pub set_identity : Option Identity
  pub set_context : Dict Bytes

pub record FilterRequest : Type 0 where
  pub trace_id : Bytes
  pub phase : Phase
  pub method : Bytes
  pub path : Bytes
  pub query : Bytes
  pub headers : Headers
  pub client_ip : Bytes
  pub identity : Option Identity
  pub context : Dict Bytes
  pub elapsed_micros : ℕ
  pub filter_name : Bytes
  pub body : Bytes
  pub upstream_status : ℤ
  pub upstream_headers : Headers
  pub upstream_body : Bytes

-- `isResponsePhase`.
unfoldable pub is_response_phase : Phase → Bool
is_response_phase post_handler = true
is_response_phase on_error = true
is_response_phase log = true
is_response_phase _ = false

-- `identityMutationAllowed`.
unfoldable pub identity_mutation_allowed : Phase → Bool
identity_mutation_allowed authenticate = true
identity_mutation_allowed authorize = true
identity_mutation_allowed _ = false

-- `Admit`, given what `begin` would answer: the answer, whether `begin` is called, and the context
-- after it.
unfoldable pub admit : Bytes → Bool → RequestContext → Bool × Bool × RequestContext
unfolding mem_bytes
admit plugin_key begun rc =
    if mem_bytes rc.admissions plugin_key
    then (true, false, rc)
    else if negate begun
    then (false, true, rc)
    else (true, true, record rc { admissions = plugin_key ∷ rc.admissions })

-- `ForAsync`.
unfoldable pub for_async : RequestContext → RequestContext
for_async rc = record rc { proto_headers = none; admissions = [] }

-- `ReleaseAdmissions`: the keys whose reservation is released, and the context after it.
unfoldable pub release_admissions : RequestContext → List Bytes × RequestContext
release_admissions rc = (rc.admissions, record rc { admissions = [] })

-- `SetValue`; a nil map is the empty one.
unfoldable pub set_value : Bytes → Bytes → RequestContext → RequestContext
unfolding insert
set_value k v rc = record rc { values = insert k v rc.values }

-- `wireHeaders`.
unfoldable pub wire_headers : RequestContext → Headers × RequestContext
unfolding to_proto_headers
wire_headers rc = elim rc.proto_headers [
  | some cached ↦ (cached, rc)
  | none ↦
      (to_proto_headers rc.header, record rc { proto_headers = some (to_proto_headers rc.header) })
]

-- What `buildFilterRequest` reads of the filter's declaration.
pub record BodyNeeds : Type 0 where
  pub filter_name : Bytes
  pub needs_request_body : Bool
  pub needs_response_body : Bool

-- `buildFilterRequest`.
unfoldable pub build_filter_request :
    Phase → BodyNeeds → ℕ → RequestContext → FilterRequest × RequestContext
unfolding wire_headers is_response_phase to_proto_headers int32
build_filter_request phase f elapsed rc =
    let (headers, rc') = wire_headers rc in
    let response = is_response_phase phase in
    (
      record {
        trace_id = rc.trace_id;
        phase = phase;
        method = rc.method;
        path = rc.path;
        query = rc.query;
        headers = headers;
        client_ip = rc.client_ip;
        identity = rc.identity;
        context = rc.values;
        elapsed_micros = elapsed;
        filter_name = f.filter_name;
        body = if f.needs_request_body then rc.request_body else [];
        upstream_status = if response then int32 rc.response_status else pos 0;
        upstream_headers = if response then to_proto_headers rc.response_header else [];
        upstream_body = if response && f.needs_response_body then rc.response_body else [];
      },
      rc',
    )

-- The loop over `GetSetContext` in `applyMutation`.
unfoldable pub set_values : Dict Bytes → RequestContext → RequestContext
unfolding set_value
set_values [] rc = rc
set_values ((k, v) ∷ m) rc = set_values m (set_value k v rc)

abbrev pub is_set : Option Identity → Bool
is_set none = false
is_set (some id) = true

-- `applyMutation`, step by step.
unfoldable pub mutate_headers : RequestMutation → Phase → RequestContext → RequestContext
unfolding apply_header_mutation is_response_phase
mutate_headers m phase rc =
    let rc' = record rc {
      header = apply_header_mutation rc.header m.set_request_headers m.remove_request_headers;
      proto_headers = none;
    } in
    if is_response_phase phase
    then record rc' {
      response_header =
          apply_header_mutation rc.response_header m.set_response_headers m.remove_response_headers;
    }
    else rc'

unfoldable pub mutate_path : RequestMutation → Phase → RequestContext → RequestContext
unfolding is_response_phase
mutate_path m phase rc =
    if negate (is_empty m.rewrite_path) && negate (is_response_phase phase)
    then record rc { path = m.rewrite_path }
    else rc

unfoldable pub mutate_identity : RequestMutation → Bool → RequestContext → RequestContext
mutate_identity m allow_identity rc =
    if is_set m.set_identity && allow_identity then record rc { identity = m.set_identity } else rc

unfoldable pub apply_mutation :
    Option RequestMutation → Phase → Bool → RequestContext → RequestContext
unfolding mutate_headers mutate_path mutate_identity set_values
apply_mutation none phase allow_identity rc = rc
apply_mutation (some m) phase allow_identity rc =
    set_values m.set_context
      (mutate_identity m allow_identity (mutate_path m phase (mutate_headers m phase rc)))
