-- ===== src/Pipeline/Context/Tests.antt =====
-- Runs of the request's state.
use moduless.Base.{inl, refl, true, false, some, none, [], ◌∷◌, bytes, pos}
use moduless.Pipeline.Context.{
  RequestContext, RequestMutation, BodyNeeds, authorize, apply_mutation,
}
use moduless.Pipeline.Context.Cache.{IsCoherent, apply_mutation-IsCoherent}

abbrev request : RequestContext
request = record {
  trace_id = [];
  method = bytes "GET";
  path = bytes "/x";
  query = [];
  client_ip = [];
  header = (bytes "Accept", bytes "*/*" ∷ []) ∷ [];
  identity = none;
  values = [];
  request_body = bytes "in";
  response_status = pos 200;
  response_header = [];
  response_body = bytes "out";
  proto_headers = none;
  admissions = [];
}

abbrev mutation : RequestMutation
mutation = record {
  set_request_headers = (bytes "x-a", bytes "1" ∷ []) ∷ [];
  remove_request_headers = bytes "accept" ∷ [];
  set_response_headers = [];
  remove_response_headers = [];
  rewrite_path = bytes "/y";
  set_identity = some (record { user_id = bytes "1"; username = bytes "root"; roles = [] });
  set_context = (bytes "k", bytes "v") ∷ [];
}

abbrev nothing_needed : BodyNeeds
nothing_needed = record {
  filter_name = bytes "f";
  needs_request_body = false;
  needs_response_body = false;
}

apply_mutation-IsCoherent_example :
    IsCoherent (apply_mutation (some mutation) authorize true request)
apply_mutation-IsCoherent_example =
    apply_mutation-IsCoherent (some mutation) authorize true request (inl refl)
