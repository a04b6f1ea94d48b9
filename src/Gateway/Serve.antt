-- ===== src/Gateway/Serve.antt =====
-- `serve` and `servePlugin` of core/gateway/plugin_handler.go, and the call of a backend. The chain
-- is the one of the snapshot that the request was given.
pub mod Phases
pub mod Calls
pub mod Identified
pub mod Answered
mod Tests
use moduless.Base.{
  ℕ, Bool, true, false, ◌&&◌, ◌||◌, negate, List, [], ◌∷◌, ◌++◌, if◌then◌else◌, leb, Bytes, bytes,
  has_prefix, Option, none, some, ℤ, pos, negsuc, ltb_ℤ, eq_ℤ, leb_ℤ, ◌==◌, ltb,
}
use moduless.Db.Sql.{decimal}
use moduless.Pipeline.Headers.{Headers, from_proto_headers, to_proto_headers}
use moduless.Pipeline.Context.{
  Phase, pre_route, authenticate, authorize, pre_handler, post_handler, on_error, log, Identity,
  RequestContext, admit, for_async, release_admissions,
}
use moduless.Pipeline.Chain.{Chain, has_phase}
use moduless.Pipeline.Runner.{HttpResponse, Plugins, RunState, run}
use moduless.Gateway.Routes.{plugin_api_prefix, split_plugin_path, trace_id_for}
use moduless.Gateway.Backend.{call_backend}
use moduless.Gateway.Handler.{
  Body, HttpRequest, User, BackendRequest, Answer, failed, answered, Backends, Sent, Exchange,
  Served, Backed, replied, broken, unavailable, read_body, text_response, with_context, with_status,
  write_response, write_final, refuse, unless_stopped,
}

-- `NewRequestContext`; the clock is not part of it.
unfoldable pub new_request_context : Bytes → HttpRequest → RequestContext
new_request_context trace_id r = record {
  trace_id = trace_id;
  method = r.method;
  path = r.path;
  query = r.query;
  client_ip = r.client_ip;
  header = r.header;
  identity = none;
  values = [];
  request_body = [];
  response_status = pos 0;
  response_header = [];
  response_body = [];
  proto_headers = none;
  admissions = [];
}

-- The identity that a session resolves to.
unfoldable pub identity_of : User → Identity
unfolding decimal
identity_of u = record { user_id = decimal u.ident; username = u.username; roles = u.role ∷ [] }

abbrev pub has_identity : RequestContext → Bool
has_identity rc = elim rc.identity [ none ↦ false | some i ↦ true ]

abbrev pub is_configured {ℓ} : {A : Type ℓ} → Option A → Bool
is_configured none = false
is_configured (some a) = true

abbrev pub unavailable_text : Bytes → Bool → Bytes
unavailable_text key gone =
    bytes "plugin "
    ++ (key ++ (if gone then bytes " is not enabled" else bytes " is not accepting requests"))

module _ {W T : Type 0} (P : Plugins W T) (B : Backends W T) (chain : Chain)
    (resolve : Option (Bytes → Option User)) where
  -- A phase of the chain, and what follows it where it lets the request pass.
  unfoldable pub guard : Phase → (Exchange W → Exchange W) → Exchange W → Exchange W
  unfolding run unless_stopped
  guard phase k e = unless_stopped (run P (some chain) phase e.state) e k

  -- What `servePlugin` does with an error of the call.
  unfoldable pub fail_with : ℤ → Bytes → Exchange W → Exchange W
  unfolding guard
  fail_with status message e =
      guard on_error (λ x. record x { sent = some (text_response status message) })
        (with_status status e)

  unfoldable pub conclude : Bytes → Backed × Exchange W → Exchange W
  unfolding guard fail_with write_final from_proto_headers
  conclude key (broken text, e) = fail_with (pos 502) text e
  conclude key (unavailable gone, e) =
      fail_with (if gone then pos 404 else pos 503) (unavailable_text key gone) e
  conclude key (replied resp, e) =
      let e' =
        with_context
          (λ rc. record rc {
            response_status = resp.status_code;
            response_header = from_proto_headers resp.headers;
            response_body = resp.body;
          })
          e in
      let last = guard post_handler write_final in
      if leb_ℤ (pos 500) resp.status_code then guard on_error last e' else last e'

  unfoldable pub route_to : Option (Bytes × Bytes) → Exchange W → Exchange W
  unfolding call_backend conclude
  route_to none e = record e { sent = some (text_response (pos 404) (bytes "404 page not found")) }
  route_to (some (key, sub)) e = conclude key (call_backend P B key sub e)

  unfoldable pub route : Exchange W → Exchange W
  unfolding route_to split_plugin_path
  route e = route_to (split_plugin_path (e.state).context.path) e

  -- The refusal of a caller whom nobody could identify, and what follows it.
  unfoldable pub check_identity : Exchange W → Exchange W
  unfolding guard route
  check_identity e =
      if is_configured resolve && negate (has_identity (e.state).context)
      then refuse (pos 401) (bytes "unauthenticated") e
      else guard pre_handler route e

  -- The resolution of the session.
  unfoldable pub resolve_session : Bytes → RequestContext → RequestContext
  unfolding identity_of
  resolve_session token rc = elim resolve [
    | none ↦ rc
    | some f ↦ elim (f token) [ none ↦ rc | some u ↦ record rc { identity = some (identity_of u) } ]
  ]

  -- `servePlugin`.
  unfoldable pub serve_plugin : Bytes → Exchange W → Exchange W
  unfolding guard check_identity resolve_session
  serve_plugin token e =
      guard authenticate (guard authorize check_identity) (with_context (resolve_session token) e)

  -- A request that is not for a plugin: the rest of the gateway answers it, and its response is
  -- recorded where a later phase wants it.
  unfoldable pub hand_over : (HttpRequest → W → Sent × W) → HttpRequest → Exchange W → Exchange W
  unfolding release_admissions has_phase
  hand_over next r e =
      let (s, w) = next r (e.state).world in
      let free = with_context (λ rc. (release_admissions rc).1) e in
      let done = record free { state = record free.state { world = w }; sent = some s } in
      if negate (has_phase chain post_handler) && negate (has_phase chain log)
      then done
      else with_context
          (λ rc. record rc {
            response_status = s.status;
            response_header = s.headers;
            response_body = if chain.any_needs_response_body then s.body else [];
          })
          done

  abbrev is_plugin_path : Bytes → Bool
  is_plugin_path path = has_prefix path plugin_api_prefix

  -- `readBody`, where the body is wanted, and what follows where it can be read.
  unfoldable pub with_body : ℤ → Bool → Body → Exchange W → (Exchange W → Exchange W) → Exchange W
  unfolding read_body
  with_body max wanted body e k = if negate wanted then k e else elim (read_body max body) [
    | none ↦ refuse (pos 413) (bytes "request body too large") e
    | some b ↦ k (with_context (λ rc. record rc { request_body = b }) e)
  ]

  -- What follows the phase before routing.
  unfoldable pub after_pre_route :
      (HttpRequest → W → Sent × W) → ℤ → HttpRequest → Bool → Exchange W → Exchange W
  unfolding with_body serve_plugin hand_over
  after_pre_route next max r buffered e =
      if is_plugin_path r.path
      then serve_plugin r.token e
      else if is_plugin_path (e.state).context.path
      then with_body max (negate buffered) r.body e (serve_plugin r.token)
      else hand_over next r e

  -- `serve`, without the log phase.
  unfoldable pub answer : (HttpRequest → W → Sent × W) → ℤ → HttpRequest → Exchange W → Exchange W
  unfolding with_body guard after_pre_route
  answer next max r e =
      let buffered = chain.any_needs_request_body || is_plugin_path r.path in
      with_body max buffered r.body e (guard pre_route (after_pre_route next max r buffered))

  -- `serve`: the deferred log phase gets the context as the answer left it.
  unfoldable pub serve : (HttpRequest → W → Sent × W) → ℤ → Bytes → HttpRequest → W → Served W
  unfolding new_request_context trace_id_for answer for_async release_admissions
  serve next max fresh r w =
      let trace_id = trace_id_for r.header fresh in
      let start : Exchange W = record {
        state = record { context = new_request_context trace_id r; world = w; reports = [] };
        sent = none;
        calls = [];
      } in
      let e = answer next max r start in
      record {
        exchange = e;
        logged = for_async (e.state).context;
        released = (release_admissions (e.state).context).0;
        request_id = trace_id;
      }
