-- ===== src/Gateway/Handler.antt =====
-- The path of a request through core/gateway/plugin_handler.go. `Backends` is the routing table
-- with the plugin processes behind it, `next` the rest of the gateway, and `resolve` is `h.Auth`, with
-- `none` for a nil one.
use moduless.Base.{
  ℕ, ◌*◌, ◌^◌, Bool, List, [], ◌∷◌, ◌++◌, if◌then◌else◌, ltb, Bytes, bytes, length, Option, none,
  some, ℤ, default_unless_pos,
}
use moduless.Pipeline.Headers.{Headers, from_proto_headers}
use moduless.Pipeline.Context.{Identity, RequestContext}
use moduless.Pipeline.Runner.{HttpResponse, RunState}
use moduless.Gateway.Routes.{normalize_status}

-- The body of a request: none, one that arrives, or one that breaks off.
pub data Body : Type 0 where
  no_body : Body
  arrives : Bytes → Body
  breaks_off : Body

-- `token` is `SessionToken`.
pub record HttpRequest : Type 0 where
  pub method : Bytes
  pub path : Bytes
  pub query : Bytes
  pub header : Headers
  pub body : Body
  pub token : Bytes
  pub client_ip : Bytes

pub record User : Type 0 where
  pub ident : ℕ
  pub username : Bytes
  pub role : Bytes

-- What is sent to a plugin's `HandleHTTP`.
pub record BackendRequest : Type 0 where
  pub trace_id : Bytes
  pub method : Bytes
  pub path : Bytes
  pub query : Bytes
  pub headers : Headers
  pub body : Bytes
  pub identity : Option Identity
  pub client_ip : Bytes

pub data Answer : Type 0 where
  failed : Bytes → Answer
  answered : HttpResponse → Answer

-- `pick` is the snapshot's, `pick_live` that of the registry's current snapshot.
pub record Backends (W T : Type 0) : Type 0 where
  pub pick : Bytes → W → Option T × W
  pub pick_live : Bytes → W → Option T × W
  pub same : T → T → Bool
  pub handle : T → BackendRequest → W → Answer × W

-- A response as it is written.
pub record Sent : Type 0 where
  pub status : ℤ
  pub headers : Headers
  pub body : Bytes

-- A request on its way; `calls` holds what was sent to plugins' backends.
pub record Exchange (W : Type 0) : Type 0 where
  pub state : RunState W
  pub sent : Option Sent
  pub calls : List BackendRequest

-- What is left of a request: the context that the log phase gets, and the reservations freed at
-- its end.
pub record Served (W : Type 0) : Type 0 where
  pub exchange : Exchange W
  pub logged : RequestContext
  pub released : List Bytes
  pub request_id : Bytes

-- How a call of a backend ends.
pub data Backed : Type 0 where
  replied : HttpResponse → Backed
  broken : Bytes → Backed
  unavailable : Bool → Backed

abbrev pub default_max_request_body : ℕ
default_max_request_body = 8 * 2 ^ 20

-- `readBody`; none is an error.
unfoldable pub read_body : ℤ → Body → Option Bytes
read_body max no_body = some []
read_body max breaks_off = none
read_body max (arrives b) =
    if ltb (default_unless_pos default_max_request_body max) (length b) then none else some b

-- `http.Error`.
abbrev pub text_response : ℤ → Bytes → Sent
text_response status message = record {
  status = status;
  headers =
      (bytes "Content-Type", bytes "text/plain; charset=utf-8" ∷ [])
      ∷ (bytes "X-Content-Type-Options", bytes "nosniff" ∷ [])
      ∷ [];
  body = message ++ (b'\n' ∷ []);
}

module _ {W : Type 0} where
  abbrev pub with_context : (RequestContext → RequestContext) → Exchange W → Exchange W
  with_context f e = record e { state = record e.state { context = f e.state.context } }

  abbrev pub with_status : ℤ → Exchange W → Exchange W
  with_status status = with_context (λ rc. record rc { response_status = status })

  -- `writeResponse`.
  unfoldable pub write_response : HttpResponse → Exchange W → Exchange W
  unfolding normalize_status from_proto_headers
  write_response resp e =
      let status = normalize_status resp.status_code in
      let e' =
        with_context
          (λ rc. record rc {
            response_status = status;
            response_header = from_proto_headers resp.headers;
            response_body = resp.body;
          })
          e in
      record e' {
        sent = some (record { status = status; headers = resp.headers; body = resp.body });
      }

  -- `writeFinal`.
  unfoldable pub write_final : Exchange W → Exchange W
  unfolding normalize_status
  write_final e = record e {
    sent = some (record {
      status = normalize_status (e.state).context.response_status;
      headers = (e.state).context.response_header;
      body = (e.state).context.response_body;
    });
  }

  -- A refusal that Core writes itself, with its status recorded.
  abbrev pub refuse : ℤ → Bytes → Exchange W → Exchange W
  refuse status message e = record (with_status status e) {
    sent = some (text_response status message);
  }

  -- `if out.Stopped() { writeResponse; return }`, and what follows.
  unfoldable pub unless_stopped :
      Option HttpResponse × RunState W → Exchange W → (Exchange W → Exchange W) → Exchange W
  unfolding write_response
  unless_stopped (some resp, s) e k = write_response resp (record e { state = s })
  unless_stopped (none, s) e k = k (record e { state = s })
