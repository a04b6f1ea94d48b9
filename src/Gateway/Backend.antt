-- ===== src/Gateway/Backend.antt =====
-- The call of a plugin's backend: `callBackend` and `dispatch` of core/gateway/plugin_handler.go.
use moduless.Base.{
  Bool, true, false, negate, [], ◌∷◌, ◌++◌, if◌then◌else◌, Bytes, Option, none, some,
}
use moduless.Pipeline.Headers.{to_proto_headers}
use moduless.Pipeline.Context.{RequestContext, admit}
use moduless.Pipeline.Runner.{Plugins}
use moduless.Gateway.Handler.{
  BackendRequest, Answer, failed, answered, Backends, Exchange, Backed, replied, broken,
  unavailable,
}

module _ {W T : Type 0} (P : Plugins W T) (B : Backends W T) where
  -- `Admit` of the key, on an instance.
  unfoldable pub admit_on : T → Bytes → Exchange W → Bool × Exchange W
  unfolding admit
  admit_on t key e =
      let (begun, w) = P.begin t (e.state).world in
      let (admitted, asked, rc) = admit key begun (e.state).context in
      (
        admitted,
        record e {
          state = record e.state { context = rc; world = if asked then w else (e.state).world };
        },
      )

  abbrev pub backend_request : Bytes → RequestContext → BackendRequest
  backend_request sub rc = record {
    trace_id = rc.trace_id;
    method = rc.method;
    path = sub;
    query = rc.query;
    headers = to_proto_headers rc.header;
    body = rc.request_body;
    identity = rc.identity;
    client_ip = rc.client_ip;
  }

  -- The end of `dispatch`.
  unfoldable pub record_answer : T → Answer × W → Exchange W → Backed × Exchange W
  record_answer t (failed text, w) e =
      (broken text, record e { state = record e.state { world = P.record_failure t w } })
  record_answer t (answered resp, w) e =
      (replied resp, record e { state = record e.state { world = P.record_success t w } })

  unfoldable pub dispatch : T → Bytes → Exchange W → Backed × Exchange W
  unfolding record_answer
  dispatch t sub e =
      let req = backend_request sub (e.state).context in
      record_answer t (B.handle t req (e.state).world) (record e { calls = e.calls ++ (req ∷ []) })

  -- `if admitted { return dispatch }`, and what follows.
  unfoldable pub dispatch_if :
      T → Bytes → Bool × Exchange W → (Exchange W → Backed × Exchange W) → Backed × Exchange W
  unfolding dispatch
  dispatch_if t sub (true, e) k = dispatch t sub e
  dispatch_if t sub (false, e) k = k e

  abbrev pub is_other : Option T → T → Bool
  is_other none next = true
  is_other (some t) next = negate (B.same next t)

  -- The second attempt, against the live registry.
  unfoldable pub retry_with :
      Option T → Bytes → Bytes → Option T × W → Exchange W → Backed × Exchange W
  unfolding admit_on dispatch_if
  retry_with first key sub (none, w) e =
      (unavailable true, record e { state = record e.state { world = w } })
  retry_with first key sub (some next, w) e =
      let e' = record e { state = record e.state { world = w } } in
      if is_other first next
      then dispatch_if next sub (admit_on next key e') (λ x. (unavailable false, x))
      else (unavailable false, e')

  unfoldable pub retry : Option T → Bytes → Bytes → Exchange W → Backed × Exchange W
  unfolding retry_with
  retry first key sub e = retry_with first key sub (B.pick_live key (e.state).world) e

  unfoldable pub call_with : Bytes → Bytes → Option T × W → Exchange W → Backed × Exchange W
  unfolding admit_on dispatch_if retry
  call_with key sub (none, w) e =
      retry none key sub (record e { state = record e.state { world = w } })
  call_with key sub (some t, w) e =
      dispatch_if t sub (admit_on t key (record e { state = record e.state { world = w } }))
        (retry (some t) key sub)

  -- `callBackend`.
  unfoldable pub call_backend : Bytes → Bytes → Exchange W → Backed × Exchange W
  unfolding call_with
  call_backend key sub e = call_with key sub (B.pick key (e.state).world) e
