-- ===== src/Gateway/Serve/Answered.antt =====
-- What a caller is answered, and what the log is told of it (core/gateway/plugin_handler.go).
use moduless.Base.{
  has_prefix, ℕ, ◌≤◌, Bool, true, false, ◌&&◌, ◌||◌, negate, Bytes, bytes, Option, none, some, ℤ,
  ◌≡◌, refl, sym, arith, Bool-cases, Option-cases, inl, inr, ◌⊎◌, pos, negsuc, ltb_ℤ, eq_ℤ, leb_ℤ,
}
use moduless.Pipeline.Context.{
  for_async, Phase, pre_route, authenticate, authorize, pre_handler, post_handler, on_error,
}
use moduless.Pipeline.Chain.{Chain}
use moduless.Pipeline.Runner.{HttpResponse, Plugins, RunState}
use moduless.Gateway.Handler.{
  Body, HttpRequest, User, Backends, Sent, Exchange, Backed, replied, broken, unavailable,
  read_body, with_context, with_status, write_response, write_final, refuse, text_response,
}
use moduless.Gateway.Routes.{split_plugin_path, plugin_api_prefix, normalize_status}
use moduless.Gateway.Backend.{call_backend}
use moduless.Gateway.Serve.Phases.{guard-rule}
use moduless.Gateway.Serve.{
  guard, fail_with, conclude, route_to, route, check_identity, serve_plugin, with_body,
  after_pre_route, answer, serve, has_identity, resolve_session, is_configured, unavailable_text,
}

-- A status from 100 to 599.
abbrev pub IsStatus : ℤ → Type 0
IsStatus status = (n : ℕ) × (status ≡ pos n) × (100 ≤ n) × (n ≤ 599)

normalize_status-bounds : (c : ℤ) → IsStatus (normalize_status c)
unfolding normalize_status
normalize_status-bounds (pos n) = elim (Bool-cases (eq_ℤ (pos n) (pos 0))) [
  | inl e ↦ rw e (200, refl, omega arith, omega arith)
  | inr e ↦ elim (Bool-cases (ltb_ℤ (pos n) (pos 100) || ltb_ℤ (pos 599) (pos n))) [
    | inl q ↦ rw e (rw q (502, refl, omega arith, omega arith))
    | inr q ↦ rw e (rw q (n, refl, ground (arith, q), ground (arith, q)))
  ]
]
normalize_status-bounds (negsuc n) = (502, ground arith, omega arith, omega arith)

normalize_status_twice : (c : ℤ) → normalize_status (normalize_status c) ≡ normalize_status c
unfolding normalize_status
normalize_status_twice c = ground arith

-- A response has been written, with a status that `WriteHeader` accepts. It is the one in the
-- context, in its normal form, unless the path names no plugin.
pub record IsAnswered {W : Type 0} (e : Exchange W) : Type 0 where
  pub response : Sent
  pub written : e.sent ≡ some response
  pub accepted : IsStatus response.status
  pub recorded :
      (response.status ≡ normalize_status (e.state).context.response_status)
      ⊎ ((split_plugin_path (e.state).context.path ≡ none) × (response.status ≡ pos 404))

module _ {W : Type 0} where
  write_response-IsAnswered :
      (resp : HttpResponse) (e : Exchange W) → IsAnswered (write_response resp e)
  unfolding write_response
  write_response-IsAnswered resp e =
      let range = normalize_status-bounds resp.status_code in
      record {
        response = record {
          status = normalize_status resp.status_code;
          headers = resp.headers;
          body = resp.body;
        };
        written = refl;
        accepted = range;
        recorded = inl (sym (normalize_status_twice resp.status_code));
      }

  write_final-IsAnswered : (e : Exchange W) → IsAnswered (write_final e)
  unfolding write_final
  write_final-IsAnswered e =
      let range = normalize_status-bounds (e.state).context.response_status in
      record { response = _; written = refl; accepted = range; recorded = inl refl }

  -- A refusal with a status that is its own normal form.
  refuse-IsAnswered :
      (status : ℤ) (message : Bytes) (e : Exchange W)
      → normalize_status status ≡ status
      → IsAnswered (refuse status message e)
  refuse-IsAnswered status message e h =
      let range = normalize_status-bounds status in
      record {
        response = text_response status message;
        written = refl;
        accepted = rw h at range;
        recorded = inl (sym h);
      }

module _ {W T : Type 0} (P : Plugins W T) (B : Backends W T) (chain : Chain)
    (resolve : Option (Bytes → Option User)) where
  guard-IsAnswered :
      (phase : Phase) (k : Exchange W → Exchange W) (e : Exchange W)
      → ((s : RunState W)
          → (s.context).response_status ≡ ((e.state).context).response_status
          → IsAnswered (k (record e { state = s })))
      → IsAnswered (guard P B chain resolve phase k e)
  guard-IsAnswered phase k e rest =
      guard-rule P B chain resolve IsAnswered phase k e
        (λ resp s. write_response-IsAnswered resp (record e { state = s }))
        (λ s h. rest s h.same_status)

  fail_with-IsAnswered :
      (status : ℤ) (message : Bytes) (e : Exchange W)
      → normalize_status status ≡ status
      → IsAnswered (fail_with P B chain resolve status message e)
  unfolding fail_with
  fail_with-IsAnswered status message e h =
      let range = normalize_status-bounds status in
      guard-IsAnswered on_error (λ x. record x { sent = some (text_response status message) })
        (with_status status e)
        λ s q. record {
          response = text_response status message;
          written = refl;
          accepted = rw h at range;
          recorded = inl (rw q (sym h));
        }

  post-IsAnswered :
      (e : Exchange W) → IsAnswered (guard P B chain resolve post_handler write_final e)
  post-IsAnswered e =
      guard-IsAnswered post_handler write_final e
        (λ s q. write_final-IsAnswered (record e { state = s }))

  error-IsAnswered :
      (e : Exchange W)
      → IsAnswered
          (guard P B chain resolve on_error (guard P B chain resolve post_handler write_final) e)
  error-IsAnswered e =
      guard-IsAnswered on_error (guard P B chain resolve post_handler write_final) e
        (λ s q. post-IsAnswered (record e { state = s }))

  conclude-IsAnswered :
      (key : Bytes) (x : Backed × Exchange W) → IsAnswered (conclude P B chain resolve key x)
  unfolding conclude
  conclude-IsAnswered key (broken text, e) =
      fail_with-IsAnswered (pos 502) text e (unfold normalize_status in refl)
  conclude-IsAnswered key (unavailable true, e) =
      fail_with-IsAnswered (pos 404) (unavailable_text key true) e (unfold normalize_status in refl)
  conclude-IsAnswered key (unavailable false, e) =
      fail_with-IsAnswered (pos 503) (unavailable_text key false) e
        (unfold normalize_status in refl)
  conclude-IsAnswered key (replied resp, e) = elim (Bool-cases (leb_ℤ (pos 500) resp.status_code)) [
    | inl q ↦ rw q (error-IsAnswered _)
    | inr q ↦ rw q (post-IsAnswered _)
  ]

  route-IsAnswered : (e : Exchange W) → IsAnswered (route P B chain resolve e)
  unfolding route
  route-IsAnswered e = elim (Option-cases (split_plugin_path (e.state).context.path)) [
    | inl q ↦
        rw (q, route_to)
          (record {
            response = text_response (pos 404) (bytes "404 page not found");
            written = refl;
            accepted = (404, refl, omega arith, omega arith);
            recorded = inr (q, refl);
          })
    | inr ((key, sub), q) ↦ rw (q, route_to) (conclude-IsAnswered key (call_backend P B key sub e))
  ]

  check_identity-IsAnswered : (e : Exchange W) → IsAnswered (check_identity P B chain resolve e)
  unfolding check_identity
  check_identity-IsAnswered e =
      elim (Bool-cases (is_configured resolve && negate (has_identity (e.state).context))) [
        | inl q ↦ rw q (
            refuse-IsAnswered (pos 401) (bytes "unauthenticated") e
              (unfold normalize_status in refl))
        | inr q ↦ rw q (
            guard-IsAnswered pre_handler (route P B chain resolve) e
              (λ s h. route-IsAnswered (record e { state = s })))
      ]

  serve_plugin-IsAnswered :
      (token : Bytes) (e : Exchange W) → IsAnswered (serve_plugin P B chain resolve token e)
  unfolding serve_plugin
  serve_plugin-IsAnswered token e =
      let e' : Exchange W = with_context (resolve_session P B chain resolve token) e in
      let k : Exchange W → Exchange W =
        guard P B chain resolve authorize (check_identity P B chain resolve) in
      guard-IsAnswered authenticate k e' λ s h.
        guard-IsAnswered authorize (check_identity P B chain resolve) (record e' { state = s })
          λ s' h'. check_identity-IsAnswered (record e' { state = s' })

  with_body-IsAnswered :
      (max : ℤ) (wanted : Bool) (body : Body) (e : Exchange W) (k : Exchange W → Exchange W)
      → ((x : Exchange W) → IsAnswered (k x))
      → IsAnswered (with_body P B chain resolve max wanted body e k)
  unfolding with_body
  with_body-IsAnswered max false body e k rest = rest e
  with_body-IsAnswered max true body e k rest = elim (Option-cases (read_body max body)) [
    | inl q ↦
        rw (q, with_body)
          (refuse-IsAnswered (pos 413) (bytes "request body too large") e
            (unfold normalize_status in refl))
    | inr (b, q) ↦ rw (q, with_body) (rest (with_context (λ rc. record rc { request_body = b }) e))
  ]

  -- Every request for a plugin is answered, at whichever point it ends, with a status that
  -- `WriteHeader` accepts, however the plugins answer; and the log phase is told of that status,
  -- up to its normal form, unless the path that the filters leave names no plugin.
  pub serve-IsAnswered :
      (next : HttpRequest → W → Sent × W) (max : ℤ) (fresh : Bytes) (r : HttpRequest) (w : W)
      → has_prefix r.path plugin_api_prefix ≡ true
      → IsAnswered ((serve P B chain resolve next max fresh r w).exchange)
        × (((serve P B chain resolve next max fresh r w).logged).response_status
            ≡ (((serve P B chain resolve next max fresh r w).exchange.state).context
              ).response_status
                )
  unfolding serve answer for_async
  serve-IsAnswered next max fresh r w h =
      let buffered = chain.any_needs_request_body || has_prefix r.path plugin_api_prefix in
      (
        with_body-IsAnswered max buffered r.body _
            (guard P B chain resolve pre_route
              (after_pre_route P B chain resolve next max r buffered))
            λ x.
              guard-IsAnswered pre_route (after_pre_route P B chain resolve next max r buffered) x
                λ s q.
                  unfold after_pre_route in
                  rw h (serve_plugin-IsAnswered r.token (record x { state = s })),
        refl,
      )
