-- ===== src/Gateway/Serve/Identified.antt =====
-- Who reaches a plugin through core/gateway/plugin_handler.go.
use moduless.Base.{
  has_prefix, Bool, true, false, ◌&&◌, ◌||◌, negate, List, [], ◌∷◌, if◌then◌else◌, Bytes, any,
  Option, none, some, ℤ, ◌≡◌, refl, arith, Bool-cases, Option-cases, inl, inr, pos, leb_ℤ,
}
use moduless.Pipeline.Context.{
  pre_route, authenticate, authorize, pre_handler, post_handler, on_error, log, RequestContext,
  identity_mutation_allowed,
}
use moduless.Pipeline.Context.Guards.{Keeps}
use moduless.Pipeline.Chain.{Filter, Chain, has_phase}
use moduless.Pipeline.Runner.{Plugins, allows_identity}
use moduless.Gateway.Handler.{
  Body, HttpRequest, User, Backends, Sent, Exchange, Backed, replied, broken, unavailable,
  read_body, with_context, with_status, write_response, write_final,
}
use moduless.Gateway.Backend.{call_backend}
use moduless.Gateway.Routes.{split_plugin_path, plugin_api_prefix}
use moduless.Gateway.Serve.Calls.{AllKnown, Known, call_backend-AllKnown}
use moduless.Gateway.Serve.Phases.{guard-rule}
use moduless.Gateway.Serve.{
  guard, fail_with, conclude, route_to, route, check_identity, serve_plugin, hand_over, with_body,
  after_pre_route, answer, serve, has_identity, resolve_session, is_configured, unavailable_text,
}

any_allows-pre_handler : (fs : List Filter) → any (allows_identity pre_handler) fs ≡ false
unfolding identity_mutation_allowed
any_allows-pre_handler [] = refl
any_allows-pre_handler (f ∷ fs) = ground (arith, any_allows-pre_handler fs)

stays_known :
    (fs : List Filter) (rc rc' : RequestContext)
    → Keeps pre_handler (any (allows_identity pre_handler) fs) rc rc'
    → is_configured rc.identity ≡ true
    → is_configured rc'.identity ≡ true
stays_known fs rc rc' k h = elim k.identity_gated [
  | inl x ↦ absurd (cc (x, any_allows-pre_handler fs))
  | inr x ↦ rw x h
]

module _ {W T : Type 0} (P : Plugins W T) (B : Backends W T) (chain : Chain)
    (resolve : Option (Bytes → Option User)) where
  fail_with-AllKnown :
      (status : ℤ) (message : Bytes) (e : Exchange W)
      → AllKnown e
      → AllKnown (fail_with P B chain resolve status message e)
  unfolding fail_with write_response
  fail_with-AllKnown status message e h =
      guard-rule P B chain resolve AllKnown on_error _ (with_status status e) (λ resp s. h)
        (λ s k. h)

  post-AllKnown :
      (e : Exchange W) → AllKnown e → AllKnown (guard P B chain resolve post_handler write_final e)
  unfolding write_response write_final
  post-AllKnown e h =
      guard-rule P B chain resolve AllKnown post_handler write_final e (λ resp s. h) (λ s k. h)

  error-AllKnown :
      (e : Exchange W)
      → AllKnown e
      → AllKnown
          (guard P B chain resolve on_error (guard P B chain resolve post_handler write_final) e)
  unfolding write_response
  error-AllKnown e h =
      guard-rule P B chain resolve AllKnown on_error
        (guard P B chain resolve post_handler write_final) e (λ resp s. h)
        (λ s k. post-AllKnown (record e { state = s }) h)

  conclude-AllKnown :
      (key : Bytes) (x : Backed × Exchange W)
      → AllKnown x.1
      → AllKnown (conclude P B chain resolve key x)
  unfolding conclude
  conclude-AllKnown key (broken text, e) h = fail_with-AllKnown (pos 502) text e h
  conclude-AllKnown key (unavailable gone, e) h =
      fail_with-AllKnown (if gone then (pos 404) else (pos 503)) (unavailable_text key gone) e h
  conclude-AllKnown key (replied resp, e) h = elim (Bool-cases (leb_ℤ (pos 500) resp.status_code)) [
    | inl q ↦ rw q (error-AllKnown _ h)
    | inr q ↦ rw q (post-AllKnown _ h)
  ]

  route-AllKnown : (e : Exchange W) → Known e → AllKnown (route P B chain resolve e)
  unfolding route
  route-AllKnown e h = go (split_plugin_path (e.state).context.path)
    where
      go : (o : Option (Bytes × Bytes)) → AllKnown (route_to P B chain resolve o e)
      go none = unfold route_to in h.0
      go (some (key, sub)) =
          unfold route_to in
          conclude-AllKnown key (call_backend P B key sub e) (call_backend-AllKnown P B key sub e h)

  check_identity-AllKnown :
      (e : Exchange W)
      → is_configured resolve ≡ true
      → AllKnown e
      → AllKnown (check_identity P B chain resolve e)
  unfolding check_identity write_response
  check_identity-AllKnown e c h = elim (Bool-cases (has_identity (e.state).context)) [
    | inl q ↦
        rw (c, q)
          (guard-rule P B chain resolve AllKnown pre_handler (route P B chain resolve) e
            (λ resp s. h)
            λ s k.
              route-AllKnown (record e { state = s })
                (h, stays_known (chain.phases pre_handler) (e.state).context s.context k q))
    | inr q ↦ rw (c, q) h
  ]

  authorize-AllKnown :
      (e : Exchange W)
      → is_configured resolve ≡ true
      → AllKnown e
      → AllKnown (guard P B chain resolve authorize (check_identity P B chain resolve) e)
  unfolding write_response
  authorize-AllKnown e c h =
      guard-rule P B chain resolve AllKnown authorize (check_identity P B chain resolve) e
        (λ resp s. h) (λ s k. check_identity-AllKnown (record e { state = s }) c h)

  serve_plugin-AllKnown :
      (token : Bytes) (e : Exchange W)
      → is_configured resolve ≡ true
      → AllKnown e
      → AllKnown (serve_plugin P B chain resolve token e)
  unfolding serve_plugin write_response
  serve_plugin-AllKnown token e c h =
      let e' : Exchange W = with_context (resolve_session P B chain resolve token) e in
      guard-rule P B chain resolve AllKnown authenticate
        (guard P B chain resolve authorize (check_identity P B chain resolve)) e' (λ resp s. h)
        (λ s k. authorize-AllKnown (record e' { state = s }) c h)

  hand_over-AllKnown :
      (next : HttpRequest → W → Sent × W) (r : HttpRequest) (e : Exchange W)
      → AllKnown e
      → AllKnown (hand_over P B chain resolve next r e)
  unfolding hand_over
  hand_over-AllKnown next r e h =
      elim (Bool-cases (negate (has_phase chain post_handler) && negate (has_phase chain log))) [
        | inl q ↦ rw q h
        | inr q ↦ rw q h
      ]

  with_body-AllKnown :
      (max : ℤ) (wanted : Bool) (body : Body) (e : Exchange W) (k : Exchange W → Exchange W)
      → AllKnown e
      → ((x : Exchange W) → AllKnown x → AllKnown (k x))
      → AllKnown (with_body P B chain resolve max wanted body e k)
  unfolding with_body
  with_body-AllKnown max false body e k h rest = rest e h
  with_body-AllKnown max true body e k h rest = elim (Option-cases (read_body max body)) [
    | inl q ↦ rw (q, with_body) h
    | inr (b, q) ↦
        rw (q, with_body) (rest (with_context (λ rc. record rc { request_body = b }) e) h)
  ]

  after_pre_route-AllKnown :
      (next : HttpRequest → W → Sent × W) (max : ℤ) (r : HttpRequest) (buffered : Bool)
      (e : Exchange W)
      → is_configured resolve ≡ true
      → AllKnown e
      → AllKnown (after_pre_route P B chain resolve next max r buffered e)
  unfolding after_pre_route
  after_pre_route-AllKnown next max r buffered e c h =
      elim (Bool-cases (has_prefix r.path plugin_api_prefix)) [
        | inl q ↦ rw q (serve_plugin-AllKnown r.token e c h)
        | inr q ↦ elim (Bool-cases (has_prefix (e.state).context.path plugin_api_prefix)) [
          | inl p ↦
              rw (q, p)
                (with_body-AllKnown max (negate buffered) r.body e
                  (serve_plugin P B chain resolve r.token) h
                  (λ x k. serve_plugin-AllKnown r.token x c k))
          | inr p ↦ rw (q, p) (hand_over-AllKnown next r e h)
        ]
      ]

  -- Where Core resolves sessions, no plugin's backend is ever called for a caller whom neither a
  -- session nor a filter has identified, whatever the path, the rewrites and the answers of the
  -- filters: each call that a request makes carries an identity.
  pub serve-AllKnown :
      (next : HttpRequest → W → Sent × W) (max : ℤ) (fresh : Bytes) (r : HttpRequest) (w : W)
      → is_configured resolve ≡ true
      → AllKnown ((serve P B chain resolve next max fresh r w).exchange)
  unfolding serve answer write_response
  serve-AllKnown next max fresh r w c =
      let buffered = chain.any_needs_request_body || has_prefix r.path plugin_api_prefix in
      with_body-AllKnown max buffered r.body _
        (guard P B chain resolve pre_route (after_pre_route P B chain resolve next max r buffered))
        tt
        λ x h.
          guard-rule P B chain resolve AllKnown pre_route
            (after_pre_route P B chain resolve next max r buffered) x (λ resp s. h)
            (λ s k. after_pre_route-AllKnown next max r buffered (record x { state = s }) c h)
