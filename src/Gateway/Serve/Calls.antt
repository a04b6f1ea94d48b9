-- ===== src/Gateway/Serve/Calls.antt =====
-- Which identity a call of a backend carries: `callBackend` of core/gateway/plugin_handler.go.
use moduless.Base.{
  Bool, true, false, Bytes, Option, none, some, ◌≡◌, refl, arith, All, All-append, Bool-cases, inl,
  inr,
}
use moduless.Pipeline.Context.{RequestContext, admit}
use moduless.Pipeline.Runner.{Plugins}
use moduless.Gateway.Handler.{
  BackendRequest, Answer, failed, answered, Backends, Exchange, Backed, unavailable,
}
use moduless.Gateway.Backend.{
  admit_on, record_answer, dispatch, dispatch_if, retry_with, retry, call_with, call_backend,
  is_other,
}
use moduless.Gateway.Serve.{is_configured}

-- Every call of a backend carries an identity.
abbrev pub AllKnown : {W : Type 0} → Exchange W → Type 0
AllKnown e = All (λ (q : BackendRequest). is_configured q.identity ≡ true) e.calls

-- The same, of a request whose caller is known.
abbrev pub Known : {W : Type 0} → Exchange W → Type 0
Known e = AllKnown e × (is_configured ((e.state).context).identity ≡ true)

admit-identity :
    (key : Bytes) (begun : Bool) (rc : RequestContext)
    → ((admit key begun rc).2).identity ≡ rc.identity
unfolding admit
admit-identity key begun rc = ground arith

module _ {W T : Type 0} (P : Plugins W T) (B : Backends W T) where
  record_answer-calls :
      (t : T) (x : Answer × W) (e : Exchange W) → ((record_answer P B t x e).1).calls ≡ e.calls
  unfolding record_answer
  record_answer-calls t (failed text, w) e = refl
  record_answer-calls t (answered resp, w) e = refl

  dispatch-AllKnown :
      (t : T) (sub : Bytes) (e : Exchange W) → Known e → AllKnown (dispatch P B t sub e).1
  unfolding dispatch
  dispatch-AllKnown t sub e k =
      rw (record_answer-calls t _ _) (All-append _ e.calls _ k.0 (k.1, tt))

  admit_on-Known : (t : T) (key : Bytes) (e : Exchange W) → Known e → Known (admit_on P B t key e).1
  unfolding admit_on
  admit_on-Known t key e k =
      (k.0, rw (admit-identity key (P.begin t (e.state).world).0 (e.state).context) k.1)

  dispatch_if-AllKnown :
      (t : T) (sub : Bytes) (x : Bool × Exchange W) (k : Exchange W → Backed × Exchange W)
      → Known x.1
      → ((e : Exchange W) → Known e → AllKnown (k e).1)
      → AllKnown (dispatch_if P B t sub x k).1
  unfolding dispatch_if
  dispatch_if-AllKnown t sub (true, e) k h rest = dispatch-AllKnown t sub e h
  dispatch_if-AllKnown t sub (false, e) k h rest = rest e h

  retry_with-AllKnown :
      (first : Option T) (key sub : Bytes) (x : Option T × W) (e : Exchange W)
      → Known e
      → AllKnown (retry_with P B first key sub x e).1
  unfolding retry_with
  retry_with-AllKnown first key sub (none, w) e h = h.0
  retry_with-AllKnown first key sub (some next, w) e h =
      let e' : Exchange W = record e { state = record e.state { world = w } } in
      elim (Bool-cases (is_other P B first next)) [
        | inl q ↦ rw q (
            dispatch_if-AllKnown next sub (admit_on P B next key e') (λ x. (unavailable false, x))
              (admit_on-Known next key e' h) (λ x k. k.0))
        | inr q ↦ rw q h.0
      ]

  retry-AllKnown :
      (first : Option T) (key sub : Bytes) (e : Exchange W)
      → Known e
      → AllKnown (retry P B first key sub e).1
  unfolding retry
  retry-AllKnown first key sub e h =
      retry_with-AllKnown first key sub (B.pick_live key (e.state).world) e h

  call_with-AllKnown :
      (key sub : Bytes) (x : Option T × W) (e : Exchange W)
      → Known e
      → AllKnown (call_with P B key sub x e).1
  unfolding call_with
  call_with-AllKnown key sub (none, w) e h =
      retry-AllKnown none key sub (record e { state = record e.state { world = w } }) h
  call_with-AllKnown key sub (some t, w) e h =
      let e' : Exchange W = record e { state = record e.state { world = w } } in
      dispatch_if-AllKnown t sub (admit_on P B t key e') (retry P B (some t) key sub)
        (admit_on-Known t key e' h) (λ x k. retry-AllKnown (some t) key sub x k)

  pub call_backend-AllKnown :
      (key sub : Bytes) (e : Exchange W) → Known e → AllKnown (call_backend P B key sub e).1
  unfolding call_backend
  call_backend-AllKnown key sub e h = call_with-AllKnown key sub (B.pick key (e.state).world) e h
