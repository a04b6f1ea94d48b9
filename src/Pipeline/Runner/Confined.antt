-- ===== src/Pipeline/Runner/Confined.antt =====
-- What the filters of a phase can change of the request, whatever the plugins answer
-- (core/pipeline/runner.go).
use moduless.Base.{ℕ, Bool, ◌||◌, some, Bytes, arith, any}
use moduless.Pipeline.Context.{Phase, RequestContext, BodyNeeds, build_filter_request, admit}
use moduless.Pipeline.Context.Guards.{Keeps, Keeps-refl, Keeps-trans, apply_mutation-Keeps}
use moduless.Pipeline.Context.Cache.{
  IsCoherent, build_filter_request-headers, apply_mutation-IsCoherent,
}
use moduless.Pipeline.Chain.{Chain}
use moduless.Pipeline.Runner.{Plugins, RunState, allows_identity, run}
use moduless.Pipeline.Runner.Preserves.{IsRespected, run-respects}

weaken-Keeps :
    (phase : Phase) (g h : Bool) (a b : RequestContext)
    → (Keeps phase g a b → Keeps phase (g || h) a b)
      × (Keeps phase h a b → Keeps phase (g || h) a b)
weaken-Keeps phase g h a b = (λ k. ground arith, λ k. ground arith)

build_filter_request-Keeps :
    (phase : Phase) (g : Bool) (f : BodyNeeds) (elapsed : ℕ) (a : RequestContext)
    → Keeps phase g a (build_filter_request phase f elapsed a).1
unfolding build_filter_request
build_filter_request-Keeps phase g f elapsed a = ground arith

admit-Keeps :
    (phase : Phase) (g : Bool) (k : Bytes) (begun : Bool) (a : RequestContext)
    → Keeps phase g a (admit k begun a).2
unfolding admit
admit-Keeps phase g k begun a = ground arith

Keeps-IsRespected : (phase : Phase) → IsRespected phase (Keeps phase)
Keeps-IsRespected phase = record {
  refl_ = Keeps-refl phase;
  trans_ = Keeps-trans phase;
  weaken_left = λ g h a b. (weaken-Keeps phase g h a b).0;
  weaken_right = λ g h a b. (weaken-Keeps phase g h a b).1;
  at_build = build_filter_request-Keeps phase;
  at_admit = admit-Keeps phase;
  at_mutation = λ g m a. apply_mutation-Keeps m phase g a;
}

module _ {W T : Type 0} (P : Plugins W T) (chain : Chain) (phase : Phase) (s : RunState W) where
  -- Whatever the plugins answer, a phase leaves the method, the query, the client, the bodies and
  -- the status as they were; it changes the identity only if one of the phase's filters holds the
  -- permission and the phase is one of authentication, the path only before the backend has run and
  -- the response headers only afterwards.
  pub run-Keeps :
      Keeps phase
        (any (allows_identity phase) (chain.phases phase))
        s.context
        (run P (some chain) phase s).1.context
  run-Keeps = run-respects P phase (Keeps phase) (Keeps-IsRespected phase) chain s

abbrev StaysCoherent : Bool → RequestContext → RequestContext → Type 0
StaysCoherent g a b = IsCoherent a → IsCoherent b

admit-IsCoherent :
    (k : Bytes) (begun : Bool) (a : RequestContext) → IsCoherent a → IsCoherent (admit k begun a).2
unfolding admit
admit-IsCoherent k begun a c = ground arith

StaysCoherent-IsRespected : (phase : Phase) → IsRespected phase StaysCoherent
StaysCoherent-IsRespected phase = record {
  refl_ = λ g a c. c;
  trans_ = λ g a b d h k c. k (h c);
  weaken_left = λ g h a b k. k;
  weaken_right = λ g h a b k. k;
  at_build = λ g f elapsed a c. (build_filter_request-headers phase f elapsed a c).1;
  at_admit = λ g k begun a c. admit-IsCoherent k begun a c;
  at_mutation = λ g m a c. apply_mutation-IsCoherent m phase g a c;
}

-- A phase that starts with an empty or accurate header cache ends with one, whatever the plugins
-- answer.
pub run-IsCoherent :
    {W T : Type 0} (P : Plugins W T) (chain : Chain) (phase : Phase) (s : RunState W)
    → IsCoherent s.context
    → IsCoherent (run P (some chain) phase s).1.context
run-IsCoherent P chain phase s =
    run-respects P phase StaysCoherent (StaysCoherent-IsRespected phase) chain s
