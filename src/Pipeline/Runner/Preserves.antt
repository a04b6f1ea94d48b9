-- ===== src/Pipeline/Runner/Preserves.antt =====
-- A rule for `Run` of core/pipeline/runner.go: a relation between request contexts that the single
-- steps respect holds between the start and the end of a phase, whatever the plugins answer.
use moduless.Base.{
  ℕ, inl, inr, Bool, false, ◌&&◌, ◌||◌, negate, List, [], ◌∷◌, Option, none, some, Bytes, arith,
  any, Option-cases, Bool-cases,
}
use moduless.Pipeline.Context.{
  Phase, RequestContext, RequestMutation, BodyNeeds, build_filter_request, apply_mutation, admit,
}
use moduless.Pipeline.Chain.{Filter, Chain, filter_matches, has_phase}
use moduless.Pipeline.Runner.{
  FilterResponse, Action, short_circuit, mutate, continue, Plugins, RunState, allows_identity,
  decide, conclude, call, admit_and_call, ask, run_one, run_filters, run, needs_of, sets_identity,
}

-- `R g rc rc'`: from `rc` to `rc'`, where `g` says that the identity may be set.
pub record IsRespected (phase : Phase) (R : Bool → RequestContext → RequestContext → Type 0)
    : Type 0 where
  pub refl_ : (g : Bool) (a : RequestContext) → R g a a
  pub trans_ : (g : Bool) (a b c : RequestContext) → R g a b → R g b c → R g a c
  pub weaken_left : (g h : Bool) (a b : RequestContext) → R g a b → R (g || h) a b
  pub weaken_right : (g h : Bool) (a b : RequestContext) → R h a b → R (g || h) a b
  pub at_build :
      (g : Bool) (f : BodyNeeds) (elapsed : ℕ) (a : RequestContext)
      → R g a (build_filter_request phase f elapsed a).1
  pub at_admit :
      (g : Bool) (k : Bytes) (begun : Bool) (a : RequestContext) → R g a (admit k begun a).2
  pub at_mutation :
      (g : Bool) (m : Option RequestMutation) (a : RequestContext)
      → R g a (apply_mutation m phase g a)

module _ {W T : Type 0} (P : Plugins W T) (phase : Phase)
    (R : Bool → RequestContext → RequestContext → Type 0) (r : IsRespected phase R) where
  -- The relation at one filter.
  abbrev At : Filter → RunState W → RunState W → Type 0
  At f s s' = R (allows_identity phase f) s.context s'.context

  stays : (f : Filter) (s : RunState W) → At f s s
  stays f s = r.refl_ (allows_identity phase f) s.context

  decide-At :
      (f : Filter) (resp : FilterResponse) (s : RunState W) (a : Action)
      → At f s (decide phase f resp s a).1
  unfolding decide
  decide-At f resp s short_circuit = elim (Option-cases resp.short_circuit_response) [
    | inl e ↦ rw e (stays f s)
    | inr (sc, e) ↦ rw e (stays f s)
  ]
  decide-At f resp s mutate =
      let g = allows_identity phase f in
      let applied = r.at_mutation g resp.mutation s.context in
      elim (Bool-cases (sets_identity resp.mutation && negate g)) [
        | inl e ↦ rw e applied
        | inr e ↦ rw e applied
      ]
  decide-At f resp s continue = stays f s

  conclude-At :
      (f : Filter) (t : T) (answer : Option FilterResponse) (s : RunState W)
      → At f s (conclude P phase f t answer s).1
  unfolding conclude
  conclude-At f t none s = stays f s
  conclude-At f t (some resp) s =
      decide-At f resp (record s { world = P.record_success t s.world }) resp.action

  call-At : (f : Filter) (t : T) (s : RunState W) → At f s (call P phase f t s).1
  unfolding call
  call-At f t s =
      let elapsed = P.elapsed_micros s.world in
      let sent = build_filter_request phase (needs_of f) elapsed s.context in
      let answered = P.filter t sent.0 s.world in
      r.trans_ (allows_identity phase f) s.context sent.1 _
        (r.at_build (allows_identity phase f) (needs_of f) elapsed s.context)
        (conclude-At f t answered.0 (record s { context = sent.1; world = answered.1 }))

  admit_and_call-At :
      (f : Filter) (t : T) (s : RunState W) → At f s (admit_and_call P phase f t s).1
  unfolding admit_and_call
  admit_and_call-At f t s =
      let begun = P.begin t s.world in
      let tried = admit f.plugin_key begun.0 s.context in
      let step = r.at_admit (allows_identity phase f) f.plugin_key begun.0 s.context in
      elim (Bool-cases tried.0) [
        | inl e ↦ rw e (r.trans_ (allows_identity phase f) s.context tried.2 _ step (call-At f t _))
        | inr e ↦ rw e step
      ]

  ask-At : (f : Filter) (found : Option T) (s : RunState W) → At f s (ask P phase f found s).1
  unfolding ask
  ask-At f none s = stays f s
  ask-At f (some t) s = elim (Bool-cases (P.allow t s.world).0) [
    | inl e ↦ rw e (admit_and_call-At f t (record s { world = (P.allow t s.world).1 }))
    | inr e ↦ rw e (stays f s)
  ]

  run_one-At : (f : Filter) (s : RunState W) → At f s (run_one P phase f s).1
  unfolding run_one
  run_one-At f s =
      let found = P.target f.plugin_key s.world in
      ground (arith, stays f s, ask-At f found.0 (record s { world = found.1 }))

  pub run_filters-respects :
      (fs : List Filter) (s : RunState W)
      → R (any (allows_identity phase) fs) s.context (run_filters P phase fs s).1.context
  unfolding run_filters
  run_filters-respects [] s = r.refl_ false s.context
  run_filters-respects (f ∷ fs) s =
      let g = allows_identity phase f in
      let h = any (allows_identity phase) fs in
      let first = r.weaken_left g h s.context (run_one P phase f s).1.context (run_one-At f s) in
      elim (Bool-cases (filter_matches f s.context.method s.context.path)) [
        | inl e ↦ rw e (elim (Option-cases (run_one P phase f s).0) [
          | inl q ↦ rw q (
              r.trans_ (g || h) s.context (run_one P phase f s).1.context _ first
                (r.weaken_right g h _ _ (run_filters-respects fs (run_one P phase f s).1)))
          | inr (resp, q) ↦ rw q first
        ])
        | inr e ↦ rw e (r.weaken_right g h _ _ (run_filters-respects fs s))
      ]

  pub run-respects :
      (chain : Chain) (s : RunState W)
      → R
          (any (allows_identity phase) (chain.phases phase))
          s.context
          (run P (some chain) phase s).1.context
  unfolding run
  run-respects chain s = elim (Bool-cases (has_phase chain phase)) [
    | inl e ↦ rw e (run_filters-respects (chain.phases phase) s)
    | inr e ↦ rw e (r.refl_ (any (allows_identity phase) (chain.phases phase)) s.context)
  ]
