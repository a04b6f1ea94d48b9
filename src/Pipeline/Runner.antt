-- ===== src/Pipeline/Runner.antt =====
-- core/pipeline/runner.go: the run of a phase. `Plugins` is the interface `Target` with its
-- `Resolver`; what a plugin process does on a call is the operation `filter`, on a state `W` of
-- everything outside the request. `OnFilterError` is a log.
use moduless.Base.{
  ℕ, Bool, true, false, ◌&&◌, negate, Option, none, some, List, [], ◌∷◌, ◌++◌, if◌then◌else◌, ltb,
  length, Bytes, bytes, ℤ, pos, negsuc, ltb_ℤ, eq_ℤ,
}
use moduless.Pipeline.Headers.{Headers}
use moduless.Pipeline.Context.{
  Phase, RequestContext, RequestMutation, FilterRequest, BodyNeeds, admit, build_filter_request,
  apply_mutation, identity_mutation_allowed, is_set,
}
use moduless.Pipeline.Chain.{Filter, Chain, filter_matches, label, has_phase}
mod Preserves
pub mod Confined
pub mod Verdict
pub mod Failure
mod Tests

pub record HttpResponse : Type 0 where
  pub status_code : ℤ
  pub headers : Headers
  pub body : Bytes

pub data Action : Type 0 where
  continue short_circuit mutate : Action

pub record FilterResponse : Type 0 where
  pub action : Action
  pub short_circuit_response : Option HttpResponse
  pub mutation : Option RequestMutation

-- `Target` and `Resolver`; `T` is a reference to an instance, and no answer of `filter` is an error.
pub record Plugins (W T : Type 0) : Type 0 where
  pub target : Bytes → W → Option T × W
  pub allow : T → W → Bool × W
  pub begin : T → W → Bool × W
  pub filter : T → FilterRequest → W → Option FilterResponse × W
  pub record_success : T → W → W
  pub record_failure : T → W → W
  pub elapsed_micros : W → ℕ

-- What is reported to `OnFilterError`.
pub data Problem : Type 0 where
  body_too_large not_running draining call_failed empty_short_circuit identity_refused : Problem

pub record RunState (W : Type 0) : Type 0 where
  pub context : RequestContext
  pub world : W
  pub reports : List (Bytes × Problem)

-- `failure`.
unfoldable pub failure : Filter → ℤ → Bytes → Option HttpResponse
failure f status message =
    if negate f.decl.fail_closed
    then none
    else some (record {
      status_code = status;
      headers = (bytes "Content-Type", bytes "text/plain; charset=utf-8" ∷ []) ∷ [];
      body = message;
    })

abbrev pub plugin_text : Filter → Bytes → Bytes
plugin_text f text = bytes "plugin " ++ (f.plugin_key ++ text)

-- The responses of `runOne` to a filter that reached no decision.
abbrev pub too_large : Filter → Option HttpResponse
too_large f = failure f (pos 413) (bytes "request body too large for filter " ++ label f)

abbrev pub unavailable : Filter → Bytes → Option HttpResponse
unavailable f text = failure f (pos 503) (plugin_text f text)

abbrev pub failed_call : Filter → Option HttpResponse
failed_call f = failure f (pos 503) (bytes "filter " ++ (label f ++ bytes " failed"))

-- `report`.
abbrev pub report : {W : Type 0} → Filter → Problem → RunState W → RunState W
report f p s = record s { reports = s.reports ++ (label f, p) ∷ [] }

abbrev pub sets_identity : Option RequestMutation → Bool
sets_identity none = false
sets_identity (some m) = is_set m.set_identity

abbrev pub allows_identity : Phase → Filter → Bool
allows_identity phase f = f.allow_identity_mutation && identity_mutation_allowed phase

-- The `switch` on the action.
unfoldable pub decide :
    {W : Type 0}
    → Phase
    → Filter
    → FilterResponse
    → RunState W
    → Action
    → Option HttpResponse × RunState W
unfolding apply_mutation
decide phase f resp s short_circuit = elim resp.short_circuit_response [
  | none ↦ (none, report f empty_short_circuit s)
  | some sc ↦ (some sc, s)
]
decide phase f resp s mutate =
    let allow_identity = allows_identity phase f in
    let s' =
      if sets_identity resp.mutation && negate allow_identity
      then report f identity_refused s
      else s in
    (none, record s' { context = apply_mutation resp.mutation phase allow_identity s'.context })
decide phase f resp s continue = (none, s)

-- A response ends the loop of `Run`; without one the loop goes on with `next`.
abbrev pub settle :
    {W : Type 0}
    → Option HttpResponse
    → RunState W
    → (RunState W → Option HttpResponse × RunState W)
    → Option HttpResponse × RunState W
settle (some resp) s next = (some resp, s)
settle none s next = next s

abbrev pub needs_of : Filter → BodyNeeds
needs_of f = record {
  filter_name = f.decl.name;
  needs_request_body = f.decl.needs_request_body;
  needs_response_body = f.decl.needs_response_body;
}

module _ {W T : Type 0} (P : Plugins W T) where
  -- What `runOne` makes of the result of the call; no answer is an error.
  unfoldable pub conclude :
      Phase → Filter → T → Option FilterResponse → RunState W → Option HttpResponse × RunState W
  unfolding decide
  conclude phase f t none s =
      (failed_call f, report f call_failed (record s { world = P.record_failure t s.world }))
  conclude phase f t (some resp) s =
      decide phase f resp (record s { world = P.record_success t s.world }) resp.action

  -- The call.
  unfoldable pub call : Phase → Filter → T → RunState W → Option HttpResponse × RunState W
  unfolding build_filter_request conclude
  call phase f t s =
      let (req, rc) =
        build_filter_request phase (needs_of f) (P.elapsed_micros s.world) s.context in
      let (answer, w) = P.filter t req s.world in
      conclude phase f t answer (record s { context = rc; world = w })

  -- `rc.Admit(f.PluginKey, target.Begin)`, and what follows it.
  unfoldable pub admit_and_call : Phase → Filter → T → RunState W → Option HttpResponse × RunState W
  unfolding admit call
  admit_and_call phase f t s =
      let (begun, w) = P.begin t s.world in
      let (admitted, asked, rc) = admit f.plugin_key begun s.context in
      let s' = record s { context = rc; world = if asked then w else s.world } in
      if negate admitted
      then (unavailable f (bytes " is draining"), report f draining s')
      else call phase f t s'

  -- `runOne` behind the resolution of the target.
  unfoldable pub ask : Phase → Filter → Option T → RunState W → Option HttpResponse × RunState W
  unfolding admit_and_call
  ask phase f none s = (unavailable f (bytes " is unavailable"), report f not_running s)
  ask phase f (some t) s =
      let (allowed, w) = P.allow t s.world in
      let s' = record s { world = w } in
      if negate allowed
      then (unavailable f (bytes " is unhealthy"), s')
      else admit_and_call phase f t s'

  -- `runOne`.
  unfoldable pub run_one : Phase → Filter → RunState W → Option HttpResponse × RunState W
  unfolding ask
  run_one phase f s =
      let (found, w) = P.target f.plugin_key s.world in
      if f.decl.needs_request_body && ltb f.max_body (length s.context.request_body)
      then (too_large f, report f body_too_large s)
      else ask phase f found (record s { world = w })

  -- The loop of `Run`: the response that stops the request, if any.
  unfoldable pub run_filters : Phase → List Filter → RunState W → Option HttpResponse × RunState W
  unfolding filter_matches
  run_filters phase [] s = (none, s)
  run_filters phase (f ∷ fs) s =
      let skipped = run_filters phase fs s in
      if negate (filter_matches f s.context.method s.context.path)
      then skipped
      else let (stop, s') = run_one phase f s in settle stop s' (run_filters phase fs)

  -- `Run`; no chain is a nil chain.
  unfoldable pub run : Option Chain → Phase → RunState W → Option HttpResponse × RunState W
  unfolding run_filters has_phase
  run none phase s = (none, s)
  run (some chain) phase s =
      if negate (has_phase chain phase) then (none, s) else run_filters phase (chain.phases phase) s
