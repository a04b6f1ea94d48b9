-- ===== src/Pipeline/Runner/Verdict.antt =====
-- What `runOne` of core/pipeline/runner.go answers, against the calls that it made of the plugin.
use moduless.Base.{
  ◌≡◌, inl, inr, refl, sym, ap, ◌∙◌, append_assoc, Bool, true, false, List, [], ◌∷◌, ◌++◌, Option,
  none, some, bytes, arith, Bool-cases, mem_bytes,
}
use moduless.Pipeline.Context.{Phase, build_filter_request, admit}
use moduless.Pipeline.Chain.{Filter}
use moduless.Pipeline.Runner.{
  HttpResponse, FilterResponse, Action, short_circuit, mutate, continue, Plugins, RunState,
  too_large, unavailable, failed_call, decide, conclude, call, admit_and_call, ask, run_one,
  needs_of,
}

-- An operation of the interface, with its answer.
pub data Event : Type 0 where
  looked_up asked began : Bool → Event
  called : Option FilterResponse → Event
  succeeded failed : Event

abbrev is_found : {T : Type 0} → Option T → Bool
is_found none = false
is_found (some t) = true

-- The plugins, with every operation logged.
abbrev pub traced : {W T : Type 0} → Plugins W T → Plugins (W × List Event) T
traced P = record {
  target = λ k (w, log).
      let (found, w') = P.target k w in (found, (w', log ++ looked_up (is_found found) ∷ []));
  allow =
      λ t (w, log). let (allowed, w') = P.allow t w in (allowed, (w', log ++ asked allowed ∷ []));
  begin = λ t (w, log). let (begun, w') = P.begin t w in (begun, (w', log ++ began begun ∷ []));
  filter = λ t req (w, log).
      let (answer, w') = P.filter t req w in (answer, (w', log ++ called answer ∷ []));
  record_success = λ t (w, log). (P.record_success t w, log ++ succeeded ∷ []);
  record_failure = λ t (w, log). (P.record_failure t w, log ++ failed ∷ []);
  elapsed_micros = λ (w, log). P.elapsed_micros w;
}

-- The response of a filter that answered: only a short circuit with a response has one.
abbrev pub answer_of : Action → FilterResponse → Option HttpResponse
answer_of short_circuit resp = resp.short_circuit_response
answer_of mutate resp = none
answer_of continue resp = none

-- The end of a log: one call, and one record of how it went.
abbrev pub called_once : Filter → List Event → Option (Option HttpResponse)
called_once f (called none ∷ failed ∷ []) = some (failed_call f)
called_once f (called (some resp) ∷ succeeded ∷ []) = some (answer_of resp.action resp)
called_once f _ = none

-- What has to be answered after the given operations; `none` for a log that cannot be.
abbrev pub verdict : Filter → List Event → Option (Option HttpResponse)
verdict f [] = some (too_large f)
verdict f (looked_up false ∷ []) = some (unavailable f (bytes " is unavailable"))
verdict f (looked_up true ∷ asked false ∷ []) = some (unavailable f (bytes " is unhealthy"))
verdict f (looked_up true ∷ asked true ∷ began false ∷ []) =
    some (unavailable f (bytes " is draining"))
verdict f (looked_up true ∷ asked true ∷ began true ∷ rest) = called_once f rest
verdict f (looked_up true ∷ asked true ∷ rest) = called_once f rest
verdict f _ = none

-- The log of a run state.
abbrev pub log_of : {W : Type 0} → RunState (W × List Event) → List Event
log_of s = s.world.1

decide-log :
    {W : Type 0} (phase : Phase) (f : Filter) (resp : FilterResponse)
    (s : RunState (W × List Event)) (a : Action)
    → ((decide phase f resp s a).0 ≡ answer_of a resp)
      × (log_of (decide phase f resp s a).1 ≡ log_of s)
unfolding decide
decide-log phase f resp s short_circuit = ground arith
decide-log phase f resp s mutate = ground arith
decide-log phase f resp s continue = ground arith

-- The record that follows a call.
abbrev recorded : Option FilterResponse → Event
recorded none = failed
recorded (some resp) = succeeded

module _ {W T : Type 0} (P : Plugins W T) (phase : Phase) (f : Filter) where
  conclude-log :
      (t : T) (answer : Option FilterResponse) (s : RunState (W × List Event))
      → let (out, s') = conclude (traced P) phase f t answer s in
        (log_of s' ≡ log_of s ++ recorded answer ∷ [])
        × (called_once f (called answer ∷ recorded answer ∷ []) ≡ some out)
  unfolding conclude
  conclude-log t none s = (refl, refl)
  conclude-log t (some resp) s =
      let d =
        decide-log phase f resp
          (record s { world = (P.record_success t s.world.0, s.world.1 ++ succeeded ∷ []) })
          resp.action in
      (d.1, ap some (sym d.0))

  -- What `call` adds to the log.
  call_events : RunState (W × List Event) → T → List Event
  call_events s t =
      let sent = build_filter_request phase (needs_of f) (P.elapsed_micros s.world.0) s.context in
      let answer = (P.filter t sent.0 s.world.0).0 in called answer ∷ recorded answer ∷ []

  call-log :
      (t : T) (s : RunState (W × List Event))
      → let (out, s') = call (traced P) phase f t s in
        (log_of s' ≡ log_of s ++ call_events s t) × (called_once f (call_events s t) ≡ some out)
  unfolding call call_events
  call-log t s =
      let sent = build_filter_request phase (needs_of f) (P.elapsed_micros s.world.0) s.context in
      let answered = P.filter t sent.0 s.world.0 in
      let c = conclude-log t answered.0 (record s {
        context = sent.1;
        world = (answered.1, s.world.1 ++ called answered.0 ∷ []);
      }) in
      (c.0 ∙ append_assoc s.world.1 (called answered.0 ∷ []) (recorded answered.0 ∷ []), c.1)

  abbrev at_log : RunState (W × List Event) → W → List Event → RunState (W × List Event)
  at_log s w log = record s { world = (w, log) }

  call-verdict :
      (t : T) (s : RunState (W × List Event)) (w : W)
      → let (out, s') = call (traced P) phase f t (at_log s w (looked_up true ∷ asked true ∷ [])) in
        verdict f (log_of s') ≡ some out
  unfolding call_events
  call-verdict t s w =
      let c = call-log t (at_log s w (looked_up true ∷ asked true ∷ [])) in rw c.0 c.1

  call-verdict_begun :
      (t : T) (s : RunState (W × List Event)) (w : W)
      → let (out, s') =
          call (traced P) phase f t (at_log s w (looked_up true ∷ asked true ∷ began true ∷ [])) in
        verdict f (log_of s') ≡ some out
  unfolding call_events
  call-verdict_begun t s w =
      let c = call-log t (at_log s w (looked_up true ∷ asked true ∷ began true ∷ [])) in rw c.0 c.1

  admit_and_call-verdict :
      (t : T) (s : RunState (W × List Event)) (w : W)
      → let (out, s') =
          admit_and_call (traced P) phase f t (at_log s w (looked_up true ∷ asked true ∷ [])) in
        verdict f (log_of s') ≡ some out
  unfolding admit_and_call admit
  admit_and_call-verdict t s w =
      let begun = P.begin t w in
      elim (Bool-cases (mem_bytes s.context.admissions f.plugin_key)) [
        | inl e ↦ rw e (call-verdict t s w)
        | inr e ↦ rw e (elim (Bool-cases begun.0) [
          | inl b ↦ rw b (
              call-verdict_begun t
                (record s {
                  context = record s.context { admissions = f.plugin_key ∷ s.context.admissions };
                })
                begun.1)
          | inr b ↦ rw b refl
        ])
      ]

  ask-verdict :
      (found : Option T) (s : RunState (W × List Event)) (w : W)
      → let (out, s') =
          ask (traced P) phase f found (at_log s w (looked_up (is_found found) ∷ [])) in
        verdict f (log_of s') ≡ some out
  unfolding ask
  ask-verdict none s w = refl
  ask-verdict (some t) s w = elim (Bool-cases (P.allow t w).0) [
    | inl e ↦ rw e (admit_and_call-verdict t s (P.allow t w).1)
    | inr e ↦ rw e refl
  ]

  -- With a log that starts empty, the operations of one filter's run, in their order, determine its answer, and are one of these:
  -- none, and a body too large; no instance; a refusal by the breaker; a refusal of admission; or
  -- one call, behind at most one admission, followed by exactly one record of its success or
  -- failure. Only a call that answers with a short circuit gives the plugin's response.
  pub run_one-verdict :
      (s : RunState (W × List Event))
      → log_of s ≡ []
      → verdict f (log_of (run_one (traced P) phase f s).1) ≡ some (run_one (traced P) phase f s).0
  unfolding run_one
  run_one-verdict s h =
      let found = P.target f.plugin_key s.world.0 in
      ground (arith, h, ask-verdict found.0 s found.1)
