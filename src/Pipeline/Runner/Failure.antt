-- ===== src/Pipeline/Runner/Failure.antt =====
-- Fail-open and fail-closed filters (core/pipeline/runner.go).
use moduless.Base.{◌≡◌, ◌≢◌, true, false, List, [], ◌∷◌, Option, none, some, arith}
use moduless.Pipeline.Context.{Phase}
use moduless.Pipeline.Chain.{Filter}
use moduless.Pipeline.Runner.{HttpResponse, FilterResponse, Plugins, RunState, run_one, failure}
use moduless.Pipeline.Runner.Verdict.{
  Event, looked_up, asked, began, called, succeeded, failed, traced, verdict, called_once, log_of,
  answer_of, run_one-verdict,
}

-- The plugin's decision, if the log holds a call that returned one.
abbrev pub decision : List Event → Option FilterResponse
decision [] = none
decision (called (some resp) ∷ log) = some resp
decision (e ∷ log) = decision log

-- The response with which a decision stops the request.
abbrev pub stop_of : Option FilterResponse → Option HttpResponse
stop_of none = none
stop_of (some resp) = answer_of resp.action resp

-- What the end of a log stands for.
record IsDecided (f : Filter) (out : Option HttpResponse) (log : List Event) : Type 0 where
  open_stop : f.decl.fail_closed ≡ false → out ≡ stop_of (decision log)
  closed_stop : f.decl.fail_closed ≡ true → out ≡ none → decision log ≢ none

called_once-IsDecided :
    (f : Filter) (out : Option HttpResponse) (log : List Event)
    → called_once f log ≡ some out
    → IsDecided f out log
unfolding failure
called_once-IsDecided f out (called none ∷ failed ∷ []) h = ground arith
called_once-IsDecided f out (called (some resp) ∷ succeeded ∷ []) h = ground arith
called_once-IsDecided f out _ h = ground arith

verdict-IsDecided :
    (f : Filter) (out : Option HttpResponse) (log : List Event)
    → verdict f log ≡ some out
    → IsDecided f out log
unfolding failure
verdict-IsDecided f out [] h = ground arith
verdict-IsDecided f out (looked_up false ∷ []) h = ground arith
verdict-IsDecided f out (looked_up true ∷ asked false ∷ []) h = ground arith
verdict-IsDecided f out (looked_up true ∷ asked true ∷ began false ∷ []) h = ground arith
verdict-IsDecided f out (looked_up true ∷ asked true ∷ began true ∷ rest) h =
    ground (arith, called_once-IsDecided f out rest)
verdict-IsDecided f out (looked_up true ∷ asked true ∷ rest) h =
    ground (arith, called_once-IsDecided f out rest)
verdict-IsDecided f out _ h = ground arith

module _ {W T : Type 0} (P : Plugins W T) (phase : Phase) (f : Filter)
    (s : RunState (W × List Event)) where
  -- With a log that starts empty: a fail-open filter stops a request only by its plugin's own decision: with the response of its
  -- short circuit, and in no other case, whether the plugin is absent, unhealthy, draining, failing
  -- or refused the body.
  pub fail_open_stops :
      log_of s ≡ []
      → f.decl.fail_closed ≡ false
      → (run_one (traced P) phase f s).0
        ≡ stop_of (decision (log_of (run_one (traced P) phase f s).1))
  fail_open_stops h o =
      (verdict-IsDecided f _ (log_of (run_one (traced P) phase f s).1)
          (run_one-verdict P phase f s h)).open_stop
        o

  -- With a log that starts empty: a fail-closed filter lets a request go on only after its plugin was called and returned a
  -- decision.
  pub fail_closed_passes :
      log_of s ≡ []
      → f.decl.fail_closed ≡ true
      → (run_one (traced P) phase f s).0 ≡ none
      → decision (log_of (run_one (traced P) phase f s).1) ≢ none
  fail_closed_passes h c n =
      (verdict-IsDecided f _ (log_of (run_one (traced P) phase f s).1)
          (run_one-verdict P phase f s h)).closed_stop
        c n
