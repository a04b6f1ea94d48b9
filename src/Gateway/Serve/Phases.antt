-- ===== src/Gateway/Serve/Phases.antt =====
-- A rule for one phase of core/gateway/plugin_handler.go.
use moduless.Base.{Bytes, any, Option, none, some}
use moduless.Pipeline.Context.{Phase}
use moduless.Pipeline.Context.Guards.{Keeps}
use moduless.Pipeline.Chain.{Chain}
use moduless.Pipeline.Runner.{HttpResponse, Plugins, RunState, run, allows_identity}
use moduless.Pipeline.Runner.Confined.{run-Keeps}
use moduless.Gateway.Handler.{User, Backends, Exchange, write_response, unless_stopped}
use moduless.Gateway.Serve.{guard}

module _ {W T : Type 0} (P : Plugins W T) (B : Backends W T) (chain : Chain)
    (resolve : Option (Bytes → Option User)) where
  -- A phase: what holds of each response that it writes, and of whatever follows it, holds after it.
  pub guard-rule :
      (Q : Exchange W → Type 0) (phase : Phase) (k : Exchange W → Exchange W) (e : Exchange W)
      → ((resp : HttpResponse) (s : RunState W) → Q (write_response resp (record e { state = s })))
      → ((s : RunState W)
          → Keeps phase
              (any (allows_identity phase) (chain.phases phase))
              (e.state).context
              s.context
          → Q (k (record e { state = s })))
      → Q (guard P B chain resolve phase k e)
  unfolding guard
  guard-rule Q phase k e stopped goes_on =
      go (run P (some chain) phase e.state) (run-Keeps P chain phase e.state)
    where
      go :
          (x : Option HttpResponse × RunState W)
          → Keeps phase
              (any (allows_identity phase) (chain.phases phase))
              (e.state).context
              (x.1).context
          → Q (unless_stopped x e k)
      go (some resp, s) h = unfold unless_stopped in stopped resp s
      go (none, s) h = unfold unless_stopped in goes_on s h
