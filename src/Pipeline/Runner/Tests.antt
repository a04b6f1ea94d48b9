-- ===== src/Pipeline/Runner/Tests.antt =====
-- Runs of a phase, with a plugin that refuses every request and one process state, a count of calls.
use moduless.Base.{ℕ, suc, ◌≡◌, refl, true, false, some, none, [], ◌∷◌, pos, bytes, any, Bool, List}
use moduless.Manifest.Filters.{FilterDecl}
use moduless.Pipeline.Context.{RequestContext, authorize}
use moduless.Pipeline.Context.Guards.{Keeps}
use moduless.Pipeline.Chain.{Filter, Chain, empty_chain}
use moduless.Pipeline.Runner.{
  Plugins, RunState, HttpResponse, FilterResponse, short_circuit, continue, run, run_one,
  run_filters, allows_identity,
}
use moduless.Pipeline.Runner.Verdict.{Event, traced, verdict, log_of, run_one-verdict}
use moduless.Pipeline.Runner.Confined.{run-Keeps}

abbrev refusal : HttpResponse
refusal = record { status_code = pos 403; headers = []; body = [] }

abbrev refuses : FilterResponse
refuses = record { action = short_circuit; short_circuit_response = some refusal; mutation = none }

abbrev continues : FilterResponse
continues = record { action = continue; short_circuit_response = none; mutation = none }

-- One running plugin, whose every answer is given.
abbrev answering : FilterResponse → Plugins ℕ Unit
answering resp = record {
  target = λ k w. (some tt, w);
  allow = λ t w. (true, w);
  begin = λ t w. (true, w);
  filter = λ t req w. (some resp, suc w);
  record_success = λ t w. w;
  record_failure = λ t w. w;
  elapsed_micros = λ w. 0;
}

abbrev filter_of : Bool → Filter
filter_of closed =
    let decl : FilterDecl = record {
      name = bytes "f";
      phase = bytes "authorize";
      match = record { paths = bytes "/**" ∷ []; methods = [] };
      order = pos 1;
      fail_closed = closed;
      timeout_ms = pos 0;
      needs_request_body = false;
      needs_response_body = false;
      max_body_bytes = pos 0;
    } in
    record {
      plugin_key = bytes "a";
      name = bytes "f";
      order = pos 1;
      decl = decl;
      match = record {
        decl = decl;
        paths = record { patterns = []; match_all = true };
        methods = none;
      };
      timeout = pos 50;
      max_body = 100;
      allow_identity_mutation = false;
    }

abbrev request : RequestContext
request = record {
  trace_id = [];
  method = bytes "GET";
  path = bytes "/x";
  query = [];
  client_ip = [];
  header = [];
  identity = none;
  values = [];
  request_body = [];
  response_status = pos 0;
  response_header = [];
  response_body = [];
  proto_headers = none;
  admissions = [];
}

abbrev chain : Chain
chain = record empty_chain { phases = λ phase. filter_of true ∷ filter_of false ∷ [] }

abbrev start : RunState ℕ
start = record { context = request; world = 0; reports = [] }

abbrev logged : RunState (ℕ × List Event)
logged = record { context = request; world = (0, []); reports = [] }

stopped_at_first : (run (answering refuses) (some chain) authorize start).1.world ≡ 1
unfolding run run_filters run_one
stopped_at_first = refl

run-Keeps_example :
    Keeps authorize
      (any (allows_identity authorize) (chain.phases authorize))
      request
      (run (answering refuses) (some chain) authorize start).1.context
run-Keeps_example = run-Keeps (answering refuses) chain authorize start

run_one-verdict_example :
    verdict
      (filter_of true)
      (log_of (run_one (traced (answering refuses)) authorize (filter_of true) logged).1)
    ≡ some (run_one (traced (answering refuses)) authorize (filter_of true) logged).0
run_one-verdict_example = run_one-verdict (answering refuses) authorize (filter_of true) logged refl
