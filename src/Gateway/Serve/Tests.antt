-- ===== src/Gateway/Serve/Tests.antt =====
-- A plugin behind the gateway, one session, and no filters.
use moduless.Base.{
  Bytes, bytes, [], ◌≡◌, refl, some, none, true, ℕ, suc, pos, Option, if◌then◌else◌, ◌=?◌,
  has_prefix,
}
use moduless.Pipeline.Chain.{empty_chain}
use moduless.Pipeline.Runner.{Plugins}
use moduless.Gateway.Handler.{HttpRequest, User, Body, Answer, Backends, Sent, Served}
use moduless.Gateway.Serve.{serve}
use moduless.Gateway.Serve.Calls.{AllKnown}
use moduless.Gateway.Serve.Identified.{serve-AllKnown}
use moduless.Gateway.Serve.Answered.{IsAnswered, serve-IsAnswered}

abbrev no_filters : Plugins ℕ Unit
no_filters = record {
  target = λ k w. (some tt, w);
  allow = λ t w. (true, w);
  begin = λ t w. (true, w);
  filter = λ t req w. (none, w);
  record_success = λ t w. w;
  record_failure = λ t w. w;
  elapsed_micros = λ w. 0;
}

abbrev one_backend : Backends ℕ Unit
one_backend = record {
  pick = λ key w. (some tt, w);
  pick_live = λ key w. (some tt, w);
  same = λ t u. true;
  handle = λ t req w.
      (Answer.answered (record { status_code = pos 2000; headers = []; body = req.path }), suc w);
}

abbrev ann : Bytes → Option User
ann token =
    if token =? bytes "s1"
    then some (record { ident = 1; username = bytes "ann"; role = bytes "admin" })
    else none

abbrev core : HttpRequest → ℕ → Sent × ℕ
core r w = (record { status = pos 200; headers = []; body = [] }, w)

abbrev with_token : Bytes → HttpRequest
with_token token = record {
  method = bytes "GET";
  path = bytes "/api/plugins/shop/items";
  query = [];
  header = [];
  body = Body.no_body;
  token = token;
  client_ip = [];
}

abbrev served : Bytes → Served ℕ
served token =
    serve no_filters one_backend empty_chain (some ann) core (pos 0) (bytes "t") (with_token token)
      0

-- The session reaches the plugin, whose bad status becomes 502; without a session no plugin is called.
session_sent :
    ((served (bytes "s1")).exchange).sent
    ≡ some (record { status = pos 502; headers = []; body = bytes "/items" })
unfolding serve
session_sent = refl

stranger_calls : ((served []).exchange).calls ≡ []
unfolding serve
stranger_calls = refl

serve-AllKnown_example : AllKnown ((served (bytes "s1")).exchange)
serve-AllKnown_example =
    serve-AllKnown no_filters one_backend empty_chain (some ann) core (pos 0) (bytes "t")
      (with_token (bytes "s1")) 0 refl

serve-IsAnswered_example :
    IsAnswered ((served []).exchange)
    × (((served []).logged).response_status ≡ (((served []).exchange.state).context).response_status
        )
serve-IsAnswered_example =
    serve-IsAnswered no_filters one_backend empty_chain (some ann) core (pos 0) (bytes "t")
      (with_token []) 0 (unfold has_prefix in refl)
