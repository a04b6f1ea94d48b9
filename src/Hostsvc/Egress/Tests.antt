-- ===== src/Hostsvc/Egress/Tests.antt =====
-- Runs of outbound requests, over a network that counts what it is sent.
use moduless.Base.{
  ℕ, suc, ◌≡◌, ◌⊎◌, refl, true, false, List, [], ◌∷◌, some, pos, bytes, is_empty, Bytes,
}
use moduless.Hostsvc.Egress.{
  EgressRequest, FetchState, Web, Url, fetch, host_allowed, is_web, allow_rate,
}
use moduless.Hostsvc.Egress.Gate.{fetch_gates}

abbrev counting : Web ℕ
counting = record {
  parse = λ raw. some (record {
    scheme = bytes "https";
    host = bytes "a.example.com:8443";
    hostname = bytes "a.example.com";
  });
  is_request = λ method url. true;
  send = λ sent w.
      (some (record { status_code = 200; headers = []; body = some (bytes "ok") }), suc w);
}

abbrev plain : FetchState ℕ
plain = record {
  egress = record {
    max_response_bytes = pos 0;
    default_timeout = pos 0;
    rate_per_minute = pos 1;
    counts = [];
  };
  web = 0;
  audits = [];
}

abbrev asked : EgressRequest
asked = record {
  method = [];
  url = bytes "https://a.example.com:8443/x";
  headers = (bytes "Host", bytes "b" ∷ []) ∷ [];
  body = [];
  timeout = pos 0;
}

abbrev below_example : List Bytes
below_example = bytes "*.Example.com" ∷ []

one_is_sent : (fetch counting 5 (bytes "p") below_example asked plain).1.web ≡ 1
unfolding fetch
one_is_sent = refl

second_is_over_rate :
    (fetch counting 6
      (bytes "p")
      below_example
      asked
      (fetch counting 5 (bytes "p") below_example asked plain).1).1.web
    ≡ 1
unfolding fetch
second_is_over_rate = refl

other_domain : host_allowed (bytes "evilexample.com") below_example ≡ false
unfolding host_allowed
other_domain = refl

fetch_gates_example :
    ((u : Url) × (counting.parse asked.url ≡ some u)
      × (is_web u.scheme ≡ true)
      × (is_empty u.host ≡ false)
      × (host_allowed u.hostname below_example ≡ true)
      × ((allow_rate 5 (bytes "p") plain.egress).0 ≡ true))
    ⊎ ((fetch counting 5 (bytes "p") below_example asked plain).1.web ≡ plain.web)
fetch_gates_example = fetch_gates counting 5 (bytes "p") below_example asked plain
