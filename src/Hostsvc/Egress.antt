-- ===== src/Hostsvc/Egress.antt =====
-- core/hostsvc/egress.go: outbound requests on a plugin's behalf. `url.Parse`, the test that
-- `http.NewRequestWithContext` makes and the round trip of the client, which dials, are parameters;
-- `W` is the state of the network. A clock reading is an argument. Lower case and white space are
-- those of ASCII.
use moduless.Base.{
  ℕ, ◌+◌, Bool, true, false, ◌&&◌, ◌||◌, Option, none, some, List, [], ◌∷◌, ◌++◌, if◌then◌else◌,
  ltb, leb, negate, any, take, ℤ, pos, zero, suc, negsuc, default_unless_pos, length, Bytes, bytes,
  ◌=?◌, is_empty, has_prefix, has_suffix, trim_suffix, drop, mem_bytes, Dict, lookup, insert,
}
use moduless.Manifest.Filters.{trim_space}
use moduless.Pipeline.Headers.{Headers}
pub mod Gate
mod Tests

pub record RateWindow : Type 0 where
  pub window_start : ℕ
  pub count : ℕ

pub record Egress : Type 0 where
  pub max_response_bytes : ℤ
  pub default_timeout : ℤ
  pub rate_per_minute : ℤ
  pub counts : Dict RateWindow

pub record EgressRequest : Type 0 where
  pub method : Bytes
  pub url : Bytes
  pub headers : Headers
  pub body : Bytes
  pub timeout : ℤ

pub record EgressResponse : Type 0 where
  pub status_code : ℕ
  pub headers : Headers
  pub body : Bytes

-- What `url.Parse` finds, as far as it is read.
pub record Url : Type 0 where
  pub scheme : Bytes
  pub host : Bytes
  pub hostname : Bytes

-- The sentinels, and an error of the HTTP library or the network.
pub data EgressError : Type 0 where
  bad_request not_allowed rate_limited transport_failed : EgressError

abbrev lower : ℕ → ℕ
lower c = if leb b'A' c && leb c b'Z' then c + 32 else c

-- `strings.ToLower`.
unfoldable pub to_lower : Bytes → Bytes
to_lower [] = []
to_lower (c ∷ s) = lower c ∷ to_lower s

-- `rateLimit`.
unfoldable pub rate_limit : Egress → ℕ
rate_limit e = default_unless_pos 120 e.rate_per_minute

abbrev pub minute : ℕ
minute = 60_000_000_000

-- `allowRate`; `now.Sub(w.windowStart)` may be negative.
unfoldable pub allow_rate : ℕ → Bytes → Egress → Bool × Egress
unfolding rate_limit lookup insert
allow_rate now plugin_key e =
    let fresh = record e {
      counts = insert plugin_key (record { window_start = now; count = 1 }) e.counts;
    } in
    elim (lookup plugin_key e.counts) [
      | none ↦ (true, fresh)
      | some w ↦
          if leb (w.window_start + minute) now
          then (true, fresh)
          else if leb (rate_limit e) w.count
          then (false, e)
          else (
            true,
            record e { counts = insert plugin_key (record w { count = w.count + 1 }) e.counts },
          )
    ]

-- The body of the loop of `hostAllowed`, for a host in lower case without its final dot.
unfoldable pub pattern_allows : Bytes → Bytes → Bool
unfolding to_lower trim_space ◌=?◌ has_prefix has_suffix
pattern_allows host pattern =
    let p = to_lower (trim_space pattern) in
    if is_empty p
    then false
    else p =? host || has_prefix p (b'*' ∷ b'.' ∷ []) && has_suffix host (b'.' ∷ drop 2 p)

-- `hostAllowed`.
unfoldable pub host_allowed : Bytes → List Bytes → Bool
unfolding pattern_allows trim_suffix
host_allowed host patterns = any (pattern_allows (to_lower (trim_suffix host (b'.' ∷ [])))) patterns

-- `isHopByHop`.
unfoldable pub is_hop_by_hop : Bytes → Bool
unfolding mem_bytes to_lower
is_hop_by_hop header =
    mem_bytes
      (bytes "connection"
        ∷ bytes "keep-alive"
        ∷ bytes "proxy-authenticate"
        ∷ bytes "proxy-authorization"
        ∷ bytes "te"
        ∷ bytes "trailer"
        ∷ bytes "transfer-encoding"
        ∷ bytes "upgrade"
        ∷ bytes "host"
        ∷ [])
      (to_lower header)

-- The headers that the loop in `Fetch` hands to `httpReq.Header.Add`.
unfoldable pub forwarded : Headers → Headers
unfolding is_hop_by_hop
forwarded [] = []
forwarded ((k, vs) ∷ hs) =
    let rest = forwarded hs in if is_hop_by_hop k then rest else (k, vs) ∷ rest

-- The two schemes of `parseTarget`.
unfoldable pub is_web : Bytes → Bool
unfolding ◌=?◌
is_web scheme = scheme =? bytes "http" || scheme =? bytes "https"

-- What goes out.
pub record Sent : Type 0 where
  pub method : Bytes
  pub url : Bytes
  pub headers : Headers
  pub body : Bytes
  pub timeout : ℕ

-- An answer of the network; a body that cannot be read is `none`.
pub record Answer : Type 0 where
  pub status_code : ℕ
  pub headers : Headers
  pub body : Option Bytes

-- The library code behind `Fetch`: `url.Parse`, whether a request can be made, and `client.Do`.
pub record Web (W : Type 0) : Type 0 where
  pub parse : Bytes → Option Url
  pub is_request : Bytes → Bytes → Bool
  pub send : Sent → W → Option Answer × W

-- An entry of the audit: the method, the URL, the status, and whether there was an error.
pub record Audit : Type 0 where
  pub method : Bytes
  pub url : Bytes
  pub status : ℕ
  pub is_error : Bool

pub record FetchState (W : Type 0) : Type 0 where
  pub egress : Egress
  pub web : W
  pub audits : List Audit

pub data Fetched : Type 0 where
  answered : EgressResponse → Fetched
  refused : EgressError → Fetched

abbrev pub audit : {W : Type 0} → Bytes → Bytes → ℕ → Bool → FetchState W → FetchState W
audit method url status is_error s = record s {
  audits =
      s.audits ++ record { method = method; url = url; status = status; is_error = is_error } ∷ [];
}

-- `"GET"` for no method, and the timeouts' defaults.
abbrev pub method_of : Bytes → Bytes
method_of m = if is_empty m then bytes "GET" else m

abbrev pub timeout_of : Egress → ℤ → ℕ
timeout_of e t = default_unless_pos (default_unless_pos 15_000_000_000 e.default_timeout) t

abbrev pub limit_of : Egress → ℕ
limit_of e = default_unless_pos 8_388_608 e.max_response_bytes

-- What `Fetch` makes of the network's answer.
unfoldable pub receive :
    {W : Type 0} → Bytes → Bytes → Option Answer → FetchState W → Fetched × FetchState W
receive method url none s = (refused transport_failed, audit method url 0 true s)
receive method url (some a) s = elim a.body [
  | none ↦ (refused transport_failed, audit method url a.status_code true s)
  | some body ↦ (
    answered (record {
      status_code = a.status_code;
      headers = a.headers;
      body = take (limit_of s.egress) body;
    }),
    audit method url a.status_code false s,
  )
]

module _ {W : Type 0} (web : Web W) where
  -- `parseTarget`.
  unfoldable pub parse_target : Bytes → Option Url
  unfolding is_web
  parse_target raw = if is_empty raw then none else elim (web.parse raw) [
    | none ↦ none
    | some u ↦ if negate (is_web u.scheme) then none else if is_empty u.host then none else some u
  ]

  -- `Fetch` behind its three gates.
  unfoldable pub exchange : EgressRequest → FetchState W → Fetched × FetchState W
  unfolding forwarded receive
  exchange req s =
      let method = method_of req.method in
      let (answer, w) =
        web.send
          (record {
            method = method;
            url = req.url;
            headers = forwarded req.headers;
            body = req.body;
            timeout = timeout_of s.egress req.timeout;
          })
          s.web in
      if negate (web.is_request method req.url)
      then (refused transport_failed, audit method req.url 0 true s)
      else receive method req.url answer (record s { web = w })

  -- `Fetch` behind the parse: the allow-list, then the rate.
  unfoldable pub admit_target :
      ℕ → Bytes → List Bytes → EgressRequest → Url → FetchState W → Fetched × FetchState W
  unfolding host_allowed allow_rate exchange
  admit_target now plugin_key allowed req u s =
      let (within, e) = allow_rate now plugin_key s.egress in
      if negate (host_allowed u.hostname allowed)
      then (refused not_allowed, audit req.method req.url 0 true s)
      else if negate within
      then (refused rate_limited, audit req.method req.url 0 true (record s { egress = e }))
      else exchange req (record s { egress = e })

  -- `Fetch`, with what `AllowFor` gives for the plugin.
  unfoldable pub fetch :
      ℕ → Bytes → List Bytes → EgressRequest → FetchState W → Fetched × FetchState W
  unfolding parse_target admit_target
  fetch now plugin_key allowed req s = elim (parse_target req.url) [
    | none ↦ (refused bad_request, audit req.method req.url 0 true s)
    | some u ↦ admit_target now plugin_key allowed req u s
  ]
