-- ===== src/Hostsvc/Egress/Gate.antt =====
-- What the gates of `Fetch` in core/hostsvc/egress.go let through.
use moduless.Base.{
  ℕ, suc, ◌≡◌, ◌⊎◌, inl, inr, refl, Bool, true, false, Option, none, some, List, [], ◌∷◌, arith,
  length, length-append, Bytes, Option-cases, Bool-cases, is_empty,
}
use moduless.Hostsvc.Egress.{
  EgressRequest, Url, FetchState, Web, Answer, audit, receive, parse_target, exchange, admit_target,
  fetch, method_of, refused, bad_request, host_allowed, is_web, allow_rate,
}

receive-audits :
    {W : Type 0} (method url : Bytes) (a : Option Answer) (s : FetchState W)
    → length (receive method url a s).1.audits ≡ suc (length s.audits)
unfolding receive
receive-audits method url none s = ground (
  arith,
  length-append s.audits (record { method = method; url = url; status = 0; is_error = true } ∷ []),
)
receive-audits method url (some a) s = elim (Option-cases a.body) [
  | inl e ↦ rw e (
      ground (
        arith,
        length-append s.audits
            (record { method = method; url = url; status = a.status_code; is_error = true } ∷ []),
      ))
  | inr (b, e) ↦ rw e (
      ground (
        arith,
        length-append s.audits
            (record { method = method; url = url; status = a.status_code; is_error = false } ∷ []),
      ))
]

abbrev IsAudited : {W : Type 0} → FetchState W → FetchState W → Type 0
IsAudited s s' = length s'.audits ≡ suc (length s.audits)

audit-IsAudited :
    {W : Type 0} (method url : Bytes) (status : ℕ) (is_error : Bool) (s : FetchState W)
    → IsAudited s (audit method url status is_error s)
audit-IsAudited method url status is_error s = omega (
  arith,
  length-append s.audits
      (record { method = method; url = url; status = status; is_error = is_error } ∷ []),
)

module _ {W : Type 0} (web : Web W) where
  exchange-IsAudited : (req : EgressRequest) (s : FetchState W) → IsAudited s (exchange web req s).1
  unfolding exchange
  exchange-IsAudited req s =
      let method = method_of req.method in
      elim (Bool-cases (web.is_request method req.url)) [
        | inl e ↦ rw e (receive-audits method req.url _ _)
        | inr e ↦ rw e (audit-IsAudited method req.url 0 true s)
      ]

  admit_target-IsAudited :
      (now : ℕ) (plugin_key : Bytes) (allowed : List Bytes) (req : EgressRequest) (u : Url)
      (s : FetchState W)
      → IsAudited s (admit_target web now plugin_key allowed req u s).1
  unfolding admit_target
  admit_target-IsAudited now plugin_key allowed req u s =
      let gate = allow_rate now plugin_key s.egress in
      elim (Bool-cases (host_allowed u.hostname allowed)) [
        | inr e ↦ rw e (audit-IsAudited req.method req.url 0 true s)
        | inl e ↦ rw e (elim (Bool-cases gate.0) [
          | inr g ↦ rw g (audit-IsAudited req.method req.url 0 true (record s { egress = gate.1 }))
          | inl g ↦ rw g (exchange-IsAudited req (record s { egress = gate.1 }))
        ])
      ]

  fetch_refused :
      (now : ℕ) (plugin_key : Bytes) (allowed : List Bytes) (req : EgressRequest) (s : FetchState W)
      → parse_target web req.url ≡ none
      → fetch web now plugin_key allowed req s
        ≡ (refused bad_request, audit req.method req.url 0 true s)
  unfolding fetch
  fetch_refused now plugin_key allowed req s e = rw (e, fetch)

  fetch_admitted :
      (now : ℕ) (plugin_key : Bytes) (allowed : List Bytes) (req : EgressRequest) (u : Url)
      (s : FetchState W)
      → parse_target web req.url ≡ some u
      → fetch web now plugin_key allowed req s ≡ admit_target web now plugin_key allowed req u s
  unfolding fetch
  fetch_admitted now plugin_key allowed req u s e = rw (e, fetch)

  -- Every call of `Fetch` is audited exactly once, whether it is refused, fails or is answered.
  pub fetch_audits_once :
      (now : ℕ) (plugin_key : Bytes) (allowed : List Bytes) (req : EgressRequest) (s : FetchState W)
      → length (fetch web now plugin_key allowed req s).1.audits ≡ suc (length s.audits)
  unfolding fetch
  fetch_audits_once now plugin_key allowed req s = elim (Option-cases (parse_target web req.url)) [
    | inl e ↦
        rw (fetch_refused now plugin_key allowed req s e)
          (audit-IsAudited req.method req.url 0 true s)
    | inr (u, e) ↦
        rw (fetch_admitted now plugin_key allowed req u s e)
          (admit_target-IsAudited now plugin_key allowed req u s)
  ]

  admit_target-silent :
      (now : ℕ) (plugin_key : Bytes) (allowed : List Bytes) (req : EgressRequest) (u : Url)
      (s : FetchState W)
      → ((host_allowed u.hostname allowed ≡ true) × ((allow_rate now plugin_key s.egress).0 ≡ true))
        ⊎ ((admit_target web now plugin_key allowed req u s).1.web ≡ s.web)
  unfolding admit_target
  admit_target-silent now plugin_key allowed req u s = ground arith

  parse_target_lem :
      (raw : Bytes) (u : Url)
      → parse_target web raw ≡ some u
      → (web.parse raw ≡ some u) × (is_web u.scheme ≡ true) × (is_empty u.host ≡ false)
  unfolding parse_target
  parse_target_lem raw u h = ground arith

  -- `Fetch` leaves the network alone, or the URL parses, with http or https and a host, the host is
  -- on the plugin's allow-list, and the plugin is within its rate.
  pub fetch_gates :
      (now : ℕ) (plugin_key : Bytes) (allowed : List Bytes) (req : EgressRequest) (s : FetchState W)
      → ((u : Url) × (web.parse req.url ≡ some u)
          × (is_web u.scheme ≡ true)
          × (is_empty u.host ≡ false)
          × (host_allowed u.hostname allowed ≡ true)
          × ((allow_rate now plugin_key s.egress).0 ≡ true))
        ⊎ ((fetch web now plugin_key allowed req s).1.web ≡ s.web)
  unfolding fetch
  fetch_gates now plugin_key allowed req s = elim (Option-cases (parse_target web req.url)) [
    | inl e ↦ inr (rw (fetch_refused now plugin_key allowed req s e) refl)
    | inr (u, e) ↦ elim (admit_target-silent now plugin_key allowed req u s) [
      | inl g ↦ let p = parse_target_lem req.url u e in inl (u, p.0, p.1, p.2, g.0, g.1)
      | inr q ↦ inr (rw (fetch_admitted now plugin_key allowed req u s e) q)
    ]
  ]
