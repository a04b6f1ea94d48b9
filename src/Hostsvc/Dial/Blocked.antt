-- ===== src/Hostsvc/Dial/Blocked.antt =====
-- Where `guardedDial` of core/hostsvc/egress.go connects to.
use moduless.Base.{
  ℕ, ◌/◌, ◌≡◌, refl, ap, sym, ◌∙◌, inl, inr, Bool, true, false, ◌&&◌, ◌||◌, Option, none, some,
  List, [], ◌∷◌, ◌++◌, append_assoc, append-nil, ◌==◌, if◌then◌else◌, Bytes, ◌=?◌, arith,
  Bool-cases, negate,
}
use moduless.Hostsvc.Dial.{
  mapped_prefix, to4, blocked_v4, blocked_ip, DialError, no_address, dial_from, guarded_dial,
}

-- The addresses that are not blocked, up to the first that connects, and that one.
abbrev pub tried : (Bytes → Bool) → List Bytes → List Bytes
tried connects [] = []
tried connects (ip ∷ ips) =
    if blocked_ip ip
    then tried connects ips
    else if connects ip
    then ip ∷ []
    else ip ∷ tried connects ips

-- The first that is not blocked and connects.
abbrev pub first_open : (Bytes → Bool) → List Bytes → Option Bytes
first_open connects [] = none
first_open connects (ip ∷ ips) =
    if negate (blocked_ip ip) && connects ip then some ip else first_open connects ips

dial_from_lem :
    (connects : Bytes → Bool) (ips : List Bytes) (last : DialError) (dialled : List Bytes)
    → ((dial_from connects ips last dialled).0.0 ≡ first_open connects ips)
      × ((dial_from connects ips last dialled).1 ≡ dialled ++ tried connects ips)
unfolding dial_from
dial_from_lem connects [] last dialled = (refl, sym (append-nil dialled))
dial_from_lem connects (ip ∷ ips) last dialled = elim (Bool-cases (blocked_ip ip)) [
  | inl b ↦ rw (b, tried, first_open) (dial_from_lem connects ips DialError.refused_address dialled)
  | inr b ↦ elim (Bool-cases (connects ip)) [
    | inl c ↦ rw (b, c, tried, first_open) (refl, refl)
    | inr c ↦
        let further = dial_from_lem connects ips DialError.dial_failed (dialled ++ ip ∷ []) in
        rw (b, c, tried, first_open)
          (further.0, further.1 ∙ append_assoc dialled (ip ∷ []) (tried connects ips))
  ]
]

-- A dial connects to the first address of the host that is not blocked and answers, and dials, in
-- order, exactly the addresses before it that are not blocked; a blocked address is never dialled.
pub guarded_dial_spares :
    (connects : Bytes → Bool) (ips : List Bytes)
    → ((guarded_dial connects ips).0.0 ≡ first_open connects ips)
      × ((guarded_dial connects ips).1 ≡ tried connects ips)
unfolding guarded_dial
guarded_dial_spares connects ips = dial_from_lem connects ips no_address []

abbrev pub v4 : ℕ → ℕ → ℕ → ℕ → Bytes
v4 a b c d = a ∷ b ∷ c ∷ d ∷ []

reorder : (x l u m : Bool) → (l ≡ true → m ≡ true) → (x || l || u || m) ≡ (x || m || u)
reorder true l u m h = refl
reorder false true u m h = rw (h refl) refl
reorder false false true m h = ground arith
reorder false false false m h = ground arith

last_flag : (a b c d : Bool) → (a && (b && (c && (d && true)))) ≡ (a && b && c && d)
last_flag false b c d = refl
last_flag true false c d = refl
last_flag true true false d = refl
last_flag true true true true = refl
last_flag true true true false = refl

-- The networks before the multicast ones.
abbrev blocked_before : ℕ → ℕ → Bool
blocked_before a b =
    a == 127
    || a == 10
    || (a == 172 && b / 16 == 1)
    || (a == 192 && b == 168)
    || (a == 169 && b == 254)

-- 224.0.0/24 lies in 224/4.
multicast : (a b c : ℕ) → (a == 224 && b == 0 && c == 0) ≡ true → (a / 16 == 14) ≡ true
multicast a b c h = let e : a ≡ 224 = ground (arith, h) in ap (λ n. n / 16 == 14) e

-- The form of sixteen bytes of an IPv4 address is blocked exactly when that of four bytes is, and that
-- is so exactly in the networks 127/8, 10/8, 172.16/12, 192.168/16, 169.254/16 and 224/4, and of the
-- address 0.0.0.0.
pub blocked_ip-v4 :
    (a b c d : ℕ)
    → (blocked_ip (mapped_prefix ++ v4 a b c d) ≡ blocked_ip (v4 a b c d))
      × (blocked_ip (v4 a b c d) ≡ (
          a == 127
          || a == 10
          || (a == 172 && b / 16 == 1)
          || (a == 192 && b == 168)
          || (a == 169 && b == 254)
          || a / 16 == 14
          || (a == 0 && b == 0 && c == 0 && d == 0)))
unfolding blocked_ip to4 blocked_v4 ◌=?◌
blocked_ip-v4 a b c d = (
  refl,
  reorder (blocked_before a b) (a == 224 && b == 0 && c == 0) _ (a / 16 == 14) (multicast a b c)
      ∙ ap (λ z. blocked_before a b || (a / 16 == 14) || z)
          (last_flag (a == 0) (b == 0) (c == 0) (d == 0)),
)
