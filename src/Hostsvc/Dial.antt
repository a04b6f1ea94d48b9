-- ===== src/Hostsvc/Dial.antt =====
-- `guardedDial` and `blockedIP` of core/hostsvc/egress.go, with the tests of Go's `net.IP` that they
-- make. An address is its list of 4 or 16 bytes. The answers of the resolver and of the dialer are
-- arguments; the addresses that are dialled are listed in order.
use moduless.Base.{
  ℕ, ◌/◌, ◌%◌, Bool, true, false, ◌&&◌, ◌||◌, Option, none, some, List, [], ◌∷◌, ◌++◌, ◌==◌,
  if◌then◌else◌, drop, take, length, Bytes, ◌=?◌,
}
pub mod Blocked
mod Tests

abbrev zeros_ten : Bytes
zeros_ten = 0 ∷ 0 ∷ 0 ∷ 0 ∷ 0 ∷ 0 ∷ 0 ∷ 0 ∷ 0 ∷ 0 ∷ []

-- The first twelve bytes of an IPv4 address in its form of sixteen bytes.
abbrev pub mapped_prefix : Bytes
mapped_prefix = zeros_ten ++ 255 ∷ 255 ∷ []

-- `ip.To4()`.
unfoldable pub to4 : Bytes → Option Bytes
unfolding ◌=?◌
to4 ip =
    if length ip == 4
    then some ip
    else if (length ip == 16) && (take 12 ip =? mapped_prefix)
    then some (drop 12 ip)
    else none

abbrev byte_at : ℕ → Bytes → ℕ
byte_at n [] = 0
byte_at ℕ.zero (c ∷ ip) = c
byte_at (ℕ.suc n) (c ∷ ip) = byte_at n ip

-- `blockedIP` on the four bytes of an IPv4 address, a test each: loopback, private, link-local,
-- unspecified and multicast.
unfoldable pub blocked_v4 : Bytes → Bool
blocked_v4 ip =
    byte_at 0 ip == 127
    || byte_at 0 ip == 10
    || (byte_at 0 ip == 172 && byte_at 1 ip / 16 == 1)
    || (byte_at 0 ip == 192 && byte_at 1 ip == 168)
    || (byte_at 0 ip == 169 && byte_at 1 ip == 254)
    || (byte_at 0 ip == 224 && byte_at 1 ip == 0 && byte_at 2 ip == 0)
    || (ip =? 0 ∷ 0 ∷ 0 ∷ 0 ∷ [])
    || byte_at 0 ip / 16 == 14

-- The same on the sixteen bytes of an address that is not one of IPv4.
unfoldable pub blocked_v6 : Bytes → Bool
unfolding ◌=?◌
blocked_v6 ip =
    (ip =? zeros_ten ++ 0 ∷ 0 ∷ 0 ∷ 0 ∷ 0 ∷ 1 ∷ [])
    || byte_at 0 ip / 2 == 126
    || (byte_at 0 ip == 254 && byte_at 1 ip / 64 == 2)
    || (byte_at 0 ip == 255 && byte_at 1 ip % 16 == 2)
    || (ip =? zeros_ten ++ 0 ∷ 0 ∷ 0 ∷ 0 ∷ 0 ∷ 0 ∷ [])
    || byte_at 0 ip == 255
    || (byte_at 0 ip == 255 && byte_at 1 ip % 16 == 1)

-- `blockedIP`, for an address of 4 or 16 bytes.
unfoldable pub blocked_ip : Bytes → Bool
unfolding to4 blocked_v4 blocked_v6
blocked_ip ip = elim (to4 ip) [ none ↦ blocked_v6 ip | some v4 ↦ blocked_v4 v4 ]

-- The last error of the loop: none yet, a refused address, or one of the dialer.
pub data DialError : Type 0 where
  no_address refused_address dial_failed : DialError

-- The loop of `guardedDial`: the address that was connected to, or the last error; and the addresses
-- that were dialled.
unfoldable pub dial_from :
    (Bytes → Bool) → List Bytes → DialError → List Bytes → (Option Bytes × DialError) × List Bytes
unfolding blocked_ip
dial_from connects [] last dialled = ((none, last), dialled)
dial_from connects (ip ∷ ips) last dialled =
    let skipped = dial_from connects ips refused_address dialled in
    let failed = dial_from connects ips dial_failed (dialled ++ ip ∷ []) in
    if blocked_ip ip
    then skipped
    else if connects ip
    then ((some ip, last), dialled ++ ip ∷ [])
    else failed

-- `guardedDial`, from the addresses of the host on.
unfoldable pub guarded_dial : (Bytes → Bool) → List Bytes → (Option Bytes × DialError) × List Bytes
unfolding dial_from
guarded_dial connects ips = dial_from connects ips no_address []
