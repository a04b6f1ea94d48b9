-- ===== src/Hostsvc/Dial/Tests.antt =====
-- Runs of the dial guard.
use moduless.Base.{◌≡◌, refl, true, false, ◌&&◌, ◌||◌, ◌==◌, ◌/◌, [], ◌∷◌, ◌++◌, List, Bytes}
use moduless.Hostsvc.Dial.{mapped_prefix, blocked_ip, guarded_dial}
use moduless.Hostsvc.Dial.Blocked.{v4, tried, first_open, guarded_dial_spares, blocked_ip-v4}

-- The metadata address of a cloud, and a public one.
abbrev answers : List Bytes
answers = (mapped_prefix ++ v4 169 254 169 254) ∷ v4 93 184 216 34 ∷ []

guarded_dial_spares_example :
    ((guarded_dial (λ ip. true) answers).0.0 ≡ first_open (λ ip. true) answers)
    × ((guarded_dial (λ ip. true) answers).1 ≡ tried (λ ip. true) answers)
guarded_dial_spares_example = guarded_dial_spares (λ ip. true) answers

only_public : (guarded_dial (λ ip. true) answers).1 ≡ v4 93 184 216 34 ∷ []
unfolding guarded_dial
only_public = refl

-- An address of the shared space of carriers, 100.64/10, is not blocked.
shared_space : blocked_ip (v4 100 64 0 1) ≡ false
unfolding blocked_ip
shared_space = refl

blocked_ip-v4_example :
    (blocked_ip (mapped_prefix ++ v4 100 64 0 1) ≡ blocked_ip (v4 100 64 0 1))
    × (blocked_ip (v4 100 64 0 1) ≡ (
        100 == 127
        || 100 == 10
        || (100 == 172 && 64 / 16 == 1)
        || (100 == 192 && 64 == 168)
        || (100 == 169 && 64 == 254)
        || 100 / 16 == 14
        || (100 == 0 && 64 == 0 && 0 == 0 && 1 == 0)))
blocked_ip-v4_example = blocked_ip-v4 100 64 0 1
