-- ===== src/Hostsvc/Locks/Tests.antt =====
-- Runs of the lock table.
use moduless.Base.{◌≡◌, refl, some, none, [], ◌∷◌, pos, arith, bytes, lookup, List, false, inr}
use moduless.Hostsvc.Locks.{MemoryLocks, Lease, Round, try_acquire, renew, max_held_of}
use moduless.Hostsvc.Locks.Exclusion.{Call, tried, renewed, run, lease_excludes, lease_renews}
use moduless.Hostsvc.Keys.{scoped_key}
use moduless.Hostsvc.Locks.Bound.{IsValid}

abbrev table : MemoryLocks
table = record { held = []; max_held = pos 2; last_sweep = 0 }

abbrev first : Lease
first = record { id = bytes "L1"; until = 105 }

table-IsValid : IsValid table
unfolding max_held_of
table-IsValid = record { unique = tt; bounded = omega arith }

abbrev others : List Call
others =
    tried 50 (bytes "q") (bytes "x") (bytes "L2") 9
    ∷ renewed 60 (bytes "p") (bytes "x") (bytes "L2") (pos 7)
    ∷ []

lease_excludes_example :
    (try_acquire 100
      (bytes "p")
      (bytes "x")
      (bytes "L3")
      5
      (run others (try_acquire 5 (bytes "p") (bytes "x") (bytes "L1") 100 table).1)).0
    ≡ none
unfolding try_acquire
lease_excludes_example =
    lease_excludes 5 (bytes "p") (bytes "x") (bytes "L1") 100 table first refl others
      (omega arith, (inr (λ e. ground arith), tt)) 100 (bytes "L3") 5 (omega arith)

lease_renews_example :
    let held = run others (try_acquire 5 (bytes "p") (bytes "x") (bytes "L1") 100 table).1 in
    let (answer, after) = renew 100 (bytes "p") (bytes "x") (bytes "L1") (pos 40) held in
    (answer ≡ some (record { id = bytes "L1"; until = 140 }))
    × (lookup (scoped_key (bytes "p") (bytes "x")) after.held
        ≡ some (record { lease_id = bytes "L1"; expires_at = some 140 }))
unfolding try_acquire
lease_renews_example =
    lease_renews 5 (bytes "p") (bytes "x") (bytes "L1") 100 table first refl others
      (omega arith, (inr (λ e. ground arith), tt)) 100 (pos 40) (omega arith)

abbrev lapsed : MemoryLocks
lapsed = record table {
  held = (112 ∷ 0 ∷ 120 ∷ [], record { lease_id = bytes "L1"; expires_at = some 40 }) ∷ [];
}

lapsed-IsValid : IsValid lapsed
unfolding max_held_of lookup
lapsed-IsValid = record { unique = (refl, tt); bounded = omega arith }

abbrev one_round : List Round
one_round =
    record { others = λ l. l; now_try = 30; now_check = 31; fresh_id = bytes "L2"; is_done = false }
    ∷ []
