-- ===== src/Hostsvc/Locks/Waiting.antt =====
-- `Acquire` of core/hostsvc/memory.go, the loop that waits for a lock.
use moduless.Base.{ℕ, ◌+◌, ◌≤◌, ◌≡◌, ◌≢◌, ◌⊎◌, Bool, some, List, [], ◌∷◌, arith, Bytes, ℤ, lookup}
use moduless.Hostsvc.Keys.{scoped_key}
use moduless.Hostsvc.Locks.{
  MemoryLocks, Lease, try_acquire, got, waiting, Round, acquire_loop, acquire, nat_part,
}
use moduless.Hostsvc.Locks.Exclusion.{entry, try_acquire-entry}

-- In some round the deadline has passed when the loop looks at the clock.
abbrev pub Passes : ℕ → List Round → Type 0
Passes deadline [] = ⊥
Passes deadline (r ∷ rs) = (deadline ≤ r.now_check) ⊎ Passes deadline rs

acquire_loop_stops :
    (plugin_key name : Bytes) (ttl : ℕ) (has_wait : Bool) (deadline : ℕ) (rs : List Round)
    (l : MemoryLocks)
    → Passes deadline rs
    → (acquire_loop plugin_key name ttl has_wait deadline rs l).0 ≢ waiting
unfolding acquire_loop
acquire_loop_stops plugin_key name ttl has_wait deadline [] l p = absurd p
acquire_loop_stops plugin_key name ttl has_wait deadline (r ∷ rs) l p =
    let t = try_acquire r.now_try plugin_key name r.fresh_id ttl (r.others l) in
    ground (arith, acquire_loop_stops plugin_key name ttl has_wait deadline rs t.1)

acquire_loop-entry :
    (plugin_key name : Bytes) (ttl : ℕ) (has_wait : Bool) (deadline : ℕ) (rs : List Round)
    (l : MemoryLocks) (lease : Lease)
    → (acquire_loop plugin_key name ttl has_wait deadline rs l).0 ≡ got lease
    → lookup
        (scoped_key plugin_key name)
        (acquire_loop plugin_key name ttl has_wait deadline rs l).1.held
      ≡ some (entry lease)
unfolding acquire_loop
acquire_loop-entry plugin_key name ttl has_wait deadline [] l lease h = cc
acquire_loop-entry plugin_key name ttl has_wait deadline (r ∷ rs) l lease h =
    let t = try_acquire r.now_try plugin_key name r.fresh_id ttl (r.others l) in
    ground (
      arith,
      try_acquire-entry r.now_try plugin_key name r.fresh_id ttl (r.others l) lease,
      acquire_loop-entry plugin_key name ttl has_wait deadline rs t.1 lease,
    )

-- A call of `Acquire` does not wait past its deadline: if the clock passes the deadline at the end
-- of some round, the call has returned, whatever other goroutines do to the table.
pub acquire_returns :
    (now : ℕ) (plugin_key name : Bytes) (ttl wait : ℤ) (rs : List Round) (l : MemoryLocks)
    → Passes (now + nat_part wait) rs
    → (acquire now plugin_key name ttl wait rs l).0 ≢ waiting
unfolding acquire
acquire_returns now plugin_key name ttl wait rs l p =
    acquire_loop_stops plugin_key name _ _ _ rs l p

-- A lease that `Acquire` returns is the one in the table, under the name that was asked for.
pub acquire-entry :
    (now : ℕ) (plugin_key name : Bytes) (ttl wait : ℤ) (rs : List Round) (l : MemoryLocks)
    (lease : Lease)
    → (acquire now plugin_key name ttl wait rs l).0 ≡ got lease
    → lookup (scoped_key plugin_key name) (acquire now plugin_key name ttl wait rs l).1.held
      ≡ some (entry lease)
unfolding acquire
acquire-entry now plugin_key name ttl wait rs l lease h =
    acquire_loop-entry plugin_key name _ _ _ rs l lease h
