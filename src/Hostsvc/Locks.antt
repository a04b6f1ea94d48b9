-- ===== src/Hostsvc/Locks.antt =====
-- The leases of core/hostsvc/memory.go. A method that takes the mutex is one step on the table; a
-- clock reading and a fresh lease id enter as arguments.
use moduless.Base.{
  ℕ, zero, suc, ◌+◌, ◌-◌, Bool, true, false, ◌&&◌, ◌||◌, Option, none, some, List, [], ◌∷◌,
  if◌then◌else◌, ltb, leb, negate, ℤ, pos, negsuc, default_unless_pos, length, Bytes, ◌=?◌, Dict,
  lookup, insert, erase, discard,
}
use moduless.Hostsvc.Keys.{scoped_key, expired}
pub mod Waiting
pub mod Bound
pub mod Exclusion
mod Tests

pub record LockState : Type 0 where
  pub lease_id : Bytes
  pub expires_at : Option ℕ

pub record MemoryLocks : Type 0 where
  pub held : Dict LockState
  pub max_held : ℤ
  pub last_sweep : ℕ

pub record Lease : Type 0 where
  pub id : Bytes
  pub until : ℕ

-- 30 * time.Second, in nanoseconds.
abbrev pub lock_sweep_interval : ℕ
lock_sweep_interval = 30_000_000_000

abbrev pub default_lock_ttl : ℕ
default_lock_ttl = 30_000_000_000

abbrev pub default_max_locks : ℕ
default_max_locks = 10_000

-- `maxHeld`.
unfoldable pub max_held_of : MemoryLocks → ℕ
max_held_of l = default_unless_pos default_max_locks l.max_held

-- `now.Sub(l.lastSweep) < lockSweepInterval`, where the difference may be negative.
abbrev pub swept_recently : ℕ → ℕ → Bool
swept_recently now last = ltb now (last + lock_sweep_interval)

-- `sweepExpiredLocked`.
unfoldable pub sweep_expired : ℕ → MemoryLocks → MemoryLocks
unfolding expired discard
sweep_expired now l =
    if swept_recently now l.last_sweep
    then l
    else record l { held = discard (λ st. expired now st.expires_at) l.held; last_sweep = now }

-- `cur, ok := l.held[k]; ok && !expired(now, cur.expiresAt)`.
unfoldable pub is_taken : ℕ → Option LockState → Bool
unfolding expired
is_taken now none = false
is_taken now (some cur) = negate (expired now cur.expires_at)

abbrev pub is_present : Option LockState → Bool
is_present none = false
is_present (some cur) = true

-- The part of `tryAcquire` behind the sweep.
unfoldable pub try_take : ℕ → Bytes → Bytes → ℕ → MemoryLocks → Option Lease × MemoryLocks
unfolding is_taken max_held_of lookup insert
try_take now k fresh_id ttl l =
    if is_taken now (lookup k l.held)
    then (none, l)
    else if negate (is_present (lookup k l.held))
        && ltb 0 (max_held_of l)
        && leb (max_held_of l) (length l.held)
    then (none, l)
    else (
      some (record { id = fresh_id; until = now + ttl }),
      record l {
        held = insert k (record { lease_id = fresh_id; expires_at = some (now + ttl) }) l.held;
      },
    )

-- `tryAcquire`.
unfoldable pub try_acquire :
    ℕ → Bytes → Bytes → Bytes → ℕ → MemoryLocks → Option Lease × MemoryLocks
unfolding scoped_key sweep_expired try_take
try_acquire now plugin_key name fresh_id ttl l =
    try_take now (scoped_key plugin_key name) fresh_id ttl (sweep_expired now l)

-- The test of `Renew` on the entry that it finds.
unfoldable pub may_renew : ℕ → Bytes → Option LockState → Bool
unfolding ◌=?◌ expired
may_renew now lease_id none = false
may_renew now lease_id (some cur) = cur.lease_id =? lease_id && negate (expired now cur.expires_at)

-- The part of `Renew` under the mutex, with the new expiry computed.
unfoldable pub renew_at : ℕ → Bytes → Bytes → ℕ → MemoryLocks → Option Lease × MemoryLocks
unfolding may_renew lookup insert
renew_at now k lease_id until l =
    if may_renew now lease_id (lookup k l.held)
    then (
      some (record { id = lease_id; until = until }),
      record l { held = insert k (record { lease_id = lease_id; expires_at = some until }) l.held },
    )
    else (none, l)

-- `Renew`; both of its clock readings are `now`.
unfoldable pub renew : ℕ → Bytes → Bytes → Bytes → ℤ → MemoryLocks → Option Lease × MemoryLocks
unfolding scoped_key renew_at
renew now plugin_key name lease_id ttl l =
    renew_at now (scoped_key plugin_key name) lease_id
      (now + default_unless_pos default_lock_ttl ttl) l

-- The test of `Release`.
unfoldable pub is_owner : Bytes → Option LockState → Bool
unfolding ◌=?◌
is_owner lease_id none = false
is_owner lease_id (some cur) = cur.lease_id =? lease_id

-- `Release` behind the computation of the key.
unfoldable pub release_at : Bytes → Bytes → MemoryLocks → MemoryLocks
unfolding is_owner lookup erase
release_at k lease_id l =
    if is_owner lease_id (lookup k l.held) then record l { held = erase k l.held } else l

-- `Release`.
unfoldable pub release : Bytes → Bytes → Bytes → MemoryLocks → MemoryLocks
unfolding scoped_key release_at
release plugin_key name lease_id l = release_at (scoped_key plugin_key name) lease_id l

-- How a call of `Acquire` can stand: it returned, or it is still waiting when the rounds end.
pub data Acquired : Type 0 where
  got : Lease → Acquired
  gave_up cancelled waiting : Acquired

-- One round of the loop of `Acquire`: what other goroutines did to the table before it, the clock
-- readings of `tryAcquire` and of the test behind it, and whether the context ended during the wait
-- of 10 ms.
pub record Round : Type 0 where
  pub others : MemoryLocks → MemoryLocks
  pub now_try : ℕ
  pub now_check : ℕ
  pub fresh_id : Bytes
  pub is_done : Bool

is_positive : ℤ → Bool
is_positive (pos zero) = false
is_positive (pos (suc n)) = true
is_positive (negsuc n) = false

-- The loop of `Acquire`; `has_wait` is `wait > 0`, and `deadline` is not read without it.
unfoldable pub acquire_loop :
    Bytes → Bytes → ℕ → Bool → ℕ → List Round → MemoryLocks → Acquired × MemoryLocks
unfolding try_acquire
acquire_loop plugin_key name ttl has_wait deadline [] l = (waiting, l)
acquire_loop plugin_key name ttl has_wait deadline (r ∷ rs) l =
    let (answer, l') = try_acquire r.now_try plugin_key name r.fresh_id ttl (r.others l) in
    let rest = acquire_loop plugin_key name ttl has_wait deadline rs l' in
    elim answer [
      | some lease ↦ (got lease, l')
      | none ↦
          if negate has_wait || leb deadline r.now_check
          then (gave_up, l')
          else if r.is_done
          then (cancelled, l')
          else rest
    ]

abbrev pub nat_part : ℤ → ℕ
nat_part (pos n) = n
nat_part (negsuc n) = 0

-- `Acquire`, entered at the clock reading `now`.
unfoldable pub acquire :
    ℕ → Bytes → Bytes → ℤ → ℤ → List Round → MemoryLocks → Acquired × MemoryLocks
unfolding acquire_loop is_positive
acquire now plugin_key name ttl wait rounds l =
    acquire_loop plugin_key name (default_unless_pos default_lock_ttl ttl) (is_positive wait)
      (now + nat_part wait) rounds l
