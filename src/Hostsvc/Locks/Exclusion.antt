-- ===== src/Hostsvc/Locks/Exclusion.antt =====
-- Mutual exclusion of the leases of core/hostsvc/memory.go.
use moduless.Base.{
  ℕ, ◌+◌, ◌<◌, ◌≡◌, ◌≢◌, ◌⊎◌, none, some, List, [], ◌∷◌, arith, All, Bytes, =?_iff, =?_refl, ℤ,
  default_unless_pos, lookup, lookup-insert, lookup-erase, lookup-discard_kept, lookup-insert_self,
}
use moduless.Hostsvc.Keys.{scoped_key, expired}
use moduless.Hostsvc.Locks.{
  LockState, MemoryLocks, Lease, sweep_expired, try_take, try_acquire, renew, release, is_taken,
  renew_at, may_renew, release_at, is_owner, default_lock_ttl,
}

-- A call of a method, by any plugin, with what it reads from outside.
pub data Call : Type 0 where
  tried : ℕ → Bytes → Bytes → Bytes → ℕ → Call
  renewed : ℕ → Bytes → Bytes → Bytes → ℤ → Call
  released : Bytes → Bytes → Bytes → Call

unfoldable pub step : Call → MemoryLocks → MemoryLocks
step (tried now plugin_key name fresh_id ttl) l = (try_acquire now plugin_key name fresh_id ttl l).1
step (renewed now plugin_key name id ttl) l = (renew now plugin_key name id ttl l).1
step (released plugin_key name id) l = release plugin_key name id l

unfoldable pub run : List Call → MemoryLocks → MemoryLocks
unfolding step
run [] l = l
run (c ∷ cs) l = run cs (step c l)

-- The table's entry for a lease.
abbrev pub entry : Lease → LockState
entry lease = record { lease_id = lease.id; expires_at = some lease.until }

module _ (k : Bytes) (lease : Lease) where
  -- A call made before the lease ends, and not with the lease's own id under its key.
  abbrev pub IsForeign : Call → Type 0
  IsForeign (tried now plugin_key name fresh_id ttl) = now < lease.until
  IsForeign (renewed now plugin_key name id ttl) =
      (scoped_key plugin_key name ≢ k) ⊎ (id ≢ lease.id)
  IsForeign (released plugin_key name id) = (scoped_key plugin_key name ≢ k) ⊎ (id ≢ lease.id)

  sweep_expired-keeps :
      (now : ℕ) (l : MemoryLocks)
      → now < lease.until
      → lookup k l.held ≡ some (entry lease)
      → lookup k (sweep_expired now l).held ≡ some (entry lease)
  unfolding sweep_expired
  sweep_expired-keeps now l t h =
      ground (arith, lookup-discard_kept (λ st. expired now st.expires_at) k (entry lease) l.held h)

  try_take-keeps :
      (now : ℕ) (j fresh_id : Bytes) (ttl : ℕ) (l : MemoryLocks)
      → now < lease.until
      → lookup k l.held ≡ some (entry lease)
      → lookup k (try_take now j fresh_id ttl l).1.held ≡ some (entry lease)
  unfolding try_take
  try_take-keeps now j fresh_id ttl l t h = ground (
    arith,
    lookup-insert j k (record { lease_id = fresh_id; expires_at = some (now + ttl) }) l.held,
    =?_iff j k,
  )

  renew_at-keeps :
      (now : ℕ) (j id : Bytes) (until : ℕ) (l : MemoryLocks)
      → (j ≢ k) ⊎ (id ≢ lease.id)
      → lookup k l.held ≡ some (entry lease)
      → lookup k (renew_at now j id until l).1.held ≡ some (entry lease)
  unfolding renew_at may_renew
  renew_at-keeps now j id until l f h = ground (
    arith,
    lookup-insert j k (record { lease_id = id; expires_at = some until }) l.held,
    =?_iff j k,
    =?_iff lease.id id,
  )

  release_at-keeps :
      (j id : Bytes) (l : MemoryLocks)
      → (j ≢ k) ⊎ (id ≢ lease.id)
      → lookup k l.held ≡ some (entry lease)
      → lookup k (release_at j id l).held ≡ some (entry lease)
  unfolding release_at is_owner
  release_at-keeps j id l f h =
      ground (arith, lookup-erase j k l.held, =?_iff j k, =?_iff lease.id id)

  step-keeps :
      (c : Call) (l : MemoryLocks)
      → IsForeign c
      → lookup k l.held ≡ some (entry lease)
      → lookup k (step c l).held ≡ some (entry lease)
  unfolding step try_acquire renew release
  step-keeps (tried now plugin_key name fresh_id ttl) l f h =
      try_take-keeps now (scoped_key plugin_key name) fresh_id ttl (sweep_expired now l) f
        (sweep_expired-keeps now l f h)
  step-keeps (renewed now plugin_key name id ttl) l f h =
      renew_at-keeps now (scoped_key plugin_key name) id
        (now + default_unless_pos default_lock_ttl ttl) l f h
  step-keeps (released plugin_key name id) l f h =
      release_at-keeps (scoped_key plugin_key name) id l f h

  run-keeps :
      (cs : List Call) (l : MemoryLocks)
      → All IsForeign cs
      → lookup k l.held ≡ some (entry lease)
      → lookup k (run cs l).held ≡ some (entry lease)
  unfolding run
  run-keeps [] l f h = h
  run-keeps (c ∷ cs) l f h = run-keeps cs (step c l) f.1 (step-keeps c l f.0 h)

-- What a successful `tryAcquire` leaves behind.
pub try_acquire-entry :
    (now : ℕ) (plugin_key name fresh_id : Bytes) (ttl : ℕ) (l : MemoryLocks) (lease : Lease)
    → (try_acquire now plugin_key name fresh_id ttl l).0 ≡ some lease
    → (lookup (scoped_key plugin_key name) (try_acquire now plugin_key name fresh_id ttl l).1.held
        ≡ some (entry lease))
      × (lease.until ≡ now + ttl)
      × (lease.id ≡ fresh_id)
unfolding try_acquire try_take
try_acquire-entry now plugin_key name fresh_id ttl l lease h =
    let k = scoped_key plugin_key name in
    ground (
      arith,
      lookup-insert_self k (record { lease_id = fresh_id; expires_at = some (now + ttl) })
          (sweep_expired now l).held,
    )

-- While a lease is live, `tryAcquire` refuses its name.
try_acquire-refuses :
    (lease : Lease) (now : ℕ) (plugin_key name fresh_id : Bytes) (ttl : ℕ) (l : MemoryLocks)
    → now < lease.until
    → lookup (scoped_key plugin_key name) l.held ≡ some (entry lease)
    → (try_acquire now plugin_key name fresh_id ttl l).0 ≡ none
unfolding try_acquire try_take is_taken
try_acquire-refuses lease now plugin_key name fresh_id ttl l t h =
    ground (arith, sweep_expired-keeps (scoped_key plugin_key name) lease now l t h)

-- Two holders never overlap: after a lease is handed out, and whatever calls follow it before it
-- ends, of any plugin and for any name, other than a renewal or release of this lock with the
-- lease's own id, every further `tryAcquire` of the lock before the lease ends is refused.
pub lease_excludes :
    (now : ℕ) (plugin_key name fresh_id : Bytes) (ttl : ℕ) (l : MemoryLocks) (lease : Lease)
    → (try_acquire now plugin_key name fresh_id ttl l).0 ≡ some lease
    → (cs : List Call) → All (IsForeign (scoped_key plugin_key name) lease) cs
    → (later : ℕ) (other_id : Bytes) (other_ttl : ℕ) → later < lease.until
    → (try_acquire later plugin_key name other_id other_ttl
        (run cs (try_acquire now plugin_key name fresh_id ttl l).1)).0
      ≡ none
lease_excludes now plugin_key name fresh_id ttl l lease h cs f later other_id other_ttl t =
    try_acquire-refuses lease later plugin_key name other_id other_ttl _ t (
      run-keeps (scoped_key plugin_key name) lease cs _ f
        (try_acquire-entry now plugin_key name fresh_id ttl l lease h).0)

abbrev prolonged : Lease → ℕ → ℤ → Lease
prolonged lease now more = record {
  id = lease.id;
  until = now + default_unless_pos default_lock_ttl more;
}

renew-live :
    (lease : Lease) (now : ℕ) (plugin_key name : Bytes) (more : ℤ) (l : MemoryLocks)
    → lookup (scoped_key plugin_key name) l.held ≡ some (entry lease)
    → now < lease.until
    → ((renew now plugin_key name lease.id more l).0 ≡ some (prolonged lease now more))
      × (lookup (scoped_key plugin_key name) (renew now plugin_key name lease.id more l).1.held
          ≡ some (entry (prolonged lease now more)))
unfolding renew renew_at may_renew
renew-live lease now plugin_key name more l h t =
    let k = scoped_key plugin_key name in
    let until = now + default_unless_pos default_lock_ttl more in
    ground (
      arith,
      =?_refl lease.id,
      lookup-insert_self k (record { lease_id = lease.id; expires_at = some until }) l.held,
    )

-- Under the same conditions the holder can still renew its lease before it ends. The renewal moves
-- the end to the clock reading plus the time asked for: such a lease is the answer, and the table
-- then holds the lock with that end.
pub lease_renews :
    (now : ℕ) (plugin_key name fresh_id : Bytes) (ttl : ℕ) (l : MemoryLocks) (lease : Lease)
    → (try_acquire now plugin_key name fresh_id ttl l).0 ≡ some lease
    → (cs : List Call) → All (IsForeign (scoped_key plugin_key name) lease) cs
    → (later : ℕ) (more : ℤ) → later < lease.until
    → let held = run cs (try_acquire now plugin_key name fresh_id ttl l).1 in
      let (answer, after) = renew later plugin_key name lease.id more held in
      let until = later + default_unless_pos default_lock_ttl more in
      (answer ≡ some (record { id = lease.id; until = until }))
      × (lookup (scoped_key plugin_key name) after.held
          ≡ some (record { lease_id = lease.id; expires_at = some until }))
lease_renews now plugin_key name fresh_id ttl l lease h cs f later more t =
    renew-live lease later plugin_key name more _
      (run-keeps (scoped_key plugin_key name) lease cs _ f
        (try_acquire-entry now plugin_key name fresh_id ttl l lease h).0)
      t
