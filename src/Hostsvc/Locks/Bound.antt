-- ===== src/Hostsvc/Locks/Bound.antt =====
-- The size of the lock table of core/hostsvc/memory.go, and recovery from a lost lease.
use moduless.Base.{
  ℕ, suc, ◌+◌, ◌≤◌, ◌<◌, ◌≡◌, ◌⊎◌, true, false, some, List, [], ◌∷◌, arith, length, Bytes, ℤ, pos,
  negsuc, default_unless_pos, lookup, length-discard-le, length-discard-lt, length-insert-le,
  length-insert_present, length-erase-le, Option-cases, inl, inr, HasUniqueKeys,
  insert-HasUniqueKeys, erase-HasUniqueKeys, discard-HasUniqueKeys, lookup-discard_gone,
}
use moduless.Hostsvc.Keys.{scoped_key, expired}
use moduless.Hostsvc.Locks.{
  LockState, MemoryLocks, sweep_expired, try_take, try_acquire, renew, release, is_taken,
  is_present, renew_at, may_renew, release_at, max_held_of, default_max_locks,
}
use moduless.Hostsvc.Locks.Exclusion.{Call, tried, renewed, released, step, run}

max_held_pos : (l : MemoryLocks) → 0 < max_held_of l
unfolding max_held_of
max_held_pos l = go l.max_held
  where
    go : (m : ℤ) → 0 < default_unless_pos default_max_locks m
    go (pos ℕ.zero) = omega arith
    go (pos (suc n)) = omega arith
    go (negsuc n) = omega arith

-- The table is a map within its ceiling.
pub record IsValid (l : MemoryLocks) : Type 0 where
  pub unique : HasUniqueKeys l.held
  pub bounded : length l.held ≤ max_held_of l

sweep_expired-IsValid : (now : ℕ) (l : MemoryLocks) → IsValid l → IsValid (sweep_expired now l)
unfolding sweep_expired max_held_of
sweep_expired-IsValid now l v =
    let p = λ (st : LockState). expired now st.expires_at in
    ground (arith, length-discard-le p l.held, discard-HasUniqueKeys p l.held v.unique)

try_take-IsValid :
    (now : ℕ) (k fresh_id : Bytes) (ttl : ℕ) (l : MemoryLocks)
    → IsValid l
    → IsValid (try_take now k fresh_id ttl l).1
unfolding try_take max_held_of
try_take-IsValid now k fresh_id ttl l v =
    let st : LockState = record { lease_id = fresh_id; expires_at = some (now + ttl) } in
    let u = insert-HasUniqueKeys k st l.held v.unique in
    elim (Option-cases (lookup k l.held)) [
      | inl e ↦ ground (arith, e, u, length-insert-le k st l.held, max_held_pos l)
      | inr (w, e) ↦ ground (arith, e, u, length-insert_present k st w l.held e)
    ]

renew_at-IsValid :
    (now : ℕ) (k id : Bytes) (until : ℕ) (l : MemoryLocks)
    → IsValid l
    → IsValid (renew_at now k id until l).1
unfolding renew_at may_renew max_held_of
renew_at-IsValid now k id until l v =
    let st : LockState = record { lease_id = id; expires_at = some until } in
    let u = insert-HasUniqueKeys k st l.held v.unique in
    elim (Option-cases (lookup k l.held)) [
      | inl e ↦ ground (arith, e)
      | inr (w, e) ↦ ground (arith, e, u, length-insert_present k st w l.held e)
    ]

release_at-IsValid : (k id : Bytes) (l : MemoryLocks) → IsValid l → IsValid (release_at k id l)
unfolding release_at max_held_of
release_at-IsValid k id l v =
    ground (arith, length-erase-le k l.held, erase-HasUniqueKeys k l.held v.unique)

step_call-IsValid : (c : Call) (l : MemoryLocks) → IsValid l → IsValid (step c l)
unfolding step try_acquire renew release
step_call-IsValid (tried now plugin_key name fresh_id ttl) l v =
    try_take-IsValid now _ fresh_id ttl _ (sweep_expired-IsValid now l v)
step_call-IsValid (renewed now plugin_key name id ttl) l v = renew_at-IsValid now _ id _ l v
step_call-IsValid (released plugin_key name id) l v = release_at-IsValid _ id l v

-- No sequence of calls makes the lock table hold a name twice or grow beyond its ceiling.
pub run_calls-IsValid : (cs : List Call) (l : MemoryLocks) → IsValid l → IsValid (run cs l)
unfolding run
run_calls-IsValid [] l v = v
run_calls-IsValid (c ∷ cs) l v = run_calls-IsValid cs (step c l) (step_call-IsValid c l v)

-- A name that is not taken is handed out, if it is in the table or the table is below its ceiling.
try_take-free :
    (now : ℕ) (k fresh_id : Bytes) (ttl : ℕ) (l : MemoryLocks)
    → is_taken now (lookup k l.held) ≡ false
    → (is_present (lookup k l.held) ≡ true) ⊎ (length l.held < max_held_of l)
    → (try_take now k fresh_id ttl l).0 ≡ some (record { id = fresh_id; until = now + ttl })
unfolding try_take
try_take-free now k fresh_id ttl l t h = ground arith

-- After the sweep a lapsed lease is gone, or the sweep was not due and it is still there.
sweep_expired-lapsed :
    (now : ℕ) (k : Bytes) (l : MemoryLocks) (cur : LockState)
    → lookup k l.held ≡ some cur
    → expired now cur.expires_at ≡ true
    → IsValid l
    → let l' = sweep_expired now l in
      (is_taken now (lookup k l'.held) ≡ false)
      × ((is_present (lookup k l'.held) ≡ true) ⊎ (length l'.held < max_held_of l'))
unfolding sweep_expired is_taken max_held_of
sweep_expired-lapsed now k l cur h e v =
    let p = λ (st : LockState). expired now st.expires_at in
    ground
      (arith, lookup-discard_gone p k cur l.held v.unique h e, length-discard-lt p k cur l.held h e)

-- A lease that its holder lost blocks nobody: once it has ended, the next `tryAcquire` of its name
-- hands out a new lease.
pub lapsed_lease_is_free :
    (now : ℕ) (plugin_key name fresh_id : Bytes) (ttl : ℕ) (l : MemoryLocks) (cur : LockState)
    → lookup (scoped_key plugin_key name) l.held ≡ some cur
    → expired now cur.expires_at ≡ true
    → IsValid l
    → (try_acquire now plugin_key name fresh_id ttl l).0
      ≡ some (record { id = fresh_id; until = now + ttl })
unfolding try_acquire
lapsed_lease_is_free now plugin_key name fresh_id ttl l cur h e v =
    let k = scoped_key plugin_key name in
    let found = sweep_expired-lapsed now k l cur h e v in
    try_take-free now k fresh_id ttl (sweep_expired now l) found.0 found.1
