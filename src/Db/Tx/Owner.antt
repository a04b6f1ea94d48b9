-- ===== src/Db/Tx/Owner.antt =====
-- Who can use a transaction of core/db/tx.go, and until when.
use moduless.Base.{
  ℕ, ◌≤◌, ◌<◌, Bool, List, [], ◌∷◌, Bytes, some, ◌≡◌, refl, sym, arith, Bool-cases, Option-cases,
  ◌⊎◌, inl, inr, ◌=?◌, =?→≡, ≡→=?, lookup, ◌≢◌, lookup-erase, =?_refl, ◌-◌, none, false, ◌∙◌,
}
use moduless.Db.Tx.{
  OpenTx, TxRegistry, Request, rollback, TxResult, gives, refuses, unknown, lookup_tx, take_tx,
  finish, finish_taken, owned, drop_locked, is_past, count_of,
}
use moduless.Db.Tx.Counts.{count-release}

-- What `owned` finds is in the map, and is the plugin's.
owned-some :
    (key id : Bytes) (r : TxRegistry) (t : OpenTx)
    → owned key id r ≡ some t
    → (lookup id r.txs ≡ some t) × (t.plugin_key ≡ key)
unfolding owned
owned-some key id r t h = elim (Option-cases (lookup id r.txs)) [
  | inl e ↦ absurd (cc (rw (e, owned) at h))
  | inr (u, e) ↦ elim (Bool-cases (u.plugin_key =? key)) [
    | inl q ↦
        let x : some u ≡ some t = rw q at (rw (e, owned) at h) in
        let y : u ≡ t = cc (x) in (cc (e, x), rw (sym y) (=?→≡ u.plugin_key key q))
    | inr q ↦ absurd (cc (rw q at (rw (e, owned) at h)))
  ]
]

owned-found :
    (key id : Bytes) (r : TxRegistry) (t : OpenTx)
    → lookup id r.txs ≡ some t
    → t.plugin_key ≡ key
    → owned key id r ≡ some t
unfolding owned
owned-found key id r t e q = rw (e, owned) (rw (≡→=? t.plugin_key key q) refl)

-- A transaction has been taken out: its id is gone and every other id is as before; the slot of
-- its plugin is free again, and every other plugin holds as many as before.
pub record IsWithout (id : Bytes) (t : OpenTx) (r s : TxRegistry) : Type 0 where
  pub gone : lookup id s.txs ≡ none
  pub kept : (j : Bytes) → (id =? j) ≡ false → lookup j s.txs ≡ lookup j r.txs
  pub freed : count_of t.plugin_key s.open_count ≡ count_of t.plugin_key r.open_count - 1
  pub others :
      (k : Bytes) → (t.plugin_key =? k) ≡ false → count_of k s.open_count ≡ count_of k r.open_count
  pub same_ceiling : s.max_open ≡ r.max_open

drop_locked-IsWithout :
    (id : Bytes) (t : OpenTx) (r : TxRegistry) → IsWithout id t r (drop_locked id t r)
unfolding drop_locked
drop_locked-IsWithout id t r = record {
  gone = lookup-erase id id r.txs ∙ rw (=?_refl id) refl;
  kept = λ j d. lookup-erase id j r.txs ∙ rw d refl;
  freed = count-release t.plugin_key t.plugin_key r.open_count ∙ rw (=?_refl t.plugin_key) refl;
  others = λ k d. count-release k t.plugin_key r.open_count ∙ rw d (omega arith);
  same_ceiling = refl;
}

-- What `Lookup` does: the transaction is there, the plugin's and in time; or it is too late; or
-- there is none that is the plugin's.
abbrev pub Looked : Bytes → Bytes → ℕ → TxRegistry → TxResult × List Request × TxRegistry → Type 0
Looked key id now r x =
    ((t : OpenTx) × (lookup id r.txs ≡ some t)
      × (t.plugin_key ≡ key)
      × (now ≤ t.expires_at)
      × (x ≡ (gives t.tx, [], r)))
    ⊎ (((t : OpenTx) × (lookup id r.txs ≡ some t)
          × (t.plugin_key ≡ key)
          × (t.expires_at < now)
          × (x.0 ≡ refuses unknown)
          × (x.1 ≡ rollback t.tx ∷ [])
          × IsWithout id t r x.2)
        ⊎ (((t : OpenTx) → lookup id r.txs ≡ some t → t.plugin_key ≢ key)
            × (x ≡ (refuses unknown, [], r))))

-- `Lookup` gives a transaction exactly where the plugin opened it and its time has not passed,
-- and leaves the registry as it is. One whose time has passed is refused and asked to roll back;
-- its id is gone and its plugin's slot free, while every other id and every other plugin's count
-- stay. For any other id or plugin nothing changes.
pub lookup_tx-branches :
    (key id : Bytes) (now : ℕ) (r : TxRegistry) → Looked key id now r (lookup_tx key id now r)
unfolding lookup_tx
lookup_tx-branches key id now r = elim (Option-cases (owned key id r)) [
  | inl e ↦ inr (inr (λ t h q. absurd (cc (owned-found key id r t h q, e)), rw (e, lookup_tx) refl))
  | inr (t, e) ↦
      let (h, q) = owned-some key id r t e in
      elim (Bool-cases (is_past now t)) [
        | inl p ↦ inr (
            inl (
              t,
              h,
              q,
              ground (arith, p),
              rw (e, lookup_tx) (rw p refl),
              rw (e, lookup_tx) (rw p refl),
              rw (e, lookup_tx) (rw p (drop_locked-IsWithout id t r)),
            ))
        | inr p ↦ inl (t, h, q, ground (arith, p), rw (e, lookup_tx) (rw p refl))
      ]
]

-- The same of `Commit` and `Rollback`, which do not ask for the time.
pub finish-branches :
    (ask : ℕ → Request) (ok : Bool) (key id : Bytes) (r : TxRegistry)
    → ((t : OpenTx) × (lookup id r.txs ≡ some t)
        × (t.plugin_key ≡ key)
        × ((finish ask ok key id r).1 ≡ ask t.tx ∷ [])
        × IsWithout id t r (finish ask ok key id r).2)
      ⊎ (((t : OpenTx) → lookup id r.txs ≡ some t → t.plugin_key ≢ key)
          × (finish ask ok key id r ≡ (refuses unknown, [], r)))
unfolding finish take_tx finish_taken
finish-branches ask ok key id r = elim (Option-cases (owned key id r)) [
  | inl e ↦ inr (λ t h q. absurd (cc (owned-found key id r t h q, e)), rw (e, take_tx) refl)
  | inr (t, e) ↦
      let (h, q) = owned-some key id r t e in
      inl (t, h, q, rw (e, take_tx) refl, rw (e, take_tx) (drop_locked-IsWithout id t r))
]
