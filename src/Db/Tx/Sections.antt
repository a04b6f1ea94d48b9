-- ===== src/Db/Tx/Sections.antt =====
-- Each critical section of core/db/tx.go keeps the counters right.
use moduless.Base.{
  ℕ, ◌+◌, ◌≤◌, Bool, false, List, ◌∷◌, ◌++◌, Bytes, ◌=?◌, =?→≡, Option, none, some, lookup, insert,
  HasUniqueKeys, ◌≡◌, arith, Bool-cases, Option-cases, inl, inr, insert-HasUniqueKeys,
  erase-HasUniqueKeys, ℤ, sym, leb,
}
use moduless.Db.Tx.{
  OpenTx, TxRegistry, Request, admit, opened, refused, lookup_tx, take_tx, finish, finish_taken,
  owned, drop_locked, limit_of, count_of, is_past, clamp_timeout,
}
use moduless.Db.Tx.Counts.{
  held, waiting, waiting-append, held-insert, held-erase, count-take, count-release, one_if,
}

-- The counter of a plugin is what it holds and what it waits for, within the ceiling.
pub record IsBalanced (r : TxRegistry) (pending : List Bytes) : Type 0 where
  pub unique : HasUniqueKeys r.txs
  pub counted : (key : Bytes) → count_of key r.open_count ≡ held key r.txs + waiting key pending
  pub bounded : (key : Bytes) → count_of key r.open_count ≤ limit_of r

slot-bounded :
    (key k : Bytes) (r : TxRegistry)
    → count_of k r.open_count ≤ limit_of r
    → leb (limit_of r) (count_of key r.open_count) ≡ false
    → count_of k r.open_count + one_if (key =? k) ≤ limit_of r
slot-bounded key k r b e = elim (Bool-cases (key =? k)) [
  | inl q ↦
      (let f : leb (limit_of r) (count_of k r.open_count) ≡ false = rw (=?→≡ key k q) at e in
        rw q (ground (arith, f, b)))
  | inr q ↦ rw q (omega (arith, b))
]

pub admit-IsBalanced :
    (key : Bytes) (r s : TxRegistry) (pending : List Bytes)
    → IsBalanced r pending
    → admit key r ≡ (none, s)
    → IsBalanced s (key ∷ pending)
unfolding admit waiting
admit-IsBalanced key r s pending v h =
    elim (Bool-cases (leb (limit_of r) (count_of key r.open_count))) [
      | inl e ↦ absurd (cc (rw e at h))
      | inr e ↦
          let q : record r { open_count = insert key (count_of key r.open_count + 1) r.open_count }
              ≡ s =
            cc (rw e at h) in
          rw (sym q) (record {
            unique = v.unique;
            counted = λ k. omega (arith, count-take k key r.open_count, v.counted k);
            bounded = λ k.
                omega (arith, count-take k key r.open_count, slot-bounded key k r (v.bounded k) e);
          })
    ]

pub drop_locked-IsBalanced :
    (id : Bytes) (t : OpenTx) (r : TxRegistry) (pending : List Bytes)
    → IsBalanced r pending
    → lookup id r.txs ≡ some t
    → IsBalanced (drop_locked id t r) pending
unfolding drop_locked
drop_locked-IsBalanced id t r pending v h = record {
  unique = erase-HasUniqueKeys id r.txs v.unique;
  counted = λ key. omega (
    arith,
    count-release key t.plugin_key r.open_count,
    v.counted key,
    held-erase key id t r.txs v.unique h,
  );
  bounded = λ key. omega (arith, count-release key t.plugin_key r.open_count, v.bounded key);
}

pub refused-IsBalanced :
    (key : Bytes) (r : TxRegistry) (before after : List Bytes)
    → IsBalanced r (before ++ (key ∷ after))
    → IsBalanced (refused key r) (before ++ after)
unfolding refused
refused-IsBalanced key r before after v = record {
  unique = v.unique;
  counted = λ k.
      omega
        (arith, count-release k key r.open_count, v.counted k, waiting-append k key before after);
  bounded = λ k. omega (arith, count-release k key r.open_count, v.bounded k);
}

pub opened-IsBalanced :
    (key id : Bytes) (tx : ℕ) (timeout : ℤ) (now : ℕ) (r : TxRegistry) (before after : List Bytes)
    → IsBalanced r (before ++ (key ∷ after))
    → lookup id r.txs ≡ none
    → IsBalanced (opened key id tx timeout now r) (before ++ after)
unfolding opened
opened-IsBalanced key id tx timeout now r before after v h =
    let t : OpenTx = record {
      tx = tx;
      plugin_key = key;
      expires_at = now + clamp_timeout timeout;
    } in
    record {
      unique = insert-HasUniqueKeys id t r.txs v.unique;
      counted = λ k.
          omega (arith, held-insert k id t r.txs h, v.counted k, waiting-append k key before after);
      bounded = v.bounded;
    }

pub lookup_tx-IsBalanced :
    (key id : Bytes) (now : ℕ) (r : TxRegistry) (pending : List Bytes)
    → IsBalanced r pending
    → IsBalanced (lookup_tx key id now r).2 pending
unfolding lookup_tx owned
lookup_tx-IsBalanced key id now r pending v = elim (Option-cases (lookup id r.txs)) [
  | inl e ↦ rw (e, lookup_tx) v
  | inr (t, e) ↦ elim (Bool-cases (t.plugin_key =? key)) [
    | inl q ↦ elim (Bool-cases (is_past now t)) [
      | inl p ↦
          rw (e, lookup_tx) (rw (q, lookup_tx) (rw p (drop_locked-IsBalanced id t r pending v e)))
      | inr p ↦ rw (e, lookup_tx) (rw (q, lookup_tx) (rw p v))
    ]
    | inr q ↦ rw (e, lookup_tx) (rw (q, lookup_tx) v)
  ]
]

pub take_tx-IsBalanced :
    (key id : Bytes) (r : TxRegistry) (pending : List Bytes)
    → IsBalanced r pending
    → IsBalanced (take_tx key id r).1 pending
unfolding take_tx owned
take_tx-IsBalanced key id r pending v = elim (Option-cases (lookup id r.txs)) [
  | inl e ↦ rw (e, take_tx) v
  | inr (t, e) ↦ elim (Bool-cases (t.plugin_key =? key)) [
    | inl q ↦ rw (e, take_tx) (rw (q, take_tx) (drop_locked-IsBalanced id t r pending v e))
    | inr q ↦ rw (e, take_tx) (rw (q, take_tx) v)
  ]
]

pub finish-IsBalanced :
    (ask : ℕ → Request) (ok : Bool) (key id : Bytes) (r : TxRegistry) (pending : List Bytes)
    → IsBalanced r pending
    → IsBalanced (finish ask ok key id r).2 pending
unfolding finish
finish-IsBalanced ask ok key id r pending v =
    go (take_tx key id r) (take_tx-IsBalanced key id r pending v)
  where
    go :
        (x : Option OpenTx × TxRegistry)
        → IsBalanced x.1 pending
        → IsBalanced (finish_taken ask ok x).2 pending
    go (none, s) w = w
    go (some t, s) w = w
