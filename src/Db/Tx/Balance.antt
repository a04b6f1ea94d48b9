-- ===== src/Db/Tx/Balance.antt =====
-- The ceiling on open transactions, whatever the calls and their order: core/db/tx.go.
use moduless.Base.{
  ℕ, List, [], ◌∷◌, Bytes, ◌=?◌, =?→≡, =?_refl, none, some, Dict, lookup, lookup-erase,
  HasUniqueKeys, ◌≡◌, refl, arith, Bool-cases, inl, inr, ℤ, leb,
}
use moduless.Db.Tx.{
  OpenTx, TxRegistry, TxError, new_tx_registry, admit, reap_expired, close, drop_locked, reap_from,
  close_from, limit_of, count_of, is_past,
}
use moduless.Db.Tx.Sections.{
  IsBalanced, admit-IsBalanced, drop_locked-IsBalanced, refused-IsBalanced, opened-IsBalanced,
  lookup_tx-IsBalanced, finish-IsBalanced,
}
use moduless.Db.Tx.Counts.{held, waiting}
use moduless.Db.Tx.Steps.{
  System, Step, Reachable, admitted, turned_away, begun, not_begun, looked_up, finished, reaped,
  closed, start, step,
}

-- What the loops of `ReapExpired` and `Close` know of the entries they have still to see.
abbrev pub Covers : Dict OpenTx → TxRegistry → Type 0
Covers entries r = (id : Bytes) (t : OpenTx) → lookup id entries ≡ some t → lookup id r.txs ≡ some t

pub Covers-head :
    (id : Bytes) (t : OpenTx) (entries : Dict OpenTx) (r : TxRegistry)
    → Covers ((id, t) ∷ entries) r
    → lookup id r.txs ≡ some t
unfolding lookup
Covers-head id t entries r c = c id t (rw (=?_refl id) refl)

pub Covers-tail :
    (id : Bytes) (t : OpenTx) (entries : Dict OpenTx) (r : TxRegistry)
    → lookup id entries ≡ none
    → Covers ((id, t) ∷ entries) r
    → Covers entries r
unfolding lookup
Covers-tail id t entries r u c j w h = elim (Bool-cases (id =? j)) [
  | inl e ↦ absurd (cc (rw (=?→≡ id j e) at u, h))
  | inr e ↦ c j w (rw e h)
]

pub Covers-drop_locked :
    (id : Bytes) (t : OpenTx) (entries : Dict OpenTx) (r : TxRegistry)
    → lookup id entries ≡ none
    → Covers ((id, t) ∷ entries) r
    → Covers entries (drop_locked id t r)
unfolding drop_locked
Covers-drop_locked id t entries r u c j w h = elim (Bool-cases (id =? j)) [
  | inl e ↦ absurd (cc (rw (=?→≡ id j e) at u, h))
  | inr e ↦ rw (lookup-erase id j r.txs) (rw e (Covers-tail id t entries r u c j w h))
]

reap_from-IsBalanced :
    (now : ℕ) (entries : Dict OpenTx) (r : TxRegistry) (pending : List Bytes)
    → HasUniqueKeys entries
    → Covers entries r
    → IsBalanced r pending
    → IsBalanced (reap_from now entries r).1 pending
unfolding reap_from
reap_from-IsBalanced now [] r pending u c v = v
reap_from-IsBalanced now ((id, t) ∷ entries) r pending u c v = elim (Bool-cases (is_past now t)) [
  | inl e ↦ rw e (
      reap_from-IsBalanced now entries (drop_locked id t r) pending u.1
        (Covers-drop_locked id t entries r u.0 c)
        (drop_locked-IsBalanced id t r pending v (Covers-head id t entries r c)))
  | inr e ↦
      rw e (reap_from-IsBalanced now entries r pending u.1 (Covers-tail id t entries r u.0 c) v)
]

close_from-IsBalanced :
    (entries : Dict OpenTx) (r : TxRegistry) (pending : List Bytes)
    → HasUniqueKeys entries
    → Covers entries r
    → IsBalanced r pending
    → IsBalanced (close_from entries r).1 pending
unfolding close_from
close_from-IsBalanced [] r pending u c v = v
close_from-IsBalanced ((id, t) ∷ entries) r pending u c v =
    close_from-IsBalanced entries (drop_locked id t r) pending u.1
      (Covers-drop_locked id t entries r u.0 c)
      (drop_locked-IsBalanced id t r pending v (Covers-head id t entries r c))

pub turned_away-same :
    (key : Bytes) (r s : TxRegistry) (e : TxError) → admit key r ≡ (some e, s) → s ≡ r
unfolding admit
turned_away-same key r s e h = elim (Bool-cases (leb (limit_of r) (count_of key r.open_count))) [
  | inl q ↦ cc (rw q at h)
  | inr q ↦ absurd (cc (rw q at h))
]

step-IsBalanced :
    (s t : System) → IsBalanced s.registry s.pending → Step s t → IsBalanced t.registry t.pending
unfolding reap_expired close
step-IsBalanced s t v (admitted _ key r h) = admit-IsBalanced key s.registry r s.pending v h
step-IsBalanced s t v (turned_away _ key e r h) = rw (turned_away-same key s.registry r e h) v
step-IsBalanced s t v (begun _ before after key id tx timeout now hp hi) =
    opened-IsBalanced key id tx timeout now s.registry before after (rw hp at v) hi
step-IsBalanced s t v (not_begun _ before after key hp) =
    refused-IsBalanced key s.registry before after (rw hp at v)
step-IsBalanced s t v (looked_up _ key id now) =
    lookup_tx-IsBalanced key id now s.registry s.pending v
step-IsBalanced s t v (finished _ ask ok key id) =
    finish-IsBalanced ask ok key id s.registry s.pending v
step-IsBalanced s t v (reaped _ now) =
    reap_from-IsBalanced now s.registry.txs s.registry s.pending v.unique (λ _ _ h. h) v
step-IsBalanced s t v (closed _) =
    close_from-IsBalanced s.registry.txs s.registry s.pending v.unique (λ _ _ h. h) v

start-IsBalanced : (m : ℤ) → IsBalanced (record new_tx_registry { max_open = m }) []
unfolding held waiting count_of lookup
start-IsBalanced m = record { unique = tt; counted = λ key. refl; bounded = λ key. omega arith }

-- In every state that calls reach, in any order and with any of them waiting for the database:
-- a plugin's counter is the number of its open transactions and of its calls of `Begin` that
-- wait, and it is within the ceiling.
pub Reachable-IsBalanced : (m : ℤ) (s : System) → Reachable m s → IsBalanced s.registry s.pending
Reachable-IsBalanced m s start = start-IsBalanced m
Reachable-IsBalanced m s (step before _ past last) =
    step-IsBalanced before s (Reachable-IsBalanced m before past) last
