-- ===== src/Db/Tx/Ceiling.antt =====
-- How many connections a plugin can hold through core/db/tx.go.
use moduless.Base.{
  ℕ, ◌+◌, ◌≤◌, Bool, [], ◌∷◌, Bytes, Dict, ◌≡◌, refl, arith, Bool-cases, Option-cases, inl, inr, ℤ,
  pos, ◌∙◌,
}
use moduless.Db.Tx.{
  OpenTx, TxRegistry, Request, admit, lookup_tx, take_tx, finish, finish_taken, reap_expired, close,
  owned, drop_locked, reap_from, close_from, count_of, is_past, max_open_tx_per_plugin, opened,
  refused,
}
use moduless.Db.Tx.Balance.{Reachable-IsBalanced, turned_away-same}
use moduless.Db.Tx.Counts.{held, waiting}
use moduless.Db.Tx.Steps.{
  System, Step, Reachable, admitted, turned_away, begun, not_begun, looked_up, finished, reaped,
  closed, start, step,
}

admit-max_open : (key : Bytes) (r : TxRegistry) → ((admit key r).1).max_open ≡ r.max_open
unfolding admit
admit-max_open key r = ground arith

lookup_tx-max_open :
    (key id : Bytes) (now : ℕ) (r : TxRegistry) → ((lookup_tx key id now r).2).max_open ≡ r.max_open
unfolding lookup_tx drop_locked
lookup_tx-max_open key id now r = ground arith

finish-max_open :
    (ask : ℕ → Request) (ok : Bool) (key id : Bytes) (r : TxRegistry)
    → ((finish ask ok key id r).2).max_open ≡ r.max_open
unfolding finish take_tx drop_locked finish_taken
finish-max_open ask ok key id r = elim (Option-cases (owned key id r)) [
  | inl e ↦ rw (e, take_tx) refl
  | inr (t, e) ↦ rw (e, take_tx) refl
]

reap_from-max_open :
    (now : ℕ) (entries : Dict OpenTx) (r : TxRegistry)
    → ((reap_from now entries r).1).max_open ≡ r.max_open
unfolding reap_from drop_locked
reap_from-max_open now [] r = refl
reap_from-max_open now ((id, t) ∷ entries) r = elim (Bool-cases (is_past now t)) [
  | inl e ↦ rw e (reap_from-max_open now entries (drop_locked id t r))
  | inr e ↦ rw e (reap_from-max_open now entries r)
]

close_from-max_open :
    (entries : Dict OpenTx) (r : TxRegistry) → ((close_from entries r).1).max_open ≡ r.max_open
unfolding close_from drop_locked
close_from-max_open [] r = refl
close_from-max_open ((id, t) ∷ entries) r = close_from-max_open entries (drop_locked id t r)

step-max_open : (s t : System) → Step s t → (t.registry).max_open ≡ (s.registry).max_open
unfolding reap_expired close opened refused
step-max_open s t (admitted _ key r h) = cc (h, admit-max_open key s.registry)
step-max_open s t (turned_away _ key e r h) = rw (turned_away-same key s.registry r e h) refl
step-max_open s t (begun _ before after key id tx timeout now hp hi) = refl
step-max_open s t (not_begun _ before after key hp) = refl
step-max_open s t (looked_up _ key id now) = lookup_tx-max_open key id now s.registry
step-max_open s t (finished _ ask ok key id) = finish-max_open ask ok key id s.registry
step-max_open s t (reaped _ now) = reap_from-max_open now (s.registry).txs s.registry
step-max_open s t (closed _) = close_from-max_open (s.registry).txs s.registry

Reachable-max_open : (m : ℤ) (s : System) → Reachable m s → (s.registry).max_open ≡ m
Reachable-max_open m s start = refl
Reachable-max_open m s (step before _ past last) =
    step-max_open before s last ∙ Reachable-max_open m before past

-- With the ceiling as Core leaves it, a plugin never has more than eight transactions open or
-- being opened, whatever the order of the calls and of the database's answers; and its counter
-- is exactly their number, so that no slot is lost.
pub Reachable-ceiling :
    (s : System) (key : Bytes)
    → Reachable (pos 0) s
    → (held key (s.registry).txs + waiting key s.pending ≤ max_open_tx_per_plugin)
      × (count_of key (s.registry).open_count ≡ held key (s.registry).txs + waiting key s.pending)
Reachable-ceiling s key h =
    let v = Reachable-IsBalanced (pos 0) s h in
    let b : count_of key (s.registry).open_count ≤ max_open_tx_per_plugin =
      rw (Reachable-max_open (pos 0) s h) at (v.bounded key) in
    (omega (arith, b, v.counted key), v.counted key)
