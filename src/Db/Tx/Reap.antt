-- ===== src/Db/Tx/Reap.antt =====
-- What the reaper and the shutdown of core/db/tx.go leave behind.
use moduless.Base.{
  ℕ, Bool, false, List, [], ◌∷◌, if◌then◌else◌, Bytes, Option, none, some, Dict, ◌≡◌, refl, ap,
  arith, Bool-cases, inl, inr, ◌∙◌, ◌=?◌, =?→≡, lookup, lookup-erase, erase, HasUniqueKeys,
}
use moduless.Db.Tx.{
  OpenTx, TxRegistry, Request, rollback, reap_from, reap_expired, drop_locked, is_past,
}

-- The requests for the entries whose time has passed, in the order of the map.
abbrev pub rollbacks_past : ℕ → Dict OpenTx → List Request
rollbacks_past now [] = []
rollbacks_past now ((id, t) ∷ m) =
    if is_past now t then rollback t.tx ∷ rollbacks_past now m else rollbacks_past now m

abbrev pub erase_past : ℕ → Dict OpenTx → Dict OpenTx → Dict OpenTx
erase_past now [] m = m
erase_past now ((id, t) ∷ entries) m =
    erase_past now entries (if is_past now t then erase id m else m)

reap_from-parts :
    (now : ℕ) (entries : Dict OpenTx) (r : TxRegistry)
    → ((reap_from now entries r).0 ≡ rollbacks_past now entries)
      × (((reap_from now entries r).1).txs ≡ erase_past now entries r.txs)
unfolding reap_from drop_locked
reap_from-parts now [] r = (refl, refl)
reap_from-parts now ((id, t) ∷ entries) r = elim (Bool-cases (is_past now t)) [
  | inl e ↦ rw e (
      let (a, b) = reap_from-parts now entries (drop_locked id t r) in
      (ap (λ x. rollback t.tx ∷ x) a, b))
  | inr e ↦ rw e (reap_from-parts now entries r)
]

-- What is left of an entry.
abbrev pub unexpired : ℕ → Option OpenTx → Option OpenTx
unexpired now none = none
unexpired now (some t) = if is_past now t then none else some t

-- Whether an entry goes.
abbrev goes : ℕ → Option OpenTx → Bool
goes now none = false
goes now (some t) = is_past now t

lookup-erase_past :
    (now : ℕ) (j : Bytes) (entries m : Dict OpenTx)
    → HasUniqueKeys entries
    → lookup j (erase_past now entries m)
      ≡ (if goes now (lookup j entries) then none else lookup j m)
unfolding lookup
lookup-erase_past now j [] m u = refl
lookup-erase_past now j ((id, t) ∷ entries) m u =
    let ih = lookup-erase_past now j entries (if is_past now t then erase id m else m) u.1 in
    ih ∙ elim (Bool-cases (id =? j)) [
      | inl e ↦
          let absent : lookup j entries ≡ none = rw (=?→≡ id j e) at u.0 in
          ground (arith, e, absent, lookup-erase id j m)
      | inr e ↦ ground (arith, e, lookup-erase id j m)
    ]

unexpired-goes : (now : ℕ) (o : Option OpenTx) → (if goes now o then none else o) ≡ unexpired now o
unexpired-goes now none = refl
unexpired-goes now (some t) = refl

-- The reaper takes out exactly the transactions whose time has passed, with a request to roll
-- back for each of them and no other.
pub reap_expired-unexpired :
    (now : ℕ) (r : TxRegistry)
    → HasUniqueKeys r.txs
    → ((reap_expired now r).0 ≡ rollbacks_past now r.txs)
      × ((id : Bytes) → lookup id ((reap_expired now r).1).txs ≡ unexpired now (lookup id r.txs))
unfolding reap_expired
reap_expired-unexpired now r u =
    let (a, b) = reap_from-parts now r.txs r in
    (a, λ id. rw b (lookup-erase_past now id r.txs r.txs u ∙ unexpired-goes now (lookup id r.txs)))
