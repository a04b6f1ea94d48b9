-- ===== src/Db/Tx/Steps.antt =====
-- The calls of many goroutines on the registry of core/db/tx.go, as steps of one system. A call
-- of `Begin` that has its slot is pending until the database answers.
use moduless.Base.{ℕ, Bool, List, [], ◌∷◌, ◌++◌, Bytes, none, some, ℤ, ◌≡◌, lookup}
use moduless.Db.Tx.{
  TxRegistry, TxError, Request, new_tx_registry, admit, opened, refused, lookup_tx, finish,
  reap_expired, close,
}

-- `pending` holds the key of each call of `Begin` that waits for the database.
pub record System : Type 0 where
  pub registry : TxRegistry
  pub pending : List Bytes

abbrev pub with_registry : System → TxRegistry → System
with_registry s r = record s { registry = r }

-- One critical section of a call. The id of a new transaction is random: it is not in use.
pub data Step : System → System → Type 0 where
  admitted :
      (s : System) (key : Bytes) (r : TxRegistry)
      → admit key s.registry ≡ (none, r)
      → Step s (record { registry = r; pending = key ∷ s.pending })
  turned_away :
      (s : System) (key : Bytes) (e : TxError) (r : TxRegistry)
      → admit key s.registry ≡ (some e, r)
      → Step s (with_registry s r)
  begun :
      (s : System) (before after : List Bytes) (key id : Bytes) (tx : ℕ) (timeout : ℤ) (now : ℕ)
      → s.pending ≡ before ++ (key ∷ after)
      → lookup id s.registry.txs ≡ none
      → Step s
          (record { registry = opened key id tx timeout now s.registry; pending = before ++ after })
  not_begun :
      (s : System) (before after : List Bytes) (key : Bytes)
      → s.pending ≡ before ++ (key ∷ after)
      → Step s (record { registry = refused key s.registry; pending = before ++ after })
  looked_up :
      (s : System) (key id : Bytes) (now : ℕ)
      → Step s (with_registry s (lookup_tx key id now s.registry).2)
  finished :
      (s : System) (ask : ℕ → Request) (ok : Bool) (key id : Bytes)
      → Step s (with_registry s (finish ask ok key id s.registry).2)
  reaped : (s : System) (now : ℕ) → Step s (with_registry s (reap_expired now s.registry).1)
  closed : (s : System) → Step s (with_registry s (close s.registry).1)

-- The states that the calls reach from an empty registry with a ceiling.
pub data Reachable (max_open : ℤ) : System → Type 0 where
  start :
      Reachable max_open
        (record { registry = record new_tx_registry { max_open = max_open }; pending = [] })
  step : (s t : System) → Reachable max_open s → Step s t → Reachable max_open t
