-- ===== src/Db/Tx.antt =====
-- The registry of open transactions of core/db/tx.go. Its lock is taken and given back within a
-- function, but `Begin` gives it back while the database opens the transaction: it is `admit`,
-- then `opened` or `refused`, and other calls run between them. A transaction is a number, and
-- what the registry asks of the database is a list of requests.
pub mod Steps
pub mod Counts
pub mod Sections
pub mod Balance
pub mod Ceiling
pub mod Owner
pub mod Reap
mod Tests
use moduless.Base.{
  ℕ, zero, suc, ◌+◌, ◌-◌, ◌*◌, ◌^◌, Bool, true, false, List, [], ◌∷◌, ◌++◌, if◌then◌else◌, ltb, leb,
  ◌==◌, Bytes, ◌=?◌, Option, none, some, ℤ, pos, negsuc, default_unless_pos, Dict, lookup, insert,
  erase, negate,
}

pub record OpenTx : Type 0 where
  pub tx : ℕ
  pub plugin_key : Bytes
  pub expires_at : ℕ

-- `open_count` is `open`.
pub record TxRegistry : Type 0 where
  pub txs : Dict OpenTx
  pub max_open : ℤ
  pub open_count : Dict ℕ

-- What the registry asks of a transaction.
pub data Request : Type 0 where
  rollback : ℕ → Request
  commit : ℕ → Request

pub data TxError : Type 0 where
  too_many : ℕ → ℕ → TxError
  unknown : TxError
  failed : TxError

abbrev pub new_tx_registry : TxRegistry
new_tx_registry = record { txs = []; max_open = pos 0; open_count = [] }

abbrev pub max_open_tx_per_plugin : ℕ
max_open_tx_per_plugin = 8

-- `limit`.
abbrev pub limit_of : TxRegistry → ℕ
limit_of r = default_unless_pos max_open_tx_per_plugin r.max_open

abbrev pub default_tx_timeout : ℕ
default_tx_timeout = 30 * 10 ^ 9

abbrev pub max_tx_timeout : ℕ
max_tx_timeout = 5 * 60 * 10 ^ 9

-- The first lines of `Begin`, in nanoseconds.
unfoldable pub clamp_timeout : ℤ → ℕ
clamp_timeout timeout =
    let t = default_unless_pos default_tx_timeout timeout in
    if ltb max_tx_timeout t then max_tx_timeout else t

abbrev pub or_zero : Option ℕ → ℕ
or_zero none = 0
or_zero (some n) = n

-- `r.open[key]`.
unfoldable pub count_of : Bytes → Dict ℕ → ℕ
unfolding lookup
count_of key m = or_zero (lookup key m)

-- The first critical section of `Begin`: a slot is checked and taken.
unfoldable pub admit : Bytes → TxRegistry → Option TxError × TxRegistry
unfolding count_of insert
admit key r =
    let n = count_of key r.open_count in
    if leb (limit_of r) n
    then (some (too_many n (limit_of r)), r)
    else (none, record r { open_count = insert key (n + 1) r.open_count })

-- `release`, and the end of `dropLocked`.
unfoldable pub release : Bytes → Dict ℕ → Dict ℕ
unfolding count_of insert erase
release key m =
    let n = count_of key m in
    if n == 0 then m else if n == 1 then erase key m else insert key (n - 1) m

-- `Begin` where `BeginTx` fails.
unfoldable pub refused : Bytes → TxRegistry → TxRegistry
unfolding release
refused key r = record r { open_count = release key r.open_count }

-- `Begin` where `BeginTx` returns: the last critical section.
unfoldable pub opened : Bytes → Bytes → ℕ → ℤ → ℕ → TxRegistry → TxRegistry
unfolding insert clamp_timeout
opened key id tx timeout now r = record r {
  txs =
      insert id (record { tx = tx; plugin_key = key; expires_at = now + clamp_timeout timeout })
        r.txs;
}

unfoldable pub drop_locked : Bytes → OpenTx → TxRegistry → TxRegistry
unfolding release erase
drop_locked id t r = record r {
  txs = erase id r.txs;
  open_count = release t.plugin_key r.open_count;
}

-- `now.After(t.expiresAt)`.
abbrev pub is_past : ℕ → OpenTx → Bool
is_past now t = ltb t.expires_at now

-- The map's entry for an id, where it is the plugin's.
unfoldable pub owned : Bytes → Bytes → TxRegistry → Option OpenTx
unfolding lookup ◌=?◌
owned key id r = elim (lookup id r.txs) [
  | none ↦ none
  | some t ↦ if t.plugin_key =? key then some t else none
]

pub data TxResult : Type 0 where
  refuses : TxError → TxResult
  gives : ℕ → TxResult

-- `Lookup`.
unfoldable pub lookup_tx : Bytes → Bytes → ℕ → TxRegistry → TxResult × List Request × TxRegistry
unfolding owned drop_locked
lookup_tx key id now r = elim (owned key id r) [
  | none ↦ (refuses unknown, [], r)
  | some t ↦
      if is_past now t
      then (refuses unknown, rollback t.tx ∷ [], drop_locked id t r)
      else (gives t.tx, [], r)
]

-- `take`.
unfoldable pub take_tx : Bytes → Bytes → TxRegistry → Option OpenTx × TxRegistry
unfolding owned drop_locked
take_tx key id r = elim (owned key id r) [
  | none ↦ (none, r)
  | some t ↦ (some t, drop_locked id t r)
]

unfoldable pub finish_taken :
    (ℕ → Request) → Bool → Option OpenTx × TxRegistry → TxResult × List Request × TxRegistry
finish_taken ask ok (none, s) = (refuses unknown, [], s)
finish_taken ask ok (some t, s) = (if ok then gives t.tx else refuses failed, ask t.tx ∷ [], s)

-- `Commit` and `Rollback`: `ask` is the method's request, and `ok` tells that it succeeds.
unfoldable pub finish :
    (ℕ → Request) → Bool → Bytes → Bytes → TxRegistry → TxResult × List Request × TxRegistry
unfolding take_tx finish_taken
finish ask ok key id r = finish_taken ask ok (take_tx key id r)

-- The loop of `ReapExpired` over the entries of the map.
unfoldable pub reap_from : ℕ → Dict OpenTx → TxRegistry → List Request × TxRegistry
unfolding drop_locked
reap_from now [] r = ([], r)
reap_from now ((id, t) ∷ entries) r =
    let past = is_past now t in
    let rest = reap_from now entries (if past then drop_locked id t r else r) in
    ((if past then rollback t.tx ∷ rest.0 else rest.0), rest.1)

unfoldable pub reap_expired : ℕ → TxRegistry → List Request × TxRegistry
unfolding reap_from
reap_expired now r = reap_from now r.txs r

-- The loop of `Close`.
unfoldable pub close_from : Dict OpenTx → TxRegistry → List Request × TxRegistry
unfolding drop_locked
close_from [] r = ([], r)
close_from ((id, t) ∷ entries) r =
    let rest = close_from entries (drop_locked id t r) in (rollback t.tx ∷ rest.0, rest.1)

unfoldable pub close : TxRegistry → List Request × TxRegistry
unfolding close_from
close r = close_from r.txs r
