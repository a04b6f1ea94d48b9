-- ===== src/Db/Tx/Tests.antt =====
-- One transaction from `Begin` to the reaper.
use moduless.Base.{Bytes, bytes, [], ◌∷◌, ◌≡◌, ◌≤◌, ◌+◌, refl, none, pos, lookup}
use moduless.Db.Tx.{
  OpenTx, TxRegistry, rollback, new_tx_registry, admit, opened, lookup_tx, reap_expired, count_of,
  max_open_tx_per_plugin,
}
use moduless.Db.Tx.Steps.{System, Reachable, start, step, admitted}
use moduless.Db.Tx.Counts.{held, waiting}
use moduless.Db.Tx.Ceiling.{Reachable-ceiling}
use moduless.Db.Tx.Owner.{Looked, lookup_tx-branches}
use moduless.Db.Tx.Reap.{unexpired, reap_expired-unexpired}

abbrev shop : Bytes
shop = bytes "shop"

abbrev empty_system : System
empty_system = record { registry = record new_tx_registry { max_open = pos 0 }; pending = [] }

abbrev waiting_registry : TxRegistry
waiting_registry = record { txs = []; max_open = pos 0; open_count = (shop, 1) ∷ [] }

abbrev waiting_system : System
waiting_system = record { registry = waiting_registry; pending = shop ∷ [] }

abbrev shop_tx : OpenTx
shop_tx = record { tx = 7; plugin_key = shop; expires_at = 105 }

abbrev open_registry : TxRegistry
open_registry = record {
  txs = (bytes "t1", shop_tx) ∷ [];
  max_open = pos 0;
  open_count = (shop, 1) ∷ [];
}

admits_shop : admit shop (empty_system).registry ≡ (none, waiting_registry)
unfolding admit
admits_shop = refl

opens_shop : opened shop (bytes "t1") 7 (pos 5) 100 waiting_registry ≡ open_registry
unfolding opened
opens_shop = refl

waiting-Reachable : Reachable (pos 0) waiting_system
waiting-Reachable =
    step empty_system waiting_system start (admitted empty_system shop waiting_registry admits_shop)

Reachable-ceiling_example :
    (held shop [] + waiting shop (shop ∷ []) ≤ max_open_tx_per_plugin)
    × (count_of shop ((shop, 1) ∷ []) ≡ held shop [] + waiting shop (shop ∷ []))
Reachable-ceiling_example = Reachable-ceiling waiting_system shop waiting-Reachable

lookup_tx-branches_example :
    Looked shop (bytes "t1") 106 open_registry (lookup_tx shop (bytes "t1") 106 open_registry)
lookup_tx-branches_example = lookup_tx-branches shop (bytes "t1") 106 open_registry

reap_expired-unexpired_example :
    ((reap_expired 106 open_registry).0 ≡ rollback 7 ∷ [])
    × ((id : Bytes)
        → lookup id ((reap_expired 106 open_registry).1).txs
          ≡ unexpired 106 (lookup id ((bytes "t1", shop_tx) ∷ [])))
reap_expired-unexpired_example =
    reap_expired-unexpired 106 open_registry (unfold lookup in (refl, tt))
