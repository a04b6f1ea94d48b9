-- ===== src/Pluginhost/Registry/Exact.antt =====
-- The turn of `pick` in core/pluginhost/registry.go on integers that do not wrap around.
use moduless.Base.{
  ℕ, zero, suc, ◌+◌, ◌&&◌, Option, none, some, List, [], ◌∷◌, if◌then◌else◌, ℤ, pos, ◌+ℤ◌, ◌-ℤ◌,
}
use moduless.Pluginhost.Instance.{Instance, is_ready}
use moduless.Pluginhost.Registry.{beats}

-- The loop from the position `idx` on.
unfoldable pub exact_scan :
    (ℕ → Instance) → ℕ → List ℕ → List ℤ → Option (ℕ × ℤ) → ℕ → List ℤ × ℕ × Option (ℕ × ℤ)
unfolding ◌+ℤ◌
exact_scan heap idx [] cs best total = (cs, total, best)
exact_scan heap idx (i ∷ is) [] best total = ([], total, best)
exact_scan heap idx (i ∷ is) (c ∷ cs) best total =
    let inst = heap i in
    let ready = is_ready inst.state in
    let c' = if ready then c +ℤ pos inst.weight else c in
    let best' = if ready && beats c' best then some (idx, c') else best in
    let (cs', total', best'') =
      exact_scan heap (suc idx) is cs best' (if ready then total + inst.weight else total) in
    (c' ∷ cs', total', best'')

-- `rs.current[best] -= total`.
unfoldable pub exact_charge : ℕ → ℕ → List ℤ → List ℤ
unfolding ◌-ℤ◌
exact_charge n total [] = []
exact_charge zero total (c ∷ cs) = (c -ℤ pos total) ∷ cs
exact_charge (suc n) total (c ∷ cs) = c ∷ exact_charge n total cs

-- What follows the loop.
unfoldable pub exact_best : List ℤ × ℕ × Option (ℕ × ℤ) → Option ℕ × List ℤ
unfolding exact_charge
exact_best (cs, total, none) = (none, cs)
exact_best (cs, total, some (b, c)) = (some b, exact_charge b total cs)

unfoldable pub exact_choose : (ℕ → Instance) → List ℕ → List ℤ → Option ℕ × List ℤ
unfolding exact_scan exact_best
exact_choose heap is cs = exact_best (exact_scan heap 0 is cs none 0)
