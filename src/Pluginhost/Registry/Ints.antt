-- ===== src/Pluginhost/Registry/Ints.antt =====
-- Where the turns of `pick` in core/pluginhost/registry.go do not wrap around.
use moduless.Base.{
  ℕ, zero, suc, ◌+◌, ◌*◌, ◌^◌, ◌<◌, ◌≤◌, ◌≡◌, refl, ap, ◌∙◌, Option, none, some, List, [], ◌∷◌,
  arith, All, length, ℤ, pos, pos_part, neg_part, ◌+ℤ◌, ◌-ℤ◌, int64, int64-within, if◌then◌else◌,
}
use moduless.Pluginhost.Instance.{Instance}
use moduless.Pluginhost.Registry.{scan, charge, charge_best, choose, beats}
use moduless.Pluginhost.Registry.Exact.{exact_scan, exact_charge, exact_best, exact_choose}
use moduless.Pluginhost.Registry.Balance.{
  IsBalanced, pos_sum, neg_sum, IsBalanced-sums, mul_suc_left, sum,
}
use moduless.Pluginhost.Registry.Turns.{AllReady, weight_sum, grown, scan-grown}

-- A counter has room for the bound, above and below.
abbrev pub HasRoom : ℕ → ℤ → Type 0
HasRoom bound c = (pos_part c + bound < 2 ^ 63) × (neg_part c + bound ≤ 2 ^ 63)

pos_part-add : (c : ℤ) (w : ℕ) → pos_part (c +ℤ pos w) ≤ pos_part c + w
unfolding ◌+ℤ◌
pos_part-add c w = ground arith

neg_part-add : (c : ℤ) (w : ℕ) → neg_part (c +ℤ pos w) ≤ neg_part c
unfolding ◌+ℤ◌
neg_part-add c w = ground arith

pos_part-sub : (c : ℤ) (w : ℕ) → pos_part (c -ℤ pos w) ≤ pos_part c
unfolding ◌-ℤ◌
pos_part-sub c w = ground arith

neg_part-sub : (c : ℤ) (w : ℕ) → neg_part (c -ℤ pos w) ≤ neg_part c + w
unfolding ◌-ℤ◌
neg_part-sub c w = ground arith

int64-add : (c : ℤ) (w bound : ℕ) → w ≤ bound → HasRoom bound c → int64 (c +ℤ pos w) ≡ c +ℤ pos w
int64-add c w bound h r =
    int64-within (c +ℤ pos w) (omega (arith, pos_part-add c w, h, r.0))
      (omega (arith, neg_part-add c w, r.1))

exact_sum : (t w : ℕ) → pos t +ℤ pos w ≡ pos (t + w)
unfolding ◌+ℤ◌
exact_sum t w = ground arith

add_small : (t w : ℕ) → t + w < 2 ^ 63 → int64 (pos t +ℤ pos w) ≡ pos (t + w)
unfolding ◌+ℤ◌
add_small t w h = ap int64 (exact_sum t w) ∙ int64-within (pos (t + w)) h (omega arith)

scan-exact :
    (heap : ℕ → Instance) (idx : ℕ) (is : List ℕ) (cs : List ℤ) (best : Option (ℕ × ℤ))
    (t bound : ℕ)
    → AllReady heap is
    → All (HasRoom bound) cs
    → t + weight_sum heap is ≤ bound
    → bound < 2 ^ 63
    → scan heap idx is cs best (pos t)
      ≡ (let r = exact_scan heap idx is cs best t in (r.0, pos r.1, r.2))
unfolding scan exact_scan
scan-exact heap idx [] cs best t bound a r h b = refl
scan-exact heap idx (i ∷ is) [] best t bound a r h b = refl
scan-exact heap idx (i ∷ is) (c ∷ cs) best t bound a r h b =
    let w = (heap i).weight in
    let c' = c +ℤ pos w in
    let grows = int64-add c w bound (omega (arith, h)) r.0 in
    let adds = add_small t w (omega (arith, h, b)) in
    let best' = if beats c' best then some (idx, c') else best in
    rw (a.0, grows, adds)
      (ap (λ (x : List ℤ × ℤ × Option (ℕ × ℤ)). (c' ∷ x.0, x.1, x.2))
        (scan-exact heap (suc idx) is cs best' (t + w) bound a.1 r.1 (omega (arith, h)) b))

charge-exact :
    (n bound : ℕ) (cs : List ℤ)
    → All (λ c. (pos_part c < 2 ^ 63) × (neg_part c + bound ≤ 2 ^ 63)) cs
    → charge n (pos bound) cs ≡ exact_charge n bound cs
unfolding charge exact_charge
charge-exact n bound [] r = refl
charge-exact zero bound (c ∷ cs) r =
    ap (λ z. z ∷ cs)
      (int64-within (c -ℤ pos bound) (omega (arith, pos_part-sub c bound, r.0.0))
        (omega (arith, neg_part-sub c bound, r.0.1)))
charge-exact (suc n) bound (c ∷ cs) r = ap (λ z. c ∷ z) (charge-exact n bound cs r.1)

grown-HasRoom :
    (heap : ℕ → Instance) (is : List ℕ) (cs : List ℤ) (bound : ℕ)
    → All (HasRoom bound) cs
    → weight_sum heap is ≤ bound
    → All (λ c. (pos_part c < 2 ^ 63) × (neg_part c + bound ≤ 2 ^ 63)) (grown heap is cs)
unfolding grown
grown-HasRoom heap [] [] bound r h = tt
grown-HasRoom heap [] (c ∷ cs) bound r h =
    ((omega (arith, r.0.0), r.0.1), grown-HasRoom heap [] cs bound r.1 h)
grown-HasRoom heap (i ∷ is) [] bound r h = tt
grown-HasRoom heap (i ∷ is) (c ∷ cs) bound r h =
    let w = (heap i).weight in
    (
      (omega (arith, pos_part-add c w, h, r.0.0), omega (arith, neg_part-add c w, r.0.1)),
      grown-HasRoom heap is cs bound r.1 (omega (arith, h)),
    )

charge_best-exact :
    (x : List ℤ × ℕ × Option (ℕ × ℤ))
    → All (λ c. (pos_part c < 2 ^ 63) × (neg_part c + x.1 ≤ 2 ^ 63)) x.0
    → charge_best (x.0, pos x.1, x.2) ≡ exact_best x
unfolding charge_best exact_best
charge_best-exact (cs, total, none) r = refl
charge_best-exact (cs, total, some (b, c)) r = ap (λ z. (some b, z)) (charge-exact b total cs r)

zero_plus : (n : ℕ) → 0 + n ≡ n
zero_plus n = omega arith

-- A turn of ready replicas does not wrap around where the counters have room for the weights' sum.
pub choose-exact :
    (heap : ℕ → Instance) (is : List ℕ) (cs : List ℤ)
    → AllReady heap is
    → length is ≡ length cs
    → All (HasRoom (weight_sum heap is)) cs
    → weight_sum heap is < 2 ^ 63
    → choose heap is cs ≡ exact_choose heap is cs
unfolding choose exact_choose
choose-exact heap is cs a l r b =
    let t = weight_sum heap is in
    let (raised, sum) = scan-grown heap 0 is cs none 0 a l in
    let room = grown-HasRoom heap is cs t r (omega arith) in
    ap charge_best (scan-exact heap 0 is cs none 0 t a r (omega arith) b)
    ∙ charge_best-exact (exact_scan heap 0 is cs none 0) (rw (raised, sum ∙ zero_plus t) room)

neg_sum-le :
    (heap : ℕ → Instance) (total n : ℕ) (is : List ℕ) (cs : List ℤ) (ks : List ℕ)
    → IsBalanced heap total n is cs ks
    → neg_sum cs ≤ length is * total
unfolding neg_sum
neg_sum-le heap total n [] [] [] v = omega arith
neg_sum-le heap total n (i ∷ is) (c ∷ cs) (k ∷ ks) v =
    omega (arith, v.0.1, neg_sum-le heap total n is cs ks v.1, mul_suc_left (length is) total)
neg_sum-le heap total n _ _ _ v = absurd v

sums-HasRoom :
    (bound : ℕ) (cs : List ℤ)
    → pos_sum cs + bound < 2 ^ 63
    → neg_sum cs + bound ≤ 2 ^ 63
    → All (HasRoom bound) cs
unfolding pos_sum neg_sum
sums-HasRoom bound [] p n = tt
sums-HasRoom bound (c ∷ cs) p n = (
  (omega (arith, p), omega (arith, n)),
  sums-HasRoom bound cs (omega (arith, p)) (omega (arith, n)),
)

-- Within a cycle the counters have room for one more turn, where the weights' sum, once for each
-- replica and once more, is an `int`.
pub balanced-HasRoom :
    (heap : ℕ → Instance) (n : ℕ) (is : List ℕ) (cs : List ℤ) (ks : List ℕ)
    → IsBalanced heap (weight_sum heap is) n is cs ks
    → sum ks ≡ n
    → (length is + 1) * weight_sum heap is < 2 ^ 63
    → All (HasRoom (weight_sum heap is)) cs
balanced-HasRoom heap n is cs ks v e h =
    let t = weight_sum heap is in
    let even = IsBalanced-sums heap t n is cs ks v in
    let below = neg_sum-le heap t n is cs ks v in
    let wide = mul_suc_left (length is) t in
    sums-HasRoom t cs (omega (arith, even, ap (λ m. m * t) e, below, wide, h))
      (omega (arith, below, wide, h))
