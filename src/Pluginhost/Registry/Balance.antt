-- ===== src/Pluginhost/Registry/Balance.antt =====
-- The counters of the round robin in core/pluginhost/registry.go over a cycle of turns, as long as the
-- weights' sum.
use moduless.Base.{
  ℕ, zero, suc, ◌+◌, ◌*◌, ◌≤◌, ◌<◌, ◌≡◌, inl, inr, refl, ap, Option, none, some, List, [], ◌∷◌,
  arith, All, length, ℤ, pos, negsuc, pos_part, neg_part, ◌+ℤ◌, ◌-ℤ◌, +ℤ_parts, -ℤ_parts,
  Bool-cases, leb,
}
use moduless.Pluginhost.Instance.{Instance}
use moduless.Pluginhost.Registry.{get_elem?, zeros}
use moduless.Pluginhost.Registry.Exact.{exact_charge}
use moduless.Pluginhost.Registry.Turns.{weight_sum, grown, IsLe}

abbrev pub sum : List ℕ → ℕ
sum [] = 0
sum (k ∷ ks) = k + sum ks

-- One more turn for a position.
abbrev pub tally : ℕ → List ℕ → List ℕ
tally n [] = []
tally zero (k ∷ ks) = suc k ∷ ks
tally (suc n) (k ∷ ks) = k ∷ tally n ks

abbrev pub tally_opt : Option ℕ → List ℕ → List ℕ
tally_opt none ks = ks
tally_opt (some n) ks = tally n ks

abbrev pub weights : (ℕ → Instance) → List ℕ → List ℕ
weights heap [] = []
weights heap (i ∷ is) = (heap i).weight ∷ weights heap is

abbrev pub none_yet : List ℕ → List ℕ
none_yet [] = []
none_yet (i ∷ is) = 0 ∷ none_yet is

-- Within a cycle of `total` turns: a counter is what its replica's weights amount to, less the total
-- for each of its turns, and it is above minus the total.
abbrev pub IsBalanced : (ℕ → Instance) → ℕ → ℕ → List ℕ → List ℤ → List ℕ → Type 0
IsBalanced heap total n [] [] [] = Unit
IsBalanced heap total n (i ∷ is) (c ∷ cs) (k ∷ ks) =
    ((pos_part c + k * total ≡ neg_part c + n * (heap i).weight) × (neg_part c < total))
    × IsBalanced heap total n is cs ks
IsBalanced heap total n _ _ _ = ⊥

unfoldable pub pos_sum : List ℤ → ℕ
pos_sum [] = 0
pos_sum (c ∷ cs) = pos_part c + pos_sum cs

unfoldable pub neg_sum : List ℤ → ℕ
neg_sum [] = 0
neg_sum (c ∷ cs) = neg_part c + neg_sum cs

pub mul_suc_left : (k t : ℕ) → suc k * t ≡ k * t + t
mul_suc_left k t = grind arith

add_mul : (a b t : ℕ) → (a + b) * t ≡ a * t + b * t
add_mul a b t = grind arith

mul_add : (n a b : ℕ) → n * (a + b) ≡ n * a + n * b
mul_add n a b = grind arith

pub IsBalanced-sums :
    (heap : ℕ → Instance) (total n : ℕ) (is : List ℕ) (cs : List ℤ) (ks : List ℕ)
    → IsBalanced heap total n is cs ks
    → pos_sum cs + sum ks * total ≡ neg_sum cs + n * weight_sum heap is
unfolding pos_sum neg_sum
IsBalanced-sums heap total n [] [] [] v = omega arith
IsBalanced-sums heap total n (i ∷ is) (c ∷ cs) (k ∷ ks) v = omega (
  arith,
  v.0.0,
  IsBalanced-sums heap total n is cs ks v.1,
  add_mul k (sum ks) total,
  mul_add n (heap i).weight (weight_sum heap is),
)
IsBalanced-sums heap total n _ _ _ v = absurd v

-- Adding a weight makes no counter smaller.
neg_part-add : (c : ℤ) (w : ℕ) → neg_part (c +ℤ pos w) ≤ neg_part c
unfolding ◌+ℤ◌
neg_part-add c w = ground arith

pub grown-IsBalanced :
    (heap : ℕ → Instance) (total n : ℕ) (is : List ℕ) (cs : List ℤ) (ks : List ℕ)
    → IsBalanced heap total n is cs ks
    → IsBalanced heap total (suc n) is (grown heap is cs) ks
unfolding grown
grown-IsBalanced heap total n [] [] [] v = tt
grown-IsBalanced heap total n (i ∷ is) (c ∷ cs) (k ∷ ks) v =
    let w = (heap i).weight in
    (
      (
        omega (arith, v.0.0, +ℤ_parts c (pos w), mul_suc_left n w),
        omega (arith, v.0.1, neg_part-add c w),
      ),
      grown-IsBalanced heap total n is cs ks v.1,
    )
grown-IsBalanced heap total n _ _ _ v = absurd v

neg_part-sub : (c : ℤ) (t : ℕ) → 0 < pos_part c → 0 < t → neg_part (c -ℤ pos t) < t
unfolding ◌-ℤ◌
neg_part-sub c t p h = ground arith

pub charge-IsBalanced :
    (heap : ℕ → Instance) (total n b : ℕ) (is : List ℕ) (cs : List ℤ) (ks : List ℕ) (v : ℤ)
    → 0 < total
    → get_elem? cs b ≡ some v
    → 0 < pos_part v
    → IsBalanced heap total n is cs ks
    → IsBalanced heap total n is (exact_charge b total cs) (tally b ks)
unfolding exact_charge
charge-IsBalanced heap total n b [] [] [] v t g p h = tt
charge-IsBalanced heap total n zero (i ∷ is) (c ∷ cs) (k ∷ ks) v t g p h =
    let q : 0 < pos_part c = ground (arith, g, p) in
    (
      (
        omega (arith, h.0.0, -ℤ_parts c (pos total), mul_suc_left k total),
        neg_part-sub c total q t,
      ),
      h.1,
    )
charge-IsBalanced heap total n (suc b) (i ∷ is) (c ∷ cs) (k ∷ ks) v t g p h =
    (h.0, charge-IsBalanced heap total n b is cs ks v t g p h.1)
charge-IsBalanced heap total n b _ _ _ v t g p h = absurd h

-- Where the greatest counter is not positive, no counter is.
no_positive : (v : ℤ) (cs : List ℤ) → pos_part v ≡ 0 → All (λ c. IsLe c v) cs → pos_sum cs ≡ 0
unfolding pos_sum
no_positive v [] z h = refl
no_positive v (c ∷ cs) z h =
    let rest = no_positive v cs z h.1 in
    let own : pos_part c ≡ 0 = one c (omega (arith, z, h.0)) in omega (arith, own, rest)
  where
    one : (c : ℤ) → pos_part c ≤ neg_part c → pos_part c ≡ 0
    one (pos n) h = omega (arith, h)
    one (negsuc n) h = refl

pub greatest_positive :
    (v : ℤ) (cs : List ℤ) → All (λ c. IsLe c v) cs → neg_sum cs < pos_sum cs → 0 < pos_part v
greatest_positive (pos zero) cs h l = absurd (omega (arith, no_positive (pos zero) cs refl h, l))
greatest_positive (pos (suc n)) cs h l = omega arith
greatest_positive (negsuc n) cs h l = absurd (omega (arith, no_positive (negsuc n) cs refl h, l))

pub IsBalanced-length :
    (heap : ℕ → Instance) (total n : ℕ) (is : List ℕ) (cs : List ℤ) (ks : List ℕ)
    → IsBalanced heap total n is cs ks
    → (length is ≡ length cs) × (length is ≡ length ks)
IsBalanced-length heap total n [] [] [] v = (refl, refl)
IsBalanced-length heap total n (i ∷ is) (c ∷ cs) (k ∷ ks) v =
    let rest = IsBalanced-length heap total n is cs ks v.1 in
    (omega (arith, rest.0), omega (arith, rest.1))
IsBalanced-length heap total n _ _ _ v = absurd v

pub sum-tally :
    (b : ℕ) (v : ℤ) (cs : List ℤ) (ks : List ℕ)
    → get_elem? cs b ≡ some v
    → length cs ≡ length ks
    → sum (tally b ks) ≡ suc (sum ks)
sum-tally b v [] ks g h = absurd (cc)
sum-tally b v (c ∷ cs) [] g h = absurd (omega (arith, h))
sum-tally zero v (c ∷ cs) (k ∷ ks) g h = omega arith
sum-tally (suc b) v (c ∷ cs) (k ∷ ks) g h = omega (arith, sum-tally b v cs ks g (omega (arith, h)))

-- Where a counter is above minus the total after a full cycle, its replica had no more turns than
-- its weight.
turns-le-weight :
    (c : ℤ) (k w t : ℕ) → pos_part c + k * t ≡ neg_part c + t * w → neg_part c < t → k ≤ w
turns-le-weight c k w t h l = elim (Bool-cases (leb k w)) [
  | inl e ↦ ground (arith, e)
  | inr e ↦
      let more : suc w ≤ k = ground (arith, e) in
      absurd (omega (arith, h, l, mul_mono (suc w) k t more, mul_suc_left w t, mul_comm w t))
]
  where
    mul_mono : (a b t : ℕ) → a ≤ b → a * t ≤ b * t
    mul_mono a b t h = grind arith

    mul_comm : (a b : ℕ) → a * b ≡ b * a
    mul_comm a b = grind arith

sum-le :
    (heap : ℕ → Instance) (t : ℕ) (is : List ℕ) (cs : List ℤ) (ks : List ℕ)
    → IsBalanced heap t t is cs ks
    → sum ks ≤ weight_sum heap is
sum-le heap t [] [] [] v = omega arith
sum-le heap t (i ∷ is) (c ∷ cs) (k ∷ ks) v =
    omega (arith, turns-le-weight c k (heap i).weight t v.0.0 v.0.1, sum-le heap t is cs ks v.1)
sum-le heap t _ _ _ v = absurd v

even_counter : (c : ℤ) (x : ℕ) → pos_part c + x ≡ neg_part c + x → c ≡ pos 0
even_counter (pos n) x h = ap pos (omega (arith, h))
even_counter (negsuc n) x h = absurd (omega (arith, h))

mul_flip : (k t : ℕ) → k * t ≡ t * k
mul_flip k t = grind arith

pub IsBalanced-even :
    (heap : ℕ → Instance) (t : ℕ) (is : List ℕ) (cs : List ℤ) (ks : List ℕ)
    → IsBalanced heap t t is cs ks
    → sum ks ≡ weight_sum heap is
    → (cs ≡ zeros is) × (ks ≡ weights heap is)
IsBalanced-even heap t [] [] [] v h = (refl, refl)
IsBalanced-even heap t (i ∷ is) (c ∷ cs) (k ∷ ks) v h =
    let own = turns-le-weight c k (heap i).weight t v.0.0 v.0.1 in
    let others = sum-le heap t is cs ks v.1 in
    let same : k ≡ (heap i).weight = omega (arith, own, others, h) in
    let rest = IsBalanced-even heap t is cs ks v.1 (omega (arith, own, others, h)) in
    let even = even_counter c (k * t) (omega (arith, v.0.0, mul_flip k t, ap (λ w. t * w) same)) in
    ground (arith, even, same, rest)
IsBalanced-even heap t _ _ _ v h = absurd v

pub start-IsBalanced :
    (heap : ℕ → Instance) (t : ℕ) (is : List ℕ)
    → 0 < t
    → IsBalanced heap t 0 is (zeros is) (none_yet is) × (sum (none_yet is) ≡ 0)
start-IsBalanced heap t [] p = (tt, refl)
start-IsBalanced heap t (i ∷ is) p =
    let rest = start-IsBalanced heap t is p in (((omega arith, p), rest.0), omega (arith, rest.1))
