-- ===== src/Pluginhost/Registry/Turns.antt =====
-- The scan of `pick` in core/pluginhost/registry.go over replicas that are all ready: every counter
-- grows by its weight, and the best position holds the greatest counter.
use moduless.Base.{
  ℕ, suc, ◌+◌, ◌≤◌, ◌≡◌, ◌⊎◌, inl, inr, refl, true, Option, some, List, [], ◌∷◌, arith, All, length,
  ℤ, pos, pos_part, neg_part, ◌+ℤ◌, ltb_ℤ, Bool-cases, if◌then◌else◌, ap, sym,
}
use moduless.Pluginhost.Instance.{Instance, is_ready}
use moduless.Pluginhost.Registry.{beats, get_elem?}
use moduless.Pluginhost.Registry.Exact.{exact_scan}

-- The weights' sum.
abbrev pub weight_sum : (ℕ → Instance) → List ℕ → ℕ
weight_sum heap [] = 0
weight_sum heap (i ∷ is) = (heap i).weight + weight_sum heap is

abbrev pub AllReady : (ℕ → Instance) → List ℕ → Type 0
AllReady heap is = All (λ i. is_ready (heap i).state ≡ true) is

-- Every counter with its replica's weight added.
unfoldable pub grown : (ℕ → Instance) → List ℕ → List ℤ → List ℤ
unfolding ◌+ℤ◌
grown heap [] cs = cs
grown heap (i ∷ is) [] = []
grown heap (i ∷ is) (c ∷ cs) = (c +ℤ pos (heap i).weight) ∷ grown heap is cs

-- `a` is not greater than `b`.
abbrev pub IsLe : ℤ → ℤ → Type 0
IsLe a b = pos_part a + neg_part b ≤ pos_part b + neg_part a

-- What the scan leaves of the totals and the counters.
pub scan-grown :
    (heap : ℕ → Instance) (idx : ℕ) (is : List ℕ) (cs : List ℤ) (best : Option (ℕ × ℤ)) (total : ℕ)
    → AllReady heap is
    → length is ≡ length cs
    → ((exact_scan heap idx is cs best total).0 ≡ grown heap is cs)
      × ((exact_scan heap idx is cs best total).1 ≡ total + weight_sum heap is)
unfolding exact_scan grown
scan-grown heap idx [] cs best total r h = (refl, omega arith)
scan-grown heap idx (i ∷ is) [] best total r h = absurd (omega (arith, h))
scan-grown heap idx (i ∷ is) (c ∷ cs) best total r h =
    let c' = c +ℤ pos (heap i).weight in
    let best' = if beats c' best then some (idx, c') else best in
    let rest =
      scan-grown heap (suc idx) is cs best' (total + (heap i).weight) r.1 (omega (arith, h)) in
    rw r.0 (ground (arith, rest))

IsLe-trans : (a b c : ℤ) → IsLe a b → IsLe b c → IsLe a c
IsLe-trans a b c h k = omega (arith, h, k)

-- The best of a scan that began with `(b, d)`: not less than that, and it is that or stands at its
-- position.
pub record IsBest (idx b : ℕ) (d : ℤ) (cs : List ℤ) (best : Option (ℕ × ℤ)) : Type 0 where
  pub place : ℕ
  pub value : ℤ
  pub found : best ≡ some (place, value)
  pub greatest : All (λ c. IsLe c value) cs
  pub above : IsLe d value
  pub origin :
      ((place ≡ b) × (value ≡ d)) ⊎ ((k : ℕ) × (place ≡ idx + k) × (get_elem? cs k ≡ some value))

-- What the head of the list adds.
IsBest-kept :
    (idx b : ℕ) (d c : ℤ) (cs : List ℤ) (best : Option (ℕ × ℤ))
    → IsLe c d
    → IsBest (suc idx) b d cs best
    → IsBest idx b d (c ∷ cs) best
IsBest-kept idx b d c cs best h v = record {
  place = v.place;
  value = v.value;
  found = v.found;
  greatest = (IsLe-trans c d v.value h v.above, v.greatest);
  above = v.above;
  origin = elim v.origin [ inl e ↦ inl e | inr (k, p, g) ↦ inr (suc k, omega (arith, p), g) ];
}

IsBest-beaten :
    (idx b : ℕ) (d c : ℤ) (cs : List ℤ) (best : Option (ℕ × ℤ))
    → IsLe d c
    → IsBest (suc idx) idx c cs best
    → IsBest idx b d (c ∷ cs) best
IsBest-beaten idx b d c cs best h v = record {
  place = v.place;
  value = v.value;
  found = v.found;
  greatest = (v.above, v.greatest);
  above = IsLe-trans d c v.value h v.above;
  origin = elim v.origin [
    | inl (p, e) ↦ inr (0, omega (arith, p), ap some (sym e))
    | inr (k, p, g) ↦ inr (suc k, omega (arith, p), g)
  ];
}

pub scan-IsBest :
    (heap : ℕ → Instance) (idx : ℕ) (is : List ℕ) (cs : List ℤ) (b : ℕ) (d : ℤ) (total : ℕ)
    → AllReady heap is
    → length is ≡ length cs
    → IsBest idx b d (grown heap is cs) (exact_scan heap idx is cs (some (b, d)) total).2
unfolding exact_scan grown
scan-IsBest heap idx [] [] b d total r h = record {
  place = b;
  value = d;
  found = refl;
  greatest = tt;
  above = omega arith;
  origin = inl (refl, refl);
}
scan-IsBest heap idx [] (c ∷ cs) b d total r h = absurd (omega (arith, h))
scan-IsBest heap idx (i ∷ is) [] b d total r h = absurd (omega (arith, h))
scan-IsBest heap idx (i ∷ is) (c ∷ cs) b d total r h =
    let c' = c +ℤ pos (heap i).weight in
    let t = total + (heap i).weight in
    rw r.0 (elim (Bool-cases (ltb_ℤ d c')) [
      | inl e ↦ rw e (
          IsBest-beaten idx b d c' (grown heap is cs) _ (ground (arith, e))
            (scan-IsBest heap (suc idx) is cs idx c' t r.1 (omega (arith, h))))
      | inr e ↦ rw e (
          IsBest-kept idx b d c' (grown heap is cs) _ (ground (arith, e))
            (scan-IsBest heap (suc idx) is cs b d t r.1 (omega (arith, h))))
    ])
