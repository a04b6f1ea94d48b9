-- ===== src/Pluginhost/Registry/Fair.antt =====
-- Fairness of `pick` in core/pluginhost/registry.go among replicas that are all ready.
use moduless.Base.{
  ℕ, zero, suc, ◌+◌, ◌*◌, ◌<◌, ◌≡◌, inl, inr, refl, ap, sym, ◌∙◌, true, Option, none, some, List,
  [], ◌∷◌, arith, All, length, ℤ, pos, ◌+ℤ◌, ◌^◌,
}
use moduless.Pluginhost.Instance.{Instance, is_ready}
use moduless.Pluginhost.Registry.{choose, get_elem?, zeros}
use moduless.Pluginhost.Registry.Ints.{choose-exact, balanced-HasRoom}
use moduless.Pluginhost.Registry.Exact.{exact_scan, exact_charge, exact_choose, exact_best}
use moduless.Pluginhost.Registry.Turns.{AllReady, weight_sum, grown, scan-grown, scan-IsBest, IsLe}
use moduless.Pluginhost.Registry.Balance.{
  IsBalanced, pos_sum, neg_sum, mul_suc_left, IsBalanced-sums, grown-IsBalanced, charge-IsBalanced,
  greatest_positive, IsBalanced-length, sum-tally, IsBalanced-even, start-IsBalanced, weights,
  none_yet, sum, tally_opt,
}

-- `n` turns: the counters behind them, and how many each position had.
unfoldable pub turns : (ℕ → Instance) → List ℕ → ℕ → List ℤ → List ℕ → List ℤ × List ℕ
unfolding choose
turns heap is zero cs ks = (cs, ks)
turns heap is (suc n) cs ks =
    let (b, cs') = choose heap is cs in turns heap is n cs' (tally_opt b ks)

-- A choice among ready replicas: a position that is there, and the counters after it.
record IsTurn (heap : ℕ → Instance) (is : List ℕ) (cs : List ℤ) (r : Option ℕ × List ℤ)
    : Type 0 where
  place : ℕ
  value : ℤ
  chosen : r.0 ≡ some place
  charged : r.1 ≡ exact_charge place (weight_sum heap is) (grown heap is cs)
  stands : get_elem? (grown heap is cs) place ≡ some value
  greatest : All (λ c. IsLe c value) (grown heap is cs)

choose-found :
    (heap : ℕ → Instance) (is : List ℕ) (cs cs' : List ℤ) (t b : ℕ) (v : ℤ)
    → exact_scan heap 0 is cs none 0 ≡ (cs', t, some (b, v))
    → exact_choose heap is cs ≡ (some b, exact_charge b t cs')
unfolding exact_choose
choose-found heap is cs cs' t b v h = ap exact_best h

scan-head :
    (heap : ℕ → Instance) (i : ℕ) (is : List ℕ) (c : ℤ) (cs : List ℤ)
    → is_ready (heap i).state ≡ true
    → let c' = c +ℤ pos (heap i).weight in
      let r = exact_scan heap 1 is cs (some (0, c')) (0 + (heap i).weight) in
      exact_scan heap 0 (i ∷ is) (c ∷ cs) none 0 ≡ (c' ∷ r.0, r.1, r.2)
unfolding exact_scan
scan-head heap i is c cs h = rw h refl

choose-IsTurn :
    (heap : ℕ → Instance) (i : ℕ) (is : List ℕ) (c : ℤ) (cs : List ℤ)
    → AllReady heap (i ∷ is)
    → length is ≡ length cs
    → IsTurn heap (i ∷ is) (c ∷ cs) (exact_choose heap (i ∷ is) (c ∷ cs))
unfolding grown
choose-IsTurn heap i is c cs r h =
    let c' = c +ℤ pos (heap i).weight in
    let s = exact_scan heap 1 is cs (some (0, c')) (0 + (heap i).weight) in
    let parts = scan-grown heap 1 is cs (some (0, c')) (0 + (heap i).weight) r.1 h in
    let best = scan-IsBest heap 1 is cs 0 c' (0 + (heap i).weight) r.1 h in
    let e : exact_scan heap 0 (i ∷ is) (c ∷ cs) none 0
        ≡ (grown heap (i ∷ is) (c ∷ cs), weight_sum heap (i ∷ is), some (best.place, best.value)) =
      scan-head heap i is c cs r.0 ∙ ground (arith, parts, best.found) in
    rw (choose-found heap (i ∷ is) (c ∷ cs) _ _ best.place best.value e) (record {
      place = best.place;
      value = best.value;
      chosen = refl;
      charged = refl;
      stands = elim best.origin [
        | inl (p, q) ↦ ground (arith, p, q)
        | inr (k, p, q) ↦
            ap (get_elem? (grown heap (i ∷ is) (c ∷ cs))) {y = suc k} (omega (arith, p))
            ∙ at_suc k q
      ];
      greatest = (best.above, best.greatest);
    })
  where
    at_suc :
        (k : ℕ) {v : ℤ}
        → get_elem? (grown heap is cs) k ≡ some v
        → get_elem? (grown heap (i ∷ is) (c ∷ cs)) (suc k) ≡ some v
    at_suc k q = q

module _ (heap : ℕ → Instance) (is : List ℕ) (r : AllReady heap is) where
  abbrev total : ℕ
  total = weight_sum heap is

  -- Where a cycle stands after `n` turns.
  record IsAt (n : ℕ) (cs : List ℤ) (ks : List ℕ) : Type 0 where
    balanced : IsBalanced heap total n is cs ks
    taken : sum ks ≡ n

  IsAt-positive :
      (n : ℕ) (cs : List ℤ) (ks : List ℕ)
      → 0 < total
      → IsAt n cs ks
      → neg_sum (grown heap is cs) < pos_sum (grown heap is cs)
  IsAt-positive n cs ks p v =
      let sums =
        IsBalanced-sums heap total (suc n) is (grown heap is cs) ks
          (grown-IsBalanced heap total n is cs ks v.balanced) in
      omega (arith, sums, ap (λ m. m * total) v.taken, mul_suc_left n total, p)

  turn-IsAt :
      (n : ℕ) (cs : List ℤ) (ks : List ℕ)
      → 0 < total
      → IsAt n cs ks
      → IsTurn heap is cs (exact_choose heap is cs)
      → IsAt (suc n) (exact_choose heap is cs).1 (tally_opt (exact_choose heap is cs).0 ks)
  turn-IsAt n cs ks p v t =
      let raised = grown-IsBalanced heap total n is cs ks v.balanced in
      let lengths = IsBalanced-length heap total (suc n) is (grown heap is cs) ks raised in
      rw t.chosen (
        rw t.charged (record {
          balanced =
              charge-IsBalanced heap total (suc n) t.place is (grown heap is cs) ks t.value p
                t.stands (greatest_positive t.value _ t.greatest (IsAt-positive n cs ks p v))
                raised;
          taken =
              sum-tally t.place t.value (grown heap is cs) ks t.stands (sym lengths.0 ∙ lengths.1)
              ∙ ap suc v.taken;
        }))

IsTurn-exists :
    (heap : ℕ → Instance) (is : List ℕ) (cs : List ℤ)
    → AllReady heap is
    → length is ≡ length cs
    → 0 < weight_sum heap is
    → IsTurn heap is cs (exact_choose heap is cs)
IsTurn-exists heap [] cs r h p = absurd (omega (arith, p))
IsTurn-exists heap (i ∷ is) [] r h p = absurd (omega (arith, h))
IsTurn-exists heap (i ∷ is) (c ∷ cs) r h p = choose-IsTurn heap i is c cs r (omega (arith, h))

zero_plus : (n : ℕ) → 0 + n ≡ n
zero_plus n = omega arith

plus_zero : (n : ℕ) → n + 0 ≡ n
plus_zero n = omega arith

plus_suc : (n m : ℕ) → n + suc m ≡ suc n + m
plus_suc n m = omega arith

turns-IsAt :
    (heap : ℕ → Instance) (is : List ℕ) (r : AllReady heap is) (m n : ℕ) (cs : List ℤ) (ks : List ℕ)
    → 0 < weight_sum heap is
    → (length is + 1) * weight_sum heap is < 2 ^ 63
    → IsAt heap is r n cs ks
    → IsAt heap is r (n + m) (turns heap is m cs ks).0 (turns heap is m cs ks).1
unfolding turns
turns-IsAt heap is r zero n cs ks p w v = rw (plus_zero n) v
turns-IsAt heap is r (suc m) n cs ks p w v =
    let lengths = IsBalanced-length heap _ n is cs ks v.balanced in
    let room = balanced-HasRoom heap n is cs ks v.balanced v.taken w in
    let same =
      choose-exact heap is cs r lengths.0 room
        (omega (arith, w, mul_suc_left (length is) (weight_sum heap is))) in
    let next = turn-IsAt heap is r n cs ks p v (IsTurn-exists heap is cs r lengths.0 p) in
    rw (plus_suc n m) (
      turns-IsAt heap is r m (suc n) (choose heap is cs).1 (tally_opt (choose heap is cs).0 ks) p w
        (rw same next))

-- The round robin is fair: while all replicas are ready, as many turns as their weights amount to,
-- from fresh counters, give each position exactly its weight, and leave the counters fresh. The
-- weights amount to more than 0, and their sum, taken once for each replica and once more, is less
-- than 2^63, so that no counter wraps around.
pub turns_fair :
    (heap : ℕ → Instance) (is : List ℕ)
    → AllReady heap is
    → 0 < weight_sum heap is
    → (length is + 1) * weight_sum heap is < 2 ^ 63
    → turns heap is (weight_sum heap is) (zeros is) (none_yet is) ≡ (zeros is, weights heap is)
turns_fair heap is r p w =
    let t = weight_sum heap is in
    let s = start-IsBalanced heap t is p in
    let v = rw (zero_plus t) at (
      turns-IsAt heap is r t 0 (zeros is) (none_yet is) p w
        (record { balanced = s.0; taken = s.1 })) in
    let even = IsBalanced-even heap t is _ _ v.balanced v.taken in ground (arith, even)
