-- ===== src/Manifest/Cron/Masks.antt =====
-- The loop over a range of a cron field (`parsePart` in manifest/cron.go): its end and its bits.
use moduless.Base.{
  ℕ, zero, suc, ◌+◌, ◌*◌, ◌-◌, ◌≤◌, ◌<◌, ◌≡◌, ◌⊎◌, ◌↔◌, inl, inr, refl, ap, ◌∙◌, true, false, some,
  arith, Bool-cases, leb, ltb,
}
use moduless.Manifest.Cron.{Mask, mask_loop, set_bit, is_within, wrap, loop_fuel, no_bits}

module _ (hi step : ℕ) where
  loop_more :
      (f v : ℕ) (m : Mask)
      → is_within v hi ≡ true
      → mask_loop (suc f) hi step v m ≡ mask_loop f hi step (wrap (v + step)) (set_bit v m)
  unfolding mask_loop
  loop_more f v m h = rw h refl

  loop_done : (f v : ℕ) (m : Mask) → is_within v hi ≡ false → mask_loop (suc f) hi step v m ≡ some m
  unfolding mask_loop
  loop_done f v m h = rw h refl

  -- The loop comes to an end with a mask.
  abbrev Ends : ℕ → ℕ → Mask → Type 0
  Ends fuel v m = (m' : Mask) × (mask_loop fuel hi step v m ≡ some m')

  Ends-done : (f v : ℕ) (m : Mask) → is_within v hi ≡ false → Ends (suc f) v m
  Ends-done f v m h = (m, loop_done f v m h)

  Ends-more :
      (f v v' : ℕ) (m : Mask)
      → is_within v hi ≡ true
      → wrap (v + step) ≡ v'
      → Ends f v' (set_bit v m)
      → Ends (suc f) v m
  Ends-more f v v' m h e r =
      (r.0, loop_more f v m h ∙ ap (λ u. mask_loop f hi step u (set_bit v m)) e ∙ r.1)

  -- A step that cannot overflow.
  module _ (small : step ≤ 9223372036854775744) (pos_step : 0 < step) (word : hi < 64) where
    -- The bits that a loop from `v` on adds.
    abbrev pub Adds : ℕ → Mask → Mask → Type 0
    Adds v m m' =
        (w : ℕ) → (m' w ≡ true) ↔ ((m w ≡ true) ⊎ ((k : ℕ) × (w ≡ v + k * step) × (w ≤ hi)))

    not_below : (v w k : ℕ) → hi < v → w ≡ v + k * step → w ≤ hi → ⊥
    not_below v w k h e l = omega (arith, h, e, l)

    Adds-done : (v : ℕ) (m : Mask) → hi < v → Adds v m m
    Adds-done v m h w =
        (λ e. inl e, λ c. elim c [ inl e ↦ e | inr (k, e, l) ↦ absurd (not_below v w k h e l) ])

    set_bit_inv : (v w : ℕ) (m : Mask) → set_bit v m w ≡ true → (m w ≡ true) ⊎ (w ≡ v)
    set_bit_inv v w m h = ground arith

    set_bit_old : (v w : ℕ) (m : Mask) → m w ≡ true → set_bit v m w ≡ true
    set_bit_old v w m h = ground arith

    set_bit_new : (v w : ℕ) (m : Mask) → w ≡ v → v < 64 → set_bit v m w ≡ true
    set_bit_new v w m h l = ground arith

    mul_suc : (k : ℕ) → suc k * step ≡ step + k * step
    mul_suc k = grind arith

    Adds-more : (v : ℕ) (m m' : Mask) → v ≤ hi → Adds (v + step) (set_bit v m) m' → Adds v m m'
    Adds-more v m m' l r w = (
      λ e. elim ((r w).0 e) [
        | inl b ↦ elim (set_bit_inv v w m b) [
          | inl o ↦ inl o
          | inr s ↦ inr (0, omega (arith, s), omega (arith, s, l))
        ]
        | inr (k, q, u) ↦ inr (suc k, omega (arith, q, mul_suc k), u)
      ],
      λ c. elim c [ inl o ↦ (r w).1 (inl (set_bit_old v w m o)) | inr (k, q, u) ↦ back k q u ],
    )
      where
        back : (k : ℕ) → w ≡ v + k * step → w ≤ hi → m' w ≡ true
        back zero q u =
            (r w).1 (inl (set_bit_new v w m (omega (arith, q)) (omega (arith, l, word))))
        back (suc k) q u = (r w).1 (inr (k, omega (arith, q, mul_suc k), u))

    small_loop :
        (f v : ℕ) (m : Mask)
        → v < 9223372036854775808
        → hi < f + v
        → (m' : Mask) × (mask_loop (suc f) hi step v m ≡ some m') × Adds v m m'
    small_loop zero v m b h =
        (m, loop_done zero v m (ground (arith, b, h)), Adds-done v m (omega (arith, h)))
    small_loop (suc f) v m b h = elim (Bool-cases (leb v hi)) [
      | inr e ↦
          let above : hi < v = ground (arith, e) in
          (m, loop_done (suc f) v m (ground (arith, b, above)), Adds-done v m above)
      | inl e ↦
          let below : v ≤ hi = ground (arith, e) in
          let rest =
            small_loop f (v + step) (set_bit v m) (omega (arith, below, word, small))
              (omega (arith, h, pos_step)) in
          let next : wrap (v + step) ≡ v + step = omega (arith, below, word, small) in
          (
            rest.0,
            loop_more (suc f) v m (ground (arith, below))
                ∙ ap (λ u. mask_loop (suc f) hi step u (set_bit v m)) next
                ∙ rest.1,
            Adds-more v m rest.0 below rest.2,
          )
    ]

  -- A step near 2^63: the pattern comes back below where it was, after two rounds.
  module _ (large : 9223372036854775744 < step) (int : step < 9223372036854775808)
      (word : hi < 64) where
    -- A second wrap-around that overshoots the end.
    third_round :
        (f v : ℕ) (m : Mask)
        → v < 64
        → v + step + step < 18446744073709551616
        → Ends (suc (suc f)) (v + step + step) m
    third_round f v m l h =
        let v3 = v + step + step + step - 18446744073709551616 in
        Ends-more (suc f) (v + step + step) v3 m (ground (arith, large))
          (omega (arith, large, int, h, l))
          (Ends-done f v3 _ (ground (arith, large, int, h, l, word)))

    -- The first round, given the second.
    first_round :
        (f v : ℕ) (m : Mask)
        → v < 64
        → (9223372036854775808 ≤ v + step → Ends (suc (suc (suc f))) (v + step) (set_bit v m))
        → Ends (suc (suc (suc (suc f)))) v m
    first_round f v m l second = elim (Bool-cases (leb v hi)) [
      | inr e ↦ Ends-done _ v m (ground (arith, e, l))
      | inl e ↦
          Ends-more _ v (v + step) m (ground (arith, e)) (omega (arith, int, l))
            (elim (Bool-cases (ltb (v + step) 9223372036854775808)) [
              | inl b ↦ Ends-done _ (v + step) _ (ground (arith, b, large, word))
              | inr b ↦ second (ground (arith, b))
            ])
    ]

    big_loop : (f v : ℕ) (m : Mask) → v ≤ f → v < 64 → Ends (suc (suc (suc (suc f)))) v m
    big_loop zero v m h l = first_round zero v m l (λ b. absurd (omega (arith, h, b, int)))
    big_loop (suc zero) v m h l = first_round 1 v m l (λ b.
        Ends-more _ (v + step) (v + step + step) (set_bit v m) (ground (arith, b))
          (omega (arith, h, b, int, large)) (third_round _ v _ l (omega (arith, h, b, int))))
    big_loop (suc (suc f)) v m h l = first_round (suc (suc f)) v m l (λ b.
        elim (Bool-cases (ltb (v + step + step) 18446744073709551616)) [
          | inl e ↦
              let fits : v + step + step < 18446744073709551616 = ground (arith, e) in
              Ends-more _ (v + step) (v + step + step) (set_bit v m) (ground (arith, b))
                (omega (arith, fits)) (third_round _ v _ l fits)
          | inr e ↦
              let over : 18446744073709551616 ≤ v + step + step = ground (arith, e) in
              let v2 = v + step + step - 18446744073709551616 in
              Ends-more _ (v + step) v2 (set_bit v m) (ground (arith, b))
                (omega (arith, over, int, l))
                (big_loop f v2 _ (omega (arith, over, int, h)) (omega (arith, over, int, l)))
        ])

-- The loop over a range always ends, whatever the step, also where the sum wraps around.
pub mask_loop_ends :
    (hi step v : ℕ) (m : Mask)
    → hi < 64
    → v < 64
    → 0 < step
    → step < 9223372036854775808
    → (m' : Mask) × (mask_loop loop_fuel hi step v m ≡ some m')
mask_loop_ends hi step v m h l p i = elim (Bool-cases (leb step 9223372036854775744)) [
  | inl e ↦
      let r =
        small_loop hi step (ground (arith, e)) p h 199 v m (omega (arith, l)) (omega (arith, h)) in
      (r.0, r.1)
  | inr e ↦ big_loop hi step (ground (arith, e)) i h 196 v m (omega (arith, l)) l
]

-- A range of a field below 64, with a step that is not above 2^63 - 64, selects exactly the values
-- that are reached from its start by steps and are not above its end.
pub range_bits :
    (hi step v : ℕ)
    → step ≤ 9223372036854775744
    → 0 < step
    → hi < 64
    → v < 64
    → (m : Mask) × (mask_loop loop_fuel hi step v no_bits ≡ some m)
      × ((w : ℕ) → (m w ≡ true) ↔ ((k : ℕ) × (w ≡ v + k * step) × (w ≤ hi)))
range_bits hi step v s p h l =
    let r = small_loop hi step s p h 199 v no_bits (omega (arith, l)) (omega (arith, h)) in
    (
      r.0,
      r.1,
      λ w.
          (λ e. elim ((r.2 w).0 e) [ inl f ↦ absurd (cc (f)) | inr c ↦ c ], λ c. (r.2 w).1 (inr c)),
    )
