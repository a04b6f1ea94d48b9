-- ===== src/Db/Query/Clauses.antt =====
-- One clause of core/db/query.go for values of one number: the same error or the same text.
use moduless.Base.{ℕ, true, false, List, [], ◌∷◌, Bytes, length, ◌≡◌, refl, sym, arith}
use moduless.Db.Sql.{Outcome, fails, returns, ◌>>=◌}
use moduless.Db.Query.{
  OpKind, one_value, in_list, between, is_null, is_not_null, no_operator, clause_of,
}

-- Two outcomes with one text, and with as many values: the same error, or the same text.
abbrev pub SameText {ℓ} :
    {A : Type 0} {V : Type ℓ} → Outcome (A × List V) → Outcome (A × List V) → Type 0
SameText (fails e) (fails f) = e ≡ f
SameText (returns (t, a)) (returns (u, b)) = (t ≡ u) × (length a ≡ length b)
SameText (fails e) (returns r) = false ≡ true
SameText (returns r) (fails e) = false ≡ true

in_list-SameText :
    (raw expr : Bytes) (n : ℕ) (vs ws : List Bytes)
    → length vs ≡ length ws
    → SameText (clause_of in_list raw expr n vs) (clause_of in_list raw expr n ws)
unfolding clause_of
in_list-SameText raw expr n [] [] h = (refl, refl)
in_list-SameText raw expr n [] (w ∷ ws) h = absurd (omega (arith, h))
in_list-SameText raw expr n (v ∷ vs) [] h = absurd (omega (arith, h))
in_list-SameText raw expr n (v ∷ vs) (w ∷ ws) h =
    let e : length vs ≡ length ws = omega (arith, h) in rw e (refl, refl)

one_value-SameText :
    (raw expr : Bytes) (n : ℕ) (vs ws : List Bytes)
    → length vs ≡ length ws
    → SameText (clause_of one_value raw expr n vs) (clause_of one_value raw expr n ws)
unfolding clause_of
one_value-SameText raw expr n [] [] h = refl
one_value-SameText raw expr n (v ∷ []) (w ∷ []) h = (refl, refl)
one_value-SameText raw expr n (v ∷ v' ∷ vs) (w ∷ w' ∷ ws) h = refl
one_value-SameText raw expr n [] (w ∷ ws) h = absurd (omega (arith, h))
one_value-SameText raw expr n (v ∷ vs) [] h = absurd (omega (arith, h))
one_value-SameText raw expr n (v ∷ []) (w ∷ w' ∷ ws) h = absurd (omega (arith, h))
one_value-SameText raw expr n (v ∷ v' ∷ vs) (w ∷ []) h = absurd (omega (arith, h))

between-SameText :
    (raw expr : Bytes) (n : ℕ) (vs ws : List Bytes)
    → length vs ≡ length ws
    → SameText (clause_of between raw expr n vs) (clause_of between raw expr n ws)
unfolding clause_of
between-SameText raw expr n [] [] h = refl
between-SameText raw expr n (v ∷ []) (w ∷ []) h = refl
between-SameText raw expr n (v ∷ v' ∷ []) (w ∷ w' ∷ []) h = (refl, refl)
between-SameText raw expr n (v ∷ v' ∷ v'' ∷ vs) (w ∷ w' ∷ w'' ∷ ws) h = refl
between-SameText raw expr n [] (w ∷ ws) h = absurd (omega (arith, h))
between-SameText raw expr n (v ∷ vs) [] h = absurd (omega (arith, h))
between-SameText raw expr n (v ∷ []) (w ∷ w' ∷ ws) h = absurd (omega (arith, h))
between-SameText raw expr n (v ∷ v' ∷ vs) (w ∷ []) h = absurd (omega (arith, h))
between-SameText raw expr n (v ∷ v' ∷ []) (w ∷ w' ∷ w'' ∷ ws) h = absurd (omega (arith, h))
between-SameText raw expr n (v ∷ v' ∷ v'' ∷ vs) (w ∷ w' ∷ []) h = absurd (omega (arith, h))

pub clause_of-SameText :
    (k : OpKind) (raw expr : Bytes) (n : ℕ) (vs ws : List Bytes)
    → length vs ≡ length ws
    → SameText (clause_of k raw expr n vs) (clause_of k raw expr n ws)
unfolding clause_of
clause_of-SameText one_value raw expr n vs ws h = one_value-SameText raw expr n vs ws h
clause_of-SameText in_list raw expr n vs ws h = in_list-SameText raw expr n vs ws h
clause_of-SameText between raw expr n vs ws h = between-SameText raw expr n vs ws h
clause_of-SameText is_null raw expr n vs ws h = (refl, refl)
clause_of-SameText is_not_null raw expr n vs ws h = (refl, refl)
clause_of-SameText no_operator raw expr n vs ws h = refl

-- Binding outcomes with one text, where what follows keeps that for equal texts.
pub bind-SameText {ℓ κ} :
    {A B : Type 0} {V : Type ℓ} {W : Type κ} (x y : Outcome (A × List V))
    (f g : A × List V → Outcome (B × List W))
    → SameText x y
    → ((t : A) (a b : List V) → length a ≡ length b → SameText (f (t, a)) (g (t, b)))
    → SameText (x >>= f) (y >>= g)
bind-SameText (fails e) (fails e') f g s h = s
bind-SameText (returns (t, a)) (returns (u, b)) f g s h = rw (sym s.0) (h t a b s.1)
bind-SameText (fails e) (returns r) f g s h = absurd (cc)
bind-SameText (returns r) (fails e) f g s h = absurd (cc)

-- Binding one outcome of the two runs.
pub shared-SameText {ℓ κ} :
    {X : Type ℓ} {B : Type 0} {W : Type κ} (x : Outcome X) (f g : X → Outcome (B × List W))
    → ((a : X) → SameText (f a) (g a))
    → SameText (x >>= f) (x >>= g)
shared-SameText (fails e) f g h = refl
shared-SameText (returns a) f g h = h a
