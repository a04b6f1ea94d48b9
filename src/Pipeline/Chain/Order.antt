-- ===== src/Pipeline/Chain/Order.antt =====
-- The order of a phase's filters (core/pipeline/chain.go).
use mathlib.Core.List.{Perm}
use mathlib.Core.List.Perm
use moduless.Base.{
  ◌≡◌, ◌⊎◌, ◌↔◌, inl, inr, refl, true, false, List, [], ◌∷◌, arith, All, Bytes, =?_iff, Bool-cases,
  ℤ, pos, negsuc,
}
use moduless.Pipeline.Chain.{Filter, lt_bytes, lt_int, eq_int, less, place, sort_filters}

lt_bytes_asymm : (a b : Bytes) → lt_bytes a b ≡ true → lt_bytes b a ≡ false
unfolding lt_bytes
lt_bytes_asymm [] [] h = refl
lt_bytes_asymm [] (d ∷ b) h = refl
lt_bytes_asymm (c ∷ a) [] h = cc
lt_bytes_asymm (c ∷ a) (d ∷ b) h = ground (arith, lt_bytes_asymm a b)

-- "Not greater" is transitive, and two texts that are not ordered are equal.
lt_bytes_trans :
    (a b c : Bytes) → lt_bytes b a ≡ false → lt_bytes c b ≡ false → lt_bytes c a ≡ false
unfolding lt_bytes
lt_bytes_trans a [] [] h k = h
lt_bytes_trans [] [] (z ∷ c) h k = refl
lt_bytes_trans (x ∷ a) [] (z ∷ c) h k = cc
lt_bytes_trans [] (y ∷ b) [] h k = refl
lt_bytes_trans [] (y ∷ b) (z ∷ c) h k = refl
lt_bytes_trans (x ∷ a) (y ∷ b) [] h k = cc
lt_bytes_trans (x ∷ a) (y ∷ b) (z ∷ c) h k = ground (arith, lt_bytes_trans a b c)

lt_bytes_eq : (a b : Bytes) → lt_bytes a b ≡ false → lt_bytes b a ≡ false → a ≡ b
unfolding lt_bytes
lt_bytes_eq [] [] h k = refl
lt_bytes_eq [] (d ∷ b) h k = cc
lt_bytes_eq (c ∷ a) [] h k = cc
lt_bytes_eq (c ∷ a) (d ∷ b) h k = ground (arith, lt_bytes_eq a b)

less_asymm : (f g : Filter) → less f g ≡ true → less g f ≡ false
unfolding less
less_asymm f g h = ground (
  arith,
  =?_iff f.plugin_key g.plugin_key,
  =?_iff g.plugin_key f.plugin_key,
  lt_bytes_asymm f.plugin_key g.plugin_key,
  lt_bytes_asymm f.name g.name,
)

less_trans : (f g h : Filter) → less g f ≡ false → less h g ≡ false → less h f ≡ false
unfolding less
less_trans f g h p q = ground (
  arith,
  =?_iff g.plugin_key f.plugin_key,
  =?_iff h.plugin_key g.plugin_key,
  =?_iff h.plugin_key f.plugin_key,
  lt_bytes_trans f.plugin_key g.plugin_key h.plugin_key,
  lt_bytes_trans f.name g.name h.name,
  lt_bytes_eq g.plugin_key f.plugin_key,
  lt_bytes_eq h.plugin_key g.plugin_key,
  lt_bytes_asymm h.plugin_key f.plugin_key,
  lt_bytes_asymm h.plugin_key g.plugin_key,
  lt_bytes_asymm g.plugin_key f.plugin_key,
)

-- `f` may stand in front of `g`: its order is smaller, or the same and its plugin's key is smaller,
-- or that is the same too and its name is not greater.
abbrev pub IsInOrder : Filter → Filter → Type 0
IsInOrder f g =
    (lt_int f.order g.order ≡ true)
    ⊎ ((f.order ≡ g.order)
        × ((lt_bytes f.plugin_key g.plugin_key ≡ true)
            ⊎ ((f.plugin_key ≡ g.plugin_key) × (lt_bytes g.name f.name ≡ false))))

-- Every filter stands in order with all behind it.
abbrev pub IsOrdered : List Filter → Type 0
IsOrdered [] = Unit
IsOrdered (f ∷ fs) = All (IsInOrder f) fs × IsOrdered fs

lt_int_total : (a b : ℤ) → lt_int b a ≡ false → (lt_int a b ≡ true) ⊎ (a ≡ b)
lt_int_total (pos a) (pos b) h = ground arith
lt_int_total (pos a) (negsuc b) h = ground arith
lt_int_total (negsuc a) (pos b) h = ground arith
lt_int_total (negsuc a) (negsuc b) h = ground arith

eq_int_iff : (a b : ℤ) → (eq_int a b ≡ true) ↔ (a ≡ b)
eq_int_iff (pos a) (pos b) = ground arith
eq_int_iff (pos a) (negsuc b) = ground arith
eq_int_iff (negsuc a) (pos b) = ground arith
eq_int_iff (negsuc a) (negsuc b) = ground arith

less-IsInOrder : (f g : Filter) → less g f ≡ false → IsInOrder f g
unfolding less
less-IsInOrder f g h = ground (
  arith,
  lt_int_total f.order g.order,
  eq_int_iff g.order f.order,
  =?_iff g.plugin_key f.plugin_key,
  lt_bytes_eq f.plugin_key g.plugin_key,
)

-- No filter stands behind one that it is less than.
abbrev pub IsSorted : List Filter → Type 0
IsSorted [] = Unit
IsSorted (f ∷ fs) = All (λ g. less g f ≡ false) fs × IsSorted fs

All-place :
    (P : Filter → Type 0) (f : Filter) (gs : List Filter) → P f → All P gs → All P (place f gs)
unfolding place
All-place P f [] p h = (p, tt)
All-place P f (g ∷ gs) p h = elim (Bool-cases (less g f)) [
  | inl e ↦ rw e (h.0, All-place P f gs p h.1)
  | inr e ↦ rw e (p, h)
]

All-less_trans :
    (f g : Filter) (hs : List Filter)
    → less g f ≡ false
    → All (λ h. less h g ≡ false) hs
    → All (λ h. less h f ≡ false) hs
All-less_trans f g [] p a = tt
All-less_trans f g (h ∷ hs) p a = (less_trans f g h p a.0, All-less_trans f g hs p a.1)

place-IsSorted : (f : Filter) (gs : List Filter) → IsSorted gs → IsSorted (place f gs)
unfolding place
place-IsSorted f [] s = (tt, tt)
place-IsSorted f (g ∷ gs) s = elim (Bool-cases (less g f)) [
  | inl e ↦
      rw e (All-place (λ h. less h g ≡ false) f gs (less_asymm g f e) s.0, place-IsSorted f gs s.1)
  | inr e ↦ rw e ((e, All-less_trans f g gs e s.0), s)
]

pub sort_filters-IsSorted : (fs : List Filter) → IsSorted (sort_filters fs)
unfolding sort_filters
sort_filters-IsSorted [] = tt
sort_filters-IsSorted (f ∷ fs) = place-IsSorted f (sort_filters fs) (sort_filters-IsSorted fs)

place-perm : (f : Filter) (gs : List Filter) → Perm (place f gs) (f ∷ gs)
unfolding place
place-perm f [] = Perm.refl _
place-perm f (g ∷ gs) = elim (Bool-cases (less g f)) [
  | inl e ↦ rw e (Perm.trans (Perm.cons g (place-perm f gs)) (Perm.swap f g gs))
  | inr e ↦ rw e (Perm.refl _)
]

pub sort_filters-perm : (fs : List Filter) → Perm (sort_filters fs) fs
unfolding sort_filters
sort_filters-perm [] = Perm.refl _
sort_filters-perm (f ∷ fs) =
    Perm.trans (place-perm f (sort_filters fs)) (Perm.cons f (sort_filters-perm fs))

All-IsInOrder :
    (f : Filter) (gs : List Filter) → All (λ g. less g f ≡ false) gs → All (IsInOrder f) gs
All-IsInOrder f [] a = tt
All-IsInOrder f (g ∷ gs) a = (less-IsInOrder f g a.0, All-IsInOrder f gs a.1)

pub IsSorted-IsOrdered : (fs : List Filter) → IsSorted fs → IsOrdered fs
IsSorted-IsOrdered [] s = tt
IsSorted-IsOrdered (f ∷ fs) s = (All-IsInOrder f fs s.0, IsSorted-IsOrdered fs s.1)

pub All-sort_filters : (P : Filter → Type 0) (fs : List Filter) → All P fs → All P (sort_filters fs)
unfolding sort_filters
All-sort_filters P [] h = tt
All-sort_filters P (f ∷ fs) h = All-place P f (sort_filters fs) h.0 (All-sort_filters P fs h.1)
