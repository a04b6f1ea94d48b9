-- ===== src/Base/Text.antt =====
-- Go strings as lists of bytes, and the functions of package `strings` that the program calls.
use Prim.Native.Nat.{ℕ, ◌-◌}
use Prim.Native.Char.{code}
use Prim.Native.String.{String}
use mathlib.Core.Path.{◌≡◌, refl, ap}
use mathlib.Core.Logic.{◌↔◌}
use mathlib.Core.Bool.{Bool, true, false, ◌&&◌, ◌||◌}
use mathlib.Core.List.{List, [], ◌∷◌, ◌++◌, reverse}
use native.Mathlib.Omega.{arith}
use moduless.Base.Tests.{◌==◌, if◌then◌else◌}
use moduless.Base.Lists.{length, drop, take, length-append}

abbrev pub Bytes : Type 0
Bytes = List ℕ

-- The bytes of an ASCII literal.
abbrev pub bytes : String → Bytes
bytes String.[] = []
bytes (String.◌∷◌ c s) = code c ∷ bytes s

infix 50 ◌=?◌
-- `a == b` on strings.
unfoldable pub ◌=?◌ : Bytes → Bytes → Bool
[] =? [] = true
[] =? (y ∷ ys) = false
(x ∷ xs) =? [] = false
(x ∷ xs) =? (y ∷ ys) = (x == y) && (xs =? ys)

pub =?_refl : (a : Bytes) → (a =? a) ≡ true
unfolding ◌=?◌
=?_refl [] = refl
=?_refl (x ∷ xs) = ground (arith, =?_refl xs)

pub =?→≡ : (a b : Bytes) → (a =? b) ≡ true → a ≡ b
unfolding ◌=?◌
=?→≡ [] [] h = refl
=?→≡ [] (y ∷ ys) h = cc
=?→≡ (x ∷ xs) [] h = cc
=?→≡ (x ∷ xs) (y ∷ ys) h = ground (arith, =?→≡ xs ys)

pub ≡→=? : (a b : Bytes) → a ≡ b → (a =? b) ≡ true
≡→=? a b e = rw e (=?_refl b)

pub =?_iff : (a b : Bytes) → ((a =? b) ≡ true) ↔ (a ≡ b)
=?_iff a b = (=?→≡ a b, ≡→=? a b)

-- `s == ""`.
abbrev pub is_empty : Bytes → Bool
is_empty [] = true
is_empty (c ∷ s) = false

-- `strings.HasPrefix`.
unfoldable pub has_prefix : Bytes → Bytes → Bool
has_prefix s [] = true
has_prefix [] (p ∷ ps) = false
has_prefix (c ∷ s) (p ∷ ps) = (c == p) && has_prefix s ps

pub has_prefix-append : (p s : Bytes) → has_prefix (p ++ s) p ≡ true
unfolding has_prefix
has_prefix-append [] s = refl
has_prefix-append (c ∷ p) s = ground (arith, has_prefix-append p s)

pub has_prefix-split : (s p : Bytes) → has_prefix s p ≡ true → p ++ drop (length p) s ≡ s
unfolding has_prefix
has_prefix-split s [] h = refl
has_prefix-split [] (p ∷ ps) h = cc
has_prefix-split (c ∷ s) (p ∷ ps) h = ground (arith, has_prefix-split s ps)

pub drop-append : (p s : Bytes) → drop (length p) (p ++ s) ≡ s
drop-append [] s = refl
drop-append (c ∷ p) s = drop-append p s

-- `strings.HasSuffix`: the tail of the suffix's length is the suffix.
unfoldable pub has_suffix : Bytes → Bytes → Bool
unfolding ◌=?◌
has_suffix s suffix = drop (length s - length suffix) s =? suffix

-- `strings.TrimSuffix`.
unfoldable pub trim_suffix : Bytes → Bytes → Bytes
unfolding has_suffix
trim_suffix s suffix = if has_suffix s suffix then take (length s - length suffix) s else s

take-append : (s t : Bytes) → take (length s) (s ++ t) ≡ s
take-append [] t = refl
take-append (c ∷ s) t = ap (λ r. c ∷ r) (take-append s t)

length-append-sub : (s t : Bytes) → length (s ++ t) - length t ≡ length s
length-append-sub s t = omega (arith, length-append s t)

pub has_suffix-append : (s t : Bytes) → has_suffix (s ++ t) t ≡ true
unfolding has_suffix
has_suffix-append s t = rw (length-append-sub s t) (rw (drop-append s t) (=?_refl t))

pub trim_suffix-append : (s t : Bytes) → trim_suffix (s ++ t) t ≡ s
unfolding trim_suffix
trim_suffix-append s t = rw (has_suffix-append s t) (rw (length-append-sub s t) (take-append s t))

-- `strings.Contains`: the needle is a prefix of some tail.
unfoldable pub contains : Bytes → Bytes → Bool
unfolding has_prefix
contains [] needle = has_prefix [] needle
contains (c ∷ s) needle = has_prefix (c ∷ s) needle || contains s needle

-- `strings.TrimLeft(s, string(cut))`, for one byte.
unfoldable pub trim_left : Bytes → ℕ → Bytes
trim_left [] cut = []
trim_left (c ∷ s) cut = if c == cut then trim_left s cut else c ∷ s

-- `strings.Trim(s, string(cut))`, for one byte.
unfoldable pub trim : Bytes → ℕ → Bytes
unfolding trim_left
trim s cut = reverse (trim_left (reverse (trim_left s cut)) cut)

-- `strings.Split(s, string(sep))`, for one byte; never empty.
unfoldable pub split_from : Bytes → Bytes → ℕ → List Bytes
split_from piece [] sep = piece ∷ []
split_from piece (c ∷ s) sep =
    let closed = piece ∷ split_from [] s sep in
    let longer = split_from (piece ++ c ∷ []) s sep in if c == sep then closed else longer

unfoldable pub split : Bytes → ℕ → List Bytes
unfolding split_from
split s sep = split_from [] s sep

-- `slices.Contains` on strings.
unfoldable pub mem_bytes : List Bytes → Bytes → Bool
unfolding ◌=?◌
mem_bytes [] b = false
mem_bytes (a ∷ xs) b = (a =? b) || mem_bytes xs b
