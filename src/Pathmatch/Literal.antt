-- ===== src/Pathmatch/Literal.antt =====
-- `Compile` of pathmatch/pathmatch.go on patterns without a wildcard, from the text to the answer.
use mathlib.Core.List.{reverse, reverse-cons}
use moduless.Base.{
  ℕ, zero, suc, ◌-◌, has_suffix, is_empty, has_suffix-append, trim_suffix-append, ◌≡◌, ◌≢◌, refl,
  ◌↔◌, ◌⊎◌, Bool, true, false, Bytes, ◌∷◌, ◌++◌, [], arith, =?_iff, List, All, drop, length, any,
  has_prefix, contains, mem_bytes, ◌=?◌, trim, trim_left, split, split_from, All-append,
  if◌then◌else◌,
}
use moduless.Pathmatch.Laws.{match-exact, match-prefix}
use moduless.Pathmatch.Defs.{
  double_star, star, is_partial, compile_body, literal_pattern, all_suffix, split_segments, slash,
  Pattern, Kind, ok, match, compile,
}

-- Patterns without a star.
abbrev pub NoStar : Bytes → Type 0
NoStar s = All (λ c. c ≢ b'*') s

reverse-NoStar : (s : Bytes) → NoStar s → NoStar (reverse s)
reverse-NoStar [] h = tt
reverse-NoStar (c ∷ s) h =
    rw (reverse-cons c s) (All-append _ (reverse s) (c ∷ []) (reverse-NoStar s h.1) (h.0, tt))

trim_left-NoStar : (s : Bytes) (cut : ℕ) → NoStar s → NoStar (trim_left s cut)
unfolding trim_left
trim_left-NoStar [] cut h = tt
trim_left-NoStar (c ∷ s) cut h = ground (arith, trim_left-NoStar s cut h.1)

trim-NoStar : (s : Bytes) (cut : ℕ) → NoStar s → NoStar (trim s cut)
unfolding trim
trim-NoStar s cut h =
    reverse-NoStar _ (trim_left-NoStar _ cut (reverse-NoStar _ (trim_left-NoStar s cut h)))

split_from-NoStar :
    (piece s : Bytes) (sep : ℕ) → NoStar piece → NoStar s → All NoStar (split_from piece s sep)
unfolding split_from
split_from-NoStar piece [] sep p h = (p, tt)
split_from-NoStar piece (c ∷ s) sep p h = ground (
  arith,
  split_from-NoStar [] s sep tt h.1,
  split_from-NoStar (piece ++ c ∷ []) s sep (All-append _ piece (c ∷ []) p (h.0, tt)) h.1,
)

split_segments-NoStar : (s : Bytes) → NoStar s → All NoStar (split_segments s)
unfolding split_segments split
split_segments-NoStar s h =
    ground (arith, split_from-NoStar [] (trim s slash) slash tt (trim-NoStar s slash h))

-- A text without a star has none of the substrings that `Compile` looks for.
no_double_star : (s : Bytes) → NoStar s → contains s double_star ≡ false
unfolding contains
no_double_star [] h = refl
no_double_star (c ∷ s) h = ground (arith, h.0, no_double_star s h.1)

no_star : (s : Bytes) → NoStar s → contains s star ≡ false
unfolding contains
no_star [] h = refl
no_star (c ∷ s) h = ground (arith, h.0, no_star s h.1)

not-star : (s : Bytes) → NoStar s → (s =? star) ≡ false
unfolding ◌=?◌
not-star [] h = refl
not-star (c ∷ s) h = ground (arith, h.0)

no_partial : (segs : List Bytes) → All NoStar segs → any is_partial segs ≡ false
unfolding is_partial
no_partial [] h = refl
no_partial (s ∷ segs) h = ground (arith, no_star s h.0, no_partial segs h.1)

NoStar-segment : (segs : List Bytes) → All NoStar segs → mem_bytes segs star ≡ false
unfolding mem_bytes
NoStar-segment [] h = refl
NoStar-segment (s ∷ segs) h = ground (arith, not-star s h.0, NoStar-segment segs h.1)

compile_body-NoStar :
    (pattern body : Bytes) (trailing : Bool)
    → NoStar body
    → compile_body pattern body trailing
      ≡ ok (literal_pattern pattern (if trailing then Kind.prefix else Kind.exact) body)
unfolding compile_body
compile_body-NoStar pattern body trailing h = ground (
  arith,
  no_double_star body h,
  no_partial (split_segments body) (split_segments-NoStar body h),
  NoStar-segment (split_segments body) (split_segments-NoStar body h),
)

suffix_differs : (s : Bytes) → NoStar s → (s =? all_suffix) ≡ false
unfolding ◌=?◌
suffix_differs [] h = refl
suffix_differs (c ∷ []) h = ground arith
suffix_differs (c ∷ d ∷ s) h = ground (arith, h.1.0)

drop-NoStar : (n : ℕ) (s : Bytes) → NoStar s → NoStar (drop n s)
drop-NoStar zero s h = h
drop-NoStar (suc n) [] h = tt
drop-NoStar (suc n) (c ∷ s) h = drop-NoStar n s h.1

not-has_suffix : (s : Bytes) → NoStar s → has_suffix s all_suffix ≡ false
unfolding has_suffix
not-has_suffix s h = suffix_differs _ (drop-NoStar (length s - length all_suffix) s h)

compile-literal :
    (s : Bytes)
    → NoStar s
    → has_prefix s (slash ∷ []) ≡ true
    → compile s ≡ ok (literal_pattern s Kind.exact s)
unfolding compile has_prefix
compile-literal [] h p = cc
compile-literal (c ∷ s) h p = ground (
  arith,
  =?_iff (c ∷ s) double_star,
  suffix_differs (c ∷ s) h,
  not-has_suffix (c ∷ s) h,
  compile_body-NoStar (c ∷ s) (c ∷ s) false h,
)

-- Neither spelling of "everything" begins with a literal segment.
below_differs :
    (s : Bytes)
    → NoStar s
    → has_prefix s (slash ∷ []) ≡ true
    → ((s ++ all_suffix =? double_star) ≡ false) × ((s ++ all_suffix =? all_suffix) ≡ false)
unfolding ◌=?◌ has_prefix
below_differs [] h p = absurd (ground arith)
below_differs (c ∷ []) h p = ground arith
below_differs (c ∷ d ∷ s) h p = ground (arith, h.1.0)

has_prefix-append_slash :
    (s t : Bytes) → has_prefix s (slash ∷ []) ≡ true → has_prefix (s ++ t) (slash ∷ []) ≡ true
unfolding has_prefix
has_prefix-append_slash [] t p = cc
has_prefix-append_slash (c ∷ s) t p = p

not-is_empty : (s t : Bytes) → has_prefix s (slash ∷ []) ≡ true → is_empty (s ++ t) ≡ false
unfolding has_prefix
not-is_empty [] t p = cc
not-is_empty (c ∷ s) t p = refl

compile-below :
    (s : Bytes)
    → NoStar s
    → has_prefix s (slash ∷ []) ≡ true
    → compile (s ++ all_suffix) ≡ ok (literal_pattern (s ++ all_suffix) Kind.prefix s)
unfolding compile
compile-below s h p = ground (
  arith,
  not-is_empty s all_suffix p,
  below_differs s h p,
  has_prefix-append_slash s all_suffix p,
  has_suffix-append s all_suffix,
  trim_suffix-append s all_suffix,
  compile_body-NoStar (s ++ all_suffix) s true h,
)

-- A pattern that begins with a slash and holds no star compiles, and matches that path and no
-- other.
pub match-compile_literal :
    (s path : Bytes)
    → NoStar s
    → has_prefix s (slash ∷ []) ≡ true
    → (p : Pattern) × (compile s ≡ ok p) × ((match p path ≡ true) ↔ (path ≡ s))
match-compile_literal s path h q =
    (literal_pattern s Kind.exact s, compile-literal s h q, match-exact _ path refl)

-- A pattern that begins with a slash and whose only stars are a final "/**" compiles, and matches
-- the path in front of that, the paths that go on behind it with a slash, and no other.
pub match-compile_below :
    (s path : Bytes)
    → NoStar s
    → has_prefix s (slash ∷ []) ≡ true
    → (p : Pattern) × (compile (s ++ all_suffix) ≡ ok p)
      × ((match p path ≡ true) ↔ ((path ≡ s) ⊎ ((r : Bytes) × (path ≡ s ++ slash ∷ r))))
match-compile_below s path h q =
    (literal_pattern (s ++ all_suffix) Kind.prefix s, compile-below s h q, match-prefix _ path refl)
