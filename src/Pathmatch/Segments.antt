-- ===== src/Pathmatch/Segments.antt =====
-- `nextSegment` and `matchSegments` against their specification.
use moduless.Base.{
  ℕ, zero, suc, ◌≡◌, refl, ap, sym, ◌∙◌, ◌↔◌, ◌≢◌, ◌⊎◌, inl, inr, Bool, true, false, List, [], ◌∷◌,
  ◌++◌, All, Bytes, arith, ◌==◌, is_empty, =?_iff,
}
use moduless.Pathmatch.Defs.{
  slash, star, starts_with_slash, skip_slashes, cut_at_slash, next_segment, at_end, match_segments,
}
use moduless.Pathmatch.Spec.{slashes, IsSegment, IsBoundary, Covers}

cut_at_slash-append :
    (got rest : Bytes)
    → All (λ c. c ≢ slash) got
    → IsBoundary rest
    → cut_at_slash (got ++ rest) ≡ (got, rest)
unfolding cut_at_slash
cut_at_slash-append [] [] h b = refl
cut_at_slash-append [] (c ∷ rest) h b = ground arith
cut_at_slash-append (c ∷ got) rest h b = ground (arith, cut_at_slash-append got rest h.1 b, h.0)

-- What `cut_at_slash` returns.
record IsCut (path : Bytes) (r : Bytes × Bytes) : Type 0 where
  whole : r.0 ++ r.1 ≡ path
  no_slash : All (λ c. c ≢ slash) r.0
  boundary : IsBoundary r.1

cut_at_slash-IsCut : (path : Bytes) → IsCut path (cut_at_slash path)
unfolding cut_at_slash
cut_at_slash-IsCut [] = ground arith
cut_at_slash-IsCut (c ∷ path) = ground (arith, cut_at_slash-IsCut path)

skip_slashes-slashes :
    (k : ℕ) (s : Bytes) → starts_with_slash s ≡ false → skip_slashes (slashes k s) ≡ s
unfolding skip_slashes
skip_slashes-slashes zero [] h = refl
skip_slashes-slashes zero (c ∷ s) h = ground arith
skip_slashes-slashes (suc k) s h = skip_slashes-slashes k s h

lead : Bytes → ℕ
lead [] = 0
lead (c ∷ path) = elim (c == slash) [ true ↦ suc (lead path) | false ↦ 0 ]

slashes-skip_slashes : (path : Bytes) → path ≡ slashes (lead path) (skip_slashes path)
unfolding lead skip_slashes
slashes-skip_slashes [] = refl
slashes-skip_slashes (c ∷ path) = ground (arith, slashes-skip_slashes path)

starts_with_slash-segment :
    (got rest : Bytes) → IsSegment got → starts_with_slash (got ++ rest) ≡ false
starts_with_slash-segment [] rest s = absurd (s.nonempty refl)
starts_with_slash-segment (c ∷ got) rest s = ground (arith, s.no_slash.0)

next_segment-slashes :
    (k : ℕ) (got rest : Bytes)
    → IsSegment got
    → IsBoundary rest
    → next_segment (slashes k (got ++ rest)) ≡ (got, rest)
unfolding next_segment
next_segment-slashes k got rest s b =
    rw (skip_slashes-slashes k (got ++ rest) (starts_with_slash-segment got rest s))
      (cut_at_slash-append got rest s.no_slash b)

at_end→ : (rest : Bytes) → at_end rest ≡ true → (rest ≡ []) ⊎ (rest ≡ slash ∷ [])
unfolding at_end
at_end→ [] h = inl refl
at_end→ (c ∷ rest) h = ground (arith, =?_iff (c ∷ rest) (slash ∷ []))

pub →at_end : (rest : Bytes) → (rest ≡ []) ⊎ (rest ≡ slash ∷ []) → at_end rest ≡ true
unfolding at_end
→at_end [] h = refl
→at_end (c ∷ rest) h = ground (arith, =?_iff (c ∷ rest) (slash ∷ []))

next_segment-IsCut : (path : Bytes) → IsCut (skip_slashes path) (next_segment path)
unfolding next_segment
next_segment-IsCut path = cut_at_slash-IsCut (skip_slashes path)

next_segment_whole :
    (path : Bytes) → path ≡ slashes (lead path) ((next_segment path).0 ++ (next_segment path).1)
next_segment_whole path =
    slashes-skip_slashes path ∙ ap (slashes (lead path)) (sym (next_segment-IsCut path).whole)

-- What a round of the loop has found when the whole loop answers true.
round_found :
    (want : Bytes) (segs : List Bytes) (trailing : Bool) (path : Bytes)
    → match_segments (want ∷ segs) trailing path ≡ true
    → let (got, rest) = next_segment path in
      (is_empty got ≡ false)
      × ((want ≡ star) ⊎ (want ≡ got))
      × (match_segments segs trailing rest ≡ true)
unfolding match_segments
round_found want segs trailing path h =
    ground (arith, =?_iff want star, =?_iff want (next_segment path).0)

nonempty : (s : Bytes) → is_empty s ≡ false → s ≢ []
nonempty s h = ground arith

match_segments→Covers :
    (segs : List Bytes) (trailing : Bool) (path : Bytes)
    → match_segments segs trailing path ≡ true
    → Covers segs trailing path
unfolding match_segments
match_segments→Covers [] true path h = inl refl
match_segments→Covers [] false path h = inr (at_end→ path h)
match_segments→Covers (want ∷ segs) trailing path h =
    let found = round_found want segs trailing path h in
    let cut = next_segment-IsCut path in
    (
      lead path,
      (next_segment path).0,
      (next_segment path).1,
      next_segment_whole path,
      record { nonempty = nonempty _ found.0; no_slash = cut.no_slash },
      cut.boundary,
      found.1,
      match_segments→Covers segs trailing (next_segment path).1 found.2,
    )

-- A round on a path that begins with a segment goes on to what follows it.
match_segments-slashes :
    (want : Bytes) (segs : List Bytes) (trailing : Bool) (k : ℕ) (got rest : Bytes)
    → IsSegment got
    → IsBoundary rest
    → (want ≡ star) ⊎ (want ≡ got)
    → match_segments (want ∷ segs) trailing (slashes k (got ++ rest))
      ≡ match_segments segs trailing rest
unfolding match_segments
match_segments-slashes want segs trailing k got rest s b w =
    rw (next_segment-slashes k got rest s b)
      (ground (arith, s.nonempty, =?_iff want star, =?_iff want got))

Covers→match_segments :
    (segs : List Bytes) (trailing : Bool) (path : Bytes)
    → Covers segs trailing path
    → match_segments segs trailing path ≡ true
unfolding match_segments
Covers→match_segments [] true path h = refl
Covers→match_segments [] false path h = ground (arith, →at_end path)
Covers→match_segments (want ∷ segs) trailing path (k, got, rest, e, s, b, w, h) = rw e (
    match_segments-slashes want segs trailing k got rest s b w
    ∙ Covers→match_segments segs trailing rest h)

-- The loop answers true exactly on the paths that the segments cover.
pub match_segments_iff :
    (segs : List Bytes) (trailing : Bool) (path : Bytes)
    → (match_segments segs trailing path ≡ true) ↔ Covers segs trailing path
match_segments_iff segs trailing path =
    (match_segments→Covers segs trailing path, Covers→match_segments segs trailing path)
