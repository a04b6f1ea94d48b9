-- ===== src/Pathmatch/Laws.antt =====
-- The theorems about `Pattern.Match` of pathmatch/pathmatch.go, one for each kind of pattern.
use moduless.Base.{
  ◌≡◌, refl, ◌↔◌, ◌⊎◌, inl, inr, true, Bytes, ◌∷◌, ◌++◌, [], arith, =?_iff, ◌||◌, has_prefix-split,
  has_prefix-append, drop-append, drop, length, append-nil, sym, ◌∙◌, ap, has_prefix,
}
use moduless.Pathmatch.Defs.{slash, Pattern, Kind, match_prefix, match, at_end, starts_with_slash}
use moduless.Pathmatch.Spec.{Covers}
use moduless.Pathmatch.Segments.{match_segments_iff}

-- What may stand behind a matched prefix.
abbrev IsBelow : Bytes → Type 0
IsBelow rest = (rest ≡ []) ⊎ ((r : Bytes) × (rest ≡ slash ∷ r))

IsBelow-found : (rest : Bytes) → (at_end rest || starts_with_slash rest) ≡ true → IsBelow rest
unfolding at_end
IsBelow-found [] h = inl refl
IsBelow-found (c ∷ rest) h = inr (rest, ground (arith, =?_iff (c ∷ rest) (slash ∷ [])))

prefix_found :
    (literal path : Bytes)
    → match_prefix literal path ≡ true
    → (has_prefix path literal ≡ true)
      × ((at_end (drop (length literal) path) || starts_with_slash (drop (length literal) path))
          ≡ true)
unfolding match_prefix
prefix_found literal path h = ground arith

match_prefix→ :
    (literal path : Bytes)
    → match_prefix literal path ≡ true
    → (path ≡ literal) ⊎ ((r : Bytes) × (path ≡ literal ++ slash ∷ r))
match_prefix→ literal path h =
    let found = prefix_found literal path h in
    let whole = has_prefix-split path literal found.0 in
    elim (IsBelow-found (drop (length literal) path) found.1) [
      | inl e ↦ inl (sym whole ∙ ap (λ t. literal ++ t) e ∙ append-nil literal)
      | inr (r, e) ↦ inr (r, sym whole ∙ ap (λ t. literal ++ t) e)
    ]

match_prefix-below :
    (literal rest : Bytes)
    → (at_end rest || starts_with_slash rest) ≡ true
    → match_prefix literal (literal ++ rest) ≡ true
unfolding match_prefix
match_prefix-below literal rest h =
    rw (has_prefix-append literal rest) (rw (drop-append literal rest) (ground arith))

→match_prefix :
    (literal path : Bytes)
    → (path ≡ literal) ⊎ ((r : Bytes) × (path ≡ literal ++ slash ∷ r))
    → match_prefix literal path ≡ true
unfolding at_end
→match_prefix literal path (inl e) =
    rw (e ∙ sym (append-nil literal)) (match_prefix-below literal [] refl)
→match_prefix literal path (inr (r, e)) =
    rw e (match_prefix-below literal (slash ∷ r) (ground arith))

-- A pattern of kind "prefix" matches its literal and the paths that go on behind it with a slash,
-- and no other path.
pub match-prefix :
    (p : Pattern) (path : Bytes)
    → p.kind ≡ Kind.prefix
    → (match p path ≡ true) ↔ ((path ≡ p.literal) ⊎ ((r : Bytes) × (path ≡ p.literal ++ slash ∷ r)))
unfolding match
match-prefix p path k = rw k (match_prefix→ p.literal path, →match_prefix p.literal path)

-- A pattern of kind "exact" matches its literal and no other path.
pub match-exact :
    (p : Pattern) (path : Bytes) → p.kind ≡ Kind.exact → (match p path ≡ true) ↔ (path ≡ p.literal)
unfolding match
match-exact p path k = rw k (=?_iff path p.literal)

-- A pattern of kind "segments" matches exactly the paths that consist of a segment for each wanted
-- one, equal to it or under a star, and then of anything if the pattern ends in "/**", of at most
-- one slash if not.
pub match-segments :
    (p : Pattern) (path : Bytes)
    → p.kind ≡ Kind.segments
    → (match p path ≡ true) ↔ Covers p.segs p.trailing_all path
unfolding match
match-segments p path k = rw k (match_segments_iff p.segs p.trailing_all path)
