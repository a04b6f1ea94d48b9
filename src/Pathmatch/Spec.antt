-- ===== src/Pathmatch/Spec.antt =====
-- What the patterns of pathmatch/pathmatch.go mean, with no scanning order: a path is taken apart
-- into runs of slashes and segments.
use moduless.Base.{ℕ, zero, suc, ◌≡◌, ◌≢◌, ◌⊎◌, Bool, true, List, [], ◌∷◌, ◌++◌, All, Bytes}
use moduless.Pathmatch.Defs.{slash, star, starts_with_slash}

-- `k` slashes in front of a path.
abbrev pub slashes : ℕ → Bytes → Bytes
slashes zero s = s
slashes (suc k) s = slash ∷ slashes k s

-- A segment is not empty and holds no slash.
pub record IsSegment (s : Bytes) : Type 0 where
  pub nonempty : s ≢ []
  pub no_slash : All (λ c. c ≢ slash) s

-- A segment ends where the path ends or a slash stands.
abbrev pub IsBoundary : Bytes → Type 0
IsBoundary rest = (rest ≡ []) ⊎ (starts_with_slash rest ≡ true)

-- The path has a segment for each wanted one, equal to it or under a star; then anything, if the
-- pattern ends in "/**", and at most one slash if not.
abbrev pub Covers : List Bytes → Bool → Bytes → Type 0
Covers [] trailing path = (trailing ≡ true) ⊎ (path ≡ []) ⊎ (path ≡ slash ∷ [])
Covers (want ∷ segs) trailing path =
    (k : ℕ) × (got : Bytes) × (rest : Bytes) × (path ≡ slashes k (got ++ rest))
    × IsSegment got
    × IsBoundary rest
    × ((want ≡ star) ⊎ (want ≡ got))
    × Covers segs trailing rest
