-- ===== src/Pathmatch/Tests.antt =====
-- Runs of the matcher.
use moduless.Base.{◌≡◌, ◌↔◌, refl, true, false, bytes, ◌∷◌, [], Bool, Bytes}
use moduless.Pathmatch.Defs.{
  Kind, Pattern, star, literal_pattern, segments_pattern, Result, ok, err, inner_double_star,
  partial_wildcard, compile, match,
}
use moduless.Pathmatch.Spec.{Covers}
use moduless.Pathmatch.Laws.{match-exact, match-segments}

matches_text : Bytes → Bytes → Result Bool
matches_text pattern path = elim (compile pattern) [ ok p ↦ ok (match p path) | err e ↦ err e ]

one_segment : matches_text (bytes "/api/*/items") (bytes "/api/7/items/") ≡ ok true
unfolding matches_text compile match
one_segment = refl

below_prefix : matches_text (bytes "/api/**") (bytes "/apifoo") ≡ ok false
unfolding matches_text compile match
below_prefix = refl

star_in_middle : matches_text (bytes "/a/**/b") (bytes "/a") ≡ err inner_double_star
unfolding matches_text compile match
star_in_middle = refl

half_star : matches_text (bytes "/a/b*") (bytes "/a") ≡ err partial_wildcard
unfolding matches_text compile match
half_star = refl

abbrev api : Pattern
api = literal_pattern (bytes "/api/**") Kind.prefix (bytes "/api")

abbrev items : Pattern
items = segments_pattern (bytes "/a/*") (bytes "a" ∷ star ∷ []) false

match-exact_example :
    (match (literal_pattern (bytes "/a") Kind.exact (bytes "/a")) (bytes "/a/") ≡ true)
    ↔ (bytes "/a/" ≡ bytes "/a")
match-exact_example =
    match-exact (literal_pattern (bytes "/a") Kind.exact (bytes "/a")) (bytes "/a/") refl

match-segments_example :
    (match items (bytes "/a/7/") ≡ true) ↔ Covers (bytes "a" ∷ star ∷ []) false (bytes "/a/7/")
match-segments_example = match-segments items (bytes "/a/7/") refl
