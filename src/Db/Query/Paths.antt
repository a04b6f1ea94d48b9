-- ===== src/Db/Query/Paths.antt =====
-- What a field's name can put into the text of a statement: `jsonPath` of core/db/query.go.
use moduless.Base.{
  sym, ◌∙◌, ℕ, true, List, [], ◌∷◌, ◌++◌, Bytes, bytes, All, All-append, split_from, ◌≡◌, ◌⊎◌, inl,
  inr, refl, arith, ◌==◌, split, Bool-cases,
}
use moduless.Db.Sql.{
  returns, join, is_word, is_letter, all_words, is_identifier, validate_identifier,
}
use moduless.Db.Sql.Tables.{validate_identifier-returns, bind-returns}
use moduless.Db.Query.{validate_all, path_text, json_path}

-- What stands between the quotes: word bytes, and commas between the segments.
abbrev pub IsPlain : Bytes → Type 0
IsPlain body = All (λ c. (is_word c ≡ true) ⊎ (c ≡ b',')) body

all_words-IsPlain : (s : Bytes) → all_words s ≡ true → IsPlain s
unfolding all_words
all_words-IsPlain [] h = tt
all_words-IsPlain (c ∷ s) h = elim (Bool-cases (is_word c)) [
  | inl e ↦ (inl e, all_words-IsPlain s (ground (arith, h, e)))
  | inr e ↦ absurd (ground (arith, h, e))
]

is_identifier-IsPlain : (s : Bytes) → is_identifier s ≡ true → IsPlain s
unfolding is_identifier
is_identifier-IsPlain [] h = tt
is_identifier-IsPlain (c ∷ s) h = elim (Bool-cases (is_letter c)) [
  | inl e ↦ (inl (ground (arith, e)), all_words-IsPlain s (ground (arith, h, e)))
  | inr e ↦ absurd (ground (arith, h, e))
]

validate_all-returns :
    (ps qs : List Bytes)
    → validate_all ps ≡ returns qs
    → (qs ≡ ps) × All (λ p. is_identifier p ≡ true) ps
unfolding validate_all
validate_all-returns [] qs h = (cc (h), tt)
validate_all-returns (p ∷ ps) qs h =
    let (q, hq, h') = bind-returns (validate_identifier p) _ qs h in
    let (rs, hr, h'') = bind-returns (validate_all ps) _ qs h' in
    let (eq, ip) = validate_identifier-returns p q hq in
    let (er, is) = validate_all-returns ps rs hr in (cc (h'', eq, er), (ip, is))

join-IsPlain :
    (ps : List Bytes) → All (λ p. is_identifier p ≡ true) ps → IsPlain (join (bytes ",") ps)
unfolding join
join-IsPlain [] h = tt
join-IsPlain (p ∷ []) h = is_identifier-IsPlain p h.0
join-IsPlain (p ∷ q ∷ ps) h =
    All-append _ p _ (is_identifier-IsPlain p h.0) (inr refl, join-IsPlain (q ∷ ps) h.1)

path_text-IsPlain :
    (p : Bytes) (ps : List Bytes)
    → All (λ p. is_identifier p ≡ true) (p ∷ ps)
    → (body : Bytes) × IsPlain body
      × ((path_text (p ∷ ps) ≡ bytes "(data->>'" ++ (body ++ bytes "')"))
          ⊎ (path_text (p ∷ ps) ≡ bytes "(data#>>'{" ++ (body ++ bytes "}')")))
unfolding path_text
path_text-IsPlain p [] h = (p, is_identifier-IsPlain p h.0, inl refl)
path_text-IsPlain p (q ∷ ps) h =
    (join (bytes ",") (p ∷ q ∷ ps), join-IsPlain (p ∷ q ∷ ps) h, inr refl)

split_from-cons :
    (piece s : Bytes) (sep : ℕ)
    → (p : Bytes) × (ps : List Bytes) × (split_from piece s sep ≡ p ∷ ps)
unfolding split_from
split_from-cons piece [] sep = (piece, [], refl)
split_from-cons piece (c ∷ s) sep = elim (Bool-cases (c == sep)) [
  | inl e ↦ rw e (piece, split_from [] s sep, refl)
  | inr e ↦ rw e (split_from-cons (piece ++ c ∷ []) s sep)
]

-- Whatever a plugin sends as a field's name, an accepted one puts nothing but letters, digits,
-- underscores and commas between the quotes of the expression, and nothing outside of them.
pub json_path-IsPlain :
    (field t : Bytes)
    → json_path field ≡ returns t
    → (body : Bytes) × IsPlain body
      × ((t ≡ bytes "(data->>'" ++ (body ++ bytes "')"))
          ⊎ (t ≡ bytes "(data#>>'{" ++ (body ++ bytes "}')")))
unfolding json_path split
json_path-IsPlain [] t h = absurd (cc (h))
json_path-IsPlain (c ∷ s) t h =
    let (parts, hp, h') = bind-returns (validate_all (split (c ∷ s) b'.')) _ t h in
    let (e, ids) = validate_all-returns (split (c ∷ s) b'.') parts hp in
    let (p, ps, es) = split_from-cons [] (c ∷ s) b'.' in
    let (body, plain, shape) = path_text-IsPlain p ps (rw es at ids) in
    let g : path_text (p ∷ ps) ≡ t = cc (h', e, es) in
    (body, plain, elim shape [ inl x ↦ inl (sym g ∙ x) | inr x ↦ inr (sym g ∙ x) ])
