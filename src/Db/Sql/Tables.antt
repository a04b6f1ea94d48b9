-- ===== src/Db/Sql/Tables.antt =====
-- When two collections have one table: `tableName` of core/db/cmds.go.
use moduless.Base.{
  true, ◌&&◌, [], ◌∷◌, ◌++◌, Bytes, bytes, All, ◌≡◌, ◌≢◌, ◌⊎◌, inl, inr, refl, arith, Bool-cases,
  append_assoc, ap, ◌∙◌, length, leb, false, ◌≤◌,
}
use moduless.Db.Sql.{
  DbError, Outcome, fails, returns, ◌>>=◌, all_words, is_identifier, validate_identifier,
  table_name,
}

-- A key with no underscore.
abbrev pub HasNoUnderscore : Bytes → Type 0
HasNoUnderscore key = All (λ c. c ≢ b'_') key

cut_unique :
    (k l c d : Bytes)
    → HasNoUnderscore k
    → HasNoUnderscore l
    → k ++ (b'_' ∷ c) ≡ l ++ (b'_' ∷ d)
    → (k ≡ l) × (c ≡ d)
cut_unique [] [] c d hk hl h = (refl, cc (h))
cut_unique [] (y ∷ l) c d hk hl h = absurd (hl.0 (cc (h)))
cut_unique (x ∷ k) [] c d hk hl h = absurd (hk.0 (cc (h)))
cut_unique (x ∷ k) (y ∷ l) c d hk hl h =
    let (ek, ec) = cut_unique k l c d hk.1 hl.1 (cc (h)) in
    let ex : x ≡ y = cc (h) in (cc (ex, ek), ec)

pub validate_identifier-returns :
    (p q : Bytes) → validate_identifier p ≡ returns q → (q ≡ p) × (is_identifier p ≡ true)
unfolding validate_identifier
validate_identifier-returns p q h = elim (Bool-cases (is_identifier p)) [
  | inl e ↦ (cc (rw e at h), e)
  | inr e ↦ absurd (cc (rw e at h))
]

pub validate_identifier-ok :
    (p : Bytes) → is_identifier p ≡ true → validate_identifier p ≡ returns p
unfolding validate_identifier
validate_identifier-ok p h = rw h refl

pub Outcome-cases {ℓ} :
    {A : Type ℓ} (o : Outcome A) → ((e : DbError) × (o ≡ fails e)) ⊎ ((a : A) × (o ≡ returns a))
Outcome-cases (fails e) = inl (e, refl)
Outcome-cases (returns a) = inr (a, refl)

-- A bind that returns has a first step that returns.
pub bind-returns {ℓ κ} :
    {A : Type ℓ} {B : Type κ} (o : Outcome A) (f : A → Outcome B) (b : B)
    → o >>= f ≡ returns b
    → (a : A) × (o ≡ returns a) × (f a ≡ returns b)
bind-returns (fails e) f b h = absurd (cc (h))
bind-returns (returns a) f b h = (a, refl, h)

table_name-returns :
    (k c t : Bytes)
    → table_name k c ≡ returns t
    → (t ≡ bytes "ext_" ++ (k ++ (b'_' ∷ c))) × (is_identifier k ≡ true) × (is_identifier c ≡ true)
unfolding table_name
table_name-returns k c t h =
    let (k', hk, h') = bind-returns (validate_identifier k) _ t h in
    let (c', hc, h'') = bind-returns (validate_identifier c) _ t h' in
    let (ek, ik) = validate_identifier-returns k k' hk in
    let (ec, ic) = validate_identifier-returns c c' hc in (cc (h'', ek, ec), ik, ic)

-- A name that PostgreSQL takes as it is written without quotes: no upper-case letter, and at most
-- 63 bytes.
abbrev pub IsKept : Bytes → Type 0
IsKept name = All (λ c. (leb b'A' c && leb c b'Z') ≡ false) name × (length name ≤ 63)

-- Collections of plugins whose keys have no underscore have one table only if they are one
-- collection of one plugin, where the names of the tables have no upper-case letter and at most 63
-- bytes. `resolve` is the name that PostgreSQL reads for one without quotes, and all that is used of
-- it is that it leaves such names as they are.
pub table_name-injective :
    (resolve : Bytes → Bytes)
    → ((name : Bytes) → IsKept name → resolve name ≡ name)
    → (k l c d t u : Bytes) → HasNoUnderscore k
    → HasNoUnderscore l
    → table_name k c ≡ returns t
    → table_name l d ≡ returns u
    → IsKept t
    → IsKept u
    → resolve t ≡ resolve u
    → (k ≡ l) × (c ≡ d)
table_name-injective resolve keeps k l c d t u hk hl h j ht hu same =
    let (e, _, _) = table_name-returns k c t h in
    let (f, _, _) = table_name-returns l d u j in
    cut_unique k l c d hk hl (cc (e, f, keeps t ht, keeps u hu, same))

all_words-append : (s t : Bytes) → all_words (s ++ t) ≡ (all_words s && all_words t)
unfolding all_words
all_words-append [] t = refl
all_words-append (c ∷ s) t = ground (arith, all_words-append s t)

all_words-identifier : (s : Bytes) → is_identifier s ≡ true → all_words s ≡ true
unfolding is_identifier all_words
all_words-identifier [] h = refl
all_words-identifier (c ∷ s) h = ground (arith, h)

is_identifier-append :
    (s t : Bytes)
    → is_identifier s ≡ true
    → is_identifier t ≡ true
    → is_identifier (s ++ (b'_' ∷ t)) ≡ true
unfolding is_identifier all_words
is_identifier-append [] t hs ht = absurd (cc (hs))
is_identifier-append (c ∷ s) t hs ht =
    ground (arith, hs, all_words-append s (b'_' ∷ t), all_words-identifier t ht)

table_name-ok :
    (k c : Bytes)
    → is_identifier k ≡ true
    → is_identifier c ≡ true
    → table_name k c ≡ returns (bytes "ext_" ++ (k ++ (b'_' ∷ c)))
unfolding table_name
table_name-ok k c hk hc = rw (validate_identifier-ok k hk, validate_identifier-ok c hc) refl

-- Two plugins share a table where one's key is the other's followed by an underscore and more:
-- the collection `b_c` of the plugin `a` and the collection `c` of the plugin `a_b` are one table.
pub table_name-shared :
    (a b c : Bytes)
    → is_identifier a ≡ true
    → is_identifier b ≡ true
    → is_identifier c ≡ true
    → (t : Bytes) × (table_name a (b ++ (b'_' ∷ c)) ≡ returns t)
      × (table_name (a ++ (b'_' ∷ b)) c ≡ returns t)
table_name-shared a b c ha hb hc = (
  bytes "ext_" ++ (a ++ (b'_' ∷ (b ++ (b'_' ∷ c)))),
  table_name-ok a _ ha (is_identifier-append b c hb hc),
  table_name-ok _ c (is_identifier-append a b ha hb) hc
      ∙ ap (λ x. returns (bytes "ext_" ++ x)) (append_assoc a (b'_' ∷ b) (b'_' ∷ c)),
)
