-- ===== src/Db/Sql.antt =====
-- Identifiers and table names of core/db/cmds.go, and the values that a statement binds. A
-- message of an error is a constructor with what the message names.
pub mod Tables
mod Tests
use moduless.Base.{
  ℕ, ◌+◌, ◌-◌, ◌/◌, ◌%◌, Bool, true, false, ◌&&◌, ◌||◌, List, [], ◌∷◌, ◌++◌, if◌then◌else◌, leb,
  ◌==◌, Bytes, bytes, Option, none, some,
}

pub data DbError : Type 0 where
  bad_identifier : Bytes → DbError
  field_required : DbError
  wrong_value_count : Bytes → DbError
  unsupported_operator : Bytes → DbError
  mixed_directions : DbError
  malformed_cursor : DbError
  cursor_mismatch : DbError
  unsupported_function : Bytes → DbError
  failed_statement : Bytes → DbError
  version_conflict : DbError

-- A result and an `error`.
pub data Outcome {ℓ} (A : Type ℓ) : Type ℓ where
  fails : DbError → Outcome A
  returns : A → Outcome A

infixl 5 ◌>>=◌
abbrev pub ◌>>=◌ {ℓ κ} : {A : Type ℓ} {B : Type κ} → Outcome A → (A → Outcome B) → Outcome B
fails e >>= f = fails e
returns a >>= f = f a

-- What a statement binds: a text or a number.
pub data Arg : Type 0 where
  text : Bytes → Arg
  number : ℕ → Arg

-- `strings.Join`.
unfoldable pub join : Bytes → List Bytes → Bytes
join sep [] = []
join sep (s ∷ []) = s
join sep (s ∷ t ∷ ss) = s ++ (sep ++ join sep (t ∷ ss))

digits_onto : ℕ → ℕ → Bytes → Bytes
digits_onto ℕ.zero n out = out
digits_onto (ℕ.suc fuel) n out = elim (n == 0) [
  | true ↦ out
  | false ↦ digits_onto fuel (n / 10) ((b'0' + n % 10) ∷ out)
]

-- `%d` of a number that is not negative: it has no more digits than its value counts.
unfoldable pub decimal : ℕ → Bytes
unfolding digits_onto
decimal n = if n == 0 then b'0' ∷ [] else digits_onto n n []

-- `$%d`.
unfoldable pub placeholder : ℕ → Bytes
unfolding decimal
placeholder n = b'$' ∷ decimal n

abbrev pub is_letter : ℕ → Bool
is_letter c = leb b'a' c && leb c b'z' || leb b'A' c && leb c b'Z'

abbrev pub is_word : ℕ → Bool
is_word c = is_letter c || leb b'0' c && leb c b'9' || c == b'_'

unfoldable pub all_words : Bytes → Bool
all_words [] = true
all_words (c ∷ s) = is_word c && all_words s

-- `identifierRE.MatchString`.
unfoldable pub is_identifier : Bytes → Bool
unfolding all_words
is_identifier [] = false
is_identifier (c ∷ s) = is_letter c && all_words s

unfoldable pub validate_identifier : Bytes → Outcome Bytes
unfolding is_identifier
validate_identifier name = if is_identifier name then returns name else fails (bad_identifier name)

unfoldable pub table_name : Bytes → Bytes → Outcome Bytes
unfolding validate_identifier
table_name ext_key collection = do
  k ← validate_identifier ext_key
  c ← validate_identifier collection
  returns (bytes "ext_" ++ (k ++ (b'_' ∷ c)))

unfoldable pub index_name : Bytes → Bytes → List Bytes → Bytes
unfolding join
index_name ext_key collection fields =
    bytes "idx_" ++ (ext_key ++ (b'_' ∷ (collection ++ (b'_' ∷ join (bytes "_") fields))))

-- The text of a field with one segment.
abbrev pub plain_path : Bytes → Bytes
plain_path field = bytes "(data->>'" ++ (field ++ bytes "')")

unfoldable pub json_path_expr : Bytes → Outcome Bytes
unfolding validate_identifier
json_path_expr field = do f ← validate_identifier field; returns (plain_path f)
