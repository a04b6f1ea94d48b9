-- ===== src/Pipeline/Headers.antt =====
-- core/pipeline/headers.go. A header map has its keys in the order in which Go ranges over it.
use moduless.Base.{
  ℕ, ◌+◌, ◌-◌, ◌≡◌, refl, Bool, true, ◌&&◌, ◌||◌, negate, List, [], ◌∷◌, if◌then◌else◌, leb, ◌==◌,
  any, Bytes, bytes, Dict, insert, erase,
}

abbrev pub Headers : Type 0
Headers = Dict (List Bytes)

abbrev is_upper : ℕ → Bool
is_upper c = leb b'A' c && leb c b'Z'

abbrev is_lower : ℕ → Bool
is_lower c = leb b'a' c && leb c b'z'

abbrev is_digit : ℕ → Bool
is_digit c = leb b'0' c && leb c b'9'

-- The punctuation that may stand in a header name.
abbrev name_marks : Bytes
name_marks = bytes "!#$%&'*+-.^_`|~"

abbrev is_name_byte : ℕ → Bool
is_name_byte c = is_upper c || is_lower c || is_digit c || any (λ m. m == c) name_marks

valid_name : Bytes → Bool
valid_name [] = true
valid_name (c ∷ s) = is_name_byte c && valid_name s

-- Upper case at the start and behind a dash, lower case elsewhere.
recase : Bool → Bytes → Bytes
recase start [] = []
recase start (c ∷ s) =
    (if start && is_lower c then c - 32 else if negate start && is_upper c then c + 32 else c)
    ∷ recase (c == b'-') s

-- `http.CanonicalHeaderKey`.
unfoldable pub canonical_header_key : Bytes → Bytes
unfolding valid_name recase
canonical_header_key s = if valid_name s then recase true s else s

-- `for _, k := range remove { h.Del(k) }`.
unfoldable pub remove_headers : List Bytes → Headers → Headers
unfolding canonical_header_key erase
remove_headers [] h = h
remove_headers (k ∷ ks) h = remove_headers ks (erase (canonical_header_key k) h)

-- The loop over `set`.
unfoldable pub set_headers : Headers → Headers → Headers
unfolding canonical_header_key insert
set_headers [] h = h
set_headers ((k, values) ∷ set) h = set_headers set (insert (canonical_header_key k) values h)

-- `applyHeaderMutation`.
unfoldable pub apply_header_mutation : Headers → Headers → List Bytes → Headers
unfolding remove_headers set_headers
apply_header_mutation h set remove = set_headers set (remove_headers remove h)

-- The loop of `FromProtoHeaders`.
unfoldable pub from_proto_headers : Headers → Headers
unfolding set_headers
from_proto_headers headers = set_headers headers []

-- `ToProtoHeaders`; a nil map is the empty one.
unfoldable pub to_proto_headers : Headers → Headers
to_proto_headers h = h

json_type : canonical_header_key (bytes "content-TYPE") ≡ bytes "Content-Type"
unfolding canonical_header_key
json_type = refl
