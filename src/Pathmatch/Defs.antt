-- ===== src/Pathmatch/Defs.antt =====
-- pathmatch/pathmatch.go, function by function. A string is its list of bytes, a slice `path[i:]`
-- the rest of the list.
use moduless.Base.{
  ℕ, Bool, true, false, ◌||◌, ◌&&◌, List, [], ◌∷◌, ◌++◌, if◌then◌else◌, ◌==◌, negate, length, drop,
  any, Bytes, ◌=?◌, is_empty, has_prefix, has_suffix, trim_suffix, contains, trim, split, mem_bytes,
}

pub data Kind : Type 0 where
  all exact prefix segments : Kind

pub record Pattern : Type 0 where
  pub raw : Bytes
  pub kind : Kind
  pub literal : Bytes
  pub segs : List Bytes
  pub trailing_all : Bool

pub data Error : Type 0 where
  empty_pattern no_leading_slash inner_double_star partial_wildcard : Error

pub data Result {ℓ} (A : Type ℓ) : Type ℓ where
  ok : A → Result A
  err : Error → Result A

abbrev pub slash : ℕ
slash = b'/'

abbrev pub star : Bytes
star = b'*' ∷ []

abbrev pub double_star : Bytes
double_star = b'*' ∷ b'*' ∷ []

abbrev pub all_suffix : Bytes
all_suffix = b'/' ∷ b'*' ∷ b'*' ∷ []

-- `splitSegments`; Go's nil slice is the empty list.
unfoldable pub split_segments : Bytes → List Bytes
unfolding trim split
split_segments path =
    let trimmed = trim path slash in if is_empty trimmed then [] else split trimmed slash

-- The test in `Compile`'s loop over the segments.
unfoldable pub is_partial : Bytes → Bool
unfolding ◌=?◌ contains
is_partial s = negate (s =? star) && contains s star

-- The literal `Pattern{...}` with the fields that it leaves out at their zero values.
abbrev pub all_pattern : Bytes → Pattern
all_pattern raw = record {
  raw = raw;
  kind = Kind.all;
  literal = [];
  segs = [];
  trailing_all = false;
}

abbrev pub literal_pattern : Bytes → Kind → Bytes → Pattern
literal_pattern raw kind body = record {
  raw = raw;
  kind = kind;
  literal = body;
  segs = [];
  trailing_all = false;
}

abbrev pub segments_pattern : Bytes → List Bytes → Bool → Pattern
segments_pattern raw segs trailing = record {
  raw = raw;
  kind = Kind.segments;
  literal = [];
  segs = segs;
  trailing_all = trailing;
}

-- The part of `Compile` after the trailing "/**" is cut off.
unfoldable pub compile_body : Bytes → Bytes → Bool → Result Pattern
unfolding contains split_segments is_partial mem_bytes
compile_body pattern body trailing =
    if contains body double_star
    then err inner_double_star
    else let segs = split_segments body in
      if any is_partial segs
      then err partial_wildcard
      else if mem_bytes segs star
      then ok (segments_pattern pattern segs trailing)
      else if trailing
      then ok (literal_pattern pattern Kind.prefix body)
      else ok (literal_pattern pattern Kind.exact body)

-- `Compile`.
unfoldable pub compile : Bytes → Result Pattern
unfolding ◌=?◌ has_prefix has_suffix trim_suffix compile_body
compile pattern =
    if is_empty pattern
    then err empty_pattern
    else if pattern =? double_star || pattern =? all_suffix
    then ok (all_pattern pattern)
    else if negate (has_prefix pattern (slash ∷ []))
    then err no_leading_slash
    else if has_suffix pattern all_suffix
    then compile_body pattern (trim_suffix pattern all_suffix) true
    else compile_body pattern pattern false

-- `for len(path) > 0 && path[0] == '/' { path = path[1:] }`.
unfoldable pub skip_slashes : Bytes → Bytes
skip_slashes [] = []
skip_slashes (c ∷ path) = if c == slash then skip_slashes path else c ∷ path

-- `path[:i], path[i:]` at the first slash, or `path, ""`.
unfoldable pub cut_at_slash : Bytes → Bytes × Bytes
cut_at_slash [] = ([], [])
cut_at_slash (c ∷ path) =
    let (seg, rest) = cut_at_slash path in if c == slash then ([], c ∷ path) else (c ∷ seg, rest)

-- `nextSegment`.
unfoldable pub next_segment : Bytes → Bytes × Bytes
unfolding skip_slashes cut_at_slash
next_segment path = cut_at_slash (skip_slashes path)

-- `rest == "" || rest == "/"`.
unfoldable pub at_end : Bytes → Bool
unfolding ◌=?◌
at_end rest = is_empty rest || rest =? (slash ∷ [])

-- `matchSegments`, a round for each wanted segment.
unfoldable pub match_segments : List Bytes → Bool → Bytes → Bool
unfolding next_segment ◌=?◌ at_end
match_segments [] trailing rest = if trailing then true else at_end rest
match_segments (want ∷ segs) trailing path =
    let (got, rest) = next_segment path in
    if is_empty got
    then false
    else if negate (want =? star) && negate (want =? got)
    then false
    else match_segments segs trailing rest

-- `rest[0] == '/'`; the case of an empty `rest` is decided before it is read.
abbrev pub starts_with_slash : Bytes → Bool
starts_with_slash [] = false
starts_with_slash (c ∷ rest) = c == slash

-- The case of `Match` for a prefix pattern.
unfoldable pub match_prefix : Bytes → Bytes → Bool
unfolding has_prefix ◌=?◌
match_prefix literal path =
    if negate (has_prefix path literal)
    then false
    else let rest = drop (length literal) path in at_end rest || starts_with_slash rest

match_kind : Kind → Pattern → Bytes → Bool
unfolding ◌=?◌ match_prefix match_segments
match_kind Kind.all p path = true
match_kind Kind.exact p path = path =? p.literal
match_kind Kind.prefix p path = match_prefix p.literal path
match_kind Kind.segments p path = match_segments p.segs p.trailing_all path

-- `Pattern.Match`.
unfoldable pub match : Pattern → Bytes → Bool
unfolding match_kind
match p path = match_kind p.kind p path

pub record Set : Type 0 where
  pub patterns : List Pattern
  pub match_all : Bool

abbrev pub is_all : Kind → Bool
is_all Kind.all = true
is_all _ = false

-- The loop of `CompileSet`, with the set built so far.
unfoldable pub compile_set_from : Set → List Bytes → Result Set
unfolding compile
compile_set_from s [] = ok s
compile_set_from s (raw ∷ raws) = elim (compile raw) [
  | err e ↦ err e
  | ok p ↦
      compile_set_from
        (record { patterns = s.patterns ++ p ∷ []; match_all = s.match_all || is_all p.kind }) raws
]

-- `CompileSet`.
unfoldable pub compile_set : List Bytes → Result Set
unfolding compile_set_from
compile_set raws = compile_set_from (record { patterns = []; match_all = false }) raws

-- `Set.Match`.
unfoldable pub match_set : Set → Bytes → Bool
unfolding match
match_set s path = if s.match_all then true else any (λ p. match p path) s.patterns
