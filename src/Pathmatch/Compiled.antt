-- ===== src/Pathmatch/Compiled.antt =====
-- `Compile`, `CompileSet` and `Set.Match` of pathmatch/pathmatch.go.
use moduless.Base.{
  ◌≡◌, refl, ◌⊎◌, inl, inr, Bool, true, false, Bytes, ◌∷◌, ◌++◌, [], arith, ◌||◌, ◌&&◌, List, sym,
  ◌∙◌, any,
}
use moduless.Pathmatch.Defs.{
  Pattern, Result, ok, err, Error, match, compile, Set, is_all, compile_set, compile_set_from,
  match_set,
}

-- The pattern compiles, and matches the path.
abbrev pub covers_path : Bytes → Bytes → Bool
covers_path path raw = elim (compile raw) [ ok p ↦ match p path | err e ↦ false ]

pub Result-cases {ℓ} :
    {A : Type ℓ} (r : Result A) → ((e : Error) × (r ≡ err e)) ⊎ ((a : A) × (r ≡ ok a))
Result-cases (err e) = inl (e, refl)
Result-cases (ok a) = inr (a, refl)

abbrev pub compiles : Bytes → Bool
compiles raw = elim (compile raw) [ ok p ↦ true | err e ↦ false ]

abbrev pub is_ok : Result Set → Bool
is_ok (ok s) = true
is_ok (err e) = false

abbrev pub all_compile : List Bytes → Bool
all_compile [] = true
all_compile (raw ∷ raws) = compiles raw && all_compile raws

-- The shortcut is set only where a member matches every path.
abbrev IsSound : Set → Type 0
IsSound s = (path : Bytes) → s.match_all ≡ true → any (λ p. match p path) s.patterns ≡ true

any-append : (p : Pattern → Bool) (xs ys : List Pattern) → any p (xs ++ ys) ≡ (any p xs || any p ys)
any-append p [] ys = refl
any-append p (x ∷ xs) ys = ground (arith, any-append p xs ys)

any-concat :
    (p : Pattern → Bool) (xs : List Pattern) (x : Pattern)
    → any p (xs ++ x ∷ []) ≡ (any p xs || p x)
any-concat p xs x = ground (arith, any-append p xs (x ∷ []))

match-all : (p : Pattern) (path : Bytes) → is_all p.kind ≡ true → match p path ≡ true
unfolding match
match-all p path h = ground arith

abbrev add : Set → Pattern → Set
add s p = record { patterns = s.patterns ++ p ∷ []; match_all = s.match_all || is_all p.kind }

add-IsSound : (s : Set) (p : Pattern) → IsSound s → IsSound (add s p)
add-IsSound s p h =
    λ path e. ground (arith, any-concat (λ q. match q path) s.patterns p, match-all p path, h path)

compile_set_from-ok :
    (s : Set) (p : Pattern) (raw : Bytes) (raws : List Bytes)
    → compile raw ≡ ok p
    → compile_set_from s (raw ∷ raws) ≡ compile_set_from (add s p) raws
unfolding compile_set_from
compile_set_from-ok s p raw raws q = rw (q, compile_set_from)

compile_set_from-err :
    (s : Set) (e : Error) (raw : Bytes) (raws : List Bytes)
    → compile raw ≡ err e
    → compile_set_from s (raw ∷ raws) ≡ err e
unfolding compile_set_from
compile_set_from-err s e raw raws q = rw (q, compile_set_from)

-- What the set built by the loop answers, from the set that the loop starts with.
compile_set_from_lem :
    (s t : Set) (raws : List Bytes) (path : Bytes)
    → IsSound s
    → compile_set_from s raws ≡ ok t
    → match_set t path ≡ (any (λ p. match p path) s.patterns || any (covers_path path) raws)
unfolding match_set compile_set_from
compile_set_from_lem s t [] path h e = ground (arith, h path)
compile_set_from_lem s t (raw ∷ raws) path h e = elim (Result-cases (compile raw)) [
  | inl (x, q) ↦ cc (compile_set_from-err s x raw raws q)
  | inr (p, q) ↦ ground (
    arith,
    q,
    compile_set_from_lem (add s p) t raws path (add-IsSound s p h)
        (sym (compile_set_from-ok s p raw raws q) ∙ e),
    any-concat (λ q. match q path) s.patterns p,
  )
]

-- A compiled set covers a path exactly when one of its patterns compiles to one that matches the
-- path: the shortcut for "**" changes no answer.
pub match_set-compile_set :
    (raws : List Bytes) (s : Set) (path : Bytes)
    → compile_set raws ≡ ok s
    → match_set s path ≡ any (covers_path path) raws
unfolding compile_set
match_set-compile_set raws s path e = compile_set_from_lem _ s raws path (λ q h. cc) e

is_ok-compile_set_from :
    (s : Set) (raws : List Bytes) → is_ok (compile_set_from s raws) ≡ all_compile raws
unfolding compile_set_from
is_ok-compile_set_from s [] = refl
is_ok-compile_set_from s (raw ∷ raws) = elim (Result-cases (compile raw)) [
  | inl (x, q) ↦ rw (compile_set_from-err s x raw raws q) (ground (arith, q))
  | inr (p, q) ↦
      rw (compile_set_from-ok s p raw raws q)
        (ground (arith, q, is_ok-compile_set_from (add s p) raws))
]

-- A set compiles exactly when each of its patterns does.
pub is_ok-compile_set : (raws : List Bytes) → is_ok (compile_set raws) ≡ all_compile raws
unfolding compile_set
is_ok-compile_set raws = is_ok-compile_set_from _ raws
