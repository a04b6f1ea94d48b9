-- ===== src/Gateway/Routes/Plain.antt =====
-- What a plugin can be asked for: the path behind its key, of core/gateway/plugin_handler.go.
use moduless.Base.{
  true, ◌&&◌, ◌||◌, negate, List, [], ◌∷◌, ◌++◌, if◌then◌else◌, ◌==◌, Bytes, bytes, is_empty, ◌=?◌,
  has_prefix, has_suffix, split, split_from, drop, length, none, some, All, All-append, ◌≡◌, ◌≢◌,
  ◌⊎◌, inl, inr, refl, sym, ap, ◌∙◌, arith, Bool-cases, Option-cases, ==_iff,
}
use mathlib.Core.List.{reverse_aux}
use moduless.Pluginhost.Package.{clean_from, clean_rooted, below, without_last}
use moduless.Pluginhost.Package.Checked.{IsPlain, clean_rooted-IsPlain}
use moduless.Gateway.Routes.{
  plugin_api_prefix, cut_at, clean_path, clean_sub_path, split_rest, split_plugin_path,
}

-- A path element with no slash in it.
abbrev pub HasNoSlash : Bytes → Type 0
HasNoSlash piece = All (λ c. c ≢ b'/') piece

split_from-HasNoSlash :
    (piece s : Bytes) → HasNoSlash piece → All HasNoSlash (split_from piece s b'/')
unfolding split_from
split_from-HasNoSlash piece [] h = (h, tt)
split_from-HasNoSlash piece (c ∷ s) h = elim (Bool-cases (c == b'/')) [
  | inl e ↦ rw e (h, split_from-HasNoSlash [] s tt)
  | inr e ↦ rw e (
      split_from-HasNoSlash (piece ++ (c ∷ [])) s
        (All-append _ piece (c ∷ []) h (λ q. cc (e, (==_iff c b'/').1 q), tt)))
]

without_last-HasNoSlash :
    (kept : List Bytes) → All HasNoSlash kept → All HasNoSlash (without_last kept)
without_last-HasNoSlash [] h = tt
without_last-HasNoSlash (piece ∷ kept) h = h.1

clean_from-HasNoSlash :
    (kept pieces : List Bytes)
    → All HasNoSlash kept
    → All HasNoSlash pieces
    → All HasNoSlash (clean_from kept pieces)
unfolding clean_from
clean_from-HasNoSlash kept [] h k = h
clean_from-HasNoSlash kept (piece ∷ pieces) h k =
    clean_from-HasNoSlash
      (if is_empty piece || piece =? bytes "."
        then kept
        else if piece =? bytes ".."
        then without_last kept
        else piece ∷ kept)
      pieces (ground (arith, h, k, without_last-HasNoSlash kept h)) k.1

reverse_aux-HasNoSlash :
    (xs ys : List Bytes)
    → All HasNoSlash xs
    → All HasNoSlash ys
    → All HasNoSlash (reverse_aux xs ys)
reverse_aux-HasNoSlash [] ys h k = k
reverse_aux-HasNoSlash (x ∷ xs) ys h k = reverse_aux-HasNoSlash xs (x ∷ ys) h.1 (h.0, k)

clean_rooted-HasNoSlash : (path : Bytes) → All HasNoSlash (clean_rooted path)
unfolding clean_rooted split
clean_rooted-HasNoSlash path =
    reverse_aux-HasNoSlash (clean_from [] (split_from [] path b'/')) []
      (clean_from-HasNoSlash [] _ tt (split_from-HasNoSlash [] path tt)) tt

-- Elements behind slashes, none of them empty, a dot, two dots or with a slash in it, and
-- perhaps one more slash.
pub record IsCleanPath (sub : Bytes) : Type 0 where
  pub pieces : List Bytes
  pub plain : All IsPlain pieces
  pub apart : All HasNoSlash pieces
  pub joined : (sub ≡ below [] pieces) ⊎ (sub ≡ below [] pieces ++ (b'/' ∷ []))

clean_path-joined :
    (sub : Bytes)
    → (clean_path sub ≡ below [] (clean_rooted sub))
      ⊎ ((clean_path sub ≡ b'/' ∷ []) × (below [] (clean_rooted sub) ≡ []))
unfolding clean_path
clean_path-joined sub = go (below [] (clean_rooted sub))
  where
    go :
        (c : Bytes)
        → ((if is_empty c then b'/' ∷ [] else c) ≡ c)
          ⊎ (((if is_empty c then b'/' ∷ [] else c) ≡ b'/' ∷ []) × (c ≡ []))
    go [] = inr (refl, refl)
    go (x ∷ c) = inl refl

slash_ends : has_suffix (b'/' ∷ []) (b'/' ∷ []) ≡ true
unfolding has_suffix ◌=?◌
slash_ends = refl

clean_sub_path-joined :
    (sub : Bytes)
    → (clean_sub_path sub ≡ below [] (clean_rooted sub))
      ⊎ (clean_sub_path sub ≡ below [] (clean_rooted sub) ++ (b'/' ∷ []))
unfolding clean_sub_path
clean_sub_path-joined sub =
    elim (Bool-cases
      (has_suffix sub (b'/' ∷ []) && negate (has_suffix (clean_path sub) (b'/' ∷ [])))) [
        | inl e ↦ elim (clean_path-joined sub) [
          | inl q ↦ inr (rw e (ap (λ c. c ++ (b'/' ∷ [])) q))
          | inr (q, z) ↦
              absurd (ground (arith, e, slash_ends, ap (λ c. has_suffix c (b'/' ∷ [])) q))
        ]
        | inr e ↦ elim (clean_path-joined sub) [
          | inl q ↦ inl (rw e q)
          | inr (q, z) ↦ inr (rw e (q ∙ ap (λ c. c ++ b'/' ∷ []) (sym z)))
        ]
      ]

clean_sub_path-IsCleanPath : (sub : Bytes) → IsCleanPath (clean_sub_path sub)
clean_sub_path-IsCleanPath sub = record {
  pieces = clean_rooted sub;
  plain = clean_rooted-IsPlain sub;
  apart = clean_rooted-HasNoSlash sub;
  joined = clean_sub_path-joined sub;
}

cut_at-before : (s before from : Bytes) → cut_at b'/' s ≡ some (before, from) → HasNoSlash before
unfolding cut_at
cut_at-before [] before from h = absurd (cc (h))
cut_at-before (c ∷ s) before from h = elim (Bool-cases (c == b'/')) [
  | inl e ↦ (let q : [] ≡ before = cc (rw e at h) in rw (sym q) tt)
  | inr e ↦ elim (Option-cases (cut_at b'/' s)) [
    | inl q ↦ absurd (cc (rw (q, cut_at) at (rw e at h)))
    | inr ((b, f), q) ↦
        let x : some (c ∷ b, f) ≡ some (before, from) = rw (q, cut_at) at (rw e at h) in
        let y : c ∷ b ≡ before = cc (x) in
        rw (sym y) (λ z. cc (e, (==_iff c b'/').1 z), cut_at-before s b f q)
  ]
]

cut_at-none : (s : Bytes) → cut_at b'/' s ≡ none → HasNoSlash s
unfolding cut_at
cut_at-none [] h = tt
cut_at-none (c ∷ s) h = elim (Bool-cases (c == b'/')) [
  | inl e ↦ absurd (cc (rw e at h))
  | inr e ↦ elim (Option-cases (cut_at b'/' s)) [
    | inl q ↦ (λ z. cc (e, (==_iff c b'/').1 z), cut_at-none s q)
    | inr ((b, f), q) ↦ absurd (cc (rw (q, cut_at) at (rw e at h)))
  ]
]

split_rest-parts : (rest : Bytes) → HasNoSlash (split_rest rest).0 × IsCleanPath (split_rest rest).1
unfolding split_rest
split_rest-parts rest = elim (Option-cases (cut_at b'/' rest)) [
  | inl e ↦
      rw (e, split_rest)
        (cut_at-none rest e, record { pieces = []; plain = tt; apart = tt; joined = inr refl })
  | inr ((before, from), e) ↦
      rw (e, split_rest) (cut_at-before rest before from e, clean_sub_path-IsCleanPath from)
]

-- Whatever path a caller sends or a filter sets, the key that is routed on has no slash in it,
-- and the path that the plugin gets never leads out of a directory that it is joined onto: it
-- consists of plain elements behind slashes, with at most one more slash at its end.
pub split_plugin_path-IsCleanPath :
    (p key sub : Bytes) → split_plugin_path p ≡ some (key, sub) → HasNoSlash key × IsCleanPath sub
unfolding split_plugin_path
split_plugin_path-IsCleanPath p key sub h =
    let rest = drop (length plugin_api_prefix) p in
    elim (Bool-cases (negate (has_prefix p plugin_api_prefix) || is_empty rest)) [
      | inl e ↦ absurd (cc (rw e at h))
      | inr e ↦
          let q : split_rest rest ≡ (key, sub) = cc (rw e at h) in
          let (k, c) = split_rest-parts rest in
          (rw (ap (λ (x : Bytes × Bytes). x.0) q) at k, rw (ap (λ (x : Bytes × Bytes). x.1) q) at c)
    ]
