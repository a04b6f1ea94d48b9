-- ===== src/Manifest/Plugin/Config.antt =====
-- The settings that a plugin receives (`ConfigDefaults` and `MergeConfig` of manifest/manifest.go).
-- A nil map is the empty one.
use moduless.Base.{
  ◌≡◌, refl, inl, inr, ◌∙◌, ◌&&◌, Option, none, some, List, [], ◌∷◌, arith, if◌then◌else◌, Bytes,
  ◌=?◌, is_empty, negate, Dict, lookup, insert, lookup-insert, HasUniqueKeys, Bool-cases, ap, sym,
  =?→≡, insert-HasUniqueKeys,
}
use moduless.Manifest.Plugin.{ConfigDecl}

-- The loop of `ConfigDefaults`.
unfoldable pub defaults_from : Dict Bytes → List ConfigDecl → Dict Bytes
unfolding insert
defaults_from out [] = out
defaults_from out (c ∷ cs) =
    defaults_from (if is_empty c.default_value then out else insert c.key c.default_value out) cs

-- `ConfigDefaults`.
unfoldable pub config_defaults : List ConfigDecl → Dict Bytes
unfolding defaults_from
config_defaults cs = defaults_from [] cs

-- `maps.Copy(out, m)`.
unfoldable pub copy_onto : Dict Bytes → Dict Bytes → Dict Bytes
unfolding insert
copy_onto out [] = out
copy_onto out ((k, v) ∷ m) = copy_onto (insert k v out) m

-- `MergeConfig` after its first line.
unfoldable pub merge_defaults : Dict Bytes → Dict Bytes → Dict Bytes
unfolding copy_onto
merge_defaults [] set = set
merge_defaults (d ∷ defaults) set = copy_onto (copy_onto [] (d ∷ defaults)) set

-- `MergeConfig`.
unfoldable pub merge_config : List ConfigDecl → Dict Bytes → Dict Bytes
unfolding config_defaults merge_defaults
merge_config cs set = merge_defaults (config_defaults cs) set

-- The first answer, or else the second.
abbrev pub or_else : Option Bytes → Option Bytes → Option Bytes
or_else none b = b
or_else (some v) b = some v

-- The last default that is declared for a key, empty ones aside.
abbrev pub declared_default : Bytes → List ConfigDecl → Option Bytes
declared_default k [] = none
declared_default k (c ∷ cs) =
    or_else (declared_default k cs)
      (if (c.key =? k) && negate (is_empty c.default_value) then some c.default_value else none)

or_else_assoc : (a b c : Option Bytes) → or_else (or_else a b) c ≡ or_else a (or_else b c)
or_else_assoc none b c = refl
or_else_assoc (some v) b c = refl

or_else-none : (a : Option Bytes) → or_else a none ≡ a
or_else-none none = refl
or_else-none (some v) = refl

lookup-next :
    (k : Bytes) (out : Dict Bytes) (c : ConfigDecl)
    → lookup k (if is_empty c.default_value then out else insert c.key c.default_value out)
      ≡ or_else
          (if (c.key =? k) && negate (is_empty c.default_value) then some c.default_value else none)
          (lookup k out)
lookup-next k out c = elim (Bool-cases (is_empty c.default_value)) [
  | inl e ↦ ground (arith, e)
  | inr e ↦ ground (arith, e, lookup-insert c.key k c.default_value out)
]

lookup-defaults_from :
    (k : Bytes) (out : Dict Bytes) (cs : List ConfigDecl)
    → lookup k (defaults_from out cs) ≡ or_else (declared_default k cs) (lookup k out)
unfolding defaults_from
lookup-defaults_from k out [] = refl
lookup-defaults_from k out (c ∷ cs) =
    lookup-defaults_from k
      (if is_empty c.default_value then out else insert c.key c.default_value out) cs
    ∙ ap (or_else (declared_default k cs)) (lookup-next k out c)
    ∙ sym (or_else_assoc (declared_default k cs) _ (lookup k out))

lookup-copy_onto :
    (k : Bytes) (out m : Dict Bytes)
    → HasUniqueKeys m
    → lookup k (copy_onto out m) ≡ or_else (lookup k m) (lookup k out)
unfolding copy_onto lookup
lookup-copy_onto k out [] u = refl
lookup-copy_onto k out ((j, v) ∷ m) u =
    lookup-copy_onto k (insert j v out) m u.1
    ∙ ap (or_else (lookup k m)) (lookup-insert j k v out)
    ∙ elim (Bool-cases (j =? k)) [
      | inl e ↦
          let absent : lookup k m ≡ none =
            ap (λ (i : Bytes). lookup i m) (sym (=?→≡ j k e)) ∙ u.0 in
          ground (arith, e, absent)
      | inr e ↦ ground (arith, e)
    ]

defaults_from-HasUniqueKeys :
    (out : Dict Bytes) (cs : List ConfigDecl)
    → HasUniqueKeys out
    → HasUniqueKeys (defaults_from out cs)
unfolding defaults_from
defaults_from-HasUniqueKeys out [] u = u
defaults_from-HasUniqueKeys out (c ∷ cs) u = elim (Bool-cases (is_empty c.default_value)) [
  | inl e ↦ rw e (defaults_from-HasUniqueKeys out cs u)
  | inr e ↦ rw e (
      defaults_from-HasUniqueKeys (insert c.key c.default_value out) cs
        (insert-HasUniqueKeys c.key c.default_value out u))
]

lookup-merge_defaults :
    (defaults set : Dict Bytes) (k : Bytes)
    → HasUniqueKeys defaults
    → HasUniqueKeys set
    → lookup k (merge_defaults defaults set) ≡ or_else (lookup k set) (lookup k defaults)
unfolding merge_defaults lookup
lookup-merge_defaults [] set k w u = sym (or_else-none (lookup k set))
lookup-merge_defaults (d ∷ defaults) set k w u =
    lookup-copy_onto k (copy_onto [] (d ∷ defaults)) set u
    ∙ ap (or_else (lookup k set))
        (lookup-copy_onto k [] (d ∷ defaults) w ∙ or_else-none (lookup k (d ∷ defaults)))

-- For a set of values in which no key stands twice: what the plugin receives for a key is the value
-- that is set, even an empty one, and else the last default that is declared for the key, empty
-- ones aside.
pub lookup-merge_config :
    (cs : List ConfigDecl) (set : Dict Bytes) (k : Bytes)
    → HasUniqueKeys set
    → lookup k (merge_config cs set) ≡ or_else (lookup k set) (declared_default k cs)
unfolding merge_config config_defaults lookup
lookup-merge_config cs set k u =
    lookup-merge_defaults (config_defaults cs) set k (defaults_from-HasUniqueKeys [] cs tt) u
    ∙ ap (or_else (lookup k set))
        (lookup-defaults_from k [] cs ∙ or_else-none (declared_default k cs))
