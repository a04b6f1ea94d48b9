-- ===== src/Pluginhost/Package/Checked.antt =====
-- What a package that `LoadPackage` of core/pluginhost/package.go gives back has been checked for.
use moduless.Base.{
  ◌≡◌, ◌≢◌, refl, inl, inr, ap, sym, false, Option, none, some, List, [], ◌∷◌, Bytes, ◌=?◌, bytes,
  is_empty, split, All, Bool-cases, Option-cases, ◌⊎◌, ≡→=?,
}
use mathlib.Core.List.{reverse_aux}
use moduless.Pathmatch.Defs.{Result}
use moduless.Manifest.Filters.{CompiledFilter, compile_filters}
use moduless.Manifest.Plugin.{Manifest, validate}
use moduless.Manifest.Plugin.Valid.{validate-compile_filters}
use moduless.Pluginhost.Package.{
  Directory, Package, Loaded, loaded, refused, load, hash_package, open_package, load_package,
  clean_from, clean_rooted, below, LoadError, frontend, without_last,
}

pub Loaded-cases {ℓ} :
    {A : Type ℓ} (w : Loaded A) → ((e : LoadError) × (w ≡ refused e)) ⊎ ((a : A) × (w ≡ loaded a))
Loaded-cases (refused e) = inl (e, refl)
Loaded-cases (loaded a) = inr (a, refl)

abbrev loaded_or {ℓ} : {A : Type ℓ} → A → Loaded A → A
loaded_or a (loaded b) = b
loaded_or a (refused e) = a

loaded_inj {ℓ} : {A : Type ℓ} (a b : A) → loaded a ≡ loaded b → a ≡ b
loaded_inj a b h = ap (loaded_or a) h

-- A path element that leads neither out of its directory nor nowhere.
abbrev pub IsPlain : Bytes → Type 0
IsPlain piece = (piece ≢ bytes "..") × (piece ≢ bytes ".") × (piece ≢ [])

not_equal : (a b : Bytes) → (a =? b) ≡ false → a ≢ b
not_equal a b h e = cc (h, ≡→=? a b e)

not_empty : (a : Bytes) → is_empty a ≡ false → a ≢ []
not_empty a h e = cc (h, ap is_empty e)

All-tail : (kept : List Bytes) → All IsPlain kept → All IsPlain (without_last kept)
All-tail [] h = tt
All-tail (piece ∷ kept) h = h.1

clean_from-IsPlain :
    (kept pieces : List Bytes) → All IsPlain kept → All IsPlain (clean_from kept pieces)
unfolding clean_from
clean_from-IsPlain kept [] h = h
clean_from-IsPlain kept (piece ∷ pieces) h = elim (Bool-cases (is_empty piece)) [
  | inl e ↦ rw e (clean_from-IsPlain kept pieces h)
  | inr e ↦ elim (Bool-cases (piece =? bytes ".")) [
    | inl f ↦ rw (e, f) (clean_from-IsPlain kept pieces h)
    | inr f ↦ elim (Bool-cases (piece =? bytes "..")) [
      | inl g ↦ rw (e, f, g) (clean_from-IsPlain (without_last kept) pieces (All-tail kept h))
      | inr g ↦
          rw (e, f, g)
            (clean_from-IsPlain (piece ∷ kept) pieces
              ((not_equal _ _ g, not_equal _ _ f, not_empty piece e), h))
    ]
  ]
]

All-reverse_aux :
    (xs ys : List Bytes) → All IsPlain xs → All IsPlain ys → All IsPlain (reverse_aux xs ys)
All-reverse_aux [] ys h k = k
All-reverse_aux (x ∷ xs) ys h k = All-reverse_aux xs (x ∷ ys) h.1 (h.0, k)

pub clean_rooted-IsPlain : (path : Bytes) → All IsPlain (clean_rooted path)
unfolding clean_rooted
clean_rooted-IsPlain path =
    All-reverse_aux (clean_from [] (split path b'/')) []
      (clean_from-IsPlain [] (split path b'/') tt) tt

-- What a package is made of, when the manifest of its directory has been read.
pub record IsChecked (sha256 : Bytes → Bytes) (d : Directory) (p : Package) : Type 0 where
  pub valid : validate p.manifest ≡ none
  pub compiled : compile_filters p.manifest.filters ≡ Result.ok p.filters
  pub binary : p.binary_path ≡ below d.dir (clean_rooted p.manifest.runtime.entrypoint)
  pub confined : All IsPlain (clean_rooted p.manifest.runtime.entrypoint)
  pub hashed :
      (content : Bytes) × (d.read p.binary_path ≡ some content) × (p.checksum ≡ sha256 content)

module _ (decode : Bytes → Option Manifest) (sha256 : Bytes → Bytes) where
  hash_package-parts :
      (d : Directory) (m : Manifest) (binary : Bytes) (filters : List CompiledFilter) (p : Package)
      → hash_package decode sha256 d m binary filters ≡ loaded p
      → (content : Bytes) × (d.read binary ≡ some content)
        × (p ≡ record {
          dir = d.dir;
          manifest = m;
          binary_path = binary;
          checksum = sha256 content;
          frontend_dir = frontend decode sha256 d;
          filters = filters;
        })
  unfolding hash_package
  hash_package-parts d m binary filters p h = elim (Option-cases (d.read binary)) [
    | inl e ↦ absurd (cc (rw (e, hash_package) at h))
    | inr (content, e) ↦ (content, e, loaded_inj _ _ (sym (rw (e, hash_package) at h)))
  ]

  hash_package-IsChecked :
      (d : Directory) (m : Manifest) (filters : List CompiledFilter) (p : Package)
      → validate m ≡ none
      → compile_filters m.filters ≡ Result.ok filters
      → hash_package decode sha256 d m (below d.dir (clean_rooted m.runtime.entrypoint)) filters
        ≡ loaded p
      → IsChecked sha256 d p
  hash_package-IsChecked d m filters p v c h =
      let (content, r, e) = hash_package-parts d m _ filters p h in
      rw e (record {
        valid = v;
        compiled = c;
        binary = refl;
        confined = clean_rooted-IsPlain m.runtime.entrypoint;
        hashed = (content, r, refl);
      })

  open_package-compiles :
      (d : Directory) (m : Manifest) (filters : List CompiledFilter) (p : Package)
      → compile_filters m.filters ≡ Result.ok filters
      → open_package decode sha256 d m ≡ loaded p
      → hash_package decode sha256 d m (below d.dir (clean_rooted m.runtime.entrypoint)) filters
        ≡ loaded p
  unfolding open_package
  open_package-compiles d m filters p c h = elim (Bool-cases (is_empty m.runtime.entrypoint)) [
    | inl e ↦ absurd (cc (rw (e, open_package) at h))
    | inr e ↦ elim (Option-cases (d.stat (below d.dir (clean_rooted m.runtime.entrypoint)))) [
      | inl f ↦ absurd (cc (rw (e, open_package, f) at h))
      | inr (info, f) ↦ elim (Bool-cases info.is_dir) [
        | inl i ↦ absurd (cc (rw (e, open_package, f, i) at h))
        | inr i ↦ elim (Bool-cases info.is_executable) [
          | inr x ↦ absurd (cc (rw (e, open_package, f, i, x) at h))
          | inl x ↦ rw (e, open_package, f, i, x, c) at h
        ]
      ]
    ]
  ]

  open_package-IsChecked :
      (d : Directory) (m : Manifest) (p : Package)
      → validate m ≡ none
      → open_package decode sha256 d m ≡ loaded p
      → IsChecked sha256 d p
  open_package-IsChecked d m p v h =
      let (filters, c, _) = validate-compile_filters m v in
      hash_package-IsChecked d m filters p v c (open_package-compiles d m filters p c h)

  load_package-valid :
      (d : Directory) (m : Manifest) (p : Package)
      → load decode sha256 d ≡ loaded m
      → load_package decode sha256 d ≡ loaded p
      → (validate m ≡ none) × (open_package decode sha256 d m ≡ loaded p)
  unfolding load_package
  load_package-valid d m p e h = elim (Option-cases (validate m)) [
    | inl v ↦ (v, rw (e, load_package, v) at h)
    | inr (x, v) ↦ absurd (cc (rw (e, load_package, v) at h))
  ]

  -- A package that is loaded has a manifest that passes `Validate` and exactly the filters of its
  -- declarations; its binary lies below the directory, at a path without ".." or empty elements; and
  -- its checksum is that of the binary's bytes.
  pub load_package-IsChecked :
      (d : Directory) (p : Package) → load_package decode sha256 d ≡ loaded p → IsChecked sha256 d p
  unfolding load_package
  load_package-IsChecked d p h = elim (Loaded-cases (load decode sha256 d)) [
    | inl (x, e) ↦ absurd (cc (rw (e, load_package) at h))
    | inr (m, e) ↦ let (v, o) = load_package-valid d m p e h in open_package-IsChecked d m p v o
  ]
