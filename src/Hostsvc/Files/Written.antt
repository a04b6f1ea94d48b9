-- ===== src/Hostsvc/Files/Written.antt =====
-- What `Put` of core/hostsvc/files.go stores.
use moduless.Base.{
  ℕ, zero, suc, ◌+◌, ◌-◌, ◌^◌, ◌≤◌, ◌<◌, [], ◌∷◌, true, false, ◌&&◌, if◌then◌else◌, Bytes, bytes,
  Option, none, some, ◌≡◌, refl, sym, ◌∙◌, arith, Bool-cases, inl, inr, ◌⊎◌, ltb, leb, length, take,
  ◌++◌,
}
use moduless.Hostsvc.Files.{
  Backend, Files, failed, file_too_large, Result, ok, fails_with, Reader, read_limit, copy_limited,
  or_default, storage_key_of, insert_params, max_upload, put_copied, put, recorded, stored,
  InsertFileParams,
}

ltb_holds : {a b : ℕ} → a < b → ltb a b ≡ true
ltb_holds h = ground arith

ltb_fails : {a b : ℕ} → b ≤ a → ltb a b ≡ false
ltb_fails h = ground arith

length-take-le : (n : ℕ) (s : Bytes) → n ≤ length s → length (take n s) ≡ n
length-take-le zero s h = refl
length-take-le (suc n) [] h = omega arith
length-take-le (suc n) (c ∷ s) h = ground (arith, length-take-le n s)

-- With a limit above the ceiling, what is read is either over the ceiling or the whole content.
copied-cases :
    (max : ℕ) (r : Reader)
    → max < 2 ^ 63 - 1
    → ((max < length r.content)
        × (ltb max (length (copy_limited (read_limit max) r).0) ≡ true)
        × ((copy_limited (read_limit max) r).1 ≡ none))
      ⊎ ((length r.content ≤ max) × (copy_limited (read_limit max) r ≡ (r.content, r.failure)))
unfolding copy_limited
copied-cases max r h = elim (Bool-cases (ltb max (2 ^ 63 - 1))) [
  | inl q ↦ elim (Bool-cases (leb (max + 1) (length r.content))) [
    | inl z ↦ rw q (
        rw z (
          inl (
            ground (arith, z),
            rw (length-take-le (max + 1) r.content (ground (arith, z))) (ground arith),
            refl,
          )))
    | inr z ↦ rw q (rw z (inr (ground (arith, z), refl)))
  ]
  | inr q ↦ absurd (ground (arith, q, h))
]

module _ {World : Type 0} (backend : Backend World) where
  recorded-ok :
      (file_id : Bytes) (size : ℕ) (p : Option Bytes × World) (out : Bytes × ℕ) (u : World)
      → recorded backend file_id size p ≡ (ok out, u)
      → (out ≡ (file_id, size)) × (u ≡ p.1)
  recorded-ok file_id size (none, w) out u h = (cc, cc)
  recorded-ok file_id size (some err, w) out u h = absurd (cc)

  stored-ok :
      (key file_id filename mime_type : Bytes) (size : ℕ) (p : Option Bytes × World)
      (out : Bytes × ℕ) (u : World)
      → stored backend key file_id filename mime_type size p ≡ (ok out, u)
      → (out ≡ (file_id, size))
        × (u ≡ (backend.insert_file (insert_params key file_id filename mime_type size) p.1).1)
  stored-ok key file_id filename mime_type size (none, w) out u h =
      recorded-ok file_id size _ out u h
  stored-ok key file_id filename mime_type size (some err, w) out u h = absurd (cc)

  abbrev after_put : Bytes → Bytes → Bytes → Bytes → Bytes → World → World
  after_put key file_id filename mime_type content w =
      let size = length content in
      let p = backend.put_object (storage_key_of key file_id) content size mime_type w in
      (backend.insert_file (insert_params key file_id filename mime_type size) p.1).1

  put_copied-ok :
      (max : ℕ) (key file_id filename mime_type content : Bytes) (failure : Option Bytes)
      (w u : World) (out : Bytes × ℕ)
      → put_copied backend max key file_id filename mime_type (content, failure) w ≡ (ok out, u)
      → (out ≡ (file_id, length content))
        × (failure ≡ none)
        × (length content ≤ max)
        × (u ≡ after_put key file_id filename mime_type content w)
  unfolding put_copied
  put_copied-ok max key file_id filename mime_type content (some err) w u out h = absurd (cc)
  put_copied-ok max key file_id filename mime_type content none w u out h =
      elim (Bool-cases (ltb max (length content))) [
        | inl q ↦ absurd (cc (rw q at h))
        | inr q ↦
            let (a, b) =
              stored-ok key file_id filename mime_type (length content) _ out u (rw q at h) in
            (a, refl, ground (arith, q), b)
      ]

  put_copied-over :
      (max : ℕ) (key file_id filename mime_type : Bytes) (p : Bytes × Option Bytes) (w : World)
      → ltb max (length p.0) ≡ true
      → p.1 ≡ none
      → put_copied backend max key file_id filename mime_type p w
        ≡ (fails_with (file_too_large max), w)
  unfolding put_copied
  put_copied-over max key file_id filename mime_type (content, none) w q n = rw q refl
  put_copied-over max key file_id filename mime_type (content, some err) w q n = absurd (cc)

  put_configured :
      (f : Files) (key file_id filename mime_type : Bytes) (r : Reader) (w : World)
      → (f.has_store && f.has_queries) ≡ true
      → put backend f key file_id filename mime_type r w
        ≡ put_copied backend
            (max_upload f)
            key
            file_id
            (or_default (bytes "untitled") filename)
            (or_default (bytes "application/octet-stream") mime_type)
            (copy_limited (read_limit (max_upload f)) r)
            w
  unfolding put
  put_configured f key file_id filename mime_type r w c = rw c refl

  -- The record that an upload leaves: the plugin owns it, and its object is named by the plugin
  -- and by the id that Core made.
  abbrev record_of : Bytes → Bytes → Bytes → Bytes → ℕ → InsertFileParams
  record_of key file_id filename mime_type size = record {
    ident = file_id;
    filename = filename;
    size = size;
    mime_type = mime_type;
    storage_key = bytes "plugins/" ++ (key ++ (bytes "/" ++ file_id));
    uploader_id = [];
    owner_plugin_key = key;
  }

  abbrev told_id : Bytes → ℕ → Option Bytes × World → Result (Bytes × ℕ) × World
  told_id file_id size (none, w) = (ok (file_id, size), w)
  told_id file_id size (some err, w) = (fails_with (failed (bytes "record file") err), w)

  -- What follows the answer of the object store.
  abbrev told :
      Bytes → Bytes → Bytes → Bytes → ℕ → Option Bytes × World → Result (Bytes × ℕ) × World
  told key file_id filename mime_type size (none, w) =
      told_id file_id size (backend.insert_file (record_of key file_id filename mime_type size) w)
  told key file_id filename mime_type size (some err, w) =
      (fails_with (failed (bytes "store object") err), w)

  recorded-told :
      (file_id : Bytes) (size : ℕ) (p : Option Bytes × World)
      → recorded backend file_id size p ≡ told_id file_id size p
  recorded-told file_id size (none, w) = refl
  recorded-told file_id size (some err, w) = refl

  stored-told :
      (key file_id filename mime_type : Bytes) (size : ℕ) (p : Option Bytes × World)
      → stored backend key file_id filename mime_type size p
        ≡ told key file_id filename mime_type size p
  stored-told key file_id filename mime_type size (some err, w) = refl
  stored-told key file_id filename mime_type size (none, w) = recorded-told file_id size _

  -- What an upload comes to, told of the whole content: nothing is written over the ceiling or
  -- after a failure of the reader; else the content goes under the plugin's prefix, and then the
  -- record is made.
  abbrev pub put_whole :
      ℕ → Bytes → Bytes → Bytes → Bytes → Bytes → Option Bytes → World → Result (Bytes × ℕ) × World
  put_whole max key file_id filename mime_type content failure w =
      if ltb max (length content) then (fails_with (file_too_large max), w) else (elim failure [
        | some err ↦ (fails_with (failed (bytes "read upload") err), w)
        | none ↦ told key file_id filename mime_type (length content) (
            backend.put_object (bytes "plugins/" ++ (key ++ (bytes "/" ++ file_id))) content
              (length content) mime_type w)
      ])

  within-put_whole :
      (max : ℕ) (key file_id filename mime_type content : Bytes) (failure : Option Bytes)
      (w : World)
      → ltb max (length content) ≡ false
      → put_copied backend max key file_id filename mime_type (content, failure) w
        ≡ put_whole max key file_id filename mime_type content failure w
  unfolding put_copied
  within-put_whole max key file_id filename mime_type content (some err) w q = rw q refl
  within-put_whole max key file_id filename mime_type content none w q =
      rw q (stored-told key file_id filename mime_type (length content) _)

  -- Where the store is configured and the ceiling is below 2^63 - 1, `Put` is an upload of the whole
  -- content: one over the ceiling is refused before anything is stored, however the reader goes on,
  -- one within it that the reader cannot finish is refused as well, and any other is stored
  -- complete, under the plugin's own prefix, and then recorded with the plugin as its owner. So no
  -- file is ever cut at the limit of the reader.
  pub put-whole :
      (f : Files) (key file_id filename mime_type : Bytes) (r : Reader) (w : World)
      → max_upload f < 2 ^ 63 - 1
      → (f.has_store && f.has_queries) ≡ true
      → put backend f key file_id filename mime_type r w
        ≡ put_whole
            (max_upload f)
            key
            file_id
            (or_default (bytes "untitled") filename)
            (or_default (bytes "application/octet-stream") mime_type)
            r.content
            r.failure
            w
  put-whole f key file_id filename mime_type r w b c =
      put_configured f key file_id filename mime_type r w c
      ∙ elim (copied-cases (max_upload f) r b) [
        | inl (o, l, n) ↦
            put_copied-over (max_upload f) key file_id _ _ _ w l n ∙ sym (rw (ltb_holds o) refl)
        | inr (o, e) ↦
            rw e
              (within-put_whole (max_upload f) key file_id _ _ r.content r.failure w (ltb_fails o))
      ]

  -- An upload that gives an id was read to its end, is within the ceiling, and its size is that of
  -- the whole content.
  put-stores :
      (f : Files) (key file_id filename mime_type : Bytes) (r : Reader) (w u : World)
      (out : Bytes × ℕ)
      → max_upload f < 2 ^ 63 - 1
      → (f.has_store && f.has_queries) ≡ true
      → put backend f key file_id filename mime_type r w ≡ (ok out, u)
      → (out ≡ (file_id, length r.content))
        × (r.failure ≡ none)
        × (length r.content ≤ max_upload f)
        × (u
            ≡ after_put key file_id
                (or_default (bytes "untitled") filename)
                (or_default (bytes "application/octet-stream") mime_type)
                r.content
                w)
  put-stores f key file_id filename mime_type r w u out b c h =
      let same = put_configured f key file_id filename mime_type r w c in
      elim (copied-cases (max_upload f) r b) [
        | inl (o, l, n) ↦
            absurd (cc (same, put_copied-over (max_upload f) key file_id _ _ _ w l n, h))
        | inr (o, e) ↦
            put_copied-ok (max_upload f) key file_id _ _ r.content r.failure w u out
              (rw e at (sym same ∙ h))
      ]
