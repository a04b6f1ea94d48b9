-- ===== src/Db/Pages/Taken.antt =====
-- Which rows a page takes: the loop on the rows of core/db/query.go.
use moduless.Base.{
  ℕ, zero, suc, ◌+◌, true, false, List, [], ◌∷◌, ◌++◌, map, ltb, ◌==◌, Bytes, length, length-append,
  append_assoc, append-nil, take, ◌≡◌, refl, sym, ◌∙◌, arith,
}
use moduless.Db.Sql.{returns}
use moduless.Db.Pages.{Row, scanned, Reading, nothing_read, push, stop, read_rows}

abbrev pub row_of : Bytes × Bytes → Row
row_of (ident, raw) = scanned ident raw

-- What the loop returns for the rows `xs`, where `room` of them still fit.
abbrev pub HasRead : List (Bytes × Bytes) → ℕ → Reading → Reading → Type 0
HasRead xs room s t =
    (t.result.documents ≡ s.result.documents ++ map (λ (x : Bytes × Bytes). x.1) (take room xs))
    × (t.result.ids ≡ s.result.ids ++ map (λ (x : Bytes × Bytes). x.0) (take room xs))
    × (t.result.has_more ≡ ltb room (length xs))

read_rows-HasRead :
    (collection : Bytes) (limit room : ℕ) (xs : List (Bytes × Bytes)) (s : Reading)
    → length s.result.documents + room ≡ limit
    → s.result.has_more ≡ false
    → (t : Reading) × (read_rows collection limit (map row_of xs) s ≡ returns t)
      × HasRead xs room s t
unfolding read_rows
read_rows-HasRead collection limit zero [] s h e =
    (s, refl, (sym (append-nil _), sym (append-nil _), e))
read_rows-HasRead collection limit (suc room) [] s h e =
    (s, refl, (sym (append-nil _), sym (append-nil _), ground (arith, e)))
read_rows-HasRead collection limit zero ((ident, raw) ∷ xs) s h e =
    let q : (length s.result.documents == limit) ≡ true = ground (arith, h) in
    (stop s, rw q refl, (sym (append-nil _), sym (append-nil _), ground arith))
read_rows-HasRead collection limit (suc room) ((ident, raw) ∷ xs) s h e =
    let q : (length s.result.documents == limit) ≡ false = ground (arith, h) in
    let d = length-append s.result.documents (raw ∷ []) in
    let (t, ht, (hd, hi, hm)) =
      read_rows-HasRead collection limit room xs (push ident raw s) (omega (arith, d, h)) e in
    (
      t,
      rw q ht,
      (
        hd ∙ append_assoc s.result.documents (raw ∷ []) _,
        hi ∙ append_assoc s.result.ids (ident ∷ []) _,
        ground (arith, hm),
      ),
    )

-- Where every row can be read, the loop returns the first rows up to the limit, in the order of
-- the database, and says that there are more exactly where there are more rows than the limit.
pub read_rows-takes :
    (collection : Bytes) (limit : ℕ) (xs : List (Bytes × Bytes))
    → (t : Reading) × (read_rows collection limit (map row_of xs) nothing_read ≡ returns t)
      × HasRead xs limit nothing_read t
read_rows-takes collection limit xs =
    read_rows-HasRead collection limit limit xs nothing_read (omega arith) refl
