-- ===== src/Db/Pages/Bounds.antt =====
-- What a page holds: the loop on the rows of core/db/query.go, and `Query` as a whole.
use moduless.Base.{
  ℕ, zero, suc, ◌≤◌, ◌<◌, Bool, true, false, List, [], ◌∷◌, if◌then◌else◌, ◌==◌, Bytes, length,
  length-append, Option, ℤ, pos, negsuc, ◌≡◌, refl, sym, arith, Bool-cases, inl, inr, is_empty,
  negate, ◌&&◌, leb,
}
use moduless.Db.Sql.{DbError, Outcome, fails, returns, Arg}
use moduless.Db.Sql.Tables.{bind-returns}
use moduless.Db.Query.{
  SortField, QueryOptions, Cursor, query_statement, page_limit, max_query_limit,
}
use moduless.Db.Pages.{
  Json, Members, Row, scanned, unreadable, Rows, QueryResult, Reading, nothing_read, push, stop,
  read_rows, with_next_cursor, sort_keys_of, query,
}

-- A page limit is positive and at most 1000.
page_limit-bounds : (l : ℤ) → (0 < page_limit l) × (page_limit l ≤ max_query_limit)
unfolding page_limit
page_limit-bounds (pos zero) = omega arith
page_limit-bounds (pos (suc n)) = ground arith
page_limit-bounds (negsuc n) = omega arith

-- What a caller asks for: a number of documents that is not positive stands for 100.
abbrev pub asked_for : ℤ → ℕ
asked_for (pos zero) = 100
asked_for (pos (suc n)) = suc n
asked_for (negsuc n) = 100

-- The smaller of two numbers.
abbrev pub smaller : ℕ → ℕ → ℕ
smaller a b = if leb a b then a else b

page_limit-smaller : (l : ℤ) → page_limit l ≡ smaller (asked_for l) 1000
unfolding page_limit
page_limit-smaller (pos zero) = refl
page_limit-smaller (pos (suc n)) = ground arith
page_limit-smaller (negsuc n) = refl

-- A page in the making: as many ids as documents, and no more than the limit.
record IsPage (limit : ℕ) (s : Reading) : Type 0 where
  within : length s.result.documents ≤ limit
  aligned : length s.result.ids ≡ length s.result.documents
  full : s.result.has_more ≡ true → length s.result.documents ≡ limit
  no_cursor : s.result.next_cursor ≡ []

push-IsPage :
    (limit : ℕ) (ident raw : Bytes) (s : Reading)
    → IsPage limit s
    → s.result.has_more ≡ false
    → (length s.result.documents == limit) ≡ false
    → IsPage limit (push ident raw s)
push-IsPage limit ident raw s v h e =
    let d = length-append s.result.documents (raw ∷ []) in
    let i = length-append s.result.ids (ident ∷ []) in
    ground (arith, d, i, v.within, v.aligned, v.no_cursor, h, e)

==→≡ : (a b : ℕ) → (a == b) ≡ true → a ≡ b
==→≡ a b h = ground arith

stop-IsPage :
    (limit : ℕ) (s : Reading)
    → IsPage limit s
    → length s.result.documents ≡ limit
    → IsPage limit (stop s)
stop-IsPage limit s v h = record {
  within = v.within;
  aligned = v.aligned;
  full = λ _. h;
  no_cursor = v.no_cursor;
}

read_rows-IsPage :
    (collection : Bytes) (limit : ℕ) (rows : List Row) (s t : Reading)
    → IsPage limit s
    → s.result.has_more ≡ false
    → read_rows collection limit rows s ≡ returns t
    → IsPage limit t
unfolding read_rows
read_rows-IsPage collection limit [] s t v h e = let q : s ≡ t = cc (e) in rw (sym q) v
read_rows-IsPage collection limit (unreadable ∷ rows) s t v h e = absurd (cc (e))
read_rows-IsPage collection limit (scanned ident raw ∷ rows) s t v h e =
    elim (Bool-cases (length s.result.documents == limit)) [
      | inl q ↦
          let g : stop s ≡ t = cc (rw q at e) in rw (sym g) (stop-IsPage limit s v (==→≡ _ _ q))
      | inr q ↦
          read_rows-IsPage collection limit rows (push ident raw s) t
            (push-IsPage limit ident raw s v h q) h (rw (q) at e)
    ]

unless-returns {ℓ} :
    {A : Type ℓ} (b : Bool) (e : DbError) (o : Outcome A) (a : A)
    → (if b then fails e else o) ≡ returns a
    → o ≡ returns a
unless-returns true e o a h = absurd (cc (h))
unless-returns false e o a h = h

-- A page: no more documents than the limit, an id for each, full where more rows exist, and with
-- a cursor for the next page only where there is one.
pub record IsResult (limit : ℕ) (r : QueryResult) : Type 0 where
  pub within : length r.documents ≤ limit
  pub aligned : length r.ids ≡ length r.documents
  pub full : r.has_more ≡ true → length r.documents ≡ limit
  pub last_page : r.has_more ≡ false → r.next_cursor ≡ []

module _ (format_float : ℕ → Bytes) (marshal : Json → Bytes) (parse : Bytes → Option Members)
    (encode : Cursor → Bytes) where
  with_next_cursor-IsResult :
      (collection : Bytes) (sort : List SortField) (limit : ℕ) (s : Reading) (r : QueryResult)
      → IsPage limit s
      → with_next_cursor format_float marshal parse encode collection sort s ≡ returns r
      → IsResult limit r
  unfolding with_next_cursor
  with_next_cursor-IsResult collection sort limit s r v h =
      elim (Bool-cases (s.result.has_more && negate (is_empty s.last_id))) [
        | inl e ↦
            let (keys, _, h') =
              bind-returns
                (sort_keys_of format_float marshal parse encode collection s.last_doc sort) _ r
                (rw e at h) in
            let q : record s.result {
              next_cursor = encode (record { keys = keys; ident = s.last_id });
            }
                ≡ r =
              cc (h') in
            let more : s.result.has_more ≡ true = ground (arith, e) in
            rw (sym q) (record {
              within = v.within;
              aligned = v.aligned;
              full = λ _. v.full more;
              last_page = λ f. absurd (cc (f, more));
            })
        | inr e ↦
            let q : s.result ≡ r = cc (rw e at h) in
            rw (sym q) (record {
              within = v.within;
              aligned = v.aligned;
              full = v.full;
              last_page = λ _. v.no_cursor;
            })
      ]

  -- Whatever the database answers, a page that `Query` returns has at most as many documents as were
  -- asked for and at most 1000, an id for each, exactly the smaller of the two where it says that
  -- there are more, and no cursor where it says that there are none. Asking for none or fewer is
  -- asking for 100.
  pub query-IsResult :
      (decode : Bytes → Option Cursor) (select : Bytes → List Arg → Outcome Rows)
      (ext_key collection : Bytes) (opts : QueryOptions) (r : QueryResult)
      → query format_float marshal parse encode decode select ext_key collection opts ≡ returns r
      → IsResult (smaller (asked_for opts.limit) 1000) r
  unfolding query
  query-IsResult decode select ext_key collection opts r h =
      let (q, _, h1) = bind-returns (query_statement decode ext_key collection opts) _ r h in
      let (rows, _, h2) = bind-returns (select q.0 q.1) _ r h1 in
      let (s, hs, h3) =
        bind-returns (read_rows collection (page_limit opts.limit) rows.items nothing_read) _ r
          h2 in
      let h4 = unless-returns rows.broken _ _ r h3 in
      let start : IsPage (page_limit opts.limit) nothing_read = record {
        within = omega arith;
        aligned = refl;
        full = λ f. absurd (cc (f));
        no_cursor = refl;
      } in
      let v =
        read_rows-IsPage collection (page_limit opts.limit) rows.items nothing_read s start refl
          hs in
      rw (page_limit-smaller opts.limit) at
        (with_next_cursor-IsResult collection opts.sort (page_limit opts.limit) s r v h4)
