-- ===== src/Db/Versions/Batches.antt =====
-- A batch is applied whole or not at all: `BatchWrite` of core/db/tx.go.
use moduless.Base.{
  ℕ, suc, ◌+◌, Bool, true, false, List, [], ◌∷◌, Bytes, Option, none, some, ◌≡◌, ◌⊎◌, inl, inr,
  refl, arith, Option-cases, length, ◌∙◌, ap,
}
use moduless.Db.Sql.{DbError, failed_statement, Outcome, fails, returns}
use moduless.Db.Sql.Tables.{Outcome-cases}
use moduless.Db.Versions.{
  CommitEnd, committed, undone, unheard, Engine, BatchOp, apply_op, apply_batch, settle,
  batch_write,
}

module _ {Store : Type 0} (engine : Engine Store) where
  -- The store after all operations, or the error of the first one that fails.
  unfoldable pub apply_all : Bytes → List BatchOp → Store → Outcome Store
  unfolding apply_op
  apply_all ext_key [] s = returns s
  apply_all ext_key (op ∷ ops) s = elim (apply_op engine ext_key op s).0 [
    | some e ↦ fails e
    | none ↦ apply_all ext_key ops (apply_op engine ext_key op s).1
  ]

  apply_batch-all :
      (ext_key : Bytes) (n : ℕ) (ops : List BatchOp) (s t : Store)
      → apply_all ext_key ops s ≡ returns t
      → apply_batch engine ext_key n ops s ≡ (n + length ops, none, t)
  unfolding apply_batch apply_all
  apply_batch-all ext_key n [] s t h =
      let a : n ≡ n + 0 = omega arith in let b : s ≡ t = cc (h) in cc (a, b)
  apply_batch-all ext_key n (op ∷ ops) s t h =
      elim (Option-cases (apply_op engine ext_key op s).0) [
        | inl e ↦
            rw (e, apply_batch)
              (let ih =
                  apply_batch-all ext_key (n + 1) ops (apply_op engine ext_key op s).1 t
                    (rw (e, apply_all) at h) in
                let a : n + 1 + length ops ≡ n + suc (length ops) = omega arith in ih ∙ cc (a))
        | inr (x, e) ↦ absurd (cc (rw (e, apply_all) at h))
      ]

  apply_batch-stops :
      (ext_key : Bytes) (n : ℕ) (ops : List BatchOp) (s : Store) (e : DbError)
      → apply_all ext_key ops s ≡ fails e
      → (m : ℕ) × (t : Store) × (apply_batch engine ext_key n ops s ≡ (m, some e, t))
  unfolding apply_batch apply_all
  apply_batch-stops ext_key n [] s e h = absurd (cc (h))
  apply_batch-stops ext_key n (op ∷ ops) s e h =
      elim (Option-cases (apply_op engine ext_key op s).0) [
        | inl q ↦
            rw (q, apply_batch) (apply_batch-stops ext_key (n + 1) ops _ e (rw (q, apply_all) at h))
        | inr (x, q) ↦
            let g : x ≡ e = cc (rw (q, apply_all) at h) in rw (q, apply_batch, g) (n, _, refl)
      ]

  settle-stopped :
      (end : CommitEnd) (s : Store) (x : ℕ × Option DbError × Store) (m : ℕ) (e : DbError)
      (t : Store)
      → x ≡ (m, some e, t)
      → settle engine end s x ≡ (0, some e, s)
  unfolding settle
  settle-stopped end s x m e t h = ap (settle engine end s) h

  apply_batch-whole :
      (ext_key : Bytes) (ops : List BatchOp) (s t : Store)
      → apply_all ext_key ops s ≡ returns t
      → apply_batch engine ext_key 0 ops s ≡ (length ops, none, t)
  apply_batch-whole ext_key ops s t h =
      let z : 0 + length ops ≡ length ops = omega arith in
      apply_batch-all ext_key 0 ops s t h ∙ cc (z)

  settle-whole :
      (end : CommitEnd) (s : Store) (x : ℕ × Option DbError × Store) (n : ℕ) (t : Store)
      → x ≡ (n, none, t)
      → ((end ≡ committed) × (settle engine end s x ≡ (n, none, t)))
        ⊎ (((end ≡ undone) × (settle engine end s x ≡ (0, some (failed_statement []), s)))
            ⊎ ((end ≡ unheard) × (settle engine end s x ≡ (0, some (failed_statement []), t))))
  unfolding settle
  settle-whole committed s x n t h = inl (refl, ap (settle engine committed s) h)
  settle-whole undone s x n t h = inr (inl (refl, ap (settle engine undone s) h))
  settle-whole unheard s x n t h = inr (inr (refl, ap (settle engine unheard s) h))

  -- How a batch in a transaction of its own ends: as `x` says, for the transaction's begin and end
  -- and for what its operations come to.
  abbrev pub Ended :
      Bool → CommitEnd → ℕ → Outcome Store → Store → ℕ × Option DbError × Store → Type 0
  Ended begins end n all s x =
      ((t : Store) × (begins ≡ true)
        × (all ≡ returns t)
        × (((end ≡ committed) × (x ≡ (n, none, t)))
            ⊎ (((end ≡ undone) × (x ≡ (0, some (failed_statement []), s)))
                ⊎ ((end ≡ unheard) × (x ≡ (0, some (failed_statement []), t))))))
      ⊎ (((e : DbError) × (begins ≡ true) × (all ≡ fails e) × (x ≡ (0, some e, s)))
          ⊎ ((begins ≡ false) × (x ≡ (0, some (failed_statement []), s))))

  -- A batch in a transaction of its own is applied whole or not at all. If the transaction begins,
  -- no operation fails and the commit succeeds, all operations are in the store and counted, with
  -- no error. If the transaction does not begin, if an operation fails, or if the commit fails and
  -- the transaction is undone, the store is what it was, the count 0, and the error that of the
  -- first operation that fails, or of the database. Only where a commit fails although its
  -- transaction is in the store is an error reported for a batch that is applied, which is whole.
  pub batch_write-atomic :
      (begins : Bool) (end : CommitEnd) (ext_key : Bytes) (op : BatchOp) (ops : List BatchOp)
      (s : Store)
      → Ended begins end
          (length (op ∷ ops))
          (apply_all ext_key (op ∷ ops) s)
          s
          (batch_write engine false begins end ext_key (op ∷ ops) s)
  unfolding batch_write
  batch_write-atomic false end ext_key op ops s = inr (inr (refl, refl))
  batch_write-atomic true end ext_key op ops s =
      elim (Outcome-cases (apply_all ext_key (op ∷ ops) s)) [
        | inl (e, h) ↦
            let (m, t, q) = apply_batch-stops ext_key 0 (op ∷ ops) s e h in
            inr (inl (e, refl, h, settle-stopped end s _ m e t q))
        | inr (t, h) ↦
            inl (t, refl, h, settle-whole end s _ _ t (apply_batch-whole ext_key (op ∷ ops) s t h))
      ]
