-- ===== src/DbWriter/Conserved.antt =====
-- What becomes of the prices that services/db-writer/main.go is given.
use mathlib.Core.List.Permᴰ
use mathlib.Core.List.{append_assoc, append-nil, Permᴰ}
use termino.Prelude.{
  ◌+◌, ◌≡◌, refl, sym, ap, subst, ◌∙◌, Bool, false, List, [], ◌∷◌, ◌++◌, Option, none, some, length,
  leb, arith, Bool-cases, inl, inr,
}
use termino.Prelude.Text.{Text}
use termino.Models.{AggregatedPrice}
use termino.DbWriter.Settled.{
  rows, settled, answered, accepted, stored, lost, settled-Permᴰ, accepted-stored,
}
use termino.DbWriter.{
  Row, Database, DbWriter, Tx, skipped, not_begun, not_prepared, tried, row_of, new, exec_all,
  finish, insert_batch, transact, flush_batch, flush, add_to_batch, Op, adds, flushes, step, run,
}

module _ {F : Type 0} where
  abbrev pub rows_of : List (AggregatedPrice F) → List (Row F)
  rows_of [] = []
  rows_of (p ∷ ps) = row_of p ∷ rows_of ps

  abbrev pub added : List (Op F) → List (AggregatedPrice F)
  added [] = []
  added (adds p ∷ os) = p ∷ added os
  added (flushes c ∷ os) = added os

  pub rows_of-append :
      (xs ys : List (AggregatedPrice F)) → rows_of (xs ++ ys) ≡ rows_of xs ++ rows_of ys
  rows_of-append [] ys = refl
  rows_of-append (x ∷ xs) ys = ap (◌∷◌ (row_of x)) (rows_of-append xs ys)

  pub settled-cons :
      (t : Tx F) (ts : List (Tx F)) → settled (t ∷ ts) ≡ settled (t ∷ []) ++ settled ts
  settled-cons skipped ts = refl
  settled-cons not_begun ts = refl
  settled-cons not_prepared ts = refl
  settled-cons (tried rs (some e)) ts = refl
  settled-cons (tried rs none) ts =
      ap (λ (xs : List (Row F)). xs ++ settled ts) (sym (append-nil _))

  pub added-cons : (o : Op F) (os : List (Op F)) → added (o ∷ os) ≡ added (o ∷ []) ++ added os
  added-cons (adds p) os = refl
  added-cons (flushes c) os = refl

  -- A flush of a writer with this batch left `w'` and the record `t`.
  pub record Kept (w w' : DbWriter F) (t : Tx F) : Type 0 where
    pub conserved : rows_of w.batch ≡ settled (t ∷ []) ++ rows_of w'.batch
    pub counted : w'.rows_inserted ≡ w.rows_inserted + accepted (t ∷ [])

module _ {F S : Type 0} (db : Database F S) where
  rows-exec_all : (ps : List (AggregatedPrice F)) (s : S) → rows (exec_all db ps s).1 ≡ rows_of ps
  unfolding exec_all
  rows-exec_all [] s = refl
  rows-exec_all (p ∷ ps) s = ap (◌∷◌ (row_of p)) (rows-exec_all ps (db.exec (row_of p) s).0)

  finish-Kept :
      (w : DbWriter F) (rs : List (Row F × Option Text)) (r : S × Option Text)
      → rows rs ≡ rows_of w.batch
      → Kept w (finish db w rs r).0 (finish db w rs r).2
  unfolding finish
  finish-Kept w rs (s, none) h = record {
    conserved = sym h ∙ sym (append-nil _) ∙ sym (append-nil _);
    counted = omega arith;
  }
  finish-Kept w rs (s, some e) h = record { conserved = refl; counted = omega arith }

  insert_batch-Kept :
      (w : DbWriter F) (r : S × Option Text)
      → Kept w (insert_batch db w r).0 (insert_batch db w r).2
  unfolding insert_batch
  insert_batch-Kept w (s, none) =
      finish-Kept w _ (db.commit (exec_all db w.batch s).0) (rows-exec_all w.batch s)
  insert_batch-Kept w (s, some e) = record { conserved = refl; counted = omega arith }

  transact-Kept :
      (w : DbWriter F) (r : S × Option Text) → Kept w (transact db w r).0 (transact db w r).2
  unfolding transact
  transact-Kept w (s, none) = insert_batch-Kept w (db.prepare s)
  transact-Kept w (s, some e) = record { conserved = refl; counted = omega arith }

  pub flush_batch-Kept :
      (c : Bool) (ps : List (AggregatedPrice F)) (w : DbWriter F) (s : S)
      → Kept w (flush_batch db c ps w s).0 (flush_batch db c ps w s).2
  unfolding flush_batch
  flush_batch-Kept c [] w s = record { conserved = refl; counted = omega arith }
  flush_batch-Kept c (p ∷ ps) w s = transact-Kept w (db.begin_tx c s)

  add_to_batch-Kept :
      (p : AggregatedPrice F) (w : DbWriter F) (s : S)
      → Kept
          (record w { batch = w.batch ++ p ∷ [] })
          (add_to_batch db p w s).0
          (add_to_batch db p w s).2
  unfolding add_to_batch flush
  add_to_batch-Kept p w s = elim (Bool-cases (leb 100 (length (w.batch ++ p ∷ [])))) [
    | inl e ↦ rw e (flush_batch-Kept false (w.batch ++ p ∷ []) _ s)
    | inr e ↦ rw e (record { conserved = refl; counted = omega arith })
  ]

  step-Kept :
      (o : Op F) (w : DbWriter F) (s : S)
      → Kept (record w { batch = w.batch ++ added (o ∷ []) }) (step db o w s).0 (step db o w s).2
  unfolding step flush
  step-Kept (adds p) w s = add_to_batch-Kept p w s
  step-Kept (flushes c) w s = rw (append-nil w.batch) (flush_batch-Kept c w.batch w s)

  accepted-cons :
      (t : Tx F) (ts : List (Tx F)) → accepted (t ∷ ts) ≡ accepted (t ∷ []) + accepted ts
  accepted-cons skipped ts = omega arith
  accepted-cons not_begun ts = omega arith
  accepted-cons not_prepared ts = omega arith
  accepted-cons (tried rs (some e)) ts = omega arith
  accepted-cons (tried rs none) ts = omega arith

  pub run_conserved :
      (os : List (Op F)) (w : DbWriter F) (s : S)
      → rows_of (w.batch ++ added os) ≡ settled (run db os w s).2 ++ rows_of (run db os w s).0.batch
  unfolding run
  run_conserved [] w s = ap rows_of (append-nil w.batch)
  run_conserved (o ∷ os) w s =
      let w1 : DbWriter F = (step db o w s).0 in
      let s1 : S = (step db o w s).1 in
      let t : Tx F = (step db o w s).2 in
      ap (λ (xs : List (AggregatedPrice F)). rows_of (w.batch ++ xs)) (added-cons o os)
      ∙ ap rows_of (sym (append_assoc w.batch (added (o ∷ [])) (added os)))
      ∙ rows_of-append (w.batch ++ added (o ∷ [])) (added os)
      ∙ ap (λ (xs : List (Row F)). xs ++ rows_of (added os)) (step-Kept o w s).conserved
      ∙ append_assoc (settled (t ∷ [])) (rows_of w1.batch) (rows_of (added os))
      ∙ ap (◌++◌ (settled (t ∷ [])))
          (sym (rows_of-append w1.batch (added os)) ∙ run_conserved os w1 s1)
      ∙ sym (append_assoc (settled (t ∷ [])) (settled (run db os w1 s1).2) _)
      ∙ ap (λ (xs : List (Row F)). xs ++ rows_of (run db os w1 s1).0.batch)
          (sym (settled-cons t (run db os w1 s1).2))

  run_counted :
      (os : List (Op F)) (w : DbWriter F) (s : S)
      → (run db os w s).0.rows_inserted ≡ w.rows_inserted + accepted (run db os w s).2
  unfolding run
  run_counted [] w s = omega arith
  run_counted (o ∷ os) w s =
      let w1 : DbWriter F = (step db o w s).0 in
      let s1 : S = (step db o w s).1 in
      omega (
        arith,
        (step-Kept o w s).counted,
        run_counted os w1 s1,
        accepted-cons (step db o w s).2 (run db os w1 s1).2,
      )

  -- Whatever the database answers, after any adds and flushes from an empty writer: the rows tried in
  -- committed transactions, in order, followed by the rows of the batch are exactly the rows of the
  -- prices that were added. So each added row is, once, among those of a committed transaction whose
  -- insertion gave no error, or among those whose insertion failed there and which are lost, or in the
  -- batch; and the counter of inserted rows is the number of the first.
  pub run-new_conserved :
      (os : List (Op F)) (s : S)
      → let (w, s', ts) = run db os new s in
        (settled ts ++ rows_of w.batch ≡ rows_of (added os))
        × Permᴰ
            (rows_of (added os))
            ((stored (answered ts) ++ lost (answered ts)) ++ rows_of w.batch)
        × (w.rows_inserted ≡ length (stored (answered ts)))
  run-new_conserved os s =
      let (w, s', ts) = run db os new s in
      let all : settled ts ++ rows_of w.batch ≡ rows_of (added os) = sym (run_conserved os new s) in
      (
        all,
        subst (λ xs. Permᴰ xs ((stored (answered ts) ++ lost (answered ts)) ++ rows_of w.batch)) all
            (Permᴰ.append_right (rows_of w.batch) (settled-Permᴰ ts)),
        run_counted os new s ∙ ap (◌+◌ 0) (accepted-stored ts) ∙ omega arith,
      )
