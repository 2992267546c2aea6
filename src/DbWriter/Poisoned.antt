-- ===== src/DbWriter/Poisoned.antt =====
-- One row that services/db-writer/main.go cannot insert, in a batch for PostgreSQL.
use mathlib.Core.List.{Memᴰ, append_assoc, append-nil}
use mathlib.Core.List.Memᴰ.{head, tail, not-nil, append_left}
use termino.Prelude.{
  ◌≡◌, refl, sym, ap, ◌∙◌, ◌≢◌, subst, Bool, false, List, [], ◌∷◌, ◌++◌, Option, none, some, length,
  leb, Bool-cases, inl, inr,
}
use termino.Prelude.Text.{Text}
use termino.Models.{AggregatedPrice}
use termino.DbWriter.{
  Row, Database, DbWriter, Tx, row_of, exec_all, finish, insert_batch, transact, flush_batch, flush,
  add_to_batch, Op, adds, flushes, step, run,
}
use termino.DbWriter.Conserved.{added, settled-cons, added-cons}
use termino.DbWriter.Settled.{settled}

-- Documented of PostgreSQL: an insertion that fails aborts the transaction; in an aborted transaction
-- every insertion fails, and it cannot be committed.
pub record IsPostgres {F S : Type 0} (db : Database F S) (IsAborted : S → Type 0) : Type 0 where
  pub aborts : (r : Row F) (s : S) (e : Text) → (db.exec r s).1 ≡ some e → IsAborted (db.exec r s).0
  pub stays : (r : Row F) (s : S) → IsAborted s → IsAborted (db.exec r s).0
  pub refuses : (s : S) → IsAborted s → (db.commit s).1 ≢ none

-- The row of this price is never taken, say for a symbol of more than ten characters.
pub record IsRefused {F S : Type 0} (db : Database F S) (p : AggregatedPrice F) : Type 0 where
  pub fails : (s : S) → (e : Text) × ((db.exec (row_of p) s).1 ≡ some e)

module _ {F S : Type 0} (db : Database F S) (IsAborted : S → Type 0) (pg : IsPostgres db IsAborted)
    (p : AggregatedPrice F) (refused : IsRefused db p) where
  exec_all_aborted :
      (ps : List (AggregatedPrice F)) (s : S) → IsAborted s → IsAborted (exec_all db ps s).0
  unfolding exec_all
  exec_all_aborted [] s h = h
  exec_all_aborted (q ∷ ps) s h =
      exec_all_aborted ps (db.exec (row_of q) s).0 (pg.stays (row_of q) s h)

  exec_all-IsAborted :
      (ps : List (AggregatedPrice F)) (s : S) → Memᴰ p ps → IsAborted (exec_all db ps s).0
  unfolding exec_all
  exec_all-IsAborted [] s m = absurd (not-nil m)
  exec_all-IsAborted (q ∷ ps) s (head e) = exec_all_aborted ps (db.exec (row_of q) s).0 (
      subst (λ x. IsAborted (db.exec (row_of x) s).0) e
        (pg.aborts (row_of p) s (refused.fails s).0 (refused.fails s).1))
  exec_all-IsAborted (q ∷ ps) s (tail m) = exec_all-IsAborted ps (db.exec (row_of q) s).0 m

  -- A flush of a writer with this batch changed nothing of it, and committed nothing.
  record Stuck (w w' : DbWriter F) (t : Tx F) : Type 0 where
    same : w' ≡ w
    nothing : settled (t ∷ []) ≡ []

  finish-Stuck :
      (w : DbWriter F) (rs : List (Row F × Option Text)) (r : S × Option Text)
      → r.1 ≢ none
      → Stuck w (finish db w rs r).0 (finish db w rs r).2
  unfolding finish
  finish-Stuck w rs (s, none) h = absurd (h refl)
  finish-Stuck w rs (s, some e) h = record { same = refl; nothing = refl }

  insert_batch-Stuck :
      (w : DbWriter F) (r : S × Option Text)
      → Memᴰ p w.batch
      → Stuck w (insert_batch db w r).0 (insert_batch db w r).2
  unfolding insert_batch
  insert_batch-Stuck w (s, none) m =
      finish-Stuck w (exec_all db w.batch s).1 (db.commit (exec_all db w.batch s).0)
        (pg.refuses _ (exec_all-IsAborted w.batch s m))
  insert_batch-Stuck w (s, some e) m = record { same = refl; nothing = refl }

  transact-Stuck :
      (w : DbWriter F) (r : S × Option Text)
      → Memᴰ p w.batch
      → Stuck w (transact db w r).0 (transact db w r).2
  unfolding transact
  transact-Stuck w (s, none) m = insert_batch-Stuck w (db.prepare s) m
  transact-Stuck w (s, some e) m = record { same = refl; nothing = refl }

  flush_batch-Stuck :
      (c : Bool) (ps : List (AggregatedPrice F)) (w : DbWriter F) (s : S)
      → Memᴰ p w.batch
      → Stuck w (flush_batch db c ps w s).0 (flush_batch db c ps w s).2
  unfolding flush_batch
  flush_batch-Stuck c [] w s m = record { same = refl; nothing = refl }
  flush_batch-Stuck c (q ∷ ps) w s m = transact-Stuck w (db.begin_tx c s) m

  abbrev with_added : Op F → DbWriter F → DbWriter F
  with_added (adds q) w = record w { batch = w.batch ++ q ∷ [] }
  with_added (flushes c) w = w

  step-Stuck :
      (o : Op F) (w : DbWriter F) (s : S)
      → Memᴰ p w.batch
      → Stuck (with_added o w) (step db o w s).0 (step db o w s).2
  unfolding step flush add_to_batch
  step-Stuck (flushes c) w s m = flush_batch-Stuck c w.batch w s m
  step-Stuck (adds q) w s m = elim (Bool-cases (leb 100 (length (w.batch ++ q ∷ [])))) [
    | inl e ↦ rw e (
        flush_batch-Stuck false (w.batch ++ q ∷ []) (with_added (adds q) w) s
          (append_left (q ∷ []) m))
    | inr e ↦ rw e (record { same = refl; nothing = refl })
  ]

  with_added-batch :
      (o : Op F) (w : DbWriter F) → (with_added o w).batch ≡ w.batch ++ added (o ∷ [])
  with_added-batch (adds q) w = refl
  with_added-batch (flushes c) w = sym (append-nil w.batch)

  -- Documented of lib/pq and PostgreSQL is `IsPostgres`. Once the batch holds a price whose row is
  -- always refused, no later adds and flushes commit any row: every price that comes stays in the
  -- batch, behind those that were there.
  pub run-poisoned :
      (os : List (Op F)) (w : DbWriter F) (s : S)
      → Memᴰ p w.batch
      → (settled (run db os w s).2 ≡ []) × ((run db os w s).0.batch ≡ w.batch ++ added os)
  unfolding run
  run-poisoned [] w s m = (refl, sym (append-nil w.batch))
  run-poisoned (o ∷ os) w s m =
      let (w1, s1, t) = step db o w s in
      let stuck = step-Stuck o w s m in
      let batch : w1.batch ≡ w.batch ++ added (o ∷ []) =
        ap (λ x. x.batch) stuck.same ∙ with_added-batch o w in
      let (none_settled, kept) =
        run-poisoned os w1 s1 (subst (Memᴰ p) (sym batch) (append_left (added (o ∷ [])) m)) in
      (
        settled-cons t (run db os w1 s1).2
            ∙ ap (λ xs. xs ++ settled (run db os w1 s1).2) stuck.nothing
            ∙ none_settled,
        kept
            ∙ ap (λ xs. xs ++ added os) batch
            ∙ append_assoc w.batch (added (o ∷ [])) (added os)
            ∙ ap (◌++◌ w.batch) (sym (added-cons o os)),
      )
