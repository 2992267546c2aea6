-- ===== src/DbWriter/Bounded.antt =====
-- The length of the batch of services/db-writer/main.go.
use termino.Prelude.{
  suc, ◌<◌, ◌≤◌, ◌≡◌, refl, ap, Bool, false, List, [], ◌∷◌, ◌++◌, Option, none, some, length,
  length-append, leb, arith, Bool-cases, inl, inr,
}
use termino.Prelude.Text.{Text}
use termino.Models.{AggregatedPrice}
use termino.DbWriter.Conserved.{rows_of, flush_batch-Kept}
use termino.DbWriter.Settled.{settled}
use termino.DbWriter.{
  Row, Database, DbWriter, new, exec_all, finish, insert_batch, transact, flush_batch, flush,
  add_to_batch, Op, adds, flushes, step, run,
}

-- Transactions begin in a context that is not done, are prepared and committed. Insertions may fail.
pub record IsWorking {F S : Type 0} (db : Database F S) : Type 0 where
  pub begins : (s : S) → (db.begin_tx false s).1 ≡ none
  pub prepares : (s : S) → (db.prepare s).1 ≡ none
  pub commits : (s : S) → (db.commit s).1 ≡ none

module _ {F S : Type 0} (db : Database F S) where
  finish_empty :
      (w : DbWriter F) (rs : List (Row F × Option Text)) (r : S × Option Text)
      → r.1 ≡ none
      → (finish db w rs r).0.batch ≡ []
  unfolding finish
  finish_empty w rs (s, none) h = refl
  finish_empty w rs (s, some e) h = cc

  insert_batch_empty :
      (w : DbWriter F) (r : S × Option Text)
      → IsWorking db
      → r.1 ≡ none
      → (insert_batch db w r).0.batch ≡ []
  unfolding insert_batch
  insert_batch_empty w (s, none) k h =
      finish_empty w (exec_all db w.batch s).1 (db.commit (exec_all db w.batch s).0) (k.commits _)
  insert_batch_empty w (s, some e) k h = cc

  transact_empty :
      (w : DbWriter F) (r : S × Option Text)
      → IsWorking db
      → r.1 ≡ none
      → (transact db w r).0.batch ≡ []
  unfolding transact
  transact_empty w (s, none) k h = insert_batch_empty w (db.prepare s) k (k.prepares s)
  transact_empty w (s, some e) k h = cc

  flush_empty :
      (ps : List (AggregatedPrice F)) (w : DbWriter F) (s : S)
      → IsWorking db
      → w.batch ≡ ps
      → (flush_batch db false ps w s).0.batch ≡ []
  unfolding flush_batch
  flush_empty [] w s k h = h
  flush_empty (p ∷ ps) w s k h = transact_empty w (db.begin_tx false s) k (k.begins s)

  length-rows_of : (ps : List (AggregatedPrice F)) → length (rows_of ps) ≡ length ps
  length-rows_of [] = refl
  length-rows_of (p ∷ ps) = ap suc (length-rows_of ps)

  -- No flush in any context makes the batch longer.
  flush_short :
      (c : Bool) (w : DbWriter F) (s : S)
      → length (flush_batch db c w.batch w s).0.batch ≤ length w.batch
  flush_short c w s =
      let (w', s', t) = flush_batch db c w.batch w s in
      omega (
        arith,
        ap length (flush_batch-Kept db c w.batch w s).conserved,
        length-append (settled (t ∷ [])) (rows_of w'.batch),
        length-rows_of w.batch,
        length-rows_of w'.batch,
      )

  add_short :
      (p : AggregatedPrice F) (w : DbWriter F) (s : S)
      → IsWorking db
      → length w.batch < 100
      → length (add_to_batch db p w s).0.batch < 100
  unfolding add_to_batch flush
  add_short p w s k h = elim (Bool-cases (leb 100 (length (w.batch ++ p ∷ [])))) [
    | inl e ↦
        rw e
          (full (flush_empty (w.batch ++ p ∷ []) (record w { batch = w.batch ++ p ∷ [] }) s k refl))
    | inr e ↦ rw e (ground arith)
  ]
    where
      full : {xs : List (AggregatedPrice F)} → xs ≡ [] → length xs < 100
      full f = omega (arith, ap length f)

  step_short :
      (o : Op F) (w : DbWriter F) (s : S)
      → IsWorking db
      → length w.batch < 100
      → length (step db o w s).0.batch < 100
  unfolding step flush
  step_short (adds p) w s k h = add_short p w s k h
  step_short (flushes c) w s k h = omega (arith, flush_short c w s)

  run_short :
      (os : List (Op F)) (w : DbWriter F) (s : S)
      → IsWorking db
      → length w.batch < 100
      → length (run db os w s).0.batch < 100
  unfolding run
  run_short [] w s k h = h
  run_short (o ∷ os) w s k h =
      run_short os (step db o w s).0 (step db o w s).1 k (step_short o w s k h)

  -- With a database that begins every transaction in a context that is not done, and prepares and
  -- commits every transaction, any adds and flushes leave from an empty writer fewer than 100 prices in
  -- the batch; the insertions may fail.
  pub run_bounded :
      (os : List (Op F)) (s : S) → IsWorking db → length (run db os new s).0.batch < 100
  run_bounded os s k = run_short os new s k (omega arith)
