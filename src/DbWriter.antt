-- ===== src/DbWriter.antt =====
-- services/db-writer/main.go: prices are batched and written in transactions. The database is an
-- interface over a state `S`; each flush is recorded as a transaction.
pub mod Settled
pub mod Conserved
pub mod Ticker
pub mod Shutdown
pub mod Bounded
pub mod Service
pub mod Poisoned
use termino.Prelude.{
  ℕ, ◌+◌, Bool, true, false, List, [], ◌∷◌, ◌++◌, Option, none, some, length, leb, if◌then◌else◌,
}
use termino.Prelude.Int.{ℤ}
use termino.Prelude.Text.{Text}
use termino.Models.{AggregatedPrice}

-- The columns that are inserted.
pub record Row (F : Type 0) : Type 0 where
  pub symbol : Text
  pub price : F
  pub avg_price : F
  pub high_price : F
  pub low_price : F
  pub change_pct : F
  pub volume : F
  pub timestamp : ℤ

-- The calls of `database/sql`, which answer with an error or none. The context of `BeginTx` is done
-- or not.
pub record Database (F S : Type 0) : Type 0 where
  pub begin_tx : Bool → S → S × Option Text
  pub prepare : S → S × Option Text
  pub exec : Row F → S → S × Option Text
  pub rollback : S → S
  pub commit : S → S × Option Text

pub record DbWriter (F : Type 0) : Type 0 where
  pub batch : List (AggregatedPrice F)
  pub rows_inserted : ℕ
  pub batches_written : ℕ

-- What one flush did: the rows with the answers to their insertion, and the answer to the commit.
pub data Tx (F : Type 0) : Type 0 where
  skipped not_begun not_prepared : Tx F
  tried : List (Row F × Option Text) → Option Text → Tx F

abbrev pub row_of : {F : Type 0} → AggregatedPrice F → Row F
row_of p = record {
  symbol = p.symbol;
  price = p.price;
  avg_price = p.avg_price;
  high_price = p.high_price;
  low_price = p.low_price;
  change_pct = p.change_pct;
  volume = p.volume;
  timestamp = p.timestamp;
}

abbrev pub new : {F : Type 0} → DbWriter F
new = record { batch = []; rows_inserted = 0; batches_written = 0 }

-- The rows that were inserted without an error.
pub inserted : {F : Type 0} → List (Row F × Option Text) → ℕ
inserted [] = 0
inserted ((r, none) ∷ rs) = inserted rs + 1
inserted ((r, some e) ∷ rs) = inserted rs

module _ {F S : Type 0} (db : Database F S) where
  pub exec_all : List (AggregatedPrice F) → S → S × List (Row F × Option Text)
  exec_all [] s = (s, [])
  exec_all (p ∷ ps) s =
      let (s1, e) = db.exec (row_of p) s in
      let (s2, rs) = exec_all ps s1 in (s2, (row_of p, e) ∷ rs)

  pub finish : DbWriter F → List (Row F × Option Text) → S × Option Text → DbWriter F × S × Tx F
  unfolding inserted
  finish w rs (s, some e) = (w, s, tried rs (some e))
  finish w rs (s, none) = (
    record {
      batch = [];
      rows_inserted = w.rows_inserted + inserted rs;
      batches_written = w.batches_written + 1;
    },
    s,
    tried rs none,
  )

  pub insert_batch : DbWriter F → S × Option Text → DbWriter F × S × Tx F
  unfolding exec_all finish
  insert_batch w (s, some e) = (w, db.rollback s, not_prepared)
  insert_batch w (s, none) = let (s1, rs) = exec_all w.batch s in finish w rs (db.commit s1)

  pub transact : DbWriter F → S × Option Text → DbWriter F × S × Tx F
  unfolding insert_batch
  transact w (s, some e) = (w, s, not_begun)
  transact w (s, none) = insert_batch w (db.prepare s)

  pub flush_batch : Bool → List (AggregatedPrice F) → DbWriter F → S → DbWriter F × S × Tx F
  unfolding transact
  flush_batch cancelled [] w s = (w, s, skipped)
  flush_batch cancelled (p ∷ ps) w s = transact w (db.begin_tx cancelled s)

  unfoldable pub flush : Bool → DbWriter F → S → DbWriter F × S × Tx F
  unfolding flush_batch
  flush cancelled w s = flush_batch cancelled w.batch w s

  -- A full batch is flushed in the background context, which is never done.
  unfoldable pub add_to_batch : AggregatedPrice F → DbWriter F → S → DbWriter F × S × Tx F
  unfolding flush
  add_to_batch price w s =
      let w' = record w { batch = w.batch ++ price ∷ [] } in
      if leb 100 (length w'.batch) then flush false w' s else (w', s, skipped)

-- The calls that the consumer and the ticker make, in the order of the lock.
pub data Op (F : Type 0) : Type 0 where
  adds : AggregatedPrice F → Op F
  flushes : Bool → Op F

module _ {F S : Type 0} (db : Database F S) where
  pub step : Op F → DbWriter F → S → DbWriter F × S × Tx F
  step (adds p) = add_to_batch db p
  step (flushes cancelled) = flush db cancelled

  unfoldable pub run : List (Op F) → DbWriter F → S → DbWriter F × S × List (Tx F)
  unfolding step
  run [] w s = (w, s, [])
  run (o ∷ os) w s =
      let (w1, s1, t) = step o w s in let (w2, s2, ts) = run os w1 s1 in (w2, s2, t ∷ ts)
