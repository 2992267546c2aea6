-- ===== src/DbWriter/Ticker.antt =====
-- services/db-writer/main.go: the goroutine that flushes, the context of the service, and the prices
-- that the consumer hands over in between.
use termino.Prelude.{Bool, true, false, List, [], ◌∷◌}
use termino.DbWriter.{Database, DbWriter, Tx, skipped, new, add_to_batch, flush}
use termino.Models.{AggregatedPrice}

-- `stops` is the turn of the loop whose `select` takes `ctx.Done()`; with a context that is done it may
-- still take the ticker first.
pub data Event (F : Type 0) : Type 0 where
  arrives : AggregatedPrice F → Event F
  cancels ticks stops : Event F

pub record Service (F : Type 0) : Type 0 where
  pub writer : DbWriter F
  pub is_done : Bool
  pub is_looping : Bool

abbrev pub start : {F : Type 0} → Service F
start = record { writer = new; is_done = false; is_looping = true }

module _ {F S : Type 0} (db : Database F S) where
  -- The writer and the state of the database after a call.
  abbrev with_writer : Service F → DbWriter F × S × Tx F → Service F × S × Tx F
  with_writer v (w, s, t) = (record v { writer = w }, s, t)

  -- The turn for `ctx.Done()` flushes in the context that is done, and returns.
  unfoldable pub stop : Bool → Bool → Service F → S → Service F × S × Tx F
  stop true true v s =
      let (v', s', t) = with_writer v (flush db v.is_done v.writer s) in
      (record v' { is_looping = false }, s', t)
  stop _ _ v s = (v, s, skipped)

  unfoldable pub tick : Bool → Service F → S → Service F × S × Tx F
  tick true v s = with_writer v (flush db v.is_done v.writer s)
  tick false v s = (v, s, skipped)

  unfoldable pub turn : Event F → Service F → S → Service F × S × Tx F
  unfolding stop tick
  turn (arrives p) v s = with_writer v (add_to_batch db p v.writer s)
  turn cancels v s = (record v { is_done = true }, s, skipped)
  turn ticks v s = tick v.is_looping v s
  turn stops v s = stop v.is_looping v.is_done v s

  unfoldable pub serve : List (Event F) → Service F → S → Service F × S × List (Tx F)
  unfolding turn
  serve [] v s = (v, s, [])
  serve (e ∷ es) v s =
      let (v1, s1, t) = turn e v s in let (v2, s2, ts) = serve es v1 s1 in (v2, s2, t ∷ ts)
