-- ===== src/Cli/Watch.antt =====
-- cli/crypto-stream/ui/watch.go: the view of one symbol, with the last 60 prices.
use termino.Prelude.{
  Bool, true, false, List, [], ◌∷◌, ◌++◌, Option, none, some, length, drop, ltb, if◌then◌else◌,
}
use termino.Prelude.Text.{Text}
use termino.Models.{AggregatedPrice}
use termino.Cli.{Msg, key, arrived, err_msg, tick, Cmd, quit, connect, tick_later, quits}

pub record WatchModel (F : Type 0) : Type 0 where
  pub symbol : Text
  pub price : Option (AggregatedPrice F)
  pub history : List F
  pub connected : Bool
  pub err : Option Text

module _ {F : Type 0} where
  abbrev pub new : Text → WatchModel F
  new symbol = record { symbol = symbol; price = none; history = []; connected = false; err = none }

  abbrev pub init_cmds : WatchModel F → List Cmd
  init_cmds m = connect ∷ []

  -- At most 60 prices are kept: the first one goes.
  unfoldable pub remember : List F → F → List F
  remember history p =
      let history' = history ++ p ∷ [] in
      if ltb 60 (length history') then drop 1 history' else history'

  unfoldable pub update : Msg (AggregatedPrice F) → WatchModel F → WatchModel F × List Cmd
  unfolding remember
  update (key k) m = if quits k then (m, quit ∷ []) else (m, [])
  update (arrived p) m = (
    record m { price = some p; connected = true; history = remember m.history p.price },
    connect ∷ [],
  )
  update (err_msg e) m = (record m { err = some e; connected = false }, tick_later ∷ [])
  update tick m = (m, connect ∷ [])
