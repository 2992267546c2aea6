-- ===== src/Cli/Alerts.antt =====
-- cli/crypto-stream/ui/alerts.go: the alerts, the newest first, 50 at most.
use termino.Prelude.{
  Bool, true, false, List, [], ◌∷◌, Option, none, some, length, take, ltb, if◌then◌else◌,
}
use termino.Prelude.Text.{Text}
use termino.Models.{PriceAlert}
use termino.Cli.{Msg, key, arrived, err_msg, tick, Cmd, quit, connect, tick_later, quits}

pub record AlertModel (F : Type 0) : Type 0 where
  pub alerts : List (PriceAlert F)
  pub connected : Bool
  pub err : Option Text

module _ {F : Type 0} where
  abbrev pub new : AlertModel F
  new = record { alerts = []; connected = false; err = none }

  abbrev pub init_cmds : AlertModel F → List Cmd
  init_cmds m = connect ∷ []

  unfoldable pub remember : PriceAlert F → List (PriceAlert F) → List (PriceAlert F)
  remember a alerts =
      let alerts' = a ∷ alerts in if ltb 50 (length alerts') then take 50 alerts' else alerts'

  unfoldable pub update : Msg (PriceAlert F) → AlertModel F → AlertModel F × List Cmd
  unfolding remember
  update (key k) m = if quits k then (m, quit ∷ []) else (m, [])
  update (arrived a) m = (record m { alerts = remember a m.alerts; connected = true }, connect ∷ [])
  update (err_msg e) m = (record m { err = some e; connected = false }, tick_later ∷ [])
  update tick m = (m, connect ∷ [])
