-- ===== src/Cli.antt =====
-- cli/crypto-stream/ui: what the terminal programs share. `fmt`, `lipgloss` and the clock are taken
-- as the functions of a `Look`.
pub mod Prices
pub mod Watch
pub mod Alerts
pub mod Windows
pub mod AlertsView
pub mod WatchView
pub mod PricesView
pub mod History
pub mod Events
pub mod Main
pub mod Sparkline
pub mod Drawn
use termino.Prelude.{
  Bool, true, false, ◌||◌, List, [], ◌∷◌, ◌++◌, Option, none, some, if◌then◌else◌, ◌==◌,
}
use termino.Prelude.Int.{ℤ}
use termino.Prelude.Text.{Text, text_eq, codes}
use termino.Float.{Float}
use termino.Models.{AggregatedPrice, PriceAlert}

-- The messages of bubbletea that `Update` meets. The programs get prices or alerts of type `A`.
pub data Msg (A : Type 0) : Type 0 where
  key : Text → Msg A
  arrived : A → Msg A
  err_msg : Text → Msg A
  tick : Msg A

-- The commands: to quit, to connect and read one event, to fetch the history, a tick soon, and a
-- tick after a pause.
pub data Cmd : Type 0 where
  quit connect fetch tick_soon tick_later : Cmd

pub record Look : Type 0 where
  pub green : Text → Text
  pub red : Text → Text
  pub dim : Text → Text
  -- The time of day of Unix seconds, and the day with the time.
  pub clock : ℤ → Text
  pub date : ℤ → Text

abbrev pub quits : Text → Bool
quits k = k == codes "q" || k == codes "ctrl+c" || k == codes "esc"

-- The table of bubbles, over a state `T` and the messages `M` of the program.
pub record Table (M T : Type 0) : Type 0 where
  pub set_rows : List (List Text) → T → T
  pub update : M → T → T × List Cmd
  pub view : T → Text

module _ {F : Type 0} ⦃fl : Float F⦄ where
  -- `formatPrice` of prices.go.
  unfoldable pub format_price : F → Text
  format_price p =
      if fl.le (fl.of_nat 1000) p
      then codes "$" ++ fl.fixed 2 p
      else if fl.le (fl.of_nat 1) p
      then codes "$" ++ fl.fixed 4 p
      else codes "$" ++ fl.fixed 6 p

  -- `formatVolume` of prices.go.
  unfoldable pub format_volume : F → Text
  format_volume v =
      if fl.le (fl.of_nat 1000000000) v
      then fl.fixed 2 (fl.div v (fl.of_nat 1000000000)) ++ codes "B"
      else if fl.le (fl.of_nat 1000000) v
      then fl.fixed 2 (fl.div v (fl.of_nat 1000000)) ++ codes "M"
      else if fl.le (fl.of_nat 1000) v
      then fl.fixed 2 (fl.div v (fl.of_nat 1000)) ++ codes "K"
      else fl.fixed 2 v
