-- ===== src/Cli/Drawn.antt =====
-- The views of cli/crypto-stream/ui/watch.go and history.go over small prices.
use termino.Prelude.{subst, sym, List, All, All-drop, length, ◌-◌}
use termino.Prelude.Text.{Text}
use termino.Float.{Float, FloatOrder, FloatRange}
use termino.Models.{AggregatedPrice}
use termino.Cli.{Msg, Look, Table}
use termino.Cli.Sparkline.Small.{AreSmall, IsDrawn}
use termino.Cli.Watch.{new}
use termino.Cli.Windows.{run_watch, came, prices_of, run_watch-history}
use termino.Cli.WatchView
use termino.Cli.WatchView.{WatchStyles}
use termino.Cli.History
use termino.Cli.History.{HistoryModel, HistoryMsg}

-- Where the prices that came have finite differences, neither view panics: the one of one symbol after
-- any messages, and the one of the history in any state with such prices.
pub views-IsDrawn :
    {F : Type 0} ⦃fl : Float F⦄ {o : FloatOrder fl} (r : FloatRange o) (IsSmall : F → Type 0)
    (look : Look) (st : WatchStyles) (symbol : Text) (ms : List (Msg (AggregatedPrice F)))
    {T : Type 0} (tb : Table (HistoryMsg F) T) (title : Text → Text) (m : HistoryModel F T)
    → AreSmall r IsSmall
    → All IsSmall (prices_of (came ms))
    → All IsSmall (prices_of m.prices)
    → IsDrawn (WatchView.view look st (run_watch ms (new symbol)))
      × IsDrawn (History.view look tb title m)
views-IsDrawn r IsSmall look st symbol ms tb title m small h k = (
  WatchView.Drawn.view-IsDrawn r IsSmall small look st (run_watch ms (new symbol)) (
      subst (All IsSmall) (sym (run_watch-history ms symbol))
        (All-drop IsSmall (length (prices_of (came ms)) - 60) (prices_of (came ms)) h)),
  History.Drawn.view-IsDrawn r IsSmall small look tb title m k,
)
