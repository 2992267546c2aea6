-- ===== src/Examples/Terminal.antt =====
-- The theorems on cli/crypto-stream/ui applied to a few keys, prices and alerts.
use termino.Prelude.{
  map, ◌++◌, ltb, length, ◌-◌, if◌then◌else◌, ◌≤◌, ◌≡◌, refl, List, [], ◌∷◌, take,
}
use termino.Prelude.Int.{pos}
use termino.Prelude.Text.{Text, codes}
use termino.Float.Fixed.{Cents, fixed_float}
use termino.Models.{AggregatedPrice, PriceAlert}
use termino.Cli.{Table, Msg, arrived, err_msg, connect, tick_soon, Look}
use termino.Cli.Prices.{PriceModel, Running, Gives, streamed, failed, init_cmds, update}
use termino.Cli.Prices
use termino.Cli.Prices.Frozen.{Reach, start, finish, feed, prices_at_most_two}
use termino.Cli.Alerts
use termino.Cli.Windows.{run_alerts, came, newest_first}
use termino.Cli.AlertsView.{AlertStyles, alert_box, more_line, boxes}
use termino.Cli.AlertsView.Shown.{boxes-run_alerts}
use termino.Examples.{btc, eth, aggregate, notice}

abbrev pub plain : Look
plain = record {
  green = λ s. s;
  red = λ s. s;
  dim = λ s. s;
  date = λ t. [];
  clock = λ t. codes "12:00:00";
}

-- A table that keeps its rows, and asks for nothing.
abbrev rows : Table (Msg (AggregatedPrice Cents)) (List (List Text))
rows = record { set_rows = λ rs t. rs; update = λ m t. (t, []); view = λ t. [] }

abbrev started : Running Cents (List (List Text))
started = record { model = Prices.new plain rows [] (btc ∷ []); pending = init_cmds plain rows }

abbrev shown : Running Cents (List (List Text))
shown = feed plain rows (pos 7) (arrived (aggregate btc 5000)) started.model (tick_soon ∷ [])

one_price : Reach plain rows [] (btc ∷ []) 1 shown
one_price =
    finish (start started refl) (pos 7) [] (tick_soon ∷ []) connect (arrived (aggregate btc 5000)) 1
      shown refl (streamed (aggregate btc 5000)) refl refl

prices_at_most_two_example : 1 ≤ 2
prices_at_most_two_example =
    prices_at_most_two plain rows [] (btc ∷ []) 1 shown (λ msg t. refl) one_price

abbrev alerted : List (Msg (PriceAlert Cents))
alerted = arrived (notice btc 5000) ∷ err_msg (codes "EOF") ∷ arrived (notice eth 300) ∷ []

abbrev framed : AlertStyles
framed = record { title = λ s. s; dim = λ s. s; symbol = λ s. s; box = λ s. s }

boxes-run_alerts_example :
    let newest = newest_first (came alerted) [] in
    let kept = take 50 newest in
    boxes plain framed (run_alerts alerted Alerts.new).alerts
    ≡ map (alert_box plain framed) (take 15 newest)
      ++ (if ltb 15 (length kept) then more_line framed (length kept - 15) ∷ [] else [])
boxes-run_alerts_example = boxes-run_alerts plain framed alerted
