-- ===== src/Examples/Views.antt =====
-- The theorems on the views of cli/crypto-stream/ui and on what they read, applied to a few prices
-- and texts.
use mathlib.Core.List.{Permᴰ}
use termino.Prelude.{◌≡◌, ◌≢◌, refl, Bool, true, List, [], ◌∷◌, none, arith}
use termino.Prelude.Int.{◌-ℤ◌}
use termino.Prelude.Text.{Text, codes, text_eq, text_beq_iff}
use termino.Float.Fixed.{Cents, nan, cents, lift, fixed_float}
use termino.Float.Fixed.Range.{fixed_range}
use termino.Models.{AggregatedPrice}
use termino.Streaming.{price_frame, alert_frame}
use termino.Cli.Events.{body, message_or, connect_sse, connect_alert_sse, connect_table_sse}
use termino.Cli.Events.Frames.{Fit, frames, first_decoded, connect_sse-frames}
use termino.Cli.{Msg, key, arrived, Table}
use termino.Cli.Sparkline.Small.{AreSmall, IsDrawn}
use termino.Cli.Watch.{new}
use termino.Cli.Windows.{run_watch}
use termino.Cli.WatchView
use termino.Cli.WatchView.{WatchStyles}
use termino.Cli.History
use termino.Cli.Drawn.{views-IsDrawn}
use termino.Cli.History.{HistoryModel, HistoryMsg}
use termino.Cli.Prices.{PriceModel, update_table}
use termino.Cli.Prices.Sorted.{IsListed, update_table-stable}
use termino.Prelude.GoMap.{SameEntries}
use termino.Examples.{btc, eth, aggregate, naming}
use termino.Examples.Terminal.{plain}

-- A scanner that takes lines of any length.
abbrev any : Text → Bool
any l = true

any-Fit : (text : Text) → Fit any text
any-Fit text = record { blank = refl; event = refl; line = refl }

connect_sse-frames_example :
    (connect_sse naming any (body (frames price_frame (btc ∷ eth ∷ [])) none)
      ≡ message_or naming (codes "stream closed") (first_decoded naming (btc ∷ eth ∷ [])))
    × (connect_table_sse naming any (body (frames price_frame (btc ∷ eth ∷ [])) none)
        ≡ message_or naming (codes "stream closed") (first_decoded naming (btc ∷ eth ∷ [])))
    × (connect_alert_sse naming any (body (frames alert_frame (btc ∷ eth ∷ [])) none)
        ≡ message_or naming (codes "alert stream closed") (first_decoded naming (btc ∷ eth ∷ [])))
connect_sse-frames_example =
    connect_sse-frames naming any (btc ∷ eth ∷ []) (refl, (refl, tt))
      (any-Fit btc, (any-Fit eth, tt))

abbrev watched : WatchStyles
watched = record {
  title = λ s. s;
  big_price = λ s. s;
  box = λ s. s;
  label = λ s. s;
  value = λ s. s;
}

-- A table that keeps nothing.
abbrev blank : Table (HistoryMsg Cents) (List Text)
blank = record { set_rows = λ rs t. t; update = λ m t. (t, []); view = λ t. [] }

abbrev seen : List (Msg (AggregatedPrice Cents))
seen =
    arrived (aggregate btc 5000)
    ∷ key (codes "x")
    ∷ arrived (aggregate btc 4900)
    ∷ arrived (aggregate btc 5100)
    ∷ []

abbrev past : HistoryModel Cents (List Text)
past = record {
  table = [];
  symbol = btc;
  prices = aggregate btc 5000 ∷ aggregate btc 5200 ∷ [];
  err = none;
}

numbers-AreSmall : AreSmall fixed_range (λ a. a ≢ nan)
unfolding fixed_range fixed_float
numbers-AreSmall = record { finite = λ a h. h; difference = difference }
  where
    difference : (a b : Cents) → a ≢ nan → b ≢ nan → lift ◌-ℤ◌ a b ≢ nan
    difference nan b h k = absurd (h refl)
    difference (cents a) nan h k = absurd (k refl)
    difference (cents a) (cents b) h k = λ e. cc

views-IsDrawn_example :
    IsDrawn (WatchView.view plain watched (run_watch seen (new btc)))
    × IsDrawn (History.view plain blank (λ s. s) past)
views-IsDrawn_example =
    views-IsDrawn fixed_range (λ a. a ≢ nan) plain watched btc seen blank (λ s. s) past
      numbers-AreSmall ((λ e. cc), ((λ e. cc), ((λ e. cc), tt))) ((λ e. cc), ((λ e. cc), tt))

-- A table that keeps its rows.
abbrev Rows : Type 0
Rows = List (List Text)

abbrev plain_table : Table (Msg (AggregatedPrice Cents)) Rows
plain_table = record { set_rows = λ rs t. rs; update = λ m t. (t, []); view = λ t. [] }

abbrev listing : List Text → List (Text × AggregatedPrice Cents) → PriceModel Cents Rows
listing symbols prices = record {
  table = [];
  prices = prices;
  symbols = symbols;
  err = none;
  connected = true;
  last_update = none;
}

abbrev eth_first : PriceModel Cents Rows
eth_first = listing (eth ∷ btc ∷ []) ((eth, aggregate eth 300) ∷ (btc, aggregate btc 5000) ∷ [])

abbrev btc_first : PriceModel Cents Rows
btc_first = listing (btc ∷ eth ∷ []) ((btc, aggregate btc 5000) ∷ (eth, aggregate eth 300) ∷ [])

listings-SameEntries : SameEntries eth_first.prices btc_first.prices
listings-SameEntries k = ground (arith, text_beq_iff eth k, text_beq_iff btc k)

update_table-stable_example :
    IsListed plain plain_table eth_first (update_table plain plain_table eth_first).table
    × ((update_table plain plain_table eth_first).table
        ≡ (update_table plain plain_table btc_first).table)
update_table-stable_example =
    update_table-stable plain plain_table eth_first btc_first (Permᴰ.swap refl refl)
      listings-SameEntries refl
