-- ===== src/Cli/WatchView.antt =====
-- `View` of cli/crypto-stream/ui/watch.go. The styles of lipgloss are parameters; `none` is a panic.
pub mod Drawn
use termino.Prelude.{Bool, List, [], ◌∷◌, ◌++◌, Option, none, some, length, ltb, if◌then◌else◌}
use termino.Prelude.Int.{pos}
use termino.Prelude.Decimal.{itoa}
use termino.Prelude.Text.{Text, codes}
use termino.Float.{Float}
use termino.Models.{AggregatedPrice}
use termino.Cli.{Look, format_price, format_volume}
use termino.Cli.Watch.{WatchModel}
use termino.Cli.Sparkline.{render_sparkline}

pub record WatchStyles : Type 0 where
  pub title : Text → Text
  pub big_price : Text → Text
  pub box : Text → Text
  pub label : Text → Text
  pub value : Text → Text

abbrev newline : Text
newline = 10 ∷ []

pub row : WatchStyles → Text → Text → Text
row st label value = st.label (label ++ codes ":") ++ codes " " ++ st.value value ++ newline

-- The chart, which is drawn of two prices at least.
chart_lines : Option Text → Option Text
chart_lines none = none
chart_lines (some chart) =
    some (codes "  Price History (last 60 updates):" ++ newline ++ codes "  " ++ chart ++ newline)

waiting : Look → Option Text → Text
waiting look none = look.dim (codes "  Waiting for data..." ++ newline)
waiting look (some e) = look.red (codes "  Connection error: " ++ e ++ newline)

status : Look → Bool → Text
status look connected =
    if connected
    then look.green (codes "  " ++ 0x25cf ∷ codes " LIVE")
    else look.red (codes "  " ++ 0x25cf ∷ codes " DISCONNECTED")

titled : WatchStyles → Text → Option Text → Option Text
titled st symbol none = none
titled st symbol (some text) =
    some (st.title (codes " WATCHING " ++ symbol ++ codes " ") ++ newline ++ newline ++ text)

module _ {F : Type 0} ⦃fl : Float F⦄ (look : Look) (st : WatchStyles) where
  price_text : AggregatedPrice F → Text
  price_text p =
      let dir =
        if fl.lt p.change_pct (fl.of_nat 0)
        then look.red (0x25bc ∷ [])
        else look.green (0x25b2 ∷ []) in
      if fl.lt p.price (fl.of_nat 1)
      then codes "$" ++ fl.fixed 6 p.price ++ codes " " ++ dir
      else codes "$" ++ fl.fixed 2 p.price ++ codes " " ++ dir

  change_text : F → Text
  change_text pct =
      let text = fl.fixed 2 pct ++ codes "%" in
      if fl.lt (fl.of_nat 0) pct then look.green (codes "+" ++ text) else look.red text

  pub details : AggregatedPrice F → Text
  unfolding row change_text
  details p =
      row st (codes "Average Price") (format_price p.avg_price)
      ++ row st (codes "24h High") (format_price p.high_price)
      ++ row st (codes "24h Low") (format_price p.low_price)
      ++ row st (codes "Change") (change_text p.change_pct)
      ++ row st (codes "Volume") (format_volume p.volume)
      ++ row st (codes "Exchanges") (itoa p.exchange_count)
      ++ row st (codes "Updated") (look.clock p.timestamp)

  pub chart : List F → Option Text
  unfolding chart_lines
  chart history =
      if ltb 1 (length history) then chart_lines (render_sparkline look history) else some []

  with_chart : Bool → AggregatedPrice F → Option Text → Option Text
  unfolding price_text details status
  with_chart connected p none = none
  with_chart connected p (some drawn) = some (
      st.big_price (price_text p)
      ++ newline
      ++ newline
      ++ st.box (details p)
      ++ newline
      ++ newline
      ++ drawn
      ++ newline
      ++ status look connected
      ++ look.dim (codes "  |  Press q to quit"))

  pub body : WatchModel F → Option (AggregatedPrice F) → Option Text
  unfolding waiting with_chart chart
  body m none = some (waiting look m.err ++ look.dim (newline ++ codes "  Press q to quit"))
  body m (some p) = with_chart m.connected p (chart m.history)

  unfoldable pub view : WatchModel F → Option Text
  unfolding body titled
  view m = titled st m.symbol (body m m.price)
