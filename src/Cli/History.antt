-- ===== src/Cli/History.antt =====
-- cli/crypto-stream/ui/history.go: one request for the history, its table and its chart. `http` and
-- the decoding of the body are parameters.
pub mod Chart
pub mod Drawn
use termino.Prelude.{
  ℕ, zero, suc, ◌+◌, ◌-◌, Bool, List, [], ◌∷◌, ◌++◌, Option, none, some, length, ltb, nat_beq,
  if◌then◌else◌, ◌==◌,
}
use termino.Prelude.Int.{ℤ, pos}
use termino.Prelude.Decimal.{itoa}
use termino.Prelude.Text.{Text, text_eq, codes}
use termino.Float.{Float}
use termino.Models.{AggregatedPrice, Codec}
use termino.Cli.{
  Msg, key, arrived, err_msg, tick, Cmd, quit, fetch, Look, Table, quits, format_price,
  format_volume,
}
use termino.Cli.Sparkline.{span, render_sparkline}

abbrev pub HistoryMsg : Type 0 → Type 0
HistoryMsg F = Msg (List (AggregatedPrice F))

pub record HistoryModel (F T : Type 0) : Type 0 where
  pub table : T
  pub symbol : Text
  pub prices : List (AggregatedPrice F)
  pub err : Option Text

abbrev pub new : {F T : Type 0} → T → Text → HistoryModel F T
new table symbol = record { table = table; symbol = symbol; prices = []; err = none }

abbrev pub init_cmds : List Cmd
init_cmds = fetch ∷ []

-- What `client.Get` gives.
pub data Response : Type 0 where
  refused : Text → Response
  answered : ℕ → Text → Response

abbrev set : {A : Type 0} → List A → ℕ → A → List A
set [] i v = []
set (x ∷ xs) zero v = v ∷ xs
set (x ∷ xs) (suc i) v = x ∷ set xs i v

abbrev pub replicate : {A : Type 0} → ℕ → A → List A
replicate zero x = []
replicate (suc n) x = x ∷ replicate n x

module _ {F : Type 0} where
  decoded_or : Option (List (AggregatedPrice F)) → HistoryMsg F
  decoded_or none = err_msg (codes "invalid JSON")
  decoded_or (some prices) = arrived prices

  unfoldable pub fetch_history : Codec (List (AggregatedPrice F)) → Response → HistoryMsg F
  unfolding decoded_or
  fetch_history codec (refused e) = err_msg e
  fetch_history codec (answered status text) =
      if nat_beq status 200
      then decoded_or (codec.unmarshal text)
      else err_msg (codes "server returned " ++ itoa (pos status))

  -- `data[len(m.prices)-1-i] = p.Price` for each price.
  pub fill : ℕ → ℕ → List (AggregatedPrice F) → List F → List F
  fill n i [] data' = data'
  fill n i (p ∷ ps) data' = fill n (i + 1) ps (set data' (n - 1 - i) p.price)

  -- Records of the first and the last price.
  abbrev oldest_of : AggregatedPrice F → List (AggregatedPrice F) → AggregatedPrice F
  oldest_of p [] = p
  oldest_of p (q ∷ qs) = oldest_of q qs

module _ {F : Type 0} ⦃fl : Float F⦄ where
  -- The data of the chart, the oldest price first.
  unfoldable pub chart_data : List (AggregatedPrice F) → List F
  unfolding fill
  chart_data ps = fill (length ps) 0 ps (replicate (length ps) (fl.of_nat 0))

module _ {F T : Type 0} ⦃fl : Float F⦄ (look : Look) (tb : Table (HistoryMsg F) T) where
  history_row : AggregatedPrice F → List Text
  history_row p =
      look.date p.timestamp
      ∷ format_price p.price
      ∷ format_price p.avg_price
      ∷ format_price p.high_price
      ∷ format_price p.low_price
      ∷ (fl.fixed 2 p.change_pct ++ codes "%")
      ∷ format_volume p.volume
      ∷ []

  history_rows : List (AggregatedPrice F) → List (List Text)
  unfolding history_row
  history_rows [] = []
  history_rows (p ∷ ps) = history_row p ∷ history_rows ps

  to_table : HistoryMsg F → HistoryModel F T → HistoryModel F T × List Cmd
  to_table msg m = let (table, cmds) = tb.update msg m.table in (record m { table = table }, cmds)

  unfoldable pub update : HistoryMsg F → HistoryModel F T → HistoryModel F T × List Cmd
  unfolding history_rows to_table
  update (key k) m =
      if quits k
      then (m, quit ∷ [])
      else if k == codes "r"
      then (m, fetch ∷ [])
      else to_table (key k) m
  update (arrived prices) m =
      to_table (arrived prices) (record m {
        prices = prices;
        err = none;
        table = tb.set_rows (history_rows prices) m.table;
      })
  update (err_msg e) m = to_table (err_msg e) (record m { err = some e })
  update tick m = to_table tick m

  chart_text : List F → Option Text → Option Text
  chart_text [] drawn = none
  chart_text (v ∷ vs) none = none
  chart_text (v ∷ vs) (some drawn) =
      let ends = span v v (v ∷ vs) in
      some (
        codes "  Price Range: "
        ++ format_price ends.0
        ++ codes " - "
        ++ format_price ends.1
        ++ codes " ("
        ++ itoa (pos (length (v ∷ vs)))
        ++ codes " points)"
        ++ 10 ∷ codes "  "
        ++ drawn
        ++ 10 ∷ 10 ∷ [])

  pub chart : List (AggregatedPrice F) → Option Text
  unfolding chart_data chart_text
  chart ps =
      if ltb 1 (length ps)
      then chart_text (chart_data ps) (render_sparkline look (chart_data ps))
      else some []

  summary : List (AggregatedPrice F) → Text
  summary [] = []
  summary (p ∷ ps) =
      10
        ∷ look.dim (
            codes "  Latest: "
            ++ format_price p.price
            ++ codes " | Oldest: "
            ++ format_price (oldest_of p ps).price
            ++ codes " | Records: "
            ++ itoa (pos (length (p ∷ ps))))
      ++ 10 ∷ []

  error_line : Option Text → Text
  error_line none = []
  error_line (some e) = look.red (codes "  Error: " ++ e ++ 10 ∷ 10 ∷ [])

  with_chart : (Text → Text) → HistoryModel F T → Option Text → Option Text
  unfolding summary error_line
  with_chart title m none = none
  with_chart title m (some drawn) = some (
      title (codes " " ++ m.symbol ++ codes " HISTORY ")
      ++ 10 ∷ 10 ∷ error_line m.err
      ++ drawn
      ++ tb.view m.table
      ++ 10 ∷ summary m.prices
      ++ look.dim (codes "  Press r to refresh, q to quit" ++ 10 ∷ []))

  -- `none` is a panic. The style of the title is given.
  unfoldable pub view : (Text → Text) → HistoryModel F T → Option Text
  unfolding with_chart chart
  view title m = with_chart title m (chart m.prices)
