-- ===== src/Aggregator.antt =====
-- internal/domain/aggregator.go: a sliding window of prices per symbol, and its aggregates. The
-- lock makes `Add` one step. The clock is an argument, and `none` is a panic.
pub mod Window
pub mod Symbols
pub mod Change
pub mod Extremes
pub mod Exchanges
use termino.Prelude.{
  ℕ, ◌-◌, ◌≡◌, Bool, List, [], ◌∷◌, ◌++◌, Option, none, some, length, drop, ltb, if◌then◌else◌,
}
use termino.Prelude.Int.{ℤ, pos}
use termino.Prelude.Text.{Text, text_eq}
use termino.Prelude.Dict.{lookup, insert}
use termino.Float.{Float}
use termino.Models.{PriceEvent, AggregatedPrice}

pub record PriceWindow (F : Type 0) : Type 0 where
  pub prices : List (PriceEvent F)
  pub last_price : F
  pub base_price : F

pub record PriceAggregator (F : Type 0) : Type 0 where
  pub windows : List (Text × PriceWindow F)
  pub max_size : ℕ

abbrev pub new : {F : Type 0} → ℕ → PriceAggregator F
new window_size = record { windows = []; max_size = window_size }

-- The variables of the loop in `computeAggregate`.
pub record Totals (F : Type 0) : Type 0 where
  pub sum : F
  pub high : F
  pub low : F
  pub total_vol : F
  pub exchanges : List (Text × Unit {0})

module _ {F : Type 0} ⦃fl : Float F⦄ where
  pub tally : Totals F → PriceEvent F → Totals F
  tally t p = record {
    sum = fl.add t.sum p.price;
    high = if fl.lt t.high p.price then p.price else t.high;
    low = if fl.lt p.price t.low then p.price else t.low;
    total_vol = fl.add t.total_vol p.volume;
    exchanges = insert p.exchange tt t.exchanges;
  }

  pub tally_all : Totals F → List (PriceEvent F) → Totals F
  unfolding tally
  tally_all t [] = t
  tally_all t (p ∷ ps) = tally_all (tally t p) ps

  abbrev pub start : PriceEvent F → Totals F
  start p = record {
    sum = fl.of_nat 0;
    high = p.price;
    low = p.price;
    total_vol = fl.of_nat 0;
    exchanges = [];
  }

  pub totals : PriceEvent F → List (PriceEvent F) → Totals F
  unfolding tally_all
  totals p ps = tally_all (start p) (p ∷ ps)

  pub report : ℤ → Text → PriceWindow F → ℕ → Totals F → AggregatedPrice F
  report now symbol w count t =
      let change = fl.sub w.last_price w.base_price in
      record {
        symbol = symbol;
        price = w.last_price;
        avg_price = fl.div t.sum (fl.of_nat count);
        high_price = t.high;
        low_price = t.low;
        change24h = change;
        change_pct =
            if fl.lt (fl.of_nat 0) w.base_price
            then fl.mul (fl.div change w.base_price) (fl.of_nat 100)
            else fl.of_nat 0;
        volume = t.total_vol;
        exchange_count = pos (length t.exchanges);
        timestamp = now;
      }

  -- The first element of an empty window is out of range.
  pub aggregate_of : ℤ → Text → PriceWindow F → List (PriceEvent F) → Option (AggregatedPrice F)
  unfolding totals report
  aggregate_of now symbol w [] = none
  aggregate_of now symbol w (p ∷ ps) = some (report now symbol w (length (p ∷ ps)) (totals p ps))

  pub compute_aggregate : ℤ → Text → PriceWindow F → Option (AggregatedPrice F)
  unfolding aggregate_of
  compute_aggregate now symbol w = aggregate_of now symbol w w.prices

  -- The window of a symbol, a new one if there is none.
  pub window_for : Option (PriceWindow F) → PriceEvent F → PriceWindow F
  window_for none event = record { prices = []; last_price = fl.of_nat 0; base_price = event.price }
  window_for (some w) event = w

  pub push : ℕ → PriceWindow F → PriceEvent F → PriceWindow F
  push max_size w event =
      let prices = w.prices ++ event ∷ [] in
      record w {
        prices =
            if ltb max_size (length prices) then drop (length prices - max_size) prices else prices;
        last_price = event.price;
      }

  pub with_report :
      PriceAggregator F
      → Option (AggregatedPrice F)
      → Option (PriceAggregator F × AggregatedPrice F)
  with_report a none = none
  with_report a (some r) = some (a, r)

  unfoldable pub add :
      ℤ → PriceAggregator F → PriceEvent F → Option (PriceAggregator F × AggregatedPrice F)
  unfolding window_for push with_report compute_aggregate
  add now a event =
      let w = push a.max_size (window_for (lookup event.symbol a.windows) event) event in
      with_report (record a { windows = insert event.symbol w a.windows })
        (compute_aggregate now event.symbol w)

  -- A history: each event with the time of its arrival. The results come with the last state.
  unfoldable pub run :
      PriceAggregator F
      → List (ℤ × PriceEvent F)
      → Option (PriceAggregator F × List (AggregatedPrice F))
  run a [] = some (a, [])
  run a ((now, e) ∷ es) = elim (add now a e) [
    | none ↦ none
    | some (b, r) ↦ elim (run b es) [ none ↦ none | some (c, rs) ↦ some (c, r ∷ rs) ]
  ]
