-- ===== src/Examples/Domain.antt =====
-- The theorems on internal/domain applied to a few prices and rules.
use termino.Prelude.{◌*◌, ◌/◌, ◌≡◌, refl, List, [], ◌∷◌, Option, none, some, length, arith, select}
use termino.Prelude.Int.{ℤ, pos, negsuc}
use termino.Prelude.Text.{Text, codes, text_eq, text_beq}
use termino.Prelude.Dict.{lookup}
use termino.Float.{Float}
use termino.Float.Fixed.{Cents, nan, cents, fixed_float, fixed_order}
use termino.Models.{PriceEvent, AggregatedPrice, AlertRule}
use termino.Aggregator
use termino.Aggregator.{PriceAggregator, PriceWindow}
use termino.Aggregator.Window
use termino.Aggregator.Window.{window_spec, events_of}
use termino.Aggregator.Change.{first_or, run_change}
use termino.Aggregator.Extremes.{IsRange, add-IsRange}
use termino.Aggregator.Exchanges.{CountsDistinct, exchanges_in, add-CountsDistinct}
use termino.AlertEngine
use termino.AlertEngine.{
  AlertEngine, above, below, fired_key, triggered, alert_for, evaluate, remove_rule,
}
use termino.AlertEngine.Flags.{alerts_of}
use termino.AlertEngine.Edges
use termino.AlertEngine.Edges.{rises}
use termino.AlertEngine.SharedKeys.{shared_key_repeats}
use termino.Examples.{btc, eth, dollars, event, aggregate, rule}

abbrev first_events : List (ℤ × PriceEvent Cents)
first_events =
    (pos 10, event (codes "a") btc 5000)
    ∷ (pos 11, event (codes "b") eth 300)
    ∷ (pos 12, event (codes "b") btc 5200)
    ∷ (pos 13, event (codes "a") btc 4900)
    ∷ []

run_windows_example :
    (a : PriceAggregator Cents) × (rs : List (AggregatedPrice Cents)) × (Aggregator.run
        (Aggregator.new 2)
        first_events
      ≡ some (a, rs))
    × (length rs ≡ length first_events)
    × ((s : Text) → lookup s a.windows ≡ window_spec 2 (events_of s first_events))
run_windows_example = Window.run_windows 2 first_events (omega arith)

abbrev some_value {ℓ} : {A : Type ℓ} → A → Option A → A
some_value a none = a
some_value a (some b) = b

abbrev empty : PriceAggregator Cents × List (AggregatedPrice Cents)
empty = (Aggregator.new 2, [])

abbrev after : PriceAggregator Cents × List (AggregatedPrice Cents)
after = some_value empty (Aggregator.run (Aggregator.new 2) first_events)

abbrev next : PriceEvent Cents
next = event (codes "a") btc 6000

abbrev added : PriceAggregator Cents × AggregatedPrice Cents
added = some_value (Aggregator.new 2, aggregate btc 0) (Aggregator.add (pos 14) after.0 next)

abbrev window_of : Option (PriceWindow Cents) → PriceWindow Cents
window_of = some_value (record { prices = []; last_price = nan; base_price = nan })

-- The window of the new price holds it and the one before it.
abbrev now_held : PriceWindow Cents
now_held = window_of (lookup btc added.0.windows)

run_change_example :
    added.1.change24h
    ≡ Float.sub fixed_float (dollars 6000) (first_or next (events_of btc first_events)).price
unfolding Aggregator.run Aggregator.add text_beq fixed_float
run_change_example =
    run_change 2 first_events (pos 14) next {a = after.0} {b = added.0} {rs = after.1} {r = added.1}
      (omega arith) refl refl

add-IsRange_example : IsRange fixed_order added.1.low_price added.1.high_price now_held.prices
unfolding Aggregator.run Aggregator.add text_beq fixed_float fixed_order
add-IsRange_example =
    add-IsRange fixed_order (pos 14) after.0 next {b = added.0} {r = added.1} {w = now_held} refl
      refl ((λ h. cc), ((λ h. cc), tt))

add-CountsDistinct_example : CountsDistinct (exchanges_in now_held.prices) added.1.exchange_count
unfolding Aggregator.run Aggregator.add text_beq fixed_float
add-CountsDistinct_example =
    add-CountsDistinct (pos 14) after.0 next {b = added.0} {r = added.1} {w = now_held} refl refl

abbrev two_rules : List (AlertRule Cents)
two_rules = rule (codes "1") btc 5000 above ∷ rule (codes "2") btc 4000 below ∷ []

abbrev earlier_prices : List (AggregatedPrice Cents)
earlier_prices = aggregate btc 4500 ∷ aggregate eth 9000 ∷ []

evaluate-run_example :
    (evaluate (Edges.run (AlertEngine.new two_rules) earlier_prices) (aggregate btc 6000)).1
    ≡ alerts_of (aggregate btc 6000) (select (rises earlier_prices (aggregate btc 6000)) two_rules)
unfolding fired_key text_beq fixed_float
evaluate-run_example =
    Edges.evaluate-run two_rules earlier_prices (aggregate btc 6000) (refl, (refl, tt))

abbrev rounded : Cents → Cents
rounded nan = nan
rounded (cents (pos n)) = cents (pos (n / 10))
rounded (cents (negsuc n)) = cents (negsuc (n / 10))

-- Numbers in thousandths, printed in hundredths.
abbrev thousandths : Float Cents
unfolding fixed_float
thousandths = record fixed_float {
  of_nat = λ n. cents (pos (n * 1000));
  fixed = λ k a. Float.fixed fixed_float k (rounded a);
}

abbrev near_rules : AlertRule Cents × AlertRule Cents
near_rules = (rule (codes "1") btc 50001 above, rule (codes "2") btc 50004 above)

abbrev between : AggregatedPrice Cents
between = aggregate btc 50002

abbrev near_engine : AlertEngine Cents
near_engine = record { rules = near_rules.0 ∷ near_rules.1 ∷ []; fired = [] }

shared_key_repeats_example :
    (evaluate ⦃fl = thousandths⦄ (evaluate ⦃fl = thousandths⦄ near_engine between).0 between).1
    ≡ alert_for ⦃fl = thousandths⦄ between near_rules.0 ∷ []
unfolding fired_key triggered text_beq fixed_float
shared_key_repeats_example =
    shared_key_repeats ⦃fl = thousandths⦄ between near_rules.0 near_rules.1 refl refl refl refl refl
      near_engine refl
