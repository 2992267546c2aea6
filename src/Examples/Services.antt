-- ===== src/Examples/Services.antt =====
-- The theorems on the price aggregator's handler and on the history endpoint applied to two
-- messages and to a query of one row.
use mathlib.Core.Option.{some-injective}
use termino.Prelude.{
  zero, suc, subst, ◌≤◌, ◌≡◌, refl, List, [], ◌∷◌, Option, none, some, All, length, arith,
}
use termino.Prelude.Int.{ℤ, pos, negsuc, pos_part}
use termino.Prelude.Strings.{to_upper}
use termino.Prelude.Text.{Text, text_eq, codes}
use termino.Float.Fixed.{Cents, fixed_float}
use termino.Models.{PriceEvent, AggregatedPrice, Codec}
use termino.Aggregator
use termino.Aggregator.{PriceAggregator}
use termino.AggregatorService
use termino.AggregatorService.Pipeline.{decoded, messages, asked_by, run-Aggregator_run}
use termino.Streaming.History.{
  Query, IsFor, IsLimited, IsHistory, handle_history, handle_history-IsHistory,
}
use termino.Examples.{btc, event, aggregate, naming}
use termino.Examples.Messages.{failing}
use termino.Examples.Streams.{ascii}

-- An empty text is no event; any other is a symbol.
abbrev event_of : Text → Option (PriceEvent Cents)
event_of [] = none
event_of (c ∷ text) = some (event (codes "a") (c ∷ text) 5000)

abbrev pub named : Codec (PriceEvent Cents)
named = record { marshal = λ e. some e.symbol; unmarshal = event_of }

abbrev values : List (ℤ × Text)
values = (pos 1, btc) ∷ (pos 2, []) ∷ (pos 3, btc) ∷ []

run-Aggregator_run_example :
    (a : PriceAggregator Cents) × (rs : List (AggregatedPrice Cents)) × (Aggregator.run
        (Aggregator.new 100)
        (decoded failing btc named naming values)
      ≡ some (a, rs))
    × (asked_by failing btc named naming
          (AggregatorService.run failing btc named naming values (Aggregator.new 100) [])
        ≡ some (a, messages failing btc named naming rs))
run-Aggregator_run_example = run-Aggregator_run failing btc named naming 100 values [] (omega arith)

abbrev rows_up_to : Text → ℤ → List (Option (AggregatedPrice Cents))
rows_up_to symbol (pos zero) = []
rows_up_to symbol (pos (suc n)) = some (aggregate symbol 5000) ∷ []
rows_up_to symbol (negsuc n) = []

abbrev one_row : Query Cents
one_row symbol n = some (rows_up_to symbol n)

length-rows_up_to : (symbol : Text) (n : ℤ) → length (rows_up_to symbol n) ≤ pos_part n
length-rows_up_to symbol (pos zero) = omega arith
length-rows_up_to symbol (pos (suc n)) = omega arith
length-rows_up_to symbol (negsuc n) = omega arith

rows_up_to-All : (symbol : Text) (n : ℤ) → All (IsFor symbol) (rows_up_to symbol n)
rows_up_to-All symbol (pos zero) = tt
rows_up_to-All symbol (pos (suc n)) = (refl, tt)
rows_up_to-All symbol (negsuc n) = tt

one_row-IsLimited : IsLimited one_row
one_row-IsLimited = record {
  at_most = λ symbol n rs e.
      subst (λ (x : List (Option (AggregatedPrice Cents))). length x ≤ pos_part n)
        (some-injective _ _ e) (length-rows_up_to symbol n);
  only = λ symbol n rs e.
      subst (λ (x : List (Option (AggregatedPrice Cents))). All (IsFor symbol) x)
        (some-injective _ _ e) (rows_up_to-All symbol n);
}

handle_history-IsHistory_example :
    IsHistory
      (to_upper ascii (codes "btc"))
      (handle_history ascii (some one_row) (codes "btc") (codes "1000"))
handle_history-IsHistory_example =
    handle_history-IsHistory ascii one_row (codes "btc") (codes "1000") one_row-IsLimited
