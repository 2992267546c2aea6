-- ===== src/Examples/InRow.antt =====
-- The theorem on the services in a row applied to three events, with the JSON of the structs.
use termino.Prelude.{false, ℕ, zero, suc, ◌≡◌, refl, List, [], ◌∷◌, Option, none, some, arith}
use termino.Kafka.Consumer.{Env}
use termino.Prelude.Int.{ℤ, pos}
use termino.Prelude.Text.{Text, codes, text_eq, text_beq}
use termino.Float.Fixed.{Cents, fixed_float}
use termino.Models.{PriceEvent, AggregatedPrice, PriceAlert, Codec}
use termino.Models.Json.Structs.{
  price_event_codec, aggregated_price_codec, price_alert_codec, codecs-AreFaithful, IsKeptEvent,
}
use termino.Aggregator
use termino.Aggregator.{PriceAggregator}
use termino.AggregatorService
use termino.AggregatorService.Pipeline.{messages}
use termino.Kafka.Attempts.{Attempt, asked, answers, taken, published}
use termino.AlertEngine.{fired_key}
use termino.Pipeline.{IsConsumed, pipeline-IsConsumed}
use termino.Pipeline.Messages.{writable, writable_at, texts_at}
use termino.Examples.{btc, event}
use termino.Examples.Composed.{willing, brokers, two_rules}
use termino.Examples.Documents.{worded, is_zero, worded-IsSyntax, AnyText}
use termino.Examples.Messages.{consumer}
use termino.Examples.Storage.{logging, table}
use termino.Examples.Streams.{ascii}

abbrev events : Codec (PriceEvent Cents)
events = price_event_codec worded

abbrev aggregates : Codec (AggregatedPrice Cents)
aggregates = aggregated_price_codec worded

abbrev alerts : Codec (PriceAlert Cents)
alerts = price_alert_codec worded

abbrev traded : List (ℤ × PriceEvent Cents)
traded =
    (pos 1, event (codes "a") btc 3000)
    ∷ (pos 2, event (codes "b") btc 1)
    ∷ (pos 3, event (codes "a") btc 5000)
    ∷ []

-- Brokers that refuse every second message.
abbrev refusal : ℕ → Option Text
refusal zero = none
refusal (suc zero) = some (codes "broker away")
refusal (suc (suc n)) = refusal n

abbrev fickle : Env ℕ
fickle = record {
  handle = λ m n. (n, none);
  write = λ t m n. (suc n, refusal n);
  commit = λ m n. (n, none);
  clock = λ n. codes "2024-01-01T00:00:00Z";
}

-- The volume is not zero.
sold : (e : PriceEvent Cents) → is_zero e.volume ≡ false → IsKeptEvent worded AnyText e
sold e h = (tt, tt, λ k. cc)

pipeline-IsConsumed_example :
    (a : PriceAggregator Cents) × (rs : List (AggregatedPrice Cents)) × (s' : ℕ) × (sent : List
      Attempt)
    × (Aggregator.run (Aggregator.new 100) (writable_at events traded) ≡ some (a, rs))
    × (AggregatorService.run fickle btc events aggregates
          (texts_at events traded)
          (Aggregator.new 100)
          0
        ≡ some (a, s', sent))
    × (asked sent ≡ messages fickle btc events aggregates rs)
    × IsConsumed fickle willing btc btc events aggregates alerts logging brokers consumer ascii
        table two_rules
        (published sent)
        (taken (answers sent) (writable aggregates rs))
unfolding fired_key text_beq is_zero
pipeline-IsConsumed_example =
    let faithful = codecs-AreFaithful worded worded-IsSyntax in
    pipeline-IsConsumed fickle willing btc btc events aggregates alerts logging brokers consumer
      ascii table (IsKeptEvent worded AnyText) AnyText 100 traded two_rules 0 faithful.0 faithful.1
      (
        sold (event (codes "a") btc 3000) refl,
        (sold (event (codes "b") btc 1) refl, (sold (event (codes "a") btc 5000) refl, tt)),
      )
      (tt, (tt, (tt, tt))) (refl, (refl, tt)) (omega arith)
