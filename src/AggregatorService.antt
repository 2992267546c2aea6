-- ===== src/AggregatorService.antt =====
-- services/price-aggregator/main.go: the handler between the topic of the events and the topic of
-- the aggregates. A message that cannot be decoded or written is an error for the consumer.
pub mod Pipeline
use termino.Prelude.{List, [], ◌∷◌, ◌++◌, Option, none, some}
use termino.Prelude.Int.{ℤ}
use termino.Prelude.Text.{Text, codes}
use termino.Float.{Float}
use termino.Models.{PriceEvent, AggregatedPrice, Codec}
use termino.Aggregator.{PriceAggregator, add}
use termino.Kafka.Consumer.{Env, publish}
use termino.Kafka.Attempts.{Attempt}

-- What the handler leaves: what it asked to be published with the broker's answer, and its error.
pub record Handled (F S : Type 0) : Type 0 where
  pub aggregator : PriceAggregator F
  pub now : S
  pub sent : List Attempt
  pub error : Option Text

module _ {F S : Type 0} ⦃fl : Float F⦄ (env : Env S) (topic : Text) (events : Codec (PriceEvent F))
    (aggregates : Codec (AggregatedPrice F)) where
  send_marshalled : Text → Option Text → PriceAggregator F → S → Handled F S
  send_marshalled symbol none a s = record {
    aggregator = a;
    now = s;
    sent = [];
    error = some (codes "json: unsupported value");
  }
  send_marshalled symbol (some text) a s =
      let (s', e) = publish env topic symbol text s in
      record {
        aggregator = a;
        now = s';
        sent = record { key = symbol; value = text; answer = e } ∷ [];
        error = e;
      }

  after_add : Option (PriceAggregator F × AggregatedPrice F) → S → Option (Handled F S)
  unfolding send_marshalled
  after_add none s = none
  after_add (some (a, r)) s = some (send_marshalled r.symbol (aggregates.marshal r) a s)

  handle_decoded : ℤ → Option (PriceEvent F) → PriceAggregator F → S → Option (Handled F S)
  unfolding after_add
  handle_decoded now none a s =
      some (record { aggregator = a; now = s; sent = []; error = some (codes "invalid JSON") })
  handle_decoded now (some e) a s = after_add (add now a e) s

  -- `none` is a panic.
  unfoldable pub handle : ℤ → Text → PriceAggregator F → S → Option (Handled F S)
  unfolding handle_decoded
  handle now value a s = handle_decoded now (events.unmarshal value) a s

  with_sent :
      List Attempt
      → Option (PriceAggregator F × S × List Attempt)
      → Option (PriceAggregator F × S × List Attempt)
  with_sent sent none = none
  with_sent sent (some (a, s, more)) = some (a, s, sent ++ more)

  -- The values of messages, with the times at which they are handled.
  unfoldable pub run :
      List (ℤ × Text) → PriceAggregator F → S → Option (PriceAggregator F × S × List Attempt)
  unfolding with_sent
  run [] a s = some (a, s, [])
  run ((now, value) ∷ vs) a s = elim (handle now value a s) [
    | none ↦ none
    | some h ↦ with_sent h.sent (run vs h.aggregator h.now)
  ]
