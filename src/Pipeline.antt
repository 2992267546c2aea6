-- ===== src/Pipeline.antt =====
-- The services in a row: the events that services/price-producer/main.go writes go through
-- services/price-aggregator/main.go, and its messages to services/alert-service/main.go and
-- services/db-writer/main.go and services/streaming-api/main.go.
pub mod Messages
use termino.Prelude.{
  ℕ, ◌<◌, ◌≡◌, refl, sym, ap, ◌∙◌, List, [], ◌∷◌, Option, none, some, Option-cases, inl, inr, All,
}
use termino.Prelude.Int.{ℤ}
use termino.Prelude.Text.{Text, text_eq}
use termino.Prelude.Dict.{IsDistinct}
use termino.Float.{Float}
use termino.Models.{PriceEvent, AggregatedPrice, PriceAlert, AlertRule, Codec, IsFaithfulOn}
use termino.Aggregator
use termino.Aggregator.{PriceAggregator}
use termino.Aggregator.Symbols.{run-symbols}
use termino.AggregatorService
use termino.AggregatorService.Pipeline
use termino.AggregatorService.Pipeline.{messages, asked_by, run-Aggregator_run}
use termino.AlertEngine
use termino.AlertEngine.Flags.{fired_keys}
use termino.AlertService.{run_prices}
use termino.AlertService.Published
use termino.AlertService.Published.{texts_of, all_edges, run_prices-all_edges}
use termino.Kafka.Consumer.{Env, Consumer, Turn, fetched, consume}
use termino.Kafka.Attempts.{Attempt, asked, answers, taken, published, published-taken}
use termino.Kafka.Consumer.Committed.{read_messages}
use termino.Prelude.Dict.{lookup}
use termino.Prelude.Strings.{Unicode}
use termino.Redis.{Rdb}
use termino.Streaming
use termino.Streaming.{StreamingServer}
use termino.Streaming.Handlers
use termino.Streaming.Handlers.{Op, price}
use termino.Streaming.Handlers.Latest.{came, last_price, run-new-latest}
use termino.DbWriter.{Database}
use termino.DbWriter.Conserved.{rows_of}
use termino.DbWriter.Service.{Brokers, start, env_of}
use termino.DbWriter.Service.Rows
use termino.DbWriter.Service.Rows.{all_rows, consume-all_rows}
use termino.Pipeline.Messages.{
  writable, writable_at, texts_at, values_of, prices_in, turns_of, decoded-texts_at,
  writable_at-All, decoded-taken, asked_by-some, decoded-read_messages, came-prices_in,
}

module _ {F A S W B R : Type 0} ⦃fl : Float F⦄ (agg_env : Env A) (alert_env : Env S)
    (topic alert_topic : Text) (events : Codec (PriceEvent F))
    (aggregates : Codec (AggregatedPrice F)) (alerts : Codec (PriceAlert F)) (db : Database F W)
    (br : Brokers B) (c : Consumer) (u : Unicode) (rdb : Rdb R) where
  -- What the three consumers of the aggregates make of the messages `sent`, given the aggregates `rs`.
  pub record IsConsumed (rules : List (AlertRule F)) (sent : List (Text × Text))
      (rs : List (AggregatedPrice F)) : Type 0 where
    pub alerted :
        (s : S)
        → asked
            (run_prices alert_env alert_topic aggregates alerts
              (values_of sent)
              (AlertEngine.new rules)
              s).2
          ≡ texts_of alerts (all_edges rules [] rs)
    pub stored :
        (store : W) (b : B)
        → all_rows (consume (env_of db aggregates br) c (turns_of topic sent) (start store b)).0
          ≡ rows_of rs
    pub kept :
        (redis : Option R) (ttl : ℤ)
        → (t : StreamingServer F R) × (Handlers.run u aggregates rdb
              (prices_in (values_of sent))
              (Streaming.new redis ttl)
            ≡ some t)
          × ((k : Text) → lookup k t.latest ≡ last_price k none rs)

  sent-IsConsumed :
      (rules : List (AlertRule F)) (sent : List (Text × Text)) (rs : List (AggregatedPrice F))
      → IsDistinct (fired_keys rules)
      → Published.decoded aggregates (values_of sent) ≡ rs
      → IsConsumed rules sent rs
  sent-IsConsumed rules sent rs d read = record {
    alerted = λ t.
        run_prices-all_edges alert_env alert_topic aggregates alerts rules (values_of sent) t d
        ∙ ap (λ ps. texts_of alerts (all_edges rules [] ps)) read;
    stored = λ store b.
        consume-all_rows db aggregates br c (turns_of topic sent) store b
        ∙ ap rows_of (decoded-read_messages aggregates topic sent ∙ read);
    kept = λ redis ttl.
        let (t, served, latest) =
          run-new-latest u aggregates rdb (prices_in (values_of sent)) redis ttl in
        (
          t,
          served,
          λ k.
              latest k ∙ ap (last_price k none) (came-prices_in aggregates (values_of sent) ∙ read),
        );
  }

  -- With codecs that are faithful on the events, which have `P`, and on the aggregates of their symbols,
  -- which have `IsText`, rules of different keys and a window of at least one price, whatever the
  -- brokers and the database answer: from the events that can be written, handled each once in this
  -- order, the aggregator makes its aggregates without a panic and asks the broker to publish those
  -- that can be written. Of the ones that the broker takes, read each once in the order in which they
  -- were published, as from one partition, the alert service asks to publish the alerts of exactly the
  -- rising edges of its rules, the rows that the database writer tried in committed transactions
  -- followed by those in its batch are exactly theirs, and the streaming server keeps the last one of
  -- each symbol.
  pub pipeline-IsConsumed :
      (P : PriceEvent F → Type 0) (IsText : Text → Type 0) (n : ℕ) (es : List (ℤ × PriceEvent F))
      (rules : List (AlertRule F)) (s : A)
      → IsFaithfulOn P events
      → IsFaithfulOn (λ r. IsText r.symbol) aggregates
      → All (λ e. P e.1) es
      → All (λ e. IsText e.1.symbol) es
      → IsDistinct (fired_keys rules)
      → 0 < n
      → (a : PriceAggregator F) × (rs : List (AggregatedPrice F)) × (s' : A) × (sent : List Attempt)
        × (Aggregator.run (Aggregator.new n) (writable_at events es) ≡ some (a, rs))
        × (AggregatorService.run agg_env topic events aggregates
              (texts_at events es)
              (Aggregator.new n)
              s
            ≡ some (a, s', sent))
        × (asked sent ≡ messages agg_env topic events aggregates rs)
        × IsConsumed rules (published sent) (taken (answers sent) (writable aggregates rs))
  pipeline-IsConsumed P IsText n es rules s he ha kept texts d h =
      let (a, rs, ran, by) =
        run-Aggregator_run agg_env topic events aggregates n (texts_at events es) s h in
      let (s', sent, served, all) = asked_by-some agg_env topic events aggregates _ a _ by in
      let made : Aggregator.run (Aggregator.new n) (writable_at events es) ≡ some (a, rs) =
        ap (Aggregator.run (Aggregator.new n))
          (sym (decoded-texts_at agg_env topic events aggregates P es he kept))
        ∙ ran in
      let symbols =
        run-symbols IsText (Aggregator.new n) (writable_at events es) a rs made
          (writable_at-All agg_env topic events aggregates (λ e. IsText e.symbol) es texts) in
      let read : Published.decoded aggregates (values_of (published sent))
          ≡ taken (answers sent) (writable aggregates rs) =
        ap (λ ms. Published.decoded aggregates (values_of ms))
          (published-taken sent ∙ ap (taken (answers sent)) all)
        ∙ decoded-taken agg_env topic events aggregates (λ r. IsText r.symbol) (answers sent) rs ha
            symbols in
      (a, rs, s', sent, made, served, all, sent-IsConsumed rules (published sent) _ d read)
