-- ===== src/Wiring.antt =====
-- What the `main` functions under services/ make of the configuration: the topics that each service
-- creates, reads and writes, and the start of the services as far as it depends on them.
pub mod Ready
use termino.Prelude.{ℕ, Bool, false, List, [], ◌∷◌, ◌++◌, Option, none, some, map, if◌then◌else◌}
use termino.Prelude.Int.{ℤ, pos, ltb_ℤ}
use termino.Prelude.Text.{Text, codes}
use termino.Config.{Config}
use termino.Kafka.Consumer.{Consumer, new_consumer_with_dlq}
use termino.Kafka.Topics.{Cluster, ensure_topics}

-- The writer of pkg/kafka/producer.go. The time is in nanoseconds.
pub record Producer : Type 0 where
  pub topic : Text
  pub batch_size : ℕ
  pub batch_timeout : ℤ
  pub async : Bool
  pub max_attempts : ℕ

abbrev pub new_producer : Text → Producer
new_producer topic = record {
  topic = topic;
  batch_size = 100;
  batch_timeout = pos 10000000;
  async = false;
  max_attempts = 3;
}

pub data Service : Type 0 where
  price_producer price_aggregator alert_service db_writer streaming_api : Service

-- `ensured` are the topics given to `EnsureTopics`, where it is called.
pub record Wiring : Type 0 where
  pub ensured : Option (List Text)
  pub consumers : List Consumer
  pub producers : List Producer

module _ {F : Type 0} (cfg : Config F) where
  abbrev consumer_of : Text → Text → Consumer
  consumer_of topic group =
      new_consumer_with_dlq topic group cfg.kafka_topic_dlq cfg.dlq_max_retries

  abbrev pub wire_price_producer : Wiring
  wire_price_producer = record {
    ensured = some (cfg.kafka_topic_prices ∷ cfg.kafka_topic_agg ∷ cfg.kafka_topic_alerts ∷ []);
    consumers = [];
    producers = new_producer cfg.kafka_topic_prices ∷ [];
  }

  abbrev pub wire_price_aggregator : Wiring
  wire_price_aggregator = record {
    ensured = none;
    consumers = consumer_of cfg.kafka_topic_prices (codes "price-aggregator-group") ∷ [];
    producers = new_producer cfg.kafka_topic_agg ∷ [];
  }

  abbrev pub wire_alert_service : Wiring
  wire_alert_service = record {
    ensured = none;
    consumers = consumer_of cfg.kafka_topic_agg (codes "alert-service-group") ∷ [];
    producers = new_producer cfg.kafka_topic_alerts ∷ [];
  }

  abbrev pub wire_db_writer : Wiring
  wire_db_writer = record {
    ensured = none;
    consumers = consumer_of cfg.kafka_topic_agg (codes "db-writer-group") ∷ [];
    producers = [];
  }

  abbrev pub wire_streaming_api : Wiring
  wire_streaming_api = record {
    ensured = some (cfg.kafka_topic_dlq ∷ []);
    consumers =
        consumer_of cfg.kafka_topic_agg (codes "streaming-api-group")
        ∷ consumer_of cfg.kafka_topic_alerts (codes "streaming-api-alerts-group")
        ∷ [];
    producers = [];
  }

  abbrev pub wiring : Service → Wiring
  wiring price_producer = wire_price_producer
  wiring price_aggregator = wire_price_aggregator
  wiring alert_service = wire_alert_service
  wiring db_writer = wire_db_writer
  wiring streaming_api = wire_streaming_api

  abbrev dlq_topics : List Consumer → List Text
  dlq_topics [] = []
  dlq_topics (c ∷ cs) = elim c.dlq_producer [ none ↦ dlq_topics cs | some t ↦ t ∷ dlq_topics cs ]

  -- The topics that a service reads or writes.
  abbrev pub topics_of : Service → List Text
  topics_of sv =
      let w = wiring sv in
      map (λ c. c.topic) w.consumers ++ (dlq_topics w.consumers ++ map (λ p. p.topic) w.producers)

  module _ {S : Type 0} (k : Cluster S) where
    -- An error of `EnsureTopics` is logged only.
    pub ensure : Option (List Text) → S → Option S
    ensure none s = some s
    ensure (some topics) s = elim (ensure_topics k cfg.kafka_brokers topics s) [
      | none ↦ none
      | some r ↦ some r.0
    ]

    -- The producer then runs, where `time.NewTicker` panics for an interval that is not positive.
    pub tick : Service → S → Option S
    tick price_producer s = if ltb_ℤ (pos 0) cfg.poll_interval then some s else none
    tick price_aggregator s = some s
    tick alert_service s = some s
    tick db_writer s = some s
    tick streaming_api s = some s

    -- `none` is a panic.
    pub start : Service → S → Option S
    unfolding ensure tick
    start sv s = elim (ensure (wiring sv).ensured s) [ none ↦ none | some t ↦ tick sv t ]

    -- The services start one after the other; `none` is a panic of one of them.
    unfoldable pub start_all : List Service → S → Option S
    unfolding start
    start_all [] s = some s
    start_all (sv ∷ svs) s = elim (start sv s) [ none ↦ none | some t ↦ start_all svs t ]
