-- ===== src/Kafka/Topics.antt =====
-- pkg/kafka/topics.go: the creation of topics. The cluster is an interface over a state `S`; `none`
-- is a panic, where there is no broker to dial.
pub mod Ensured
use termino.Prelude.{ℕ, List, [], ◌∷◌, Option, none, some, map}
use termino.Prelude.Int.{ℤ}
use termino.Prelude.Decimal.{itoa}
use termino.Prelude.Text.{Text}

pub record TopicConfig : Type 0 where
  pub topic : Text
  pub num_partitions : ℕ
  pub replication_factor : ℕ

pub data Found : Type 0 where
  failed : Text → Found
  found : Text → ℤ → Found

-- The calls of kafka-go, which answer with an error or none, and `net.JoinHostPort`.
pub record Cluster (S : Type 0) : Type 0 where
  pub dial : Text → S → S × Option Text
  pub controller : S → S × Found
  pub create_topics : List TopicConfig → S → S × Option Text
  pub join_host_port : Text → Text → Text

abbrev pub topic_config : Text → TopicConfig
topic_config t = record { topic = t; num_partitions = 6; replication_factor = 1 }

module _ {S : Type 0} (k : Cluster S) where
  pub create_at : List Text → S × Option Text → S × Option Text
  create_at topics (s, some e) = (s, some e)
  create_at topics (s, none) = k.create_topics (map topic_config topics) s

  pub at_controller : List Text → S × Found → S × Option Text
  unfolding create_at
  at_controller topics (s, failed e) = (s, some e)
  at_controller topics (s, found host port) =
      create_at topics (k.dial (k.join_host_port host (itoa port)) s)

  pub at_broker : List Text → S × Option Text → S × Option Text
  unfolding at_controller
  at_broker topics (s, some e) = (s, some e)
  at_broker topics (s, none) = at_controller topics (k.controller s)

  unfoldable pub ensure_topics : List Text → List Text → S → Option (S × Option Text)
  unfolding at_broker
  ensure_topics [] topics s = none
  ensure_topics (b ∷ brokers) topics s = some (at_broker topics (k.dial b s))
