-- ===== src/Kafka/Topics/Ensured.antt =====
-- What `EnsureTopics` of pkg/kafka/topics.go leaves behind.
use termino.Prelude.{◌≡◌, refl, List, [], ◌∷◌, Option, none, some, map, All}
use termino.Prelude.Int.{ℤ}
use termino.Prelude.Decimal.{itoa}
use termino.Prelude.Text.{Text}
use termino.Kafka.Topics.{
  TopicConfig, topic_config, Found, failed, found, Cluster, create_at, at_controller, at_broker,
  ensure_topics,
}

-- Every call of the cluster is answered without an error.
pub record IsWorking {S : Type 0} (k : Cluster S) : Type 0 where
  pub dials : (a : Text) (s : S) → (k.dial a s).1 ≡ none
  pub finds : (s : S) → (host : Text) × (port : ℤ) × ((k.controller s).1 ≡ found host port)
  pub creates : (cs : List TopicConfig) (s : S) → (k.create_topics cs s).1 ≡ none

-- Documented of Kafka and kafka-go: a creation without an error has made every topic that was not
-- there yet, and topics stay, whatever the other calls answer.
pub record IsKafka {S : Type 0} (k : Cluster S) (Exists : S → Text → Type 0) : Type 0 where
  pub creates :
      (cs : List TopicConfig) (s : S)
      → (k.create_topics cs s).1 ≡ none
      → All (λ c. Exists (k.create_topics cs s).0 c.topic) cs
  pub create_keeps :
      (cs : List TopicConfig) (s : S) (t : Text) → Exists s t → Exists (k.create_topics cs s).0 t
  pub dial_keeps : (a : Text) (s : S) (t : Text) → Exists s t → Exists (k.dial a s).0 t
  pub controller_keeps : (s : S) (t : Text) → Exists s t → Exists (k.controller s).0 t

module _ {S : Type 0} (k : Cluster S) (Exists : S → Text → Type 0) (kafka : IsKafka k Exists) where
  create_at-Exists :
      (topics : List Text) (r : S × Option Text) (t : Text)
      → Exists r.0 t
      → Exists (create_at k topics r).0 t
  unfolding create_at
  create_at-Exists topics (s, some e) t h = h
  create_at-Exists topics (s, none) t h = kafka.create_keeps (map topic_config topics) s t h

  at_controller-Exists :
      (topics : List Text) (r : S × Found) (t : Text)
      → Exists r.0 t
      → Exists (at_controller k topics r).0 t
  unfolding at_controller
  at_controller-Exists topics (s, failed e) t h = h
  at_controller-Exists topics (s, found host port) t h =
      let address = k.join_host_port host (itoa port) in
      create_at-Exists topics (k.dial address s) t (kafka.dial_keeps address s t h)

  -- Whatever is answered, topics stay.
  at_broker-Exists :
      (topics : List Text) (r : S × Option Text) (t : Text)
      → Exists r.0 t
      → Exists (at_broker k topics r).0 t
  unfolding at_broker
  at_broker-Exists topics (s, some e) t h = h
  at_broker-Exists topics (s, none) t h =
      at_controller-Exists topics (k.controller s) t (kafka.controller_keeps s t h)

  All-configs :
      (P : Text → Type 0) (topics : List Text)
      → All (λ c. P c.topic) (map topic_config topics)
      → All P topics
  All-configs P [] h = tt
  All-configs P (t ∷ ts) h = (h.0, All-configs P ts h.1)

  create_at-created :
      (topics : List Text) (r : S × Option Text)
      → (create_at k topics r).1 ≡ none
      → All (Exists (create_at k topics r).0) topics
  unfolding create_at
  create_at-created topics (s, some e) h = cc
  create_at-created topics (s, none) h =
      All-configs (Exists (k.create_topics (map topic_config topics) s).0) topics
        (kafka.creates (map topic_config topics) s h)

  at_controller-created :
      (topics : List Text) (r : S × Found)
      → (at_controller k topics r).1 ≡ none
      → All (Exists (at_controller k topics r).0) topics
  unfolding at_controller
  at_controller-created topics (s, failed e) h = cc
  at_controller-created topics (s, found host port) h = create_at-created topics _ h

  -- Without an error, each topic is there.
  at_broker-created :
      (topics : List Text) (r : S × Option Text)
      → (at_broker k topics r).1 ≡ none
      → All (Exists (at_broker k topics r).0) topics
  unfolding at_broker
  at_broker-created topics (s, some e) h = cc
  at_broker-created topics (s, none) h = at_controller-created topics (k.controller s) h

module _ {S : Type 0} (k : Cluster S) (works : IsWorking k) where
  create_at-works :
      (topics : List Text) (r : S × Option Text) → r.1 ≡ none → (create_at k topics r).1 ≡ none
  unfolding create_at
  create_at-works topics (s, some e) h = cc
  create_at-works topics (s, none) h = works.creates _ s

  at_controller-works :
      (topics : List Text) (r : S × Found) (host : Text) (port : ℤ)
      → r.1 ≡ found host port
      → (at_controller k topics r).1 ≡ none
  unfolding at_controller
  at_controller-works topics (s, failed e) host port h = cc
  at_controller-works topics (s, found host' port') host port h =
      create_at-works topics _ (works.dials _ s)

  at_broker-works :
      (topics : List Text) (r : S × Option Text) → r.1 ≡ none → (at_broker k topics r).1 ≡ none
  unfolding at_broker
  at_broker-works topics (s, some e) h = cc
  at_broker-works topics (s, none) h =
      at_controller-works topics (k.controller s) _ _ (works.finds s).2

module _ {S : Type 0} (k : Cluster S) (Exists : S → Text → Type 0) (kafka : IsKafka k Exists)
    (works : IsWorking k) where
  -- The topics are there, and those that were there stay.
  pub record IsEnsured (topics : List Text) (s t : S) : Type 0 where
    pub made : All (Exists t) topics
    pub kept : (x : Text) → Exists s x → Exists t x

  pub ensure_topics-IsEnsured :
      (b : Text) (brokers topics : List Text) (s : S)
      → (r : S × Option Text) × (ensure_topics k (b ∷ brokers) topics s ≡ some r)
        × IsEnsured topics s r.0
  unfolding ensure_topics
  ensure_topics-IsEnsured b brokers topics s =
      let dialled = k.dial b s in
      (
        at_broker k topics dialled,
        refl,
        record {
          made =
              at_broker-created k Exists kafka topics dialled
                (at_broker-works k works topics dialled (works.dials b s));
          kept = λ x h. at_broker-Exists k Exists kafka topics dialled x (kafka.dial_keeps b s x h);
        },
      )
