-- ===== src/Examples/Cluster.antt =====
-- The theorem on the start of the services applied to a cluster whose state is its list of topics.
use mathlib.Core.List.{Memᴰ}
use mathlib.Core.List.Memᴰ.{head, tail}
use termino.Prelude.{◌≡◌, refl, true, List, [], ◌∷◌, ◌++◌, Option, none, some, map, All, All-map}
use termino.Prelude.Int.{pos, ltb_ℤ, ◌*ℤ◌}
use termino.Prelude.Text.{Text, codes, text_eq, text_beq}
use termino.Float.Fixed.{Cents, fixed_float}
use termino.Config.{load}
use termino.Kafka.Topics.{Cluster, TopicConfig, found}
use termino.Kafka.Topics.Ensured.{IsKafka, IsWorking}
use termino.Wiring.{
  Service, price_producer, price_aggregator, alert_service, db_writer, streaming_api, topics_of,
  start_all,
}
use termino.Wiring.Ready.{start_all-ready}

abbrev names : List TopicConfig → List Text
names cs = map (λ c. c.topic) cs

abbrev one_node : Cluster (List Text)
one_node = record {
  dial = λ a s. (s, none);
  controller = λ s. (s, found (codes "localhost") (pos 9092));
  create_topics = λ cs s. (names cs ++ s, none);
  join_host_port = λ host port. host ++ b':' ∷ port;
}

all_named : (cs : List TopicConfig) (s : List Text) → All (λ c. Memᴰ c.topic (names cs ++ s)) cs
all_named [] s = tt
all_named (c ∷ cs) s = (head refl, All-map (λ x m. tail m) cs (all_named cs s))

later : (cs : List TopicConfig) (s : List Text) (t : Text) → Memᴰ t s → Memᴰ t (names cs ++ s)
later [] s t m = m
later (c ∷ cs) s t m = tail (later cs s t m)

one_node-IsKafka : IsKafka one_node (λ s t. Memᴰ t s)
one_node-IsKafka = record {
  creates = λ cs s h. all_named cs s;
  create_keeps = later;
  dial_keeps = λ a s t m. m;
  controller_keeps = λ s t m. m;
}

one_node-IsWorking : IsWorking one_node
one_node-IsWorking = record {
  dials = λ a s. refl;
  finds = λ s. (codes "localhost", pos 9092, refl);
  creates = λ cs s. refl;
}

abbrev bare : Text → Text
bare key = []

abbrev no_floats : Text → Option Cents
no_floats text = none

abbrev order : List Service
order = db_writer ∷ streaming_api ∷ alert_service ∷ price_producer ∷ price_aggregator ∷ []

ticks : ltb_ℤ (pos 0) (load bare no_floats).poll_interval ≡ true
unfolding load text_beq ◌*ℤ◌
ticks = refl

start_all-ready_example :
    (t : List Text) × (start_all (load bare no_floats) one_node order [] ≡ some t)
    × ((sv : Service) → All (λ x. Memᴰ x t) (topics_of (load bare no_floats) sv))
start_all-ready_example =
    start_all-ready bare no_floats one_node (λ s t. Memᴰ t s) order [] one_node-IsKafka
      one_node-IsWorking ticks (tail (tail (tail (head refl)))) (tail (head refl))
