-- ===== src/Wiring/Ready.antt =====
-- The topics of the services under services/ when they have started.
use mathlib.Core.List.{Memᴰ}
use mathlib.Core.List.Memᴰ.{head, tail, not-nil}
use termino.Prelude.{◌≡◌, refl, sym, subst, true, List, [], ◌∷◌, Option, none, some, All, All-map}
use termino.Prelude.Int.{pos, ltb_ℤ}
use termino.Prelude.Text.{Text, codes}
use termino.Prelude.Strings.Joined.{split-cons}
use termino.Float.{Float}
use termino.Config.{Config, get_env, load}
use termino.Kafka.Topics.{Cluster}
use termino.Kafka.Topics.Ensured.{IsKafka, IsWorking, IsEnsured, ensure_topics-IsEnsured}
use termino.Wiring.{
  Service, price_producer, price_aggregator, alert_service, db_writer, streaming_api, wiring,
  topics_of, ensure, tick, start, start_all,
}

-- The topics that `EnsureTopics` is called with.
abbrev listed : Option (List Text) → List Text
listed none = []
listed (some topics) = topics

module _ {F S : Type 0} (cfg : Config F) (k : Cluster S) (Exists : S → Text → Type 0)
    (kafka : IsKafka k Exists) (works : IsWorking k) (b : Text) (bs : List Text)
    (brokers : cfg.kafka_brokers ≡ b ∷ bs) (ticks : ltb_ℤ (pos 0) cfg.poll_interval ≡ true) where
  ensure-IsEnsured :
      (o : Option (List Text)) (s : S)
      → (t : S) × (ensure cfg k o s ≡ some t) × IsEnsured k Exists kafka works (listed o) s t
  unfolding ensure
  ensure-IsEnsured none s = (s, refl, record { made = tt; kept = λ x h. h })
  ensure-IsEnsured (some topics) s =
      let (r, done, ensured) = ensure_topics-IsEnsured k Exists kafka works b bs topics s in
      (r.0, rw (brokers, ensure, done) refl, ensured)

  tick-some : (sv : Service) (s : S) → tick cfg k sv s ≡ some s
  unfolding tick
  tick-some price_producer s = rw ticks refl
  tick-some price_aggregator s = refl
  tick-some alert_service s = refl
  tick-some db_writer s = refl
  tick-some streaming_api s = refl

  start-IsEnsured :
      (sv : Service) (s : S)
      → (t : S) × (start cfg k sv s ≡ some t)
        × IsEnsured k Exists kafka works (listed (wiring cfg sv).ensured) s t
  unfolding start
  start-IsEnsured sv s =
      let (t, done, ensured) = ensure-IsEnsured (wiring cfg sv).ensured s in
      (t, rw (start, done) (tick-some sv t), ensured)

  start_on :
      (svs : List Service) (o : Option S) (t v : S)
      → o ≡ some t
      → start_all cfg k svs t ≡ some v
      → elim o [ none ↦ none | some x ↦ start_all cfg k svs x ] ≡ some v
  start_on svs o t v e h = rw e h

  made_then_kept :
      (sv' sv : Service) (svs : List Service) (t v : S)
      → All (Exists t) (listed (wiring cfg sv).ensured)
      → ((x : Text) → Exists t x → Exists v x)
      → ((r : Service) → Memᴰ r svs → All (Exists v) (listed (wiring cfg r).ensured))
      → Memᴰ sv' (sv ∷ svs)
      → All (Exists v) (listed (wiring cfg sv').ensured)
  made_then_kept sv' sv svs t v made kept rest (head e) =
      subst (λ r. All (Exists v) (listed (wiring cfg r).ensured)) (sym e)
        (All-map kept (listed (wiring cfg sv).ensured) made)
  made_then_kept sv' sv svs t v made kept rest (tail m) = rest sv' m

  -- When all have started, the topics are there that one of them ensures.
  start_all-IsEnsured :
      (svs : List Service) (s : S)
      → (t : S) × (start_all cfg k svs s ≡ some t)
        × ((x : Text) → Exists s x → Exists t x)
        × ((sv : Service) → Memᴰ sv svs → All (Exists t) (listed (wiring cfg sv).ensured))
  unfolding start_all
  start_all-IsEnsured [] s = (s, refl, (λ x h. h), (λ sv m. absurd (not-nil m)))
  start_all-IsEnsured (sv ∷ svs) s =
      let (t, ensured_now, first) = start-IsEnsured sv s in
      let (v, started, kept, rest) = start_all-IsEnsured svs t in
      (
        v,
        start_on svs _ t v ensured_now started,
        (λ x h. kept x (first.kept x h)),
        (λ sv' m. made_then_kept sv' sv svs t v first.made kept rest m),
      )

  topics_made :
      (t : S)
      → All (Exists t) (listed (wiring cfg price_producer).ensured)
      → All (Exists t) (listed (wiring cfg streaming_api).ensured)
      → (sv : Service) → All (Exists t) (topics_of cfg sv)
  topics_made t (prices, (agg, (alerts, _))) (dlq, _) price_producer = (prices, tt)
  topics_made t (prices, (agg, (alerts, _))) (dlq, _) price_aggregator = (prices, (dlq, (agg, tt)))
  topics_made t (prices, (agg, (alerts, _))) (dlq, _) alert_service = (agg, (dlq, (alerts, tt)))
  topics_made t (prices, (agg, (alerts, _))) (dlq, _) db_writer = (agg, (dlq, tt))
  topics_made t (prices, (agg, (alerts, _))) (dlq, _) streaming_api =
      (agg, (alerts, (dlq, (dlq, tt))))

-- Documented of Kafka is `IsKafka`, and `IsWorking` is a cluster that answers without an error. With
-- the configuration of any environment whose poll interval is positive, when services have started in any order, the price producer
-- and the streaming API among them, none has panicked, and every topic that any of the five services
-- reads or writes is there, those for dead letters included.
pub start_all-ready :
    {F S : Type 0} ⦃fl : Float F⦄ (env : Text → Text) (parse_float : Text → Option F)
    (k : Cluster S) (Exists : S → Text → Type 0) (svs : List Service) (s : S)
    → IsKafka k Exists
    → IsWorking k
    → ltb_ℤ (pos 0) (load env parse_float).poll_interval ≡ true
    → Memᴰ price_producer svs
    → Memᴰ streaming_api svs
    → (t : S) × (start_all (load env parse_float) k svs s ≡ some t)
      × ((sv : Service) → All (Exists t) (topics_of (load env parse_float) sv))
unfolding load
start_all-ready env parse_float k Exists svs s kafka works ticks p a =
    let cfg = load env parse_float in
    let (b, bs, brokers) =
      split-cons b',' (get_env env (codes "KAFKA_BROKERS") (codes "localhost:9092")) in
    let (t, started, kept, made) =
      start_all-IsEnsured cfg k Exists kafka works b bs brokers ticks svs s in
    (
      t,
      started,
      topics_made cfg k Exists kafka works b bs brokers ticks t (made price_producer p)
          (made streaming_api a),
    )
