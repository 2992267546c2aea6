-- ===== src/Lib.antt =====
-- A verification of termino, a pipeline of cryptocurrency prices: a producer publishes prices to
-- Kafka, an aggregator turns them into aggregates over sliding windows, an alert service compares
-- these with rules, a writer stores them in PostgreSQL, and a streaming server sends prices and
-- alerts to terminal programs, with the latest prices cached in Redis.
--
-- Where the parts stand:
--   * Models: pkg/models/price.go. The structs are records; the JSON of each is a `Codec`.
--     Models.Json: the tags of the structs and how `encoding/json` goes through the fields, which makes
--     these codecs of a syntax of documents.
--   * Aggregator: internal/domain/aggregator.go. `PriceAggregator` holds a `PriceWindow` for each
--     symbol; `new` and `add` are `NewPriceAggregator` and `Add`, with `compute_aggregate`. Its
--     children relate windows and aggregates to the history of the events.
--   * AlertEngine: internal/domain/alertengine.go. `add_rule`, `remove_rule`, `list_rules` and
--     `evaluate` are the methods of `AlertEngine`.
--   * Kafka: the retry headers of pkg/kafka/consumer.go; Kafka.Consumer: its loop `consume` with
--     `handle_failure` and `send_to_dlq`, and `publish` of pkg/kafka/producer.go. Each call of the
--     brokers and of the handler is recorded as an action. Kafka.Topics: pkg/kafka/topics.go.
--     Kafka.Attempts: the record of the calls of `publish` that a service makes, with the answers.
--   * Wiring: the topics that the `main` functions under services/ create, read and write, and the
--     start of the services as far as it depends on them and on the ticker of the price producer.
--   * DbWriter: services/db-writer/main.go. `add_to_batch` and `flush` are the methods of `DBWriter`;
--     DbWriter.Service: its handler behind the consumer, with the flushes of the ticker between;
--     DbWriter.Ticker: the goroutine of its `main` that flushes, with the context of the service;
--     DbWriter.Poisoned: what PostgreSQL makes of a row that it refuses.
--   * Middleware.MaxClients: pkg/middleware/maxclients.go, as steps of concurrent requests.
--   * Redis: pkg/redis/client.go. `set_price`, `set_prices_ttl`, `get_prices` and `get_price`.
--   * Streaming: services/streaming-api/main.go: `broadcast` and `broadcast_alert` over channels with
--     bounded buffers; Streaming.Symbols: `parseSymbols`; Streaming.Handlers: `handleStream` and
--     `handleAlertStream` cut into the connection, one round of the loop, and the end of the
--     request, `removeClient`, the consumer of prices and `handleLatestPrices`; Streaming.Router: the
--     HTTP server of its `main`, with the rate limiter before the routes and one limit of clients
--     before both streams. A request of a stream is counted, tested, started, ended and taken from
--     the count again in steps of its own.
--   * AlertService: services/alert-service/main.go: the API of the rules, and the consumer of prices
--     with a run over several messages.
--   * Streaming.History: `handleHistory` of services/streaming-api/main.go.
--   * PriceProducer: services/price-producer/main.go. `simulate_prices` is `simulatePrices`;
--     PriceProducer.Fetch: `fetchFromCoinGecko`, `fetchAndPublish` and `run`.
--   * AggregatorService: the handler of services/price-aggregator/main.go.
--   * Middleware.RateLimit: pkg/middleware/ratelimit.go; `serve` is one request of `Middleware` with
--     `getVisitor`, and `cleanup` one round of the loop of `cleanup`.
--   * Config: pkg/config/config.go. `load` and the readers of single variables.
--   * Cli: cli/crypto-stream/ui: the models of prices.go, watch.go, alerts.go and history.go with
--     their `Update` (Cli.Prices, Cli.Watch, Cli.Alerts, Cli.History) and `View` (Cli.PricesView,
--     Cli.WatchView, Cli.AlertsView, Cli.History); Cli.Events: the three readers of a stream;
--     Cli.Sparkline: `renderSparkline`; Cli.Main: cli/crypto-stream/main.go.
--   * Float: the operations of float64 that the program uses, as an interface; Float.Fixed fills it
--     with numbers in hundredths.
--   * Prelude: shared helpers; Prelude.GoMap: association lists up to the order of their entries, for
--     what must not depend on the order in which Go iterates over a map. Examples: the theorems at concrete data.
--   * Pipeline: the messages of the aggregator behind those of the producer, and before the alert
--     service, the database writer and the streaming server.
--
-- How the parts interact: Streaming.Handlers writes the cache of Redis when a price comes, and reads
-- it for the latest prices; AlertService calls AlertEngine and publishes through Kafka.Consumer, as
-- PriceProducer.Fetch does; DbWriter.Service is an environment of the consumer; Cli.Events reads the
-- frames that Streaming.Handlers writes, and Streaming.Symbols the query that Cli.Main builds; the
-- messages between the services are texts that a `Codec` reads and writes, which Models.Json provides;
-- Streaming.Router puts Middleware.RateLimit and the counter of maxclients.go before the handlers of
-- Streaming.Handlers and Streaming.History; Wiring reads Config and calls Kafka.Topics.
--
-- Conventions: a critical section under a lock is one step, and where several goroutines take turns
-- a list of operations or a step relation gives the order. Two steps of Streaming.Handlers are coarser
-- than the locks of the source: `register` sends the first frames and raises the gauge, and
-- `receive_decoded` writes the cache and broadcasts, in the step that changes the map, where
-- services/streaming-api/main.go has released the lock between; no interleaving in these gaps is
-- covered. Pipeline takes the messages of a topic in the order in which they were published, as they
-- are within one partition. `none` is a panic where a function of the
-- program has no error result. Strings are lists of code points; what encoding/json does to bytes
-- that are not valid Unicode is left out. Lengths and counts that only grow
-- by one are natural numbers; Go's int and int64 are integers, and `FitsInt` bounds them where a
-- round trip through text needs it. Loops are structural recursion on their lists; only the printer
-- of decimal numbers has fuel, the number itself and one, which its digits never exceed.
--
-- Not modelled: the rest of the main functions (signals, the servers of metrics, the opening of
-- PostgreSQL and Redis), connections, metrics, logging and styling, which are input and output only.
-- Brokers, the database, the Redis server, the web API, the text of JSON documents and of float64
-- numbers, random numbers, the clock, the token buckets, the splitting of addresses, the choice of a
-- route, the table of the terminal and the upper case outside ASCII are parameters; what is asked of
-- them is a named hypothesis. The text of an error of encoding/json is not modelled, only that there
-- is one.
pub mod Pipeline
pub mod Prelude
pub mod Float
pub mod Models
pub mod Aggregator
pub mod AlertEngine
pub mod Kafka
pub mod DbWriter
pub mod Middleware
pub mod Redis
pub mod Streaming
pub mod Cli
pub mod Config
pub mod AggregatorService
pub mod PriceProducer
pub mod Wiring
pub mod AlertService
pub mod Examples
