-- ===== src/Examples/Composed.antt =====
-- The theorems on parts that work together, applied to a few messages and to one client.
use termino.Prelude.{ℕ, ◌≡◌, refl, true, false, List, [], ◌∷◌, ◌++◌, map, none, some, suc, arith}
use termino.Prelude.Int.{pos}
use termino.Prelude.Text.{Text, codes, text_eq, text_beq}
use termino.Prelude.Dict.{member}
use termino.Prelude.Strings.{to_upper}
use termino.Float.Fixed.{Cents, fixed_float}
use termino.Models.{AlertRule, PriceAlert, Codec}
use termino.AlertEngine.{above, below, fired_key, new}
use termino.AlertService.{run_prices}
use termino.AlertService.Published
use termino.AlertService.Published.{texts_of, all_edges, run_prices-all_edges}
use termino.Kafka.{Message}
use termino.Kafka.Consumer.{Env, Turn, fetched, fetch_failed, consume}
use termino.Kafka.Consumer.Committed.{read_messages}
use termino.Kafka.Attempts.{asked}
use termino.DbWriter.Service.{Brokers, start, env_of}
use termino.DbWriter.Service.Rows.{all_rows, decoded, consume-all_rows}
use termino.DbWriter.Conserved.{rows_of}
use termino.Cli.Main.{chosen_symbols, symbols_query}
use termino.Streaming.{Endpoint, StreamingServer, wants_price, price_frame, broadcast}
use termino.Streaming.Symbols.{parse_symbols, symbol_map}
use termino.Streaming.Symbols.Requested.{wants_price-query}
use termino.Streaming.Handlers.Open.{IsSafe}
use termino.Streaming.Handlers.Drained.{response, deliver_times, broadcast-delivered}
use termino.Examples.{btc, eth, naming, rule}
use termino.Examples.Messages.{consumer}
use termino.Examples.Storage.{logging, Cache, table}
use termino.Examples.Streams.{ascii}

abbrev message : Text → Message
message value = record { topic = codes "aggregated"; key = value; value = value; headers = [] }

-- The ticker flushes before each message.
abbrev pub brokers : Brokers ℕ
brokers = record {
  write = λ t m n. (n, none);
  commit = λ m n. (suc n, none);
  clock = λ n. codes "2024-01-01T00:00:00Z";
  ticks = λ n. false ∷ [];
}

abbrev turns : List Turn
turns = fetched (message btc) ∷ fetch_failed ∷ fetched (message []) ∷ fetched (message eth) ∷ []

consume-all_rows_example :
    all_rows (consume (env_of logging naming brokers) consumer turns (start [] 0)).0
    ≡ rows_of (decoded naming (read_messages turns))
consume-all_rows_example = consume-all_rows logging naming brokers consumer turns [] 0

-- Brokers that take every message.
abbrev pub willing : Env ℕ
willing = record {
  handle = λ m n. (n, some (codes "no parse"));
  write = λ t m n. (n, none);
  commit = λ m n. (n, none);
  clock = λ n. codes "2024-01-01T00:00:00Z";
}

wants_price-query_example :
    wants_price btc (
      symbol_map ascii (
        parse_symbols ascii
          (symbols_query (chosen_symbols ascii (codes "btc" ∷ codes "eth" ∷ [])))))
    ≡ member btc (map (to_upper ascii) (codes "btc" ∷ codes "eth" ∷ []))
wants_price-query_example =
    wants_price-query ascii (codes "btc") (codes "eth" ∷ []) btc
      (((λ e. cc), refl), (((λ e. cc), refl), tt))

-- One client of prices, for which one text waits.
abbrev server : StreamingServer Cents Cache
server = record {
  clients = (0, (btc, true) ∷ []) ∷ [];
  latest = [];
  redis = none;
  redis_ttl = pos 60;
  channels = (0, record { buffer = eth ∷ []; is_closed = false }) ∷ [];
  handlers = (0, Endpoint.prices) ∷ [];
  responses = (0, []) ∷ [];
  next_channel = 1;
  active_clients = pos 1;
  messages_streamed = 0;
}

server-IsSafe : IsSafe server
server-IsSafe = record {
  distinct = (refl, tt);
  clients_open = (refl, tt);
  handlers_open = (refl, tt);
  bounded = λ k. ground arith;
}

broadcast-delivered_example :
    (t : StreamingServer Cents Cache) × (broadcast btc btc server ≡ some t)
    × (response 0 (deliver_times ascii naming table 2 0 t)
        ≡ response 0 server ++ map price_frame (eth ∷ btc ∷ []))
unfolding text_beq
broadcast-delivered_example =
    broadcast-delivered ascii naming table btc btc 0 ((btc, true) ∷ []) (eth ∷ []) server
      server-IsSafe refl refl (record { handler = refl; channel = refl }) (omega arith)

-- The message of an alert is its text.
abbrev pub told : Codec (PriceAlert Cents)
told = record { marshal = λ a. some a.message; unmarshal = λ text. none }

abbrev pub two_rules : List (AlertRule Cents)
two_rules = rule (codes "1") btc 4000 above ∷ rule (codes "2") btc 4000 below ∷ []

run_prices-all_edges_example :
    asked
      (run_prices willing (codes "alerts") naming told (btc ∷ [] ∷ btc ∷ []) (new two_rules) 0).2
    ≡ texts_of told (all_edges two_rules [] (Published.decoded naming (btc ∷ [] ∷ btc ∷ [])))
unfolding fired_key text_beq
run_prices-all_edges_example =
    run_prices-all_edges willing (codes "alerts") naming told two_rules (btc ∷ [] ∷ btc ∷ []) 0
      (refl, (refl, tt))
