-- ===== src/Examples/Serving.antt =====
-- The theorem on the HTTP server of services/streaming-api/main.go applied to three requests, of
-- which two may stream at once.
use termino.Prelude.{
  refl, ℕ, ◌+◌, ◌≤◌, ◌≡◌, List, [], ◌∷◌, Option, some, none, length, true, nat_eq,
}
use termino.Prelude.Int.{pos, pos_part}
use termino.Prelude.Text.{Text, codes, text_eq, text_beq}
use termino.Prelude.Dict.{lookup, keys}
use termino.Float.Fixed.{Cents}
use termino.Streaming.Router.{
  Request, Route, Api, new_api, Op, receives, decides, ends, delivers, leaves, price, step, receive,
  decide, run,
}
use termino.Streaming.Router.Limited.{run-new_limited}
use termino.Streaming.Router.Lasting.{run-stream_lasts}
use termino.Streaming.{Endpoint}
use termino.Streaming.Handlers.{connect, connect_alerts}
use termino.Streaming.Symbols.{parse_symbols, symbol_map}
use termino.Prelude.Strings.{split, trim_space, to_upper}
use termino.Middleware.RateLimit.{serve}
use termino.Examples.{btc, naming, dollars}
use termino.Examples.Access.{finite, whole}
use termino.Examples.Storage.{Cache, table}
use termino.Examples.Streams.{ascii}

abbrev exact : List (Text × Route) → Text → Option Route
exact routes path = lookup path routes

abbrev asks : Text → Text → Request
asks remote path = record {
  remote = remote;
  path = path;
  symbols = codes "btc";
  symbol = [];
  limit = [];
  flusher = true;
}

abbrev visits : List Op
visits =
    receives (asks (codes "a") (codes "/stream")) (pos 0)
    ∷ receives (asks (codes "b") (codes "/stream/alerts")) (pos 1)
    ∷ receives (asks (codes "c") (codes "/stream")) (pos 2)
    ∷ decides 2
    ∷ decides 1
    ∷ decides 0
    ∷ price btc
    ∷ delivers 1
    ∷ ends 1
    ∷ leaves
    ∷ []

run-new_limited_example :
    (a : Api Cents Cache Cents ℕ) × (run ascii naming table finite whole exact none visits
        (new_api (dollars 100) (pos 9) (pos 2) (some []) (pos 60))
      ≡ some a)
    × (length a.server.handlers ≤ pos_part (pos 2))
    × (a.active ≡ pos (length a.counted + length a.server.handlers + a.leaving))
    × (keys a.server.clients ≡ keys a.server.handlers)
    × (a.server.active_clients ≡ pos (length a.server.handlers))
run-new_limited_example =
    run-new_limited ascii naming table finite whole exact none (pos 2) visits (dollars 100) (pos 9)
      (pos 60) (some [])

abbrev others : List Op
others = ends 0 ∷ price btc ∷ delivers 1 ∷ leaves ∷ []

abbrev two_streams : List Op
two_streams =
    receives (asks (codes "a") (codes "/stream")) (pos 0)
    ∷ receives (asks (codes "b") (codes "/stream/alerts")) (pos 1)
    ∷ decides 0
    ∷ decides 0
    ∷ []

abbrev empty : Api Cents Cache Cents ℕ
empty = new_api (dollars 100) (pos 9) (pos 2) (some []) (pos 60)

abbrev api_or : Api Cents Cache Cents ℕ → Option (Api Cents Cache Cents ℕ) → Api Cents Cache Cents ℕ
api_or a none = a
api_or a (some b) = b

abbrev streaming : Api Cents Cache Cents ℕ
streaming = api_or empty (run ascii naming table finite whole exact none two_streams empty)

run-stream_lasts_example :
    (b : Api Cents Cache Cents ℕ) × (run ascii naming table finite whole exact none others streaming
      ≡ some b)
    × (lookup 1 b.server.handlers ≡ some Endpoint.alerts)
unfolding run step receive decide serve text_beq connect connect_alerts symbol_map parse_symbols
    split trim_space to_upper termino.Prelude.Int.◌+ℤ◌
run-stream_lasts_example =
    run-stream_lasts ascii naming table finite whole exact none 1 two_streams others (dollars 100)
      (pos 9) (pos 2) (pos 60) (some []) streaming Endpoint.alerts refl refl
      (refl, (refl, (refl, (refl, tt))))
