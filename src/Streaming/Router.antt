-- ===== src/Streaming/Router.antt =====
-- The HTTP server that `main` of services/streaming-api/main.go builds: the rate limiter before the
-- routes, and one limit of clients before both streams. A request of a stream is between its
-- increment of the counter and its test, runs its handler, or is between the end of its handler and
-- its decrement; any of them may take the next step. `http.ServeMux` and `net.SplitHostPort` are
-- parameters. `none` is a panic.
pub mod Places
pub mod Requests
pub mod Limited
pub mod Lasting
use termino.Prelude.{
  ℕ, zero, suc, ◌+◌, Bool, true, false, List, [], ◌∷◌, ◌++◌, Option, none, some, if◌then◌else◌,
  nat_eq,
}
use termino.Prelude.Int.{ℤ, pos, ◌+ℤ◌, ◌-ℤ◌, ltb_ℤ}
use termino.Prelude.Text.{Text, codes, text_eq}
use termino.Prelude.Dict.{lookup}
use termino.Prelude.Strings.{Unicode}
use termino.Models.{AggregatedPrice, Codec}
use termino.Redis.{Rdb}
use termino.Middleware.RateLimit.{Rate, RateLimiter, new_rate_limiter, address_of, serve, cleanup}
use termino.Streaming.{Endpoint, prices, alerts, StreamingServer, new, broadcast_alert}
use termino.Streaming.History.{Query, Answer, handle_history}
use termino.Streaming.Handlers.{
  connect, connect_alerts, hang_up, deliver, receive_price, handle_latest_prices,
}

-- The parts of a request that the handlers read, and whether its response can be flushed.
pub record Request : Type 0 where
  pub remote : Text
  pub path : Text
  pub symbols : Text
  pub symbol : Text
  pub limit : Text
  pub flusher : Bool

pub data Route : Type 0 where
  stream : Endpoint → Route
  latest_prices history health metrics : Route

abbrev pub routes : List (Text × Route)
routes =
    (codes "/stream", stream prices)
    ∷ (codes "/stream/alerts", stream alerts)
    ∷ (codes "/prices", latest_prices)
    ∷ (codes "/history", history)
    ∷ (codes "/health", health)
    ∷ (codes "/metrics", metrics)
    ∷ []

-- The two first are the statuses 429 and 503; the streams go on.
pub data Reply (F : Type 0) : Type 0 where
  too_many_requests too_many_streams not_found counting starts healthy measured : Reply F
  listed : Bool × List (Text × AggregatedPrice F) → Reply F
  answered : Answer F → Reply F

-- A request of a stream with what its increment gave.
pub record Counted : Type 0 where
  pub current : ℤ
  pub endpoint : Endpoint
  pub request : Request

-- The handlers that run are those of the server; `leaving` counts the requests whose handler has
-- returned and whose decrement is still to come.
pub record Api (F R G L : Type 0) : Type 0 where
  pub limiter : RateLimiter G L
  pub max : ℤ
  pub active : ℤ
  pub rejected : ℕ
  pub counted : List Counted
  pub server : StreamingServer F R
  pub leaving : ℕ

abbrev pub new_api : {F R G L : Type 0} → G → ℤ → ℤ → Option R → ℤ → Api F R G L
new_api rate burst max redis ttl = record {
  limiter = new_rate_limiter rate burst;
  max = max;
  active = pos 0;
  rejected = 0;
  counted = [];
  server = new redis ttl;
  leaving = 0;
}

-- An element by its place, and the others.
abbrev pub take_out : {A : Type 0} → ℕ → List A → Option (A × List A)
take_out n [] = none
take_out zero (x ∷ xs) = some (x, xs)
take_out (suc n) (x ∷ xs) = elim (take_out n xs) [ none ↦ none | some r ↦ some (r.0, x ∷ r.1) ]

module _ {F R G L : Type 0} (u : Unicode) (codec : Codec (AggregatedPrice F)) (rdb : Rdb R)
    (lib : Rate G L) (split : Text → Option Text) (mux : List (Text × Route) → Text → Option Route)
    (query : Option (Query F)) where
  -- The increment of `MaxSSEClients`.
  pub count : Endpoint → Request → Api F R G L → Api F R G L
  count e r a =
      let current = a.active +ℤ pos 1 in
      record a {
        active = current;
        counted = a.counted ++ record { current = current; endpoint = e; request = r } ∷ [];
      }

  pub dispatch : Request → Option Route → Api F R G L → Api F R G L × Reply F
  unfolding count
  dispatch r none a = (a, not_found)
  dispatch r (some (stream e)) a = (count e r a, counting)
  dispatch r (some latest_prices) a = (a, listed (handle_latest_prices u codec rdb a.server))
  dispatch r (some history) a = (a, answered (handle_history u query r.symbol r.limit))
  dispatch r (some health) a = (a, healthy)
  dispatch r (some metrics) a = (a, measured)

  -- A request comes in.
  unfoldable pub receive : Request → ℤ → Api F R G L → Api F R G L × Reply F
  unfolding dispatch
  receive r now a =
      let (limiter, allowed) = serve lib (address_of split r.remote) now a.limiter in
      let a' = record a { limiter = limiter } in
      if allowed then dispatch r (mux routes r.path) a' else (a', too_many_requests)

  pub connected : Endpoint → Request → StreamingServer F R → StreamingServer F R
  connected prices r s = connect u codec rdb r.flusher r.symbols s
  connected alerts r s = connect_alerts u codec rdb r.flusher s

  -- Without a flusher the handler returns at once.
  pub start : Counted → List Counted → Api F R G L → Api F R G L
  unfolding connected
  start c rest a = record a {
    counted = rest;
    server = connected c.endpoint c.request a.server;
    leaving = if c.request.flusher then a.leaving else a.leaving + 1;
  }

  pub decide_on : Option (Counted × List Counted) → Api F R G L → Api F R G L × Reply F
  unfolding start
  decide_on none a = (a, counting)
  decide_on (some (c, rest)) a =
      if ltb_ℤ a.max c.current
      then (
        record a { counted = rest; active = a.active -ℤ pos 1; rejected = a.rejected + 1 },
        too_many_streams,
      )
      else (start c rest a, starts)

  -- The test of `MaxSSEClients` for a request that was counted, and the start of its handler.
  unfoldable pub decide : ℕ → Api F R G L → Api F R G L × Reply F
  unfolding decide_on
  decide i a = decide_on (take_out i a.counted) a

  pub with_server : Api F R G L → Option (StreamingServer F R) → Option (Api F R G L)
  with_server a none = none
  with_server a (some s) = some (record a { server = s })

  pub ended : Api F R G L → Option Endpoint → ℕ
  ended a none = a.leaving
  ended a (some e) = a.leaving + 1

  -- The client of a channel goes, and its handler returns.
  unfoldable pub end : ℕ → Api F R G L → Option (Api F R G L)
  unfolding with_server ended
  end ch a =
      with_server (record a { leaving = ended a (lookup ch a.server.handlers) })
        (hang_up u codec rdb ch a.server)

  -- The decrement of a request whose handler has returned.
  unfoldable pub leave : Api F R G L → Api F R G L
  leave a = elim a.leaving [
    | zero ↦ a
    | suc n ↦ record a { active = a.active -ℤ pos 1; leaving = n }
  ]

pub data Op : Type 0 where
  receives : Request → ℤ → Op
  decides ends delivers : ℕ → Op
  leaves : Op
  cleans : ℤ → Op
  price alert : Text → Op

module _ {F R G L : Type 0} (u : Unicode) (codec : Codec (AggregatedPrice F)) (rdb : Rdb R)
    (lib : Rate G L) (split : Text → Option Text) (mux : List (Text × Route) → Text → Option Route)
    (query : Option (Query F)) where
  unfoldable pub step : Op → Api F R G L → Option (Api F R G L)
  unfolding with_server
  step (receives r now) a = some (receive u codec rdb lib split mux query r now a).0
  step (decides i) a = some (decide u codec rdb lib split mux query i a).0
  step (ends ch) a = end u codec rdb lib split mux query ch a
  step leaves a = some (leave u codec rdb lib split mux query a)
  step (cleans now) a = some (record a { limiter = cleanup lib now a.limiter })
  step (price value) a =
      with_server u codec rdb lib split mux query a (receive_price u codec rdb value a.server)
  step (alert value) a =
      with_server u codec rdb lib split mux query a (broadcast_alert value a.server)
  step (delivers ch) a = some (record a { server = deliver u codec rdb ch a.server })

  unfoldable pub run : List Op → Api F R G L → Option (Api F R G L)
  run [] a = some a
  run (o ∷ os) a = elim (step o a) [ none ↦ none | some b ↦ run os b ]
