-- ===== src/PriceProducer/Fetch.antt =====
-- services/price-producer/main.go: the prices of the web API, the choice between them and the
-- simulated ones, the publishing and the loop. The API, the brokers, the clock and the random numbers
-- are functions of a state `G`.
pub mod Quotes
pub mod Expected
pub mod Published
pub mod Requested
use termino.Prelude.{ℕ, List, [], ◌∷◌, ◌++◌, Option, none, some, nat_beq, if◌then◌else◌, ◌==◌}
use termino.Prelude.Int.{ℤ, pos, ltb_ℤ}
use termino.Prelude.Text.{Text, text_eq, codes}
use termino.Prelude.Dict.{lookup, insert}
use termino.Float.{Float}
use termino.Models.{PriceEvent, Codec}
use termino.Kafka.Consumer.{Env, publish}
use termino.PriceProducer.{Source, simulate_prices}

-- What `client.Do` gives.
pub data Answer : Type 0 where
  refused : Text → Answer
  answered : ℕ → Text → Answer

-- What the API answers for each ID, in the order of Go's iteration.
abbrev pub CoinGeckoResponse : Type 0 → Type 0
CoinGeckoResponse F = List (Text × List (Text × F))

-- `http.NewRequestWithContext` with its error, `client.Do`, and the JSON decoder.
pub record Api (F G : Type 0) : Type 0 where
  pub new_request : Text → Option Text
  pub do_request : Text → G → G × Answer
  pub decode : Text → Option (CoinGeckoResponse F)

abbrev pub symbol_to_coin_gecko_id : List (Text × Text)
symbol_to_coin_gecko_id =
    (codes "BTC", codes "bitcoin")
    ∷ (codes "ETH", codes "ethereum")
    ∷ (codes "SOL", codes "solana")
    ∷ (codes "ADA", codes "cardano")
    ∷ (codes "DOT", codes "polkadot")
    ∷ (codes "AVAX", codes "avalanche-2")
    ∷ (codes "MATIC", codes "matic-network")
    ∷ (codes "LINK", codes "chainlink")
    ∷ []

abbrev pub add_id : Text → Option Text → Text
add_id ids none = ids
add_id ids (some id) = if ids == [] then id else ids ++ 44 ∷ id

-- The loop that builds the IDs of the request.
pub request_ids : Text → List Text → Text
request_ids ids [] = ids
request_ids ids (symbol ∷ symbols) =
    request_ids (add_id ids (lookup symbol symbol_to_coin_gecko_id)) symbols

abbrev pub url_of : Text → Text
url_of ids =
    codes "https://api.coingecko.com/api/v3/simple/price?ids="
    ++ ids
    ++ codes "&vs_currencies=usd&include_24hr_vol=true"

-- The loop that turns the map round.
abbrev pub invert : List (Text × Text) → List (Text × Text) → List (Text × Text)
invert [] m = m
invert ((symbol, id) ∷ rest) m = invert rest (insert id symbol m)

unfoldable pub id_to_symbol : List (Text × Text)
id_to_symbol = invert symbol_to_coin_gecko_id []

-- A configuration, as far as the producer reads it.
pub record Settings : Type 0 where
  pub symbols : List Text
  pub topic : Text
  pub poll_interval : ℤ

pub data Attempt (F : Type 0) : Type 0 where
  not_marshalled : PriceEvent F → Attempt F
  published : PriceEvent F → Text → Option Text → Attempt F

-- A round of the loop: the ticker, or a context that is done.
pub data Round : Type 0 where
  ticked cancelled : Round

module _ {F : Type 0} ⦃fl : Float F⦄ where
  -- A key that is missing reads as zero.
  abbrev pub or_zero : Option F → F
  or_zero none = fl.of_nat 0
  or_zero (some x) = x

module _ {F G : Type 0} ⦃fl : Float F⦄ (source : Source F G) where
  pub quote_event : Text → List (Text × F) → G → G × PriceEvent F
  quote_event symbol data' g =
      let (g1, now) = source.now_unix g in
      (
        g1,
        record {
          symbol = symbol;
          price = or_zero (lookup (codes "usd") data');
          exchange = codes "coingecko";
          volume = or_zero (lookup (codes "usd_24h_vol") data');
          timestamp = now;
        },
      )

  -- The loop over the answer. An ID that is not in the table is skipped.
  pub collect :
      CoinGeckoResponse F → List (Text × F) → G → List (Text × F) × G × List (PriceEvent F)
  unfolding quote_event
  collect [] cache g = (cache, g, [])
  collect ((id, data') ∷ result) cache g = elim (lookup id id_to_symbol) [
    | none ↦ collect result cache g
    | some symbol ↦
        let (g1, e) = quote_event symbol data' g in
        let (cache', g2, es) = collect result (insert symbol e.price cache) g1 in
        (cache', g2, e ∷ es)
  ]

  -- `none` is an error, which the caller only logs.
  pub use_result :
      List (Text × F)
      → G
      → Option (CoinGeckoResponse F)
      → List (Text × F) × G × Option (List (PriceEvent F))
  unfolding collect
  use_result cache g none = (cache, g, none)
  use_result cache g (some result) =
      let (cache', g', es) = collect result cache g in (cache', g', some es)

  pub read_answer :
      Api F G → List (Text × F) → G × Answer → List (Text × F) × G × Option (List (PriceEvent F))
  unfolding use_result
  read_answer api cache (g, refused e) = (cache, g, none)
  read_answer api cache (g, answered status body) =
      if nat_beq status 200 then use_result cache g (api.decode body) else (cache, g, none)

  pub send_request :
      Api F G
      → Text
      → List (Text × F)
      → G
      → Option Text
      → List (Text × F) × G × Option (List (PriceEvent F))
  unfolding read_answer
  send_request api url cache g (some e) = (cache, g, none)
  send_request api url cache g none = read_answer api cache (api.do_request url g)

  unfoldable pub fetch_from_coin_gecko :
      Api F G → List Text → List (Text × F) → G → List (Text × F) × G × Option (List (PriceEvent F))
  unfolding send_request request_ids
  fetch_from_coin_gecko api symbols cache g =
      let url : Text = url_of (request_ids [] symbols) in
      send_request api url cache g (api.new_request url)

  -- After an error the prices are simulated.
  pub with_fallback :
      List Text
      → List (Text × F) × G × Option (List (PriceEvent F))
      → List (Text × F) × G × List (PriceEvent F)
  with_fallback symbols (cache, g, some es) = (cache, g, es)
  with_fallback symbols (cache, g, none) = simulate_prices source symbols cache g

module _ {F G : Type 0} (env : Env G) (codec : Codec (PriceEvent F)) (topic : Text) where
  pub publish_one : PriceEvent F → Option Text → G → G × Attempt F
  publish_one e none g = (g, not_marshalled e)
  publish_one e (some text) g =
      let (g', r) = publish env topic e.symbol text g in (g', published e text r)

  -- An event that cannot be written or published does not stop the others.
  pub publish_all : List (PriceEvent F) → G → G × List (Attempt F)
  unfolding publish_one
  publish_all [] g = (g, [])
  publish_all (e ∷ es) g =
      let (g1, a) = publish_one e (codec.marshal e) g in
      let (g2, more) = publish_all es g1 in (g2, a ∷ more)

module _ {F G : Type 0} ⦃fl : Float F⦄ (source : Source F G) (api : Api F G) (env : Env G)
    (codec : Codec (PriceEvent F)) (cfg : Settings) where
  unfoldable pub fetch_and_publish : List (Text × F) → G → List (Text × F) × G × List (Attempt F)
  unfolding with_fallback publish_all
  fetch_and_publish cache g =
      let (cache', g1, es) =
        with_fallback source cfg.symbols (fetch_from_coin_gecko source api cfg.symbols cache g) in
      let (g2, attempts) = publish_all env codec cfg.topic es g1 in (cache', g2, attempts)

  pub run_loop : List Round → List (Text × F) → G → List (Text × F) × G × List (Attempt F)
  unfolding fetch_and_publish
  run_loop [] cache g = (cache, g, [])
  run_loop (cancelled ∷ rounds) cache g = (cache, g, [])
  run_loop (ticked ∷ rounds) cache g =
      let (c1, g1, attempts) = fetch_and_publish cache g in
      let (c2, g2, more) = run_loop rounds c1 g1 in (c2, g2, attempts ++ more)

  -- `none` is the panic of `time.NewTicker`, which takes no interval that is not positive. The first
  -- fetch is made before the loop, with an empty cache.
  unfoldable pub run : List Round → G → Option (List (Text × F) × G × List (Attempt F))
  unfolding run_loop
  run rounds g =
      let (c1, g1, attempts) = fetch_and_publish [] g in
      let (c2, g2, more) = run_loop rounds c1 g1 in
      if ltb_ℤ (pos 0) cfg.poll_interval then some (c2, g2, attempts ++ more) else none
