-- ===== src/Examples/Producer.antt =====
-- The theorems on services/price-producer/main.go applied to an API that knows two coins, and to
-- brokers that take everything.
use termino.Prelude.{ℕ, ◌≡◌, refl, List, [], ◌∷◌, none, some}
use termino.Prelude.Text.{Text, codes}
use termino.Float.Fixed.{Cents, fixed_float}
use termino.Kafka.Consumer.{Env}
use termino.PriceProducer.{Source}
use termino.PriceProducer.Fetch.{
  Api, Attempt, answered, CoinGeckoResponse, Settings, ticked, cancelled, request_ids, url_of,
  fetch_and_publish, run,
}
use termino.PriceProducer.Fetch.Expected.{IsRemembered, answer_at}
use termino.PriceProducer.Fetch.Published.{
  IsRound, events_of, fetch_and_publish-IsRound, run-IsRemembered,
}
use termino.Prelude.Int.{pos}
use termino.Examples.{btc, eth, dollars}
use termino.Examples.Services.{named}

abbrev result : CoinGeckoResponse Cents
result =
    (codes "ethereum", (codes "usd", dollars 3000) ∷ [])
    ∷ (codes "dogecoin", (codes "usd", dollars 1) ∷ [])
    ∷ (codes "bitcoin", (codes "usd_24h_vol", dollars 10) ∷ [])
    ∷ []

abbrev api : Api Cents ℕ
api = record {
  new_request = λ url. none;
  do_request = λ url n. (n, answered 200 (codes "{}"));
  decode = λ text. some result;
}

abbrev source : Source Cents ℕ
source = record { random = λ n. (n, dollars 50); now_unix = λ n. (n, pos 1700000000) }

abbrev brokers : Env ℕ
brokers = record {
  handle = λ m n. (n, none);
  write = λ t m n. (n, none);
  commit = λ m n. (n, none);
  clock = λ n. codes "2024-01-01T00:00:00Z";
}

abbrev settings : Settings
settings = record {
  symbols = btc ∷ codes "DOGE" ∷ eth ∷ [];
  topic = codes "prices";
  poll_interval = pos 5;
}

fetch_and_publish-IsRound_example :
    IsRound source settings.symbols named []
      (answer_at api (url_of (request_ids [] settings.symbols)) 0)
      (fetch_and_publish source api brokers named settings [] 0)
fetch_and_publish-IsRound_example = fetch_and_publish-IsRound source api brokers named settings [] 0

run-IsRemembered_example :
    (cache : List (Text × Cents)) × (g : ℕ) × (attempts : List (Attempt Cents)) × (run source api
        brokers named settings
        (ticked ∷ ticked ∷ cancelled ∷ [])
        0
      ≡ some (cache, g, attempts))
    × IsRemembered [] cache (events_of attempts)
run-IsRemembered_example =
    run-IsRemembered source api brokers named settings (ticked ∷ ticked ∷ cancelled ∷ []) 0 refl
