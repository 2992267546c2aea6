-- ===== src/Examples.antt =====
-- Concrete data on which the theorems are applied: prices in hundredths, rules, brokers, databases
-- and caches that answer as functions of small states.
pub mod Access
pub mod Cluster
pub mod Composed
pub mod InRow
pub mod Documents
pub mod Domain
pub mod Messages
pub mod Producer
pub mod Services
pub mod Serving
pub mod Postgres
pub mod Storage
pub mod Streams
pub mod Terminal
pub mod Views
use termino.Prelude.{ℕ, Bool, true, false, List, [], ◌∷◌, Option, none, some, ◌≡◌, refl}
use termino.Prelude.Int.{ℤ, pos}
use termino.Prelude.Text.{Text, codes}
use termino.Float.Fixed.{Cents, cents}
use termino.Models.{PriceEvent, AggregatedPrice, AlertRule, PriceAlert, Codec, IsFaithful}

abbrev pub btc : Text
btc = codes "BTC"

abbrev pub eth : Text
eth = codes "ETH"

abbrev pub dollars : ℕ → Cents
dollars n = cents (pos n)

abbrev pub event : Text → Text → ℕ → PriceEvent Cents
event exchange symbol price = record {
  symbol = symbol;
  price = dollars price;
  exchange = exchange;
  volume = dollars 100;
  timestamp = pos 1700000000;
}

abbrev pub aggregate : Text → ℕ → AggregatedPrice Cents
aggregate symbol price = record {
  symbol = symbol;
  price = dollars price;
  avg_price = dollars price;
  high_price = dollars price;
  low_price = dollars price;
  change24h = dollars 0;
  change_pct = dollars 0;
  volume = dollars 100;
  exchange_count = pos 1;
  timestamp = pos 1700000000;
}

abbrev pub rule : Text → Text → ℕ → Text → AlertRule Cents
rule id symbol threshold direction = record {
  id = id;
  symbol = symbol;
  threshold = dollars threshold;
  direction = direction;
}

abbrev pub notice : Text → ℕ → PriceAlert Cents
notice symbol price = record {
  id = codes "rule-1";
  symbol = symbol;
  rule = codes "above";
  threshold = dollars 100;
  current = dollars price;
  direction = codes "above";
  message = codes "BTC is above";
  timestamp = pos 1700000000;
}

-- A codec that writes the symbol, and gives up on empty texts: each symbol has one price.
abbrev decoded : Text → Option (AggregatedPrice Cents)
decoded [] = none
decoded (c ∷ text) = some (aggregate (c ∷ text) 5000)

abbrev pub naming : Codec (AggregatedPrice Cents)
naming = record { marshal = λ p. some p.symbol; unmarshal = decoded }
