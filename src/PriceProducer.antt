-- ===== src/PriceProducer.antt =====
-- services/price-producer/main.go: the simulated prices, used when no API answers. The random
-- numbers and the clock are functions of a state `G`.
pub mod Walk
pub mod Fetch
use termino.Prelude.{ℕ, List, [], ◌∷◌, Option, none, some}
use termino.Prelude.Int.{ℤ}
use termino.Prelude.Text.{Text, text_eq, codes}
use termino.Prelude.Dict.{lookup, insert}
use termino.Float.{Float}
use termino.Models.{PriceEvent}

-- `rand.Float64` and `models.NowUnix`.
pub record Source (F G : Type 0) : Type 0 where
  pub random : G → G × F
  pub now_unix : G → G × ℤ

module _ {F : Type 0} ⦃fl : Float F⦄ where
  unfoldable pub base_prices : List (Text × F)
  base_prices =
      (codes "BTC", fl.of_nat 64000)
      ∷ (codes "ETH", fl.of_nat 3200)
      ∷ (codes "SOL", fl.of_nat 145)
      ∷ (codes "ADA", fl.decimal 45 2)
      ∷ (codes "DOT", fl.decimal 75 1)
      ∷ (codes "AVAX", fl.of_nat 35)
      ∷ (codes "MATIC", fl.decimal 85 2)
      ∷ (codes "LINK", fl.of_nat 15)
      ∷ []

  abbrev pub start_of : F → Option F → F
  start_of base none = base
  start_of base (some price) = price

  -- A step of at most half a percent.
  pub walk : F → F → F
  walk base x = fl.add base (fl.mul base (fl.sub (fl.mul x (fl.decimal 1 2)) (fl.decimal 5 3)))

module _ {F G : Type 0} ⦃fl : Float F⦄ (source : Source F G) where
  -- The event of a symbol with this base price or last price.
  pub simulated : Text → F → G → G × PriceEvent F
  simulated symbol base g =
      let (g1, x) = source.random g in
      let (g2, volume) = source.random g1 in
      let (g3, now) = source.now_unix g2 in
      (
        g3,
        record {
          symbol = symbol;
          price = walk base x;
          exchange = codes "simulated";
          volume = fl.mul volume (fl.of_nat 1000000);
          timestamp = now;
        },
      )

  -- The loop over the symbols of the configuration. Those without a base price are skipped.
  unfoldable pub simulate_prices :
      List Text → List (Text × F) → G → List (Text × F) × G × List (PriceEvent F)
  unfolding simulated
  simulate_prices [] cache g = (cache, g, [])
  simulate_prices (symbol ∷ symbols) cache g = elim (lookup symbol base_prices) [
    | none ↦ simulate_prices symbols cache g
    | some base ↦
        let (g1, e) = simulated symbol (start_of base (lookup symbol cache)) g in
        let (cache', g2, es) = simulate_prices symbols (insert symbol e.price cache) g1 in
        (cache', g2, e ∷ es)
  ]
