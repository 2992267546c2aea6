-- ===== src/PriceProducer/Walk.antt =====
-- What services/price-producer/main.go remembers of the prices that it simulates.
use termino.Prelude.{
  ◌≡◌, refl, ap, ◌∙◌, Bool, true, false, List, [], ◌∷◌, Option, none, some, if◌then◌else◌, ◌==◌,
  select, Option-cases, inl, inr,
}
use termino.Prelude.Text.{Text, text_eq, text_beq}
use termino.Prelude.Dict.{lookup, insert, lookup-insert}
use termino.Float.{Float}
use termino.Models.{PriceEvent}
use termino.PriceProducer.{Source, base_prices, start_of, simulated, simulate_prices}

module _ {F : Type 0} where
  abbrev is_some : Option F → Bool
  is_some none = false
  is_some (some x) = true

  -- The price of the last event of a symbol, or an older one.
  abbrev pub newest : Text → Option F → List (PriceEvent F) → Option F
  newest s old [] = old
  newest s old (e ∷ es) = newest s (if e.symbol == s then some e.price else old) es

  abbrev pub symbols_of : List (PriceEvent F) → List Text
  symbols_of [] = []
  symbols_of (e ∷ es) = e.symbol ∷ symbols_of es

module _ {F G : Type 0} ⦃fl : Float F⦄ (source : Source F G) where
  abbrev pub is_known : Text → Bool
  is_known s = is_some {F = F} (lookup s base_prices)

  -- The events are of the configured symbols that have a base price, in their order, and afterwards
  -- the cache holds for each symbol the price of its last event, or what it held before.
  pub simulate_prices_lem :
      (symbols : List Text) (cache : List (Text × F)) (g : G)
      → (symbols_of (simulate_prices source symbols cache g).2 ≡ select is_known symbols)
        × ((s : Text)
            → lookup s (simulate_prices source symbols cache g).0
              ≡ newest s (lookup s cache) (simulate_prices source symbols cache g).2)
  unfolding simulate_prices simulated base_prices text_beq
  simulate_prices_lem [] cache g = (refl, λ s. refl)
  simulate_prices_lem (symbol ∷ symbols) cache g =
      elim (Option-cases (lookup symbol (base_prices ⦃fl = fl⦄))) [
        | inl e ↦ rw e (simulate_prices_lem symbols cache g)
        | inr (base, e) ↦
            let x = simulated source symbol (start_of base (lookup symbol cache)) g in
            let (h, k) = simulate_prices_lem symbols (insert symbol x.1.price cache) x.0 in
            rw e (
              ap (◌∷◌ symbol) h,
              λ s.
                  k s
                  ∙ ap
                      (λ (o : Option F).
                        newest s o
                          (simulate_prices source symbols (insert symbol x.1.price cache) x.0).2)
                      (lookup-insert symbol s x.1.price cache),
            )
      ]
