-- ===== src/PriceProducer/Fetch/Quotes.antt =====
-- What services/price-producer/main.go reads out of the answer of the web API, against a direct search
-- of its table.
use termino.Prelude.{
  ◌≡◌, refl, ap, ◌∙◌, List, [], ◌∷◌, map, Option, none, some, if◌then◌else◌, ◌==◌, Option-cases,
  inl, inr,
}
use termino.Prelude.Text.{Text, text_eq, text_beq, codes}
use termino.Prelude.Dict.{lookup, insert, lookup-insert}
use termino.Float.{Float}
use termino.Models.{PriceEvent}
use termino.PriceProducer.{Source}
use termino.PriceProducer.Walk.{newest}
use termino.PriceProducer.Fetch.{
  CoinGeckoResponse, symbol_to_coin_gecko_id, id_to_symbol, or_zero, quote_event, collect,
}

-- The symbol that a table gives this ID.
abbrev pub symbol_with : Text → List (Text × Text) → Option Text
symbol_with id [] = none
symbol_with id ((symbol, i) ∷ rest) = if i == id then some symbol else symbol_with id rest

module _ {F : Type 0} ⦃fl : Float F⦄ where
  abbrev pub quote_of : PriceEvent F → Text × F × F
  quote_of e = (e.symbol, e.price, e.volume)

  abbrev add_quote : Option Text → List (Text × F) → List (Text × F × F) → List (Text × F × F)
  add_quote none data' qs = qs
  add_quote (some symbol) data' qs =
      (symbol, or_zero (lookup (codes "usd") data'), or_zero (lookup (codes "usd_24h_vol") data'))
      ∷ qs

  -- The prices and volumes of the IDs of the table.
  abbrev pub quotes : CoinGeckoResponse F → List (Text × F × F)
  quotes [] = []
  quotes ((id, data') ∷ result) =
      add_quote (symbol_with id symbol_to_coin_gecko_id) data' (quotes result)

module _ {F G : Type 0} ⦃fl : Float F⦄ (source : Source F G) where
  pub collect_lem :
      (result : CoinGeckoResponse F) (cache : List (Text × F)) (g : G)
      → (map quote_of (collect source result cache g).2 ≡ quotes result)
        × ((s : Text)
            → lookup s (collect source result cache g).0
              ≡ newest s (lookup s cache) (collect source result cache g).2)
  unfolding collect quote_event id_to_symbol text_beq
  collect_lem [] cache g = (refl, λ s. refl)
  collect_lem ((id, data') ∷ result) cache g =
      elim (Option-cases (symbol_with id symbol_to_coin_gecko_id)) [
        | inl e ↦ rw e (collect_lem result cache g)
        | inr (symbol, e) ↦
            let x = quote_event source symbol data' g in
            let (h, k) = collect_lem result (insert symbol x.1.price cache) x.0 in
            rw e (
              ap (◌∷◌ (quote_of x.1)) h,
              λ s.
                  k s
                  ∙ ap
                      (λ (o : Option F).
                        newest s o (collect source result (insert symbol x.1.price cache) x.0).2)
                      (lookup-insert symbol s x.1.price cache),
            )
      ]
