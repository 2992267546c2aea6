-- ===== src/PriceProducer/Fetch/Expected.antt =====
-- What services/price-producer/main.go fetches, or simulates after an error, and what it remembers.
use termino.Prelude.{
  ◌≡◌, List, [], map, Option, none, some, nat_beq, if◌then◌else◌, select, Bool-cases, inl, inr,
}
use termino.Prelude.Text.{Text, text_eq}
use termino.Prelude.Dict.{lookup}
use termino.Float.{Float}
use termino.Models.{PriceEvent}
use termino.PriceProducer.{Source}
use termino.PriceProducer.Walk.{newest, symbols_of, is_known, simulate_prices_lem}
use termino.PriceProducer.Fetch.{
  Answer, refused, answered, CoinGeckoResponse, Api, use_result, read_answer, send_request,
  with_fallback,
}
use termino.PriceProducer.Fetch.Quotes.{quote_of, quotes, collect_lem}

abbrev pub body_of : Answer → Text
body_of (refused e) = []
body_of (answered status body) = body

module _ {F : Type 0} where
  -- What the request gave: an answer with status 200 that can be decoded, or none.
  abbrev pub usable : Option (CoinGeckoResponse F) → Answer → Option (CoinGeckoResponse F)
  usable decoded (refused e) = none
  usable decoded (answered status body) = if nat_beq status 200 then decoded else none

  abbrev pub unless_error :
      Option Text → Option (CoinGeckoResponse F) → Option (CoinGeckoResponse F)
  unless_error (some e) o = none
  unless_error none o = o

  pub record IsRemembered (before after : List (Text × F)) (es : List (PriceEvent F)) : Type 0 where
    pub newest_price : (s : Text) → lookup s after ≡ newest s (lookup s before) es

module _ {F G : Type 0} ⦃fl : Float F⦄ where
  -- What the web API gives for a URL in the state `g`.
  abbrev pub answer_at : Api F G → Text → G → Option (CoinGeckoResponse F)
  answer_at api url g =
      let answer = (api.do_request url g).1 in
      unless_error (api.new_request url) (usable (api.decode (body_of answer)) answer)

  -- The events are the quotes of the answer or, without one, of the configured symbols that have a
  -- base price.
  abbrev pub IsExpected :
      Source F G → List Text → Option (CoinGeckoResponse F) → List (PriceEvent F) → Type 0
  IsExpected source symbols (some result) es = map quote_of es ≡ quotes result
  IsExpected source symbols none es = symbols_of es ≡ select (is_known source) symbols

-- A result of the fetch, after the fallback.
pub record IsFetched {F G : Type 0} ⦃fl : Float F⦄ (source : Source F G) (symbols : List Text)
    (cache : List (Text × F)) (expected : Option (CoinGeckoResponse F))
    (r : List (Text × F) × G × List (PriceEvent F)) : Type 0 where
  pub expects : IsExpected source symbols expected r.2
  pub remembers : IsRemembered cache r.0 r.2

module _ {F G : Type 0} ⦃fl : Float F⦄ (source : Source F G) (symbols : List Text)
    (cache : List (Text × F)) where
  simulated-IsFetched :
      (g : G) → IsFetched source symbols cache none (with_fallback source symbols (cache, g, none))
  unfolding with_fallback
  simulated-IsFetched g =
      let (h, k) = simulate_prices_lem source symbols cache g in
      record { expects = h; remembers = record { newest_price = k } }

  use_result-IsFetched :
      (g : G) (o : Option (CoinGeckoResponse F))
      → IsFetched source symbols cache o
          (with_fallback source symbols (use_result source cache g o))
  unfolding use_result with_fallback
  use_result-IsFetched g none = simulated-IsFetched g
  use_result-IsFetched g (some result) =
      let (h, k) = collect_lem source result cache g in
      record { expects = h; remembers = record { newest_price = k } }

  read_answer-IsFetched :
      (api : Api F G) (r : G × Answer)
      → IsFetched source symbols cache
          (usable (api.decode (body_of r.1)) r.1)
          (with_fallback source symbols (read_answer source api cache r))
  unfolding read_answer
  read_answer-IsFetched api (g, refused e) = simulated-IsFetched g
  read_answer-IsFetched api (g, answered status body) = elim (Bool-cases (nat_beq status 200)) [
    | inl e ↦ rw e (use_result-IsFetched g (api.decode body))
    | inr e ↦ rw e (simulated-IsFetched g)
  ]

  pub send_request-IsFetched :
      (api : Api F G) (url : Text) (g : G) (o : Option Text)
      → IsFetched source symbols cache
          (unless_error o
            (usable (api.decode (body_of (api.do_request url g).1)) (api.do_request url g).1))
          (with_fallback source symbols (send_request source api url cache g o))
  unfolding send_request
  send_request-IsFetched api url g none = read_answer-IsFetched api (api.do_request url g)
  send_request-IsFetched api url g (some e) = simulated-IsFetched g
