-- ===== src/PriceProducer/Fetch/Published.antt =====
-- What services/price-producer/main.go publishes and remembers in a round and over a run.
use termino.Prelude.{
  ◌≡◌, refl, sym, ap, subst, ◌∙◌, List, [], ◌∷◌, ◌++◌, Option, none, some, true, if◌then◌else◌,
  ◌==◌, All,
}
use termino.Prelude.Int.{pos, ltb_ℤ}
use termino.Prelude.Text.{Text, text_eq}
use termino.Prelude.Dict.{lookup}
use termino.Float.{Float}
use termino.Models.{PriceEvent, Codec}
use termino.Kafka.Consumer.{Env}
use termino.PriceProducer.{Source}
use termino.PriceProducer.Walk.{newest}
use termino.PriceProducer.Fetch.{
  CoinGeckoResponse, Api, request_ids, url_of, Settings, Attempt, not_marshalled, published, Round,
  ticked, cancelled, send_request, fetch_from_coin_gecko, publish_one, publish_all, with_fallback,
  fetch_and_publish, run_loop, run,
}
use termino.PriceProducer.Fetch.Expected.{
  answer_at, IsExpected, IsRemembered, send_request-IsFetched,
}

module _ {F : Type 0} where
  abbrev event_of : Attempt F → PriceEvent F
  event_of (not_marshalled e) = e
  event_of (published e text r) = e

  -- The events that were to be published, in order.
  abbrev pub events_of : List (Attempt F) → List (PriceEvent F)
  events_of [] = []
  events_of (a ∷ atts) = event_of a ∷ events_of atts

  abbrev IsMarshalled : Codec (PriceEvent F) → Attempt F → Type 0
  IsMarshalled codec (not_marshalled e) = codec.marshal e ≡ none
  IsMarshalled codec (published e text r) = codec.marshal e ≡ some text

  events_of-append :
      (atts more : List (Attempt F)) → events_of (atts ++ more) ≡ events_of atts ++ events_of more
  events_of-append [] more = refl
  events_of-append (a ∷ atts) more = ap (◌∷◌ (event_of a)) (events_of-append atts more)

  newest-append :
      (s : Text) (old : Option F) (es fs : List (PriceEvent F))
      → newest s old (es ++ fs) ≡ newest s (newest s old es) fs
  newest-append s old [] fs = refl
  newest-append s old (e ∷ es) fs =
      newest-append s (if e.symbol == s then some e.price else old) es fs

module _ {F : Type 0} where
  IsRemembered-append :
      {a b c : List (Text × F)} (xs ys : List (Attempt F))
      → IsRemembered a b (events_of xs)
      → IsRemembered b c (events_of ys)
      → IsRemembered a c (events_of (xs ++ ys))
  IsRemembered-append {a} {b} {c} xs ys h k = record {
    newest_price = λ s.
        k.newest_price s
        ∙ ap (λ o. newest s o (events_of ys)) (h.newest_price s)
        ∙ sym (newest-append s (lookup s a) (events_of xs) (events_of ys))
        ∙ ap (newest s (lookup s a)) (sym (events_of-append xs ys));
  }

-- One round: what was expected was to be published, each event with its own text, and the cache
-- remembers it.
pub record IsRound {F G : Type 0} ⦃fl : Float F⦄ (source : Source F G) (symbols : List Text)
    (codec : Codec (PriceEvent F)) (cache : List (Text × F))
    (expected : Option (CoinGeckoResponse F)) (r : List (Text × F) × G × List (Attempt F))
    : Type 0 where
  pub expects : IsExpected source symbols expected (events_of r.2)
  pub marshals : All (IsMarshalled codec) r.2
  pub remembers : IsRemembered cache r.0 (events_of r.2)

module _ {F G : Type 0} (env : Env G) (codec : Codec (PriceEvent F)) (topic : Text) where
  publish_one_lem :
      (e : PriceEvent F) (o : Option Text) (g : G)
      → codec.marshal e ≡ o
      → (event_of (publish_one env codec topic e o g).1 ≡ e)
        × IsMarshalled codec (publish_one env codec topic e o g).1
  unfolding publish_one
  publish_one_lem e none g h = (refl, h)
  publish_one_lem e (some text) g h = (refl, h)

  publish_all_lem :
      (es : List (PriceEvent F)) (g : G)
      → (events_of (publish_all env codec topic es g).1 ≡ es)
        × All (IsMarshalled codec) (publish_all env codec topic es g).1
  unfolding publish_all
  publish_all_lem [] g = (refl, tt)
  publish_all_lem (e ∷ es) g =
      let one = publish_one_lem e (codec.marshal e) g refl in
      let rest = publish_all_lem es (publish_one env codec topic e (codec.marshal e) g).0 in
      (cong2 one.0 rest.0, (one.1, rest.1))
    where
      cong2 :
          {a b : PriceEvent F} {xs ys : List (PriceEvent F)}
          → a ≡ b
          → xs ≡ ys
          → ◌≡◌ {A = List (PriceEvent F)} (a ∷ xs) (b ∷ ys)
      cong2 p q = cc

module _ {F G : Type 0} ⦃fl : Float F⦄ (source : Source F G) (api : Api F G) (env : Env G)
    (codec : Codec (PriceEvent F)) (cfg : Settings) where
  -- Whatever the web API, the brokers and the encoding do: with a usable answer a round attempts to
  -- publish, in order, exactly the prices and volumes of the answer's known IDs, and otherwise simulated
  -- prices of the configured symbols that have a base price; every event is attempted with its own
  -- text, or not at all if it has none; and the cache then holds for each symbol the newest price.
  pub fetch_and_publish-IsRound :
      (cache : List (Text × F)) (g : G)
      → IsRound source cfg.symbols codec cache
          (answer_at api (url_of (request_ids [] cfg.symbols)) g)
          (fetch_and_publish source api env codec cfg cache g)
  unfolding fetch_and_publish fetch_from_coin_gecko
  fetch_and_publish-IsRound cache g =
      let url : Text = url_of (request_ids [] cfg.symbols) in
      let fetched =
        with_fallback source cfg.symbols
          (send_request source api url cache g (api.new_request url)) in
      let h = send_request-IsFetched source cfg.symbols cache api url g (api.new_request url) in
      let k = publish_all_lem env codec cfg.topic fetched.2 fetched.1 in
      record {
        expects = subst (IsExpected source cfg.symbols (answer_at api url g)) (sym k.0) h.expects;
        marshals = k.1;
        remembers = subst (IsRemembered cache fetched.0) (sym k.0) h.remembers;
      }

  run_loop-IsRemembered :
      (rounds : List Round) (cache : List (Text × F)) (g : G)
      → IsRemembered cache
          (run_loop source api env codec cfg rounds cache g).0
          (events_of (run_loop source api env codec cfg rounds cache g).2)
  unfolding run_loop
  run_loop-IsRemembered [] cache g = record { newest_price = λ s. refl }
  run_loop-IsRemembered (cancelled ∷ rounds) cache g = record { newest_price = λ s. refl }
  run_loop-IsRemembered (ticked ∷ rounds) cache g =
      IsRemembered-append _ _ (fetch_and_publish-IsRound cache g).remembers (
        run_loop-IsRemembered rounds (fetch_and_publish source api env codec cfg cache g).0
          (fetch_and_publish source api env codec cfg cache g).1)

  -- With a poll interval that is positive a whole run, whatever its rounds meet, does not panic, and
  -- the cache holds for each symbol the price of the last event that was to be published, and nothing
  -- for a symbol without an event.
  pub run-IsRemembered :
      (rounds : List Round) (g : G)
      → ltb_ℤ (pos 0) cfg.poll_interval ≡ true
      → (cache : List (Text × F)) × (g' : G) × (attempts : List (Attempt F)) × (run source api env
            codec cfg rounds g
          ≡ some (cache, g', attempts))
        × IsRemembered [] cache (events_of attempts)
  unfolding run
  run-IsRemembered rounds g h =
      let (c1, g1, first) = fetch_and_publish source api env codec cfg [] g in
      let (c2, g2, more) = run_loop source api env codec cfg rounds c1 g1 in
      (
        c2,
        g2,
        first ++ more,
        rw h refl,
        IsRemembered-append _ _ (fetch_and_publish-IsRound [] g).remembers
            (run_loop-IsRemembered rounds c1 g1),
      )
