-- ===== src/AggregatorService/Pipeline.antt =====
-- services/price-aggregator/main.go against the aggregator that it runs.
use termino.Prelude.{ℕ, ◌<◌, ◌≡◌, refl, ap, ◌∙◌, List, [], ◌∷◌, ◌++◌, Option, none, some}
use termino.Prelude.Int.{ℤ}
use termino.Prelude.Text.{Text}
use termino.Float.{Float}
use termino.Models.{PriceEvent, AggregatedPrice, Codec}
use termino.Aggregator.{PriceAggregator, new, add}
use termino.Aggregator
use termino.Aggregator.Window.{run_windows}
use termino.Kafka.Consumer.{Env, publish}
use termino.Kafka.Attempts.{Attempt, asked, asked-append}
use termino.AggregatorService.{
  send_marshalled, after_add, handle_decoded, handle, with_sent, Handled, run,
}

module _ {F S : Type 0} ⦃fl : Float F⦄ (env : Env S) (topic : Text) (events : Codec (PriceEvent F))
    (aggregates : Codec (AggregatedPrice F)) where
  unfoldable pub consed :
      ℤ → Option (PriceEvent F) → List (ℤ × PriceEvent F) → List (ℤ × PriceEvent F)
  consed now none es = es
  consed now (some e) es = (now, e) ∷ es

  -- The events that can be decoded.
  unfoldable pub decoded : List (ℤ × Text) → List (ℤ × PriceEvent F)
  unfolding consed
  decoded [] = []
  decoded ((now, value) ∷ vs) = consed now (events.unmarshal value) (decoded vs)

  unfoldable pub keyed : Text → Option Text → List (Text × Text)
  keyed symbol none = []
  keyed symbol (some text) = (symbol, text) ∷ []

  -- The aggregates that can be written, each under its symbol.
  unfoldable pub messages : List (AggregatedPrice F) → List (Text × Text)
  unfolding keyed
  messages [] = []
  messages (r ∷ rs) = keyed r.symbol (aggregates.marshal r) ++ messages rs

  abbrev pub asked_by :
      Option (PriceAggregator F × S × List Attempt)
      → Option (PriceAggregator F × List (Text × Text))
  asked_by none = none
  asked_by (some (a, s, sent)) = some (a, asked sent)

  abbrev expected :
      Option (PriceAggregator F × List (AggregatedPrice F))
      → Option (PriceAggregator F × List (Text × Text))
  expected none = none
  expected (some (a, rs)) = some (a, messages rs)

  abbrev prefixed :
      List (Text × Text)
      → Option (PriceAggregator F × List (Text × Text))
      → Option (PriceAggregator F × List (Text × Text))
  prefixed sent none = none
  prefixed sent (some (a, more)) = some (a, sent ++ more)

  asked_by-with_sent :
      (sent : List Attempt) (o : Option (PriceAggregator F × S × List Attempt))
      → asked_by (with_sent env topic events aggregates sent o) ≡ prefixed (asked sent) (asked_by o)
  unfolding with_sent
  asked_by-with_sent sent none = refl
  asked_by-with_sent sent (some (a, s, more)) = ap (λ x. some (a, x)) (asked-append sent more)

  abbrev Matches : List (ℤ × Text) → Type 0
  Matches vs =
      (a : PriceAggregator F) (s : S)
      → asked_by (run env topic events aggregates vs a s) ≡ expected (Aggregator.run a (decoded vs))

  abbrev with_result :
      AggregatedPrice F
      → Option (PriceAggregator F × List (AggregatedPrice F))
      → Option (PriceAggregator F × List (AggregatedPrice F))
  with_result r o = elim o [ none ↦ none | some (c, rs) ↦ some (c, r ∷ rs) ]

  expected-with_result :
      (r : AggregatedPrice F) (o : Option (PriceAggregator F × List (AggregatedPrice F)))
      → prefixed (keyed r.symbol (aggregates.marshal r)) (expected o) ≡ expected (with_result r o)
  unfolding messages
  expected-with_result r none = refl
  expected-with_result r (some (a, rs)) = refl

  abbrev proceed :
      List (ℤ × Text) → Option (Handled F S) → Option (PriceAggregator F × S × List Attempt)
  proceed vs o = elim o [
    | none ↦ none
    | some h ↦
        with_sent env topic events aggregates h.sent
          (run env topic events aggregates vs h.aggregator h.now)
  ]

  after_send :
      (vs : List (ℤ × Text)) (symbol : Text) (m : Option Text) (a : PriceAggregator F) (s : S)
      → Matches vs
      → asked_by (proceed vs (some (send_marshalled env topic events aggregates symbol m a s)))
        ≡ prefixed (keyed symbol m) (expected (Aggregator.run a (decoded vs)))
  unfolding send_marshalled keyed
  after_send vs symbol none a s h =
      asked_by-with_sent [] (run env topic events aggregates vs a s) ∙ ap (prefixed []) (h a s)
  after_send vs symbol (some text) a s h =
      let (s', e) = publish env topic symbol text s in
      asked_by-with_sent (record { key = symbol; value = text; answer = e } ∷ [])
        (run env topic events aggregates vs a s')
      ∙ ap (prefixed ((symbol, text) ∷ [])) (h a s')

  after_event :
      (vs : List (ℤ × Text)) (o : Option (PriceAggregator F × AggregatedPrice F)) (s : S)
      → Matches vs
      → asked_by (proceed vs (after_add env topic events aggregates o s))
        ≡ expected
            (elim o [ none ↦ none | some (b, r) ↦ with_result r (Aggregator.run b (decoded vs)) ])
  unfolding after_add
  after_event vs none s h = refl
  after_event vs (some (b, r)) s h =
      after_send vs r.symbol (aggregates.marshal r) b s h
      ∙ expected-with_result r (Aggregator.run b (decoded vs))

  after_value :
      (vs : List (ℤ × Text)) (now : ℤ) (d : Option (PriceEvent F)) (a : PriceAggregator F) (s : S)
      → Matches vs
      → asked_by (proceed vs (handle_decoded env topic events aggregates now d a s))
        ≡ expected (Aggregator.run a (consed now d (decoded vs)))
  unfolding handle_decoded consed Aggregator.run
  after_value vs now none a s h =
      asked_by-with_sent [] (run env topic events aggregates vs a s)
      ∙ ap (prefixed []) (h a s)
      ∙ prefixed_nil (expected (Aggregator.run a (decoded vs)))
    where
      prefixed_nil : (o : Option (PriceAggregator F × List (Text × Text))) → prefixed [] o ≡ o
      prefixed_nil none = refl
      prefixed_nil (some (b, more)) = refl
  after_value vs now (some e) a s h = after_event vs (add now a e) s h

  run-Matches : (vs : List (ℤ × Text)) → Matches vs
  unfolding run handle decoded Aggregator.run messages
  run-Matches [] a s = refl
  run-Matches ((now, value) ∷ vs) a s =
      after_value vs now (events.unmarshal value) a s (run-Matches vs)

  -- From a new aggregator with a window of at least one price, whatever the broker answers, no
  -- sequence of messages panics the service, and what it asks the broker to publish, each once, is
  -- exactly the aggregates of the events that can be decoded, in order, each under its symbol, less
  -- those that cannot be written.
  pub run-Aggregator_run :
      (n : ℕ) (vs : List (ℤ × Text)) (s : S)
      → 0 < n
      → (a : PriceAggregator F) × (rs : List (AggregatedPrice F)) × (Aggregator.run
            (new n)
            (decoded vs)
          ≡ some (a, rs))
        × (asked_by (run env topic events aggregates vs (new n) s) ≡ some (a, messages rs))
  run-Aggregator_run n vs s h =
      let (a, rs, ran, counted, windows) = run_windows n (decoded vs) h in
      (a, rs, ran, run-Matches vs (new n) s ∙ ap expected ran)
