-- ===== src/AlertService/Published.antt =====
-- What services/alert-service/main.go asks to be published, against the history of the prices.
use mathlib.Core.List.{append_assoc}
use mathlib.Core.Path.{ap₂}
use termino.Prelude.{◌≡◌, refl, sym, ap, ◌∙◌, List, [], ◌∷◌, ◌++◌, Option, none, some, select}
use termino.Prelude.Text.{Text, text_eq}
use termino.Prelude.Dict.{IsDistinct}
use termino.Float.{Float}
use termino.Models.{AggregatedPrice, PriceAlert, AlertRule, Codec}
use termino.AlertEngine.{AlertEngine, new, evaluate}
use termino.AlertEngine.Edges.{run, rises, evaluate-run}
use termino.AlertEngine.Flags.{alerts_of, fired_keys}
use termino.Kafka.Consumer.{Env}
use termino.Kafka.Attempts.{asked, asked-append}
use termino.AlertService.{publish_marshalled, publish_all, handle_decoded, handle_price, run_prices}

abbrev keyed : Text → Option Text → List (Text × Text)
keyed symbol none = []
keyed symbol (some text) = (symbol, text) ∷ []

module _ {F : Type 0} ⦃fl : Float F⦄ where
  -- The alerts of the rising edges of the rules over prices that come after `past`.
  abbrev pub all_edges :
      List (AlertRule F) → List (AggregatedPrice F) → List (AggregatedPrice F) → List (PriceAlert F)
  all_edges rules past [] = []
  all_edges rules past (p ∷ ps) =
      alerts_of p (select (rises past p) rules) ++ all_edges rules (past ++ p ∷ []) ps

  run-append :
      (e : AlertEngine F) (ps qs : List (AggregatedPrice F)) → run e (ps ++ qs) ≡ run (run e ps) qs
  unfolding run
  run-append e [] qs = refl
  run-append e (p ∷ ps) qs = run-append (evaluate e p).0 ps qs

  abbrev add_decoded :
      Option (AggregatedPrice F) → List (AggregatedPrice F) → List (AggregatedPrice F)
  add_decoded none ps = ps
  add_decoded (some p) ps = p ∷ ps

  -- The prices of the values that can be decoded.
  abbrev pub decoded : Codec (AggregatedPrice F) → List Text → List (AggregatedPrice F)
  decoded prices [] = []
  decoded prices (value ∷ values) = add_decoded (prices.unmarshal value) (decoded prices values)

  -- The alerts that can be written, each under its symbol.
  abbrev pub texts_of : Codec (PriceAlert F) → List (PriceAlert F) → List (Text × Text)
  texts_of alerts [] = []
  texts_of alerts (a ∷ more) = keyed a.symbol (alerts.marshal a) ++ texts_of alerts more

  texts_of-append :
      (alerts : Codec (PriceAlert F)) (xs ys : List (PriceAlert F))
      → texts_of alerts (xs ++ ys) ≡ texts_of alerts xs ++ texts_of alerts ys
  texts_of-append alerts [] ys = refl
  texts_of-append alerts (a ∷ xs) ys =
      ap (◌++◌ (keyed a.symbol (alerts.marshal a))) (texts_of-append alerts xs ys)
      ∙ sym (append_assoc (keyed a.symbol (alerts.marshal a)) (texts_of alerts xs) _)

module _ {F S : Type 0} ⦃fl : Float F⦄ (env : Env S) (topic : Text)
    (prices : Codec (AggregatedPrice F)) (alerts : Codec (PriceAlert F)) where
  asked-publish_marshalled :
      (a : PriceAlert F) (o : Option Text) (s : S)
      → asked (publish_marshalled env topic prices alerts a o s).1 ≡ keyed a.symbol o
  unfolding publish_marshalled
  asked-publish_marshalled a none s = refl
  asked-publish_marshalled a (some text) s = refl

  asked-publish_all :
      (as' : List (PriceAlert F)) (s : S)
      → asked (publish_all env topic prices alerts as' s).1 ≡ texts_of alerts as'
  unfolding publish_all
  asked-publish_all [] s = refl
  asked-publish_all (a ∷ as') s =
      let one = publish_marshalled env topic prices alerts a (alerts.marshal a) s in
      asked-append one.1 (publish_all env topic prices alerts as' one.0).1
      ∙ ap₂ ◌++◌ (asked-publish_marshalled a (alerts.marshal a) s) (asked-publish_all as' one.0)

  abbrev Follows : List (AlertRule F) → List Text → Type 0
  Follows rules values =
      (past : List (AggregatedPrice F)) (s : S)
      → asked (run_prices env topic prices alerts values (run (new rules) past) s).2
        ≡ texts_of alerts (all_edges rules past (decoded prices values))

  after_value :
      (rules : List (AlertRule F)) (values : List Text) (past : List (AggregatedPrice F))
      (o : Option (AggregatedPrice F)) (s : S)
      → IsDistinct (fired_keys rules)
      → Follows rules values
      → let h = handle_decoded env topic prices alerts o (run (new rules) past) s in
        asked (h.2 ++ (run_prices env topic prices alerts values h.0 h.1).2)
        ≡ texts_of alerts (all_edges rules past (add_decoded o (decoded prices values)))
  unfolding handle_decoded run
  after_value rules values past none s d h = h past s
  after_value rules values past (some p) s d h =
      let e : AlertEngine F = run (new rules) past in
      let raised = evaluate e p in
      let all = publish_all env topic prices alerts raised.1 s in
      let s' : S = all.0 in
      asked-append all.1 (run_prices env topic prices alerts values raised.0 s').2
      ∙ ap₂ ◌++◌ (asked-publish_all raised.1 s ∙ ap (texts_of alerts) (evaluate-run rules past p d))
          (ap (λ x. asked (run_prices env topic prices alerts values x s').2)
              (sym (run-append (new rules) past (p ∷ [])))
            ∙ h (past ++ p ∷ []) s')
      ∙ sym (texts_of-append alerts (alerts_of p (select (rises past p) rules)) _)

  run_prices-Follows :
      (rules : List (AlertRule F)) (values : List Text)
      → IsDistinct (fired_keys rules)
      → Follows rules values
  unfolding run_prices handle_price
  run_prices-Follows rules [] d past s = refl
  run_prices-Follows rules (value ∷ values) d past s =
      after_value rules values past (prices.unmarshal value) s d (run_prices-Follows rules values d)

  -- With rules of different keys, whatever the brokers answer, what the service asks them to publish
  -- over any messages, each once, is exactly the alerts of the rising edges of its rules over the
  -- prices that can be decoded, in order, each under its symbol, less those that cannot be written. An
  -- alert that the broker refuses is not asked for again.
  pub run_prices-all_edges :
      (rules : List (AlertRule F)) (values : List Text) (s : S)
      → IsDistinct (fired_keys rules)
      → asked (run_prices env topic prices alerts values (new rules) s).2
        ≡ texts_of alerts (all_edges rules [] (decoded prices values))
  unfolding run
  run_prices-all_edges rules values s d = run_prices-Follows rules values d [] s
