-- ===== src/Aggregator/Symbols.antt =====
-- The symbols of what `Add` of internal/domain/aggregator.go returns.
use mathlib.Core.Option.{some-injective}
use termino.Prelude.{◌≡◌, refl, sym, ap, subst, List, [], ◌∷◌, Option, none, some, All}
use termino.Prelude.Int.{ℤ}
use termino.Prelude.Text.{Text}
use termino.Float.{Float}
use termino.Models.{PriceEvent, AggregatedPrice}
use termino.Aggregator.{
  PriceWindow, PriceAggregator, report, aggregate_of, compute_aggregate, add, run,
}
use termino.Aggregator.Window.{pushed, add_inversion}

module _ {F : Type 0} ⦃fl : Float F⦄ where
  symbol-aggregate_of :
      (now : ℤ) (s : Text) (w : PriceWindow F) (ps : List (PriceEvent F)) {r : AggregatedPrice F}
      → aggregate_of now s w ps ≡ some r
      → r.symbol ≡ s
  unfolding aggregate_of report
  symbol-aggregate_of now s w [] h = cc
  symbol-aggregate_of now s w (p ∷ ps) h =
      ap (λ (q : AggregatedPrice F). q.symbol) (sym (some-injective _ _ h))

  symbol-add :
      (now : ℤ) (a : PriceAggregator F) (e : PriceEvent F) {b : PriceAggregator F}
      {r : AggregatedPrice F}
      → add now a e ≡ some (b, r)
      → r.symbol ≡ e.symbol
  unfolding compute_aggregate
  symbol-add now a e h =
      symbol-aggregate_of now e.symbol (pushed a e) (pushed a e).prices (add_inversion now a e h).1

  abbrev with_result :
      AggregatedPrice F
      → Option (PriceAggregator F × List (AggregatedPrice F))
      → Option (PriceAggregator F × List (AggregatedPrice F))
  with_result r o = elim o [ none ↦ none | some (c, rs) ↦ some (c, r ∷ rs) ]

  abbrev proceed :
      List (ℤ × PriceEvent F)
      → Option (PriceAggregator F × AggregatedPrice F)
      → Option (PriceAggregator F × List (AggregatedPrice F))
  proceed es o = elim o [ none ↦ none | some (b, r) ↦ with_result r (run b es) ]

  -- Each result of a run that did not panic has `P`.
  abbrev HasSymbols :
      (Text → Type 0) → Option (PriceAggregator F × List (AggregatedPrice F)) → Type 0
  HasSymbols P none = Unit
  HasSymbols P (some (c, rs)) = All (λ r. P r.symbol) rs

  with_result-HasSymbols :
      (P : Text → Type 0) (r : AggregatedPrice F)
      (o : Option (PriceAggregator F × List (AggregatedPrice F)))
      → P r.symbol
      → HasSymbols P o
      → HasSymbols P (with_result r o)
  with_result-HasSymbols P r none p h = tt
  with_result-HasSymbols P r (some (c, rs)) p h = (p, h)

  proceed-HasSymbols :
      (P : Text → Type 0) (now : ℤ) (a : PriceAggregator F) (e : PriceEvent F)
      (es : List (ℤ × PriceEvent F)) (o : Option (PriceAggregator F × AggregatedPrice F))
      → add now a e ≡ o
      → P e.symbol
      → ((b : PriceAggregator F) → HasSymbols P (run b es))
      → HasSymbols P (proceed es o)
  proceed-HasSymbols P now a e es none h p f = tt
  proceed-HasSymbols P now a e es (some (b, r)) h p f =
      with_result-HasSymbols P r (run b es) (subst P (sym (symbol-add now a e h)) p) (f b)

  run-HasSymbols :
      (P : Text → Type 0) (a : PriceAggregator F) (es : List (ℤ × PriceEvent F))
      → All (λ e. P e.1.symbol) es
      → HasSymbols P (run a es)
  unfolding run
  run-HasSymbols P a [] k = tt
  run-HasSymbols P a ((now, e) ∷ es) k =
      proceed-HasSymbols P now a e es (add now a e) refl k.0 (λ b. run-HasSymbols P b es k.1)

  -- What holds of the symbols of the events holds of those of the aggregates.
  pub run-symbols :
      (P : Text → Type 0) (a : PriceAggregator F) (es : List (ℤ × PriceEvent F))
      (c : PriceAggregator F) (rs : List (AggregatedPrice F))
      → run a es ≡ some (c, rs)
      → All (λ e. P e.1.symbol) es
      → All (λ r. P r.symbol) rs
  run-symbols P a es c rs h k = subst (HasSymbols P) h (run-HasSymbols P a es k)
