-- ===== src/Aggregator/Change.antt =====
-- What the 24 hour change of internal/domain/aggregator.go is a change from.
use termino.Prelude.{ℕ, ◌<◌, ◌≡◌, refl, sym, ap, ◌∙◌, List, [], ◌∷◌, some, arith}
use termino.Prelude.Int.{ℤ}
use termino.Prelude.Text.{Text, text_eq}
use termino.Prelude.Dict.{lookup}
use mathlib.Core.Option.{some-injective}
use termino.Float.{Float}
use termino.Models.{PriceEvent, AggregatedPrice}
use termino.Aggregator.{
  PriceWindow, PriceAggregator, new, push, window_for, aggregate_of, report, compute_aggregate, add,
  run,
}
use termino.Aggregator.Window.{events_of, window_spec, run-Tracks, add_inversion, pushed}

module _ {F : Type 0} ⦃fl : Float F⦄ where
  abbrev pub first_or : PriceEvent F → List (PriceEvent F) → PriceEvent F
  first_or e [] = e
  first_or e (x ∷ xs) = x

  base-push :
      (n : ℕ) (xs : List (PriceEvent F)) (e : PriceEvent F)
      → (push n (window_for (window_spec n xs) e) e).base_price ≡ (first_or e xs).price
  unfolding push window_for
  base-push n [] e = refl
  base-push n (x ∷ xs) e = refl

  change_of_report :
      (now : ℤ) (s : Text) (w : PriceWindow F) (ps : List (PriceEvent F)) {r : AggregatedPrice F}
      → aggregate_of now s w ps ≡ some r
      → r.change24h ≡ fl.sub w.last_price w.base_price
  unfolding aggregate_of report
  change_of_report now s w [] h = cc
  change_of_report now s w (p ∷ ps) h = ground arith

  last_price-push :
      (n : ℕ) (w : PriceWindow F) (e : PriceEvent F) → (push n w e).last_price ≡ e.price
  unfolding push
  last_price-push n w e = refl

  -- After any history from a new aggregator, the change that `Add` reports is the price of the
  -- event less the price of the first event of its symbol since the start, whatever the times of
  -- the two are.
  pub run_change :
      (n : ℕ) (es : List (ℤ × PriceEvent F)) (now : ℤ) (e : PriceEvent F) {a b : PriceAggregator F}
      {rs : List (AggregatedPrice F)} {r : AggregatedPrice F}
      → 0 < n
      → run (new n) es ≡ some (a, rs)
      → add now a e ≡ some (b, r)
      → r.change24h ≡ fl.sub e.price (first_or e (events_of e.symbol es)).price
  unfolding compute_aggregate
  run_change n es now e {a} {r = r} h ran added =
      let (a', rs', ran', _, size, tracks) = run-Tracks (new n) [] es h (λ s. refl) in
      let same : a' ≡ a =
        ap (λ (x : PriceAggregator F × List (AggregatedPrice F)). x.0)
          (some-injective _ _ (sym ran' ∙ ran)) in
      let (_, found) = add_inversion now a e added in
      let old : lookup e.symbol a.windows ≡ window_spec a.max_size (events_of e.symbol es) =
        rw same at (tracks e.symbol) in
      let w : PriceWindow F = pushed a e in
      change_of_report now e.symbol w w.prices found
      ∙ cc (
        last_price-push a.max_size (window_for (lookup e.symbol a.windows) e) e,
        base-push a.max_size (events_of e.symbol es) e,
        old,
      )
