-- ===== src/Cli/WatchView/Drawn.antt =====
-- The view of cli/crypto-stream/ui/watch.go can be drawn.
use termino.Prelude.{refl, List, [], Option, none, some, length, ltb, All, Bool-cases, inl, inr}
use termino.Float.{Float, FloatOrder, FloatRange}
use termino.Models.{AggregatedPrice}
use termino.Cli.{Look}
use termino.Cli.Sparkline.Small.{AreSmall, IsDrawn, render_sparkline-IsDrawn}
use termino.Cli.Watch.{WatchModel}
use termino.Cli.WatchView.{WatchStyles, chart_lines, chart, with_chart, body, titled, view}

module _ {F : Type 0} ⦃fl : Float F⦄ {o : FloatOrder fl} (r : FloatRange o) (IsSmall : F → Type 0)
    (small : AreSmall r IsSmall) (look : Look) (st : WatchStyles) where
  chart-IsDrawn : (vs : List F) → All IsSmall vs → IsDrawn (chart look st vs)
  unfolding chart chart_lines
  chart-IsDrawn vs h = elim (Bool-cases (ltb 1 (length vs))) [
    | inl e ↦
        let (t, drawn) = render_sparkline-IsDrawn r IsSmall small look vs h in
        rw (e, drawn) (_, refl)
    | inr e ↦ rw e ([], refl)
  ]

  body-IsDrawn :
      (m : WatchModel F) (p : Option (AggregatedPrice F))
      → All IsSmall m.history
      → IsDrawn (body look st m p)
  unfolding body with_chart
  body-IsDrawn m none h = (_, refl)
  body-IsDrawn m (some p) h = let (t, drawn) = chart-IsDrawn m.history h in rw drawn (_, refl)

  pub view-IsDrawn : (m : WatchModel F) → All IsSmall m.history → IsDrawn (view look st m)
  unfolding view titled
  view-IsDrawn m h = let (t, drawn) = body-IsDrawn m m.price h in rw drawn (_, refl)
