-- ===== src/Cli/History/Drawn.antt =====
-- The view of cli/crypto-stream/ui/history.go can be drawn.
use mathlib.Core.List.{reverse_aux}
use termino.Prelude.{ℕ, suc, arith, true, ◌≡◌, ◌≢◌, refl, List, [], ◌∷◌, Option, length, ltb, All}
use termino.Prelude.Text.{Text}
use termino.Float.{Float, FloatOrder, FloatRange}
use termino.Models.{AggregatedPrice}
use termino.Cli.{Look, Table}
use termino.Cli.Sparkline.{render_sparkline}
use termino.Cli.Sparkline.Small.{AreSmall, IsDrawn, render_sparkline-IsDrawn}
use termino.Cli.Windows.{prices_of}
use termino.Cli.History.{HistoryModel, HistoryMsg, chart, chart_text, with_chart, view}
use termino.Cli.History.Chart.{chart_data-reverse}

two_or_more : (n : ℕ) → ltb 1 (suc (suc n)) ≡ true
two_or_more n = ground arith

All-reverse_aux :
    {F : Type 0} (P : F → Type 0) (xs ys : List F) → All P xs → All P ys → All P (reverse_aux xs ys)
All-reverse_aux P [] ys h k = k
All-reverse_aux P (x ∷ xs) ys h k = All-reverse_aux P xs (x ∷ ys) h.1 (h.0, k)

reverse_aux-ne-nil : {F : Type 0} (xs : List F) (y : F) (ys : List F) → reverse_aux xs (y ∷ ys) ≢ []
reverse_aux-ne-nil [] y ys e = cc
reverse_aux-ne-nil (x ∷ xs) y ys e = reverse_aux-ne-nil xs x (y ∷ ys) e

module _ {F : Type 0} ⦃fl : Float F⦄ {o : FloatOrder fl} (r : FloatRange o) (IsSmall : F → Type 0)
    (small : AreSmall r IsSmall) (look : Look) {T : Type 0} (tb : Table (HistoryMsg F) T) where
  chart_text-IsDrawn :
      (vs : List F) (o : Option Text) → vs ≢ [] → IsDrawn o → IsDrawn (chart_text look tb vs o)
  unfolding chart_text
  chart_text-IsDrawn [] o n h = absurd (n refl)
  chart_text-IsDrawn (v ∷ vs) o n (t, drawn) = rw drawn (_, refl)

  chart-IsDrawn :
      (ps : List (AggregatedPrice F)) → All IsSmall (prices_of ps) → IsDrawn (chart look tb ps)
  unfolding chart
  chart-IsDrawn [] h = ([], refl)
  chart-IsDrawn (p ∷ []) h = ([], refl)
  chart-IsDrawn (p ∷ q ∷ ps) h =
      let vs : List F = reverse_aux (prices_of ps) (q.price ∷ p.price ∷ []) in
      rw (two_or_more (length ps), chart_data-reverse (p ∷ q ∷ ps))
        (chart_text-IsDrawn vs (render_sparkline look vs)
          (reverse_aux-ne-nil (prices_of ps) q.price (p.price ∷ []))
          (render_sparkline-IsDrawn r IsSmall small look vs
            (All-reverse_aux IsSmall (prices_of ps) _ h.1.1 (h.1.0, (h.0, tt)))))

  pub view-IsDrawn :
      (title : Text → Text) (m : HistoryModel F T)
      → All IsSmall (prices_of m.prices)
      → IsDrawn (view look tb title m)
  unfolding view with_chart
  view-IsDrawn title m h = let (t, drawn) = chart-IsDrawn m.prices h in rw drawn (_, refl)
