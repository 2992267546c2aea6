-- ===== src/Cli/History/Chart.antt =====
-- cli/crypto-stream/ui/history.go: the data of the chart against the list of the prices turned round.
use mathlib.Core.List.{append-nil, reverse_aux, reverse}
use termino.Prelude.{
  ℕ, zero, suc, ◌+◌, ◌-◌, ◌≡◌, refl, sym, ap, ◌∙◌, List, [], ◌∷◌, ◌++◌, length, arith,
}
use termino.Float.{Float}
use termino.Models.{AggregatedPrice}
use termino.Cli.Windows.{prices_of}
use termino.Cli.History.{set, replicate, fill, chart_data}

set_last :
    {A : Type 0} (k : ℕ) (z v : A) (acc : List A)
    → set (replicate (suc k) z ++ acc) k v ≡ replicate k z ++ v ∷ acc
set_last zero z v acc = refl
set_last (suc k) z v acc = ap (◌∷◌ z) (set_last k z v acc)

fill-reverse_aux :
    {F : Type 0} (n i : ℕ) (ps : List (AggregatedPrice F)) (z : F) (acc : List F)
    → i + length ps ≡ n
    → fill n i ps (replicate (length ps) z ++ acc) ≡ reverse_aux (prices_of ps) acc
unfolding fill
fill-reverse_aux n i [] z acc h = refl
fill-reverse_aux n i (p ∷ ps) z acc h =
    let at_last : n - 1 - i ≡ length ps = omega arith in
    ap (λ k. fill n (i + 1) ps (set (replicate (suc (length ps)) z ++ acc) k p.price)) at_last
    ∙ ap (fill n (i + 1) ps) (set_last (length ps) z p.price acc)
    ∙ fill-reverse_aux n (i + 1) ps z (p.price ∷ acc) (omega arith)

module _ {F : Type 0} ⦃fl : Float F⦄ where
  -- The loop that writes each price at the index counted from the end fills the data of the chart
  -- with all the prices, in the opposite order.
  pub chart_data-reverse : (ps : List (AggregatedPrice F)) → chart_data ps ≡ reverse (prices_of ps)
  unfolding chart_data
  chart_data-reverse ps =
      ap (fill (length ps) 0 ps) (sym (append-nil _))
      ∙ fill-reverse_aux (length ps) 0 ps (fl.of_nat 0) [] (omega arith)
