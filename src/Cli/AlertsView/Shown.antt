-- ===== src/Cli/AlertsView/Shown.antt =====
-- Which alerts `View` of cli/crypto-stream/ui/alerts.go shows.
use termino.Prelude.{
  ℕ, zero, suc, ◌+◌, ◌-◌, ◌≤◌, ◌≡◌, refl, ap, ◌∙◌, List, [], ◌∷◌, ◌++◌, length, take, ltb, map,
  if◌then◌else◌, arith,
}
use termino.Prelude.Text.{Text}
use termino.Float.{Float}
use termino.Models.{PriceAlert}
use termino.Cli.{Look, Msg}
use termino.Cli.Alerts
use termino.Cli.Windows.{run_alerts, came, newest_first, run_alerts-alerts}
use termino.Cli.AlertsView.{AlertStyles, alert_box, more_line, boxes_from, boxes}

module _ {F : Type 0} ⦃fl : Float F⦄ (look : Look) (st : AlertStyles) where
  abbrev ending : ℕ → ℕ → List (PriceAlert F) → List Text
  ending total room as' = if ltb room (length as') then more_line st (total - 15) ∷ [] else []

  -- `room` boxes may still come.
  boxes_from-take :
      (total i room : ℕ) (as' : List (PriceAlert F))
      → i + room ≡ 15
      → boxes_from look st total i as'
        ≡ map (alert_box look st) (take room as') ++ ending total room as'
  unfolding boxes_from
  boxes_from-take total i zero [] e = refl
  boxes_from-take total i (suc room) [] e = ground arith
  boxes_from-take total i zero (a ∷ as') e = ground arith
  boxes_from-take total i (suc room) (a ∷ as') e =
      ground (arith, boxes_from-take total (i + 1) room as')

  -- The view shows the first 15 alerts, each in a box, and then, if there are more, one line with
  -- their number.
  boxes-take :
      (alerts : List (PriceAlert F))
      → boxes look st alerts
        ≡ map (alert_box look st) (take 15 alerts)
          ++ (if ltb 15 (length alerts) then more_line st (length alerts - 15) ∷ [] else [])
  unfolding boxes
  boxes-take alerts = boxes_from-take (length alerts) 0 15 alerts (omega arith)

take-take : {A : Type 0} (m n : ℕ) (xs : List A) → m ≤ n → take m (take n xs) ≡ take m xs
take-take zero n xs h = refl
take-take (suc m) zero xs h = absurd (omega arith)
take-take (suc m) (suc n) [] h = refl
take-take (suc m) (suc n) (x ∷ xs) h = ap (◌∷◌ x) (take-take m n xs (omega arith))

module _ {F : Type 0} ⦃fl : Float F⦄ (look : Look) (st : AlertStyles) where
  -- After any messages the view shows the 15 newest alerts that came, the newest first, each in a box;
  -- and then, if more are kept, one line with their number, where at most the 50 newest are kept.
  pub boxes-run_alerts :
      (ms : List (Msg (PriceAlert F)))
      → let newest = newest_first (came ms) [] in
        let kept = take 50 newest in
        boxes look st (run_alerts ms Alerts.new).alerts
        ≡ map (alert_box look st) (take 15 newest)
          ++ (if ltb 15 (length kept) then more_line st (length kept - 15) ∷ [] else [])
  boxes-run_alerts ms =
      let newest : List (PriceAlert F) = newest_first (came ms) [] in
      let rest : List (PriceAlert F) → List Text =
        λ as'. if ltb 15 (length as') then more_line st (length as' - 15) ∷ [] else [] in
      boxes-take look st (run_alerts ms Alerts.new).alerts
      ∙ ap (λ as'. map (alert_box look st) (take 15 as') ++ rest as') (run_alerts-alerts ms)
      ∙ ap (λ as'. map (alert_box look st) as' ++ rest (take 50 newest))
          (take-take 15 50 newest (omega arith))
