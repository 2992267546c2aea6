-- ===== src/Cli/AlertsView.antt =====
-- `View` of cli/crypto-stream/ui/alerts.go. The styles of lipgloss and the clock are parameters.
pub mod Shown
use termino.Prelude.{
  ℕ, suc, ◌+◌, ◌-◌, Bool, List, [], ◌∷◌, ◌++◌, Option, none, some, length, leb, if◌then◌else◌, ◌==◌,
}
use termino.Prelude.Int.{ℤ, pos}
use termino.Prelude.Decimal.{itoa}
use termino.Prelude.Text.{Text, text_eq, codes}
use termino.Float.{Float}
use termino.Models.{PriceAlert}
use termino.Cli.{Look}
use termino.Cli.Alerts.{AlertModel}

pub record AlertStyles : Type 0 where
  pub title : Text → Text
  pub dim : Text → Text
  pub symbol : Text → Text
  pub box : Text → Text

pub more_line : AlertStyles → ℕ → Text
more_line st n = st.dim (codes "  ... and " ++ itoa (pos n) ++ codes " more alerts" ++ 10 ∷ [])

error_line : Look → Option Text → Bool → Text
error_line look none connected = []
error_line look (some e) connected =
    if connected then [] else look.red (codes "  Connection error: " ++ e ++ 10 ∷ 10 ∷ [])

written : List Text → Text
written [] = []
written (t ∷ ts) = t ++ written ts

module _ {F : Type 0} ⦃fl : Float F⦄ (look : Look) (st : AlertStyles) where
  -- The box of one alert, with its icon and style by the direction.
  unfoldable pub alert_box : PriceAlert F → Text
  alert_box a =
      let icon =
        if a.direction == codes "below" then look.red (0x25bc ∷ []) else look.green (0x25b2 ∷ []) in
      st.box (
        icon
        ++ codes " "
        ++ st.symbol a.symbol
        ++ codes " "
        ++ a.direction
        ++ codes "  $"
        ++ fl.fixed 2 a.current
        ++ codes "  (threshold: $"
        ++ fl.fixed 2 a.threshold
        ++ codes ")  "
        ++ st.dim (look.clock a.timestamp))
      ++ 10 ∷ []

  -- The loop over the alerts, with the index; `total` is their number.
  pub boxes_from : ℕ → ℕ → List (PriceAlert F) → List Text
  unfolding more_line
  boxes_from total i [] = []
  boxes_from total i (a ∷ as') =
      let rest = boxes_from total (i + 1) as' in
      if leb 15 i then more_line st (total - 15) ∷ [] else alert_box a ∷ rest

  unfoldable pub boxes : List (PriceAlert F) → List Text
  unfolding boxes_from
  boxes alerts = boxes_from (length alerts) 0 alerts

  waiting_lines : List (PriceAlert F) → Text
  waiting_lines [] =
      st.dim (codes "  Waiting for alerts..." ++ 10 ∷ [])
      ++ st.dim (codes "  Alerts trigger when prices cross configured thresholds." ++ 10 ∷ [])
  waiting_lines (a ∷ as') = []

  unfoldable pub view : AlertModel F → Text
  unfolding error_line waiting_lines written boxes
  view m =
      st.title (codes " PRICE ALERTS ")
      ++ 10 ∷ 10 ∷ []
      ++ error_line look m.err m.connected
      ++ waiting_lines m.alerts
      ++ written (boxes m.alerts)
      ++ 10 ∷ []
      ++ (if m.connected
          then look.green (codes "  " ++ 0x25cf ∷ codes " LISTENING")
          else look.red (codes "  " ++ 0x25cf ∷ codes " DISCONNECTED"))
      ++ st.dim (codes "  |  Press q to quit")
