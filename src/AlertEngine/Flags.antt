-- ===== src/AlertEngine/Flags.antt =====
-- The fired flags through one `Evaluate` of internal/domain/alertengine.go.
use termino.Prelude.{
  ◌≡◌, refl, Bool, true, false, not, ◌&&◌, List, [], ◌∷◌, if◌then◌else◌, ◌==◌, All, arith,
}
use termino.Prelude.Text.{Text, text_eq, text_beq_iff}
use termino.Prelude.Dict.{lookup-insert, lookup-delete, member}
use termino.Float.{Float}
use termino.Models.{AggregatedPrice, PriceAlert, AlertRule}
use termino.AlertEngine.{is_fired, fired_key, triggered, alert_for, check_rule, check_rules}

module _ {F : Type 0} ⦃fl : Float F⦄ where
  abbrev pub fired_keys : List (AlertRule F) → List Text
  fired_keys [] = []
  fired_keys (r ∷ rs) = fired_key r ∷ fired_keys rs

  -- A rule raises an alert: the price is of its symbol and triggers it, and its flag is not set.
  abbrev pub raises : AggregatedPrice F → List (Text × Bool) → AlertRule F → Bool
  raises p fired r = r.symbol == p.symbol && (triggered p r && not (is_fired (fired_key r) fired))

  abbrev pub alerts_of : AggregatedPrice F → List (AlertRule F) → List (PriceAlert F)
  alerts_of p [] = []
  alerts_of p (r ∷ rs) = alert_for p r ∷ alerts_of p rs

  is_fired-check_rule :
      (p : AggregatedPrice F) (r : AlertRule F) (fired : List (Text × Bool)) (k : Text)
      → is_fired k (check_rule p r fired).0
        ≡ (if fired_key r == k then triggered p r else is_fired k fired)
  unfolding check_rule
  is_fired-check_rule p r fired k = ground (
    arith,
    text_beq_iff (fired_key r) k,
    lookup-insert (fired_key r) k true fired,
    lookup-delete (fired_key r) k fired,
  )

  -- The flags after the head of the list.
  abbrev pub after_head : AggregatedPrice F → AlertRule F → List (Text × Bool) → List (Text × Bool)
  after_head p r fired = (if r.symbol == p.symbol then check_rule p r fired else (fired, [])).0

  pub is_fired-after_head :
      (p : AggregatedPrice F) (r : AlertRule F) (fired : List (Text × Bool)) (k : Text)
      → is_fired k (after_head p r fired)
        ≡ (if r.symbol == p.symbol && fired_key r == k then triggered p r else is_fired k fired)
  is_fired-after_head p r fired k = ground (arith, is_fired-check_rule p r fired k)

  -- A key of no rule keeps its flag.
  pub is_fired-check_rules :
      (p : AggregatedPrice F) (rs : List (AlertRule F)) (fired : List (Text × Bool)) (k : Text)
      → member k (fired_keys rs) ≡ false
      → is_fired k (check_rules p rs fired).0 ≡ is_fired k fired
  unfolding check_rules
  is_fired-check_rules p [] fired k h = refl
  is_fired-check_rules p (r ∷ rs) fired k h =
      ground
        (arith, is_fired-after_head p r fired k, is_fired-check_rules p rs (after_head p r fired) k)

  -- The head of the list leaves the flags of the other rules alone.
  pub others_kept :
      (p : AggregatedPrice F) (r : AlertRule F) (rs : List (AlertRule F))
      (fired : List (Text × Bool))
      → member (fired_key r) (fired_keys rs) ≡ false
      → All (λ q. is_fired (fired_key q) (after_head p r fired) ≡ is_fired (fired_key q) fired) rs
  others_kept p r [] fired h = tt
  others_kept p r (q ∷ rs) fired h = (
    ground (
      arith,
      is_fired-after_head p r fired (fired_key q),
      text_beq_iff (fired_key r) (fired_key q),
      text_beq_iff (fired_key q) (fired_key r),
    ),
    others_kept p r rs fired (ground arith),
  )

  abbrev pub flag_after : AggregatedPrice F → AlertRule F → Bool → Bool
  flag_after p r old = if r.symbol == p.symbol then triggered p r else old
