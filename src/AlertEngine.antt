-- ===== src/AlertEngine.antt =====
-- internal/domain/alertengine.go: the alert rules and the flags of the alerts that have fired. The
-- lock makes each method one step.
pub mod Flags
pub mod Edges
pub mod Removal
pub mod Ids
pub mod SharedKeys
use termino.Prelude.{
  Bool, true, false, not, ◌&&◌, List, [], ◌∷◌, ◌++◌, Option, none, some, if◌then◌else◌, ◌==◌,
}
use termino.Prelude.Decimal.{itoa}
use termino.Prelude.Text.{Text, text_eq, codes}
use termino.Prelude.Dict.{lookup, insert, delete}
use termino.Float.{Float}
use termino.Models.{AggregatedPrice, PriceAlert, AlertRule}

pub record AlertEngine (F : Type 0) : Type 0 where
  pub rules : List (AlertRule F)
  pub fired : List (Text × Bool)

abbrev pub above : Text
above = codes "above"

abbrev pub below : Text
below = codes "below"

-- Reading a map of flags at a missing key gives `false`.
abbrev pub flag_or_false : Option Bool → Bool
flag_or_false none = false
flag_or_false (some b) = b

abbrev pub is_fired : Text → List (Text × Bool) → Bool
is_fired k fired = flag_or_false (lookup k fired)

module _ {F : Type 0} ⦃fl : Float F⦄ where
  abbrev pub new : List (AlertRule F) → AlertEngine F
  new rules = record { rules = rules; fired = [] }

  unfoldable pub add_rule : AlertEngine F → AlertRule F → AlertEngine F
  add_rule e rule = record e { rules = e.rules ++ rule ∷ [] }

  -- "<symbol>-<direction>-<threshold with two decimals>"
  unfoldable pub fired_key : AlertRule F → Text
  fired_key r = r.symbol ++ codes "-" ++ r.direction ++ codes "-" ++ fl.fixed 2 r.threshold

  -- The loop of `RemoveRule`: the rules without the first one of this ID, and that rule.
  pub cut_rule : Text → List (AlertRule F) → List (AlertRule F) × Option (AlertRule F)
  cut_rule id [] = ([], none)
  cut_rule id (r ∷ rs) =
      let (kept, found) = cut_rule id rs in if r.id == id then (rs, some r) else (r ∷ kept, found)

  removal : AlertEngine F → List (AlertRule F) × Option (AlertRule F) → AlertEngine F × Bool
  removal e (kept, none) = (e, false)
  removal e (kept, some r) = (record e { rules = kept; fired = delete (fired_key r) e.fired }, true)

  unfoldable pub remove_rule : AlertEngine F → Text → AlertEngine F × Bool
  unfolding removal cut_rule
  remove_rule e id = removal e (cut_rule id e.rules)

  pub list_rules : AlertEngine F → List (AlertRule F)
  list_rules e = e.rules

  unfoldable pub triggered : AggregatedPrice F → AlertRule F → Bool
  triggered price r =
      if r.direction == above
      then fl.le r.threshold price.price
      else if r.direction == below
      then fl.le price.price r.threshold
      else false

  pub alert_for : AggregatedPrice F → AlertRule F → PriceAlert F
  alert_for price r = record {
    id = codes "alert-" ++ r.symbol ++ codes "-" ++ itoa price.timestamp;
    symbol = r.symbol;
    rule = r.symbol ++ codes " " ++ r.direction ++ codes " " ++ fl.fixed 2 r.threshold;
    threshold = r.threshold;
    current = price.price;
    direction = r.direction;
    message =
        r.symbol
        ++ codes " price is "
        ++ fl.fixed 2 price.price
        ++ codes " ("
        ++ r.direction
        ++ codes " threshold "
        ++ fl.fixed 2 r.threshold
        ++ codes ")";
    timestamp = price.timestamp;
  }

  -- One round of the loop of `Evaluate` on a rule of the price's symbol.
  pub check_rule :
      AggregatedPrice F
      → AlertRule F
      → List (Text × Bool)
      → List (Text × Bool) × List (PriceAlert F)
  check_rule price r fired =
      if triggered price r && not (is_fired (fired_key r) fired)
      then (insert (fired_key r) true fired, alert_for price r ∷ [])
      else if not (triggered price r)
      then (delete (fired_key r) fired, [])
      else (fired, [])

  pub check_rules :
      AggregatedPrice F
      → List (AlertRule F)
      → List (Text × Bool)
      → List (Text × Bool) × List (PriceAlert F)
  unfolding check_rule
  check_rules price [] fired = (fired, [])
  check_rules price (r ∷ rs) fired =
      let (now, alerts) =
        if r.symbol == price.symbol then check_rule price r fired else (fired, []) in
      let (later, more) = check_rules price rs now in (later, alerts ++ more)

  unfoldable pub evaluate : AlertEngine F → AggregatedPrice F → AlertEngine F × List (PriceAlert F)
  unfolding check_rules
  evaluate e price =
      let (fired, alerts) = check_rules price e.rules e.fired in
      (record e { fired = fired }, alerts)
