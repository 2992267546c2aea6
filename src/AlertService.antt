-- ===== src/AlertService.antt =====
-- services/alert-service/main.go: the HTTP API of the alert rules, and the consumer of prices.
pub mod Rules
pub mod Published
pub mod Distinct
use termino.Prelude.{
  ℕ, Bool, true, false, not, ◌&&◌, ◌||◌, List, [], ◌∷◌, ◌++◌, Option, none, some, if◌then◌else◌,
  ◌==◌,
}
use termino.Prelude.Int.{ℤ, pos, ◌+ℤ◌}
use termino.Prelude.Decimal.{itoa}
use termino.Prelude.Text.{Text, text_eq, codes}
use termino.Float.{Float}
use termino.Models.{AggregatedPrice, PriceAlert, AlertRule, Codec}
use termino.AlertEngine.{AlertEngine, above, below, add_rule, remove_rule, list_rules, evaluate}
use termino.Kafka.Consumer.{Env, publish}
use termino.Kafka.Attempts.{Attempt}

-- An answer: its status, and a rule or a list of rules in the body.
pub data Response (F : Type 0) : Type 0 where
  status : ℕ → Response F
  created : AlertRule F → Response F
  listed : List (AlertRule F) → Response F

pub record Service (F : Type 0) : Type 0 where
  pub engine : AlertEngine F
  pub rule_id_counter : ℤ

pub data Method (F : Type 0) : Type 0 where
  get : Method F
  -- The rule in the body, if it can be decoded.
  post : Option (AlertRule F) → Method F
  -- The parameter `id`, empty if it is missing.
  delete_id : Text → Method F
  other : Method F

module _ {F : Type 0} ⦃fl : Float F⦄ where
  abbrev pub lacks_field : AlertRule F → Bool
  lacks_field r = r.symbol == [] || r.direction == [] || fl.eq r.threshold (fl.of_nat 0)

  abbrev pub bad_direction : AlertRule F → Bool
  bad_direction r = not (r.direction == above) && not (r.direction == below)

  store : AlertRule F → Service F → Service F × Response F
  store r s = (record s { engine = add_rule s.engine r }, created r)

  -- A rule without an ID gets the next one of the counter.
  name_and_store : AlertRule F → Service F → Service F × Response F
  unfolding store
  name_and_store r s =
      if r.id == []
      then (let n = s.rule_id_counter +ℤ pos 1 in
          store (record r { id = codes "rule-" ++ itoa n }) (record s { rule_id_counter = n }))
      else store r s

  unfoldable pub handle_add_rule : Option (AlertRule F) → Service F → Service F × Response F
  unfolding name_and_store
  handle_add_rule none s = (s, status 400)
  handle_add_rule (some r) s =
      if lacks_field r
      then (s, status 400)
      else if bad_direction r
      then (s, status 400)
      else name_and_store r s

  answer_removal : Service F → AlertEngine F × Bool → Service F × Response F
  answer_removal s (e, true) = (record s { engine = e }, status 204)
  answer_removal s (e, false) = (record s { engine = e }, status 404)

  unfoldable pub handle_delete_rule : Text → Service F → Service F × Response F
  unfolding answer_removal
  handle_delete_rule id s =
      if id == [] then (s, status 400) else answer_removal s (remove_rule s.engine id)

  unfoldable pub handle_rules : Method F → Service F → Service F × Response F
  handle_rules get s = (s, listed (list_rules s.engine))
  handle_rules (post body) s = handle_add_rule body s
  handle_rules (delete_id id) s = handle_delete_rule id s
  handle_rules other s = (s, status 405)

  default_rule : ℕ → Text → ℕ → Text → AlertRule F
  default_rule n symbol threshold direction = record {
    id = codes "default-" ++ itoa (pos n);
    symbol = symbol;
    threshold = fl.of_nat threshold;
    direction = direction;
  }

  unfoldable pub default_rules : List (AlertRule F)
  unfolding default_rule
  default_rules =
      default_rule 1 (codes "BTC") 65000 above
      ∷ default_rule 2 (codes "BTC") 60000 below
      ∷ default_rule 3 (codes "ETH") 3500 above
      ∷ default_rule 4 (codes "ETH") 3000 below
      ∷ default_rule 5 (codes "SOL") 160 above
      ∷ default_rule 6 (codes "SOL") 130 below
      ∷ []

  abbrev pub new : Service F
  new = record { engine = record { rules = default_rules; fired = [] }; rule_id_counter = pos 0 }

-- The consumer: an alert that cannot be marshalled or published is skipped. What was asked to be
-- published is recorded with the broker's answer.
module _ {F S : Type 0} ⦃fl : Float F⦄ (env : Env S) (topic : Text)
    (prices : Codec (AggregatedPrice F)) (alerts : Codec (PriceAlert F)) where
  publish_marshalled : PriceAlert F → Option Text → S → S × List Attempt
  publish_marshalled a none s = (s, [])
  publish_marshalled a (some text) s =
      let (s', e) = publish env topic a.symbol text s in
      (s', record { key = a.symbol; value = text; answer = e } ∷ [])

  publish_all : List (PriceAlert F) → S → S × List Attempt
  unfolding publish_marshalled
  publish_all [] s = (s, [])
  publish_all (a ∷ as') s =
      let (s1, sent) = publish_marshalled a (alerts.marshal a) s in
      let (s2, more) = publish_all as' s1 in (s2, sent ++ more)

  -- What the handler leaves: the engine, the brokers, what it attempted, and its error.
  handle_decoded :
      Option (AggregatedPrice F)
      → AlertEngine F
      → S
      → AlertEngine F × S × List Attempt × Option Text
  unfolding publish_all
  handle_decoded none e s = (e, s, [], some (codes "invalid JSON"))
  handle_decoded (some p) e s =
      let (e', as') = evaluate e p in let (s', sent) = publish_all as' s in (e', s', sent, none)

  unfoldable pub handle_price :
      Text → AlertEngine F → S → AlertEngine F × S × List Attempt × Option Text
  unfolding handle_decoded
  handle_price value e s = handle_decoded (prices.unmarshal value) e s

  -- The values of messages, one after the other.
  unfoldable pub run_prices : List Text → AlertEngine F → S → AlertEngine F × S × List Attempt
  run_prices [] e s = (e, s, [])
  run_prices (value ∷ values) e s =
      let (e1, s1, sent, err) = handle_price value e s in
      let (e2, s2, more) = run_prices values e1 s1 in (e2, s2, sent ++ more)
