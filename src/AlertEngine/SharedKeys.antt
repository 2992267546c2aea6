-- ===== src/AlertEngine/SharedKeys.antt =====
-- Two rules of internal/domain/alertengine.go whose thresholds agree in two decimals share a key.
use termino.Prelude.{◌≡◌, refl, ◌∙◌, true, false, [], ◌∷◌, arith}
use termino.Prelude.Text.{text_eq, text_beq_iff}
use termino.Float.{Float}
use termino.Models.{AggregatedPrice, AlertRule}
use termino.AlertEngine.{
  AlertEngine, is_fired, fired_key, triggered, alert_for, check_rule, check_rules, evaluate,
}
use termino.AlertEngine.Flags.{after_head, is_fired-after_head}

module _ {F : Type 0} ⦃fl : Float F⦄ (p : AggregatedPrice F) (a b : AlertRule F)
    (same_key : fired_key a ≡ fired_key b) (a_for : a.symbol ≡ p.symbol)
    (b_for : b.symbol ≡ p.symbol) (a_on : triggered p a ≡ true)
    (b_off : triggered p b ≡ false) where
  flag_lost :
      (e : AlertEngine F)
      → e.rules ≡ a ∷ b ∷ []
      → is_fired (fired_key a) (evaluate e p).0.fired ≡ false
  unfolding evaluate check_rules
  flag_lost e h = rw h (
      ground (
        arith,
        text_beq_iff a.symbol p.symbol,
        text_beq_iff b.symbol p.symbol,
        text_beq_iff (fired_key b) (fired_key a),
        is_fired-after_head p b (after_head p a e.fired) (fired_key a),
      ))

  alert_again :
      (e : AlertEngine F)
      → e.rules ≡ a ∷ b ∷ []
      → is_fired (fired_key a) e.fired ≡ false
      → (evaluate e p).1 ≡ alert_for p a ∷ []
  unfolding evaluate check_rules check_rule
  alert_again e h k = rw h (
      ground (
        arith,
        text_beq_iff a.symbol p.symbol,
        text_beq_iff b.symbol p.symbol,
        text_beq_iff (fired_key b) (fired_key a),
      ))

  -- An engine with two rules of one symbol and one key, of which the price triggers the first and
  -- not the second, raises the first rule's alert again each time that the price comes.
  pub shared_key_repeats :
      (e : AlertEngine F)
      → e.rules ≡ a ∷ b ∷ []
      → (evaluate (evaluate e p).0 p).1 ≡ alert_for p a ∷ []
  unfolding evaluate
  shared_key_repeats e h = alert_again (evaluate e p).0 (evaluate-rules e ∙ h) (flag_lost e h)
    where
      evaluate-rules : (x : AlertEngine F) → (evaluate x p).0.rules ≡ x.rules
      evaluate-rules x = refl
