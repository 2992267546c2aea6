-- ===== src/AlertEngine/Edges.antt =====
-- Which alerts internal/domain/alertengine.go raises over a history of prices, where no two rules
-- have the same key.
use termino.Prelude.{
  ◌≡◌, refl, ap, ◌∙◌, Bool, false, not, ◌&&◌, List, [], ◌∷◌, ◌==◌, All, All-of, All-map, All-map2,
  select-ext, select, arith,
}
use termino.Prelude.Text.{Text, text_eq, text_beq_iff}
use termino.Prelude.Dict.{IsDistinct}
use termino.Float.{Float}
use termino.Models.{AggregatedPrice, AlertRule}
use termino.AlertEngine.{
  AlertEngine, new, is_fired, fired_key, triggered, check_rule, check_rules, evaluate,
}
use termino.AlertEngine.Flags.{
  fired_keys, raises, alerts_of, after_head, is_fired-after_head, is_fired-check_rules, others_kept,
  flag_after,
}

module _ {F : Type 0} ⦃fl : Float F⦄ where
  -- The history of the prices, the oldest first.
  unfoldable pub run : AlertEngine F → List (AggregatedPrice F) → AlertEngine F
  run e [] = e
  run e (p ∷ ps) = run (evaluate e p).0 ps

  -- Whether the last price of the rule's symbol triggered the rule; `old` if there was none.
  abbrev pub was_triggered : Bool → AlertRule F → List (AggregatedPrice F) → Bool
  was_triggered old r [] = old
  was_triggered old r (p ∷ ps) = was_triggered (flag_after p r old) r ps

  flags_after :
      (p : AggregatedPrice F) (rs : List (AlertRule F)) (fired : List (Text × Bool))
      → IsDistinct (fired_keys rs)
      → All
          (λ r.
            is_fired (fired_key r) (check_rules p rs fired).0
            ≡ flag_after p r (is_fired (fired_key r) fired))
          rs
  unfolding check_rules
  flags_after p [] fired h = tt
  flags_after p (r ∷ rs) fired h = (
    ground (
      arith,
      is_fired-check_rules p rs (after_head p r fired) (fired_key r),
      is_fired-after_head p r fired (fired_key r),
      text_beq_iff (fired_key r) (fired_key r),
    ),
    All-map2 (λ q f k. f ∙ ap (flag_after p q) k) rs (flags_after p rs (after_head p r fired) h.1)
        (others_kept p r rs fired h.0),
  )

  alerts_raised :
      (p : AggregatedPrice F) (rs : List (AlertRule F)) (fired : List (Text × Bool))
      → IsDistinct (fired_keys rs)
      → (check_rules p rs fired).1 ≡ alerts_of p (select (raises p fired) rs)
  unfolding check_rules check_rule
  alerts_raised p [] fired h = refl
  alerts_raised p (r ∷ rs) fired h =
      let same : select (raises p (after_head p r fired)) rs ≡ select (raises p fired) rs =
        select-ext _ _ rs (
          All-map (λ q k. ap (λ (b : Bool). q.symbol == p.symbol && (triggered p q && not b)) k) rs
            (others_kept p r rs fired h.0)) in
      ground (arith, alerts_raised p rs (after_head p r fired) h.1, same)

  run_flags :
      (e : AlertEngine F) (ps : List (AggregatedPrice F))
      → IsDistinct (fired_keys e.rules)
      → All
          (λ r.
            is_fired (fired_key r) (run e ps).fired
            ≡ was_triggered (is_fired (fired_key r) e.fired) r ps)
          e.rules
  unfolding run evaluate
  run_flags e [] h = All-of (λ r. refl) e.rules
  run_flags e (p ∷ ps) h =
      All-map2 (λ r f k. f ∙ ap (λ (b : Bool). was_triggered b r ps) k) e.rules
        (run_flags (evaluate e p).0 ps h) (flags_after p e.rules e.fired h)

  run-rules : (e : AlertEngine F) (ps : List (AggregatedPrice F)) → (run e ps).rules ≡ e.rules
  unfolding run evaluate
  run-rules e [] = refl
  run-rules e (p ∷ ps) = run-rules (evaluate e p).0 ps

  -- A rule raises an alert at a price that it is for and that triggers it, unless the last price of
  -- its symbol before triggered it too.
  abbrev pub rises : List (AggregatedPrice F) → AggregatedPrice F → AlertRule F → Bool
  rises ps p r = r.symbol == p.symbol && (triggered p r && not (was_triggered false r ps))

  -- From a new engine whose rules have different keys, after any history of prices, `Evaluate`
  -- returns exactly the alerts of the rules that the price triggers and that the last earlier price
  -- of their symbol, if any, did not trigger, in the order of the rules.
  pub evaluate-run :
      (rules : List (AlertRule F)) (ps : List (AggregatedPrice F)) (p : AggregatedPrice F)
      → IsDistinct (fired_keys rules)
      → (evaluate (run (new rules) ps) p).1 ≡ alerts_of p (select (rises ps p) rules)
  unfolding evaluate
  evaluate-run rules ps p h =
      let e : AlertEngine F = run (new rules) ps in
      rw (run-rules (new rules) ps) (
        alerts_raised p rules e.fired h
        ∙ ap (alerts_of p) (
            select-ext (raises p e.fired) (rises ps p) rules (
              All-map (λ r k. ap (λ (b : Bool). r.symbol == p.symbol && (triggered p r && not b)) k)
                rules (run_flags (new rules) ps h))))
