-- ===== src/AlertService/Rules.antt =====
-- Which rules the API of services/alert-service/main.go lets into the engine.
use termino.Prelude.{
  ℕ, ◌≡◌, ◌≢◌, ◌⊎◌, inl, inr, refl, Bool, true, false, List, [], ◌∷◌, ◌++◌, Option, none, some, All,
  All-append, Bool-cases, ◌==◌, arith,
}
use termino.Prelude.Text.{Text, codes, text_eq, text_beq, text_beq_iff}
use termino.Prelude.Int.{pos, ◌+ℤ◌}
use termino.Prelude.Decimal.{itoa}
use termino.Float.{Float}
use termino.Models.{AlertRule}
use termino.AlertEngine.{AlertEngine, above, below, add_rule, remove_rule}
use termino.AlertEngine.Removal.{remove_rule-All}
use termino.AlertService.{
  Service, Method, get, post, delete_id, other, lacks_field, bad_direction, store, name_and_store,
  handle_add_rule, answer_removal, handle_delete_rule, handle_rules, default_rule, default_rules,
  new,
}

-- A rule that `Evaluate` can trigger, and that can be deleted by its ID.
pub record IsUsable {F : Type 0} (r : AlertRule F) : Type 0 where
  pub has_id : r.id ≢ []
  pub has_symbol : r.symbol ≢ []
  pub has_direction : (r.direction ≡ above) ⊎ (r.direction ≡ below)

module _ {F : Type 0} ⦃fl : Float F⦄ where
  answer_removal-rules :
      (s : Service F) (x : AlertEngine F × Bool) → (answer_removal s x).0.engine ≡ x.0
  unfolding answer_removal
  answer_removal-rules s (e, true) = refl
  answer_removal-rules s (e, false) = refl

  checked-IsUsable :
      (r : AlertRule F)
      → lacks_field r ≡ false
      → bad_direction r ≡ false
      → (r.id == []) ≡ false
      → IsUsable r
  checked-IsUsable r f d i = record {
    has_id = ground (arith, text_beq_iff r.id []);
    has_symbol = ground (arith, text_beq_iff r.symbol []);
    has_direction = elim (Bool-cases (r.direction == above)) [
      | inl e ↦ inl ((text_beq_iff r.direction above).0 e)
      | inr e ↦ inr (ground (arith, text_beq_iff r.direction below))
    ];
  }

  with_rule :
      (r : AlertRule F) (e : AlertEngine F)
      → IsUsable r
      → All IsUsable e.rules
      → All IsUsable (add_rule e r).rules
  unfolding add_rule
  with_rule r e h k = All-append IsUsable e.rules (r ∷ []) k (h, tt)

  named-IsUsable :
      (r : AlertRule F) (s : Service F)
      → lacks_field r ≡ false
      → bad_direction r ≡ false
      → All IsUsable s.engine.rules
      → All IsUsable (name_and_store r s).0.engine.rules
  unfolding name_and_store store text_beq
  named-IsUsable r s f d h = elim (Bool-cases (r.id == [])) [
    | inl e ↦ rw e (
        let id = codes "rule-" ++ itoa (s.rule_id_counter +ℤ pos 1) in
        with_rule (record r { id = id }) s.engine (checked-IsUsable (record r { id = id }) f d refl)
          h)
    | inr e ↦ rw e (with_rule r s.engine (checked-IsUsable r f d e) h)
  ]

  added-IsUsable :
      (body : Option (AlertRule F)) (s : Service F)
      → All IsUsable s.engine.rules
      → All IsUsable (handle_add_rule body s).0.engine.rules
  unfolding handle_add_rule
  added-IsUsable none s h = h
  added-IsUsable (some r) s h = elim (Bool-cases (lacks_field r)) [
    | inl f ↦ rw f h
    | inr f ↦ elim (Bool-cases (bad_direction r)) [
      | inl d ↦ rw (f, d) h
      | inr d ↦ rw (f, d) (named-IsUsable r s f d h)
    ]
  ]

  deleted-IsUsable :
      (id : Text) (s : Service F)
      → All IsUsable s.engine.rules
      → All IsUsable (handle_delete_rule id s).0.engine.rules
  unfolding handle_delete_rule
  deleted-IsUsable id s h = elim (Bool-cases (id == [])) [
    | inl e ↦ rw e h
    | inr e ↦
        rw (e, answer_removal-rules s (remove_rule s.engine id))
          (remove_rule-All IsUsable s.engine id h)
  ]

  step-IsUsable :
      (m : Method F) (s : Service F)
      → All IsUsable s.engine.rules
      → All IsUsable (handle_rules m s).0.engine.rules
  unfolding handle_rules
  step-IsUsable get s h = h
  step-IsUsable (post body) s h = added-IsUsable body s h
  step-IsUsable (delete_id id) s h = deleted-IsUsable id s h
  step-IsUsable other s h = h

  -- Requests to `/rules` one after another.
  unfoldable pub run : List (Method F) → Service F → Service F
  run [] s = s
  run (m ∷ ms) s = run ms (handle_rules m s).0

  run-IsUsable :
      (ms : List (Method F)) (s : Service F)
      → All IsUsable s.engine.rules
      → All IsUsable (run ms s).engine.rules
  unfolding run
  run-IsUsable [] s h = h
  run-IsUsable (m ∷ ms) s h = run-IsUsable ms (handle_rules m s).0 (step-IsUsable m s h)

  default_rule-IsUsable :
      (n : ℕ) (symbol : Text) (threshold : ℕ) (direction : Text)
      → symbol ≢ []
      → (direction ≡ above) ⊎ (direction ≡ below)
      → IsUsable {F = F} (default_rule n symbol threshold direction)
  unfolding default_rule
  default_rule-IsUsable n symbol threshold direction h k = record {
    has_id = λ e. cc;
    has_symbol = h;
    has_direction = k;
  }

  default_rules-IsUsable :
      (ms : List (Method F)) → All (IsUsable {F = F}) (new {F = F}).engine.rules
  unfolding default_rules
  default_rules-IsUsable ms = (
    default_rule-IsUsable 1 _ 65000 _ (λ e. cc) (inl refl),
    (
      default_rule-IsUsable 2 _ 60000 _ (λ e. cc) (inr refl),
      (
        default_rule-IsUsable 3 _ 3500 _ (λ e. cc) (inl refl),
        (
          default_rule-IsUsable 4 _ 3000 _ (λ e. cc) (inr refl),
          (
            default_rule-IsUsable 5 _ 160 _ (λ e. cc) (inl refl),
            (default_rule-IsUsable 6 _ 130 _ (λ e. cc) (inr refl), tt),
          ),
        ),
      ),
    ),
  )

  -- From the default rules, after any requests to `/rules` each rule of the engine has an ID, a
  -- symbol, and the direction "above" or "below".
  pub run-new-IsUsable : (ms : List (Method F)) → All IsUsable (run ms new).engine.rules
  run-new-IsUsable ms = run-IsUsable ms new (default_rules-IsUsable ms)
