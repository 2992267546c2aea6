-- ===== src/AlertEngine/Ids.antt =====
-- The IDs of the rules through `RemoveRule` of internal/domain/alertengine.go.
use termino.Prelude.{
  ◌≡◌, refl, false, List, [], ◌∷◌, Option, none, some, Bool-cases, inl, inr, ◌==◌, arith,
}
use termino.Prelude.Text.{Text, text_eq}
use termino.Prelude.Dict.{member, IsDistinct}
use termino.Float.{Float}
use termino.Models.{AlertRule}
use termino.AlertEngine.{AlertEngine, cut_rule, removal, remove_rule}
use termino.AlertEngine.Removal.{ids}

module _ {F : Type 0} ⦃fl : Float F⦄ where
  member-cut_rule :
      (x id : Text) (rs : List (AlertRule F))
      → member x (ids rs) ≡ false
      → member x (ids (cut_rule id rs).0) ≡ false
  unfolding cut_rule
  member-cut_rule x id [] h = refl
  member-cut_rule x id (r ∷ rs) h = elim (Bool-cases (r.id == id)) [
    | inl e ↦ rw e (ground arith)
    | inr e ↦ rw e (ground (arith, member-cut_rule x id rs))
  ]

  cut_rule-IsDistinct :
      (id : Text) (rs : List (AlertRule F))
      → IsDistinct (ids rs)
      → IsDistinct (ids (cut_rule id rs).0)
  unfolding cut_rule
  cut_rule-IsDistinct id [] d = tt
  cut_rule-IsDistinct id (r ∷ rs) d = elim (Bool-cases (r.id == id)) [
    | inl e ↦ rw e d.1
    | inr e ↦ rw e (member-cut_rule r.id id rs d.0, cut_rule-IsDistinct id rs d.1)
  ]

  removal-IsDistinct :
      (e : AlertEngine F) (c : List (AlertRule F) × Option (AlertRule F))
      → IsDistinct (ids e.rules)
      → IsDistinct (ids c.0)
      → IsDistinct (ids (removal e c).0.rules)
  unfolding removal
  removal-IsDistinct e (kept, none) h k = h
  removal-IsDistinct e (kept, some r) h k = k

  pub remove_rule-IsDistinct :
      (e : AlertEngine F) (id : Text)
      → IsDistinct (ids e.rules)
      → IsDistinct (ids (remove_rule e id).0.rules)
  unfolding remove_rule
  remove_rule-IsDistinct e id h =
      removal-IsDistinct e (cut_rule id e.rules) h (cut_rule-IsDistinct id e.rules h)
