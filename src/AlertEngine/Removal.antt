-- ===== src/AlertEngine/Removal.antt =====
-- `RemoveRule` of internal/domain/alertengine.go.
use termino.Prelude.{
  All, ◌≡◌, refl, ap, ◌⊎◌, inl, inr, true, false, List, [], ◌∷◌, ◌++◌, Option, none, some,
  if◌then◌else◌, ◌==◌, arith, Bool-cases,
}
use termino.Prelude.Text.{Text, text_eq, text_beq_iff}
use termino.Prelude.Dict.{lookup-delete, member}
use termino.Float.{Float}
use termino.Models.{AlertRule}
use termino.AlertEngine.{AlertEngine, is_fired, fired_key, cut_rule, removal, remove_rule}

abbrev pub ids : {F : Type 0} → List (AlertRule F) → List Text
ids [] = []
ids (r ∷ rs) = r.id ∷ ids rs

-- The rule that goes is the first one of the ID.
pub record IsCut {F : Type 0} (id : Text) (rs kept : List (AlertRule F)) (r : AlertRule F)
    : Type 0 where
  pub front : List (AlertRule F)
  pub rest : List (AlertRule F)
  pub whole : rs ≡ front ++ r ∷ rest
  pub kept_is : kept ≡ front ++ rest
  pub id_is : r.id ≡ id
  pub first : member id (ids front) ≡ false

module _ {F : Type 0} where
  abbrev CutResult : Text → List (AlertRule F) → List (AlertRule F) × Option (AlertRule F) → Type 0
  CutResult id rs (kept, none) = (member id (ids rs) ≡ false) × (kept ≡ rs)
  CutResult id rs (kept, some r) = (member id (ids rs) ≡ true) × IsCut id rs kept r

  cut_more :
      (id : Text) (x : AlertRule F) (rs : List (AlertRule F))
      (c : List (AlertRule F) × Option (AlertRule F))
      → (x.id == id) ≡ false
      → CutResult id rs c
      → CutResult id (x ∷ rs) (x ∷ c.0, c.1)
  cut_more id x rs (kept, none) e (h, k) = (rw (e, h), ap (◌∷◌ x) k)
  cut_more id x rs (kept, some r) e (h, k) = (
    rw (e, h),
    record {
      front = x ∷ k.front;
      rest = k.rest;
      whole = ap (◌∷◌ x) k.whole;
      kept_is = ap (◌∷◌ x) k.kept_is;
      id_is = k.id_is;
      first = rw (e, k.first);
    },
  )

module _ {F : Type 0} ⦃fl : Float F⦄ where
  cut_rule-CutResult : (id : Text) (rs : List (AlertRule F)) → CutResult id rs (cut_rule id rs)
  unfolding cut_rule
  cut_rule-CutResult id [] = (refl, refl)
  cut_rule-CutResult id (x ∷ rs) = elim (Bool-cases (x.id == id)) [
    | inl e ↦ rw e (
      rw e refl,
      record {
        front = [];
        rest = rs;
        whole = refl;
        kept_is = refl;
        id_is = (text_beq_iff x.id id).0 e;
        first = refl;
      },
    )
    | inr e ↦ rw e (cut_more id x rs (cut_rule id rs) e (cut_rule-CutResult id rs))
  ]

  -- The first rule of the ID is gone with the flag of its key, and all else is as before.
  pub record IsRemoved (e : AlertEngine F) (id : Text) (e' : AlertEngine F) : Type 0 where
    pub rule : AlertRule F
    pub cut : IsCut id e.rules e'.rules rule
    pub flags :
        (k : Text)
        → is_fired k e'.fired ≡ (if fired_key rule == k then false else is_fired k e.fired)

  removal_cases :
      (e : AlertEngine F) (id : Text) (c : List (AlertRule F) × Option (AlertRule F))
      → CutResult id e.rules c
      → ((removal e c ≡ (e, false)) × (member id (ids e.rules) ≡ false))
        ⊎ ((member id (ids e.rules) ≡ true)
            × ((removal e c).1 ≡ true)
            × IsRemoved e id (removal e c).0)
  unfolding removal
  removal_cases e id (kept, none) (h, k) = inl (refl, h)
  removal_cases e id (kept, some r) (h, k) = inr (
    h,
    refl,
    record {
      rule = r;
      cut = k;
      flags = λ j. ground (arith, lookup-delete (fired_key r) j e.fired);
    },
  )

  -- `RemoveRule` of an ID that no rule has returns false and changes nothing. Of any other it
  -- returns true, and takes out the first rule of that ID and the flag of this rule's key alone.
  pub remove_rule_cases :
      (e : AlertEngine F) (id : Text)
      → ((remove_rule e id ≡ (e, false)) × (member id (ids e.rules) ≡ false))
        ⊎ ((member id (ids e.rules) ≡ true)
            × ((remove_rule e id).1 ≡ true)
            × IsRemoved e id (remove_rule e id).0)
  unfolding remove_rule
  remove_rule_cases e id = removal_cases e id _ (cut_rule-CutResult id e.rules)

  cut_rule-All :
      (P : AlertRule F → Type 0) (id : Text) (rs : List (AlertRule F))
      → All P rs
      → All P (cut_rule id rs).0
  unfolding cut_rule
  cut_rule-All P id [] h = h
  cut_rule-All P id (r ∷ rs) h = elim (Bool-cases (r.id == id)) [
    | inl e ↦ rw e h.1
    | inr e ↦ rw e (h.0, cut_rule-All P id rs h.1)
  ]

  removal-All :
      (P : AlertRule F → Type 0) (e : AlertEngine F) (c : List (AlertRule F) × Option (AlertRule F))
      → All P e.rules
      → All P c.0
      → All P (removal e c).0.rules
  unfolding removal
  removal-All P e (kept, none) h k = h
  removal-All P e (kept, some r) h k = k

  pub remove_rule-All :
      (P : AlertRule F → Type 0) (e : AlertEngine F) (id : Text)
      → All P e.rules
      → All P (remove_rule e id).0.rules
  unfolding remove_rule
  remove_rule-All P e id h = removal-All P e (cut_rule id e.rules) h (cut_rule-All P id e.rules h)
