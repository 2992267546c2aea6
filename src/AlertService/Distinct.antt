-- ===== src/AlertService/Distinct.antt =====
-- The IDs of the rules of services/alert-service/main.go.
use termino.Prelude.{ℕ, ◌<◌, ◌≡◌, false, List, [], ◌++◌, none, some, All, ◌==◌}
use termino.Prelude.Text.{Text, codes, text_eq}
use termino.Prelude.Int.{pos}
use termino.Prelude.Decimal.{itoa}
use termino.Prelude.Dict.{IsDistinct}
use termino.Float.{Float}
use termino.Models.{AlertRule}
use termino.AlertEngine.{AlertEngine}
use termino.AlertEngine.Removal.{ids}
use termino.AlertService.{Service, Method, get, post, delete_id, other}

-- The ID that the counter gives.
abbrev named : ℕ → Text
named n = codes "rule-" ++ itoa (pos n)

-- The counter will not give this ID any more.
abbrev IsPast : ℕ → Text → Type 0
IsPast n id = (m : ℕ) → n < m → (id == named m) ≡ false

-- The IDs are distinct, and the counter has passed them.
record IsNumbered {F : Type 0} (n : ℕ) (rs : List (AlertRule F)) : Type 0 where
  distinct : IsDistinct (ids rs)
  past : All (λ r. IsPast n r.id) rs

module _ {F : Type 0} ⦃fl : Float F⦄ where
  -- The counter of the service and its rules.
  record IsInOrder (s : Service F) : Type 0 where
    count : ℕ
    counter : s.rule_id_counter ≡ pos count
    numbered : IsNumbered count s.engine.rules

  -- A posted rule brings no ID of its own.
  abbrev pub IsUnnamed : Method F → Type 0
  IsUnnamed get = Unit {0}
  IsUnnamed (post none) = Unit {0}
  IsUnnamed (post (some r)) = r.id ≡ []
  IsUnnamed (delete_id id) = Unit {0}
  IsUnnamed other = Unit {0}
