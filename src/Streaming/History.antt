-- ===== src/Streaming/History.antt =====
-- `handleHistory` of services/streaming-api/main.go. The query to PostgreSQL is a parameter: it
-- fails, or gives rows, each of which may fail to scan.
use termino.Prelude.{
  ℕ, ◌≤◌, ◌≡◌, refl, ◌&&◌, List, [], ◌∷◌, Option, none, some, length, All, if◌then◌else◌, ◌==◌,
  Bool-cases, inl, inr, arith,
}
use termino.Prelude.Int.{ℤ, pos, negsuc, pos_part, ltb_ℤ, leb_ℤ}
use termino.Prelude.Decimal.{atoi}
use termino.Prelude.Text.{Text, text_eq}
use termino.Prelude.Strings.{Unicode, to_upper}
use termino.Models.{AggregatedPrice}

pub data Answer (F : Type 0) : Type 0 where
  status : ℕ → Answer F
  sent : List (AggregatedPrice F) → Answer F

abbrev pub Query : Type 0 → Type 0
Query F = Text → ℤ → Option (List (Option (AggregatedPrice F)))

limit_or : Option ℤ → ℤ
limit_or none = pos 50
limit_or (some n) = if ltb_ℤ (pos 0) n && leb_ℤ n (pos 500) then n else pos 50

unfoldable pub limit_of : Text → ℤ
unfolding limit_or
limit_of l = if l == [] then pos 50 else limit_or (atoi l)

limit_or-bounded : (o : Option ℤ) → pos_part (limit_or o) ≤ 500
unfolding limit_or
limit_or-bounded none = omega arith
limit_or-bounded (some (pos n)) = ground arith
limit_or-bounded (some (negsuc n)) = ground arith

limit_of-bounded : (l : Text) → pos_part (limit_of l) ≤ 500
unfolding limit_of
limit_of-bounded l = elim (Bool-cases (l == [])) [
  | inl e ↦ rw e (omega arith)
  | inr e ↦ rw e (limit_or-bounded (atoi l))
]

module _ {F : Type 0} where
  add_row : Option (AggregatedPrice F) → List (AggregatedPrice F) → List (AggregatedPrice F)
  add_row none ps = ps
  add_row (some p) ps = p ∷ ps

  -- A row that does not scan is left out.
  scanned : List (Option (AggregatedPrice F)) → List (AggregatedPrice F)
  unfolding add_row
  scanned [] = []
  scanned (r ∷ rs) = add_row r (scanned rs)

  answer : Option (List (Option (AggregatedPrice F))) → Answer F
  unfolding scanned
  answer none = status 500
  answer (some rs) = sent (scanned rs)

  unfoldable pub handle_history : Unicode → Option (Query F) → Text → Text → Answer F
  unfolding answer
  handle_history u none symbol limit = status 503
  handle_history u (some query) symbol limit =
      let s = to_upper u symbol in if s == [] then status 400 else answer (query s (limit_of limit))

  abbrev pub IsFor : Text → Option (AggregatedPrice F) → Type 0
  IsFor symbol none = Unit {0}
  IsFor symbol (some p) = p.symbol ≡ symbol

  -- Documented of the query's WHERE and LIMIT.
  pub record IsLimited (query : Query F) : Type 0 where
    pub at_most :
        (symbol : Text) (n : ℤ) (rs : List (Option (AggregatedPrice F)))
        → query symbol n ≡ some rs
        → length rs ≤ pos_part n
    pub only :
        (symbol : Text) (n : ℤ) (rs : List (Option (AggregatedPrice F)))
        → query symbol n ≡ some rs
        → All (IsFor symbol) rs

  length-scanned : (rs : List (Option (AggregatedPrice F))) → length (scanned rs) ≤ length rs
  unfolding scanned
  length-scanned [] = omega arith
  length-scanned (none ∷ rs) = omega (arith, length-scanned rs)
  length-scanned (some p ∷ rs) = omega (arith, length-scanned rs)

  scanned-All :
      (symbol : Text) (rs : List (Option (AggregatedPrice F)))
      → All (IsFor symbol) rs
      → All (λ p. p.symbol ≡ symbol) (scanned rs)
  unfolding scanned
  scanned-All symbol [] h = tt
  scanned-All symbol (none ∷ rs) h = scanned-All symbol rs h.1
  scanned-All symbol (some p ∷ rs) h = (h.0, scanned-All symbol rs h.1)

  abbrev pub IsHistory : Text → Answer F → Type 0
  IsHistory symbol (status n) = Unit {0}
  IsHistory symbol (sent ps) = (length ps ≤ 500) × All (λ p. p.symbol ≡ symbol) ps

  answer-IsHistory :
      (symbol : Text) (l : Text) (query : Query F) (o : Option (List (Option (AggregatedPrice F))))
      → IsLimited query
      → query symbol (limit_of l) ≡ o
      → IsHistory symbol (answer o)
  unfolding answer
  answer-IsHistory symbol l query none k e = tt
  answer-IsHistory symbol l query (some rs) k e = (
    omega (arith, length-scanned rs, k.at_most symbol (limit_of l) rs e, limit_of-bounded l),
    scanned-All symbol rs (k.only symbol (limit_of l) rs e),
  )

  -- With a query that keeps its WHERE and LIMIT, whatever limit is asked for, an answer with prices
  -- has at most 500 of them, all of the symbol that was asked for, in upper case.
  pub handle_history-IsHistory :
      (u : Unicode) (query : Query F) (symbol limit : Text)
      → IsLimited query
      → IsHistory (to_upper u symbol) (handle_history u (some query) symbol limit)
  unfolding handle_history
  handle_history-IsHistory u query symbol limit k = elim (Bool-cases (to_upper u symbol == [])) [
    | inl e ↦ rw e tt
    | inr e ↦ rw e (answer-IsHistory (to_upper u symbol) limit query _ k refl)
  ]
