-- ===== src/Aggregator/Window.antt =====
-- The aggregator of internal/domain/aggregator.go against the history of its events: a symbol's
-- window is a function of the events of that symbol alone.
use termino.Prelude.{
  beq_self, ℕ, suc, ◌-◌, ◌<◌, ◌≡◌, refl, sym, ap, ◌∙◌, inl, inr, List, [], ◌∷◌, ◌++◌, Option, none,
  some, length, drop, last, ltb, if◌then◌else◌, ◌==◌, last-last-append, length-append, Bool-cases,
  arith, length-drop,
}
use termino.Prelude.Int.{ℤ}
use termino.Prelude.Text.{Text, text_eq, text_beq_iff}
use termino.Prelude.Dict.{lookup, insert, lookup-insert}
use mathlib.Core.Option.{some-injective}
use mathlib.Core.List.{append-nil, append_assoc}
use termino.Float.{Float}
use termino.Models.{PriceEvent, AggregatedPrice}
use termino.Aggregator.{
  PriceWindow, PriceAggregator, new, push, window_for, aggregate_of, report, compute_aggregate,
  with_report, add, run,
}

abbrev pub events_of : {F : Type 0} → Text → List (ℤ × PriceEvent F) → List (PriceEvent F)
events_of s [] = []
events_of s ((now, e) ∷ es) = if e.symbol == s then e ∷ events_of s es else events_of s es

abbrev pub final : {F : Type 0} → PriceEvent F → List (PriceEvent F) → PriceEvent F
final e [] = e
final e (x ∷ xs) = final x xs

-- What a symbol's window must be after these events of the symbol, oldest first.
abbrev pub window_spec : {F : Type 0} → ℕ → List (PriceEvent F) → Option (PriceWindow F)
window_spec n [] = none
window_spec n (x ∷ xs) =
    some
      (record { prices = last n (x ∷ xs); last_price = (final x xs).price; base_price = x.price })

module _ {F : Type 0} where
  final-append :
      (x : PriceEvent F) (xs : List (PriceEvent F)) (e : PriceEvent F) → final x (xs ++ e ∷ []) ≡ e
  final-append x [] e = refl
  final-append x (y ∷ ys) e = final-append y ys e

  events_of-append :
      (s : Text) (es : List (ℤ × PriceEvent F)) (now : ℤ) (e : PriceEvent F)
      → events_of s (es ++ (now, e) ∷ [])
        ≡ (if e.symbol == s then events_of s es ++ e ∷ [] else events_of s es)
  events_of-append s [] now e = ground arith
  events_of-append s ((t, x) ∷ es) now e = ground (arith, events_of-append s es now e)

module _ {F : Type 0} ⦃fl : Float F⦄ where
  -- Cutting under the guard is taking the last elements.
  cut-last :
      (n : ℕ) (xs : List (PriceEvent F))
      → (if ltb n (length xs) then drop (length xs - n) xs else xs) ≡ last n xs
  cut-last n xs = elim (Bool-cases (ltb n (length xs))) [
    | inl long ↦ rw long
    | inr short ↦ rw short (ap (λ (k : ℕ). drop k xs) {x = 0} {y = length xs - n} (ground arith))
  ]

  window_spec-append :
      (n : ℕ) (xs : List (PriceEvent F)) (e : PriceEvent F)
      → window_spec n (xs ++ e ∷ []) ≡ some (push n (window_for (window_spec n xs) e) e)
  unfolding push window_for
  window_spec-append n [] e = cc (cut-last n (e ∷ []))
  window_spec-append n (x ∷ xs) e = cc (
    cut-last n (last n (x ∷ xs) ++ e ∷ []),
    last-last-append n (x ∷ xs) (e ∷ []),
    final-append x xs e,
  )

  -- The aggregator stands for a history if each symbol's window is that of its events.
  abbrev pub Tracks : PriceAggregator F → List (ℤ × PriceEvent F) → Type 0
  Tracks a es = (s : Text) → lookup s a.windows ≡ window_spec a.max_size (events_of s es)

  length-push :
      (n : ℕ) (w : PriceWindow F) (e : PriceEvent F) → 0 < n → 0 < length (push n w e).prices
  unfolding push
  length-push n w e h = omega (
    arith,
    ap length (cut-last n (w.prices ++ e ∷ [])),
    length-drop (length (w.prices ++ e ∷ []) - n) (w.prices ++ e ∷ []),
    length-append w.prices (e ∷ []),
  )

  aggregate_of-some :
      (now : ℤ) (s : Text) (w : PriceWindow F) (ps : List (PriceEvent F))
      → 0 < length ps
      → (r : AggregatedPrice F) × (aggregate_of now s w ps ≡ some r)
  unfolding aggregate_of
  aggregate_of-some now s w [] h = absurd (omega arith)
  aggregate_of-some now s w (p ∷ ps) h = (_, refl)

  -- The state after `Add`.
  abbrev pub pushed : PriceAggregator F → PriceEvent F → PriceWindow F
  pushed a e = push a.max_size (window_for (lookup e.symbol a.windows) e) e

  abbrev pub after : PriceAggregator F → PriceEvent F → PriceAggregator F
  after a e = record a { windows = insert e.symbol (pushed a e) a.windows }

  -- With room for one price `Add` does not panic.
  pub add-total :
      (now : ℤ) (a : PriceAggregator F) (e : PriceEvent F)
      → 0 < a.max_size
      → (r : AggregatedPrice F) × (compute_aggregate now e.symbol (pushed a e) ≡ some r)
        × (add now a e ≡ some (after a e, r))
  unfolding add compute_aggregate
  add-total now a e h =
      let (r, found) =
        aggregate_of-some now e.symbol (pushed a e) (pushed a e).prices
          (length-push a.max_size (window_for (lookup e.symbol a.windows) e) e h) in
      (r, found, ap (with_report (after a e)) found)

  after-Tracks :
      (a : PriceAggregator F) (es : List (ℤ × PriceEvent F)) (now : ℤ) (e : PriceEvent F)
      → Tracks a es
      → Tracks (after a e) (es ++ (now, e) ∷ [])
  after-Tracks a es now e h s =
      lookup-insert e.symbol s (pushed a e) a.windows
      ∙ ground (
        arith,
        text_beq_iff e.symbol s,
        h s,
        events_of-append s es now e,
        window_spec-append a.max_size (events_of s es) e,
      )

  run-step :
      (a : PriceAggregator F) (now : ℤ) (e : PriceEvent F) (es : List (ℤ × PriceEvent F))
      {b c : PriceAggregator F} {r : AggregatedPrice F} {rs : List (AggregatedPrice F)}
      → add now a e ≡ some (b, r)
      → run b es ≡ some (c, rs)
      → run a ((now, e) ∷ es) ≡ some (c, r ∷ rs)
  unfolding run
  run-step a now e es p q = ground arith

  pub run-Tracks :
      (a : PriceAggregator F) (past es : List (ℤ × PriceEvent F))
      → 0 < a.max_size
      → Tracks a past
      → (b : PriceAggregator F) × (rs : List (AggregatedPrice F)) × (run a es ≡ some (b, rs))
        × (length rs ≡ length es)
        × (b.max_size ≡ a.max_size)
        × Tracks b (past ++ es)
  unfolding run
  run-Tracks a past [] h t = (a, [], refl, refl, refl, rw append-nil t)
  run-Tracks a past ((now, e) ∷ es) h t =
      let (r, _, added) = add-total now a e h in
      let (b, rs, ran, count, size, tracks) =
        run-Tracks (after a e) (past ++ (now, e) ∷ []) es h (after-Tracks a past now e t) in
      (b, r ∷ rs, run-step a now e es added ran, ap suc count, size, rw append_assoc at tracks)

  -- What `Add` did, read off its result.
  pub add_inversion :
      (now : ℤ) (a : PriceAggregator F) (e : PriceEvent F) {b : PriceAggregator F}
      {r : AggregatedPrice F}
      → add now a e ≡ some (b, r)
      → (b ≡ after a e) × (compute_aggregate now e.symbol (pushed a e) ≡ some r)
  unfolding add
  add_inversion now a e h = ground arith

  pub lookup-after :
      (a : PriceAggregator F) (e : PriceEvent F)
      → lookup e.symbol (after a e).windows ≡ some (pushed a e)
  lookup-after a e = lookup-insert e.symbol e.symbol (pushed a e) a.windows ∙ rw (beq_self e.symbol)

  -- The result of `Add` is computed from the symbol's window in the new state.
  pub add_reports :
      (now : ℤ) (a : PriceAggregator F) (e : PriceEvent F) {b : PriceAggregator F}
      {r : AggregatedPrice F} {w : PriceWindow F}
      → add now a e ≡ some (b, r)
      → lookup e.symbol b.windows ≡ some w
      → aggregate_of now e.symbol w w.prices ≡ some r
  unfolding compute_aggregate
  add_reports now a e {w = w} added found =
      let (state, report) = add_inversion now a e added in
      let same : pushed a e ≡ w = some-injective _ _ (
        sym (lookup-after a e)
        ∙ ap (λ (x : PriceAggregator F). lookup e.symbol x.windows) (sym state)
        ∙ found) in
      rw same at report

  -- From a new aggregator with a window of at least one price, no sequence of events panics, each
  -- event gives one aggregate, and in the end each symbol has exactly the window that its own
  -- events ask for: the last `n` of them, the last price, and the first price ever as the base; a
  -- symbol without events has none.
  pub run_windows :
      (n : ℕ) (es : List (ℤ × PriceEvent F))
      → 0 < n
      → (a : PriceAggregator F) × (rs : List (AggregatedPrice F)) × (run (new n) es ≡ some (a, rs))
        × (length rs ≡ length es)
        × ((s : Text) → lookup s a.windows ≡ window_spec n (events_of s es))
  run_windows n es h =
      let (a, rs, ran, count, size, tracks) = run-Tracks (new n) [] es h (λ s. refl) in
      (a, rs, ran, count, λ s. tracks s ∙ ap (λ (k : ℕ). window_spec k (events_of s es)) size)
