-- ===== src/Cli/Windows.antt =====
-- What the views of cli/crypto-stream/ui/watch.go and alerts.go keep of the events that came.
use mathlib.Core.List.{append_assoc, append-nil}
use termino.Prelude.{
  ℕ, zero, suc, ◌<◌, ◌-◌, ◌≤◌, ◌≡◌, refl, sym, ap, ◌∙◌, true, List, [], ◌∷◌, ◌++◌, length, drop,
  take, last, ltb, arith, Bool-cases, inl, inr, length-append, length-last, last-last-append,
}
use termino.Prelude.Text.{Text}
use termino.Models.{AggregatedPrice, PriceAlert}
use termino.Cli.{Msg, key, arrived, err_msg, tick, quits}
use termino.Cli.Watch
use termino.Cli.Watch.{WatchModel}
use termino.Cli.Alerts
use termino.Cli.Alerts.{AlertModel}

abbrev pub came : {A : Type 0} → List (Msg A) → List A
came [] = []
came (arrived a ∷ ms) = a ∷ came ms
came (key k ∷ ms) = came ms
came (err_msg e ∷ ms) = came ms
came (tick ∷ ms) = came ms

abbrev pub prices_of : {F : Type 0} → List (AggregatedPrice F) → List F
prices_of [] = []
prices_of (p ∷ ps) = p.price ∷ prices_of ps

abbrev pub newest_first : {A : Type 0} → List A → List A → List A
newest_first [] acc = acc
newest_first (a ∷ as') acc = newest_first as' (a ∷ acc)

module _ {F : Type 0} where
  pub run_watch : List (Msg (AggregatedPrice F)) → WatchModel F → WatchModel F
  run_watch [] m = m
  run_watch (msg ∷ ms) m = run_watch ms (Watch.update msg m).0

  pub run_alerts : List (Msg (PriceAlert F)) → AlertModel F → AlertModel F
  run_alerts [] m = m
  run_alerts (msg ∷ ms) m = run_alerts ms (Alerts.update msg m).0

  remember-last :
      (xs : List F) (p : F) → length xs ≤ 60 → Watch.remember xs p ≡ last 60 (xs ++ p ∷ [])
  unfolding Watch.remember
  remember-last xs p h = elim (Bool-cases (ltb 60 (length (xs ++ p ∷ [])))) [
    | inl e ↦ rw e (
        ap (λ (k : ℕ). drop k (xs ++ p ∷ [])) {x = 1} {y = length (xs ++ p ∷ []) - 60}
          (omega (arith, length-append xs (p ∷ []), longer e)))
    | inr e ↦ rw e (ap (λ (k : ℕ). drop k (xs ++ p ∷ [])) {x = 0} (ground arith))
  ]
    where
      longer : {n : ℕ} → ltb 60 n ≡ true → 60 < n
      longer e = ground arith

  watch_kept : (k : Text) (m : WatchModel F) → (Watch.update (key k) m).0 ≡ m
  unfolding Watch.update
  watch_kept k m = elim (Bool-cases (quits k)) [ inl e ↦ rw e | inr e ↦ rw e ]

  watch_from :
      (ms : List (Msg (AggregatedPrice F))) (m : WatchModel F) (past : List F)
      → m.history ≡ last 60 past
      → (run_watch ms m).history ≡ last 60 (past ++ prices_of (came ms))
  unfolding run_watch Watch.update
  watch_from [] m past h = h ∙ ap (last 60) (sym (append-nil past))
  watch_from (key k ∷ ms) m past h =
      ap (λ (x : WatchModel F). (run_watch ms x).history) (watch_kept k m) ∙ watch_from ms m past h
  watch_from (err_msg e ∷ ms) m past h = watch_from ms _ past h
  watch_from (tick ∷ ms) m past h = watch_from ms m past h
  watch_from (arrived p ∷ ms) m past h =
      watch_from ms _ (past ++ p.price ∷ []) (
        ap (λ (xs : List F). Watch.remember xs p.price) h
        ∙ remember-last (last 60 past) p.price (length-last 60 past)
        ∙ last-last-append 60 past (p.price ∷ []))
      ∙ ap (last 60) (append_assoc past (p.price ∷ []) (prices_of (came ms)))

  -- After any messages the watch view keeps exactly the last 60 prices that came, oldest first.
  pub run_watch-history :
      (ms : List (Msg (AggregatedPrice F))) (symbol : Text)
      → (run_watch ms (Watch.new symbol)).history ≡ last 60 (prices_of (came ms))
  run_watch-history ms symbol = watch_from ms (Watch.new symbol) [] refl

module _ {A : Type 0} where
  take-all : (n : ℕ) (xs : List A) → length xs ≤ n → take n xs ≡ xs
  take-all zero [] h = refl
  take-all zero (x ∷ xs) h = absurd (omega arith)
  take-all (suc n) [] h = refl
  take-all (suc n) (x ∷ xs) h = ap (◌∷◌ x) (take-all n xs (omega arith))

  take-take-suc : (n : ℕ) (xs : List A) → take n (take (suc n) xs) ≡ take n xs
  take-take-suc zero xs = refl
  take-take-suc (suc n) [] = refl
  take-take-suc (suc n) (x ∷ xs) = ap (◌∷◌ x) (take-take-suc n xs)

module _ {F : Type 0} where
  remember-take :
      (a : PriceAlert F) (xs : List (PriceAlert F)) → Alerts.remember a xs ≡ take 50 (a ∷ xs)
  unfolding Alerts.remember
  remember-take a xs = elim (Bool-cases (ltb 50 (length (a ∷ xs)))) [
    | inl e ↦ rw e
    | inr e ↦ rw e (sym (take-all 50 (a ∷ xs) (ground arith)))
  ]

  alerts_kept : (k : Text) (m : AlertModel F) → (Alerts.update (key k) m).0 ≡ m
  unfolding Alerts.update
  alerts_kept k m = elim (Bool-cases (quits k)) [ inl e ↦ rw e | inr e ↦ rw e ]

  alerts_from :
      (ms : List (Msg (PriceAlert F))) (m : AlertModel F) (past : List (PriceAlert F))
      → m.alerts ≡ take 50 past
      → (run_alerts ms m).alerts ≡ take 50 (newest_first (came ms) past)
  unfolding run_alerts Alerts.update
  alerts_from [] m past h = h
  alerts_from (key k ∷ ms) m past h =
      ap (λ (x : AlertModel F). (run_alerts ms x).alerts) (alerts_kept k m)
      ∙ alerts_from ms m past h
  alerts_from (err_msg e ∷ ms) m past h = alerts_from ms _ past h
  alerts_from (tick ∷ ms) m past h = alerts_from ms m past h
  alerts_from (arrived a ∷ ms) m past h = alerts_from ms _ (a ∷ past) (
      ap (Alerts.remember a) h
      ∙ remember-take a (take 50 past)
      ∙ ap (◌∷◌ a) (take-take-suc 49 past))

  -- After any messages the view of the alerts keeps exactly the 50 newest of those that came, the
  -- newest first.
  pub run_alerts-alerts :
      (ms : List (Msg (PriceAlert F)))
      → (run_alerts ms Alerts.new).alerts ≡ take 50 (newest_first (came ms) [])
  run_alerts-alerts ms = alerts_from ms Alerts.new [] refl
