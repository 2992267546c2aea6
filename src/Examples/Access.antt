-- ===== src/Examples/Access.antt =====
-- The theorems on the API of the rules and on the rate limiter applied to a few requests.
use termino.Prelude.{ℕ, ◌-◌, ◌≡◌, List, [], ◌∷◌, Option, none, some, All, ltb}
use termino.Prelude.Int.{pos, pos_part}
use termino.Prelude.Text.{Text, codes, text_eq}
use termino.Float.Fixed.{Cents, fixed_float}
use termino.AlertEngine.{above}
use termino.AlertService
use termino.AlertService.{Method, get, post, delete_id, other}
use termino.AlertService.Rules
use termino.AlertService.Rules.{IsUsable, run-new-IsUsable}
use termino.Middleware.RateLimit.{Rate, Op, request, clean, new_rate_limiter}
use termino.Middleware.RateLimit
use termino.Middleware.RateLimit.PerAddress.{answers_to, alone, answers-run}
use termino.Examples.{btc, rule, dollars}

abbrev requests : List (Method Cents)
requests =
    get
    ∷ post (some (rule [] btc 7000000 above))
    ∷ post (some (rule (codes "x") btc 7000000 (codes "sideways")))
    ∷ delete_id (codes "default-1")
    ∷ other
    ∷ []

run-new-IsUsable_example : All IsUsable (Rules.run requests AlertService.new).engine.rules
run-new-IsUsable_example = run-new-IsUsable requests

-- The default rule goes, and two rules of the counter come, of which the first goes again.
abbrev unnamed : List (Method Cents)
unnamed =
    delete_id (codes "default-1")
    ∷ post (some (rule [] btc 7000000 above))
    ∷ delete_id (codes "rule-1")
    ∷ post none
    ∷ post (some (rule [] btc 8000000 above))
    ∷ []

-- Buckets that are never filled again.
abbrev pub finite : Rate Cents ℕ
finite = record { new_limiter = λ rate burst. pos_part burst; allow = λ now n. (n - 1, ltb 0 n) }

abbrev pub whole : Text → Option Text
whole remote = none

abbrev knocks : List Op
knocks =
    request (codes "a") (pos 0)
    ∷ request (codes "b") (pos 1)
    ∷ request (codes "a") (pos 2)
    ∷ clean (pos 200000000000)
    ∷ request (codes "a") (pos 200000000001)
    ∷ []

answers-run_example :
    answers_to
      (codes "a")
      (RateLimit.run finite whole knocks (new_rate_limiter (dollars 100) (pos 1))).1
    ≡ alone finite whole (dollars 100) (pos 1) (codes "a") knocks none
answers-run_example = answers-run finite whole (dollars 100) (pos 1) knocks (codes "a")
