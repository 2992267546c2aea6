-- ===== src/Middleware/RateLimit/PerAddress.antt =====
-- What pkg/middleware/ratelimit.go promises an address: a bucket of its own.
use mathlib.Core.Path.{ap₂}
use termino.Prelude.{
  ◌≡◌, refl, ap, subst, ◌∙◌, inl, inr, Bool, true, false, List, [], ◌∷◌, Option, none, some,
  if◌then◌else◌, ◌==◌, Bool-cases, arith,
}
use termino.Prelude.Int.{ℤ}
use termino.Prelude.Text.{Text, text_eq, text_beq_iff}
use termino.Prelude.Dict.{
  lookup, delete, lookup-insert, lookup-delete, member, keys, IsDistinct, insert-IsDistinct,
  delete-IsDistinct,
}
use termino.Middleware.RateLimit.{
  Rate, Visitor, RateLimiter, new_rate_limiter, is_idle, address_of, visitor_for, serve, sweep,
  cleanup, Op, request, clean, run,
}

abbrev pub forget : {L : Type 0} → ℤ → Option (Visitor L) → Option (Visitor L)
forget now none = none
forget now (some v) = if is_idle now v then none else some v

-- The answers to one address.
abbrev pub answers_to : Text → List (Text × Bool) → List Bool
answers_to ip [] = []
answers_to ip ((a, allowed) ∷ answers) =
    if a == ip then allowed ∷ answers_to ip answers else answers_to ip answers

module _ {F L : Type 0} (lib : Rate F L) (split : Text → Option Text) where
  sweep-IsDistinct :
      (now : ℤ) (es vs : List (Text × Visitor L))
      → IsDistinct (keys vs)
      → IsDistinct (keys (sweep lib now es vs))
  unfolding sweep
  sweep-IsDistinct now [] vs h = h
  sweep-IsDistinct now ((ip, v) ∷ es) vs h = elim (Bool-cases (is_idle now v)) [
    | inl e ↦ rw e (sweep-IsDistinct now es (delete ip vs) (delete-IsDistinct ip vs h))
    | inr e ↦ rw e (sweep-IsDistinct now es vs h)
  ]

  absent :
      (ip : Text) (es : List (Text × Visitor L)) → member ip (keys es) ≡ false → lookup ip es ≡ none
  absent ip [] h = refl
  absent ip ((a, v) ∷ es) h = ground (arith, absent ip es)

  abbrev forget_if : ℤ → Option (Visitor L) → Option (Visitor L) → Option (Visitor L)
  forget_if now none o = o
  forget_if now (some v) o = if is_idle now v then none else o

  if_same : {A : Type 0} (b : Bool) (x : A) → (if b then x else x) ≡ x
  if_same true x = refl
  if_same false x = refl

  lookup-delete_if :
      (b : Bool) (a ip : Text) (vs : List (Text × Visitor L))
      → lookup ip (if b then delete a vs else vs)
        ≡ (if b then (if a == ip then none else lookup ip vs) else lookup ip vs)
  lookup-delete_if true a ip vs = lookup-delete a ip vs
  lookup-delete_if false a ip vs = refl

  lookup-sweep :
      (now : ℤ) (ip : Text) (es vs : List (Text × Visitor L))
      → IsDistinct (keys es)
      → lookup ip (sweep lib now es vs) ≡ forget_if now (lookup ip es) (lookup ip vs)
  unfolding sweep
  lookup-sweep now ip [] vs h = refl
  lookup-sweep now ip ((a, v) ∷ es) vs h =
      lookup-sweep now ip es (if is_idle now v then delete a vs else vs) h.1
      ∙ ap (forget_if now (lookup ip es)) (lookup-delete_if (is_idle now v) a ip vs)
      ∙ elim (Bool-cases (a == ip)) [
        | inl e ↦ rw (
          e,
          absent ip es
              (subst (λ (x : Text). member x (keys es) ≡ false) ((text_beq_iff a ip).0 e) h.0),
        )
        | inr e ↦ rw e (ap (forget_if now (lookup ip es)) (if_same (is_idle now v) (lookup ip vs)))
      ]

  lookup-cleanup :
      (now : ℤ) (ip : Text) (rl : RateLimiter F L)
      → IsDistinct (keys rl.visitors)
      → lookup ip (cleanup lib now rl).visitors ≡ forget now (lookup ip rl.visitors)
  unfolding cleanup
  lookup-cleanup now ip rl h =
      lookup-sweep now ip rl.visitors rl.visitors h ∙ forget_self (lookup ip rl.visitors)
    where
      forget_self : (o : Option (Visitor L)) → forget_if now o o ≡ forget now o
      forget_self none = refl
      forget_self (some v) = refl

  -- The visitor of the address after a request of it.
  asked : F → ℤ → ℤ → Option (Visitor L) → Visitor L × Bool
  asked rate burst now o =
      let v = visitor_for lib now (new_rate_limiter rate burst) o in
      let (limiter, allowed) = lib.allow now v.limiter in (record v { limiter = limiter }, allowed)

  visitor_for-new :
      (now : ℤ) (rl : RateLimiter F L) (o : Option (Visitor L))
      → visitor_for lib now rl o ≡ visitor_for lib now (new_rate_limiter rl.rate rl.burst) o
  unfolding visitor_for
  visitor_for-new now rl none = refl
  visitor_for-new now rl (some v) = refl

  serve-lookup :
      (ip a : Text) (now : ℤ) (rl : RateLimiter F L)
      → lookup ip (serve lib a now rl).0.visitors ≡ (
          if a == ip
          then some (asked rl.rate rl.burst now (lookup a rl.visitors)).0
          else lookup ip rl.visitors)
  unfolding serve asked
  serve-lookup ip a now rl = lookup-insert a ip _ _ ∙ elim (Bool-cases (a == ip)) [
    | inl e ↦ rw e (
        ap (λ (v : Visitor L). some (record v { limiter = (lib.allow now v.limiter).0 }))
          (visitor_for-new now rl (lookup a rl.visitors)))
    | inr e ↦ rw e (lookup-insert a ip _ rl.visitors ∙ rw e)
  ]

  serve-answer :
      (a : Text) (now : ℤ) (rl : RateLimiter F L)
      → (serve lib a now rl).1 ≡ (asked rl.rate rl.burst now (lookup a rl.visitors)).1
  unfolding serve asked
  serve-answer a now rl =
      ap (λ (v : Visitor L). (lib.allow now v.limiter).1)
        (visitor_for-new now rl (lookup a rl.visitors))

  serve-IsDistinct :
      (a : Text) (now : ℤ) (rl : RateLimiter F L)
      → IsDistinct (keys rl.visitors)
      → IsDistinct (keys (serve lib a now rl).0.visitors)
  unfolding serve
  serve-IsDistinct a now rl h = insert-IsDistinct a _ _ (insert-IsDistinct a _ rl.visitors h)

  -- One bucket alone: made for the first request, asked by each request of the address, and
  -- dropped when a cleanup finds it unused for more than three minutes.
  unfoldable pub alone : F → ℤ → Text → List Op → Option (Visitor L) → List Bool
  unfolding asked
  alone rate burst ip [] o = []
  alone rate burst ip (request remote now ∷ os) o =
      let (v, allowed) = asked rate burst now o in
      let with_it = alone rate burst ip os (some v) in
      let without = alone rate burst ip os o in
      if address_of split remote == ip then allowed ∷ with_it else without
  alone rate burst ip (clean now ∷ os) o = alone rate burst ip os (forget now o)

  answers-alone :
      (ip : Text) (os : List Op) (rl : RateLimiter F L)
      → IsDistinct (keys rl.visitors)
      → answers_to ip (run lib split os rl).1 ≡ alone rl.rate rl.burst ip os (lookup ip rl.visitors)
  unfolding run alone asked serve cleanup
  answers-alone ip [] rl h = refl
  answers-alone ip (clean now ∷ os) rl h =
      answers-alone ip os (cleanup lib now rl) (sweep-IsDistinct now rl.visitors rl.visitors h)
      ∙ ap (alone rl.rate rl.burst ip os) (lookup-cleanup now ip rl h)
  answers-alone ip (request remote now ∷ os) rl h =
      let a = address_of split remote in
      let rest =
        answers-alone ip os (serve lib a now rl).0 (serve-IsDistinct a now rl h)
        ∙ ap (alone rl.rate rl.burst ip os) (serve-lookup ip a now rl) in
      elim (Bool-cases (a == ip)) [
        | inl e ↦ rw e (
            ap₂ ◌∷◌
              (serve-answer a now rl
                ∙ ap (λ (x : Text). (asked rl.rate rl.burst now (lookup x rl.visitors)).1)
                    ((text_beq_iff a ip).0 e))
              (rest
                ∙ ap (alone rl.rate rl.burst ip os) (
                    rw e (
                      ap (λ (x : Text). some (asked rl.rate rl.burst now (lookup x rl.visitors)).0)
                        ((text_beq_iff a ip).0 e)))))
        | inr e ↦ rw e (rest ∙ ap (alone rl.rate rl.burst ip os) (rw e))
      ]

  -- From a new limiter, whatever requests of any addresses and cleanups come in whatever order, the
  -- answers to an address are those of a bucket that its requests alone ask, and that is made anew
  -- after a cleanup found it unused for more than three minutes.
  pub answers-run :
      (rate : F) (burst : ℤ) (os : List Op) (ip : Text)
      → answers_to ip (run lib split os (new_rate_limiter rate burst)).1
        ≡ alone rate burst ip os none
  answers-run rate burst os ip = answers-alone ip os (new_rate_limiter rate burst) tt
