-- ===== src/Streaming/Router/Places.antt =====
-- The places that pkg/middleware/maxclients.go gives, as services/streaming-api/main.go counts them.
use mathlib.Core.Option.{some-injective}
use termino.Prelude.{
  ℕ, zero, suc, ◌+◌, ◌≤◌, ◌≡◌, refl, ap, subst, ◌∙◌, true, false, List, [], ◌∷◌, ◌++◌, Option, none,
  some, length, length-append, if◌then◌else◌, arith,
}
use termino.Prelude.Int.{ℤ, pos, pos_part, ◌+ℤ◌, ◌-ℤ◌, ltb_ℤ}
use termino.Streaming.{Endpoint}
use termino.Streaming.Handlers.Tracked.{counted_up, counted_down}
use termino.Streaming.Router.{Request, Counted, take_out}

-- The requests that are counted and will pass the test.
abbrev pub passing : ℤ → List Counted → ℕ
passing max [] = 0
passing max (c ∷ cs) = if ltb_ℤ max c.current then passing max cs else suc (passing max cs)

passing-append :
    (max : ℤ) (xs ys : List Counted) → passing max (xs ++ ys) ≡ passing max xs + passing max ys
passing-append max [] ys = omega arith
passing-append max (c ∷ xs) ys = ground (arith, passing-append max xs ys)

passing-le-length : (max : ℤ) (cs : List Counted) → passing max cs ≤ length cs
passing-le-length max [] = omega arith
passing-le-length max (c ∷ cs) = ground (arith, passing-le-length max cs)

-- One request was taken out of those that are counted.
pub record IsTaken (max : ℤ) (cs : List Counted) (r : Counted × List Counted) : Type 0 where
  pub fewer : length cs ≡ suc (length r.1)
  pub alike : passing max cs ≡ passing max (r.0 ∷ r.1)

extend :
    (max : ℤ) (x : Counted) (xs : List Counted) (o : Option (Counted × List Counted))
    (r : Counted × List Counted)
    → ((q : Counted × List Counted) → o ≡ some q → IsTaken max xs q)
    → elim o [ none ↦ none | some q ↦ some (q.0, x ∷ q.1) ] ≡ some r
    → IsTaken max (x ∷ xs) r
extend max x xs none r f e = cc
extend max x xs (some q) r f e =
    let t = f q refl in
    subst (IsTaken max (x ∷ xs)) (some-injective _ _ e)
      (record { fewer = omega (arith, t.fewer); alike = ground (arith, t.alike) })

pub take_out-IsTaken :
    (max : ℤ) (i : ℕ) (cs : List Counted) (r : Counted × List Counted)
    → take_out i cs ≡ some r
    → IsTaken max cs r
take_out-IsTaken max zero [] r e = cc
take_out-IsTaken max (suc i) [] r e = cc
take_out-IsTaken max zero (x ∷ xs) r e =
    subst (IsTaken max (x ∷ xs)) (some-injective _ _ e) (record { fewer = refl; alike = refl })
take_out-IsTaken max (suc i) (x ∷ xs) r e =
    extend max x xs (take_out i xs) r (λ q. take_out-IsTaken max i xs q) e

-- The counter counts the requests in flight, and those that run, are to run or have run fit `max`.
pub record Fits (max active : ℤ) (counted : List Counted) (running leaving : ℕ) : Type 0 where
  pub in_flight : active ≡ pos (length counted + running + leaving)
  pub limited : passing max counted + running + leaving ≤ pos_part max

count-limited :
    (max active : ℤ) (cs : List Counted) (m n : ℕ) (e : Endpoint) (r : Request)
    → active ≡ pos (suc (length cs + m + n))
    → passing max cs + m + n ≤ pos_part max
    → passing max (cs ++ record { current = active; endpoint = e; request = r } ∷ []) + m + n
      ≤ pos_part max
count-limited max active cs m n e r up h = rw up (
    ground (
      arith,
      passing-append max cs
          (record { current = pos (suc (length cs + m + n)); endpoint = e; request = r } ∷ []),
      passing-le-length max cs,
    ))

pub count-Fits :
    (max active : ℤ) (cs : List Counted) (m n : ℕ) (e : Endpoint) (r : Request)
    → Fits max active cs m n
    → Fits max
        (active +ℤ pos 1)
        (cs ++ record { current = active +ℤ pos 1; endpoint = e; request = r } ∷ [])
        m
        n
count-Fits max active cs m n e r h =
    let c : Counted = record { current = active +ℤ pos 1; endpoint = e; request = r } in
    let up = counted_up active _ h.in_flight in
    record {
      in_flight = up ∙ ap pos (omega (arith, length-append cs (c ∷ [])));
      limited = count-limited max _ cs m n e r up h.limited;
    }

pub refuse-Fits :
    (max active : ℤ) (cs rest : List Counted) (c : Counted) (m n : ℕ)
    → ltb_ℤ max c.current ≡ true
    → IsTaken max cs (c, rest)
    → Fits max active cs m n
    → Fits max (active -ℤ pos 1) rest m n
refuse-Fits max active cs rest c m n over t h = record {
  in_flight = counted_down active _ (h.in_flight ∙ ap pos (omega (arith, t.fewer)));
  limited = ground (arith, h.limited, t.alike, over);
}

-- The request takes a place among those that run or that leave.
pub admit-Fits :
    (max active : ℤ) (cs rest : List Counted) (c : Counted) (m n m' n' : ℕ)
    → ltb_ℤ max c.current ≡ false
    → m' + n' ≡ suc (m + n)
    → IsTaken max cs (c, rest)
    → Fits max active cs m n
    → Fits max active rest m' n'
admit-Fits max active cs rest c m n m' n' under more t h = record {
  in_flight = h.in_flight ∙ ap pos (omega (arith, t.fewer));
  limited = ground (arith, h.limited, t.alike, under);
}

-- A request that ran leaves, or none does.
pub end-Fits :
    (max active : ℤ) (cs : List Counted) (m n m' n' : ℕ)
    → m' + n' ≡ m + n
    → Fits max active cs m n
    → Fits max active cs m' n'
end-Fits max active cs m n m' n' same h = record {
  in_flight = h.in_flight ∙ ap pos (omega arith);
  limited = omega (arith, h.limited);
}

pub leave-Fits :
    (max active : ℤ) (cs : List Counted) (m n : ℕ)
    → Fits max active cs m (suc n)
    → Fits max (active -ℤ pos 1) cs m n
leave-Fits max active cs m n h = record {
  in_flight = counted_down active _ (h.in_flight ∙ ap pos (omega arith));
  limited = omega (arith, h.limited);
}
