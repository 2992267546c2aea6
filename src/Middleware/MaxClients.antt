-- ===== src/Middleware/MaxClients.antt =====
-- pkg/middleware/maxclients.go: concurrent requests share one atomic counter. A request is between
-- its increment and its test, or is served by the next handler; the rest of its way is one step.
use termino.Prelude.{
  ℕ, suc, ◌+◌, ◌≤◌, ◌≡◌, refl, ap, ◌∙◌, true, false, List, [], ◌∷◌, ◌++◌, length, length-append,
  if◌then◌else◌, arith,
}
use termino.Prelude.Int.{ℤ, pos, pos_part, ◌+ℤ◌, ◌-ℤ◌, ltb_ℤ}

-- `checking n`: the increment of this request gave `n`.
pub data Phase : Type 0 where
  checking : ℤ → Phase
  serving : Phase

pub record State : Type 0 where
  pub active : ℤ
  pub requests : List Phase
  pub rejected : ℕ

abbrev pub init : State
init = record { active = pos 0; requests = []; rejected = 0 }

-- The steps of the handler of `MaxSSEClients(max)`; any request in flight may take the next one.
pub data Step (max : ℤ) (s t : State) : Type 0 where
  arrive :
      t ≡ record s {
        active = s.active +ℤ pos 1;
        requests = s.requests ++ checking (s.active +ℤ pos 1) ∷ [];
      }
      → Step max s t
  refuse :
      (xs ys : List Phase) (n : ℤ)
      → s.requests ≡ xs ++ checking n ∷ ys
      → ltb_ℤ max n ≡ true
      → t ≡ record s { active = s.active -ℤ pos 1; requests = xs ++ ys; rejected = s.rejected + 1 }
      → Step max s t
  admit :
      (xs ys : List Phase) (n : ℤ)
      → s.requests ≡ xs ++ checking n ∷ ys
      → ltb_ℤ max n ≡ false
      → t ≡ record s { requests = xs ++ serving ∷ ys }
      → Step max s t
  leave :
      (xs ys : List Phase)
      → s.requests ≡ xs ++ serving ∷ ys
      → t ≡ record s { active = s.active -ℤ pos 1; requests = xs ++ ys }
      → Step max s t

pub data Reach (max : ℤ) (s : State) : State → Type 0 where
  here : Reach max s s
  next : {t u : State} → Reach max s t → Step max t u → Reach max s u

abbrev pub served : List Phase → ℕ
served [] = 0
served (serving ∷ rs) = suc (served rs)
served (checking n ∷ rs) = served rs

-- The requests that are served, or will be when they take their next step.
abbrev passed : ℤ → List Phase → ℕ
passed max [] = 0
passed max (serving ∷ rs) = suc (passed max rs)
passed max (checking n ∷ rs) = if ltb_ℤ max n then passed max rs else suc (passed max rs)

passed-append :
    (max : ℤ) (xs ys : List Phase) → passed max (xs ++ ys) ≡ passed max xs + passed max ys
passed-append max [] ys = omega arith
passed-append max (serving ∷ xs) ys = omega (arith, passed-append max xs ys)
passed-append max (checking n ∷ xs) ys = ground (arith, passed-append max xs ys)

served-le-passed : (max : ℤ) (rs : List Phase) → served rs ≤ passed max rs
served-le-passed max [] = omega arith
served-le-passed max (serving ∷ rs) = omega (arith, served-le-passed max rs)
served-le-passed max (checking n ∷ rs) = ground (arith, served-le-passed max rs)

passed-le-length : (max : ℤ) (rs : List Phase) → passed max rs ≤ length rs
passed-le-length max [] = omega arith
passed-le-length max (serving ∷ rs) = omega (arith, passed-le-length max rs)
passed-le-length max (checking n ∷ rs) = ground (arith, passed-le-length max rs)

-- The counter counts the requests in flight, and at most `max` of them have passed or will pass.
record Inv (max : ℤ) (s : State) : Type 0 where
  counted : s.active ≡ pos (length s.requests)
  limited : passed max s.requests ≤ pos_part max

arrive-limited :
    (max : ℤ) (rs : List Phase) (k : ℕ)
    → k ≡ length rs
    → passed max rs ≤ pos_part max
    → passed max (rs ++ checking (pos k +ℤ pos 1) ∷ []) ≤ pos_part max
unfolding ◌+ℤ◌
arrive-limited max rs k e h =
    ground (arith, passed-append max rs (checking (pos k +ℤ pos 1) ∷ []), passed-le-length max rs)

-- One request leaves the counter.
decremented :
    (a : ℤ) (rs xs ys : List Phase) (p : Phase)
    → a ≡ pos (length rs)
    → rs ≡ xs ++ p ∷ ys
    → a -ℤ pos 1 ≡ pos (length (xs ++ ys))
unfolding ◌-ℤ◌
decremented a rs xs ys p h e =
    ground (arith, ap length e, length-append xs (p ∷ ys), length-append xs ys)

incremented :
    (a : ℤ) (rs : List Phase) (p : Phase)
    → a ≡ pos (length rs)
    → a +ℤ pos 1 ≡ pos (length (rs ++ p ∷ []))
unfolding ◌+ℤ◌
incremented a rs p h = ground (arith, length-append rs (p ∷ []))

swapped : (xs ys : List Phase) (p q : Phase) → length (xs ++ p ∷ ys) ≡ length (xs ++ q ∷ ys)
swapped xs ys p q = omega (arith, length-append xs (p ∷ ys), length-append xs (q ∷ ys))

Step-Inv : {max : ℤ} {s t : State} → Step max s t → Inv max s → Inv max t
Step-Inv {max} {s} (arrive f) h = rw f (record {
  counted = incremented s.active s.requests _ h.counted;
  limited = rw h.counted (arrive-limited max s.requests (length s.requests) refl h.limited);
})
Step-Inv {max} {s} (refuse xs ys n e b f) h = rw f (record {
  counted = decremented s.active s.requests xs ys (checking n) h.counted e;
  limited = ground (
    arith,
    h.limited,
    ap (passed max) e,
    passed-append max xs (checking n ∷ ys),
    passed-append max xs ys,
  );
})
Step-Inv {max} {s} (admit xs ys n e b f) h = rw f (record {
  counted =
      h.counted
      ∙ ap (λ (rs : List Phase). pos (length rs)) e
      ∙ ap pos (swapped xs ys (checking n) serving);
  limited = ground (
    arith,
    h.limited,
    ap (passed max) e,
    passed-append max xs (checking n ∷ ys),
    passed-append max xs (serving ∷ ys),
  );
})
Step-Inv {max} {s} (leave xs ys e f) h = rw f (record {
  counted = decremented s.active s.requests xs ys serving h.counted e;
  limited = omega (
    arith,
    h.limited,
    ap (passed max) e,
    passed-append max xs (serving ∷ ys),
    passed-append max xs ys,
  );
})

Reach-Inv : {max : ℤ} {s : State} → Reach max init s → Inv max s
Reach-Inv here = record { counted = refl; limited = omega arith }
Reach-Inv (next r st) = Step-Inv st (Reach-Inv r)

-- In any interleaving of the requests, at most `max` are served at once (none, if `max` is
-- negative), and the counter is the number of the requests in flight.
pub Reach_limited :
    {max : ℤ} {s : State}
    → Reach max init s
    → (served s.requests ≤ pos_part max) × (s.active ≡ pos (length s.requests))
Reach_limited {max} {s} r =
    (omega (arith, (Reach-Inv r).limited, served-le-passed max s.requests), (Reach-Inv r).counted)
