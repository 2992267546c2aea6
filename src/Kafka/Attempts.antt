-- ===== src/Kafka/Attempts.antt =====
-- The calls of `Publish` of pkg/kafka/producer.go that a service made, with what the broker answered.
use termino.Prelude.{◌≡◌, refl, ap, List, [], ◌∷◌, ◌++◌, Option, none, some}
use termino.Prelude.Text.{Text}

pub record Attempt : Type 0 where
  pub key : Text
  pub value : Text
  pub answer : Option Text

-- The messages that were asked to be published, the accepted and the refused ones.
abbrev pub asked : List Attempt → List (Text × Text)
asked [] = []
asked (a ∷ as') = (a.key, a.value) ∷ asked as'

-- What the broker answered to each.
abbrev pub answers : List Attempt → List (Option Text)
answers [] = []
answers (a ∷ as') = a.answer ∷ answers as'

abbrev pub cons_unless : {A : Type 0} → Option Text → A → List A → List A
cons_unless none x xs = x ∷ xs
cons_unless (some e) x xs = xs

-- Those of the elements whose answer was no error.
abbrev pub taken : {A : Type 0} → List (Option Text) → List A → List A
taken [] xs = []
taken (e ∷ es) [] = []
taken (e ∷ es) (x ∷ xs) = cons_unless e x (taken es xs)

-- The messages that the broker took.
abbrev pub published : List Attempt → List (Text × Text)
published [] = []
published (a ∷ as') = cons_unless a.answer (a.key, a.value) (published as')

pub asked-append : (xs ys : List Attempt) → asked (xs ++ ys) ≡ asked xs ++ asked ys
asked-append [] ys = refl
asked-append (a ∷ xs) ys = ap (◌∷◌ (a.key, a.value)) (asked-append xs ys)

pub published-taken : (as' : List Attempt) → published as' ≡ taken (answers as') (asked as')
published-taken [] = refl
published-taken (a ∷ as') = ap (cons_unless a.answer (a.key, a.value)) (published-taken as')
