-- ===== src/Examples/Documents.antt =====
-- The theorem on the JSON of the structs applied to a plain text of documents: three words for each
-- field, each ended by a zero.
use termino.Prelude.{
  ℕ, zero, suc, ◌≡◌, refl, ap, ◌∙◌, Bool, true, false, List, [], ◌∷◌, Option, none, some,
}
use termino.Prelude.Int.{pos, negsuc}
use termino.Prelude.Text.{Text}
use termino.Float.Fixed.{Cents, nan, cents}
use termino.Models.{IsFaithfulOn}
use termino.Models.Json.{Value, null, compound, boolean, number, string, object, Syntax}
use termino.Models.Json.Fields.{IsSyntax}
use termino.Models.Json.Structs.{
  price_event_codec, aggregated_price_codec, price_alert_codec, alert_rule_codec, dlq_message_codec,
  codecs-AreFaithful, IsKeptEvent, IsKeptAlert, IsKeptRule, IsKeptDlq,
}

ended : Text → Text → Text
ended [] rest = zero ∷ rest
ended (c ∷ t) rest = suc c ∷ ended t rest

add_first : ℕ → List Text → List Text
add_first c [] = (c ∷ []) ∷ []
add_first c (w ∷ ws) = (c ∷ w) ∷ ws

pub words : Text → List Text
unfolding add_first
words [] = []
words (zero ∷ s) = [] ∷ words s
words (suc c ∷ s) = add_first c (words s)

words-ended : (t rest : Text) → words (ended t rest) ≡ t ∷ words rest
unfolding words ended add_first
words-ended [] rest = refl
words-ended (c ∷ t) rest = ap (add_first c) (words-ended t rest)

kind_word : Value → Text
kind_word null = []
kind_word compound = 0 ∷ []
kind_word (boolean b) = 0 ∷ 0 ∷ []
kind_word (number t) = 0 ∷ 0 ∷ 0 ∷ []
kind_word (string t) = 0 ∷ 0 ∷ 0 ∷ 0 ∷ []

content_word : Value → Text
content_word null = []
content_word compound = []
content_word (boolean false) = []
content_word (boolean true) = 0 ∷ []
content_word (number t) = t
content_word (string t) = t

is_long : Text → Bool
is_long [] = false
is_long (c ∷ t) = true

value_of : Text → Text → Value
unfolding is_long
value_of [] w = null
value_of (a ∷ []) w = compound
value_of (a ∷ b ∷ []) w = boolean (is_long w)
value_of (a ∷ b ∷ c ∷ []) w = number w
value_of (a ∷ b ∷ c ∷ d ∷ t) w = string w

value-kind_word : (v : Value) → value_of (kind_word v) (content_word v) ≡ v
unfolding value_of kind_word content_word is_long
value-kind_word null = refl
value-kind_word compound = refl
value-kind_word (boolean false) = refl
value-kind_word (boolean true) = refl
value-kind_word (number t) = refl
value-kind_word (string t) = refl

pub print : List (Text × Value) → Text
unfolding ended kind_word content_word
print [] = []
print ((key, v) ∷ es) = ended key (ended (kind_word v) (ended (content_word v) (print es)))

pub entries : List Text → List (Text × Value)
unfolding value_of
entries (key ∷ k ∷ w ∷ ws) = (key, value_of k w) ∷ entries ws
entries (key ∷ k ∷ []) = []
entries (key ∷ []) = []
entries [] = []

entries-print : (es : List (Text × Value)) → entries (words (print es)) ≡ es
unfolding entries print words
entries-print [] = refl
entries-print ((key, v) ∷ es) =
    ap entries (
      words-ended key _
      ∙ ap (◌∷◌ key)
          (words-ended (kind_word v) _ ∙ ap (◌∷◌ (kind_word v)) (words-ended (content_word v) _)))
    ∙ ap (λ x. (key, x) ∷ entries (words (print es))) (value-kind_word v)
    ∙ ap (◌∷◌ (key, v)) (entries-print es)

pub format_cents : Cents → Option Text
format_cents nan = none
format_cents (cents (pos n)) = some (0 ∷ n ∷ [])
format_cents (cents (negsuc n)) = some (1 ∷ n ∷ [])

pub parse_cents : Text → Option Cents
parse_cents (zero ∷ n ∷ []) = some (cents (pos n))
parse_cents (suc k ∷ n ∷ []) = some (cents (negsuc n))
parse_cents (k ∷ n ∷ a ∷ t) = none
parse_cents (k ∷ []) = none
parse_cents [] = none

unfoldable pub is_zero : Cents → Bool
is_zero (cents (pos zero)) = true
is_zero (cents (pos (suc n))) = false
is_zero (cents (negsuc n)) = false
is_zero nan = false

abbrev pub worded : Syntax Cents
worded = record {
  print = print;
  parse = λ t. some (object (entries (words t)));
  fold = λ t. t;
  format_float = format_cents;
  parse_float = parse_cents;
  zero = cents (pos 0);
  is_zero = is_zero;
}

parse-format_cents : (x : Cents) (t : Text) → format_cents x ≡ some t → parse_cents t ≡ some x
unfolding format_cents parse_cents
parse-format_cents nan t h = cc
parse-format_cents (cents (pos n)) t h = cc
parse-format_cents (cents (negsuc n)) t h = cc

is_zero-zero : (x : Cents) → is_zero x ≡ true → x ≡ cents (pos 0)
unfolding is_zero
is_zero-zero (cents (pos zero)) h = refl
is_zero-zero (cents (pos (suc n))) h = cc
is_zero-zero (cents (negsuc n)) h = cc
is_zero-zero nan h = cc

abbrev pub AnyText : Text → Type 0
AnyText t = Unit

pub worded-IsSyntax : IsSyntax worded AnyText
worded-IsSyntax = record {
  ascii_text = λ t h. tt;
  parse-print = λ es h. ap (λ l. some (object l)) (entries-print es);
  parse-format = parse-format_cents;
}

codecs-AreFaithful_example :
    IsFaithfulOn (IsKeptEvent worded AnyText) (price_event_codec worded)
    × IsFaithfulOn (λ a. AnyText a.symbol) (aggregated_price_codec worded)
    × IsFaithfulOn (IsKeptAlert worded AnyText) (price_alert_codec worded)
    × IsFaithfulOn (IsKeptRule worded AnyText) (alert_rule_codec worded)
    × IsFaithfulOn (IsKeptDlq worded AnyText) (dlq_message_codec worded)
codecs-AreFaithful_example = codecs-AreFaithful worded worded-IsSyntax
