-- ===== src/Kafka/Headers.antt =====
-- The retry header of pkg/kafka/consumer.go is read back as it was written.
use mathlib.Core.List.{append-nil}
use termino.Prelude.{
  arith, beq_self, ◌≡◌, refl, ap, ◌∙◌, Bool, Option, none, some, true, false, not, List, [], ◌∷◌,
  ◌==◌, select, Bool-cases, inl, inr, select-append,
}
use termino.Prelude.Int.{ℤ}
use termino.Prelude.Decimal.{FitsInt, atoi, atoi-itoa, atoi-FitsInt}
use termino.Prelude.Text.{text_eq}
use termino.Kafka.{
  count_or_rest, Header, count_or_rest, retry_count, retry_header, get_retry_count, replace_retry,
  append_unless, update_retry_header,
}

abbrev pub is_other : Header → Bool
is_other h = not (h.key == retry_count)

retry_header-is_retry : (n : ℤ) → ((retry_header n).key == retry_count) ≡ true
retry_header-is_retry n = beq_self retry_count

append_unless-cons :
    (x : Header) (c : List Header × Bool) (n : ℤ)
    → append_unless (x ∷ c.0, c.1) n ≡ x ∷ append_unless c n
unfolding append_unless
append_unless-cons x (result, true) n = refl
append_unless-cons x (result, false) n = refl

abbrev replaced : List Header → ℤ → List Header
replaced hs n = append_unless (replace_retry hs n) n

replaced-hit :
    (x : Header) (hs : List Header) (n : ℤ)
    → (x.key == retry_count) ≡ true
    → replaced (x ∷ hs) n ≡ retry_header n ∷ (replace_retry hs n).0
unfolding replace_retry append_unless
replaced-hit x hs n e = rw e

replaced-miss :
    (x : Header) (hs : List Header) (n : ℤ)
    → (x.key == retry_count) ≡ false
    → replaced (x ∷ hs) n ≡ x ∷ replaced hs n
unfolding replace_retry
replaced-miss x hs n e = rw e (append_unless-cons x (replace_retry hs n) n)

get-retry : (n : ℤ) (hs : List Header) → FitsInt n → get_retry_count (retry_header n ∷ hs) ≡ n
unfolding get_retry_count
get-retry n hs h = rw (retry_header-is_retry n, atoi-itoa n h)

get-other :
    (x : Header) (hs : List Header)
    → (x.key == retry_count) ≡ false
    → get_retry_count (x ∷ hs) ≡ get_retry_count hs
unfolding get_retry_count
get-other x hs e = rw e

get-replaced : (hs : List Header) (n : ℤ) → FitsInt n → get_retry_count (replaced hs n) ≡ n
unfolding replace_retry append_unless
get-replaced [] n h = get-retry n [] h
get-replaced (x ∷ hs) n h = elim (Bool-cases (x.key == retry_count)) [
  | inl e ↦ ap get_retry_count (replaced-hit x hs n e) ∙ get-retry n _ h
  | inr e ↦
      ap get_retry_count (replaced-miss x hs n e)
      ∙ get-other x (replaced hs n) e
      ∙ get-replaced hs n h
]

others-result :
    (hs : List Header) (n : ℤ) → select is_other (replace_retry hs n).0 ≡ select is_other hs
unfolding replace_retry
others-result [] n = refl
others-result (x ∷ hs) n = elim (Bool-cases (x.key == retry_count)) [
  | inl e ↦ rw e (rw (retry_header-is_retry n) (others-result hs n))
  | inr e ↦ rw e (rw e (ap (◌∷◌ x) (others-result hs n)))
]

others-appended :
    (c : List Header × Bool) (n : ℤ) → select is_other (append_unless c n) ≡ select is_other c.0
unfolding append_unless
others-appended (result, true) n = refl
others-appended (result, false) n =
    select-append is_other result (retry_header n ∷ [])
    ∙ rw (retry_header-is_retry n) (append-nil _)

-- After an update to a 64-bit count, that count is read, and the headers other than the retry
-- count are as before, in order.
pub get-update_retry_header :
    (hs : List Header) (n : ℤ)
    → FitsInt n
    → (get_retry_count (update_retry_header hs n) ≡ n)
      × (select is_other (update_retry_header hs n) ≡ select is_other hs)
unfolding update_retry_header
get-update_retry_header hs n h =
    (get-replaced hs n h, others-appended (replace_retry hs n) n ∙ others-result hs n)

count_or_rest-FitsInt :
    (o : Option ℤ) (rest : ℤ)
    → ((n : ℤ) → o ≡ some n → FitsInt n)
    → FitsInt rest
    → FitsInt (count_or_rest o rest)
unfolding count_or_rest
count_or_rest-FitsInt none rest f h = h
count_or_rest-FitsInt (some n) rest f h = f n refl

pub get_retry_count-FitsInt : (hs : List Header) → FitsInt (get_retry_count hs)
unfolding get_retry_count
get_retry_count-FitsInt [] = omega arith
get_retry_count-FitsInt (x ∷ hs) = elim (Bool-cases (x.key == retry_count)) [
  | inl e ↦
      rw e
        (count_or_rest-FitsInt (atoi x.value) _ (atoi-FitsInt x.value) (get_retry_count-FitsInt hs))
  | inr e ↦ rw e (get_retry_count-FitsInt hs)
]
