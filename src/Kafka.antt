-- ===== src/Kafka.antt =====
-- pkg/kafka: the messages of kafka-go, as far as the program reads and builds them, and the retry
-- count that pkg/kafka/consumer.go keeps in their headers. Bytes are texts.
pub mod Headers
pub mod Consumer
pub mod Topics
pub mod Attempts
use termino.Prelude.{
  Bool, true, false, List, [], ◌∷◌, ◌++◌, Option, none, some, if◌then◌else◌, ◌==◌,
}
use termino.Prelude.Int.{ℤ, pos}
use termino.Prelude.Decimal.{atoi, itoa}
use termino.Prelude.Text.{Text, text_eq, codes}

pub record Header : Type 0 where
  pub key : Text
  pub value : Text

pub record Message : Type 0 where
  pub topic : Text
  pub key : Text
  pub value : Text
  pub headers : List Header

abbrev pub retry_count : Text
retry_count = codes "retry-count"

-- The value of the first retry header that is a number.
count_or_rest : Option ℤ → ℤ → ℤ
count_or_rest (some count) rest = count
count_or_rest none rest = rest

unfoldable pub get_retry_count : List Header → ℤ
unfolding count_or_rest
get_retry_count [] = pos 0
get_retry_count (h ∷ hs) =
    let rest = get_retry_count hs in
    if h.key == retry_count then count_or_rest (atoi h.value) rest else rest

abbrev pub retry_header : ℤ → Header
retry_header count = record { key = retry_count; value = itoa count }

-- The loop of `updateRetryHeader`: the new headers, and whether a retry header was found.
pub replace_retry : List Header → ℤ → List Header × Bool
replace_retry [] count = ([], false)
replace_retry (h ∷ hs) count =
    let (result, found) = replace_retry hs count in
    if h.key == retry_count then (retry_header count ∷ result, true) else (h ∷ result, found)

append_unless : List Header × Bool → ℤ → List Header
append_unless (result, true) count = result
append_unless (result, false) count = result ++ retry_header count ∷ []

unfoldable pub update_retry_header : List Header → ℤ → List Header
unfolding replace_retry append_unless
update_retry_header headers count = append_unless (replace_retry headers count) count
