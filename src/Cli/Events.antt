-- ===== src/Cli/Events.antt =====
-- The reading of one event of a stream in cli/crypto-stream/ui: `connectSSE` of prices.go and
-- watch.go, and `connectAlertSSE` of alerts.go. `http.Get` gives its error or the text of the body
-- with the error that ended it; whether a line fits the buffer of the scanner is a parameter.
pub mod Frames
use termino.Prelude.{
  ℕ, Bool, true, false, not, ◌&&◌, List, [], ◌∷◌, Option, none, some, if◌then◌else◌, nat_beq,
}
use termino.Prelude.Text.{Text, codes}
use termino.Prelude.Strings.{cut_prefix}
use termino.Models.{Codec}
use termino.Cli.{Msg, arrived, err_msg}

pub data Fetched : Type 0 where
  refused : Text → Fetched
  body : Text → Option Text → Fetched

abbrev add_to_first : ℕ → List Text → List Text
add_to_first c [] = (c ∷ []) ∷ []
add_to_first c (t ∷ ts) = (c ∷ t) ∷ ts

-- The lines of `bufio.ScanLines`, before a carriage return at their end is dropped: no empty line
-- stands after the last newline.
pub lines : Text → List Text
lines [] = []
lines (c ∷ s) = let rest = lines s in if nat_beq c b'\n' then [] ∷ rest else add_to_first c rest

drop_cr : Text → Text
drop_cr [] = []
drop_cr (c ∷ []) = if nat_beq c b'\r' then [] else c ∷ []
drop_cr (c ∷ d ∷ s) = c ∷ drop_cr (d ∷ s)

-- A line that does not fit ends the scan.
fitting : (Text → Bool) → List Text → List Text
unfolding drop_cr
fitting fits [] = []
fitting fits (l ∷ ls) = let rest = fitting fits ls in if fits l then drop_cr l ∷ rest else []

all_fit : (Text → Bool) → List Text → Bool
all_fit fits [] = true
all_fit fits (l ∷ ls) = fits l && all_fit fits ls

unfoldable pub scan_lines : (Text → Bool) → Text → List Text
unfolding lines fitting
scan_lines fits s = fitting fits (lines s)

-- `scanner.Err`.
unfoldable pub scan_err : (Text → Bool) → Text → Option Text → Option Text
unfolding lines all_fit
scan_err fits s err =
    if all_fit fits (lines s) then err else some (codes "bufio.Scanner: token too long")

module _ {A : Type 0} (codec : Codec A) where
  or_next : Option Text → Option A → Option A
  or_next none next = next
  or_next (some text) next = elim (codec.unmarshal text) [ none ↦ next | some a ↦ some a ]

  -- The loop over the lines: other lines, and texts that cannot be decoded, are skipped.
  unfoldable pub first_event : List Text → Option A
  unfolding or_next
  first_event [] = none
  first_event (l ∷ ls) = or_next (cut_prefix (codes "data: ") l) (first_event ls)

  pub message_or : Text → Option A → Msg A
  message_or err none = err_msg err
  message_or err (some a) = arrived a

  err_or : Text → Option Text → Text
  err_or err none = err
  err_or err (some e) = e

  -- `connectSSE` of watch.go.
  unfoldable pub connect_sse : (Text → Bool) → Fetched → Msg A
  unfolding message_or
  connect_sse fits (refused e) = err_msg e
  connect_sse fits (body s err) =
      message_or (codes "stream closed") (first_event (scan_lines fits s))

  -- `connectAlertSSE` of alerts.go.
  unfoldable pub connect_alert_sse : (Text → Bool) → Fetched → Msg A
  unfolding message_or
  connect_alert_sse fits (refused e) = err_msg e
  connect_alert_sse fits (body s err) =
      message_or (codes "alert stream closed") (first_event (scan_lines fits s))

  -- `connectSSE` of prices.go, which shows the error of the scanner too.
  unfoldable pub connect_table_sse : (Text → Bool) → Fetched → Msg A
  unfolding message_or err_or
  connect_table_sse fits (refused e) = err_msg e
  connect_table_sse fits (body s err) =
      message_or (err_or (codes "stream closed") (scan_err fits s err))
        (first_event (scan_lines fits s))
