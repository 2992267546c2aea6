-- ===== src/Cli/Events/Frames.antt =====
-- What services/streaming-api/main.go writes to a stream, as cli/crypto-stream/ui reads it.
use mathlib.Core.List.{append_assoc}
use termino.Prelude.{
  ℕ, ◌≡◌, refl, ap, ◌∙◌, Bool, true, ◌||◌, List, [], ◌∷◌, ◌++◌, Option, none, some, nat_beq, All,
  arith,
}
use termino.Prelude.Text.{Text, codes}
use termino.Prelude.Strings.{cut_prefix, none_is}
use termino.Models.{Codec}
use termino.Streaming.{price_frame, alert_frame}
use termino.Cli.Events.{
  body, lines, drop_cr, fitting, scan_lines, or_next, first_event, message_or, connect_sse,
  connect_alert_sse, connect_table_sse, scan_err, all_fit, err_or,
}

abbrev pub is_break : ℕ → Bool
is_break c = nat_beq c b'\n' || nat_beq c b'\r'

-- Documented of encoding/json: control characters are written as escapes.
abbrev pub IsEscaped : Text → Type 0
IsEscaped text = none_is is_break text ≡ true

lines-append :
    (l rest : Text) → none_is is_break l ≡ true → lines (l ++ b'\n' ∷ rest) ≡ l ∷ lines rest
unfolding lines
lines-append [] rest h = refl
lines-append (c ∷ l) rest h = ground (arith, lines-append l rest)

drop_cr-same : (l : Text) → none_is is_break l ≡ true → drop_cr l ≡ l
unfolding drop_cr
drop_cr-same [] h = refl
drop_cr-same (c ∷ []) h = ground arith
drop_cr-same (c ∷ d ∷ l) h = ap (◌∷◌ c) (drop_cr-same (d ∷ l) (ground arith))

scan-line :
    (fits : Text → Bool) (l rest : Text)
    → none_is is_break l ≡ true
    → fits l ≡ true
    → scan_lines fits (l ++ b'\n' ∷ rest) ≡ l ∷ scan_lines fits rest
unfolding scan_lines fitting
scan-line fits l rest h f = rw (lines-append l rest h, f, drop_cr-same l h)

-- What the server has written: a frame for each text.
abbrev pub frames : (Text → Text) → List Text → Text
frames frame [] = []
frames frame (t ∷ ts) = frame t ++ frames frame ts

-- The lines of the frames fit the buffer.
pub record Fit (fits : Text → Bool) (text : Text) : Type 0 where
  pub blank : fits [] ≡ true
  pub event : fits (codes "event: alert") ≡ true
  pub line : fits (codes "data: " ++ text) ≡ true

scan-price_frame :
    (fits : Text → Bool) (text rest : Text)
    → IsEscaped text
    → Fit fits text
    → scan_lines fits (price_frame text ++ rest)
      ≡ (codes "data: " ++ text) ∷ [] ∷ scan_lines fits rest
scan-price_frame fits text rest h f =
    ap (scan_lines fits) (append_assoc (codes "data: " ++ text) (b'\n' ∷ b'\n' ∷ []) rest)
    ∙ scan-line fits (codes "data: " ++ text) (b'\n' ∷ rest) h f.line
    ∙ ap (◌∷◌ (codes "data: " ++ text)) (scan-line fits [] rest refl f.blank)

scan-alert_frame :
    (fits : Text → Bool) (text rest : Text)
    → IsEscaped text
    → Fit fits text
    → scan_lines fits (alert_frame text ++ rest)
      ≡ codes "event: alert" ∷ (codes "data: " ++ text) ∷ [] ∷ scan_lines fits rest
scan-alert_frame fits text rest h f =
    scan-line fits (codes "event: alert") (price_frame text ++ rest) refl f.event
    ∙ ap (◌∷◌ (codes "event: alert")) (scan-price_frame fits text rest h f)

scan-nil : (fits : Text → Bool) → scan_lines fits [] ≡ []
unfolding scan_lines lines fitting
scan-nil fits = refl

all_fit-line :
    (fits : Text → Bool) (l rest : Text)
    → none_is is_break l ≡ true
    → fits l ≡ true
    → all_fit fits (lines (l ++ b'\n' ∷ rest)) ≡ all_fit fits (lines rest)
unfolding all_fit
all_fit-line fits l rest h f = rw (lines-append l rest h, f)

all_fit-frames :
    (fits : Text → Bool) (texts : List Text)
    → All IsEscaped texts
    → All (Fit fits) texts
    → all_fit fits (lines (frames price_frame texts)) ≡ true
unfolding all_fit
all_fit-frames fits [] h f = unfold lines in refl
all_fit-frames fits (t ∷ ts) h f =
    ap (λ (s : Text). all_fit fits (lines s))
      (append_assoc (codes "data: " ++ t) (b'\n' ∷ b'\n' ∷ []) (frames price_frame ts))
    ∙ all_fit-line fits (codes "data: " ++ t) (b'\n' ∷ frames price_frame ts) h.0 f.0.line
    ∙ all_fit-line fits [] (frames price_frame ts) refl f.0.blank
    ∙ all_fit-frames fits ts h.1 f.1

scan_err-frames :
    (fits : Text → Bool) (texts : List Text)
    → All IsEscaped texts
    → All (Fit fits) texts
    → scan_err fits (frames price_frame texts) none ≡ none
unfolding scan_err
scan_err-frames fits texts h f = rw (all_fit-frames fits texts h f)

module _ {A : Type 0} (codec : Codec A) where
  unfoldable pub first_decoded : List Text → Option A
  unfolding or_next
  first_decoded [] = none
  first_decoded (t ∷ ts) = or_next codec (some t) (first_decoded ts)

  first_event-price_frames :
      (fits : Text → Bool) (texts : List Text)
      → All IsEscaped texts
      → All (Fit fits) texts
      → first_event codec (scan_lines fits (frames price_frame texts)) ≡ first_decoded texts
  unfolding first_event first_decoded cut_prefix
  first_event-price_frames fits [] h f = ap (first_event codec) (scan-nil fits)
  first_event-price_frames fits (t ∷ ts) h f =
      ap (first_event codec) (scan-price_frame fits t (frames price_frame ts) h.0 f.0)
      ∙ ap (or_next codec (some t)) (first_event-price_frames fits ts h.1 f.1)

  first_event-alert_frames :
      (fits : Text → Bool) (texts : List Text)
      → All IsEscaped texts
      → All (Fit fits) texts
      → first_event codec (scan_lines fits (frames alert_frame texts)) ≡ first_decoded texts
  unfolding first_event first_decoded cut_prefix
  first_event-alert_frames fits [] h f = ap (first_event codec) (scan-nil fits)
  first_event-alert_frames fits (t ∷ ts) h f =
      ap (first_event codec) (scan-alert_frame fits t (frames alert_frame ts) h.0 f.0)
      ∙ ap (or_next codec (some t)) (first_event-alert_frames fits ts h.1 f.1)

  -- Where the texts that a server writes have no line break and their lines fit the buffer, the
  -- three readers give the first text that can be decoded, and an error of a closed stream if there
  -- is none: `connectSSE` of watch.go and of prices.go on the frames of prices, and
  -- `connectAlertSSE` on those of alerts.
  pub connect_sse-frames :
      (fits : Text → Bool) (texts : List Text)
      → All IsEscaped texts
      → All (Fit fits) texts
      → (connect_sse codec fits (body (frames price_frame texts) none)
          ≡ message_or codec (codes "stream closed") (first_decoded texts))
        × (connect_table_sse codec fits (body (frames price_frame texts) none)
            ≡ message_or codec (codes "stream closed") (first_decoded texts))
        × (connect_alert_sse codec fits (body (frames alert_frame texts) none)
            ≡ message_or codec (codes "alert stream closed") (first_decoded texts))
  unfolding connect_sse connect_alert_sse connect_table_sse err_or
  connect_sse-frames fits texts h f = (
    ap (message_or codec (codes "stream closed")) (first_event-price_frames fits texts h f),
    ap
          (λ (e : Option Text).
            message_or codec (err_or codec (codes "stream closed") e)
              (first_event codec (scan_lines fits (frames price_frame texts))))
          (scan_err-frames fits texts h f)
        ∙ ap (message_or codec (codes "stream closed")) (first_event-price_frames fits texts h f),
    ap (message_or codec (codes "alert stream closed")) (first_event-alert_frames fits texts h f),
  )
