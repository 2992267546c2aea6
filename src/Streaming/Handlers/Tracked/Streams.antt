-- ===== src/Streaming/Handlers/Tracked/Streams.antt =====
-- How many handlers of services/streaming-api/main.go run after one starts or ends.
use termino.Prelude.{
  ℕ, suc, ◌+◌, ◌≡◌, refl, ◌∙◌, subst, Bool, true, false, Option, none, some, length, nat_eq,
  if◌then◌else◌, arith,
}
use termino.Prelude.Text.{Text}
use termino.Prelude.Dict.{lookup}
use termino.Prelude.Strings.{Unicode}
use termino.Models.{AggregatedPrice, Codec}
use termino.Redis.{Rdb}
use termino.Streaming.{Endpoint, prices, alerts, StreamingServer}
use mathlib.Core.Option.{some-injective}
use termino.Streaming.Handlers.{connect, connect_alerts, remove_client, hang_up_handler, hang_up}
use termino.Streaming.Handlers.Tracked.{IsTracked, register-IsTracked, close-IsTracked}

-- Whether there is a handler, as a number.
abbrev pub number : Option Endpoint → ℕ
number none = 0
number (some e) = 1

module _ {F R : Type 0} (u : Unicode) (codec : Codec (AggregatedPrice F)) (rdb : Rdb R) where
  -- A handler starts where the response can be flushed.
  pub connect-IsTracked :
      (flusher : Bool) (query : Text) (s : StreamingServer F R)
      → IsTracked s
      → IsTracked (connect u codec rdb flusher query s)
        × (length (connect u codec rdb flusher query s).handlers
            ≡ (if flusher then suc (length s.handlers) else length s.handlers))
  unfolding connect
  connect-IsTracked false query s h = (h, refl)
  connect-IsTracked true query s h = register-IsTracked u codec rdb prices _ _ s h

  pub connect_alerts-IsTracked :
      (flusher : Bool) (s : StreamingServer F R)
      → IsTracked s
      → IsTracked (connect_alerts u codec rdb flusher s)
        × (length (connect_alerts u codec rdb flusher s).handlers
            ≡ (if flusher then suc (length s.handlers) else length s.handlers))
  unfolding connect_alerts
  connect_alerts-IsTracked false s h = (h, refl)
  connect_alerts-IsTracked true s h = register-IsTracked u codec rdb alerts _ _ s h

  hang_up_handler-IsTracked :
      (ch : ℕ) (o : Option Endpoint) (s t : StreamingServer F R)
      → lookup ch s.handlers ≡ o
      → IsTracked s
      → hang_up_handler u codec rdb ch o s ≡ some t
      → IsTracked t × (length s.handlers ≡ number o + length t.handlers)
  unfolding hang_up_handler remove_client
  hang_up_handler-IsTracked ch none s t l h e =
      subst (λ v. IsTracked v × (length s.handlers ≡ 0 + length v.handlers)) (some-injective _ _ e)
        (h, omega arith)
  hang_up_handler-IsTracked ch (some f) s t l h e =
      let (tracked, fewer) = close-IsTracked u codec rdb ch f _ s t l h e in
      (tracked, fewer ∙ omega arith)

  pub hang_up-IsTracked :
      (ch : ℕ) (s t : StreamingServer F R)
      → IsTracked s
      → hang_up u codec rdb ch s ≡ some t
      → IsTracked t × (length s.handlers ≡ number (lookup ch s.handlers) + length t.handlers)
  unfolding hang_up
  hang_up-IsTracked ch s t h e = hang_up_handler-IsTracked ch (lookup ch s.handlers) s t refl h e
