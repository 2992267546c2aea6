-- ===== src/Streaming/Handlers/Tracked/Lasting.antt =====
-- Which handlers of services/streaming-api/main.go go on.
use mathlib.Core.Option.{some-injective}
use termino.Prelude.{
  ℕ, ◌≡◌, sym, ap, ◌∙◌, subst, Bool, true, false, List, [], ◌∷◌, Option, none, some, ◌==◌, nat_eq,
  nat_beq_iff, Bool-cases, inl, inr,
}
use termino.Prelude.Text.{Text}
use termino.Prelude.Dict.{lookup}
use termino.Prelude.Entries.{other_kept, other_not_deleted}
use termino.Prelude.Keys.{lookup-above}
use termino.Prelude.Strings.{Unicode}
use termino.Models.{AggregatedPrice, Codec}
use termino.Redis.{Rdb}
use termino.Streaming.{Channel, Endpoint, prices, alerts, StreamingServer, alerts_mark}
use termino.Streaming.Symbols.{parse_symbols, symbol_map}
use termino.Streaming.Handlers.{
  first_frames, register, connect, connect_alerts, stop, close_channel, remove_client,
  hang_up_handler, hang_up,
}
use termino.Streaming.Handlers.Tracked.{IsTracked, AreSame}

-- The handler of the channel goes on.
abbrev pub Lasts : {F R : Type 0} → ℕ → StreamingServer F R → StreamingServer F R → Type 0
Lasts ch s t = (e : Endpoint) → lookup ch s.handlers ≡ some e → lookup ch t.handlers ≡ some e

pub AreSame-Lasts : {F R : Type 0} (ch : ℕ) (s t : StreamingServer F R) → AreSame s t → Lasts ch s t
AreSame-Lasts ch s t same e l = ap (lookup ch) same.handlers ∙ l

module _ {F R : Type 0} (u : Unicode) (codec : Codec (AggregatedPrice F)) (rdb : Rdb R)
    (ch : ℕ) where
  -- A new channel is another one.
  register-Lasts :
      (e : Endpoint) (syms : List (Text × Bool)) (frames : List Text) (s : StreamingServer F R)
      → IsTracked s
      → Lasts ch s (register u codec rdb e syms frames s)
  unfolding register
  register-Lasts e syms frames s h f l = elim (Bool-cases (s.next_channel == ch)) [
    | inl same ↦ absurd (
        none_not_some (
          sym (lookup-above s.next_channel s.handlers h.fresh)
          ∙ ap (λ i. lookup i s.handlers) ((nat_beq_iff s.next_channel ch).0 same)
          ∙ l))
    | inr other ↦ other_kept s.next_channel ch e (some f) s.handlers other l
  ]
    where
      none_not_some : ◌≡◌ {A = Option Endpoint} none (some f) → ⊥
      none_not_some e = cc

  pub connect-Lasts :
      (flusher : Bool) (query : Text) (s : StreamingServer F R)
      → IsTracked s
      → Lasts ch s (connect u codec rdb flusher query s)
  unfolding connect
  connect-Lasts false query s h = λ f l. l
  connect-Lasts true query s h =
      let syms = symbol_map u (parse_symbols u query) in
      register-Lasts prices syms (first_frames u codec rdb syms s.latest) s h

  pub connect_alerts-Lasts :
      (flusher : Bool) (s : StreamingServer F R)
      → IsTracked s
      → Lasts ch s (connect_alerts u codec rdb flusher s)
  unfolding connect_alerts
  connect_alerts-Lasts false s h = λ f l. l
  connect_alerts-Lasts true s h = register-Lasts alerts ((alerts_mark, true) ∷ []) [] s h

  close-Lasts :
      (j : ℕ) (o : Option Channel) (s t : StreamingServer F R)
      → (j == ch) ≡ false
      → close_channel u codec rdb j o (stop u codec rdb j s) ≡ some t
      → Lasts ch s t
  unfolding close_channel stop
  close-Lasts j none s t n q f l = cc
  close-Lasts j (some c) s t n q f l = elim (Bool-cases c.is_closed) [
    | inl shut ↦ absurd (none_not_some (rw shut at q))
    | inr up ↦
        subst (λ v. lookup ch v.handlers ≡ some f) (some-injective _ _ (rw up at q))
          (other_not_deleted j ch (some f) s.handlers n l)
  ]
    where
      none_not_some : ◌≡◌ {A = Option (StreamingServer F R)} none (some t) → ⊥
      none_not_some e = cc

  hang_up_handler-Lasts :
      (j : ℕ) (o : Option Endpoint) (s t : StreamingServer F R)
      → (j == ch) ≡ false
      → hang_up_handler u codec rdb j o s ≡ some t
      → Lasts ch s t
  unfolding hang_up_handler remove_client
  hang_up_handler-Lasts j none s t n q = subst (Lasts ch s) (some-injective _ _ q) (λ e l. l)
  hang_up_handler-Lasts j (some e) s t n q = close-Lasts j _ s t n q

  -- Another request ends.
  pub hang_up-Lasts :
      (j : ℕ) (s t : StreamingServer F R)
      → (j == ch) ≡ false
      → hang_up u codec rdb j s ≡ some t
      → Lasts ch s t
  unfolding hang_up
  hang_up-Lasts j s t n q = hang_up_handler-Lasts j (lookup j s.handlers) s t n q
