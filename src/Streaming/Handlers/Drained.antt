-- ===== src/Streaming/Handlers/Drained.antt =====
-- What waits in the channels of services/streaming-api/main.go reaches the clients.
use mathlib.Core.List.{append_assoc, append-nil}
use termino.Prelude.{
  ℕ, zero, suc, ◌<◌, ◌≡◌, refl, sym, ap, ◌∙◌, Bool, true, false, List, [], ◌∷◌, ◌++◌, map, Option,
  none, some, length, length-append, nat_eq, arith,
}
use termino.Prelude.Text.{Text, text_eq}
use termino.Prelude.Dict.{lookup}
use termino.Prelude.Entries.{lookup-insert_self}
use termino.Prelude.Strings.{Unicode}
use termino.Models.{AggregatedPrice, Codec}
use termino.Redis.{Rdb}
use termino.Streaming.{
  Endpoint, prices, alerts, StreamingServer, price_frame, alert_frame, capacity, broadcast,
  wants_price, with_channels,
}
use termino.Streaming.Delivery.{offered, is_target, send_all_lem}
use termino.Streaming.Handlers.Open.{IsSafe}
use termino.Streaming.Handlers.{deliver, deliver_on, receive, write_text, write_frame, frames_of}

abbrev pub frame_of : Endpoint → Text → Text
frame_of prices text = price_frame text
frame_of alerts text = alert_frame text

-- A handler runs, and these texts wait in its open channel.
pub record IsWaiting {F R : Type 0} (ch : ℕ) (e : Endpoint) (texts : List Text)
    (s : StreamingServer F R) : Type 0 where
  pub handler : lookup ch s.handlers ≡ some e
  pub channel : lookup ch s.channels ≡ some (record { buffer = texts; is_closed = false })

abbrev or_nil : Option (List Text) → List Text
or_nil none = []
or_nil (some frames) = frames

-- The frames that a handler has written.
abbrev pub response : {F R : Type 0} → ℕ → StreamingServer F R → List Text
response ch s = or_nil (lookup ch s.responses)

module _ {F R : Type 0} (u : Unicode) (codec : Codec (AggregatedPrice F)) (rdb : Rdb R) where
  abbrev pub deliver_times : ℕ → ℕ → StreamingServer F R → StreamingServer F R
  deliver_times zero ch s = s
  deliver_times (suc n) ch s = deliver_times n ch (deliver u codec rdb ch s)

  deliver_next :
      (ch : ℕ) (e : Endpoint) (text : Text) (texts : List Text) (s : StreamingServer F R)
      → IsWaiting ch e (text ∷ texts) s
      → IsWaiting ch e texts (deliver u codec rdb ch s)
        × (response ch (deliver u codec rdb ch s) ≡ response ch s ++ frame_of e text ∷ [])
  unfolding deliver deliver_on receive write_text write_frame frames_of
  deliver_next ch prices text texts s h =
      rw (h.handler, h.channel)
        (
          record { handler = h.handler; channel = lookup-insert_self ch _ s.channels },
          rw (
              lookup-insert_self ch (or_nil (lookup ch s.responses) ++ price_frame text ∷ [])
                s.responses),
        )
  deliver_next ch alerts text texts s h =
      rw (h.handler, h.channel)
        (
          record { handler = h.handler; channel = lookup-insert_self ch _ s.channels },
          rw (
              lookup-insert_self ch (or_nil (lookup ch s.responses) ++ alert_frame text ∷ [])
                s.responses),
        )

  deliver_all :
      (ch : ℕ) (e : Endpoint) (texts : List Text) (s : StreamingServer F R)
      → IsWaiting ch e texts s
      → response ch (deliver_times (length texts) ch s) ≡ response ch s ++ map (frame_of e) texts
  deliver_all ch e [] s h = sym (append-nil (response ch s))
  deliver_all ch e (text ∷ texts) s h =
      let (waits, wrote) = deliver_next ch e text texts s h in
      deliver_all ch e texts (deliver u codec rdb ch s) waits
      ∙ ap (λ (r : List Text). r ++ map (frame_of e) texts) wrote
      ∙ append_assoc (response ch s) (frame_of e text ∷ []) (map (frame_of e) texts)

  offered_last :
      (text : Text) (texts : List Text)
      → length texts < capacity
      → offered text (record { buffer = texts; is_closed = false })
        ≡ record { buffer = texts ++ text ∷ []; is_closed = false }
  offered_last text texts h = ground arith

  length-snoc : (texts : List Text) (text : Text) → length (texts ++ text ∷ []) ≡ suc (length texts)
  length-snoc texts text = length-append texts (text ∷ []) ∙ omega arith

  -- In a safe server, a price that a client wants and whose channel has room is not lost: the broadcast
  -- does not panic, and after one turn of the client's handler for each text that waited and one more,
  -- the response has got the texts that waited, in order, and then the price.
  pub broadcast-delivered :
      (symbol text : Text) (ch : ℕ) (syms : List (Text × Bool)) (texts : List Text)
      (s : StreamingServer F R)
      → IsSafe s
      → lookup ch s.clients ≡ some syms
      → wants_price symbol syms ≡ true
      → IsWaiting ch prices texts s
      → length texts < capacity
      → (t : StreamingServer F R) × (broadcast symbol text s ≡ some t)
        × (response ch (deliver_times (suc (length texts)) ch t)
            ≡ response ch s ++ map price_frame (texts ++ text ∷ []))
  unfolding broadcast with_channels
  broadcast-delivered symbol text ch syms texts s safe client wants waits room =
      let (after, sent, o) =
        send_all_lem (wants_price symbol) text s.clients s.channels safe.distinct
          safe.clients_open in
      let t : StreamingServer F R = record s { channels = after } in
      let is_to : is_target (wants_price symbol) ch s.clients ≡ true = rw client wants in
      let now : lookup ch after ≡ some (record { buffer = texts ++ text ∷ []; is_closed = false }) =
        o.each ch ∙ rw (is_to, waits.channel) (ap some (offered_last text texts room)) in
      (
        t,
        rw (sent, with_channels) refl,
        ap (λ n. response ch (deliver_times n ch t)) (sym (length-snoc texts text))
            ∙ deliver_all ch prices (texts ++ text ∷ []) t
                (record { handler = waits.handler; channel = now }),
      )
