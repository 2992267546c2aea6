-- ===== src/Streaming/Handlers/Safety.antt =====
-- The server of services/streaming-api/main.go never sends on a closed channel and never closes a
-- channel twice, and its buffers stay within their capacity.
use termino.Prelude.{
  ℕ, ◌≡◌, refl, ap, subst, Bool, true, false, List, [], ◌∷◌, Option, none, some, length, ◌==◌,
  nat_eq, nat_beq_iff, arith, All, Bool-cases, inl, inr,
}
use termino.Prelude.Int.{ℤ, pos, ◌-ℤ◌}
use termino.Prelude.Text.{Text, text_eq}
use termino.Prelude.Dict.{
  lookup, insert, delete, insert-IsDistinct, delete-IsDistinct, All-insert, All-delete,
}
use termino.Prelude.Strings.{Unicode}
use termino.Models.{AggregatedPrice, Codec}
use termino.Redis.{Rdb}
use termino.Streaming.{
  Channel, Endpoint, prices, alerts, StreamingServer, new, wants_price, wants_alert, broadcast,
  broadcast_alert,
}
use termino.Streaming.Delivery.{is_open}
use termino.Streaming.Handlers.{
  register, connect, connect_alerts, close_channel, remove_client, stop, hang_up_handler, hang_up,
  write_frame, write_text, receive, deliver_on, deliver, receive_decoded, receive_price, Op, price,
  alert, opens, opens_alerts, delivers, hangs_up, step, run,
}
use termino.Streaming.Handlers.Open.{
  buffer_of, IsSafe, open_after_insert, open_inserted, open_of_others, bounded_after_insert,
  recharge, send_all-IsSafe,
}

module _ {F R : Type 0} (u : Unicode) (codec : Codec (AggregatedPrice F)) (rdb : Rdb R) where
  register-IsSafe :
      (e : Endpoint) (syms : List (Text × Bool)) (frames : List Text) (s : StreamingServer F R)
      → IsSafe s
      → IsSafe (register u codec rdb e syms frames s)
  unfolding register
  register-IsSafe e syms frames s h =
      let ch : ℕ = s.next_channel in
      let c : Channel = record { buffer = []; is_closed = false } in
      let opened : is_open ch (insert ch c s.channels) ≡ true =
        open_inserted ch c s.channels refl in
      record {
        distinct = insert-IsDistinct ch syms s.clients h.distinct;
        clients_open =
            All-insert ch syms s.clients opened
              (λ x k. open_after_insert ch x.0 c s.channels refl k) h.clients_open;
        handlers_open =
            All-insert ch e s.handlers opened (λ x k. open_after_insert ch x.0 c s.channels refl k)
              h.handlers_open;
        bounded = λ k. bounded_after_insert ch k c s.channels (omega arith) (h.bounded k);
      }

  -- The handler of an open channel ends: its client goes, and its channel is closed.
  close-IsSafe :
      (ch : ℕ) (o : Option Channel) (s : StreamingServer F R)
      → lookup ch s.channels ≡ o
      → is_open ch s.channels ≡ true
      → IsSafe s
      → (t : StreamingServer F R) × (close_channel u codec rdb ch o (stop u codec rdb ch s)
          ≡ some t)
        × IsSafe t
  unfolding close_channel stop
  close-IsSafe ch none s e o h = cc
  close-IsSafe ch (some c) s e o h =
      let d : Channel = record c { is_closed = true } in
      (
        record s {
          clients = delete ch s.clients;
          handlers = delete ch s.handlers;
          channels = insert ch d s.channels;
          active_clients = s.active_clients -ℤ pos 1;
        },
        ground arith,
        record {
          distinct = delete-IsDistinct ch s.clients h.distinct;
          clients_open =
              All-delete ch s.clients (λ x n k. open_of_others ch x.0 d s.channels n k)
                h.clients_open;
          handlers_open =
              All-delete ch s.handlers (λ x n k. open_of_others ch x.0 d s.channels n k)
                h.handlers_open;
          bounded = λ k.
              bounded_after_insert ch k d s.channels
                (omega (arith, h.bounded ch, ap (λ (x : Option Channel). length (buffer_of x)) e))
                (h.bounded k);
        },
      )

  pub handler_open :
      (ch : ℕ) (hs : List (ℕ × Endpoint)) (channels : List (ℕ × Channel)) (e : Endpoint)
      → All (λ x. is_open x.0 channels ≡ true) hs
      → lookup ch hs ≡ some e
      → is_open ch channels ≡ true
  handler_open ch [] channels e h l = cc
  handler_open ch ((j, f) ∷ hs) channels e h l = elim (Bool-cases (j == ch)) [
    | inl t ↦ subst (λ i. is_open i channels ≡ true) ((nat_beq_iff j ch).0 t) h.0
    | inr t ↦ handler_open ch hs channels e h.1 (rw t at l)
  ]

  hang_up-IsSafe :
      (ch : ℕ) (o : Option Endpoint) (s : StreamingServer F R)
      → lookup ch s.handlers ≡ o
      → IsSafe s
      → (t : StreamingServer F R) × (hang_up_handler u codec rdb ch o s ≡ some t) × IsSafe t
  unfolding hang_up_handler remove_client stop
  hang_up-IsSafe ch none s e h = (s, refl, h)
  hang_up-IsSafe ch (some x) s e h =
      close-IsSafe ch (lookup ch s.channels) s refl
        (handler_open ch s.handlers s.channels x h.handlers_open e) h

  write_text-IsSafe :
      (ch : ℕ) (e : Endpoint) (text : Text) (s : StreamingServer F R)
      → IsSafe s
      → IsSafe (write_text u codec rdb ch e text s)
  unfolding write_text write_frame
  write_text-IsSafe ch prices text s h = record {
    distinct = h.distinct;
    clients_open = h.clients_open;
    handlers_open = h.handlers_open;
    bounded = h.bounded;
  }
  write_text-IsSafe ch alerts text s h = record {
    distinct = h.distinct;
    clients_open = h.clients_open;
    handlers_open = h.handlers_open;
    bounded = h.bounded;
  }

  receive-IsSafe :
      (ch : ℕ) (e : Endpoint) (c : Channel) (b : Bool) (buffer : List Text)
      (s : StreamingServer F R)
      → lookup ch s.channels ≡ some c
      → c.is_closed ≡ b
      → c.buffer ≡ buffer
      → is_open ch s.channels ≡ true
      → IsSafe s
      → IsSafe (receive u codec rdb ch e b buffer s)
  unfolding receive
  receive-IsSafe ch e c true buffer s l p q o h = ground (arith, l)
  receive-IsSafe ch e c false [] s l p q o h = h
  receive-IsSafe ch e c false (text ∷ rest) s l p q o h =
      let d : Channel = record { buffer = rest; is_closed = false } in
      write_text-IsSafe ch e text _ (
        recharge s (insert ch d s.channels) h (λ k. open_after_insert ch k d s.channels refl)
          (λ k.
            bounded_after_insert ch k d s.channels
              (omega (
                arith,
                h.bounded ch,
                ap (λ (x : Option Channel). length (buffer_of x)) l,
                ap length q,
              ))
              (h.bounded k)))

  deliver-IsSafe :
      (ch : ℕ) (e : Option Endpoint) (c : Option Channel) (s : StreamingServer F R)
      → lookup ch s.handlers ≡ e
      → lookup ch s.channels ≡ c
      → IsSafe s
      → IsSafe (deliver_on u codec rdb ch e c s)
  unfolding deliver_on
  deliver-IsSafe ch none c s p q h = h
  deliver-IsSafe ch (some e) none s p q h = h
  deliver-IsSafe ch (some e) (some c) s p q h =
      receive-IsSafe ch e c c.is_closed c.buffer s q refl refl
        (handler_open ch s.handlers s.channels e h.handlers_open p) h

  receive_decoded-IsSafe :
      (value : Text) (o : Option (AggregatedPrice F)) (s : StreamingServer F R)
      → IsSafe s
      → (t : StreamingServer F R) × (receive_decoded u codec rdb value o s ≡ some t) × IsSafe t
  unfolding receive_decoded broadcast
  receive_decoded-IsSafe value none s h = (s, refl, h)
  receive_decoded-IsSafe value (some p) s h =
      send_all-IsSafe (wants_price p.symbol) value _ (record {
        distinct = h.distinct;
        clients_open = h.clients_open;
        handlers_open = h.handlers_open;
        bounded = h.bounded;
      })

  pub step-IsSafe :
      (o : Op) (s : StreamingServer F R)
      → IsSafe s
      → (t : StreamingServer F R) × (step u codec rdb o s ≡ some t) × IsSafe t
  unfolding step receive_price broadcast_alert connect connect_alerts deliver hang_up
  step-IsSafe (price value) s h = receive_decoded-IsSafe value (codec.unmarshal value) s h
  step-IsSafe (alert value) s h = send_all-IsSafe wants_alert value s h
  step-IsSafe (opens false query) s h = (s, refl, h)
  step-IsSafe (opens true query) s h = (_, refl, register-IsSafe prices _ _ s h)
  step-IsSafe (opens_alerts false) s h = (s, refl, h)
  step-IsSafe (opens_alerts true) s h = (_, refl, register-IsSafe alerts _ _ s h)
  step-IsSafe (delivers ch) s h =
      (_, refl, deliver-IsSafe ch (lookup ch s.handlers) (lookup ch s.channels) s refl refl h)
  step-IsSafe (hangs_up ch) s h = hang_up-IsSafe ch (lookup ch s.handlers) s refl h

  pub run-step :
      (o : Op) (os : List Op) (s t v : StreamingServer F R)
      → step u codec rdb o s ≡ some t
      → run u codec rdb os t ≡ some v
      → run u codec rdb (o ∷ os) s ≡ some v
  unfolding run
  run-step o os s t v p q = rw (p, run) q

  run-IsSafe :
      (os : List Op) (s : StreamingServer F R)
      → IsSafe s
      → (t : StreamingServer F R) × (run u codec rdb os s ≡ some t) × IsSafe t
  unfolding run
  run-IsSafe [] s h = (s, refl, h)
  run-IsSafe (o ∷ os) s h =
      let (t, stepped, th) = step-IsSafe o s h in
      let (v, ran, vh) = run-IsSafe os t th in (v, run-step o os s t v stepped ran, vh)

  pub new-IsSafe : (redis : Option R) (ttl : ℤ) → IsSafe (new {F = F} redis ttl)
  new-IsSafe redis ttl = record {
    distinct = tt;
    clients_open = tt;
    handlers_open = tt;
    bounded = λ k. omega arith;
  }

  -- From a new server, no sequence of prices, alerts, connections, deliveries and disconnections
  -- panics, so no text is sent on a closed channel and no channel is closed twice; and at each end
  -- of such a sequence the channels of all clients and of all running handlers are open, and each
  -- buffer holds at most 64 texts.
  pub run-new-IsSafe :
      (os : List Op) (redis : Option R) (ttl : ℤ)
      → (t : StreamingServer F R) × (run u codec rdb os (new redis ttl) ≡ some t) × IsSafe t
  run-new-IsSafe os redis ttl = run-IsSafe os (new redis ttl) (new-IsSafe redis ttl)
