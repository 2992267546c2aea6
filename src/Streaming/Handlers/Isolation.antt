-- ===== src/Streaming/Handlers/Isolation.antt =====
-- Alerts and prices of services/streaming-api/main.go do not mix, whatever symbols a client asks for.
use mathlib.Core.Option.{some-injective}
use termino.Prelude.{
  ℕ, ◌≡◌, refl, subst, Bool, true, false, List, [], ◌∷◌, Option, none, some, nat_eq, arith, All,
  beq_self,
}
use termino.Prelude.Int.{ℤ}
use termino.Prelude.Text.{Text, text_eq}
use termino.Prelude.Dict.{lookup}
use termino.Prelude.Strings.{Unicode}
use termino.Models.{AggregatedPrice, Codec}
use termino.Redis.{Rdb}
use termino.Streaming.{
  Channel, Endpoint, prices, alerts, StreamingServer, new, alerts_mark, wants_price, wants_alert,
  broadcast, broadcast_alert,
}
use termino.Streaming.Symbols.{parse_symbols}
use termino.Streaming.Delivery.{is_open}
use termino.Streaming.Handlers.{
  connect, connect_alerts, remove_client, stop, hang_up_handler, hang_up, write_frame, write_text,
  receive, deliver_on, deliver, receive_decoded, receive_price, Op, price, alert, opens,
  opens_alerts, delivers, hangs_up, step, run,
}
use termino.Streaming.Handlers.Sorted.{
  kind-parsed, Fits, IsSorted, wants_price-kind, wants_alert-kind, send_all-IsSorted,
  register-IsSorted, rebuffer, close-IsSorted,
}
use termino.Streaming.Handlers.Open.{IsSafe, buffer_of}
use termino.Streaming.Handlers.Safety.{handler_open, step-IsSafe}

module _ (P Q : Text → Type 0) where
  -- The texts that an operation brings.
  abbrev pub Brings : Op → Type 0
  Brings (price value) = P value
  Brings (alert value) = Q value
  Brings _ = Unit

  module _ {F R : Type 0} (u : Unicode) (codec : Codec (AggregatedPrice F)) (rdb : Rdb R) where
    hang_up-IsSorted :
        (ch : ℕ) (o : Option Endpoint) (s t : StreamingServer F R)
        → IsSorted P Q s
        → hang_up_handler u codec rdb ch o s ≡ some t
        → IsSorted P Q t
    unfolding hang_up_handler remove_client stop
    hang_up-IsSorted ch none s t h e = subst (IsSorted P Q) (some-injective _ _ e) h
    hang_up-IsSorted ch (some x) s t h e =
        close-IsSorted P Q u codec rdb ch (lookup ch s.channels) s t h e

    write_text-IsSorted :
        (ch : ℕ) (e : Endpoint) (text : Text) (s : StreamingServer F R)
        → IsSorted P Q s
        → IsSorted P Q (write_text u codec rdb ch e text s)
    unfolding write_text write_frame
    write_text-IsSorted ch prices text s h = record {
      fresh = h.fresh;
      kinds = h.kinds;
      fit = h.fit;
    }
    write_text-IsSorted ch alerts text s h = record {
      fresh = h.fresh;
      kinds = h.kinds;
      fit = h.fit;
    }

    receive-IsSorted :
        (ch : ℕ) (e : Endpoint) (c : Channel) (b : Bool) (buffer : List Text)
        (s : StreamingServer F R)
        → lookup ch s.channels ≡ some c
        → c.is_closed ≡ b
        → c.buffer ≡ buffer
        → is_open ch s.channels ≡ true
        → IsSorted P Q s
        → IsSorted P Q (receive u codec rdb ch e b buffer s)
    unfolding receive
    receive-IsSorted ch e c true buffer s l p q o h = ground (arith, l)
    receive-IsSorted ch e c false [] s l p q o h = h
    receive-IsSorted ch e c false (text ∷ rest) s l p q o h = write_text-IsSorted ch e text _ (
        rebuffer P Q u codec rdb ch (record { buffer = rest; is_closed = false }) s
          (λ f found.
            let all : All (Fits P Q f) (text ∷ rest) =
              subst (All (Fits P Q f)) q
                (subst (λ x. All (Fits P Q f) (buffer_of x)) l (h.fit ch f found)) in
            all.1)
          h)

    deliver-IsSorted :
        (ch : ℕ) (e : Option Endpoint) (c : Option Channel) (s : StreamingServer F R)
        → lookup ch s.handlers ≡ e
        → lookup ch s.channels ≡ c
        → IsSafe s
        → IsSorted P Q s
        → IsSorted P Q (deliver_on u codec rdb ch e c s)
    unfolding deliver_on
    deliver-IsSorted ch none c s p q safe h = h
    deliver-IsSorted ch (some e) none s p q safe h = h
    deliver-IsSorted ch (some e) (some c) s p q safe h =
        receive-IsSorted ch e c c.is_closed c.buffer s q refl refl
          (handler_open u codec rdb ch s.handlers s.channels e safe.handlers_open p) h

    receive_decoded-IsSorted :
        (value : Text) (o : Option (AggregatedPrice F)) (s t : StreamingServer F R)
        → P value
        → IsSafe s
        → IsSorted P Q s
        → receive_decoded u codec rdb value o s ≡ some t
        → IsSorted P Q t
    unfolding receive_decoded broadcast
    receive_decoded-IsSorted value none s t p safe h e =
        subst (IsSorted P Q) (some-injective _ _ e) h
    receive_decoded-IsSorted value (some found) s t p safe h e =
        send_all-IsSorted P Q (wants_price found.symbol) prices value _ t
          (wants_price-kind P Q found.symbol) p
          (record {
            distinct = safe.distinct;
            clients_open = safe.clients_open;
            handlers_open = safe.handlers_open;
            bounded = safe.bounded;
          })
          (record { fresh = h.fresh; kinds = h.kinds; fit = h.fit }) e

    step-IsSorted :
        (o : Op) (s t : StreamingServer F R)
        → Brings o
        → IsSafe s
        → IsSorted P Q s
        → step u codec rdb o s ≡ some t
        → IsSorted P Q t
    unfolding step receive_price broadcast_alert connect connect_alerts deliver hang_up
    step-IsSorted (price value) s t b safe h e =
        receive_decoded-IsSorted value (codec.unmarshal value) s t b safe h e
    step-IsSorted (alert value) s t b safe h e =
        send_all-IsSorted P Q wants_alert alerts value s t (wants_alert-kind P Q) b safe h e
    step-IsSorted (opens false query) s t b safe h e = subst (IsSorted P Q) (some-injective _ _ e) h
    step-IsSorted (opens true query) s t b safe h e =
        subst (IsSorted P Q) (some-injective _ _ e)
          (register-IsSorted P Q u codec rdb prices _ _ s (kind-parsed u (parse_symbols u query)) h)
    step-IsSorted (opens_alerts false) s t b safe h e =
        subst (IsSorted P Q) (some-injective _ _ e) h
    step-IsSorted (opens_alerts true) s t b safe h e =
        subst (IsSorted P Q) (some-injective _ _ e)
          (register-IsSorted P Q u codec rdb alerts _ _ s (rw (beq_self alerts_mark)) h)
    step-IsSorted (delivers ch) s t b safe h e =
        subst (IsSorted P Q) (some-injective _ _ e)
          (deliver-IsSorted ch (lookup ch s.handlers) (lookup ch s.channels) s refl refl safe h)
    step-IsSorted (hangs_up ch) s t b safe h e = hang_up-IsSorted ch (lookup ch s.handlers) s t h e

    run-IsSorted :
        (os : List Op) (s t : StreamingServer F R)
        → All Brings os
        → IsSafe s
        → IsSorted P Q s
        → run u codec rdb os s ≡ some t
        → IsSorted P Q t
    unfolding run
    run-IsSorted [] s t b safe h e = subst (IsSorted P Q) (some-injective _ _ e) h
    run-IsSorted (o ∷ os) s t b safe h e =
        let (v, stepped, vsafe) = step-IsSafe u codec rdb o s safe in
        run-IsSorted os v t b.1 vsafe (step-IsSorted o s v b.0 safe h stepped)
          (rw (stepped, run) at e)

    -- Where every price that arrives satisfies `P` and every alert `Q`, after any sequence of
    -- operations from a new server each text that waits for a handler of price streams satisfies
    -- `P`, and each that waits for a handler of alert streams satisfies `Q`, whatever symbols the
    -- clients asked for.
    pub run_isolated :
        (os : List Op) (redis : Option R) (ttl : ℤ) (t : StreamingServer F R)
        → All Brings os
        → run u codec rdb os (new redis ttl) ≡ some t
        → (ch : ℕ) (e : Endpoint) → lookup ch t.handlers ≡ some e
        → All (Fits P Q e) (buffer_of (lookup ch t.channels))
    run_isolated os redis ttl t b e =
        (run-IsSorted os (new redis ttl) t b
          (record {
            distinct = tt;
            clients_open = tt;
            handlers_open = tt;
            bounded = λ k. omega arith;
          })
          (record { fresh = tt; kinds = tt; fit = λ ch f l. tt }) e).fit
