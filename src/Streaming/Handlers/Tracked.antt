-- ===== src/Streaming/Handlers/Tracked.antt =====
-- The clients, the running handlers and the gauge of services/streaming-api/main.go agree.
pub mod Streams
pub mod Lasting
use mathlib.Core.Option.{some-injective}
use termino.Prelude.{
  ℕ, suc, ◌+◌, ◌-◌, ◌≡◌, refl, sym, ap, subst, ◌∙◌, Bool, true, false, List, [], ◌∷◌, ◌++◌, Option,
  none, some, length, ltb, if◌then◌else◌, ◌==◌, nat_eq, arith, All, All-map, Bool-cases, inl, inr,
}
use termino.Prelude.Int.{ℤ, pos, ◌+ℤ◌, ◌-ℤ◌}
use termino.Prelude.Text.{Text, text_eq}
use termino.Prelude.Dict.{
  lookup, insert, delete, keys, member, IsDistinct, insert-IsDistinct, delete-IsDistinct,
  All-insert, All-delete,
}
use termino.Prelude.Keys.{
  remove, keys-insert, length-insert, keys-delete, length-delete, not_member-above,
}
use termino.Prelude.Strings.{Unicode}
use termino.Models.{AggregatedPrice, Codec}
use termino.Redis.{Rdb}
use termino.Streaming.{
  Channel, Endpoint, prices, alerts, StreamingServer, with_channels, broadcast, broadcast_alert,
}
use termino.Streaming.Delivery.{is_live}
use termino.Streaming.Handlers.{
  register, close_channel, stop, write_frame, write_text, receive, deliver_on, deliver,
  receive_decoded, receive_price,
}
use termino.Streaming.Handlers.Open.{IsSafe}
use termino.Streaming.Handlers.Safety.{handler_open}

pub counted_up : (a : ℤ) (n : ℕ) → a ≡ pos n → a +ℤ pos 1 ≡ pos (suc n)
unfolding ◌+ℤ◌
counted_up a n h = ground arith

pub counted_down : (a : ℤ) (n : ℕ) → a ≡ pos (suc n) → a -ℤ pos 1 ≡ pos n
unfolding ◌-ℤ◌
counted_down a n h = ground arith

still_open :
    (c : Channel) (o : Option Channel) → o ≡ some c → is_live o ≡ true → c.is_closed ≡ false
still_open c none e h = cc
still_open c (some d) e h = ground arith

module _ {F R : Type 0} where
  -- Every running handler has one client and counts once.
  pub record IsTracked (s : StreamingServer F R) : Type 0 where
    pub distinct : IsDistinct (keys s.handlers)
    pub fresh : All (λ x. ltb x.0 s.next_channel ≡ true) s.handlers
    pub registered : keys s.clients ≡ keys s.handlers
    pub gauge : s.active_clients ≡ pos (length s.handlers)

  -- What the texts do not change.
  pub record AreSame (s t : StreamingServer F R) : Type 0 where
    pub clients : t.clients ≡ s.clients
    pub handlers : t.handlers ≡ s.handlers
    pub next_channel : t.next_channel ≡ s.next_channel
    pub gauge : t.active_clients ≡ s.active_clients

  pub AreSame-refl : (s : StreamingServer F R) → AreSame s s
  AreSame-refl s = record { clients = refl; handlers = refl; next_channel = refl; gauge = refl }

  pub AreSame-IsTracked : {s t : StreamingServer F R} → AreSame s t → IsTracked s → IsTracked t
  AreSame-IsTracked {s} {t} e h = record {
    distinct = subst (λ m. IsDistinct (keys m)) (sym e.handlers) h.distinct;
    fresh =
        subst (λ n. All (λ x. ltb x.0 n ≡ true) t.handlers) (sym e.next_channel)
          (subst (All (λ x. ltb x.0 s.next_channel ≡ true)) (sym e.handlers) h.fresh);
    registered = ap keys e.clients ∙ h.registered ∙ sym (ap keys e.handlers);
    gauge = e.gauge ∙ h.gauge ∙ sym (ap (λ m. pos (length m)) e.handlers);
  }

  pub with_channels-AreSame :
      (s t : StreamingServer F R) (o : Option (List (ℕ × Channel)))
      → with_channels s o ≡ some t
      → AreSame s t
  unfolding with_channels
  with_channels-AreSame s t none e = cc
  with_channels-AreSame s t (some channels) e =
      subst (AreSame s) (some-injective _ _ e)
        (record { clients = refl; handlers = refl; next_channel = refl; gauge = refl })

  stored-AreSame :
      (latest : List (Text × AggregatedPrice F)) (redis : Option R) (s t : StreamingServer F R)
      (o : Option (List (ℕ × Channel)))
      → with_channels (record s { latest = latest; redis = redis }) o ≡ some t
      → AreSame s t
  unfolding with_channels
  stored-AreSame latest redis s t none e = cc
  stored-AreSame latest redis s t (some channels) e =
      subst (AreSame s) (some-injective _ _ e)
        (record { clients = refl; handlers = refl; next_channel = refl; gauge = refl })

module _ {F R : Type 0} (u : Unicode) (codec : Codec (AggregatedPrice F)) (rdb : Rdb R) where
  pub register-IsTracked :
      (e : Endpoint) (syms : List (Text × Bool)) (frames : List Text) (s : StreamingServer F R)
      → IsTracked s
      → IsTracked (register u codec rdb e syms frames s)
        × (length (register u codec rdb e syms frames s).handlers ≡ suc (length s.handlers))
  unfolding register
  register-IsTracked e syms frames s h =
      let ch : ℕ = s.next_channel in
      let new_handler : member ch (keys s.handlers) ≡ false =
        not_member-above ch s.handlers h.fresh in
      let new_client : member ch (keys s.clients) ≡ false =
        subst (λ ks. member ch ks ≡ false) (sym h.registered) new_handler in
      let more = length-insert ch e s.handlers new_handler in
      (
        record {
          distinct = insert-IsDistinct ch e s.handlers h.distinct;
          fresh =
              All-insert {P = λ x. ltb x.0 ch ≡ true} ch e s.handlers (ground arith)
                (λ x l. ground arith) h.fresh;
          registered =
              keys-insert ch syms s.clients new_client
              ∙ ap (λ ks. ks ++ ch ∷ []) h.registered
              ∙ sym (keys-insert ch e s.handlers new_handler);
          gauge = counted_up s.active_clients _ h.gauge ∙ ap pos (sym more);
        },
        more,
      )

  pub close-IsTracked :
      (ch : ℕ) (e : Endpoint) (o : Option Channel) (s t : StreamingServer F R)
      → lookup ch s.handlers ≡ some e
      → IsTracked s
      → close_channel u codec rdb ch o (stop u codec rdb ch s) ≡ some t
      → IsTracked t × (length s.handlers ≡ suc (length t.handlers))
  unfolding close_channel stop
  close-IsTracked ch e none s t l h q = cc
  close-IsTracked ch e (some c) s t l h q = elim (Bool-cases c.is_closed) [
    | inl shut ↦ absurd (none_not_some (rw shut at q))
    | inr up ↦
        let fewer = length-delete ch e s.handlers h.distinct l in
        subst (λ v. IsTracked v × (length s.handlers ≡ suc (length v.handlers)))
          (some-injective _ _ (rw up at q))
          (
            record {
              distinct = delete-IsDistinct ch s.handlers h.distinct;
              fresh = All-delete ch s.handlers (λ x n k. k) h.fresh;
              registered =
                  keys-delete ch s.clients
                  ∙ ap (remove ch) h.registered
                  ∙ sym (keys-delete ch s.handlers);
              gauge = counted_down s.active_clients _ (h.gauge ∙ ap pos fewer);
            },
            fewer,
          )
  ]
    where
      none_not_some : ◌≡◌ {A = Option (StreamingServer F R)} none (some t) → ⊥
      none_not_some e = cc

  -- A handler goes on as long as its channel is open.
  receive-AreSame :
      (ch : ℕ) (e : Endpoint) (b : Bool) (buffer : List Text) (s : StreamingServer F R)
      → b ≡ false
      → AreSame s (receive u codec rdb ch e b buffer s)
  unfolding receive write_text write_frame
  receive-AreSame ch e true buffer s h = cc
  receive-AreSame ch e false [] s h = AreSame-refl s
  receive-AreSame ch prices false (text ∷ rest) s h = record {
    clients = refl;
    handlers = refl;
    next_channel = refl;
    gauge = refl;
  }
  receive-AreSame ch alerts false (text ∷ rest) s h = record {
    clients = refl;
    handlers = refl;
    next_channel = refl;
    gauge = refl;
  }

  deliver_on-AreSame :
      (ch : ℕ) (e : Option Endpoint) (c : Option Channel) (s : StreamingServer F R)
      → lookup ch s.handlers ≡ e
      → lookup ch s.channels ≡ c
      → IsSafe s
      → AreSame s (deliver_on u codec rdb ch e c s)
  unfolding deliver_on
  deliver_on-AreSame ch none c s p q h = AreSame-refl s
  deliver_on-AreSame ch (some e) none s p q h = AreSame-refl s
  deliver_on-AreSame ch (some e) (some c) s p q h = receive-AreSame ch e c.is_closed c.buffer s (
      still_open c (lookup ch s.channels) q
        (handler_open u codec rdb ch s.handlers s.channels e h.handlers_open p))

  pub deliver-AreSame :
      (ch : ℕ) (s : StreamingServer F R) → IsSafe s → AreSame s (deliver u codec rdb ch s)
  unfolding deliver
  deliver-AreSame ch s h =
      deliver_on-AreSame ch (lookup ch s.handlers) (lookup ch s.channels) s refl refl h

  receive_decoded-AreSame :
      (value : Text) (o : Option (AggregatedPrice F)) (s t : StreamingServer F R)
      → receive_decoded u codec rdb value o s ≡ some t
      → AreSame s t
  unfolding receive_decoded broadcast
  receive_decoded-AreSame value none s t e =
      subst (AreSame s) (some-injective _ _ e) (AreSame-refl s)
  receive_decoded-AreSame value (some p) s t e = stored-AreSame _ _ s t _ e

  -- Both consumers.
  pub receive_price-AreSame :
      (value : Text) (s t : StreamingServer F R)
      → receive_price u codec rdb value s ≡ some t
      → AreSame s t
  unfolding receive_price
  receive_price-AreSame value s t e = receive_decoded-AreSame value (codec.unmarshal value) s t e

pub broadcast_alert-AreSame :
    {F R : Type 0} (value : Text) (s t : StreamingServer F R)
    → broadcast_alert value s ≡ some t
    → AreSame s t
unfolding broadcast_alert
broadcast_alert-AreSame value s t e = with_channels-AreSame s t _ e
