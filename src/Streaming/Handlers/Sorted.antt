-- ===== src/Streaming/Handlers/Sorted.antt =====
-- The prices and the alerts that wait in the channels of services/streaming-api/main.go.
use mathlib.Core.Option.{some-injective}
use termino.Prelude.{
  ℕ, ◌≡◌, refl, sym, ap, subst, ◌∙◌, Bool, true, false, List, [], ◌∷◌, Option, none, some, length,
  ltb, if◌then◌else◌, ◌==◌, nat_eq, nat_beq_iff, arith, All, All-map2, All-append, Bool-cases, inl,
  inr,
}
use termino.Prelude.Text.{Text, text_eq}
use termino.Prelude.Dict.{lookup, insert, lookup-insert, All-insert, All-delete}
use termino.Prelude.Entries.{
  other_kept, lookup-insert_self, same_inserted, other_not_deleted, kept_after_delete,
  not_below_self, flipped,
}
use termino.Prelude.Strings.{Unicode}
use termino.Models.{AggregatedPrice, Codec}
use termino.Redis.{Rdb}
use termino.Streaming.{
  Channel, Endpoint, prices, alerts, StreamingServer, capacity, alerts_mark, has_symbol,
  wants_price, wants_alert, send_all, with_channels,
}
use termino.Streaming.Symbols.{symbol_map, symbol_map_misses}
use termino.Streaming.Delivery.{offer, is_target, send_all_lem}
use termino.Streaming.Handlers.{register, close_channel, stop}
use termino.Streaming.Handlers.Open.{IsSafe, buffer_of}

-- What a client's symbol map makes of it.
abbrev pub kind : List (Text × Bool) → Endpoint
kind syms = if has_symbol alerts_mark syms then alerts else prices

pub kind-parsed : (u : Unicode) (ts : List Text) → kind (symbol_map u ts) ≡ prices
kind-parsed u ts = rw (symbol_map_misses u ts alerts_mark refl)

-- `P` holds of the texts of prices, `Q` of those of alerts.
module _ (P Q : Text → Type 0) where
  abbrev pub Fits : Endpoint → Text → Type 0
  Fits prices = P
  Fits alerts = Q

  pub record IsSorted {F R : Type 0} (s : StreamingServer F R) : Type 0 where
    pub fresh : All (λ x. ltb x.0 s.next_channel ≡ true) s.clients
    pub kinds : All (λ x. lookup x.0 s.handlers ≡ some (kind x.1)) s.clients
    pub fit :
        (ch : ℕ) (e : Endpoint)
        → lookup ch s.handlers ≡ some e
        → All (Fits e) (buffer_of (lookup ch s.channels))

  target_kind :
      (wants : List (Text × Bool) → Bool) (ch : ℕ) (clients : List (ℕ × List (Text × Bool)))
      (hs : List (ℕ × Endpoint))
      → All (λ x. lookup x.0 hs ≡ some (kind x.1)) clients
      → is_target wants ch clients ≡ true
      → (syms : List (Text × Bool)) × (wants syms ≡ true) × (lookup ch hs ≡ some (kind syms))
  target_kind wants ch [] hs h t = cc
  target_kind wants ch ((j, syms) ∷ cs) hs h t = elim (Bool-cases (j == ch)) [
    | inl e ↦
        (syms, rw e at t, subst (λ i. lookup i hs ≡ some (kind syms)) ((nat_beq_iff j ch).0 e) h.0)
    | inr e ↦ target_kind wants ch cs hs h.1 (rw e at t)
  ]

  offered-Fits :
      (e : Endpoint) (b : Bool) (text : Text) (o : Option Channel)
      → (b ≡ true → Fits e text)
      → All (Fits e) (buffer_of o)
      → All (Fits e) (buffer_of (offer b text o))
  offered-Fits e false text o f h = h
  offered-Fits e true text none f h = h
  offered-Fits e true text (some c) f h = elim (Bool-cases (ltb (length c.buffer) capacity)) [
    | inl r ↦ rw r (All-append (Fits e) c.buffer (text ∷ []) h (f refl, tt))
    | inr r ↦ rw r h
  ]

  pub wants_price-kind :
      (symbol : Text) (syms : List (Text × Bool))
      → wants_price symbol syms ≡ true
      → kind syms ≡ prices
  wants_price-kind symbol syms h = ground arith

  pub wants_alert-kind : (syms : List (Text × Bool)) → wants_alert syms ≡ true → kind syms ≡ alerts
  wants_alert-kind syms h = ground arith

  module _ {F R : Type 0} where
    pub send_all-IsSorted :
        (wants : List (Text × Bool) → Bool) (k : Endpoint) (text : Text) (s t : StreamingServer F R)
        → ((syms : List (Text × Bool)) → wants syms ≡ true → kind syms ≡ k)
        → Fits k text
        → IsSafe s
        → IsSorted s
        → with_channels s (send_all wants text s.clients s.channels) ≡ some t
        → IsSorted t
    unfolding with_channels
    send_all-IsSorted wants k text s t only f safe h e =
        let (after, sent, o) =
          send_all_lem wants text s.clients s.channels safe.distinct safe.clients_open in
        subst IsSorted (some-injective _ _ (sym (ap (with_channels s) sent) ∙ e)) (record {
          fresh = h.fresh;
          kinds = h.kinds;
          fit = λ ch e' l. rw (o.each ch) (
              offered-Fits e' (is_target wants ch s.clients) text (lookup ch s.channels)
                (λ hit.
                  let (syms, w, found) = target_kind wants ch s.clients s.handlers h.kinds hit in
                  subst (λ x. Fits x text)
                    (some-injective _ _ (sym (ap some (only syms w)) ∙ sym found ∙ l)) f)
                (h.fit ch e' l));
        })

  module _ {F R : Type 0} (u : Unicode) (codec : Codec (AggregatedPrice F)) (rdb : Rdb R) where
    pub register-IsSorted :
        (e : Endpoint) (syms : List (Text × Bool)) (frames : List Text) (s : StreamingServer F R)
        → kind syms ≡ e
        → IsSorted s
        → IsSorted (register u codec rdb e syms frames s)
    unfolding register
    register-IsSorted e syms frames s k h =
        let ch : ℕ = s.next_channel in
        let c : Channel = record { buffer = []; is_closed = false } in
        record {
          fresh =
              All-insert {P = λ x. ltb x.0 ch ≡ true} ch syms s.clients (ground arith)
                (λ x l. ground arith) h.fresh;
          kinds =
              All-insert {P = λ x. (ltb x.0 ch ≡ true) × (lookup x.0 s.handlers ≡ some (kind x.1))}
                ch syms s.clients (lookup-insert_self ch e s.handlers ∙ ap some (sym k))
                (λ x l. other_kept ch x.0 e _ s.handlers (not_below_self x.0 ch l.0) l.1)
                (All-map2 (λ x a b. (a, b)) s.clients h.fresh h.kinds);
          fit = λ j f l. elim (Bool-cases (ch == j)) [
            | inl same ↦
                subst (λ o. All (Fits f) (buffer_of o)) (sym (same_inserted ch j c s.channels same))
                  tt
            | inr other ↦
                subst (λ o. All (Fits f) (buffer_of o))
                  (sym (other_kept ch j c _ s.channels other refl))
                  (h.fit j f (rw other at (sym (lookup-insert ch j e s.handlers) ∙ l)))
          ];
        }

    -- A channel is changed to one whose buffer holds only texts that were there.
    pub rebuffer :
        (ch : ℕ) (c : Channel) (s : StreamingServer F R)
        → ((e : Endpoint) → lookup ch s.handlers ≡ some e → All (Fits e) c.buffer)
        → IsSorted s
        → IsSorted (record s { channels = insert ch c s.channels })
    rebuffer ch c s b h = record {
      fresh = h.fresh;
      kinds = h.kinds;
      fit = λ j f l. elim (Bool-cases (ch == j)) [
        | inl same ↦
            subst (λ o. All (Fits f) (buffer_of o)) (sym (same_inserted ch j c s.channels same))
              (b f (subst (λ i. lookup i s.handlers ≡ some f) (sym ((nat_beq_iff ch j).0 same)) l))
        | inr other ↦
            subst (λ o. All (Fits f) (buffer_of o))
              (sym (other_kept ch j c _ s.channels other refl)) (h.fit j f l)
      ];
    }

    pub close-IsSorted :
        (ch : ℕ) (o : Option Channel) (s t : StreamingServer F R)
        → IsSorted s
        → close_channel u codec rdb ch o (stop u codec rdb ch s) ≡ some t
        → IsSorted t
    unfolding close_channel stop
    close-IsSorted ch none s t h e = cc
    close-IsSorted ch (some c) s t h e = elim (Bool-cases c.is_closed) [
      | inl shut ↦ absurd (none_not_some (rw shut at e))
      | inr up ↦ subst IsSorted (some-injective _ _ (rw up at e)) (record {
        fresh = All-delete ch s.clients (λ x n l. l) h.fresh;
        kinds =
            All-delete ch s.clients
              (λ x n l. other_not_deleted ch x.0 _ s.handlers (flipped x.0 ch n) l) h.kinds;
        fit = λ j f l.
            let (other, old) = kept_after_delete ch j f s.handlers l in
            subst (λ o. All (Fits f) (buffer_of o))
              (sym (other_kept ch j (record c { is_closed = true }) _ s.channels other refl))
              (h.fit j f old);
      })
    ]
      where
        none_not_some : ◌≡◌ {A = Option (StreamingServer F R)} none (some t) → ⊥
        none_not_some e = cc
