-- ===== src/Streaming/Handlers/Open.antt =====
-- When the channels of services/streaming-api/main.go are safe to use, and changes that keep them so.
use termino.Prelude.{
  ℕ, ◌≤◌, ◌≡◌, ◌∙◌, Bool, true, false, List, [], ◌∷◌, Option, none, some, length, length-append,
  ltb, ◌==◌, nat_eq, nat_beq_iff, arith, All, All-map, Bool-cases, inl, inr,
}
use termino.Prelude.Text.{Text, text_eq}
use termino.Prelude.Dict.{lookup, insert, lookup-insert, keys, IsDistinct}
use termino.Streaming.{Channel, StreamingServer, capacity, send_all, with_channels}
use termino.Streaming.Delivery.{is_open, offer, IsOffered-is_open, send_all_lem}

abbrev pub buffer_of : Option Channel → List Text
buffer_of none = []
buffer_of (some c) = c.buffer

pub record IsSafe {F R : Type 0} (s : StreamingServer F R) : Type 0 where
  pub distinct : IsDistinct (keys s.clients)
  pub clients_open : All (λ x. is_open x.0 s.channels ≡ true) s.clients
  pub handlers_open : All (λ x. is_open x.0 s.channels ≡ true) s.handlers
  pub bounded : (k : ℕ) → length (buffer_of (lookup k s.channels)) ≤ capacity

pub offer-bounded :
    (b : Bool) (text : Text) (o : Option Channel)
    → length (buffer_of o) ≤ capacity
    → length (buffer_of (offer b text o)) ≤ capacity
offer-bounded false text o h = h
offer-bounded true text none h = h
offer-bounded true text (some c) h = elim (Bool-cases (ltb (length c.buffer) capacity)) [
  | inl e ↦ rw e (ground (arith, length-append c.buffer (text ∷ [])))
  | inr e ↦ rw e h
]

pub open_after_insert :
    (ch k : ℕ) (c : Channel) (channels : List (ℕ × Channel))
    → c.is_closed ≡ false
    → is_open k channels ≡ true
    → is_open k (insert ch c channels) ≡ true
open_after_insert ch k c channels h o = ground (arith, lookup-insert ch k c channels)

pub open_inserted :
    (ch : ℕ) (c : Channel) (channels : List (ℕ × Channel))
    → c.is_closed ≡ false
    → is_open ch (insert ch c channels) ≡ true
open_inserted ch c channels h = ground (arith, lookup-insert ch ch c channels, nat_beq_iff ch ch)

pub open_of_others :
    (ch k : ℕ) (c : Channel) (channels : List (ℕ × Channel))
    → (k == ch) ≡ false
    → is_open k channels ≡ true
    → is_open k (insert ch c channels) ≡ true
open_of_others ch k c channels h o =
    ground (arith, lookup-insert ch k c channels, nat_beq_iff ch k, nat_beq_iff k ch)

pub bounded_after_insert :
    (ch k : ℕ) (c : Channel) (channels : List (ℕ × Channel))
    → length c.buffer ≤ capacity
    → length (buffer_of (lookup k channels)) ≤ capacity
    → length (buffer_of (lookup k (insert ch c channels))) ≤ capacity
bounded_after_insert ch k c channels h b = ground (arith, lookup-insert ch k c channels)

module _ {F R : Type 0} where
  -- A change of the channels that closes none and keeps the buffers within bounds.
  pub recharge :
      (s : StreamingServer F R) (channels : List (ℕ × Channel))
      → IsSafe s
      → ((k : ℕ) → is_open k s.channels ≡ true → is_open k channels ≡ true)
      → ((k : ℕ) → length (buffer_of (lookup k channels)) ≤ capacity)
      → IsSafe (record s { channels = channels })
  recharge s channels h f b = record {
    distinct = h.distinct;
    clients_open = All-map (λ x k. f x.0 k) s.clients h.clients_open;
    handlers_open = All-map (λ x k. f x.0 k) s.handlers h.handlers_open;
    bounded = b;
  }

  -- Both broadcasts.
  pub send_all-IsSafe :
      (wants : List (Text × Bool) → Bool) (text : Text) (s : StreamingServer F R)
      → IsSafe s
      → (t : StreamingServer F R) × (with_channels s (send_all wants text s.clients s.channels)
          ≡ some t)
        × IsSafe t
  unfolding with_channels
  send_all-IsSafe wants text s h =
      let (after, sent, o) =
        send_all_lem wants text s.clients s.channels h.distinct h.clients_open in
      (
        record s { channels = after },
        rw (sent, with_channels),
        recharge s after h (λ k e. IsOffered-is_open o k ∙ e)
            (λ k. rw (o.each k) (offer-bounded _ text (lookup k s.channels) (h.bounded k))),
      )
