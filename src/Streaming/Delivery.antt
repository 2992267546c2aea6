-- ===== src/Streaming/Delivery.antt =====
-- Whom a broadcast of services/streaming-api/main.go reaches.
pub mod Unordered
use termino.Prelude.{
  ℕ, ◌≡◌, refl, ap, subst, ◌∙◌, Bool, true, false, not, List, [], ◌∷◌, ◌++◌, Option, none, some,
  length, ltb, if◌then◌else◌, ◌==◌, nat_eq, nat_beq_iff, arith, All, All-map, Bool-cases, inl, inr,
}
use termino.Prelude.Text.{Text}
use termino.Prelude.Dict.{lookup, insert, lookup-insert, member, keys, IsDistinct}
use termino.Streaming.{Channel, capacity, send, send_on, send_all}

abbrev pub is_live : Option Channel → Bool
is_live none = false
is_live (some c) = not c.is_closed

-- The channel exists and is not closed.
abbrev pub is_open : ℕ → List (ℕ × Channel) → Bool
is_open ch channels = is_live (lookup ch channels)

-- The channel after a text was offered to it: dropped if the buffer is full.
abbrev pub offered : Text → Channel → Channel
offered text c =
    if ltb (length c.buffer) capacity then record c { buffer = c.buffer ++ text ∷ [] } else c

abbrev pub offer : Bool → Text → Option Channel → Option Channel
offer false text o = o
offer true text none = none
offer true text (some c) = some (offered text c)

abbrev flag_of : (List (Text × Bool) → Bool) → Option (List (Text × Bool)) → Bool
flag_of wants none = false
flag_of wants (some syms) = wants syms

-- Whether the client of a channel wants the text.
abbrev pub is_target : (List (Text × Bool) → Bool) → ℕ → List (ℕ × List (Text × Bool)) → Bool
is_target wants ch clients = flag_of wants (lookup ch clients)

-- The channels after a text was offered to some of them.
pub record IsOffered (text : Text) (to : ℕ → Bool) (before after : List (ℕ × Channel))
    : Type 0 where
  pub each : (k : ℕ) → lookup k after ≡ offer (to k) text (lookup k before)

send_on_lem :
    (ch : ℕ) (text : Text) (channels : List (ℕ × Channel)) (o : Option Channel)
    → lookup ch channels ≡ o
    → is_live o ≡ true
    → (after : List (ℕ × Channel)) × (send_on ch text channels o ≡ some after)
      × IsOffered text (λ k. ch == k) channels after
unfolding send_on
send_on_lem ch text channels none e h = cc
send_on_lem ch text channels (some c) e h = elim (Bool-cases (ltb (length c.buffer) capacity)) [
  | inl room ↦ (
    insert ch (record c { buffer = c.buffer ++ text ∷ [] }) channels,
    ground arith,
    record {
      each = λ k.
          lookup-insert ch k _ channels
          ∙ ground (arith, nat_beq_iff ch k, ap (λ (i : ℕ). lookup i channels) {x = ch} {y = k});
    },
  )
  | inr full ↦ (
    channels,
    ground arith,
    record {
      each =
          λ k. ground (arith, nat_beq_iff ch k, ap (λ (i : ℕ). lookup i channels) {x = ch} {y = k});
    },
  )
]

not_member-is_target :
    (wants : List (Text × Bool) → Bool) (k : ℕ) (clients : List (ℕ × List (Text × Bool)))
    → member k (keys clients) ≡ false
    → is_target wants k clients ≡ false
not_member-is_target wants k [] h = refl
not_member-is_target wants k ((ch, syms) ∷ cs) h = ground (arith, not_member-is_target wants k cs)

is_live-offer : (b : Bool) (text : Text) (o : Option Channel) → is_live (offer b text o) ≡ is_live o
is_live-offer b text o = ground arith

pub IsOffered-is_open :
    {text : Text} {to : ℕ → Bool} {before after : List (ℕ × Channel)}
    → IsOffered text to before after
    → (k : ℕ) → is_open k after ≡ is_open k before
IsOffered-is_open {text} {to} {before} o k =
    ap is_live (o.each k) ∙ is_live-offer (to k) text (lookup k before)

-- The target of the head of the list is no target of the rest.
offer-offer :
    (wants : List (Text × Bool) → Bool) (text : Text) (ch k : ℕ) (syms : List (Text × Bool))
    (cs : List (ℕ × List (Text × Bool))) (o : Option Channel)
    → member ch (keys cs) ≡ false
    → offer (is_target wants k cs) text (offer (if wants syms then ch == k else false) text o)
      ≡ offer (is_target wants k ((ch, syms) ∷ cs)) text o
offer-offer wants text ch k syms cs o h = elim (Bool-cases (ch == k)) [
  | inl e ↦
      let none_left : is_target wants k cs ≡ false =
        subst (λ i. is_target wants i cs ≡ false) ((nat_beq_iff ch k).0 e)
          (not_member-is_target wants ch cs h) in
      rw none_left (rw e (ground arith))
  | inr e ↦ rw e (ground arith)
]

offer_head :
    (wants : List (Text × Bool) → Bool) (text : Text) (ch : ℕ) (syms : List (Text × Bool))
    (channels : List (ℕ × Channel))
    → is_open ch channels ≡ true
    → (mid : List (ℕ × Channel)) × ((if wants syms then send ch text channels else some channels)
        ≡ some mid)
      × IsOffered text (λ k. if wants syms then ch == k else false) channels mid
unfolding send
offer_head wants text ch syms channels h = elim (Bool-cases (wants syms)) [
  | inl e ↦ rw e (send_on_lem ch text channels (lookup ch channels) refl h)
  | inr e ↦ rw e (channels, refl, record { each = λ k. refl })
]

send_all_step :
    (wants : List (Text × Bool) → Bool) (text : Text) (ch : ℕ) (syms : List (Text × Bool))
    (cs : List (ℕ × List (Text × Bool))) (channels mid : List (ℕ × Channel))
    → (if wants syms then send ch text channels else some channels) ≡ some mid
    → send_all wants text ((ch, syms) ∷ cs) channels ≡ send_all wants text cs mid
unfolding send_all
send_all_step wants text ch syms cs channels mid e = rw (e, send_all)

-- With distinct clients whose channels are open, a broadcast does not panic, and offers the text to
-- the channels of exactly those clients that want it; all other channels are as before.
pub send_all_lem :
    (wants : List (Text × Bool) → Bool) (text : Text) (clients : List (ℕ × List (Text × Bool)))
    (channels : List (ℕ × Channel))
    → IsDistinct (keys clients)
    → All (λ x. is_open x.0 channels ≡ true) clients
    → (after : List (ℕ × Channel)) × (send_all wants text clients channels ≡ some after)
      × IsOffered text (λ k. is_target wants k clients) channels after
unfolding send_all
send_all_lem wants text [] channels d h = (channels, refl, record { each = λ k. refl })
send_all_lem wants text ((ch, syms) ∷ cs) channels d h =
    let (mid, sent, first) = offer_head wants text ch syms channels h.0 in
    let still : All (λ x. is_open x.0 mid ≡ true) cs =
      All-map (λ x k. IsOffered-is_open first x.0 ∙ k) cs h.1 in
    let (after, rest_sent, rest) = send_all_lem wants text cs mid d.1 still in
    (
      after,
      send_all_step wants text ch syms cs channels mid sent ∙ rest_sent,
      record {
        each = λ k.
            rest.each k
            ∙ ap (offer (is_target wants k cs) text) (first.each k)
            ∙ offer-offer wants text ch k syms cs (lookup k channels) d.0;
      },
    )
