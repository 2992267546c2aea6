-- ===== src/Streaming/Delivery/Unordered.antt =====
-- The order in which services/streaming-api/main.go goes through the map of its clients.
use mathlib.Core.Quot
use termino.Prelude.{ℕ, ◌≡◌, sym, ap, ◌∙◌, Bool, true, List, Option, some, nat_eq, All}
use termino.Prelude.Text.{Text}
use termino.Prelude.Dict.{lookup, keys, IsDistinct}
use termino.Prelude.GoMap.{SameEntries, GoMap, go_map, go_map-exact}
use termino.Streaming.{Channel, send_all}
use termino.Streaming.Delivery.{is_open, flag_of, offer, is_target, send_all_lem}

Channel_set : IsSet (Option Channel)
Channel_set = hlevel

Clients_set : IsSet (Option (List (Text × Bool)))
Clients_set = hlevel

-- The clients and the channels as a server keeps them: distinct, and open.
pub record IsReady (clients : List (ℕ × List (Text × Bool))) (channels : List (ℕ × Channel))
    : Type 0 where
  pub distinct : IsDistinct (keys clients)
  pub clients_open : All (λ x. is_open x.0 channels ≡ true) clients

offers-SameEntries :
    (wants : List (Text × Bool) → Bool) (text : Text)
    (clients clients' : List (ℕ × List (Text × Bool))) (channels channels' : List (ℕ × Channel))
    → SameEntries clients clients'
    → SameEntries channels channels'
    → (k : ℕ)
    → offer (is_target wants k clients) text (lookup k channels)
      ≡ offer (is_target wants k clients') text (lookup k channels')
offers-SameEntries wants text clients clients' channels channels' same same_channels k =
    ap (λ o. offer (flag_of wants o) text (lookup k channels)) (same k)
    ∙ ap (offer (is_target wants k clients') text) (same_channels k)

-- Go iterates over a map in any order. Two lists of distinct clients that are equal as maps, over
-- open channels that are equal as maps, are broadcast to without a panic in both orders, and leave
-- the channels equal as maps: each has the same texts in the same order, whichever client was first.
pub send_all-unordered :
    (wants : List (Text × Bool) → Bool) (text : Text)
    (clients clients' : List (ℕ × List (Text × Bool))) (channels channels' : List (ℕ × Channel))
    → IsReady clients channels
    → IsReady clients' channels'
    → ◌≡◌ {A = GoMap ℕ (List (Text × Bool))} (go_map clients) (go_map clients')
    → ◌≡◌ {A = GoMap ℕ Channel} (go_map channels) (go_map channels')
    → (after after' : List (ℕ × Channel)) × (send_all wants text clients channels ≡ some after)
      × (send_all wants text clients' channels' ≡ some after')
      × ◌≡◌ {A = GoMap ℕ Channel} (go_map after) (go_map after')
send_all-unordered wants text clients clients' channels channels' ready ready' same same_channels =
    let (after, sent, offered) =
      send_all_lem wants text clients channels ready.distinct ready.clients_open in
    let (after', sent', offered') =
      send_all_lem wants text clients' channels' ready'.distinct ready'.clients_open in
    let agree =
      offers-SameEntries wants text clients clients' channels channels'
        (go_map-exact Clients_set clients clients' same)
        (go_map-exact Channel_set channels channels' same_channels) in
    (after, after', sent, sent', Quot.sound (λ k. offered.each k ∙ agree k ∙ sym (offered'.each k)))
