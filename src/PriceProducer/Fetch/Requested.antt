-- ===== src/PriceProducer/Fetch/Requested.antt =====
-- services/price-producer/main.go: the IDs in the URL of a request, read back.
use mathlib.Core.List.{append_assoc, append-nil}
use termino.Prelude.{
  ℕ, ◌≡◌, refl, sym, ap, ◌∙◌, ◌≢◌, true, List, [], ◌∷◌, ◌++◌, Option, none, some, ◌==◌, All,
  All-append, All-map, Option-cases, Bool-cases, inl, inr,
}
use termino.Prelude.Text.{Text, text_eq, text_beq, text_beq_iff}
use termino.Prelude.Dict.{lookup, All-lookup}
use termino.Prelude.Strings.{none_is, split, join}
use termino.Prelude.Strings.Joined.{is_at, split-join, join-ne-nil}
use termino.PriceProducer.Fetch.{symbol_to_coin_gecko_id, add_id, request_ids}

abbrev add_known : Option Text → List Text → List Text
add_known none ids = ids
add_known (some id) ids = id ∷ ids

-- The IDs of the symbols that are in the table, in order.
abbrev pub known_ids : List Text → List Text
known_ids [] = []
known_ids (symbol ∷ symbols) = add_known (lookup symbol symbol_to_coin_gecko_id) (known_ids symbols)

-- Not empty, and without a comma.
record IsId (id : Text) : Type 0 where
  no_comma : none_is (is_at 44) id ≡ true
  not_empty : id ≢ []

is_id : (c : ℕ) (s : Text) → none_is (is_at 44) (c ∷ s) ≡ true → IsId (c ∷ s)
is_id c s h = record { no_comma = h; not_empty = λ e. cc }

table_ids : All (λ x. IsId x.1) symbol_to_coin_gecko_id
table_ids = (
  is_id _ _ refl,
  (
    is_id _ _ refl,
    (
      is_id _ _ refl,
      (is_id _ _ refl, (is_id _ _ refl, (is_id _ _ refl, (is_id _ _ refl, (is_id _ _ refl, tt))))),
    ),
  ),
)

join-snoc :
    (id d : Text) (ds : List Text) → join 44 ((d ∷ ds) ++ id ∷ []) ≡ join 44 (d ∷ ds) ++ 44 ∷ id
unfolding join
join-snoc id d [] = refl
join-snoc id d (t ∷ ts) =
    ap (λ (r : Text). d ++ 44 ∷ r) (join-snoc id t ts)
    ∙ sym (append_assoc d (44 ∷ join 44 (t ∷ ts)) (44 ∷ id))

add_id-join :
    (id : Text) (ds : List Text)
    → All IsId ds
    → add_id (join 44 ds) (some id) ≡ join 44 (ds ++ id ∷ [])
unfolding join text_beq
add_id-join id [] h = refl
add_id-join id (d ∷ ds) h =
    let full : join 44 (d ∷ ds) ≢ [] = join-ne-nil 44 d ds h.0.not_empty in
    elim (Bool-cases (join 44 (d ∷ ds) == [])) [
      | inl e ↦ absurd (full ((text_beq_iff _ _).0 e))
      | inr e ↦ rw e (sym (join-snoc id d ds))
    ]

request_ids-join :
    (ds symbols : List Text)
    → All IsId ds
    → request_ids (join 44 ds) symbols ≡ join 44 (ds ++ known_ids symbols)
unfolding request_ids
request_ids-join ds [] h = ap (join 44) (sym (append-nil ds))
request_ids-join ds (symbol ∷ symbols) h =
    elim (Option-cases (lookup symbol symbol_to_coin_gecko_id)) [
      | inl e ↦ rw e (request_ids-join ds symbols h)
      | inr (id, e) ↦
          let good : IsId id = All-lookup IsId symbol id symbol_to_coin_gecko_id table_ids e in
          rw e (
            ap (λ t. request_ids t symbols) (add_id-join id ds h)
            ∙ request_ids-join (ds ++ id ∷ []) symbols (All-append IsId ds _ h (good, tt))
            ∙ ap (join 44) (append_assoc ds (id ∷ []) (known_ids symbols)))
    ]

known_ids-IsId : (symbols : List Text) → All IsId (known_ids symbols)
known_ids-IsId [] = tt
known_ids-IsId (symbol ∷ symbols) = elim (Option-cases (lookup symbol symbol_to_coin_gecko_id)) [
  | inl e ↦ rw e (known_ids-IsId symbols)
  | inr (id, e) ↦
      rw e (All-lookup IsId symbol id symbol_to_coin_gecko_id table_ids e, known_ids-IsId symbols)
]

split-join_ids : (ids : List Text) → All IsId ids → ids ≢ [] → split 44 (join 44 ids) ≡ ids
split-join_ids [] h n = absurd (n refl)
split-join_ids (id ∷ ids) h n = split-join 44 id ids (All-map (λ t k. k.no_comma) (id ∷ ids) h)

-- Where a configured symbol is in the table, the list that the loop writes into the URL reads back,
-- split at the commas, as exactly the IDs of those symbols that are in it, in their order.
pub split-request_ids :
    (symbols : List Text)
    → known_ids symbols ≢ []
    → split 44 (request_ids [] symbols) ≡ known_ids symbols
unfolding join
split-request_ids symbols n =
    ap (split 44) (request_ids-join [] symbols tt)
    ∙ split-join_ids (known_ids symbols) (known_ids-IsId symbols) n
