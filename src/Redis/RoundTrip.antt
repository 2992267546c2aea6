-- ===== src/Redis/RoundTrip.antt =====
-- A price that pkg/redis/client.go caches is read back.
use termino.Prelude.{
  ◌≡◌, refl, ap, ◌∙◌, Option, none, some, if◌then◌else◌, ◌==◌, beq_self, Bool-cases, inl, inr,
}
use termino.Prelude.Int.{ℤ}
use termino.Prelude.Text.{Text, text_eq}
use termino.Models.{AggregatedPrice, Codec, IsFaithful}
use termino.Redis.{
  Rdb, Reply, found, latest_prices_key, write_price, set_price, get_price, decode_price, read_price,
}

-- Documented of HSET and HGET: a write without an error sets the field, and leaves the other fields
-- and hashes as they were.
pub record IsHash {R : Type 0} (rdb : Rdb R) : Type 0 where
  pub hget-hset :
      (h h' k k' v : Text) (r : R)
      → (rdb.hset h k v r).1 ≡ none
      → rdb.hget h' k' (rdb.hset h k v r).0
        ≡ (if h == h' then (if k == k' then found v else rdb.hget h' k' r) else rdb.hget h' k' r)

module _ {F R : Type 0} (rdb : Rdb R) (codec : Codec (AggregatedPrice F)) where
  decode_if :
      (text symbol other : Text) (price : AggregatedPrice F) (old : Reply Text)
      → codec.unmarshal text ≡ some price
      → decode_price rdb codec (if symbol == other then found text else old)
        ≡ (if symbol == other then found price else decode_price rdb codec old)
  unfolding decode_price read_price
  decode_if text symbol other price old e = elim (Bool-cases (symbol == other)) [
    | inl f ↦ rw (f, e)
    | inr f ↦ rw f
  ]

  get-write :
      (o : Option Text) (symbol other : Text) (price : AggregatedPrice F) (r : R)
      → IsHash rdb
      → IsFaithful codec
      → codec.marshal price ≡ o
      → (write_price rdb codec symbol o r).1 ≡ none
      → get_price rdb codec other (write_price rdb codec symbol o r).0
        ≡ (if symbol == other then found price else get_price rdb codec other r)
  unfolding write_price get_price
  get-write none symbol other price r hash faithful m e = cc
  get-write (some text) symbol other price r hash faithful m e =
      ap (decode_price rdb codec) (
        hash.hget-hset latest_prices_key latest_prices_key symbol other text r e
        ∙ rw (beq_self latest_prices_key))
      ∙ decode_if text symbol other price _ (faithful.unmarshal-marshal price text m)

  -- With a server that stores fields and a codec that reads back what it wrote, after `SetPrice`
  -- returns no error `GetPrice` of the symbol gives that price, and of any other symbol what it
  -- gave before. The time to live plays no part.
  pub get-set_price :
      (symbol other : Text) (price : AggregatedPrice F) (ttl : ℤ) (r : R)
      → IsHash rdb
      → IsFaithful codec
      → (set_price rdb codec symbol price ttl r).1 ≡ none
      → get_price rdb codec other (set_price rdb codec symbol price ttl r).0
        ≡ (if symbol == other then found price else get_price rdb codec other r)
  unfolding set_price
  get-set_price symbol other price ttl r hash faithful e =
      get-write (codec.marshal price) symbol other price r hash faithful refl e
