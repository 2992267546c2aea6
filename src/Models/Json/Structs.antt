-- ===== src/Models/Json/Structs.antt =====
-- The structs of pkg/models/price.go as JSON: their tags, and the codecs that the services use.
use termino.Prelude.{◌≡◌, refl, ap, ◌∙◌, [], ◌∷◌, true, Option, none, some}
use termino.Prelude.Text.{Text, codes, text_eq, text_beq}
use termino.Prelude.Dict.{IsDistinct}
use termino.Models.{
  PriceEvent, AggregatedPrice, PriceAlert, AlertRule, DlqMessage, Codec, IsFaithfulOn,
}
use termino.Models.Json.{
  Syntax, text_kind, float_kind, float_omitempty, int_kind, Struct, Row, marshal, unmarshal,
}
use termino.Models.Json.Fields.{IsSyntax, names}
use termino.Models.Json.Faithful.{is_ascii_struct, AreKept, unmarshal-marshal}

abbrev pub price_event_tags : Struct
price_event_tags =
    (codes "symbol", text_kind)
    ∷ (codes "price", float_kind)
    ∷ (codes "exchange", text_kind)
    ∷ (codes "volume", float_omitempty)
    ∷ (codes "timestamp", int_kind)
    ∷ []

abbrev pub aggregated_price_tags : Struct
aggregated_price_tags =
    (codes "symbol", text_kind)
    ∷ (codes "price", float_kind)
    ∷ (codes "avg_price", float_kind)
    ∷ (codes "high_price", float_kind)
    ∷ (codes "low_price", float_kind)
    ∷ (codes "change_24h", float_kind)
    ∷ (codes "change_pct", float_kind)
    ∷ (codes "volume", float_kind)
    ∷ (codes "exchange_count", int_kind)
    ∷ (codes "timestamp", int_kind)
    ∷ []

abbrev pub price_alert_tags : Struct
price_alert_tags =
    (codes "id", text_kind)
    ∷ (codes "symbol", text_kind)
    ∷ (codes "rule", text_kind)
    ∷ (codes "threshold", float_kind)
    ∷ (codes "current", float_kind)
    ∷ (codes "direction", text_kind)
    ∷ (codes "message", text_kind)
    ∷ (codes "timestamp", int_kind)
    ∷ []

abbrev pub alert_rule_tags : Struct
alert_rule_tags =
    (codes "id", text_kind)
    ∷ (codes "symbol", text_kind)
    ∷ (codes "threshold", float_kind)
    ∷ (codes "direction", text_kind)
    ∷ []

abbrev pub dlq_message_tags : Struct
dlq_message_tags =
    (codes "key", text_kind)
    ∷ (codes "value", text_kind)
    ∷ (codes "original_topic", text_kind)
    ∷ (codes "original_group", text_kind)
    ∷ (codes "error_message", text_kind)
    ∷ (codes "retry_count", text_kind)
    ∷ (codes "failed_at", text_kind)
    ∷ []

price_event_tags-IsDistinct : IsDistinct (names price_event_tags)
unfolding text_beq
price_event_tags-IsDistinct = (refl, (refl, (refl, (refl, (refl, tt)))))

aggregated_price_tags-IsDistinct : IsDistinct (names aggregated_price_tags)
unfolding text_beq
aggregated_price_tags-IsDistinct =
    (refl, (refl, (refl, (refl, (refl, (refl, (refl, (refl, (refl, (refl, tt))))))))))

price_alert_tags-IsDistinct : IsDistinct (names price_alert_tags)
unfolding text_beq
price_alert_tags-IsDistinct = (refl, (refl, (refl, (refl, (refl, (refl, (refl, (refl, tt))))))))

alert_rule_tags-IsDistinct : IsDistinct (names alert_rule_tags)
unfolding text_beq
alert_rule_tags-IsDistinct = (refl, (refl, (refl, (refl, tt))))

dlq_message_tags-IsDistinct : IsDistinct (names dlq_message_tags)
unfolding text_beq
dlq_message_tags-IsDistinct = (refl, (refl, (refl, (refl, (refl, (refl, (refl, tt)))))))

abbrev struct_or : {A B : Type 0} → (A → B) → Option A → Option B
struct_or f none = none
struct_or f (some a) = some (f a)

module _ {F : Type 0} (js : Syntax F) where
  -- A struct goes through the row of its fields.
  abbrev codec_by : {A : Type 0} → (fs : Struct) → (A → Row F fs) → (Row F fs → A) → Codec A
  codec_by fs row_of of_row = record {
    marshal = λ a. marshal js fs (row_of a);
    unmarshal = λ text. struct_or of_row (unmarshal js fs text);
  }

  codec_by-IsFaithfulOn :
      {A : Type 0} {IsText : Text → Type 0} (fs : Struct) (row_of : A → Row F fs)
      (of_row : Row F fs → A) {P : A → Type 0}
      → IsSyntax js IsText
      → IsDistinct (names fs)
      → is_ascii_struct fs ≡ true
      → ((a : A) → of_row (row_of a) ≡ a)
      → ((a : A) → P a → AreKept js IsText fs (row_of a))
      → IsFaithfulOn P (codec_by fs row_of of_row)
  codec_by-IsFaithfulOn fs row_of of_row ok d ascii same kept = record {
    unmarshal-marshal = λ a text p h.
        ap (struct_or of_row) (unmarshal-marshal js ok fs (row_of a) text d ascii (kept a p) h)
        ∙ ap some (same a);
  }

  -- `PriceEvent.Marshal` and `UnmarshalPriceEvent`.
  abbrev pub price_event_codec : Codec (PriceEvent F)
  price_event_codec =
      codec_by price_event_tags
        (λ a. (a.symbol, (a.price, (a.exchange, (a.volume, (a.timestamp, tt))))))
        (λ r. record {
          symbol = r.0;
          price = r.1.0;
          exchange = r.1.1.0;
          volume = r.1.1.1.0;
          timestamp = r.1.1.1.1.0;
        })

  -- `AggregatedPrice.Marshal` and `UnmarshalAggregatedPrice`.
  abbrev pub aggregated_price_codec : Codec (AggregatedPrice F)
  aggregated_price_codec =
      codec_by aggregated_price_tags
        (λ a. (
          a.symbol,
          (
            a.price,
            (
              a.avg_price,
              (
                a.high_price,
                (
                  a.low_price,
                  (a.change24h, (a.change_pct, (a.volume, (a.exchange_count, (a.timestamp, tt))))),
                ),
              ),
            ),
          ),
        ))
        (λ r. record {
          symbol = r.0;
          price = r.1.0;
          avg_price = r.1.1.0;
          high_price = r.1.1.1.0;
          low_price = r.1.1.1.1.0;
          change24h = r.1.1.1.1.1.0;
          change_pct = r.1.1.1.1.1.1.0;
          volume = r.1.1.1.1.1.1.1.0;
          exchange_count = r.1.1.1.1.1.1.1.1.0;
          timestamp = r.1.1.1.1.1.1.1.1.1.0;
        })

  -- `PriceAlert.Marshal` and `UnmarshalPriceAlert`.
  abbrev pub price_alert_codec : Codec (PriceAlert F)
  price_alert_codec =
      codec_by price_alert_tags
        (λ a. (
          a.id,
          (
            a.symbol,
            (a.rule, (a.threshold, (a.current, (a.direction, (a.message, (a.timestamp, tt)))))),
          ),
        ))
        (λ r. record {
          id = r.0;
          symbol = r.1.0;
          rule = r.1.1.0;
          threshold = r.1.1.1.0;
          current = r.1.1.1.1.0;
          direction = r.1.1.1.1.1.0;
          message = r.1.1.1.1.1.1.0;
          timestamp = r.1.1.1.1.1.1.1.0;
        })

  -- `json.Marshal` and `json.Unmarshal` of a rule.
  abbrev pub alert_rule_codec : Codec (AlertRule F)
  alert_rule_codec =
      codec_by alert_rule_tags (λ a. (a.id, (a.symbol, (a.threshold, (a.direction, tt)))))
        (λ r. record { id = r.0; symbol = r.1.0; threshold = r.1.1.0; direction = r.1.1.1.0 })

  -- `json.Marshal` and `json.Unmarshal` of a dead letter.
  abbrev pub dlq_message_codec : Codec (DlqMessage)
  dlq_message_codec =
      codec_by dlq_message_tags
        (λ a. (
          a.key,
          (
            a.value,
            (
              a.original_topic,
              (a.original_group, (a.error_message, (a.retry_count, (a.failed_at, tt)))),
            ),
          ),
        ))
        (λ r. record {
          key = r.0;
          value = r.1.0;
          original_topic = r.1.1.0;
          original_group = r.1.1.1.0;
          error_message = r.1.1.1.1.0;
          retry_count = r.1.1.1.1.1.0;
          failed_at = r.1.1.1.1.1.1.0;
        })

  -- The texts of a struct, and its volume where that may be left out.
  abbrev pub IsKeptEvent : (Text → Type 0) → PriceEvent F → Type 0
  IsKeptEvent IsText e =
      IsText e.symbol × IsText e.exchange × (js.is_zero e.volume ≡ true → e.volume ≡ js.zero)

  abbrev pub IsKeptAlert : (Text → Type 0) → PriceAlert F → Type 0
  IsKeptAlert IsText a =
      IsText a.id × IsText a.symbol × IsText a.rule × IsText a.direction × IsText a.message

  abbrev pub IsKeptRule : (Text → Type 0) → AlertRule F → Type 0
  IsKeptRule IsText a = IsText a.id × IsText a.symbol × IsText a.direction

  abbrev pub IsKeptDlq : (Text → Type 0) → DlqMessage → Type 0
  IsKeptDlq IsText a =
      IsText a.key
      × IsText a.value
      × IsText a.original_topic
      × IsText a.original_group
      × IsText a.error_message
      × IsText a.retry_count
      × IsText a.failed_at

  -- Documented of encoding/json and strconv is `IsSyntax`, with `IsText` for valid Unicode. Under the
  -- tags of the structs, whatever is written of a price event, an aggregated price, an alert, a rule or
  -- a dead letter whose texts are valid is read back as it was, with a volume of an event that is not
  -- the negative zero: no two fields of a struct get in each other's way, and a volume that is left
  -- out is the zero.
  pub codecs-AreFaithful :
      {IsText : Text → Type 0}
      → IsSyntax js IsText
      → IsFaithfulOn (IsKeptEvent IsText) price_event_codec
        × IsFaithfulOn (λ a. IsText a.symbol) aggregated_price_codec
        × IsFaithfulOn (IsKeptAlert IsText) price_alert_codec
        × IsFaithfulOn (IsKeptRule IsText) alert_rule_codec
        × IsFaithfulOn (IsKeptDlq IsText) dlq_message_codec
  codecs-AreFaithful ok = (
    codec_by-IsFaithfulOn price_event_tags _ _ ok price_event_tags-IsDistinct refl (λ a. refl)
        (λ a (symbol, exchange, volume). (symbol, (tt, (exchange, (volume, (tt, tt)))))),
    codec_by-IsFaithfulOn aggregated_price_tags _ _ ok aggregated_price_tags-IsDistinct refl
        (λ a. refl)
        (λ a symbol. (symbol, (tt, (tt, (tt, (tt, (tt, (tt, (tt, (tt, (tt, tt))))))))))),
    codec_by-IsFaithfulOn price_alert_tags _ _ ok price_alert_tags-IsDistinct refl (λ a. refl)
        (λ a (id, symbol, rule, direction, message).
          (id, (symbol, (rule, (tt, (tt, (direction, (message, (tt, tt))))))))),
    codec_by-IsFaithfulOn alert_rule_tags _ _ ok alert_rule_tags-IsDistinct refl (λ a. refl)
        (λ a (id, symbol, direction). (id, (symbol, (tt, (direction, tt))))),
    codec_by-IsFaithfulOn dlq_message_tags _ _ ok dlq_message_tags-IsDistinct refl (λ a. refl)
        (λ a (key, value, topic, group, error, count, at).
          (key, (value, (topic, (group, (error, (count, (at, tt)))))))),
  )
