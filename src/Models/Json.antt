-- ===== src/Models/Json.antt =====
-- The JSON of the structs of pkg/models/price.go: their tags, and how `encoding/json` goes through
-- the fields. The text of a document and of a number, and the folding of keys, are parameters.
pub mod Fields
pub mod Faithful
pub mod Structs
use termino.Prelude.{
  ℕ, Bool, true, false, ◌||◌, List, [], ◌∷◌, Option, none, some, if◌then◌else◌, ltb, ◌==◌,
}
use termino.Prelude.Int.{ℤ, pos, negsuc}
use termino.Prelude.Decimal.{itoa, atoi, int_limit}
use termino.Prelude.Text.{Text, text_eq}

-- The values of the fields of a document; `compound` is an array or an object. A number is its text.
pub data Value : Type 0 where
  null compound : Value
  boolean : Bool → Value
  number string : Text → Value

pub data Document : Type 0 where
  object : List (Text × Value) → Document
  null_document other_document : Document

-- The texts of documents and of float64 numbers. Infinities and NaN have none.
pub record Syntax (F : Type 0) : Type 0 where
  pub print : List (Text × Value) → Text
  pub parse : Text → Option Document
  pub fold : Text → Text
  pub format_float : F → Option Text
  pub parse_float : Text → Option F
  pub zero : F
  pub is_zero : F → Bool

-- The types of fields: `string`, `float64`, the same with `omitempty`, and the integers, of 64
-- bits.
pub data Kind : Type 0 where
  text_kind float_kind float_omitempty int_kind : Kind

abbrev pub Content : Type 0 → Kind → Type 0
Content F text_kind = Text
Content F float_kind = F
Content F float_omitempty = F
Content F int_kind = ℤ

-- A struct by the names and the types of its fields, and its values.
abbrev pub Struct : Type 0
Struct = List (Text × Kind)

abbrev pub Row : Type 0 → Struct → Type 0
Row F [] = Unit {0}
Row F ((name, k) ∷ fs) = Content F k × Row F fs

-- What becomes of a field: nothing, an error, or a value.
pub data Encoded : Type 0 where
  omitted unsupported : Encoded
  present : Value → Encoded

-- Whether an integer is one of 64 bits, as all of the program's are.
abbrev pub is_int : ℤ → Bool
is_int (pos n) = ltb n int_limit
is_int (negsuc n) = ltb n int_limit

abbrev pub number_or : Option Text → Encoded
number_or none = unsupported
number_or (some t) = present (number t)

abbrev pub has : (Text → Bool) → Struct → Bool
has p [] = false
has p ((name, k) ∷ fs) = p name || has p fs

module _ {F : Type 0} (js : Syntax F) where
  pub encode_value : (k : Kind) → Content F k → Encoded
  encode_value text_kind t = present (string t)
  encode_value float_kind x = number_or (js.format_float x)
  encode_value float_omitempty x = if js.is_zero x then omitted else number_or (js.format_float x)
  encode_value int_kind n = if is_int n then present (number (itoa n)) else unsupported

  -- A null leaves the field; a value of another type is an error.
  pub decode_value : (k : Kind) → Value → Content F k → Option (Content F k)
  decode_value k null x = some x
  decode_value k compound x = none
  decode_value k (boolean b) x = none
  decode_value text_kind (string t) x = some t
  decode_value text_kind (number t) x = none
  decode_value float_kind (number t) x = js.parse_float t
  decode_value float_kind (string t) x = none
  decode_value float_omitempty (number t) x = js.parse_float t
  decode_value float_omitempty (string t) x = none
  decode_value int_kind (number t) x = atoi t
  decode_value int_kind (string t) x = none

  pub add_entry : Text → Encoded → Option (List (Text × Value)) → Option (List (Text × Value))
  add_entry name e none = none
  add_entry name omitted (some es) = some es
  add_entry name unsupported (some es) = none
  add_entry name (present v) (some es) = some ((name, v) ∷ es)

  -- The fields in their order.
  pub encode : (fs : Struct) → Row F fs → Option (List (Text × Value))
  unfolding encode_value add_entry
  encode [] row = some []
  encode ((name, k) ∷ fs) (x, row) = add_entry name (encode_value k x) (encode fs row)

  abbrev pub zero_of : (k : Kind) → Content F k
  zero_of text_kind = []
  zero_of float_kind = js.zero
  zero_of float_omitempty = js.zero
  zero_of int_kind = pos 0

  abbrev pub zero_row : (fs : Struct) → Row F fs
  zero_row [] = tt
  zero_row ((name, k) ∷ fs) = (zero_of k, zero_row fs)

  -- The first field whose name fits takes the value; where none does, it is passed over.
  pub assign : (Text → Bool) → Value → (fs : Struct) → Row F fs → Option (Row F fs)
  unfolding decode_value
  assign p v [] row = some row
  assign p v ((name, k) ∷ fs) (x, row) = elim (p name) [
    | true ↦ elim (decode_value k v x) [ none ↦ none | some y ↦ some (y, row) ]
    | false ↦ elim (assign p v fs row) [ none ↦ none | some row' ↦ some (x, row') ]
  ]

  -- A name that is equal to the key goes before one that is equal up to its case.
  pub store : Text → Value → (fs : Struct) → Row F fs → Option (Row F fs)
  unfolding assign
  store key v fs row =
      let exact : Text → Bool = λ name. key == name in
      if has exact fs
      then assign exact v fs row
      else assign (λ name. js.fold key == js.fold name) v fs row

  -- The entries in their order; a later one overwrites an earlier one.
  pub decode : (fs : Struct) → List (Text × Value) → Row F fs → Option (Row F fs)
  unfolding store
  decode fs [] row = some row
  decode fs ((key, v) ∷ es) row = elim (store key v fs row) [
    | none ↦ none
    | some row' ↦ decode fs es row'
  ]

  pub printed : Option (List (Text × Value)) → Option Text
  printed none = none
  printed (some es) = some (js.print es)

  -- `json.Marshal`.
  pub marshal : (fs : Struct) → Row F fs → Option Text
  unfolding encode printed
  marshal fs row = printed (encode fs row)

  pub read_document : (fs : Struct) → Option Document → Option (Row F fs)
  unfolding decode
  read_document fs none = none
  read_document fs (some (object es)) = decode fs es (zero_row fs)
  read_document fs (some null_document) = some (zero_row fs)
  read_document fs (some other_document) = none

  -- `json.Unmarshal` into a new struct.
  pub unmarshal : (fs : Struct) → Text → Option (Row F fs)
  unfolding read_document
  unmarshal fs text = read_document fs (js.parse text)
