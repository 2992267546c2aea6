-- ===== src/Models/Json/Fields.antt =====
-- What the JSON of one field of a struct of pkg/models/price.go is read back as.
use termino.Prelude.{
  ◌≡◌, refl, sym, ◌∙◌, Bool, true, false, List, [], ◌∷◌, Option, none, some, ◌==◌, beq_self,
  Bool-cases, inl, inr, arith, ltb, ◌&&◌, All,
}
use termino.Prelude.Int.{ℤ, pos, negsuc}
use termino.Prelude.Decimal.{itoa, atoi-itoa, FitsInt}
use termino.Prelude.Text.{Text, text_eq, text_beq_iff}
use termino.Prelude.Dict.{member}
use termino.Models.Json.{
  Value, string, number, object, Syntax, Kind, text_kind, float_kind, float_omitempty, int_kind,
  Content, Struct, Row, Encoded, omitted, unsupported, present, is_int, number_or, encode_value,
  decode_value, zero_of, has, assign, store,
}

-- The values that are written of the fields: a text of `IsText`, or the text of a number.
pub data IsWritten {F : Type 0} (js : Syntax F) (IsText : Text → Type 0) : Value → Type 0 where
  text : {t : Text} → IsText t → IsWritten js IsText (string t)
  float : (x : F) {t : Text} → js.format_float x ≡ some t → IsWritten js IsText (number t)
  int : (n : ℤ) → is_int n ≡ true → IsWritten js IsText (number (itoa n))

abbrev pub is_ascii : Text → Bool
is_ascii [] = true
is_ascii (c ∷ t) = ltb c 128 && is_ascii t

-- Documented of encoding/json and strconv: an object of such values is read as it was written, where
-- `IsText` holds of the texts that are valid Unicode, and a number is written as the shortest text
-- that is read back as that number.
pub record IsSyntax {F : Type 0} (js : Syntax F) (IsText : Text → Type 0) : Type 0 where
  pub ascii_text : (t : Text) → is_ascii t ≡ true → IsText t
  pub parse-print :
      (es : List (Text × Value))
      → All (λ e. IsText e.0 × IsWritten js IsText e.1) es
      → js.parse (js.print es) ≡ some (object es)
  pub parse-format : (x : F) (t : Text) → js.format_float x ≡ some t → js.parse_float t ≡ some x

-- What a field has to hold to be read back: a text of `IsText`; and one that may be left out is not
-- the zero of the other sign.
abbrev pub IsKept : {F : Type 0} → Syntax F → (Text → Type 0) → (k : Kind) → Content F k → Type 0
IsKept js IsText text_kind t = IsText t
IsKept js IsText float_kind x = Unit
IsKept js IsText float_omitempty x = js.is_zero x ≡ true → x ≡ js.zero
IsKept js IsText int_kind n = Unit

abbrev pub names : Struct → List Text
names [] = []
names ((name, k) ∷ fs) = name ∷ names fs

is_int-FitsInt : (n : ℤ) → is_int n ≡ true → FitsInt n
is_int-FitsInt (pos n) h = ground arith
is_int-FitsInt (negsuc n) h = ground arith

pub has-other :
    (key name : Text) (fs : Struct)
    → member name (names fs) ≡ false
    → has (λ n. key == n) fs ≡ true
    → (key == name) ≡ false
has-other key name [] d h = cc
has-other key name ((n, k) ∷ fs) d h =
    ground
      (arith, text_beq_iff n name, text_beq_iff key n, text_beq_iff key name, has-other key name fs)

module _ {F : Type 0} (js : Syntax F) {IsText : Text → Type 0} (ok : IsSyntax js IsText) where
  -- What reading back a field's own value gives, from the zero.
  abbrev pub Reads : (k : Kind) → Content F k → Encoded → Type 0
  Reads k x omitted = x ≡ zero_of js k
  Reads k x unsupported = Unit {0}
  Reads k x (present v) = decode_value js k v (zero_of js k) ≡ some x

  float-Reads : (x : F) (o : Option Text) → js.format_float x ≡ o → Reads float_kind x (number_or o)
  unfolding decode_value
  float-Reads x none e = tt
  float-Reads x (some t) e = ok.parse-format x t e

  float_omitempty-Reads :
      (x : F) (o : Option Text) → js.format_float x ≡ o → Reads float_omitempty x (number_or o)
  unfolding decode_value
  float_omitempty-Reads x none e = tt
  float_omitempty-Reads x (some t) e = ok.parse-format x t e

  pub encode_value-Reads :
      (k : Kind) (x : Content F k) → IsKept js IsText k x → Reads k x (encode_value js k x)
  unfolding encode_value decode_value
  encode_value-Reads text_kind x h = refl
  encode_value-Reads float_kind x h = float-Reads x (js.format_float x) refl
  encode_value-Reads float_omitempty x h = elim (Bool-cases (js.is_zero x)) [
    | inl e ↦ rw e (h e)
    | inr e ↦ rw e (float_omitempty-Reads x (js.format_float x) refl)
  ]
  encode_value-Reads int_kind x h = elim (Bool-cases (is_int x)) [
    | inl e ↦ rw e (atoi-itoa x (is_int-FitsInt x e))
    | inr e ↦ rw e tt
  ]

module _ {F : Type 0} (js : Syntax F) (IsText : Text → Type 0) where
  -- What a field leaves in the document.
  abbrev pub Leaves : Encoded → Type 0
  Leaves omitted = Unit
  Leaves unsupported = Unit
  Leaves (present v) = IsWritten js IsText v

  float-Leaves : (x : F) (o : Option Text) → js.format_float x ≡ o → Leaves (number_or o)
  float-Leaves x none e = tt
  float-Leaves x (some t) e = float x e

  pub encode_value-Leaves :
      (k : Kind) (x : Content F k) → IsKept js IsText k x → Leaves (encode_value js k x)
  unfolding encode_value
  encode_value-Leaves text_kind x h = text h
  encode_value-Leaves float_kind x h = float-Leaves x (js.format_float x) refl
  encode_value-Leaves float_omitempty x h = elim (Bool-cases (js.is_zero x)) [
    | inl e ↦ rw e tt
    | inr e ↦ rw e (float-Leaves x (js.format_float x) refl)
  ]
  encode_value-Leaves int_kind x h = elim (Bool-cases (is_int x)) [
    | inl e ↦ rw e (int x e)
    | inr e ↦ rw e tt
  ]

module _ {F : Type 0} (js : Syntax F) where
  assign-head :
      (p : Text → Bool) (name : Text) (k : Kind) (v : Value) (fs : Struct) (x y : Content F k)
      (row : Row F fs)
      → p name ≡ true
      → decode_value js k v x ≡ some y
      → assign js p v ((name, k) ∷ fs) (x, row) ≡ some (y, row)
  unfolding assign
  assign-head p name k v fs x y row h e = rw (h, assign, e) refl

  assign-tail :
      (p : Text → Bool) (name : Text) (k : Kind) (v : Value) (fs : Struct) (x : Content F k)
      (row row' : Row F fs)
      → p name ≡ false
      → assign js p v fs row ≡ some row'
      → assign js p v ((name, k) ∷ fs) (x, row) ≡ some (x, row')
  unfolding assign
  assign-tail p name k v fs x row row' h e = rw (h, assign, e) refl

  -- A key that is the name of a field is taken for it.
  store-exact :
      (key : Text) (v : Value) (fs : Struct) (row : Row F fs)
      → has (λ n. key == n) fs ≡ true
      → store js key v fs row ≡ assign js (λ n. key == n) v fs row
  unfolding store
  store-exact key v fs row h = rw h refl

  -- A key of the other fields goes past this one.
  pub store-tail :
      (key name : Text) (k : Kind) (v : Value) (fs : Struct) (x : Content F k) (row row' : Row F fs)
      → (key == name) ≡ false
      → has (λ n. key == n) fs ≡ true
      → store js key v fs row ≡ some row'
      → store js key v ((name, k) ∷ fs) (x, row) ≡ some (x, row')
  store-tail key name k v fs x row row' other there e =
      store-exact key v ((name, k) ∷ fs) (x, row) (rw (other, there) refl)
      ∙ assign-tail (λ n. key == n) name k v fs x row row' other
          (sym (store-exact key v fs row there) ∙ e)

  pub store-head :
      (name : Text) (k : Kind) (v : Value) (fs : Struct) (x y : Content F k) (row : Row F fs)
      → decode_value js k v x ≡ some y
      → store js name v ((name, k) ∷ fs) (x, row) ≡ some (y, row)
  store-head name k v fs x y row e =
      store-exact name v ((name, k) ∷ fs) (x, row) (rw (beq_self name) refl)
      ∙ assign-head (λ n. name == n) name k v fs x y row (beq_self name) e
