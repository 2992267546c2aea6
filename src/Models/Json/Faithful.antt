-- ===== src/Models/Json/Faithful.antt =====
-- What the JSON of a struct of pkg/models/price.go is read back as.
use mathlib.Core.Option.{some-injective}
use termino.Prelude.{
  ◌≡◌, refl, sym, ap, ◌∙◌, subst, true, false, List, [], ◌∷◌, Option, none, some, ◌==◌, beq_self,
  All, All-map, arith, Bool, ◌&&◌,
}
use termino.Prelude.Text.{Text, text_eq}
use termino.Prelude.Dict.{member, IsDistinct}
use termino.Models.Json.{
  Value, Syntax, Kind, Content, Struct, Row, Encoded, omitted, unsupported, present, encode_value,
  add_entry, encode, zero_of, zero_row, has, store, decode, printed, marshal, read_document,
  unmarshal,
}
use termino.Models.Json.Fields.{
  IsSyntax, IsWritten, IsKept, Leaves, is_ascii, encode_value-Leaves, names, has-other, Reads,
  encode_value-Reads, store-tail, store-head,
}

abbrev pub is_ascii_struct : Struct → Bool
is_ascii_struct [] = true
is_ascii_struct ((name, k) ∷ fs) = is_ascii name && is_ascii_struct fs

-- Every key is the name of a field.
abbrev IsKnown : Struct → List (Text × Value) → Type 0
IsKnown fs es = All (λ e. has (λ n. e.0 == n) fs ≡ true) es

known_later :
    (name : Text) (k : Kind) (fs : Struct) (e : Text × Value)
    → has (λ n. e.0 == n) fs ≡ true
    → has (λ n. e.0 == n) ((name, k) ∷ fs) ≡ true
known_later name k fs e h = ground arith

module _ {F : Type 0} (js : Syntax F) where
  add_entry-IsKnown :
      (name : Text) (k : Kind) (fs : Struct) (ev : Encoded) (o : Option (List (Text × Value)))
      (es : List (Text × Value))
      → ((es' : List (Text × Value)) → o ≡ some es' → IsKnown fs es')
      → add_entry js name ev o ≡ some es
      → IsKnown ((name, k) ∷ fs) es
  unfolding add_entry
  add_entry-IsKnown name k fs ev none es f e = cc
  add_entry-IsKnown name k fs unsupported (some es') es f e = cc
  add_entry-IsKnown name k fs omitted (some es') es f e =
      subst (IsKnown ((name, k) ∷ fs)) (some-injective _ _ e)
        (All-map (known_later name k fs) es' (f es' refl))
  add_entry-IsKnown name k fs (present v) (some es') es f e =
      subst (IsKnown ((name, k) ∷ fs)) (some-injective _ _ e)
        (rw (beq_self name) refl, All-map (known_later name k fs) es' (f es' refl))

  encode-IsKnown :
      (fs : Struct) (row : Row F fs) (es : List (Text × Value))
      → encode js fs row ≡ some es
      → IsKnown fs es
  unfolding encode
  encode-IsKnown [] row es e = subst (IsKnown []) (some-injective _ _ e) tt
  encode-IsKnown ((name, k) ∷ fs) (x, row) es e =
      add_entry-IsKnown name k fs (encode_value js k x) (encode js fs row) es
        (λ es'. encode-IsKnown fs row es') e

  decode-cons :
      (fs : Struct) (key : Text) (v : Value) (es : List (Text × Value)) (row row' : Row F fs)
      → store js key v fs row ≡ some row'
      → decode js fs ((key, v) ∷ es) row ≡ decode js fs es row'
  unfolding decode
  decode-cons fs key v es row row' e = rw (decode, e) refl

  decode-tail_next :
      (name : Text) (k : Kind) (fs : Struct) (x : Content F k) (key : Text) (v : Value)
      (es : List (Text × Value)) (row row' : Row F fs)
      → (key == name) ≡ false
      → has (λ n. key == n) fs ≡ true
      → ((r : Row F fs)
          → decode js fs es r ≡ some row'
          → decode js ((name, k) ∷ fs) es (x, r) ≡ some (x, row'))
      → (o : Option (Row F fs)) → store js key v fs row ≡ o
      → elim o [ none ↦ none | some r ↦ decode js fs es r ] ≡ some row'
      → decode js ((name, k) ∷ fs) ((key, v) ∷ es) (x, row) ≡ some (x, row')
  decode-tail_next name k fs x key v es row row' other there rest none s e = cc
  decode-tail_next name k fs x key v es row row' other there rest (some r) s e =
      decode-cons ((name, k) ∷ fs) key v es (x, row) (x, r)
        (store-tail js key name k v fs x row r other there s)
      ∙ rest r e

  -- The entries of the other fields leave this one.
  decode-tail :
      (name : Text) (k : Kind) (fs : Struct) (x : Content F k) (es : List (Text × Value))
      (row row' : Row F fs)
      → member name (names fs) ≡ false
      → IsKnown fs es
      → decode js fs es row ≡ some row'
      → decode js ((name, k) ∷ fs) es (x, row) ≡ some (x, row')
  unfolding decode
  decode-tail name k fs x [] row row' d h e = ap (λ r. some (x, r)) (some-injective _ _ e)
  decode-tail name k fs x ((key, v) ∷ es) row row' d h e =
      decode-tail_next name k fs x key v es row row' (has-other key name fs d h.0) h.0
        (λ r. decode-tail name k fs x es r row' d h.1) (store js key v fs row) refl e

  module _ (IsText : Text → Type 0) where
    -- What each field has to hold to be read back.
    abbrev pub AreKept : (fs : Struct) → Row F fs → Type 0
    AreKept [] row = Unit
    AreKept ((name, k) ∷ fs) (x, row) = IsKept js IsText k x × AreKept fs row

    abbrev IsReadable : List (Text × Value) → Type 0
    IsReadable es = All (λ e. IsText e.0 × IsWritten js IsText e.1) es

    add_entry-IsReadable :
        (name : Text) (ev : Encoded) (o : Option (List (Text × Value))) (es : List (Text × Value))
        → IsText name
        → Leaves js IsText ev
        → ((es' : List (Text × Value)) → o ≡ some es' → IsReadable es')
        → add_entry js name ev o ≡ some es
        → IsReadable es
    unfolding add_entry
    add_entry-IsReadable name ev none es n w f e = cc
    add_entry-IsReadable name unsupported (some es') es n w f e = cc
    add_entry-IsReadable name omitted (some es') es n w f e =
        subst IsReadable (some-injective _ _ e) (f es' refl)
    add_entry-IsReadable name (present v) (some es') es n w f e =
        subst IsReadable (some-injective _ _ e) ((n, w), f es' refl)

  module _ {IsText : Text → Type 0} (ok : IsSyntax js IsText) where
    encode-IsReadable :
        (fs : Struct) (row : Row F fs) (es : List (Text × Value))
        → is_ascii_struct fs ≡ true
        → AreKept IsText fs row
        → encode js fs row ≡ some es
        → IsReadable IsText es
    unfolding encode
    encode-IsReadable [] row es a h e = subst (IsReadable IsText) (some-injective _ _ e) tt
    encode-IsReadable ((name, k) ∷ fs) (x, row) es a (kept, h) e =
        add_entry-IsReadable IsText name (encode_value js k x) (encode js fs row) es
          (ok.ascii_text name (ground (arith, a))) (encode_value-Leaves js IsText k x kept)
          (λ es'. encode-IsReadable fs row es' (ground (arith, a)) h) e

    add_entry-decoded :
        (name : Text) (k : Kind) (fs : Struct) (x : Content F k) (row : Row F fs) (ev : Encoded)
        (o : Option (List (Text × Value))) (es : List (Text × Value))
        → member name (names fs) ≡ false
        → Reads js ok k x ev
        → ((es' : List (Text × Value))
            → o ≡ some es'
            → (decode js fs es' (zero_row js fs) ≡ some row) × IsKnown fs es')
        → add_entry js name ev o ≡ some es
        → decode js ((name, k) ∷ fs) es (zero_row js ((name, k) ∷ fs)) ≡ some (x, row)
    unfolding add_entry
    add_entry-decoded name k fs x row ev none es d r f e = cc
    add_entry-decoded name k fs x row unsupported (some es') es d r f e = cc
    add_entry-decoded name k fs x row omitted (some es') es d r f e =
        let (read, known) = f es' refl in
        subst (λ l. decode js ((name, k) ∷ fs) l (zero_row js ((name, k) ∷ fs)) ≡ some (x, row))
          (some-injective _ _ e)
          (decode-tail name k fs (zero_of js k) es' (zero_row js fs) row d known read
            ∙ ap (λ y. some (y, row)) (sym r))
    add_entry-decoded name k fs x row (present v) (some es') es d r f e =
        let (read, known) = f es' refl in
        subst (λ l. decode js ((name, k) ∷ fs) l (zero_row js ((name, k) ∷ fs)) ≡ some (x, row))
          (some-injective _ _ e)
          (decode-cons ((name, k) ∷ fs) name v es' (zero_row js ((name, k) ∷ fs))
              (x, zero_row js fs) (store-head js name k v fs (zero_of js k) x (zero_row js fs) r)
            ∙ decode-tail name k fs x es' (zero_row js fs) row d known read)

    decode-encode :
        (fs : Struct) (row : Row F fs) (es : List (Text × Value))
        → IsDistinct (names fs)
        → AreKept IsText fs row
        → encode js fs row ≡ some es
        → decode js fs es (zero_row js fs) ≡ some row
    unfolding encode decode
    decode-encode [] row es d h e =
        subst (λ l. decode js [] l tt ≡ some row) (some-injective _ _ e) refl
    decode-encode ((name, k) ∷ fs) (x, row) es d (kept, h) e =
        add_entry-decoded name k fs x row (encode_value js k x) (encode js fs row) es d.0
          (encode_value-Reads js ok k x kept)
          (λ es' q. (decode-encode fs row es' d.1 h q, encode-IsKnown fs row es' q)) e

    printed-read :
        (fs : Struct) (row : Row F fs) (o : Option (List (Text × Value))) (text : Text)
        → IsDistinct (names fs)
        → is_ascii_struct fs ≡ true
        → AreKept IsText fs row
        → encode js fs row ≡ o
        → printed js o ≡ some text
        → unmarshal js fs text ≡ some row
    unfolding printed unmarshal read_document
    printed-read fs row none text d a k e h = cc
    printed-read fs row (some es) text d a k e h =
        subst (λ t. unmarshal js fs t ≡ some row) (some-injective _ _ h)
          (rw (unmarshal, ok.parse-print es (encode-IsReadable fs row es a k e))
            (decode-encode fs row es d k e))

    -- Whatever struct with fields of different names in ASCII, what is written of it is read back as it
    -- was, if its texts and its fields that may be left out can be.
    pub unmarshal-marshal :
        (fs : Struct) (row : Row F fs) (text : Text)
        → IsDistinct (names fs)
        → is_ascii_struct fs ≡ true
        → AreKept IsText fs row
        → marshal js fs row ≡ some text
        → unmarshal js fs text ≡ some row
    unfolding marshal
    unmarshal-marshal fs row text d a k h = printed-read fs row (encode js fs row) text d a k refl h
