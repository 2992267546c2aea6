-- ===== src/Streaming/Symbols/Requested.antt =====
-- What cli/crypto-stream asks for, and what services/streaming-api/main.go then sends.
use mathlib.Core.Path.{ap₂}
use termino.Prelude.{
  ℕ, ◌≡◌, ◌≢◌, refl, sym, ap, ◌∙◌, Bool, true, false, ◌||◌, none, some, List, [], ◌∷◌, map,
  if◌then◌else◌, ◌==◌, leb, nat_beq, All, beq_self, All-map, Bool-cases, inl, inr, arith,
}
use termino.Prelude.Text.{Text, text_eq, text_beq, text_beq_iff}
use termino.Prelude.Dict.{lookup, insert, lookup-insert, member}
use termino.Prelude.Strings.{Unicode, upper_code, to_upper, is_space, none_is}
use termino.Prelude.Strings.Joined.{is_at, split-join, trim_space-same, join-ne-nil}
use termino.Streaming.{alerts_mark, is_nil, flag_or_false, wants_price}
use termino.Streaming.Symbols.{
  clean_parts, parse_symbols, symbol_map_from, symbol_map, symbol_map_misses,
}
use termino.Cli.Main.{chosen_symbols, symbols_query}

-- Control characters, and what a URL's query treats specially.
abbrev is_special : ℕ → Bool
is_special c =
    leb c 32
    || nat_beq c 127
    || nat_beq c b'#'
    || nat_beq c b'%'
    || nat_beq c b'&'
    || nat_beq c b'+'
    || nat_beq c b';'

abbrev pub is_odd : ℕ → Bool
is_odd c = leb 128 c || is_space c || nat_beq c b',' || is_special c

-- A printable ASCII text that is not empty, without blanks, commas and the characters that a URL's
-- query treats specially, so that it is read there as it was written.
abbrev pub IsTicker : Text → Type 0
IsTicker s = (s ≢ []) × (none_is is_odd s ≡ true)

-- What the server keeps of a requested symbol unchanged.
record IsKept (u : Unicode) (s : Text) : Type 0 where
  full : (s == []) ≡ false
  upper : to_upper u s ≡ s
  tight : none_is is_space s ≡ true
  whole : none_is (is_at b',') s ≡ true

upper_code_twice :
    (u : Unicode) (c : ℕ) → is_odd c ≡ false → upper_code u (upper_code u c) ≡ upper_code u c
unfolding upper_code
upper_code_twice u c h = ground arith

upper_code_not_odd : (u : Unicode) (c : ℕ) → is_odd c ≡ false → is_odd (upper_code u c) ≡ false
unfolding upper_code
upper_code_not_odd u c h = ground arith

to_upper_twice :
    (u : Unicode) (s : Text) → none_is is_odd s ≡ true → to_upper u (to_upper u s) ≡ to_upper u s
unfolding to_upper
to_upper_twice u [] h = refl
to_upper_twice u (c ∷ s) h = elim (Bool-cases (is_odd c)) [
  | inl e ↦ cc (rw e at h)
  | inr e ↦ ap₂ ◌∷◌ (upper_code_twice u c e) (to_upper_twice u s (rw e at h))
]

none_is_odd-to_upper :
    (u : Unicode) (s : Text) → none_is is_odd s ≡ true → none_is is_odd (to_upper u s) ≡ true
unfolding to_upper
none_is_odd-to_upper u [] h = refl
none_is_odd-to_upper u (c ∷ s) h = elim (Bool-cases (is_odd c)) [
  | inl e ↦ cc (rw e at h)
  | inr e ↦ rw (upper_code_not_odd u c e) (none_is_odd-to_upper u s (rw e at h))
]

none_is_mono :
    (p q : ℕ → Bool) (s : Text)
    → ((c : ℕ) → p c ≡ false → q c ≡ false)
    → none_is p s ≡ true
    → none_is q s ≡ true
none_is_mono p q [] f h = refl
none_is_mono p q (c ∷ s) f h = ground (arith, f c, none_is_mono p q s f)

or_parts : (a b c d : Bool) → (a || b || c || d) ≡ false → (b ≡ false) × (c ≡ false)
or_parts a b c d h = ground arith

not_odd-tight : (c : ℕ) → is_odd c ≡ false → is_space c ≡ false
not_odd-tight c h = (or_parts (leb 128 c) (is_space c) (nat_beq c b',') (is_special c) h).0

not_odd-whole : (c : ℕ) → is_odd c ≡ false → is_at b',' c ≡ false
not_odd-whole c h = (or_parts (leb 128 c) (is_space c) (nat_beq c b',') (is_special c) h).1

to_upper_full : (u : Unicode) (s : Text) → s ≢ [] → (to_upper u s == []) ≡ false
unfolding to_upper text_beq
to_upper_full u [] h = absurd (h refl)
to_upper_full u (c ∷ s) h = refl

to_upper-IsKept : (u : Unicode) (s : Text) → IsTicker s → IsKept u (to_upper u s)
to_upper-IsKept u s (full, plain) = record {
  full = to_upper_full u s full;
  upper = to_upper_twice u s plain;
  tight =
      none_is_mono is_odd is_space (to_upper u s) not_odd-tight (none_is_odd-to_upper u s plain);
  whole =
      none_is_mono is_odd (is_at b',') (to_upper u s) not_odd-whole
        (none_is_odd-to_upper u s plain);
}

clean_parts-kept : (u : Unicode) (ss : List Text) → All (IsKept u) ss → clean_parts u ss ≡ ss
unfolding clean_parts
clean_parts-kept u [] h = refl
clean_parts-kept u (s ∷ ss) h =
    rw (h.0.upper, trim_space-same s h.0.tight, h.0.full) (ap (◌∷◌ s) (clean_parts-kept u ss h.1))

parse-query :
    (u : Unicode) (s : Text) (ss : List Text)
    → All (IsKept u) (s ∷ ss)
    → parse_symbols u (symbols_query (s ∷ ss)) ≡ s ∷ ss
unfolding parse_symbols symbols_query
parse-query u s ss h = elim (Bool-cases (symbols_query (s ∷ ss) == [])) [
  | inl e ↦ absurd (
      join-ne-nil b',' s ss (λ x. cc (sym h.0.full ∙ (text_beq_iff s []).1 x))
        ((text_beq_iff (symbols_query (s ∷ ss)) []).0 e))
  | inr e ↦
      rw (e, split-join b',' s ss (All-map (λ t k. k.whole) (s ∷ ss) h))
        (clean_parts-kept u (s ∷ ss) h)
]

if_or :
    {A : Type 0} (a b : Bool) (x y : A)
    → (if b then x else (if a then x else y)) ≡ (if a || b then x else y)
if_or true true x y = refl
if_or true false x y = refl
if_or false b x y = refl

lookup-symbol_map_from_kept :
    (u : Unicode) (ss : List Text) (m : List (Text × Bool)) (k : Text)
    → All (IsKept u) ss
    → lookup k (symbol_map_from u ss m) ≡ (if member k ss then some true else lookup k m)
unfolding symbol_map_from
lookup-symbol_map_from_kept u [] m k h = refl
lookup-symbol_map_from_kept u (s ∷ ss) m k h =
    lookup-symbol_map_from_kept u ss (insert (to_upper u s) true m) k h.1
    ∙ rw (h.0.upper, lookup-insert s k true m)
        (if_or (s == k) (member k ss) (some true) (lookup k m))

all-IsKept : (u : Unicode) (ss : List Text) → All IsTicker ss → All (IsKept u) (map (to_upper u) ss)
all-IsKept u [] h = tt
all-IsKept u (s ∷ ss) h = (to_upper-IsKept u s h.0, all-IsKept u ss h.1)

lookup-symbol_map_kept :
    (u : Unicode) (ss : List Text) (k : Text)
    → All (IsKept u) ss
    → lookup k (symbol_map u ss) ≡ (if member k ss then some true else none)
unfolding symbol_map
lookup-symbol_map_kept u ss k h = lookup-symbol_map_from_kept u ss [] k h

not_nil : (m : List (Text × Bool)) (k : Text) → lookup k m ≡ some true → is_nil m ≡ false
not_nil [] k h = cc
not_nil (x ∷ m) k h = refl

is_nil-symbol_map :
    (u : Unicode) (s : Text) (ss : List Text)
    → All (IsKept u) (s ∷ ss)
    → is_nil (symbol_map u (s ∷ ss)) ≡ false
is_nil-symbol_map u s ss h =
    not_nil (symbol_map u (s ∷ ss)) s (lookup-symbol_map_kept u (s ∷ ss) s h ∙ rw (beq_self s))

flag_if : (b : Bool) → flag_or_false (if b then some true else none) ≡ b
flag_if true = refl
flag_if false = refl

wants_price-kept :
    (u : Unicode) (s : Text) (ss : List Text) (symbol : Text)
    → All (IsKept u) (s ∷ ss)
    → wants_price symbol (symbol_map u (s ∷ ss)) ≡ member symbol (s ∷ ss)
wants_price-kept u s ss symbol h =
    rw
      (
        symbol_map_misses u (s ∷ ss) alerts_mark refl,
        is_nil-symbol_map u s ss h,
        lookup-symbol_map_kept u (s ∷ ss) symbol h,
      )
      (flag_if (member symbol (s ∷ ss)))

-- For any arguments of `crypto-stream prices`, one at least, that are printable ASCII texts without
-- blanks, commas and the characters that a URL's query treats specially, the client of the query that the program sends wants the prices of exactly the symbols
-- that were named, in upper case, whatever a symbol looks like.
pub wants_price-query :
    (u : Unicode) (arg : Text) (args : List Text) (symbol : Text)
    → All IsTicker (arg ∷ args)
    → wants_price symbol
        (symbol_map u (parse_symbols u (symbols_query (chosen_symbols u (arg ∷ args)))))
      ≡ member symbol (map (to_upper u) (arg ∷ args))
unfolding chosen_symbols
wants_price-query u arg args symbol h =
    let kept = all-IsKept u (arg ∷ args) h in
    ap (λ (ss : List Text). wants_price symbol (symbol_map u ss))
      (parse-query u (to_upper u arg) (map (to_upper u) args) kept)
    ∙ wants_price-kept u (to_upper u arg) (map (to_upper u) args) symbol kept
