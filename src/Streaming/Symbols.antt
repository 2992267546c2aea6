-- ===== src/Streaming/Symbols.antt =====
-- `parseSymbols` and the symbol map of `handleStream` in services/streaming-api/main.go.
pub mod Requested
use termino.Prelude.{
  ◌≡◌, refl, ap, ◌∙◌, Bool, true, false, none, List, [], ◌∷◌, if◌then◌else◌, ◌==◌, arith,
}
use termino.Prelude.Text.{Text, text_eq, text_beq_iff}
use termino.Prelude.Dict.{lookup, insert, lookup-insert}
use termino.Prelude.Strings.{
  Unicode, to_upper, trim_space, split, is_lower, none_is, none_is-to_upper,
}

clean_parts : Unicode → List Text → List Text
clean_parts u [] = []
clean_parts u (p ∷ ps) =
    let t = trim_space (to_upper u p) in
    let rest = clean_parts u ps in if t == [] then rest else t ∷ rest

unfoldable pub parse_symbols : Unicode → Text → List Text
unfolding clean_parts
parse_symbols u s = if s == [] then [] else clean_parts u (split b',' s)

pub symbol_map_from : Unicode → List Text → List (Text × Bool) → List (Text × Bool)
symbol_map_from u [] m = m
symbol_map_from u (t ∷ ts) m = symbol_map_from u ts (insert (to_upper u t) true m)

unfoldable pub symbol_map : Unicode → List Text → List (Text × Bool)
unfolding symbol_map_from
symbol_map u ts = symbol_map_from u ts []

-- No key of the map has an ASCII small letter.
lookup-symbol_map_from :
    (u : Unicode) (ts : List Text) (m : List (Text × Bool)) (k : Text)
    → none_is is_lower k ≡ false
    → lookup k (symbol_map_from u ts m) ≡ lookup k m
unfolding symbol_map_from
lookup-symbol_map_from u [] m k h = refl
lookup-symbol_map_from u (t ∷ ts) m k h =
    lookup-symbol_map_from u ts (insert (to_upper u t) true m) k h
    ∙ lookup-insert (to_upper u t) k true m
    ∙ ground (
      arith,
      text_beq_iff (to_upper u t) k,
      ap (none_is is_lower) {x = to_upper u t} {y = k},
      none_is-to_upper u t,
    )

pub symbol_map_misses :
    (u : Unicode) (ts : List Text) (k : Text)
    → none_is is_lower k ≡ false
    → lookup k (symbol_map u ts) ≡ none
unfolding symbol_map
symbol_map_misses u ts k h = lookup-symbol_map_from u ts [] k h
