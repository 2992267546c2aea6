-- ===== src/Config/Seconds.antt =====
-- The durations that pkg/config/config.go reads.
use termino.Prelude.{
  ◌≤◌, ◌<◌, ◌^◌, ◌≡◌, ◌≢◌, sym, ap, ◌∙◌, [], some, Bool-cases, inl, inr, ◌==◌, arith,
}
use termino.Prelude.Int.{ℤ, pos, negsuc, pos_part, neg_part, ◌*ℤ◌}
use termino.Prelude.Text.{Text, text_eq, text_beq_iff}
use termino.Prelude.Decimal.{itoa, atoi, atoi-itoa, FitsInt}
use termino.Config.{wrap, second, get_duration_env}

wrap_small : (m : ℤ) → pos_part m < 2 ^ 63 → neg_part m < 2 ^ 63 → wrap m ≡ m
wrap_small (pos n) h k = ground arith
wrap_small (negsuc n) h k = ground arith

wrap_seconds :
    (n : ℤ) → pos_part n ≤ 9223372036 → neg_part n ≤ 9223372036 → wrap (n *ℤ second) ≡ n *ℤ second
unfolding ◌*ℤ◌
wrap_seconds (pos n) h k = wrap_small _ (ground arith) (ground arith)
wrap_seconds (negsuc n) h k = wrap_small _ (ground arith) (ground arith)

fits : (n : ℤ) → pos_part n ≤ 9223372036 → neg_part n ≤ 9223372036 → FitsInt n
fits (pos n) h k = omega arith
fits (negsuc n) h k = omega arith

nonempty : (n : ℤ) → FitsInt n → itoa n ≢ []
unfolding atoi
nonempty n h e = none_not_some (sym (ap atoi e) ∙ atoi-itoa n h)
  where
    none_not_some : atoi [] ≢ some n
    none_not_some x = cc

-- A variable that holds a whole number of seconds, of at most 9223372036 in size, gives that number
-- of nanoseconds a second, without a wrap in 64 bits.
pub get_duration_env-itoa :
    (env : Text → Text) (key : Text) (fallback n : ℤ)
    → env key ≡ itoa n
    → pos_part n ≤ 9223372036
    → neg_part n ≤ 9223372036
    → get_duration_env env key fallback ≡ n *ℤ second
unfolding get_duration_env
get_duration_env-itoa env key fallback n e h k = rw e (elim (Bool-cases (itoa n == [])) [
  | inl b ↦ absurd (nonempty n (fits n h k) ((text_beq_iff (itoa n) []).0 b))
  | inr b ↦ rw (b, atoi-itoa n (fits n h k)) (wrap_seconds n h k)
])
