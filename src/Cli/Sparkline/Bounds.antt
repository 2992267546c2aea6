-- ===== src/Cli/Sparkline/Bounds.antt =====
-- Every value of a sparkline of cli/crypto-stream/ui/watch.go has a block.
use termino.Prelude.{
  ℕ, zero, suc, ◌≤◌, ◌<◌, ◌≡◌, refl, true, false, List, [], ◌∷◌, ◌++◌, Option, none, some,
  if◌then◌else◌, length, All, Bool-cases, inl, inr, arith,
}
use termino.Prelude.Int.{pos}
use termino.Prelude.Text.{Text}
use termino.Float.{Float, FloatOrder, FloatRange}
use termino.Cli.{Look}
use termino.Cli.Sparkline.{
  blocks, get_elem?, at_index, span, spread, index_of, coloured, with_block, render_from,
  render_sparkline,
}

get_elem?-some :
    {A : Type 0} (xs : List A) (k : ℕ) → k < length xs → (x : A) × (get_elem? xs k ≡ some x)
get_elem?-some [] k h = absurd (omega arith)
get_elem?-some (x ∷ xs) zero h = (x, refl)
get_elem?-some (x ∷ xs) (suc k) h = get_elem?-some xs k (omega arith)

module _ {F : Type 0} ⦃fl : Float F⦄ {o : FloatOrder fl} (r : FloatRange o) where
  record Chosen (m a b : F) : Type 0 where
    finite : r.IsFinite m
    fst_le : fl.le m a ≡ true
    snd_le : fl.le m b ≡ true

  lower :
      (min v : F) → r.IsFinite min → r.IsFinite v → Chosen (if fl.lt v min then v else min) min v
  lower min v h k = elim (Bool-cases (fl.lt v min)) [
    | inl e ↦ rw e (record {
      finite = k;
      fst_le = o.le_of_lt v min e;
      snd_le = o.le_refl v (r.finite_number v k);
    })
    | inr e ↦ rw e (record {
      finite = h;
      fst_le = o.le_refl min (r.finite_number min h);
      snd_le = o.le_of_not_lt v min (r.finite_number v k) (r.finite_number min h) e;
    })
  ]

  record Above (m a b : F) : Type 0 where
    finite : r.IsFinite m
    le_fst : fl.le a m ≡ true
    le_snd : fl.le b m ≡ true

  higher :
      (max v : F) → r.IsFinite max → r.IsFinite v → Above (if fl.lt max v then v else max) max v
  higher max v h k = elim (Bool-cases (fl.lt max v)) [
    | inl e ↦ rw e (record {
      finite = k;
      le_fst = o.le_of_lt max v e;
      le_snd = o.le_refl v (r.finite_number v k);
    })
    | inr e ↦ rw e (record {
      finite = h;
      le_fst = o.le_refl max (r.finite_number max h);
      le_snd = o.le_of_not_lt max v (r.finite_number max h) (r.finite_number v k) e;
    })
  ]

  -- The ends bound the values and the bounds that the loop started with.
  pub record Spans (min max : F) (vs : List F) (ends : F × F) : Type 0 where
    pub least : r.IsFinite ends.0
    pub greatest : r.IsFinite ends.1
    pub below : fl.le ends.0 min ≡ true
    pub above : fl.le max ends.1 ≡ true
    pub covers : All (λ v. (fl.le ends.0 v ≡ true) × (fl.le v ends.1 ≡ true)) vs

  span-Spans :
      (min max : F) (vs : List F)
      → r.IsFinite min
      → r.IsFinite max
      → All r.IsFinite vs
      → Spans min max vs (span min max vs)
  unfolding span
  span-Spans min max [] h k f = record {
    least = h;
    greatest = k;
    below = o.le_refl min (r.finite_number min h);
    above = o.le_refl max (r.finite_number max k);
    covers = tt;
  }
  span-Spans min max (v ∷ vs) h k f =
      let l = lower min v h f.0 in
      let g = higher max v k f.0 in
      let s =
        span-Spans (if fl.lt v min then v else min) (if fl.lt max v then v else max) vs l.finite
          g.finite f.1 in
      record {
        least = s.least;
        greatest = s.greatest;
        below = o.le_trans _ _ _ s.below l.fst_le;
        above = o.le_trans _ _ _ g.le_fst s.above;
        covers = ((o.le_trans _ _ _ s.below l.snd_le, o.le_trans _ _ _ g.le_snd s.above), s.covers);
      }

  -- The range is positive, and no difference from the least value is above it.
  record Divides (min max rng : F) : Type 0 where
    finite : r.IsFinite rng
    not_zero : fl.eq rng (fl.of_nat 0) ≡ false
    holds : (x : F) → fl.le x (fl.sub max min) ≡ true → fl.le x rng ≡ true

  spread-Divides : (min max : F) → r.IsFinite (fl.sub max min) → Divides min max (spread (min, max))
  unfolding spread
  spread-Divides min max h = elim (Bool-cases (fl.eq (fl.sub max min) (fl.of_nat 0))) [
    | inl e ↦ rw e (record {
      finite = r.finite_one;
      not_zero = r.one_ne_zero;
      holds = λ x k. o.le_trans _ _ _ k (o.le_trans _ _ _ (r.le_of_eq _ _ e) r.zero_le_one);
    })
    | inr e ↦ rw e (record { finite = h; not_zero = e; holds = λ x k. k })
  ]

  index_of-bounded :
      (min max rng v : F)
      → r.IsFinite min
      → r.IsFinite max
      → r.IsFinite v
      → fl.le min v ≡ true
      → fl.le v max ≡ true
      → Divides min max rng
      → (k : ℕ) × (index_of min rng v ≡ pos k) × (k ≤ 7)
  unfolding index_of
  index_of-bounded min max rng v fmin fmax fv a b d =
      let low : fl.le (fl.of_nat 0) (fl.sub v min) ≡ true =
        rw (← r.sub_self min fmin) (r.sub_mono min min v fmin fmin fv a) in
      let high = d.holds (fl.sub v min) (r.sub_mono min v max fmin fv fmax b) in
      let (q0, q1) = r.div_range (fl.sub v min) rng d.finite d.not_zero low high in
      let (p0, p1) = r.mul_range (fl.div (fl.sub v min) rng) 7 (omega arith) q0 q1 in
      let (k, e, le) = r.to_int_range _ 7 (omega arith) p0 p1 in (k, rw e (ground arith), le)

  has_block : (k : ℕ) → k ≤ 7 → (t : Text) × (at_index blocks (pos k) ≡ some t)
  unfolding blocks
  has_block k h = get_elem?-some blocks k (omega arith)

  render_from-some :
      (look : Look) (min max : F) (before : Option F) (vs : List F)
      → r.IsFinite min
      → r.IsFinite max
      → r.IsFinite (fl.sub max min)
      → All r.IsFinite vs
      → All (λ v. (fl.le min v ≡ true) × (fl.le v max ≡ true)) vs
      → (t : Text) × (render_from look min (spread (min, max)) before vs ≡ some t)
  unfolding render_from with_block
  render_from-some look min max before [] fmin fmax fr f h = ([], refl)
  render_from-some look min max before (v ∷ vs) fmin fmax fr f h =
      let (k, at, le) =
        index_of-bounded min max (spread (min, max)) v fmin fmax f.0 h.0.0 h.0.1
          (spread-Divides min max fr) in
      let (char, found) = has_block k le in
      let (rest, drawn) = render_from-some look min max (some v) vs fmin fmax fr f.1 h.1 in
      (coloured look before v char ++ rest, rw (at, found, drawn) refl)

  -- With finite values whose least and greatest have a finite difference, drawing the sparkline does
  -- not panic: the least and the greatest value bound the others, and every value has one of the
  -- eight blocks.
  pub render_sparkline-some :
      (look : Look) (v : F) (vs : List F)
      → All r.IsFinite (v ∷ vs)
      → r.IsFinite (fl.sub (span v v (v ∷ vs)).1 (span v v (v ∷ vs)).0)
      → Spans v v (v ∷ vs) (span v v (v ∷ vs))
        × ((t : Text) × (render_sparkline look (v ∷ vs) ≡ some t))
  unfolding render_sparkline
  render_sparkline-some look v vs f fr =
      let s = span-Spans v v (v ∷ vs) f.0 f.0 f in
      (s, render_from-some look _ _ none (v ∷ vs) s.least s.greatest fr f s.covers)
