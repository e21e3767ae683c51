-- ===== src/Pricing/Baseline.antt =====
-- backend/internal/pricing/engine.go: reference prices from the market's offers.
use rent_auto.Prelude.{
  ℕ, ◌+◌, Bool, true, false, ◌&&◌, List, [], ◌∷◌, ◌++◌, pos, leb_ℤ, pos_part, ltb, length, take,
  if◌then◌else◌,
}
use rent_auto.Float.{Double, finite}
use rent_auto.Pricing.{Quote, BaselineParams, Base, round2, clamp, pos_finite, zero_f}

-- shorts, longs and deps
pub record Samples (F : Type 0) : Type 0 where
  pub shorts : List F
  pub longs : List F
  pub deps : List F

module _ {F : Type 0} ⦃d : Double F⦄ where
  open d use {lt, sub, mul, div, add, fmin, fmax, of_int, lit, inf}

  unfoldable pub sample : ℕ → Quote F → Samples F → Samples F
  sample i q s =
      let t =
        if pos_finite q.short && ltb i 10
        then record s {
          shorts = s.shorts ++ (q.short ∷ []);
          deps = if pos_finite q.deposit then s.deps ++ (q.deposit ∷ []) else s.deps;
        }
        else s in
      if pos_finite q.long then record t { longs = t.longs ++ (q.long ∷ []) } else t

  unfoldable pub sample_all : ℕ → List (Quote F) → Samples F → Samples F
  unfolding sample
  sample_all i [] s = s
  sample_all i (q ∷ qs) s = sample_all (i + 1) qs (sample i q s)

  unfoldable pub sum : F → List F → F
  sum s [] = s
  sum s (x ∷ xs) = sum (add s x) xs

  unfoldable pub mean : List F → F
  unfolding sum
  mean [] = zero_f
  mean (x ∷ xs) = div (sum zero_f (x ∷ xs)) (of_int (pos (length (x ∷ xs))))

  -- `minF`, from v[0] over v[1:]
  unfoldable pub min_from : F → List F → F
  min_from m [] = m
  min_from m (x ∷ xs) = min_from (if lt x m then x else m) xs

  -- `none` of the lists is empty where its head is read
  abbrev pub base_short : F → List F → BaselineParams F → F → F
  base_short first shorts p v =
      let short = clamp (mul (mean shorts) p.k1) (fmax first (lit 1 2)) inf in
      if lt zero_f p.min_lease_ratio && (lt zero_f v && finite (mul p.min_lease_ratio v))
      then fmax short (mul p.min_lease_ratio v)
      else short

  abbrev pub base_long : F → List F → BaselineParams F → F
  base_long short [] p = fmax (sub short (lit 1 2)) (lit 1 2)
  base_long short (first ∷ longs) p =
      fmax (fmin (mul short (lit 98 2)) (mul (mean (first ∷ longs)) p.k2)) (fmax first (lit 1 2))

  abbrev pub base_deposit : List F → BaselineParams F → F
  base_deposit [] p = zero_f
  base_deposit (x ∷ deps) p = fmax (mul (mean (x ∷ deps)) p.k3) (min_from x deps)

  abbrev pub base_of : Samples F → List F → BaselineParams F → F → Base F × Bool
  base_of s [] p v = (record { short = zero_f; long = zero_f; deposit = zero_f }, false)
  base_of s (first ∷ rest) p v =
      let short = base_short first (first ∷ rest) p v in
      let long = base_long short s.longs p in
      (
        record {
          short = round2 short;
          long = round2 (fmin long short);
          deposit = round2 (base_deposit s.deps p);
        },
        true,
      )

  unfoldable pub top_n : BaselineParams F → ℕ
  top_n p = if leb_ℤ p.top_n (pos 0) then 15 else pos_part p.top_n

  unfoldable pub baseline : List (Quote F) → BaselineParams F → F → Base F × Bool
  unfolding sample_all mean min_from top_n round2 clamp
  baseline quotes p v =
      let s =
        sample_all 0 (take (top_n p) quotes) (record { shorts = []; longs = []; deps = [] }) in
      base_of s s.shorts p v
