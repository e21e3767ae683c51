-- ===== src/Pricing/Rounding.antt =====
-- Laws of `Round2` and the clamps: on amounts up to 10 ^ 13 rounding is monotone and leaves cents
-- alone.
use rent_auto.Prelude.{◌^◌, true, false, ◌≡◌, inl, inr, sym, ℤ, ◌≤ℤ◌, subst, ap, ◌∙◌, Bool-cases}
use rent_auto.Float.{Double, finite, ◌≼◌, Num, cents, IsDouble}
use rent_auto.Pricing.{round2, clamp, zero_f}

module _ {F : Type 0} ⦃d : Double F⦄ (laws : IsDouble F) where
  open d use {le, lt, add, sub, mul, div, fmin, fmax, of_int, to_int, lit}
  open laws use {
    num_of_le, le_refl, le_trans, le_total, finite_lit, finite_between, fmax_left, fmax_right,
    fmax_cases, fmin_left, fmin_right, fmin_cases, add_mono, mul_mono, div_mono, of_int_mono,
    to_int_mono, cents_exact, below_zero, within_limit, half_up,
  }

  -- an amount that `Round2` takes, and rounds to cents
  pub record IsAmount (v : F) : Type 0 where
    pub nonneg : zero_f ≼ v
    pub small : v ≼ lit (10 ^ 13) 0

  not_le_trans : (x y z : F) → x ≼ y → le x z ≡ false → le y z ≡ false
  not_le_trans x y z h n = elim (Bool-cases (le y z)) [
    | inl e ↦ cc (le_trans x y z h e)
    | inr e ↦ e
  ]

  below_limit : (v : F) → v ≼ lit (10 ^ 13) 0 → le (lit (10 ^ 15) 0) v ≡ false
  below_limit v h = elim (Bool-cases (le (lit (10 ^ 15) 0) v)) [
    | inl e ↦ cc (le_trans (lit (10 ^ 15) 0) v (lit (10 ^ 13) 0) e h, within_limit)
    | inr e ↦ e
  ]

  pub finite_of_amount : (v : F) → IsAmount v → finite v ≡ true
  finite_of_amount v a =
      finite_between zero_f v (lit (10 ^ 13) 0) (finite_lit 0 0) (finite_lit (10 ^ 13) 0) a.nonneg
        a.small

  pub round2-amount :
      (v : F) → IsAmount v → round2 v ≡ cents (to_int (add (mul v (lit 100 0)) (lit 5 1)))
  unfolding round2
  round2-amount v a = rw (
    finite_of_amount v a,
    below_limit v a.small,
    not_le_trans zero_f v (sub zero_f (lit (10 ^ 15) 0)) a.nonneg below_zero,
    a.nonneg,
  )

  abbrev scaled : F → F
  scaled v = add (mul v (lit 100 0)) (lit 5 1)

  scaled_mono : (x y : F) → x ≼ y → scaled x ≼ scaled y
  scaled_mono x y h = add_mono _ _ 5 1 (mul_mono x y 99 0 h)

  pub cents_mono : (n m : ℤ) → n ≤ℤ m → cents {F = F} n ≼ cents m
  cents_mono n m h = div_mono _ _ 99 0 (of_int_mono n m h)

  -- Rounding keeps the order of amounts.
  pub round2_mono : (x y : F) → zero_f ≼ x → x ≼ y → y ≼ lit (10 ^ 13) 0 → round2 x ≼ round2 y
  round2_mono x y a b c =
      let ax : IsAmount x = record { nonneg = a; small = le_trans x y (lit (10 ^ 13) 0) b c } in
      let ay : IsAmount y = record { nonneg = le_trans zero_f x y a b; small = c } in
      rw (round2-amount x ax, round2-amount y ay)
        (cents_mono (to_int (scaled x)) (to_int (scaled y)) (
          to_int_mono (scaled x) (scaled y)
            (le_trans zero_f (scaled zero_f) (scaled x) half_up (scaled_mono zero_f x a))
            (scaled_mono x y b) (scaled_mono y (lit (10 ^ 13) 0) c)))

  -- Rounding leaves an amount of whole cents alone.
  pub round2-cents : (n : ℤ) → IsAmount (cents n) → round2 (cents n) ≡ cents {F = F} n
  round2-cents n a = round2-amount (cents n) a ∙ ap cents (cents_exact n a.nonneg a.small)

  -- `clampF` between consistent bounds.
  pub clamp_band : (v lo hi : F) → Num v → lo ≼ hi → (lo ≼ clamp v lo hi) × (clamp v lo hi ≼ hi)
  unfolding clamp
  clamp_band v lo hi n h =
      let (nl, nh) = num_of_le lo hi h in
      let up : lo ≼ fmax v lo = fmax_right v lo n nl in
      let nm = (num_of_le lo (fmax v lo) up).1 in
      (
        elim (fmin_cases (fmax v lo) hi nm nh) [ inl e ↦ rw e up | inr e ↦ rw e h ],
        fmin_right (fmax v lo) hi nm nh,
      )

  -- Between bounds of whole cents the rounded value stays between them.
  pub round2_band :
      (lo v hi : F) (n m : ℤ)
      → lo ≡ cents n
      → hi ≡ cents m
      → zero_f ≼ lo
      → lo ≼ v
      → v ≼ hi
      → hi ≼ lit (10 ^ 13) 0
      → (lo ≼ round2 v) × (round2 v ≼ hi)
  round2_band lo v hi n m en em a b c h =
      let fixed = λ (x : F) (k : ℤ) (e : x ≡ cents k) (w : IsAmount x).
        ap round2 e ∙ round2-cents k (subst IsAmount e w) ∙ sym e in
      let vh = le_trans v hi (lit (10 ^ 13) 0) c h in
      let va = le_trans zero_f lo v a b in
      let lo_fixed : round2 lo ≡ lo =
        fixed lo n en (record { nonneg = a; small = le_trans lo v _ b vh }) in
      let hi_fixed : round2 hi ≡ hi =
        fixed hi m em (record { nonneg = le_trans zero_f v _ va c; small = h }) in
      (
        subst (λ x. x ≼ round2 v) lo_fixed (round2_mono lo v a b vh),
        subst (λ x. round2 v ≼ x) hi_fixed (round2_mono v hi va c h),
      )
