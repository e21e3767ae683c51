-- ===== src/Pricing/Decide/Band.antt =====
-- The price band: an accepted rent is a whole number of cents between the quantized bounds, and the
-- long rent is no higher.
use rent_auto.Prelude.{
  ◌^◌, true, false, ◌≡◌, ◌≢◌, ◌<ℤ◌, eq_iff, ◌⊎◌, inl, inr, ℤ, pos, arith, ap, Bool-cases,
}
use rent_auto.Domain.{channel_eco}
use rent_auto.Float.{Double, finite, ◌≼◌, Num, cents, IsDouble}
use rent_auto.Pricing.{Input, clamp, zero_f}
use rent_auto.Pricing.Rounding.{round2-amount, round2_band, clamp_band}
use rent_auto.Pricing.Decide.{
  decide, target, quantized_floor, quantized_ceiling, raw_floor, raw_ceiling, ratio_floor,
  has_ratio_floor, final_rent, final_long, channel_terms, agreed,
}
use rent_auto.Pricing.Decide.Guards.{decide-Accepted}

module _ {F : Type 0} ⦃d : Double F⦄ (laws : IsDouble F) where
  open d use {le, lt, add, sub, mul, div, fmin, fmax, of_int, to_int, lit, ceil, floor}
  open laws use {
    num_of_le, le_refl, le_trans, le_total, lt-eq-not-le, finite_lit, fmax_left, fmax_right,
    fmax_cases, fmin_left, fmin_right, fmin_cases, add_mono, mul_mono, sub_mono, div_mono,
    floor_mono, ceil_mono, floor_int, ceil_int, zero_cents, ceil_of_zero, floor_of_limit,
  }

  -- The guardrails are amounts, and no product of the inputs is a NaN: so for finite parameters.
  pub record IsSane (i : Input F) : Type 0 where
    pub min_nonneg : zero_f ≼ i.p.guard.min_rent
    pub max_small : i.p.guard.max_rent ≼ lit (10 ^ 12) 0
    pub num_target : Num (target i)
    pub num_ratio : Num (mul i.p.baseline.min_lease_ratio i.v)
    pub num_low : Num (mul i.cur.rent_price (sub (lit 1 0) i.p.guard.max_change_ratio))
    pub num_high : Num (mul i.cur.rent_price (add (lit 1 0) i.p.guard.max_change_ratio))

  Num-of_finite : (x : F) → finite x ≡ true → Num x
  Num-of_finite x h = ground arith

  fmax_above : (x y z : F) → x ≼ y → Num z → x ≼ fmax y z
  fmax_above x y z h n =
      let ny = (num_of_le x y h).1 in le_trans x y (fmax y z) h (fmax_left y z ny n)

  ratio_floor_nonneg : (i : Input F) → IsSane i → zero_f ≼ ratio_floor i
  ratio_floor_nonneg i s = elim (Bool-cases (has_ratio_floor i)) [
    | inl e ↦ rw e (fmax_above zero_f _ _ s.min_nonneg s.num_ratio)
    | inr e ↦ rw e s.min_nonneg
  ]

  raw_floor_nonneg : (i : Input F) → IsSane i → zero_f ≼ raw_floor i
  unfolding raw_floor
  raw_floor_nonneg i s = elim (Bool-cases (lt zero_f i.cur.rent_price)) [
    | inl e ↦ rw e (fmax_above zero_f _ _ (ratio_floor_nonneg i s) s.num_low)
    | inr e ↦ rw e (ratio_floor_nonneg i s)
  ]

  raw_ceiling_small : (i : Input F) → IsSane i → raw_ceiling i ≼ lit (10 ^ 12) 0
  unfolding raw_ceiling
  raw_ceiling_small i s = elim (Bool-cases (lt zero_f i.cur.rent_price)) [
    | inl e ↦
        rw e (le_trans _ _ _ (fmin_left _ _ (num_of_le _ _ s.max_small).0 s.num_high) s.max_small)
    | inr e ↦ rw e s.max_small
  ]

  floor_nonneg : (i : Input F) → IsSane i → zero_f ≼ quantized_floor i
  unfolding quantized_floor
  floor_nonneg i s = le_trans _ _ _ ceil_of_zero (
      div_mono _ _ 99 0
        (ceil_mono _ _ (sub_mono _ _ 1 9 (mul_mono _ _ 99 0 (raw_floor_nonneg i s)))))

  ceiling_small : (i : Input F) → IsSane i → quantized_ceiling i ≼ lit (10 ^ 13) 0
  unfolding quantized_ceiling
  ceiling_small i s =
      le_trans _ _ _
        (div_mono _ _ 99 0
          (floor_mono _ _ (add_mono _ _ 1 9 (mul_mono _ _ 99 0 (raw_ceiling_small i s)))))
        floor_of_limit

  quantized_floor-cents :
      (i : Input F)
      → IsSane i
      → quantized_floor i ≼ lit (10 ^ 13) 0
      → (n : ℤ) × (quantized_floor i ≡ cents n)
  unfolding quantized_floor
  quantized_floor-cents i s h =
      let (n, e) = ceil_int (sub (mul (raw_floor i) (lit 100 0)) (lit 1 9)) (floor_nonneg i s) h in
      (n, ap (λ x. div x (lit 100 0)) e)

  quantized_ceiling-cents :
      (i : Input F)
      → IsSane i
      → zero_f ≼ quantized_ceiling i
      → (n : ℤ) × (quantized_ceiling i ≡ cents n)
  unfolding quantized_ceiling
  quantized_ceiling-cents i s h =
      let (n, e) =
        floor_int (add (mul (raw_ceiling i) (lit 100 0)) (lit 1 9)) h (ceiling_small i s) in
      (n, ap (λ x. div x (lit 100 0)) e)

  -- The bounds that the guards found consistent.
  record Bounds (i : Input F) : Type 0 where
    low : zero_f ≼ quantized_floor i
    mid : quantized_floor i ≼ quantized_ceiling i
    high : quantized_ceiling i ≼ lit (10 ^ 13) 0

  Bounds-of :
      (i : Input F)
      → IsSane i
      → Num (quantized_ceiling i)
      → lt (quantized_ceiling i) (quantized_floor i) ≡ false
      → Bounds i
  Bounds-of i s nc h =
      let low = floor_nonneg i s in
      record {
        low = low;
        mid = ground (
          arith,
          lt-eq-not-le (quantized_ceiling i) (quantized_floor i) nc (num_of_le _ _ low).1,
        );
        high = ceiling_small i s;
      }

  final_rent_band :
      (i : Input F)
      → IsSane i
      → Bounds i
      → (quantized_floor i ≼ final_rent i) × (final_rent i ≼ quantized_ceiling i)
  unfolding final_rent
  final_rent_band i s b =
      let v = clamp (target i) (quantized_floor i) (quantized_ceiling i) in
      let (lo, hi) =
        clamp_band laws (target i) (quantized_floor i) (quantized_ceiling i) s.num_target b.mid in
      let (n, en) = quantized_floor-cents i s (le_trans _ _ _ b.mid b.high) in
      let (m, em) = quantized_ceiling-cents i s (le_trans _ _ _ b.low b.mid) in
      round2_band laws (quantized_floor i) v (quantized_ceiling i) n m en em b.low lo hi b.high

  final_rent-cents : (i : Input F) → IsSane i → Bounds i → (n : ℤ) × (final_rent i ≡ cents n)
  unfolding final_rent
  final_rent-cents i s b =
      let v = clamp (target i) (quantized_floor i) (quantized_ceiling i) in
      let (lo, hi) =
        clamp_band laws (target i) (quantized_floor i) (quantized_ceiling i) s.num_target b.mid in
      (
        _,
        round2-amount laws v
            (record { nonneg = le_trans _ _ _ b.low lo; small = le_trans _ _ _ hi b.high }),
      )

  -- For inputs that are sane, with a ceiling that is a number, an accepted rent is a whole number
  -- of cents, not negative, and lies between the floor and the ceiling that the guardrails, the
  -- value ratio and the change-rate cap leave, rounded inwards to cents.
  pub decide-rent_band :
      (i : Input F)
      → IsSane i
      → Num (quantized_ceiling i)
      → (decide i).ok ≡ true
      → ((n : ℤ) × ((decide i).rent ≡ cents n))
        × (zero_f ≼ (decide i).rent)
        × (quantized_floor i ≼ (decide i).rent)
        × ((decide i).rent ≼ quantized_ceiling i)
  decide-rent_band i s nc ok =
      let a = decide-Accepted i ok in
      let b = Bounds-of i s nc a.consistent in
      let (lo, hi) = final_rent_band i s b in
      let (n, e) = final_rent-cents i s b in rw a.rent_eq ((n, e), le_trans _ _ _ b.low lo, lo, hi)

  -- The long rent that a channel agrees to.
  agreed_long :
      (i : Input F) (rent : F) (days : ℤ) (long dep : F)
      → channel_terms i rent ≡ agreed days long dep
      → (long ≡ fmin (mul rent (lit 98 2)) i.base.long) ⊎ (long ≡ zero_f)
  unfolding channel_terms
  agreed_long i rent days long dep e = ground arith

  Num-agreed_long :
      (i : Input F) (rent : F) (days : ℤ) (long dep : F)
      → channel_terms i rent ≡ agreed days long dep
      → Num rent
      → Num i.base.long
      → Num long
  Num-agreed_long i rent days long dep e nr nb = elim (agreed_long i rent days long dep e) [
    | inr z ↦ rw z (Num-of_finite zero_f (finite_lit 0 0))
    | inl m ↦
        let scaled = mul rent (lit 98 2) in
        let ns = (num_of_le scaled scaled (mul_mono rent rent 97 2 (le_refl rent nr))).0 in
        rw m (num_of_le _ _ (fmin_left scaled i.base.long ns nb)).0
  ]

  final_long_band :
      (rent long : F) (n : ℤ)
      → rent ≡ cents n
      → Num long
      → zero_f ≼ rent
      → rent ≼ lit (10 ^ 13) 0
      → (zero_f ≼ final_long long rent) × (final_long long rent ≼ rent)
  final_long_band rent long n e nl a b =
      let nr = (num_of_le _ _ a).1 in
      let lower = fmin_right long rent nl nr in
      let nm = (num_of_le _ _ lower).0 in
      let nz = (num_of_le _ _ a).0 in
      let x = fmax (fmin long rent) zero_f in
      let below : x ≼ rent = elim (fmax_cases (fmin long rent) zero_f nm nz) [
        | inl q ↦ rw q lower
        | inr q ↦ rw q a
      ] in
      round2_band laws zero_f x rent (pos 0) n zero_cents e (le_refl zero_f nz)
        (fmax_right (fmin long rent) zero_f nm nz) below b

  -- For inputs that are sane, with a ceiling that is a number, the long rent of an accepted
  -- decision is not negative and no higher than its rent.
  pub decide-long-le-rent :
      (i : Input F)
      → IsSane i
      → Num (quantized_ceiling i)
      → (decide i).ok ≡ true
      → (zero_f ≼ (decide i).long) × ((decide i).long ≼ (decide i).rent)
  decide-long-le-rent i s nc ok =
      let a = decide-Accepted i ok in
      let b = Bounds-of i s nc a.consistent in
      let (lo, hi) = final_rent_band i s b in
      let (n, e) = final_rent-cents i s b in
      let nonneg = le_trans _ _ _ b.low lo in
      let num_base : Num i.base.long = ground (arith, a.real) in
      let num_long =
        Num-agreed_long i (final_rent i) a.days a.long a.dep a.terms (num_of_le _ _ nonneg).1
          num_base in
      rw (a.long_eq, a.rent_eq)
        (final_long_band (final_rent i) a.long n e num_long nonneg (le_trans _ _ _ hi b.high))

  no_long :
      (rent : F)
      → zero_f ≼ rent
      → rent ≼ lit (10 ^ 13) 0
      → (zero_f ≼ final_long zero_f rent) × (final_long zero_f rent ≼ zero_f)
  no_long rent a b =
      let (nz, nr) = num_of_le _ _ a in
      let lower = fmin_left zero_f rent nz nr in
      let nm = (num_of_le _ _ lower).0 in
      let x = fmax (fmin zero_f rent) zero_f in
      let below : x ≼ zero_f = elim (fmax_cases (fmin zero_f rent) zero_f nm nz) [
        | inl q ↦ rw q lower
        | inr q ↦ rw q (le_refl zero_f nz)
      ] in
      round2_band laws zero_f x zero_f (pos 0) (pos 0) zero_cents zero_cents (le_refl zero_f nz)
        (fmax_right (fmin zero_f rent) zero_f nm nz) below (le_trans _ _ _ a b)

  short_terms :
      (i : Input F) (rent : F) (days : ℤ) (long dep : F)
      → i.channel ≢ channel_eco
      → channel_terms i rent ≡ agreed days long dep
      → days <ℤ pos 8
      → long ≡ zero_f
  unfolding channel_terms
  short_terms i rent days long dep e h s = ground (arith, eq_iff i.channel channel_eco)

  -- For inputs that are sane, with a ceiling that is a number, an accepted decision for fewer than eight
  -- days on a channel other than ECO offers no long rent: it is zero after all rounding.
  pub decide-no_long :
      (i : Input F)
      → IsSane i
      → Num (quantized_ceiling i)
      → i.channel ≢ channel_eco
      → (decide i).ok ≡ true
      → (decide i).max_days <ℤ pos 8
      → (zero_f ≼ (decide i).long) × ((decide i).long ≼ zero_f)
  decide-no_long i s nc other ok few =
      let a = decide-Accepted i ok in
      let b = Bounds-of i s nc a.consistent in
      let (lo, hi) = final_rent_band i s b in
      let nonneg = le_trans _ _ _ b.low lo in
      let few_agreed : a.days <ℤ pos 8 = (rw a.days_eq at few) in
      let none_agreed = short_terms i (final_rent i) a.days a.long a.dep other a.terms few_agreed in
      rw (a.long_eq, none_agreed) (no_long (final_rent i) nonneg (le_trans _ _ _ hi b.high))
