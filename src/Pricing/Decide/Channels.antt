-- ===== src/Pricing/Decide/Channels.antt =====
-- The terms of an ECO decision: the derived deposit under its cap, and the days of the channel.
use rent_auto.Prelude.{true, false, ◌≡◌, ℤ, pos, ◌≤ℤ◌, ◌<ℤ◌, arith, refl, eq_iff}
use rent_auto.Domain.{channel_eco}
use rent_auto.Float.{Double}
use rent_auto.Pricing.{Input, round2}
use rent_auto.Pricing.Decide.{
  agreed, decide, conclude, channel_terms, final_rent, quantized_floor, quantized_ceiling,
  has_anchor, has_baseline, all_finite, eco_days, derived_deposit, exceeds_cap,
}
use rent_auto.Pricing.Decide.Guards.{decide-Accepted}

module _ {F : Type 0} ⦃d : Double F⦄ where
  open d use {lt, mul, fmin, fmax, lit}

  abbrev pub eco_derived : Input F → F
  eco_derived i =
      derived_deposit i (final_rent i) (fmin (mul (final_rent i) (lit 98 2)) i.base.long)
        (eco_days i)

  -- On ECO, where the anchor, the baseline and the bounds are in order and the inputs finite, a
  -- deposit above the cap refuses the decision with that reason, at every time and whatever the
  -- last action was: cooldown and noise do not hide it.
  pub decide_cap_first :
      (i : Input F)
      → has_anchor i ≡ true
      → has_baseline i ≡ true
      → all_finite i ≡ true
      → lt (quantized_ceiling i) (quantized_floor i) ≡ false
      → i.channel ≡ channel_eco
      → exceeds_cap i (eco_derived i) ≡ true
      → ((decide i).ok ≡ false) × ((decide i).skip_reason ≡ "deposit_cap_exceeded")
  unfolding decide channel_terms conclude
  decide_cap_first i a b f c e x =
      rw (a, b, f, c, (eq_iff i.channel channel_eco).1 e, x) (refl, refl)

  eco_agreed :
      (i : Input F) (rent : F) (days : ℤ) (long dep : F)
      → i.channel ≡ channel_eco
      → channel_terms i rent ≡ agreed days long dep
      → (days ≡ eco_days i)
        × (dep ≡ derived_deposit i rent (fmin (mul rent (lit 98 2)) i.base.long) (eco_days i))
        × (exceeds_cap i dep ≡ false)
  unfolding channel_terms
  eco_agreed i rent days long dep e h = ground (arith, eq_iff i.channel channel_eco)

  -- An accepted ECO decision carries the derived deposit, which does not exceed the cap, and the days
  -- of the channel.
  pub decide-eco_terms :
      (i : Input F)
      → i.channel ≡ channel_eco
      → (decide i).ok ≡ true
      → ((decide i).deposit ≡ round2 (eco_derived i))
        × (exceeds_cap i (eco_derived i) ≡ false)
        × ((decide i).max_days ≡ eco_days i)
  decide-eco_terms i e ok =
      let a = decide-Accepted i ok in
      let (days, dep, cap) = eco_agreed i (final_rent i) a.days a.long a.dep e a.terms in
      ground (arith, a.deposit_eq, a.days_eq, days, dep, cap)

  -- The days of an ECO decision lie within the channel's, where these are set and consistent.
  pub eco_days_range :
      (i : Input F)
      → pos 0 <ℤ i.rent_max_day_min
      → i.rent_max_day_min ≤ℤ i.rent_max_day_max
      → (i.rent_max_day_min ≤ℤ eco_days i) × (eco_days i ≤ℤ i.rent_max_day_max)
  unfolding eco_days
  eco_days_range i a b = ground arith
