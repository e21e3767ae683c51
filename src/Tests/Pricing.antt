-- ===== src/Tests/Pricing.antt =====
-- The pricing engine on decimal numbers with six places: one commodity worth 1000, rented for 2.50 a day.
use rent_auto.Prelude.{true, false, none, ℤ, pos, ◌≡◌, ◌≢◌, ◌<ℤ◌, refl, arith, eq_iff, some}
use rent_auto.Domain.{channel_uu, channel_eco}
use rent_auto.Float.{◌≼◌, cents, Num}
use rent_auto.Float.Fixed.{Fixed, num, fixed_double, Fixed-IsDouble}
use rent_auto.Pricing.{Input, Current, Params, default_params, zero_f, round2, round4, clamp}
use rent_auto.Pricing.Controller.{rent_success, bought_out, stale_day, no_event, next_factor}
use rent_auto.Pricing.Controller.Range.{IsSaneCtrl, next_factor_range}
use rent_auto.Pricing.Controller.Order.{next_factor_order}
use rent_auto.Pricing.Decide.{
  decide, target, raw_floor, raw_ceiling, quantized_floor, quantized_ceiling, final_rent, eco_days,
  derived_deposit, channel_terms, conclude,
}
use rent_auto.Pricing.Decide.Band.{IsSane, decide-rent_band, decide-long-le-rent, decide-no_long}

abbrev pub params : Params Fixed
params = default_params

abbrev fresh : Current Fixed
fresh = record {
  rent_price = num 0;
  last_action_at = none;
  long_price = num 0;
  deposit = num 0;
  max_days = pos 0;
  terms_known = false;
}

abbrev pub on_eco : Input Fixed
on_eco = record {
  channel = channel_eco;
  has_v = true;
  v = num 1_000_000_000;
  base = record { short = num 2_500_000; long = num 2_300_000; deposit = num 900_000_000 };
  has_base = true;
  factor = num 1_000_000;
  cur = fresh;
  p = params;
  now = 0;
  rent_max_day_min = pos 8;
  rent_max_day_max = pos 90;
  ignore_noise_floor = false;
}

abbrev on_uu : Input Fixed
on_uu = record on_eco { channel = channel_uu }

-- rented out for seven days at most
abbrev on_uu_week : Input Fixed
on_uu_week = record on_uu { p = record params { uu_max_days = pos 7 } }

-- last changed an hour before now
abbrev cooled : Input Fixed
cooled = record on_eco {
  cur = record fresh { last_action_at = some 1_000_000_000 };
  now = 3_601_000_000_000;
}

accepted_eco : (decide on_eco).ok ≡ true
unfolding decide target raw_floor raw_ceiling quantized_floor quantized_ceiling final_rent eco_days
    derived_deposit channel_terms conclude clamp round2
accepted_eco = refl

accepted_week : (decide on_uu_week).ok ≡ true
unfolding decide target raw_floor raw_ceiling quantized_floor quantized_ceiling final_rent eco_days
    derived_deposit channel_terms conclude clamp round2
accepted_week = refl

week_days : (decide on_uu_week).max_days <ℤ pos 8
unfolding decide target raw_floor raw_ceiling quantized_floor quantized_ceiling final_rent eco_days
    derived_deposit channel_terms conclude clamp round2
week_days = omega arith

IsSane-eco : IsSane Fixed-IsDouble on_eco
unfolding target clamp
IsSane-eco = record {
  min_nonneg = refl;
  max_small = refl;
  num_target = refl;
  num_ratio = refl;
  num_low = refl;
  num_high = refl;
}

Num-ceiling : Num (quantized_ceiling on_eco)
unfolding quantized_ceiling raw_ceiling
Num-ceiling = refl

IsSane-week : IsSane Fixed-IsDouble on_uu_week
unfolding target clamp
IsSane-week = record {
  min_nonneg = refl;
  max_small = refl;
  num_target = refl;
  num_ratio = refl;
  num_low = refl;
  num_high = refl;
}

Num-ceiling_week : Num (quantized_ceiling on_uu_week)
unfolding quantized_ceiling raw_ceiling
Num-ceiling_week = refl

decide-rent_band_example :
    ((n : ℤ) × ((decide on_eco).rent ≡ cents n))
    × (zero_f ≼ (decide on_eco).rent)
    × (quantized_floor on_eco ≼ (decide on_eco).rent)
    × ((decide on_eco).rent ≼ quantized_ceiling on_eco)
decide-rent_band_example =
    decide-rent_band Fixed-IsDouble on_eco IsSane-eco Num-ceiling accepted_eco

decide-long-le-rent_example :
    (zero_f ≼ (decide on_eco).long) × ((decide on_eco).long ≼ (decide on_eco).rent)
decide-long-le-rent_example =
    decide-long-le-rent Fixed-IsDouble on_eco IsSane-eco Num-ceiling accepted_eco

uu-not-eco : channel_uu ≢ channel_eco
uu-not-eco = ground (arith, eq_iff channel_uu channel_eco)

decide-no_long_example : (zero_f ≼ (decide on_uu_week).long) × ((decide on_uu_week).long ≼ zero_f)
decide-no_long_example =
    decide-no_long Fixed-IsDouble on_uu_week IsSane-week Num-ceiling_week uu-not-eco accepted_week
      week_days

sane_ctrl : IsSaneCtrl Fixed-IsDouble params.ctrl
sane_ctrl = record { ordered = refl; up = refl; double_up = refl; down = refl }

next_factor_range_example :
    (round4 params.ctrl.f_min ≼ (next_factor (num 1_240_000) rent_success params.ctrl).0)
    × ((next_factor (num 1_240_000) rent_success params.ctrl).0 ≼ round4 params.ctrl.f_max)
next_factor_range_example =
    next_factor_range Fixed-IsDouble (num 1_240_000) rent_success params.ctrl sane_ctrl

next_factor_order_example :
    ((next_factor (num 1_240_000) stale_day params.ctrl).0
      ≼ (next_factor (num 1_240_000) no_event params.ctrl).0)
    × ((next_factor (num 1_240_000) no_event params.ctrl).0
        ≼ (next_factor (num 1_240_000) rent_success params.ctrl).0)
    × ((next_factor (num 1_240_000) rent_success params.ctrl).0
        ≼ (next_factor (num 1_240_000) bought_out params.ctrl).0)
next_factor_order_example =
    next_factor_order Fixed-IsDouble (num 1_240_000) params.ctrl sane_ctrl refl refl
