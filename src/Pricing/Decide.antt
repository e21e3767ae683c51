-- ===== src/Pricing/Decide.antt =====
-- backend/internal/pricing/engine.go: `Decide`, the next listing parameters of one channel and template.
pub mod Guards
pub mod Band
pub mod Channels
use rent_auto.Prelude.{
  ℕ, ◌+◌, ◌*◌, String, Bool, true, false, not, ◌&&◌, ◌||◌, ◌==◌, Option, none, some, List, [], ◌∷◌,
  ◌++◌, ℤ, pos, ltb_ℤ, eqb_ℤ, pos_part, neg_part, ltb, if◌then◌else◌, text_append,
}
use rent_auto.Domain.{channel_eco}
use rent_auto.Float.{Double, finite}
use rent_auto.Pricing.{Guardrails, Params, Input, Current, Decision, round2, clamp, zero_f}

-- a minute, in nanoseconds
abbrev pub minute : ℕ
minute = 60_000_000_000

-- `Now.Sub(LastActionAt) < cd`, and not the zero time
abbrev pub in_cooldown : ℕ → Option ℕ → ℤ → Bool
in_cooldown now none minutes = false
in_cooldown now (some last) minutes =
    ltb (now + neg_part minutes * minute) (last + pos_part minutes * minute)

-- days, long and deposit; or the reasons of `deposit_cap_exceeded`
pub data Terms (F : Type 0) : Type 0 where
  agreed : ℤ → F → F → Terms F
  refused : List String → Terms F

module _ {F : Type 0} ⦃d : Double F⦄ where
  open d use {lt, le, eq, add, sub, mul, div, fmin, fmax, abs, ceil, floor, of_int, lit, format}

  abbrev pub skip : String → List String → Decision F
  skip reason reasons = record {
    ok = false;
    skip_reason = reason;
    reasons = reasons;
    rent = zero_f;
    long = zero_f;
    max_days = pos 0;
    deposit = zero_f;
  }

  abbrev pub factor_of : Input F → F
  factor_of i = clamp i.factor i.p.ctrl.f_min i.p.ctrl.f_max

  -- the target rent, within the absolute bounds
  unfoldable pub target : Input F → F
  target i =
      let g = i.p.guard in
      let rent = mul i.base.short (factor_of i) in
      let raised = if lt rent g.min_rent then g.min_rent else rent in
      if lt g.max_rent raised then g.max_rent else raised

  abbrev pub has_ratio_floor : Input F → Bool
  has_ratio_floor i =
      lt zero_f i.p.baseline.min_lease_ratio && finite (mul i.p.baseline.min_lease_ratio i.v)

  abbrev pub ratio_floor : Input F → F
  ratio_floor i =
      let g = i.p.guard in
      if has_ratio_floor i
      then fmax g.min_rent (mul i.p.baseline.min_lease_ratio i.v)
      else g.min_rent

  abbrev pub ratio_reasons : Input F → List String
  ratio_reasons i =
      if has_ratio_floor i && lt (target i) (ratio_floor i)
      then text_append "min_lease_ratio_floor=" (format 2 (round2 (ratio_floor i))) ∷ []
      else []

  -- floor and ceiling, before and after the directed quantization
  unfoldable pub raw_floor : Input F → F
  raw_floor i =
      if lt zero_f i.cur.rent_price
      then fmax (ratio_floor i) (mul i.cur.rent_price (sub (lit 1 0) i.p.guard.max_change_ratio))
      else ratio_floor i

  unfoldable pub raw_ceiling : Input F → F
  raw_ceiling i =
      if lt zero_f i.cur.rent_price
      then fmin i.p.guard.max_rent (mul i.cur.rent_price (add (lit 1 0) i.p.guard.max_change_ratio))
      else i.p.guard.max_rent

  unfoldable pub quantized_floor : Input F → F
  quantized_floor i = div (ceil (sub (mul (raw_floor i) (lit 100 0)) (lit 1 9))) (lit 100 0)

  unfoldable pub quantized_ceiling : Input F → F
  quantized_ceiling i = div (floor (add (mul (raw_ceiling i) (lit 100 0)) (lit 1 9))) (lit 100 0)

  unfoldable pub final_rent : Input F → F
  final_rent i = round2 (clamp (target i) (quantized_floor i) (quantized_ceiling i))

  -- ECO: the configured days, within the channel's
  unfoldable pub eco_days : Input F → ℤ
  eco_days i =
      let days = i.p.eco_max_days in
      let raised =
        if ltb_ℤ (pos 0) i.rent_max_day_min && ltb_ℤ days i.rent_max_day_min
        then i.rent_max_day_min
        else days in
      if ltb_ℤ (pos 0) i.rent_max_day_max && ltb_ℤ i.rent_max_day_max raised
      then i.rent_max_day_max
      else raised

  -- the deposit that ECO derives
  unfoldable pub derived_deposit : Input F → F → F → ℤ → F
  derived_deposit i rent long days =
      let derived = fmax (mul i.v (lit 14 1)) (mul rent (of_int days)) in
      if lt zero_f long then fmax derived (mul long (of_int days)) else derived

  abbrev pub exceeds_cap : Input F → F → Bool
  exceeds_cap i derived =
      lt zero_f i.p.guard.deposit_cap_ratio && lt (mul i.p.guard.deposit_cap_ratio i.v) derived

  -- the switch on the channel
  unfoldable pub channel_terms : Input F → F → Terms F
  channel_terms i rent =
      let g = i.p.guard in
      let long = fmin (mul rent (lit 98 2)) i.base.long in
      let dep = fmax i.base.deposit (mul g.deposit_floor_ratio i.v) in
      if i.channel == channel_eco
      then (let derived = derived_deposit i rent long (eco_days i) in
          if exceeds_cap i derived
          then refused (
              text_append "derived_deposit=" (
                text_append (format 2 derived) (
                  text_append " cap=" (
                    text_append (format 2 (mul g.deposit_cap_ratio i.v))
                      (text_append " V=" (format 2 i.v)))))
              ∷ [])
          else agreed (eco_days i) long derived)
      else agreed i.p.uu_max_days (if ltb_ℤ i.p.uu_max_days (pos 8) then zero_f else long) dep

  abbrev pub final_long : F → F → F
  final_long long rent = round2 (fmax (fmin long rent) zero_f)

  abbrev pub terms_changed : Input F → ℤ → F → F → Bool
  terms_changed i days long dep =
      i.cur.terms_known
      && (not (eq long i.cur.long_price)
          || (not (eq dep i.cur.deposit) || not (eqb_ℤ days i.cur.max_days)))

  abbrev pub is_noise : Input F → F → Bool
  is_noise i rent =
      lt zero_f i.cur.rent_price
      && lt (div (abs (sub rent i.cur.rent_price)) (fmax i.cur.rent_price (lit 1 2)))
          i.p.guard.noise_ratio

  -- cooldown, noise, and the decision
  unfoldable pub conclude : Input F → F → Terms F → Decision F
  conclude i rent (refused reasons) = skip "deposit_cap_exceeded" reasons
  conclude i rent (agreed days long dep) =
      if in_cooldown i.now i.cur.last_action_at i.p.guard.cooldown_minutes
      then skip "cooldown" []
      else if is_noise i rent
          && (not i.ignore_noise_floor
              && not (terms_changed i days (final_long long rent) (round2 dep)))
      then skip "noise" []
      else record {
        ok = true;
        skip_reason = "";
        reasons =
            ratio_reasons i
            ++ (text_append "factor=" (
                  text_append (format 4 (factor_of i)) (
                    text_append " base="
                      (text_append (format 2 i.base.short) (text_append " V=" (format 2 i.v)))))
                ∷ []);
        rent = rent;
        long = final_long long rent;
        max_days = days;
        deposit = round2 dep;
      }

  abbrev pub has_anchor : Input F → Bool
  has_anchor i = i.has_v && not (le i.v zero_f)

  abbrev pub has_baseline : Input F → Bool
  has_baseline i = i.has_base && not (le i.base.short zero_f)

  abbrev pub all_finite : Input F → Bool
  all_finite i =
      finite i.v
      && (finite i.base.short && (finite i.base.long && (finite i.base.deposit && finite i.factor)))

  unfoldable pub decide : Input F → Decision F
  decide i =
      if not (has_anchor i)
      then skip "no_value_anchor" []
      else if not (has_baseline i)
      then skip "no_baseline" []
      else if not (all_finite i)
      then skip "non_finite_input" []
      else if lt (quantized_ceiling i) (quantized_floor i)
      then skip "guardrail_conflict" (
          text_append "rent_interval=" (
            text_append (format 2 (quantized_floor i))
              (text_append ".." (format 2 (quantized_ceiling i))))
          ∷ [])
      else conclude i (final_rent i) (channel_terms i (final_rent i))
