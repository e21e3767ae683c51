-- ===== src/Pricing.antt =====
-- backend/internal/pricing/engine.go: rounding, the parameters and what `Decide` takes and returns.
-- The float type `F` is any implementation of `Double`. Durations are minutes, times nanoseconds;
-- `none` is the zero time.
pub mod Controller
pub mod Baseline
pub mod Decide
pub mod Rounding
use rent_auto.Prelude.{
  ℕ, ◌^◌, String, Bool, true, false, not, ◌&&◌, ◌||◌, Option, none, some, List, [], ◌∷◌, ℤ, pos,
  if◌then◌else◌,
}
use rent_auto.Domain.{Channel}
use rent_auto.Float.{Double, finite}

-- market offers; 0 is an absent price
pub record Quote (F : Type 0) : Type 0 where
  pub short : F
  pub long : F
  pub deposit : F

pub record BaselineParams (F : Type 0) : Type 0 where
  pub top_n : ℤ
  pub k1 : F
  pub k2 : F
  pub k3 : F
  pub min_lease_ratio : F

pub record ControllerParams (F : Type 0) : Type 0 where
  pub f_min : F
  pub f_max : F
  pub step_up : F
  pub step_down : F
  pub stale_days : ℤ

pub record Guardrails (F : Type 0) : Type 0 where
  pub min_rent : F
  pub max_rent : F
  pub max_change_ratio : F
  pub noise_ratio : F
  pub cooldown_minutes : ℤ
  pub deposit_floor_ratio : F
  pub deposit_cap_ratio : F

pub record Params (F : Type 0) : Type 0 where
  pub baseline : BaselineParams F
  pub ctrl : ControllerParams F
  pub guard : Guardrails F
  pub uu_max_days : ℤ
  pub eco_max_days : ℤ

pub record Base (F : Type 0) : Type 0 where
  pub short : F
  pub long : F
  pub deposit : F

pub record Current (F : Type 0) : Type 0 where
  pub rent_price : F
  pub last_action_at : Option ℕ
  pub long_price : F
  pub deposit : F
  pub max_days : ℤ
  pub terms_known : Bool

pub record Input (F : Type 0) : Type 0 where
  pub channel : Channel
  pub has_v : Bool
  pub v : F
  pub base : Base F
  pub has_base : Bool
  pub factor : F
  pub cur : Current F
  pub p : Params F
  pub now : ℕ
  pub rent_max_day_min : ℤ
  pub rent_max_day_max : ℤ
  pub ignore_noise_floor : Bool

pub record Decision (F : Type 0) : Type 0 where
  pub ok : Bool
  pub skip_reason : String
  pub reasons : List String
  pub rent : F
  pub long : F
  pub max_days : ℤ
  pub deposit : F

module _ {F : Type 0} ⦃d : Double F⦄ where
  open d use {lt, le, add, sub, mul, div, fmin, fmax, round, of_int, to_int, lit}

  abbrev pub zero_f : F
  zero_f = lit 0 0

  -- Amounts that are not finite, or beyond 1e15, become 0.
  unfoldable pub round2 : F → F
  round2 v =
      if not (finite v) || (le (lit (10 ^ 15) 0) v || le v (sub zero_f (lit (10 ^ 15) 0)))
      then zero_f
      else if le zero_f v
      then div (of_int (to_int (add (mul v (lit 100 0)) (lit 5 1)))) (lit 100 0)
      else div (of_int (to_int (sub (mul v (lit 100 0)) (lit 5 1)))) (lit 100 0)

  unfoldable pub round4 : F → F
  round4 v = div (round (mul v (lit 10000 0))) (lit 10000 0)

  unfoldable pub clamp : F → F → F → F
  clamp v lo hi = fmin (fmax v lo) hi

  -- a usable positive price
  abbrev pub pos_finite : F → Bool
  pos_finite v = lt zero_f v && finite v

  abbrev pub default_params : Params F
  default_params = record {
    baseline = record {
      top_n = pos 15;
      k1 = lit 97 2;
      k2 = lit 95 2;
      k3 = lit 98 2;
      min_lease_ratio = zero_f;
    };
    ctrl = record {
      f_min = lit 85 2;
      f_max = lit 125 2;
      step_up = lit 3 2;
      step_down = lit 5 2;
      stale_days = pos 7;
    };
    guard = record {
      min_rent = lit 5 1;
      max_rent = lit 20000 0;
      max_change_ratio = lit 15 2;
      noise_ratio = lit 2 2;
      cooldown_minutes = pos 30;
      deposit_floor_ratio = lit 3 1;
      deposit_cap_ratio = lit 2 0;
    };
    uu_max_days = pos 60;
    eco_max_days = pos 30;
  }

  -- `Validate`: does it return nil?
  unfoldable pub validate : Params F → Bool
  validate p =
      if lt p.ctrl.f_max p.ctrl.f_min
      then false
      else if lt p.guard.max_change_ratio zero_f || lt p.guard.noise_ratio zero_f
      then false
      else if lt p.guard.min_rent zero_f
          || (lt p.guard.max_rent zero_f || lt p.guard.max_rent p.guard.min_rent)
      then false
      else if lt p.guard.deposit_floor_ratio zero_f || lt p.guard.deposit_cap_ratio zero_f
      then false
      else true
