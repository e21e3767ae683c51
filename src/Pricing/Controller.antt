-- ===== src/Pricing/Controller.antt =====
-- backend/internal/pricing/engine.go: the feedback controller.
pub mod Range
pub mod Order
use rent_auto.Prelude.{String, Bool, true, false, not, if◌then◌else◌, text_append}
use rent_auto.Float.{Double, finite}
use rent_auto.Pricing.{ControllerParams, round4}

-- `FactorEvent`; `no_event` is "", which no case of the switch takes
pub data FactorEvent : Type 0 where
  rent_success bought_out stale_day reset no_event : FactorEvent

module _ {F : Type 0} ⦃d : Double F⦄ where
  open d use {lt, add, sub, mul, lit}

  -- the switch: the factor and the reason
  unfoldable pub move : F → String → FactorEvent → ControllerParams F → F × String
  move cur reason rent_success p = (add cur p.step_up, "rented")
  move cur reason bought_out p = (add cur (mul (lit 2 0) p.step_up), "bought_out")
  move cur reason stale_day p = (sub cur p.step_down, "stale")
  move cur reason reset p = (lit 1 0, "reset")
  move cur reason no_event p = (cur, reason)

  unfoldable pub clamp_min : F → F × String → F × String
  clamp_min lo (cur, reason) =
      if lt cur lo then (lo, text_append reason "|clamped_min") else (cur, reason)

  unfoldable pub clamp_max : F → F × String → F × String
  clamp_max hi (cur, reason) =
      if lt hi cur then (hi, text_append reason "|clamped_max") else (cur, reason)

  unfoldable pub clamp_factor : ControllerParams F → F × String → F × String
  unfolding clamp_min clamp_max
  clamp_factor p r = clamp_max p.f_max (clamp_min p.f_min r)

  -- A factor that is not finite is replaced by f_min, and the event by a reset.
  unfoldable pub next_factor : F → FactorEvent → ControllerParams F → F × String
  unfolding move clamp_factor
  next_factor cur ev p =
      let (moved, reason) =
        if not (finite cur)
        then move p.f_min "non_finite_recovered" reset p
        else move cur "" ev p in
      let (clamped, why) = clamp_factor p (moved, reason) in (round4 clamped, why)
