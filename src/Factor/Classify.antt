-- ===== src/Factor/Classify.antt =====
-- Which finished orders are signals, and what the stale scan writes.
use rent_auto.Prelude.{
  ◌≡◌, String, Bool, false, ◌==◌, some, ◌⊎◌, ◌↔◌, if◌then◌else◌, arith, ℤ, pos, ◌<ℤ◌, ◌≤ℤ◌, eq_iff,
}
use rent_auto.Float.{Double, IsDouble, ◌≼◌}
use rent_auto.Pricing.{ControllerParams, round4}
use rent_auto.Pricing.Controller.{rent_success, stale_day, reset}
use rent_auto.Pricing.Controller.Range.{IsSaneCtrl, next_factor_range}
use rent_auto.Factor.{Term, classify_factor_event, stale_step, is_at_factor_min, days}

-- An order counts as a success exactly if it is done and was returned early: before the end of its own
-- term, or, for an order that is not long and whose term is not known, before the listing's maximum.
pub classify_success :
    (status : String) (t : Term) (fallback : ℤ)
    → (classify_factor_event status t fallback ≡ rent_success) ↔ (
        (status ≡ "done")
        × ((pos 0 <ℤ t.rent_days)
            × (((pos 0 <ℤ t.term_days) × (t.rent_days <ℤ t.term_days))
                ⊎ ((t.term_days ≤ℤ pos 0)
                    × (((t.order_type == "long") ≡ false) × (t.rent_days <ℤ fallback))))))
unfolding classify_factor_event
classify_success status t fallback = (
  (λ h. ground (arith, eq_iff status "done", eq_iff status "bought_out")),
  (λ (done, rest). rw done (ground arith)),
)

module _ {F : Type 0} ⦃d : Double F⦄ (laws : IsDouble F) where
  -- With ordered bounds and finite steps, whatever factor the stale scan writes lies between the
  -- rounded bounds, and it writes one only after the idle time that the parameters set.
  pub stale_step_range :
      (factor next : F) (age : ℤ) (p : ControllerParams F) (reason : String) (audit : Bool)
      → IsSaneCtrl laws p
      → stale_step factor age p ≡ some (next, (reason, audit))
      → (days p.stale_days ≤ℤ age) × ((round4 p.f_min ≼ next) × (next ≼ round4 p.f_max))
  unfolding stale_step
  stale_step_range factor next age p reason audit s h =
      let ev = if is_at_factor_min factor p.f_min then reset else stale_day in
      ground (arith, next_factor_range laws factor ev p s)
