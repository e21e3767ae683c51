-- ===== src/Pricing/Controller/Order.antt =====
-- How the events of the feedback controller compare.
use rent_auto.Prelude.{true, false, ◌≡◌, refl, String, arith, inl, inr, Bool-cases}
use rent_auto.Float.{Double, finite, ◌≼◌, Num, IsDouble}
use rent_auto.Pricing.{ControllerParams}
use rent_auto.Pricing.Controller.{
  FactorEvent, rent_success, bought_out, stale_day, no_event, move, clamp_min, clamp_max,
  clamp_factor, next_factor,
}
use rent_auto.Pricing.Controller.Range.{IsSaneCtrl, next_factor_range, round4_mono}

module _ {F : Type 0} ⦃d : Double F⦄ (laws : IsDouble F) where
  open d use {lt, lit, mul}
  open laws use {
    num_of_le, le_refl, le_trans, lt-eq-not-le, add_grows, sub_falls, add_mono_by, double_grows,
  }

  clamp_min_mono :
      (lo x y : F) (r q : String)
      → x ≼ y
      → Num lo
      → (clamp_min lo (x, r)).0 ≼ (clamp_min lo (y, q)).0
  unfolding clamp_min
  clamp_min_mono lo x y r q h nl =
      let (nx, ny) = num_of_le x y h in
      ground
        (arith, h, lt-eq-not-le x lo nx nl, lt-eq-not-le y lo ny nl, le_refl lo nl, le_trans lo x y)

  clamp_max_mono :
      (hi : F) (c e : F × String) → c.0 ≼ e.0 → Num hi → (clamp_max hi c).0 ≼ (clamp_max hi e).0
  unfolding clamp_max
  clamp_max_mono hi (x, r) (y, q) h nh =
      let (nx, ny) = num_of_le x y h in
      ground
        (arith, h, lt-eq-not-le hi x nh nx, lt-eq-not-le hi y nh ny, le_refl hi nh, le_trans x y hi)

  clamp_factor_mono :
      (x y : F) (r q : String) (p : ControllerParams F)
      → x ≼ y
      → IsSaneCtrl laws p
      → (clamp_factor p (x, r)).0 ≼ (clamp_factor p (y, q)).0
  unfolding clamp_factor
  clamp_factor_mono x y r q p h s =
      let (nl, nh) = num_of_le _ _ s.ordered in
      clamp_max_mono p.f_max (clamp_min p.f_min (x, r)) (clamp_min p.f_min (y, q))
        (clamp_min_mono p.f_min x y r q h nl) nh

  next_factor_mono :
      (cur : F) (a b : FactorEvent) (p : ControllerParams F)
      → finite cur ≡ true
      → IsSaneCtrl laws p
      → (move cur "" a p).0 ≼ (move cur "" b p).0
      → (next_factor cur a p).0 ≼ (next_factor cur b p).0
  unfolding next_factor
  next_factor_mono cur a b p fin s h = rw fin (
      round4_mono laws _ _ (
        clamp_factor_mono (move cur "" a p).0 (move cur "" b p).0 (move cur "" a p).1
          (move cur "" b p).1 p h s))

  -- a factor that is not finite becomes the same whatever the event
  next_factor_any :
      (cur : F) (a b : FactorEvent) (p : ControllerParams F)
      → finite cur ≡ false
      → next_factor cur a p ≡ next_factor cur b p
  unfolding next_factor
  next_factor_any cur a b p fin = simp fin refl

  next_factor_le :
      (cur : F) (a b : FactorEvent) (p : ControllerParams F)
      → IsSaneCtrl laws p
      → (finite cur ≡ true → (move cur "" a p).0 ≼ (move cur "" b p).0)
      → (next_factor cur a p).0 ≼ (next_factor cur b p).0
  next_factor_le cur a b p s h = elim (Bool-cases (finite cur)) [
    | inl fin ↦ next_factor_mono cur a b p fin s (h fin)
    | inr fin ↦
        rw (next_factor_any cur a b p fin)
          (le_refl _ (num_of_le _ _ (next_factor_range laws cur b p s).0).1)
  ]

  -- With ordered bounds and finite steps that are not negative, from any stored factor, finite or not: a
  -- stale day leaves a factor no higher than no event does, a rental one no lower than no event, and a
  -- purchase one no lower than a rental.
  pub next_factor_order :
      (cur : F) (p : ControllerParams F)
      → IsSaneCtrl laws p
      → lit 0 0 ≼ p.step_up
      → lit 0 0 ≼ p.step_down
      → ((next_factor cur stale_day p).0 ≼ (next_factor cur no_event p).0)
        × ((next_factor cur no_event p).0 ≼ (next_factor cur rent_success p).0)
        × ((next_factor cur rent_success p).0 ≼ (next_factor cur bought_out p).0)
  unfolding move
  next_factor_order cur p s up down = (
    next_factor_le cur stale_day no_event p s (λ fin. sub_falls cur p.step_down fin s.down down),
    next_factor_le cur no_event rent_success p s (λ fin. add_grows cur p.step_up fin s.up up),
    next_factor_le cur rent_success bought_out p s (λ fin.
        add_mono_by cur p.step_up (mul (lit 2 0) p.step_up) fin s.up s.double_up
          (double_grows p.step_up s.up up)),
  )
