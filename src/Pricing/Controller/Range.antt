-- ===== src/Pricing/Controller/Range.antt =====
-- The factor stays in its configured range, also after a corrupted one.
use rent_auto.Prelude.{true, ◌≡◌, String, arith, inl, inr, Bool-cases}
use rent_auto.Float.{Double, finite, ◌≼◌, Num, IsDouble}
use rent_auto.Pricing.{ControllerParams, round4}
use rent_auto.Pricing.Controller.{
  FactorEvent, rent_success, bought_out, stale_day, reset, no_event, move, clamp_min, clamp_max,
  clamp_factor, next_factor,
}

module _ {F : Type 0} ⦃d : Double F⦄ where
  open d use {lt, lit, mul}

  module _ (laws : IsDouble F) where
    open laws use {
      num_of_le, le_refl, le_trans, le_total, lt-eq-not-le, num_add, num_sub, finite_lit, mul_mono,
      div_mono, round_mono,
    }

    pub round4_mono : (x y : F) → x ≼ y → round4 x ≼ round4 y
    unfolding round4
    round4_mono x y h = div_mono _ _ 9999 0 (round_mono _ _ (mul_mono x y 9999 0 h))

    pub record IsSaneCtrl (p : ControllerParams F) : Type 0 where
      pub ordered : p.f_min ≼ p.f_max
      pub up : finite p.step_up ≡ true
      pub double_up : finite (mul (lit 2 0) p.step_up) ≡ true
      pub down : finite p.step_down ≡ true

    clamp_min_range : (lo : F) (x : F) (r : String) → Num x → Num lo → lo ≼ (clamp_min lo (x, r)).0
    unfolding clamp_min
    clamp_min_range lo x r nx nl = ground (arith, lt-eq-not-le x lo nx nl, le_refl lo nl)

    clamp_max_range :
        (lo hi : F) (c : F × String)
        → lo ≼ c.0
        → lo ≼ hi
        → (lo ≼ (clamp_max hi c).0) × ((clamp_max hi c).0 ≼ hi)
    unfolding clamp_max
    clamp_max_range lo hi (x, r) a b =
        let nx = (num_of_le lo x a).1 in
        let nh = (num_of_le lo hi b).1 in ground (arith, lt-eq-not-le hi x nh nx, le_refl hi nh)

    pub Num-move :
        (cur : F) (r : String) (ev : FactorEvent) (p : ControllerParams F)
        → finite cur ≡ true
        → IsSaneCtrl p
        → Num (move cur r ev p).0
    unfolding move
    Num-move cur r rent_success p h s = num_add cur p.step_up h s.up
    Num-move cur r bought_out p h s = num_add cur _ h s.double_up
    Num-move cur r stale_day p h s = num_sub cur p.step_down h s.down
    Num-move cur r reset p h s = ground (arith, finite_lit 1 0)
    Num-move cur r no_event p h s = ground arith

    clamped :
        (x : F) (r : String) (p : ControllerParams F)
        → Num x
        → IsSaneCtrl p
        → (p.f_min ≼ (clamp_factor p (x, r)).0) × ((clamp_factor p (x, r)).0 ≼ p.f_max)
    unfolding clamp_factor
    clamped x r p nx s =
        clamp_max_range p.f_min p.f_max (clamp_min p.f_min (x, r))
          (clamp_min_range p.f_min x r nx (num_of_le _ _ s.ordered).0) s.ordered

    -- With ordered bounds and finite steps, after any event, from any stored factor, the new factor
    -- lies between the rounded bounds.
    pub next_factor_range :
        (cur : F) (ev : FactorEvent) (p : ControllerParams F)
        → IsSaneCtrl p
        → (round4 p.f_min ≼ (next_factor cur ev p).0) × ((next_factor cur ev p).0 ≼ round4 p.f_max)
    unfolding next_factor
    next_factor_range cur ev p s = elim (Bool-cases (finite cur)) [
      | inl h ↦
          let (lo, hi) =
            clamped (move cur "" ev p).0 (move cur "" ev p).1 p (Num-move cur "" ev p h s) s in
          rw h (round4_mono _ _ lo, round4_mono _ _ hi)
      | inr h ↦
          let one = move p.f_min "non_finite_recovered" reset p in
          let (lo, hi) = clamped one.0 one.1 p (ground (arith, finite_lit 1 0)) s in
          rw h (round4_mono _ _ lo, round4_mono _ _ hi)
    ]
