-- ===== src/Pricing/Decide/Guards.antt =====
-- Which decisions are accepted: the guards of `Decide`, branch by branch.
use rent_auto.Prelude.{
  String, Bool, true, false, not, ◌&&◌, ◌≡◌, ◌⊎◌, List, ℤ, Bool-cases, inl, inr, refl,
}
use rent_auto.Float.{Double}
use rent_auto.Pricing.{Input, Decision, round2}
use rent_auto.Pricing.Decide.{
  Terms, agreed, refused, decide, conclude, channel_terms, final_rent, quantized_floor,
  quantized_ceiling, has_anchor, has_baseline, all_finite, in_cooldown, is_noise, terms_changed,
  final_long,
}

or_of_not : (a b c : Bool) → (a && (not b && not c)) ≡ false → (a ≡ false) ⊎ (b ≡ true) ⊎ (c ≡ true)
or_of_not false b c e = inl refl
or_of_not true true c e = inr (inl refl)
or_of_not true false true e = inr (inr refl)
or_of_not true false false e = cc

module _ {F : Type 0} ⦃d : Double F⦄ where
  open d use {lt, le, mul, fmin, fmax, lit}

  -- What an accepted decision has passed, with the terms that it carries.
  pub record Accepted (i : Input F) (out : Decision F) : Type 0 where
    pub days : ℤ
    pub long : F
    pub dep : F
    pub anchored : has_anchor i ≡ true
    pub based : has_baseline i ≡ true
    pub real : all_finite i ≡ true
    pub consistent : lt (quantized_ceiling i) (quantized_floor i) ≡ false
    pub terms : channel_terms i (final_rent i) ≡ agreed days long dep
    pub cooled : in_cooldown i.now i.cur.last_action_at i.p.guard.cooldown_minutes ≡ false
    pub audible :
        (is_noise i (final_rent i) ≡ false)
        ⊎ (i.ignore_noise_floor ≡ true)
        ⊎ (terms_changed i days (final_long long (final_rent i)) (round2 dep) ≡ true)
    pub rent_eq : out.rent ≡ final_rent i
    pub long_eq : out.long ≡ final_long long (final_rent i)
    pub days_eq : out.max_days ≡ days
    pub deposit_eq : out.deposit ≡ round2 dep

  refused_not_ok :
      (i : Input F) (rent : F) (rs : List String) → (conclude i rent (refused rs)).ok ≡ false
  unfolding conclude
  refused_not_ok i rent rs = refl

  abbrev NotNoise : Input F → F → ℤ → F → F → Type 0
  NotNoise i rent days long dep =
      (is_noise i rent ≡ false)
      ⊎ (i.ignore_noise_floor ≡ true)
      ⊎ (terms_changed i days (final_long long rent) (round2 dep) ≡ true)

  -- Of `conclude`, at terms that were agreed.
  record Concluded (i : Input F) (rent : F) (days : ℤ) (long dep : F) (out : Decision F)
      : Type 0 where
    cooled : in_cooldown i.now i.cur.last_action_at i.p.guard.cooldown_minutes ≡ false
    audible : NotNoise i rent days long dep
    rent_eq : out.rent ≡ rent
    long_eq : out.long ≡ final_long long rent
    days_eq : out.max_days ≡ days
    deposit_eq : out.deposit ≡ round2 dep

  concluded :
      (i : Input F) (rent : F) (days : ℤ) (long dep : F)
      → (conclude i rent (agreed days long dep)).ok ≡ true
      → Concluded i rent days long dep (conclude i rent (agreed days long dep))
  unfolding conclude
  concluded i rent days long dep h =
      let cold = in_cooldown i.now i.cur.last_action_at i.p.guard.cooldown_minutes in
      let changed = terms_changed i days (final_long long rent) (round2 dep) in
      let noise = is_noise i rent && (not i.ignore_noise_floor && not changed) in
      elim (Bool-cases cold) [
        | inl e ↦ cc (rw e at h)
        | inr e ↦ elim (Bool-cases noise) [
          | inl n ↦ cc (rw (e, n) at h)
          | inr n ↦
              rw (e, n)
                (record {
                  cooled = e;
                  audible = or_of_not (is_noise i rent) i.ignore_noise_floor changed n;
                  rent_eq = refl;
                  long_eq = refl;
                  days_eq = refl;
                  deposit_eq = refl;
                })
        ]
      ]

  Accepted-terms :
      (i : Input F) (t : Terms F)
      → channel_terms i (final_rent i) ≡ t
      → has_anchor i ≡ true
      → has_baseline i ≡ true
      → all_finite i ≡ true
      → lt (quantized_ceiling i) (quantized_floor i) ≡ false
      → (conclude i (final_rent i) t).ok ≡ true
      → Accepted i (conclude i (final_rent i) t)
  Accepted-terms i (refused rs) e a b f c h = cc (refused_not_ok i (final_rent i) rs)
  Accepted-terms i (agreed days long dep) e a b f c h =
      let r = concluded i (final_rent i) days long dep h in
      record {
        days = days;
        long = long;
        dep = dep;
        anchored = a;
        based = b;
        real = f;
        consistent = c;
        terms = e;
        cooled = r.cooled;
        audible = r.audible;
        rent_eq = r.rent_eq;
        long_eq = r.long_eq;
        days_eq = r.days_eq;
        deposit_eq = r.deposit_eq;
      }

  -- An accepted decision has passed every guard, and carries the terms that the channel agreed to.
  pub decide-Accepted : (i : Input F) → (decide i).ok ≡ true → Accepted i (decide i)
  unfolding decide
  decide-Accepted i h = elim (Bool-cases (has_anchor i)) [
    | inr a ↦ cc (rw a at h)
    | inl a ↦ elim (Bool-cases (has_baseline i)) [
      | inr b ↦ cc (rw (a, b) at h)
      | inl b ↦ elim (Bool-cases (all_finite i)) [
        | inr f ↦ cc (rw (a, b, f) at h)
        | inl f ↦ elim (Bool-cases (lt (quantized_ceiling i) (quantized_floor i))) [
          | inl c ↦ cc (rw (a, b, f, c) at h)
          | inr c ↦
              rw (a, b, f, c)
                (Accepted-terms i (channel_terms i (final_rent i)) refl a b f c
                  (rw (a, b, f, c) at h))
        ]
      ]
    ]
  ]
