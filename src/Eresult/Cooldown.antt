-- ===== src/Eresult/Cooldown.antt =====
-- What the scheduler makes of the errors of Steam's result codes.
use rent_auto.Prelude.{
  ℕ, ◌≡◌, ◌≢◌, String, Bool, true, false, ◌||◌, some, List, ℤ, pos, eqb, if◌then◌else◌, Bool-cases,
  inl, inr, arith,
}
use rent_auto.Domain.{Error}
use rent_auto.Risk.{risk_cooldown, auth_expired_cooldown, rate_limit_cooldown}
use rent_auto.Eresult.{
  check_eresult, rejected_as, is_in, is_ignored, eresult_auth_expired, eresult_rate_limited,
}

rejected_as-cooldown :
    (auth rate : Bool) (base : String) (err : Error)
    → rejected_as auth rate base ≡ some err
    → risk_cooldown err
      ≡ (if auth then auth_expired_cooldown else if rate then rate_limit_cooldown else 0)
unfolding risk_cooldown
rejected_as-cooldown true rate base err h = ground (arith, h)
rejected_as-cooldown false true base err h = ground (arith, h)
rejected_as-cooldown false false base err h = ground (arith, h)

-- An error of a result code cools its channel for the time of expired logins if the code is one of these,
-- for the time of rate limits if it is one of those, and else not at all; and the code is neither OK nor
-- Pending nor one that the caller ignores.
pub check_eresult-cooldown :
    (itoa : ℤ → String) (method : String) (n : ℕ) (ignore : List ℤ) (err : Error)
    → check_eresult itoa method (pos n) ignore ≡ some err
    → (risk_cooldown err ≡ (
        if is_in eresult_auth_expired n
        then auth_expired_cooldown
        else if is_in eresult_rate_limited n
        then rate_limit_cooldown
        else 0))
      × ((n ≢ 1) × ((n ≢ 22) × (is_ignored ignore (pos n) ≡ false)))
unfolding check_eresult
check_eresult-cooldown itoa method n ignore err h = elim (Bool-cases (eqb n 1 || eqb n 22)) [
  | inl a ↦ let bad = simp a at h in cc
  | inr a ↦ elim (Bool-cases (is_ignored ignore (pos n))) [
    | inl b ↦ let bad = simp (a, b) at h in cc
    | inr b ↦ (
      rejected_as-cooldown _ _ _ err (simp (a, b) at h),
      (ground (arith, a), (ground (arith, a), b)),
    )
  ]
]
