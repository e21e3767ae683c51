-- ===== src/Pace.antt =====
-- backend/internal/ratelimit/ratelimit.go: the token bucket that paces the calls to a platform. Instants
-- and durations are nanoseconds. The calls of `Wait` read the clock under the lock, one after the other:
-- `readings` are those instants, in order.
use rent_auto.Prelude.{
  ℕ, ◌+◌, ◌*◌, ◌≤◌, List, [], ◌∷◌, Option, none, some, ltb, length, if◌then◌else◌, arith,
  Bool-cases, inl, inr,
}

pub record Bucket : Type 0 where
  pub interval : ℕ
  pub last : ℕ

abbrev pub granted : Bucket → ℕ → Option Bucket
granted b now = if ltb now (b.last + b.interval) then none else some (record b { last = now })

-- the instants at which `Wait` has returned nil
abbrev pub keep_trying : (Bucket → List ℕ) → Bucket → ℕ → Option Bucket → List ℕ
keep_trying go b now none = go b
keep_trying go b now (some b') = now ∷ go b'

unfoldable pub grants : Bucket → List ℕ → List ℕ
grants b [] = []
grants b (now ∷ readings) = keep_trying (λ c. grants c readings) b now (granted b now)

-- Every instant is at least `interval` after the one before it, the first one after `from`.
abbrev pub IsSpaced : ℕ → ℕ → List ℕ → Type 0
IsSpaced interval from [] = Unit
IsSpaced interval from (t ∷ ts) = (from + interval ≤ t) × IsSpaced interval t ts

abbrev pub last_of : ℕ → List ℕ → ℕ
last_of d [] = d
last_of d (t ∷ ts) = last_of t ts

-- Each call that the bucket lets through is at least the interval later than the one before it, the first
-- one than `last`, at whatever instants it is asked.
pub grants-IsSpaced :
    (b : Bucket) (readings : List ℕ) → IsSpaced b.interval b.last (grants b readings)
unfolding grants
grants-IsSpaced b [] = tt
grants-IsSpaced b (now ∷ readings) = elim (Bool-cases (ltb now (b.last + b.interval))) [
  | inl h ↦ rw h (grants-IsSpaced b readings)
  | inr h ↦
      rw h
        (ground (arith, h), grants-IsSpaced (record { interval = b.interval; last = now }) readings)
]

spaced_bound :
    (i from : ℕ) (ts : List ℕ) → IsSpaced i from ts → from + length ts * i ≤ last_of from ts
spaced_bound i from [] s = omega arith
spaced_bound i from (t ∷ ts) (a, s) = ground (arith, spaced_bound i t ts s)

-- The calls that the bucket lets through, times the interval, fit between its `last` and the last of them.
pub grants_bound :
    (b : Bucket) (readings : List ℕ)
    → b.last + length (grants b readings) * b.interval ≤ last_of b.last (grants b readings)
grants_bound b readings =
    spaced_bound b.interval b.last (grants b readings) (grants-IsSpaced b readings)
