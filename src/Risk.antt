-- ===== src/Risk.antt =====
-- backend/internal/scheduler/jobs_reprice.go: the cooldowns of the channels after a risk signal. Instants
-- and durations are nanoseconds; the zero value of a channel that has no entry is instant 0.
use rent_auto.Prelude.{
  ℕ, ◌+◌, ◌*◌, ◌≤◌, ◌<◌, ◌≡◌, refl, Bool, true, false, ◌==◌, Option, none, some, List, [], ◌∷◌, ltb,
  eqb, if◌then◌else◌, update, arith, eq_refl, eq_iff,
}
use rent_auto.Domain.{
  Channel, Error, errors_is, rate_limited, platform_blocked, uk_expired, auth_expired,
}

abbrev minutes : ℕ → ℕ
minutes n = n * 60_000_000_000

abbrev pub rate_limit_cooldown : ℕ
rate_limit_cooldown = minutes 5

abbrev pub platform_block_cool : ℕ
platform_block_cool = minutes 15

abbrev pub uk_expired_cooldown_min : ℕ
uk_expired_cooldown_min = minutes 2

abbrev pub auth_expired_cooldown : ℕ
auth_expired_cooldown = minutes 30

-- `d.cooldowns`
abbrev pub Cooldowns : Type 0
Cooldowns = Channel → Option ℕ

abbrev pub served : Option ℕ → ℕ → Bool
served none now = true
served (some until) now = ltb until now

unfoldable pub channel_ready : Cooldowns → Channel → ℕ → Bool
channel_ready m ch now = served (m ch) now

unfoldable pub risk_cooldown : Error → ℕ
risk_cooldown err =
    if errors_is err.chain rate_limited
    then rate_limit_cooldown
    else if errors_is err.chain platform_blocked
    then platform_block_cool
    else if errors_is err.chain uk_expired
    then uk_expired_cooldown_min
    else if errors_is err.chain auth_expired
    then auth_expired_cooldown
    else 0

abbrev pub until_of : Option ℕ → ℕ
until_of none = 0
until_of (some t) = t

unfoldable pub penalize : Cooldowns → Channel → Error → ℕ → Cooldowns
unfolding risk_cooldown
penalize m ch err now =
    if eqb (risk_cooldown err) 0
    then m
    else (let until = now + risk_cooldown err in
        if ltb (until_of (m ch)) until then update m ch (some until) else m)

-- any number of signals, each with its channel and instant
unfoldable pub penalize_all : Cooldowns → List (Channel × (Error × ℕ)) → Cooldowns
unfolding penalize
penalize_all m [] = m
penalize_all m ((ch, (err, now)) ∷ signals) = penalize_all (penalize m ch err now) signals

penalize_keeps :
    (m : Cooldowns) (ch c : Channel) (err : Error) (now t : ℕ)
    → channel_ready m c t ≡ false
    → channel_ready (penalize m ch err now) c t ≡ false
unfolding channel_ready penalize
penalize_keeps m ch c err now t h = ground (arith, eq_iff c ch)

-- No signal ends a cooldown early: while a channel cools, it goes on cooling through any number of
-- further signals, its own and those of other channels.
pub cooling_persists :
    (m : Cooldowns) (signals : List (Channel × (Error × ℕ))) (c : Channel) (t : ℕ)
    → channel_ready m c t ≡ false
    → channel_ready (penalize_all m signals) c t ≡ false
unfolding penalize_all
cooling_persists m [] c t h = h
cooling_persists m ((ch, (err, now)) ∷ signals) c t h =
    cooling_persists (penalize m ch err now) signals c t (penalize_keeps m ch c err now t h)

-- After a risk signal at `now`, and whatever signals follow, the channel is closed for the whole cooldown
-- of that signal.
pub penalize_closes :
    (m : Cooldowns) (ch : Channel) (err : Error) (now t : ℕ)
    (signals : List (Channel × (Error × ℕ)))
    → 0 < risk_cooldown err
    → t ≤ now + risk_cooldown err
    → channel_ready (penalize_all (penalize m ch err now) signals) ch t ≡ false
unfolding channel_ready penalize
penalize_closes m ch err now t signals pos le =
    cooling_persists (penalize m ch err now) signals ch t (closed (m ch) refl)
  where
    closed : (o : Option ℕ) → m ch ≡ o → channel_ready (penalize m ch err now) ch t ≡ false
    closed o e = ground (arith, eq_refl ch)

-- A signal says nothing of the other channels.
pub penalize_other :
    (m : Cooldowns) (ch c : Channel) (err : Error) (now t : ℕ)
    → (c == ch) ≡ false
    → channel_ready (penalize m ch err now) c t ≡ channel_ready m c t
unfolding channel_ready penalize
penalize_other m ch c err now t h = ground (arith, h)
