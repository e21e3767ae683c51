-- ===== src/Domain.antt =====
-- backend/internal/domain/domain.go and backend/internal/platform/adapter.go: the channels, and the
-- errors that the adapters return and the upper layers branch on.
use rent_auto.Prelude.{String, Bool, true, false, List, [], ◌∷◌, ◌||◌, ◌==◌, if◌then◌else◌}

-- `type Channel string`
abbrev pub Channel : Type 0
Channel = String

abbrev pub channel_uu : Channel
channel_uu = "uu"

abbrev pub channel_eco : Channel
channel_eco = "eco"

abbrev pub valid : Channel → Bool
valid c = c == channel_uu || c == channel_eco

-- What `errors.Is` finds in the chain of an error: the sentinels of `platform` and `uu`, in the order
-- of the declarations, and any other error.
pub data Sentinel : Type 0 where
  unsupported auth_expired rate_limited platform_blocked partial_failure : Sentinel
  version_blocked captcha_required uk_expired other : Sentinel

abbrev pub same_sentinel : Sentinel → Sentinel → Bool
same_sentinel auth_expired auth_expired = true
same_sentinel rate_limited rate_limited = true
same_sentinel platform_blocked platform_blocked = true
same_sentinel partial_failure partial_failure = true
same_sentinel uk_expired uk_expired = true
same_sentinel unsupported unsupported = true
same_sentinel version_blocked version_blocked = true
same_sentinel captcha_required captcha_required = true
same_sentinel _ _ = false

-- An error: its text, and the sentinels of its chain.
pub record Error : Type 0 where
  pub text : String
  pub chain : List Sentinel

-- `errors.Is(err, s)` for a sentinel `s` other than `other`.
abbrev pub errors_is : List Sentinel → Sentinel → Bool
errors_is [] s = false
errors_is (t ∷ chain) s = if same_sentinel t s then true else errors_is chain s
