-- ===== src/Auth/Throttle.antt =====
-- backend/internal/api/handlers_auth.go: the login lockout, the write budget and the budget of text
-- messages. Instants and durations are nanoseconds; the mutexes make every operation one step.
pub mod Budget
pub mod Lockout
use rent_auto.Prelude.{
  ℕ, ◌+◌, ◌-◌, ◌*◌, String, Bool, true, false, not, ◌&&◌, Option, none, some, List, [], ◌∷◌, ltb,
  leb, length, lookup, put, remove, keep, if◌then◌else◌,
}

abbrev pub login_max_fails : ℕ
login_max_fails = 5

abbrev pub login_ip_max_fails : ℕ
login_ip_max_fails = 30

-- ten minutes
abbrev pub login_fail_window : ℕ
login_fail_window = 600_000_000_000

abbrev pub sms_max_sends : ℕ
sms_max_sends = 10

-- failSlot
pub record Slot : Type 0 where
  pub count : ℕ
  pub start : ℕ

abbrev pub Slots : Type 0
Slots = List (String × Slot)

-- `now.Sub(start) > window`; the difference is not positive if `start` is later
unfoldable pub has_expired : ℕ → ℕ → Slot → Bool
has_expired window now s = ltb window (now - s.start)

abbrev pub is_live : ℕ → ℕ → Slot → Bool
is_live window now s = not (has_expired window now s)

-- the slot found in a map, or a new one
abbrev pub current : ℕ → ℕ → Option Slot → Slot
current window now none = record { count = 0; start = now }
current window now (some s) =
    if has_expired window now s then record { count = 0; start = now } else s

unfoldable pub slot : ℕ → Slots → String → ℕ → Slot
unfolding has_expired
slot window m key now = current window now (lookup m key)

-- `slot(m, key, now)`, which leaves a new slot in the map
unfoldable pub with_slot : ℕ → Slots → String → ℕ → Slots
unfolding slot
with_slot window m key now = put m key (slot window m key now)

unfoldable pub counted : ℕ → Slots → String → ℕ → Slots
unfolding slot
counted window m key now =
    put m key (record (slot window m key now) { count = (slot window m key now).count + 1 })

unfoldable pub sweep : ℕ → ℕ → ℕ → Slots → Slots
unfolding has_expired
sweep limit window now m = if ltb (length m) limit then m else keep (is_live window now) m

-- loginLimiter
pub record Limiter : Type 0 where
  pub fails : Slots
  pub ip_fails : Slots

abbrev pub sweep_locked : Limiter → ℕ → Limiter
sweep_locked l now = record {
  fails = sweep 1024 login_fail_window now l.fails;
  ip_fails = sweep 1024 login_fail_window now l.ip_fails;
}

-- the second slot is looked up only if the first one is under its limit
abbrev allow_ip : Slots → Slots → String → ℕ → Bool → Limiter × Bool
allow_ip fails ip_fails ip now false = (record { fails = fails; ip_fails = ip_fails }, false)
allow_ip fails ip_fails ip now true = (
  record { fails = fails; ip_fails = with_slot login_fail_window ip_fails ip now },
  ltb (slot login_fail_window ip_fails ip now).count login_ip_max_fails,
)

unfoldable pub allow : Limiter → String → String → ℕ → Limiter × Bool
unfolding with_slot slot sweep
allow l key ip now =
    let swept = sweep_locked l now in
    allow_ip (with_slot login_fail_window swept.fails key now) swept.ip_fails ip now
      (ltb (slot login_fail_window swept.fails key now).count login_max_fails)

unfoldable pub fail : Limiter → String → String → ℕ → Limiter
unfolding counted
fail l key ip now = record {
  fails = counted login_fail_window l.fails key now;
  ip_fails = counted login_fail_window l.ip_fails ip now;
}

unfoldable pub reset : Limiter → String → String → Limiter
reset l key ip = record { fails = remove l.fails key; ip_fails = remove l.ip_fails ip }

-- writeBucket
pub record Bucket : Type 0 where
  pub slots : Slots
  pub limit : ℕ
  pub window : ℕ

-- counts an attempt against the slot `s` of the client, which is in the map
abbrev spend : ℕ → ℕ → Slots → String → Slot → Slots × Bool
spend limit window m ip s =
    if leb limit s.count
    then (put m ip s, false)
    else (put m ip (record s { count = s.count + 1 }), true)

unfoldable pub bucket_allow : Bucket → String → ℕ → Bucket × Bool
unfolding slot sweep
bucket_allow b ip now =
    let m = sweep 4096 b.window now b.slots in
    let (slots, ok) = spend b.limit b.window m ip (slot b.window m ip now) in
    (record b { slots = slots }, ok)

unfoldable pub bucket_reset : Bucket → Bucket
bucket_reset b = record b { slots = [] }

-- smsAllow, on `smsFails`
unfoldable pub sms_allow : Slots → String → ℕ → Slots × Bool
unfolding slot
sms_allow m ip now = spend sms_max_sends login_fail_window m ip (slot login_fail_window m ip now)
