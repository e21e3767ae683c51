-- ===== src/Scheduler/Clock.antt =====
-- The times of day of daily jobs (`At`), as fmt.Sscanf reads them, and the calendar.
use rent_auto.Prelude.{
  ℕ, ◌+◌, ◌-◌, ◌*◌, ◌<◌, Bool, false, not, ◌&&◌, ◌||◌, Option, none, some, List, [], ◌∷◌, leb, eqb,
  if◌then◌else◌, ℤ, pos, negsuc, leb_ℤ,
}

-- package time: the instant of a time of day on the day of `now` (none: 00:00, what `initialNext` has
-- when the scan fails), and AddDate(0, 0, 1). A day later is after every instant of the day.
pub record Calendar : Type 0 where
  pub today_at : ℕ → Option (ℤ × ℤ) → ℕ
  pub add_day : ℕ → ℕ
  pub next_day : (now : ℕ) (hm : Option (ℤ × ℤ)) → now < add_day (today_at now hm)

abbrev pub is_digit : ℕ → Bool
is_digit c = leb b'0' c && leb c b'9'

-- the spaces that %d skips
abbrev pub is_space : ℕ → Bool
is_space c = eqb c b' ' || (eqb c 9 || (eqb c 11 || (eqb c 12 || eqb c 13)))

abbrev pub digit : ℕ → ℕ
digit c = c - b'0'

abbrev pub negate : ℕ → ℤ
negate d = if eqb d 0 then pos 0 else negsuc (d - 1)

-- %d over exactly two bytes, all of which it must take
unfoldable pub scan_two : ℕ → ℕ → Option ℤ
scan_two a b =
    if not (is_digit b)
    then none
    else if is_digit a
    then some (pos (digit a * 10 + digit b))
    else if is_space a || eqb a b'+'
    then some (pos (digit b))
    else if eqb a b'-'
    then some (negate (digit b))
    else none

-- %d at the end of the input, where a byte may be left over
unfoldable pub scan_last : ℕ → ℕ → Option ℤ
unfolding scan_two
scan_last a b = if is_digit a && not (is_digit b) then some (pos (digit a)) else scan_two a b

abbrev pub both : Option ℤ → Option ℤ → Option (ℤ × ℤ)
both (some h) (some m) = some (h, m)
both _ _ = none

-- Sscanf(At, "%d:%d"), where At has five bytes with a colon in the middle
unfoldable pub scan_hm : List ℕ → Option (ℤ × ℤ)
unfolding scan_two scan_last
scan_hm (a ∷ b ∷ c ∷ d ∷ e ∷ []) = if eqb c b':' then both (scan_two a b) (scan_last d e) else none
scan_hm _ = none

abbrev pub in_day : Option (ℤ × ℤ) → Bool
in_day none = false
in_day (some (h, m)) =
    leb_ℤ (pos 0) h && (leb_ℤ h (pos 23) && (leb_ℤ (pos 0) m && leb_ℤ m (pos 59)))

-- the checks of `Register` on a daily job
unfoldable pub minutes_ok : List ℕ → Bool
unfolding scan_hm
minutes_ok at = in_day (scan_hm at)
