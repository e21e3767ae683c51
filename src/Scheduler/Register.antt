-- ===== src/Scheduler/Register.antt =====
-- Registration, the times of day it accepts, and when a job runs next.
use rent_auto.Prelude.{
  ℕ, ◌≤◌, ◌<◌, true, false, Option, none, some, List, [], ◌∷◌, ◌++◌, ◌≡◌, ◌≢◌, refl, arith, ℤ, pos,
  negsuc, eq_iff, eq_refl, Option-cases, inl, inr,
}
use rent_auto.Scheduler.Clock.{Calendar, scan_hm, minutes_ok, in_day}
use rent_auto.Scheduler.{
  Job, JobKind, interval, daily, Entry, Scheduler, register, valid_daily, initial_next, next_run,
}

-- A job that has been scheduled anew runs strictly later than now: an interval job if its interval is
-- not zero, a daily job always.
pub initial_next_later :
    (cal : Calendar) (j : Job) (now r : ℕ)
    → (j.kind ≡ interval → 0 < j.every)
    → now < initial_next cal j now r
unfolding next_run
initial_next_later cal j now r h = by_kind j.kind h
  where
    by_kind : (k : JobKind) → (k ≡ interval → 0 < j.every) → now < next_run cal k j now r
    by_kind interval h = ground (arith, h refl)
    by_kind daily h = ground (arith, Calendar.next_day cal now (scan_hm j.at))

-- What `Register` has established of a job that it took: a body, a name, a time of day between 00:00 and
-- 23:59 if it is a daily job, and a name that was free before and now leads to an idle entry for it.
pub record Registered (s t : Scheduler) (j : Job) : Type 0 where
  pub runnable : j.has_fn ≡ true
  pub named : j.name ≢ ""
  pub timed :
      j.kind ≡ daily → (h m : ℕ) × ((scan_hm j.at ≡ some (pos h, pos m)) × ((h ≤ 23) × (m ≤ 59)))
  pub fresh : s.jobs j.name ≡ none
  pub entry : (e : Entry) × ((t.jobs j.name ≡ some e) × ((e.job ≡ j) × (e.running ≡ false)))
  pub listed : t.order ≡ s.order ++ (j.name ∷ [])

in_day_range :
    (o : Option (ℤ × ℤ))
    → in_day o ≡ true
    → (h m : ℕ) × ((o ≡ some (pos h, pos m)) × ((h ≤ 23) × (m ≤ 59)))
in_day_range (some (pos h, pos m)) d = (h, m, (refl, (ground arith, ground arith)))
in_day_range (some (pos h, negsuc m)) d = ground arith
in_day_range (some (negsuc h, m)) d = ground arith
in_day_range none d = ground arith

valid_daily_range :
    (k : JobKind) (at : List ℕ)
    → valid_daily k at ≡ true
    → k ≡ daily
    → (h m : ℕ) × ((scan_hm at ≡ some (pos h, pos m)) × ((h ≤ 23) × (m ≤ 59)))
unfolding minutes_ok
valid_daily_range daily at v e = in_day_range (scan_hm at) v
valid_daily_range interval at v e = cc

abbrev registered_entry : Calendar → Job → ℕ → ℕ → Entry
registered_entry cal j now r = record {
  job = j;
  next = initial_next cal j now r;
  last = none;
  last_ok = false;
  last_err = "";
  running = false;
  fail_streak = 0;
}

-- Registration that reports success has established all that `Registered` lists.
pub register-Registered :
    (cal : Calendar) (s : Scheduler) (j : Job) (now r : ℕ)
    → (register cal s j now r).1 ≡ true
    → Registered s (register cal s j now r).0 j
unfolding register
register-Registered cal s j now r h = record {
  runnable = ground arith;
  named = ground (arith, eq_iff j.name "");
  timed = valid_daily_range j.kind j.at (ground arith);
  fresh = elim (Option-cases (s.jobs j.name)) [ inl e ↦ e | inr (e, q) ↦ ground (arith, q) ];
  entry = (registered_entry cal j now r, (ground (arith, eq_refl j.name), (refl, refl)));
  listed = ground arith;
}

-- Registration that reports an error has left the scheduler as it was.
pub register_refused :
    (cal : Calendar) (s : Scheduler) (j : Job) (now r : ℕ)
    → (register cal s j now r).1 ≡ false
    → (register cal s j now r).0 ≡ s
unfolding register
register_refused cal s j now r h = ground arith
