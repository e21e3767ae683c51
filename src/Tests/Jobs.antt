-- ===== src/Tests/Jobs.antt =====
-- The job table with an interval job and a daily one, and the cooldowns.
use rent_auto.Prelude.{◌+◌, ◌≤◌, true, false, none, [], ◌∷◌, ◌++◌, ◌≡◌, ◌≢◌, refl, arith}
use rent_auto.Domain.{channel_uu, channel_eco, Error, rate_limited, auth_expired}
use rent_auto.Scheduler.{Job, daily, Scheduler, new, register, trigger, record_trigger, stop}
use rent_auto.Scheduler.Clock.{Calendar, scan_hm, scan_two, scan_last, minutes_ok}
use rent_auto.Scheduler.Flights.{
  System, Reach, Step, do_stop, idle, depart_manual, here, next, do_register, do_trigger, do_record,
  flight, manual, recorded,
}
use rent_auto.Scheduler.Flights.Exclusion.{holders, busy, counted, Reach-exclusion}
use rent_auto.Scheduler.Flights.Stopping.{Course-drains, work, moves, at_start, then_step}
use rent_auto.Risk.{
  Cooldowns, channel_ready, risk_cooldown, penalize, penalize_all, penalize_closes,
}
use rent_auto.Pace.{Bucket, grants, IsSpaced, grants-IsSpaced}

-- every time of day is now, and a day is 1000 long
abbrev calendar : Calendar
calendar = record {
  today_at = λ now hm. now;
  add_day = λ t. t + 1000;
  next_day = λ now hm. omega arith;
}

abbrev nightly : Job
nightly = record {
  name = "zero_cd";
  kind = daily;
  every = 0;
  at = b'2' ∷ b'3' ∷ b':' ∷ b'3' ∷ b'0' ∷ [];
  jitter = 0;
  has_fn = true;
}

abbrev with_nightly : Scheduler
with_nightly = (register calendar new nightly 5 0).0

-- registered, then triggered
abbrev registered : System
registered = record idle { table = (register calendar idle.table nightly 5 0).0 }

abbrev working : System
working = record {
  table = (trigger registered.table "zero_cd").0;
  flights = registered.flights ++ depart_manual "zero_cd" (trigger registered.table "zero_cd").1;
}

reached : Reach calendar idle working
reached = next (next here (do_register idle nightly 5 0)) (do_trigger registered "zero_cd")

Reach-exclusion_example :
    (holders "zero_cd" working.flights ≤ 1)
    × (holders "zero_cd" working.flights ≡ busy (working.table.jobs "zero_cd"))
    × (working.table.waiting ≡ counted working.flights)
Reach-exclusion_example = Reach-exclusion calendar reached "zero_cd"

-- stopped while the triggered run is at work
abbrev halted : System
halted = record working { table = stop working.table }

stopped_then : Reach calendar idle halted
stopped_then = next reached (do_stop working)

closed : halted.table.stopped ≡ true
unfolding stop
closed = refl

-- the triggered run records its result after the stop
abbrev recording : System
recording = record {
  table = record_trigger calendar halted.table "zero_cd" 5 6 0 none;
  flights = [] ++ (flight "zero_cd" recorded ∷ []);
}

at_work : halted.flights ≡ [] ++ (flight "zero_cd" manual ∷ [])
unfolding register new minutes_ok scan_hm scan_two scan_last trigger
at_work = refl

Course-drains_example :
    (1 ≤ work halted.flights)
    × (1 ≡ work halted.flights → (recording.flights ≡ []) × (recording.table.waiting ≡ 0))
    × (recording.flights ≢ [] → (u : System) × (st : Step calendar recording u) × (moves st ≡ 1))
Course-drains_example =
    Course-drains calendar {s = halted} {n = 1} {t = recording} stopped_then
      (then_step at_start (do_record halted [] [] "zero_cd" 5 6 0 none at_work)) closed

abbrev limited : Error
limited = record { text = "platform: rate limited"; chain = rate_limited ∷ [] }

abbrev logged_out : Error
logged_out = record { text = "platform: auth expired"; chain = auth_expired ∷ [] }

abbrev quiet : Cooldowns
quiet = λ ch. none

risk_limited : risk_cooldown limited ≡ 300_000_000_000
unfolding risk_cooldown
risk_limited = refl

penalize_closes_example :
    channel_ready
      (penalize_all (penalize quiet channel_uu limited 10) ((channel_eco, (logged_out, 20)) ∷ []))
      channel_uu
      1000
    ≡ false
penalize_closes_example =
    penalize_closes quiet channel_uu limited 10 1000 ((channel_eco, (logged_out, 20)) ∷ [])
      (omega (arith, risk_limited)) (omega (arith, risk_limited))

abbrev two_a_second : Bucket
two_a_second = record { interval = 500; last = 0 }

grants-IsSpaced_example : IsSpaced 500 0 (grants two_a_second (500 ∷ 700 ∷ 1100 ∷ []))
grants-IsSpaced_example = grants-IsSpaced two_a_second (500 ∷ 700 ∷ 1100 ∷ [])
