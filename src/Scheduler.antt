-- ===== src/Scheduler.antt =====
-- backend/internal/scheduler/scheduler.go: the job table and its operations. Texts of times are lists of
-- bytes, instants and durations are nanoseconds, and the calendar (package time) is a parameter. Each
-- operation is a function on the whole state; what the goroutines do between two critical sections is
-- in `Flights`.
pub mod Clock
pub mod Flights
pub mod Register
use rent_auto.Prelude.{
  ℕ, suc, ◌+◌, ◌-◌, ◌*◌, String, Bool, true, false, not, ◌&&◌, ◌||◌, ◌==◌, Option, none, some, List,
  [], ◌∷◌, ◌++◌, ltb, leb, eqb, length, is_some, update, if◌then◌else◌, ℤ, pos, negsuc, ltb_ℤ,
}
use rent_auto.Scheduler.Clock.{Calendar, scan_hm, minutes_ok}

pub data JobKind : Type 0 where
  interval daily : JobKind

-- Job; `has_fn` is `Fn != nil`
pub record Job : Type 0 where
  pub name : String
  pub kind : JobKind
  pub every : ℕ
  pub at : List ℕ
  pub jitter : ℕ
  pub has_fn : Bool

pub record Entry : Type 0 where
  pub job : Job
  pub next : ℕ
  pub last : Option ℕ
  pub last_ok : Bool
  pub last_err : String
  pub running : Bool
  pub fail_streak : ℕ

-- `waiting` is the counter of the wait group `done`
pub record Scheduler : Type 0 where
  pub jobs : String → Option Entry
  pub order : List String
  pub stopped : Bool
  pub waiting : ℕ

unfoldable pub new : Scheduler
new = record { jobs = λ _. none; order = []; stopped = false; waiting = 0 }

-- `initialNext`, with what rand.Int63n returned
unfoldable pub next_run : Calendar → JobKind → Job → ℕ → ℕ → ℕ
next_run cal interval j now r = if ltb 0 j.jitter then now + j.every + r else now + j.every
next_run cal daily j now r =
    let n = Calendar.today_at cal now (scan_hm j.at) in
    if leb n now then Calendar.add_day cal n else n

abbrev pub initial_next : Calendar → Job → ℕ → ℕ → ℕ
initial_next cal j now r = next_run cal j.kind j now r

abbrev pub valid_daily : JobKind → List ℕ → Bool
valid_daily interval at = true
valid_daily daily at = minutes_ok at

-- `Register`; `false` is an error, and leaves the scheduler as it was
unfoldable pub register : Calendar → Scheduler → Job → ℕ → ℕ → Scheduler × Bool
register cal s j now r =
    if not j.has_fn || j.name == ""
    then (s, false)
    else if not (valid_daily j.kind j.at)
    then (s, false)
    else if is_some (s.jobs j.name)
    then (s, false)
    else (
      record s {
        jobs = update s.jobs j.name (
            some (record {
              job = j;
              next = initial_next cal j now r;
              last = none;
              last_ok = false;
              last_err = "";
              running = false;
              fail_streak = 0;
            }));
        order = s.order ++ (j.name ∷ []);
      },
      true,
    )

abbrev pub is_due : ℕ → Entry → Bool
is_due now e = not e.running && leb e.next now

abbrev pub start_entry : Entry → Entry
start_entry e = record e { running = true }

-- the loop of `runDue` over `order`: the new state and the names that are due
abbrev pub visit : ℕ → String → Option Entry → Scheduler × List String → Scheduler × List String
visit now name none r = r
visit now name (some e) (s, due) =
    if is_due now e
    then (
      record s { jobs = update s.jobs name (some (start_entry e)); waiting = s.waiting + 1 },
      due ++ (name ∷ []),
    )
    else (s, due)

unfoldable pub collect_due : ℕ → List String → Scheduler × List String → Scheduler × List String
collect_due now [] r = r
collect_due now (name ∷ names) r = collect_due now names (visit now name (r.0.jobs name) r)

unfoldable pub run_due : Scheduler → ℕ → Scheduler × List String
unfolding collect_due
run_due s now = if s.stopped then (s, []) else collect_due now s.order (s, [])

-- what a run leaves in its entry: `last`, the error, the streak, and the next run
unfoldable pub settle : Entry → ℕ → ℕ → Option String → Entry
settle e t next none = record e {
  last = some t;
  last_ok = true;
  last_err = "";
  fail_streak = 0;
  next = next;
}
settle e t next (some err) = record e {
  last = some t;
  last_ok = false;
  last_err = err;
  fail_streak = e.fail_streak + 1;
  next = next;
}

-- m[name] = f(m[name]), through the pointer that the goroutine holds
abbrev pub modify : Scheduler → String → (Entry → Entry) → Scheduler
modify s name f = record s {
  jobs = λ n. if n == name then elim (s.jobs n) [ none ↦ none | some e ↦ some (f e) ] else s.jobs n;
}

-- what the end of a scheduled run, and of a triggered one, makes of the entry
abbrev pub end_entry : Calendar → ℕ → ℕ → ℕ → Option String → Entry → Entry
end_entry cal t now r err e =
    settle (record e { running = false }) t (initial_next cal e.job now r) err

abbrev pub record_entry : Calendar → ℕ → ℕ → ℕ → Option String → Entry → Entry
record_entry cal t now r err e = settle e t (initial_next cal e.job now r) err

abbrev pub release_entry : Entry → Entry
release_entry e = record e { running = false }

-- the end of a scheduled run, under the lock: `t` is the tick, `now` the time of the end
unfoldable pub end_scheduled : Calendar → Scheduler → String → ℕ → ℕ → ℕ → Option String → Scheduler
unfolding settle next_run
end_scheduled cal s name t now r err = modify s name (end_entry cal t now r err)

-- the first critical section of `Trigger`
pub data TriggerResult : Type 0 where
  started stopped unknown_job already_running : TriggerResult

abbrev pub trigger_entry : Scheduler → String → Option Entry → Scheduler × TriggerResult
trigger_entry s name none = (s, unknown_job)
trigger_entry s name (some e) = if e.running then (s, already_running) else (
  record s { jobs = update s.jobs name (some (start_entry e)); waiting = s.waiting + 1 },
  started,
)

unfoldable pub trigger : Scheduler → String → Scheduler × TriggerResult
trigger s name = if s.stopped then (s, stopped) else trigger_entry s name (s.jobs name)

-- its second one, after the run: the entry stays `running`
unfoldable pub record_trigger :
    Calendar → Scheduler → String → ℕ → ℕ → ℕ → Option String → Scheduler
unfolding settle next_run
record_trigger cal s name t now r err = modify s name (record_entry cal t now r err)

-- the deferred function: first `s.done.Done()`, then `running = false` under the lock
unfoldable pub done : Scheduler → Scheduler
done s = record s { waiting = s.waiting - 1 }

unfoldable pub release : Scheduler → String → Scheduler
release s name = modify s name release_entry

-- closing `stop`, which is idempotent; the wait for `done` is in `Flights`
unfoldable pub stop : Scheduler → Scheduler
stop s = record s { stopped = true }

pub record Status : Type 0 where
  pub name : String
  pub next_run : ℕ
  pub last_run : Option ℕ
  pub last_ok : Bool
  pub last_error : String
  pub running : Bool

abbrev pub status_of : String → Option Entry → List Status
status_of name none = []
status_of name (some e) =
    record {
      name = name;
      next_run = e.next;
      last_run = e.last;
      last_ok = e.last_ok;
      last_error = e.last_err;
      running = e.running;
    }
    ∷ []

unfoldable pub status_list : Scheduler → List String → List Status
status_list s [] = []
status_list s (name ∷ names) = status_of name (s.jobs name) ++ status_list s names
