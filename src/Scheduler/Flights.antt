-- ===== src/Scheduler/Flights.antt =====
-- backend/internal/scheduler/scheduler.go: the runs in flight, as interleavings. A step is one critical
-- section (or one `Done`) of one goroutine; any goroutine may move, in any order.
pub mod Exclusion
pub mod Stopping
use rent_auto.Prelude.{
  ℕ, String, Bool, true, false, ◌&&◌, ◌==◌, Option, none, some, List, [], ◌∷◌, ◌++◌, ◌≡◌,
  if◌then◌else◌, length, filter,
}
use rent_auto.Scheduler.Clock.{Calendar}
use rent_auto.Scheduler.{
  Job, Scheduler, register, run_due, end_scheduled, trigger, TriggerResult, started, record_trigger,
  release, done, stop, new,
}

-- Where a run is: a scheduled one works since its tick, then only owes `Done`; a triggered one works,
-- has recorded its result, then has called `Done` and owes the release of `running`.
pub data Phase : Type 0 where
  scheduled : ℕ → Phase
  ended manual recorded signalled : Phase

pub record Flight : Type 0 where
  pub name : String
  pub phase : Phase

-- The run has set `running` and not yet reset it.
abbrev pub is_holding : Phase → Bool
is_holding ended = false
is_holding _ = true

-- The run has not called `Done`.
abbrev pub is_counted : Phase → Bool
is_counted signalled = false
is_counted _ = true

pub record System : Type 0 where
  pub table : Scheduler
  pub flights : List Flight

abbrev pub flight : String → Phase → Flight
flight name phase = record { name = name; phase = phase }

-- the goroutines that `runDue` starts
abbrev pub depart : ℕ → List String → List Flight
depart t [] = []
depart t (name ∷ due) = flight name (scheduled t) ∷ depart t due

abbrev pub depart_manual : String → TriggerResult → List Flight
depart_manual name started = flight name manual ∷ []
depart_manual name _ = []

pub data Step (cal : Calendar) : System → System → Type 0 where
  do_register :
      (s : System) (j : Job) (now r : ℕ)
      → Step cal s (record s { table = (register cal s.table j now r).0 })
  do_tick :
      (s : System) (now : ℕ)
      → Step cal s (record {
        table = (run_due s.table now).0;
        flights = s.flights ++ depart now (run_due s.table now).1;
      })
  do_trigger :
      (s : System) (name : String)
      → Step cal s (record {
        table = (trigger s.table name).0;
        flights = s.flights ++ depart_manual name (trigger s.table name).1;
      })
  do_end :
      (s : System) (xs ys : List Flight) (name : String) (t now r : ℕ) (err : Option String)
      → s.flights ≡ xs ++ (flight name (scheduled t) ∷ ys)
      → Step cal s (record {
        table = end_scheduled cal s.table name t now r err;
        flights = xs ++ (flight name ended ∷ ys);
      })
  do_done :
      (s : System) (xs ys : List Flight) (name : String)
      → s.flights ≡ xs ++ (flight name ended ∷ ys)
      → Step cal s (record { table = done s.table; flights = xs ++ ys })
  do_record :
      (s : System) (xs ys : List Flight) (name : String) (t now r : ℕ) (err : Option String)
      → s.flights ≡ xs ++ (flight name manual ∷ ys)
      → Step cal s (record {
        table = record_trigger cal s.table name t now r err;
        flights = xs ++ (flight name recorded ∷ ys);
      })
  do_signal :
      (s : System) (xs ys : List Flight) (name : String)
      → s.flights ≡ xs ++ (flight name recorded ∷ ys)
      → Step cal s (record { table = done s.table; flights = xs ++ (flight name signalled ∷ ys) })
  do_release :
      (s : System) (xs ys : List Flight) (name : String)
      → s.flights ≡ xs ++ (flight name signalled ∷ ys)
      → Step cal s (record { table = release s.table name; flights = xs ++ ys })
  do_stop : (s : System) → Step cal s (record s { table = stop s.table })

pub data Reach (cal : Calendar) (s : System) : System → Type 0 where
  here : Reach cal s s
  next : {t u : System} → Reach cal s t → Step cal t u → Reach cal s u

abbrev pub idle : System
idle = record { table = new; flights = [] }
