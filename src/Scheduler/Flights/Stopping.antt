-- ===== src/Scheduler/Flights/Stopping.antt =====
-- After `Stop` has closed the channel no run starts, and the runs in flight come to an end: each has a
-- number of critical sections left that only its own goroutine takes, and can always take the next one.
use rent_auto.Prelude.{
  ℕ, ◌+◌, ◌≡◌, ◌≢◌, refl, ap, ◌∙◌, true, List, [], ◌∷◌, ◌++◌, arith, append-nil, ◌<◌, ◌≤◌, none,
  String,
}
use rent_auto.Scheduler.Clock.{Calendar}
use rent_auto.Scheduler.{
  register, run_due, trigger, end_scheduled, record_trigger, release, done, stop,
}
use rent_auto.Scheduler.Flights.{
  System, Flight, Phase, Reach, next, idle, flight, scheduled, ended, manual, recorded, signalled,
  Step, do_register, do_tick, do_trigger, do_end, do_done, do_record, do_signal, do_release,
  do_stop,
}
use rent_auto.Scheduler.Flights.Exclusion.{counted, Reach-exclusion}

-- the critical sections that a run has left, and that the runs have left together
abbrev pub left : Phase → ℕ
left (scheduled t) = 2
left ended = 1
left manual = 3
left recorded = 2
left signalled = 1

abbrev pub work : List Flight → ℕ
work [] = 0
work (f ∷ fs) = left f.phase + work fs

-- whether a step is one of a run in flight
abbrev pub moves : {cal : Calendar} {s t : System} → Step cal s t → ℕ
moves (do_register s j now r) = 0
moves (do_tick s now) = 0
moves (do_trigger s name) = 0
moves (do_end s xs ys name t now r err q) = 1
moves (do_done s xs ys name q) = 1
moves (do_record s xs ys name t now r err q) = 1
moves (do_signal s xs ys name q) = 1
moves (do_release s xs ys name q) = 1
moves (do_stop s) = 0

-- An interleaving of steps, with the number of those of runs in flight.
pub data Course (cal : Calendar) (s : System) : ℕ → System → Type 0 where
  at_start : Course cal s 0 s
  then_step :
      {n : ℕ} {t u : System}
      → Course cal s n t
      → (st : Step cal t u) → Course cal s (n + moves st) u

work-append : (xs ys : List Flight) → work (xs ++ ys) ≡ work xs + work ys
work-append [] ys = omega arith
work-append (x ∷ xs) ys = omega (arith, work-append xs ys)

work-mid :
    (fs xs ys : List Flight) (f : Flight)
    → fs ≡ xs ++ (f ∷ ys)
    → work fs ≡ work xs + (left f.phase + work ys)
work-mid fs xs ys f q = ap work q ∙ work-append xs (f ∷ ys)

left_some : (p : Phase) → 0 < left p
left_some (scheduled t) = omega arith
left_some ended = omega arith
left_some manual = omega arith
left_some recorded = omega arith
left_some signalled = omega arith

no_work : (fs : List Flight) → work fs ≡ 0 → fs ≡ []
no_work [] h = refl
no_work (f ∷ fs) h = absurd (omega (arith, left_some f.phase, h))

record Drains (n : ℕ) (s t : System) : Type 0 where
  still : t.table.stopped ≡ true
  spent : n + work t.flights ≡ work s.flights

module _ (cal : Calendar) where
  Step-Drains :
      {s t : System} → (st : Step cal s t) → s.table.stopped ≡ true → Drains (moves st) s t
  unfolding register run_due trigger end_scheduled done record_trigger release stop
  Step-Drains (do_register s j now r) e = record { still = ground arith; spent = omega arith }
  Step-Drains (do_tick s now) e = simp (e, append-nil) (record { still = e; spent = omega arith })
  Step-Drains (do_trigger s name) e =
      simp (e, append-nil) (record { still = e; spent = omega arith })
  Step-Drains (do_end s xs ys name t now r err q) e = record {
    still = e;
    spent = omega (
      arith,
      work-mid s.flights xs ys (flight name (scheduled t)) q,
      work-append xs (flight name ended ∷ ys),
    );
  }
  Step-Drains (do_done s xs ys name q) e = record {
    still = e;
    spent = omega (arith, work-mid s.flights xs ys (flight name ended) q, work-append xs ys);
  }
  Step-Drains (do_record s xs ys name t now r err q) e = record {
    still = e;
    spent = omega (
      arith,
      work-mid s.flights xs ys (flight name manual) q,
      work-append xs (flight name recorded ∷ ys),
    );
  }
  Step-Drains (do_signal s xs ys name q) e = record {
    still = e;
    spent = omega (
      arith,
      work-mid s.flights xs ys (flight name recorded) q,
      work-append xs (flight name signalled ∷ ys),
    );
  }
  Step-Drains (do_release s xs ys name q) e = record {
    still = e;
    spent = omega (arith, work-mid s.flights xs ys (flight name signalled) q, work-append xs ys);
  }
  Step-Drains (do_stop s) e = record { still = refl; spent = omega arith }

  Course-Drains :
      {s : System} {n : ℕ} {t : System} → Course cal s n t → s.table.stopped ≡ true → Drains n s t
  Course-Drains at_start e = record { still = e; spent = omega arith }
  Course-Drains (then_step c st) e =
      let a = Course-Drains c e in
      let b = Step-Drains st a.still in
      record { still = b.still; spent = omega (arith, a.spent, b.spent) }

  Reach-Course :
      {s : System} {n : ℕ} {t : System} → Reach cal idle s → Course cal s n t → Reach cal idle t
  Reach-Course r at_start = r
  Reach-Course r (then_step c st) = next (Reach-Course r c) st

  Moving : System → Type 0
  Moving t = (u : System) × (st : Step cal t u) × (moves st ≡ 1)

  Moving-as :
      (t : System) (name : String) (p : Phase) (fs : List Flight)
      → t.flights ≡ flight name p ∷ fs
      → Moving t
  unfolding Moving
  Moving-as t name (scheduled at) fs q = (_, do_end t [] fs name at 0 0 none q, refl)
  Moving-as t name ended fs q = (_, do_done t [] fs name q, refl)
  Moving-as t name manual fs q = (_, do_record t [] fs name 0 0 0 none q, refl)
  Moving-as t name recorded fs q = (_, do_signal t [] fs name q, refl)
  Moving-as t name signalled fs q = (_, do_release t [] fs name q, refl)

  -- one of the runs in flight can take its next step
  can_move : (t : System) (fs : List Flight) → t.flights ≡ fs → fs ≢ [] → Moving t
  can_move t [] q some_left = absurd (some_left refl)
  can_move t (f ∷ fs) q some_left = Moving-as t f.name f.phase fs q

  -- From a reachable scheduler that is stopped on, in every interleaving, the runs in flight take at most as many steps as
  -- they have left; when they have taken them all, none is in flight and the wait group counts none; and
  -- as long as one is in flight, one of them can take a step.
  pub Course-drains :
      {s : System} {n : ℕ} {t : System}
      → Reach cal idle s
      → Course cal s n t
      → s.table.stopped ≡ true
      → (n ≤ work s.flights)
        × (n ≡ work s.flights → (t.flights ≡ []) × (t.table.waiting ≡ 0))
        × (t.flights ≢ [] → (u : System) × (st : Step cal t u) × (moves st ≡ 1))
  unfolding Moving
  Course-drains {s} {n} {t} r c e =
      let d = Course-Drains c e in
      let (held, shown, waits) = Reach-exclusion cal (Reach-Course r c) "" in
      (
        omega (arith, d.spent),
        λ all.
            let empty : t.flights ≡ [] = no_work t.flights (omega (arith, d.spent, all)) in
            (empty, waits ∙ ap counted empty),
        λ some_left. can_move t t.flights refl some_left,
      )
