-- ===== src/Scheduler/Flights/Exclusion.antt =====
-- No job runs twice at once, and the wait group counts the runs in flight.
use rent_auto.Prelude.{
  ℕ, ◌+◌, ◌≤◌, String, true, false, ◌&&◌, ◌==◌, Option, none, some, List, [], ◌∷◌, ◌++◌, ◌≡◌, refl,
  if◌then◌else◌, ap, ◌∙◌, sym, arith, Bool-cases, Option-cases, inl, inr, eq_iff, append-nil,
}
use rent_auto.Scheduler.Clock.{Calendar}
use rent_auto.Scheduler.{
  Entry, Scheduler, register, run_due, collect_due, visit, is_due, end_scheduled, trigger,
  trigger_entry, record_trigger, release, done, stop, new, settle, modify, end_entry, record_entry,
  release_entry, initial_next,
}
use rent_auto.Scheduler.Flights.{
  Phase, Flight, is_holding, is_counted, System, flight, scheduled, ended, manual, recorded,
  signalled, depart, depart_manual, Step, Reach, idle, here, next, do_register, do_tick, do_trigger,
  do_end, do_done, do_record, do_signal, do_release, do_stop,
}

-- the runs that hold a job, and those that the wait group counts
abbrev pub holders : String → List Flight → ℕ
holders n [] = 0
holders n (f ∷ fs) = (if n == f.name && is_holding f.phase then 1 else 0) + holders n fs

abbrev pub counted : List Flight → ℕ
counted [] = 0
counted (f ∷ fs) = (if is_counted f.phase then 1 else 0) + counted fs

holders-append :
    (n : String) (xs ys : List Flight) → holders n (xs ++ ys) ≡ holders n xs + holders n ys
holders-append n [] ys = omega arith
holders-append n (f ∷ xs) ys = omega (arith, holders-append n xs ys)

pub counted-append : (xs ys : List Flight) → counted (xs ++ ys) ≡ counted xs + counted ys
counted-append [] ys = omega arith
counted-append (f ∷ xs) ys = omega (arith, counted-append xs ys)

abbrev pub busy : Option Entry → ℕ
busy none = 0
busy (some e) = if e.running then 1 else 0

-- `running` is set exactly while one run holds the job; `done` counts the runs.
pub record Inv (s : System) : Type 0 where
  pub held : (n : String) → holders n s.flights ≡ busy (s.table.jobs n)
  pub waits : s.table.waiting ≡ counted s.flights

module _ (now : ℕ) where
  holders-depart_snoc :
      (n name : String) (due : List String)
      → holders n (depart now (due ++ (name ∷ [])))
        ≡ holders n (depart now due) + (if n == name then 1 else 0)
  holders-depart_snoc n name [] = ground arith
  holders-depart_snoc n name (d ∷ due) = omega (arith, holders-depart_snoc n name due)

  counted-depart_snoc :
      (name : String) (due : List String)
      → counted (depart now (due ++ (name ∷ []))) ≡ counted (depart now due) + 1
  counted-depart_snoc name [] = omega arith
  counted-depart_snoc name (d ∷ due) = omega (arith, counted-depart_snoc name due)

  module _ (fs : List Flight) where
    record During (r : Scheduler × List String) : Type 0 where
      held : (n : String) → holders n fs + holders n (depart now r.1) ≡ busy (r.0.jobs n)
      waits : r.0.waiting ≡ counted fs + counted (depart now r.1)

    visit-During :
        (name : String) (o : Option Entry) (r : Scheduler × List String)
        → r.0.jobs name ≡ o
        → During r
        → During (visit now name o r)
    visit-During name none r e v = v
    visit-During name (some x) (s, due) e v = elim (Bool-cases (is_due now x)) [
      | inr f ↦ rw f v
      | inl f ↦ rw f (record {
        held = λ n. ground (arith, v.held n, holders-depart_snoc n name due, eq_iff n name);
        waits = ground (arith, v.waits, counted-depart_snoc name due);
      })
    ]

    collect_due-During :
        (names : List String) (r : Scheduler × List String)
        → During r
        → During (collect_due now names r)
    unfolding collect_due
    collect_due-During [] r v = v
    collect_due-During (name ∷ names) r v =
        collect_due-During names _ (visit-During name (r.0.jobs name) r refl v)

-- In the middle of the list.
holders-mid :
    (n : String) (fs xs ys : List Flight) (f : Flight)
    → fs ≡ xs ++ (f ∷ ys)
    → holders n fs
      ≡ holders n xs + ((if n == f.name && is_holding f.phase then 1 else 0) + holders n ys)
holders-mid n fs xs ys f e = ap (holders n) e ∙ holders-append n xs (f ∷ ys)

pub counted-mid :
    (fs xs ys : List Flight) (f : Flight)
    → fs ≡ xs ++ (f ∷ ys)
    → counted fs ≡ counted xs + ((if is_counted f.phase then 1 else 0) + counted ys)
counted-mid fs xs ys f e = ap counted e ∙ counted-append xs (f ∷ ys)

-- Steps that change one entry and one run.
module _ (s : System) (v : Inv s) (xs ys : List Flight) (name : String) where
  -- a run that holds the job lets go of it, and stays (`ended`) or not
  let_go :
      (p : Phase) (f : Entry → Entry)
      → s.flights ≡ xs ++ (flight name p ∷ ys)
      → is_holding p ≡ true
      → ((e : Entry) → (f e).running ≡ false)
      → (n : String) → holders n xs + holders n ys ≡ busy ((modify s.table name f).jobs n)
  let_go p f e h off n = elim (Option-cases (s.table.jobs n)) [
    | inl o ↦ rw o (ground (arith, v.held n, holders-mid n s.flights xs ys (flight name p) e))
    | inr (x, o) ↦
        rw o (ground (arith, v.held n, holders-mid n s.flights xs ys (flight name p) e, off x))
  ]

  -- a run changes its entry and keeps what it holds
  keep :
      (f : Entry → Entry)
      → ((e : Entry) → (f e).running ≡ e.running)
      → (n : String) → busy ((modify s.table name f).jobs n) ≡ busy (s.table.jobs n)
  keep f same n = elim (Option-cases (s.table.jobs n)) [
    | inl o ↦ rw o (ground arith)
    | inr (x, o) ↦ rw o (ground (arith, same x))
  ]

settle-running :
    (e : Entry) (t later : ℕ) (err : Option String) → (settle e t later err).running ≡ e.running
unfolding settle
settle-running e t later none = refl
settle-running e t later (some err) = refl

module _ (cal : Calendar) where
  tick-Inv :
      (s : System) (now : ℕ)
      → Inv s
      → Inv (record {
        table = (run_due s.table now).0;
        flights = s.flights ++ depart now (run_due s.table now).1;
      })
  unfolding run_due
  tick-Inv s now v = elim (Bool-cases s.table.stopped) [
    | inl e ↦ simp (e, append-nil) (record { held = v.held; waits = v.waits })
    | inr e ↦
        let d =
          collect_due-During now s.flights s.table.order (s.table, [])
            (record { held = λ n. omega (arith, v.held n); waits = omega (arith, v.waits) }) in
        simp e (record {
          held = λ n. holders-append n s.flights _ ∙ d.held n;
          waits = d.waits ∙ sym (counted-append s.flights _);
        })
  ]

  trigger-Inv :
      (s : System) (name : String)
      → Inv s
      → Inv (record {
        table = (trigger s.table name).0;
        flights = s.flights ++ depart_manual name (trigger s.table name).1;
      })
  unfolding trigger
  trigger-Inv s name v = elim (Bool-cases s.table.stopped) [
    | inl e ↦ simp (e, append-nil) (record { held = v.held; waits = v.waits })
    | inr e ↦ simp e (entered (s.table.jobs name) refl)
  ]
    where
      entered :
          (o : Option Entry)
          → s.table.jobs name ≡ o
          → Inv (record {
            table = (trigger_entry s.table name o).0;
            flights = s.flights ++ depart_manual name (trigger_entry s.table name o).1;
          })
      entered none q = rw append-nil (record { held = v.held; waits = v.waits })
      entered (some x) q = elim (Bool-cases x.running) [
        | inl r ↦ rw (r, append-nil) (record { held = v.held; waits = v.waits })
        | inr r ↦ rw r (record {
          held = λ n. ground (
            arith,
            holders-append n s.flights (flight name manual ∷ []),
            v.held n,
            eq_iff n name,
          );
          waits = ground (arith, counted-append s.flights (flight name manual ∷ []), v.waits);
        })
      ]

  pub Step-Inv : {s t : System} → Step cal s t → Inv s → Inv t
  unfolding register end_scheduled done record_trigger release stop
  Step-Inv (do_register s j now r) v = record {
    held = λ n. ground (arith, v.held n, eq_iff n j.name);
    waits = ground (arith, v.waits);
  }
  Step-Inv (do_tick s now) v = tick-Inv s now v
  Step-Inv (do_trigger s name) v = trigger-Inv s name v
  Step-Inv (do_end s xs ys name t now r err e) v = record {
    held = λ n.
        holders-append n xs _
        ∙ ground (
          arith,
          let_go s v xs ys name (scheduled t) (end_entry cal t now r err) e refl
              (λ x. settle-running (release_entry x) t (initial_next cal x.job now r) err) n,
        );
    waits = ground (
      arith,
      v.waits,
      counted-mid s.flights xs ys (flight name (scheduled t)) e,
      counted-append xs (flight name ended ∷ ys),
    );
  }
  Step-Inv (do_done s xs ys name e) v = record {
    held = λ n. ground (
      arith,
      v.held n,
      holders-mid n s.flights xs ys (flight name ended) e,
      holders-append n xs ys,
    );
    waits =
        ground
          (arith, v.waits, counted-mid s.flights xs ys (flight name ended) e, counted-append xs ys);
  }
  Step-Inv (do_record s xs ys name t now r err e) v = record {
    held = λ n. ground (
      arith,
      v.held n,
      holders-mid n s.flights xs ys (flight name manual) e,
      holders-append n xs (flight name recorded ∷ ys),
      keep s v xs ys name (record_entry cal t now r err)
          (λ x. settle-running x t (initial_next cal x.job now r) err) n,
    );
    waits = ground (
      arith,
      v.waits,
      counted-mid s.flights xs ys (flight name manual) e,
      counted-append xs (flight name recorded ∷ ys),
    );
  }
  Step-Inv (do_signal s xs ys name e) v = record {
    held = λ n. ground (
      arith,
      v.held n,
      holders-mid n s.flights xs ys (flight name recorded) e,
      holders-append n xs (flight name signalled ∷ ys),
    );
    waits = ground (
      arith,
      v.waits,
      counted-mid s.flights xs ys (flight name recorded) e,
      counted-append xs (flight name signalled ∷ ys),
    );
  }
  Step-Inv (do_release s xs ys name e) v = record {
    held = λ n.
        holders-append n xs ys ∙ let_go s v xs ys name signalled release_entry e refl (λ x. refl) n;
    waits = ground (
      arith,
      v.waits,
      counted-mid s.flights xs ys (flight name signalled) e,
      counted-append xs ys,
    );
  }
  Step-Inv (do_stop s) v = record { held = v.held; waits = v.waits }

  Reach-Inv : {s t : System} → Inv s → Reach cal s t → Inv t
  Reach-Inv v here = v
  Reach-Inv v (next r st) = Step-Inv st (Reach-Inv v r)

  idle-Inv : Inv idle
  unfolding new
  idle-Inv = record { held = λ n. refl; waits = refl }

  busy_le : (o : Option Entry) → busy o ≤ 1
  busy_le none = omega arith
  busy_le (some e) = ground arith

  -- Whatever ticks, manual triggers, ends and stops interleave, a job has at most one run at a time
  -- that holds it, it has one exactly when it is shown as running, and the wait group's counter is
  -- the number of runs that have not called `Done`.
  pub Reach-exclusion :
      {s : System}
      → Reach cal idle s
      → (n : String)
      → (holders n s.flights ≤ 1)
        × (holders n s.flights ≡ busy (s.table.jobs n))
        × (s.table.waiting ≡ counted s.flights)
  Reach-exclusion {s} r n =
      let v = Reach-Inv idle-Inv r in
      (omega (arith, v.held n, busy_le (s.table.jobs n)), v.held n, v.waits)
