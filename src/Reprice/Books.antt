-- ===== src/Reprice/Books.antt =====
-- The books of the reprice job: what it records, calls and reports agree.
use rent_auto.Prelude.{
  ℕ, ◌+◌, ◌≤◌, ◌≡◌, refl, ap, text_append, Bool, true, false, Option, none, some, List, [], ◌∷◌,
  ◌++◌, length, length-append, Bool-cases, inl, inr, arith, if◌then◌else◌,
}
use rent_auto.Domain.{Channel, Error}
use rent_auto.Float.{Double}
use rent_auto.Pricing.{Input, Decision}
use rent_auto.Recon.Execute.{wrap}
use rent_auto.Risk.{channel_ready}
use rent_auto.Reprice.{Candidate, PriceAction, Env, Run, priced_action, join_channel_errs}
use rent_auto.Reprice.Kept.{failed, Kept}
use rent_auto.Reprice.Rounds.{
  Round, unpriced, recorded, sent, Outcome, Outcome-reprice_one, IsPriced,
}
use rent_auto.Reprice.Steps.{
  reprice_one, reprice_from, reprice_channel, run_from, run_reprice, join, listed, reported,
  start_channel,
}

-- the number of recorded actions that failed
abbrev pub failures : {F : Type 0} → List (PriceAction F) → ℕ
failures [] = 0
failures (pa ∷ actions) = failed pa.success + failures actions

failures-append :
    {F : Type 0} (xs ys : List (PriceAction F)) → failures (xs ++ ys) ≡ failures xs + failures ys
failures-append [] ys = omega arith
failures-append (x ∷ xs) ys = let ih = failures-append xs ys in omega arith

join-eq-none : (xs ys : List Error) → join (join_channel_errs xs ys) ≡ none → length ys ≡ 0
unfolding join join_channel_errs
join-eq-none [] [] h = refl
join-eq-none [] (y ∷ ys) h = cc
join-eq-none (x ∷ xs) ys h = cc

join-nil : (xs : List Error) → join xs ≡ none → xs ≡ []
unfolding join
join-nil [] h = refl
join-nil (x ∷ xs) h = cc

module _ {W F : Type 0} ⦃double : Double F⦄ where
  -- what is recorded or counted for `n` more candidates, and no failure without an error
  record Accounts (n : ℕ) (s t : Run W F) : Type 0 where
    counted : length t.actions + length t.strat_errs ≡ length s.actions + length s.strat_errs + n
    reported_all : failures t.actions + length s.op_errs ≤ failures s.actions + length t.op_errs

  Accounts-trans :
      (m n : ℕ) (s t u : Run W F) → Accounts m s t → Accounts n t u → Accounts (m + n) s u
  Accounts-trans m n s t u a b = record {
    counted = omega (arith, a.counted, b.counted);
    reported_all = omega (arith, a.reported_all, b.reported_all);
  }

  Accounts-Kept : (s t : Run W F) → Kept 0 s t → Accounts 0 s t
  Accounts-Kept s t k = record {
    counted = simp (k.same_actions, k.same_strat_errs) (omega arith);
    reported_all = simp k.same_actions (omega (arith, k.more_op_errs));
  }

  Accounts-Round :
      (P : Candidate F → Input F → Decision F → Type 0) (c : Candidate F) (s t : Run W F)
      → Round P c s t
      → Accounts 1 s t
  Accounts-Round P c s t (unpriced n a k o) = record {
    counted = simp a (omega (arith, n));
    reported_all = simp a (omega (arith, o));
  }
  Accounts-Round P c s t (recorded pa h ok a k n o) = record {
    counted = simp a (omega (arith, n, length-append s.actions (pa ∷ [])));
    reported_all = simp a (omega (arith, o, failures-append s.actions (pa ∷ []), ap failed ok));
  }
  Accounts-Round P c s t (sent i d ok text p h a k n o) =
      let pa = priced_action c false i d ok text in
      record {
        counted = simp a (omega (arith, n, length-append s.actions (pa ∷ [])));
        reported_all = simp a (omega (arith, o, failures-append s.actions (pa ∷ [])));
      }

  -- `n` of the candidates were gone through: all of them unless the loop stopped
  abbrev Gone : List (Candidate F) → Run W F → Run W F × Bool → Type 0
  Gone cands s (t, stop) =
      (n : ℕ) × Accounts n s t × (n ≤ length cands) × (stop ≡ false → n ≡ length cands)

  Gone-next :
      (P : Candidate F → Input F → Decision F → Type 0) (c : Candidate F)
      (cands : List (Candidate F)) (s t : Run W F) (stop : Bool) (rest : Run W F × Bool)
      → Outcome P c s (t, stop)
      → Gone cands t rest
      → Gone (c ∷ cands) s (if stop then (t, true) else rest)
  Gone-next P c cands s t stop rest (inl (h, r)) (n, a, le, all) = rw h (
    1 + n,
    Accounts-trans 1 n s t rest.0 (Accounts-Round P c s t r) a,
    omega (arith, le),
    λ on. omega (arith, all on),
  )
  Gone-next P c cands s t stop rest (inr (h, k)) _ =
      rw h (0, Accounts-Kept s t k, omega arith, λ on. cc)

  Gone-reprice_from :
      (e : Env W F) (ch : Channel) (now : ℕ) (cands : List (Candidate F)) (s : Run W F)
      → Gone cands s (reprice_from e ch now cands s)
  unfolding reprice_from
  Gone-reprice_from e ch now [] s =
      (0, record { counted = omega arith; reported_all = omega arith }, omega arith, λ on. refl)
  Gone-reprice_from e ch now (c ∷ cands) s =
      let (t, stop) = reprice_one e ch now c s in
      Gone-next (IsPriced now) c cands s t stop (reprice_from e ch now cands t)
        (Outcome-reprice_one e ch now c s) (Gone-reprice_from e ch now cands t)

  no_silent-listed :
      (e : Env W F) (ch : Channel) (now : ℕ) (s : Run W F)
      (r : W × (List (Candidate F) × Option Error))
      → s.op_errs ≡ []
      → (listed e ch now s r).1 ≡ none
      → failures (listed e ch now s r).0.actions ≤ failures s.actions
  no_silent-listed e ch now s (w, (cands, some err)) empty h = cc
  no_silent-listed e ch now s (w, (cands, none)) empty h =
      let s' = record s { world = w } in
      let t = (reprice_from e ch now cands s').0 in
      let (n, a, le, all) = Gone-reprice_from e ch now cands s' in
      omega (arith, a.reported_all, ap length empty, join-eq-none t.strat_errs t.op_errs h)

  -- A channel whose repricing returns no error has recorded no failed action.
  pub reprice_channel-not_silent :
      (e : Env W F) (ch : Channel) (now : ℕ) (s : Run W F)
      → (reprice_channel e ch now s).1 ≡ none
      → failures (reprice_channel e ch now s).0.actions ≤ failures s.actions
  unfolding reprice_channel
  reprice_channel-not_silent e ch now s h =
      no_silent-listed e ch now (start_channel s) (Env.list_candidates e s.world ch) refl h

  -- the errors so far stay, and without errors in the end there is no failed action
  abbrev Quiet : Run W F → List Error → Run W F × List Error → Type 0
  Quiet s errs (t, errs') = errs' ≡ [] → (errs ≡ []) × (failures t.actions ≤ failures s.actions)

  Quiet-reported :
      (e : Env W F) (ch : Channel) (s : Run W F) (errs : List Error) (r : Run W F × Option Error)
      → (r.1 ≡ none → failures r.0.actions ≤ failures s.actions)
      → Quiet s errs (reported e ch errs r)
  Quiet-reported e ch s errs (t, none) h = λ q. (q, h refl)
  Quiet-reported e ch s errs (t, some err) h = λ q.
      absurd
        (omega (arith, ap length q, length-append errs (wrap (text_append "reprice " ch) err ∷ [])))

  Quiet-run_from :
      (e : Env W F) (now : ℕ) (adapters : List Channel) (s : Run W F) (errs : List Error)
      → Quiet s errs (run_from e now adapters s errs)
  unfolding run_from
  Quiet-run_from e now [] s errs = λ q. (q, omega arith)
  Quiet-run_from e now (ch ∷ adapters) s errs =
      elim (Bool-cases (channel_ready s.cooldowns ch now)) [
        | inr is_off ↦ simp is_off (Quiet-run_from e now adapters s errs)
        | inl is_on ↦
            let r = reported e ch errs (reprice_channel e ch now s) in
            let first =
              Quiet-reported e ch s errs (reprice_channel e ch now s)
                (reprice_channel-not_silent e ch now s) in
            simp is_on (λ q.
              let (h, le) = Quiet-run_from e now adapters r.0 r.1 q in
              let (h0, le0) = first h in (h0, omega (arith, le, le0)))
      ]

  -- A cycle that returns no error has recorded no failed price action, on any channel.
  pub run_reprice-not_silent :
      (e : Env W F) (adapters : List Channel) (s : Run W F)
      → (run_reprice e adapters s).1 ≡ none
      → failures (run_reprice e adapters s).0.actions ≤ failures s.actions
  unfolding run_reprice
  run_reprice-not_silent e adapters s h =
      let r = run_from e (Env.now e s.world) adapters s [] in
      (Quiet-run_from e (Env.now e s.world) adapters s [] (join-nil r.1 h)).1
