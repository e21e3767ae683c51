-- ===== src/Reprice/Calls.antt =====
-- The calls that the reprice job makes: what it sends, what it records of it, and a dry run.
use rent_auto.Prelude.{
  ℕ, ◌≡◌, refl, ap, ◌∙◌, sym, String, Bool, false, not, ◌&&◌, ◌==◌, Option, none, some, List, [],
  ◌∷◌, ◌++◌, Bool-cases, inl, inr, append-nil, if◌then◌else◌,
}
use rent_auto.Domain.{Channel, Error}
use rent_auto.Float.{Double}
use rent_auto.Pricing.{Input, Decision}
use rent_auto.Risk.{channel_ready}
use rent_auto.Reprice.{Candidate, Request, PriceAction, Env, Run, priced_action, request_of}
use rent_auto.Reprice.Rounds.{
  Round, unpriced, recorded, sent, Outcome, Outcome-reprice_one, IsPriced,
}
use rent_auto.Reprice.Steps.{
  reprice_one, reprice_from, reprice_channel, listed, reported, run_from, run_reprice,
  start_channel,
}

-- a price action that stands for a call of the platform
abbrev is_sent : {F : Type 0} → PriceAction F → Bool
is_sent pa = pa.action == "reprice" && not pa.dry_run

-- the assets of the real repricings handed to the store, and of the requests
abbrev pub recorded_assets : {F : Type 0} → List (PriceAction F) → List String
recorded_assets [] = []
recorded_assets (pa ∷ actions) =
    if is_sent pa then pa.asset_id ∷ recorded_assets actions else recorded_assets actions

abbrev pub called_assets : {F : Type 0} → List (Request F) → List String
called_assets [] = []
called_assets (r ∷ calls) = r.asset_ref ∷ called_assets calls

recorded_assets-append :
    {F : Type 0} (xs ys : List (PriceAction F))
    → recorded_assets (xs ++ ys) ≡ recorded_assets xs ++ recorded_assets ys
recorded_assets-append [] ys = refl
recorded_assets-append (x ∷ xs) ys = elim (Bool-cases (is_sent x)) [
  | inl h ↦ simp h (ap (λ zs. x.asset_id ∷ zs) (recorded_assets-append xs ys))
  | inr h ↦ simp h (recorded_assets-append xs ys)
]

called_assets-append :
    {F : Type 0} (xs ys : List (Request F))
    → called_assets (xs ++ ys) ≡ called_assets xs ++ called_assets ys
called_assets-append [] ys = refl
called_assets-append (x ∷ xs) ys = ap (λ zs. x.asset_ref ∷ zs) (called_assets-append xs ys)

module _ {W F : Type 0} ⦃double : Double F⦄ where
  abbrev Matched : Run W F → Type 0
  Matched s = recorded_assets s.actions ≡ called_assets s.calls

  Matched-Round :
      (P : Candidate F → Input F → Decision F → Type 0) (c : Candidate F) (s t : Run W F)
      → Round P c s t
      → Matched s
      → Matched t
  Matched-Round P c s t (unpriced n a k o) m = simp (a, k) m
  Matched-Round P c s t (recorded pa h ok a k n o) m =
      simp (a, k)
        (recorded_assets-append s.actions (pa ∷ [])
          ∙ simp h (append-nil (recorded_assets s.actions) ∙ m))
  Matched-Round P c s t (sent i d ok text p h a k n o) m =
      simp (a, k)
        (recorded_assets-append s.actions (priced_action c false i d ok text ∷ [])
          ∙ (ap (λ xs. xs ++ (c.asset_id ∷ [])) m
              ∙ sym (called_assets-append s.calls (request_of c d ∷ []))))

  Matched-next :
      (P : Candidate F → Input F → Decision F → Type 0) (c : Candidate F) (s t : Run W F)
      (stop : Bool)
      → Outcome P c s (t, stop)
      → Matched s
      → Matched t
  Matched-next P c s t stop (inl (h, r)) m = Matched-Round P c s t r m
  Matched-next P c s t stop (inr (h, k)) m = simp (k.same_actions, k.same_calls) m

  Matched-reprice_from :
      (e : Env W F) (ch : Channel) (now : ℕ) (cands : List (Candidate F)) (s : Run W F)
      → Matched s
      → Matched (reprice_from e ch now cands s).0
  unfolding reprice_from
  Matched-reprice_from e ch now [] s m = m
  Matched-reprice_from e ch now (c ∷ cands) s m =
      let (t, stop) = reprice_one e ch now c s in
      let here = Matched-next (IsPriced now) c s t stop (Outcome-reprice_one e ch now c s) m in
      let later = Matched-reprice_from e ch now cands t here in
      elim (Bool-cases stop) [ inl h ↦ simp h here | inr h ↦ simp h later ]

  Matched-listed :
      (e : Env W F) (ch : Channel) (now : ℕ) (s : Run W F)
      (r : W × (List (Candidate F) × Option Error))
      → Matched s
      → Matched (listed e ch now s r).0
  Matched-listed e ch now s (w, (cands, some err)) m = m
  Matched-listed e ch now s (w, (cands, none)) m =
      Matched-reprice_from e ch now cands (record s { world = w }) m

  Matched-reprice_channel :
      (e : Env W F) (ch : Channel) (now : ℕ) (s : Run W F)
      → Matched s
      → Matched (reprice_channel e ch now s).0
  unfolding reprice_channel
  Matched-reprice_channel e ch now s m =
      Matched-listed e ch now (start_channel s) (Env.list_candidates e s.world ch) m

  Matched-reported :
      (e : Env W F) (ch : Channel) (errs : List Error) (r : Run W F × Option Error)
      → Matched r.0
      → Matched (reported e ch errs r).0
  Matched-reported e ch errs (t, none) m = m
  Matched-reported e ch errs (t, some err) m = m

  Matched-run_from :
      (e : Env W F) (now : ℕ) (adapters : List Channel) (s : Run W F) (errs : List Error)
      → Matched s
      → Matched (run_from e now adapters s errs).0
  unfolding run_from
  Matched-run_from e now [] s errs m = m
  Matched-run_from e now (ch ∷ adapters) s errs m =
      elim (Bool-cases (channel_ready s.cooldowns ch now)) [
        | inr is_off ↦ simp is_off (Matched-run_from e now adapters s errs m)
        | inl is_on ↦
            let r = reported e ch errs (reprice_channel e ch now s) in
            simp is_on (
              Matched-run_from e now adapters r.0 r.1
                (Matched-reported e ch errs _ (Matched-reprice_channel e ch now s m)))
      ]

  -- The price actions that a cycle hands to the store as real repricings, whether the store takes them or
  -- not, name, in order, exactly the assets of the requests that it sent to the platforms.
  pub run_reprice-journals_calls :
      (e : Env W F) (adapters : List Channel) (s : Run W F)
      → recorded_assets s.actions ≡ called_assets s.calls
      → let t = (run_reprice e adapters s).0 in recorded_assets t.actions ≡ called_assets t.calls
  unfolding run_reprice
  run_reprice-journals_calls e adapters s m = Matched-run_from e (Env.now e s.world) adapters s [] m
