-- ===== src/Reprice/Dry.antt =====
-- A dry run of the reprice job.
use rent_auto.Prelude.{
  ℕ, ◌≡◌, refl, ap, ◌∙◌, String, text_append, Bool, true, not, ◌||◌, Option, none, some, List, [],
  ◌∷◌, ◌++◌, Bool-cases, inl, inr,
}
use rent_auto.Domain.{Channel, Error}
use rent_auto.Float.{Double}
use rent_auto.Pricing.{Input, Params, Decision}
use rent_auto.Risk.{channel_ready}
use rent_auto.Reprice.{
  Candidate, is_dry, skip_action, Strategy, PriceAction, Env, Run, priced_action,
}
use rent_auto.Reprice.Steps.{
  strategy_key, ready, stored, insert, act, parsed, with_cache, looked_up, reprice_one,
  reprice_from, reprice_channel, listed, reported, run_from, run_reprice, start_channel,
}

module _ {W F : Type 0} where
  -- `t` follows `s` without a call and without a penalty
  record Idle (s t : Run W F) : Type 0 where
    no_calls : t.calls ≡ s.calls
    no_penalties : t.cooldowns ≡ s.cooldowns

  Idle-trans : (s t u : Run W F) → Idle s t → Idle t u → Idle s u
  Idle-trans s t u a b = record {
    no_calls = b.no_calls ∙ a.no_calls;
    no_penalties = b.no_penalties ∙ a.no_penalties;
  }

  Idle-stored : (text : String) (r : W × Option Error) (s : Run W F) → Idle s (stored text r s)
  Idle-stored text (w, none) s = record { no_calls = refl; no_penalties = refl }
  Idle-stored text (w, some err) s = record { no_calls = refl; no_penalties = refl }

  Idle-insert :
      (e : Env W F) (c : Candidate F) (what : String) (pa : PriceAction F) (s : Run W F)
      → Idle s (insert e c what pa s)
  Idle-insert e c what pa s =
      let k =
        Idle-stored
          (text_append what (text_append c.hash_name (text_append "/" (Env.itoa e c.listing_id))))
          (Env.insert_action e s.world pa) (record s { actions = s.actions ++ (pa ∷ []) }) in
      record { no_calls = k.no_calls; no_penalties = k.no_penalties }

  Idle-act :
      (e : Env W F) (ch : Channel) (c : Candidate F) (dry : Bool) (i : Input F) (d : Decision F)
      (s : Run W F) (w : W) (cache : String → Option (Params F))
      → dry ≡ true
      → Idle s (act e ch c dry i d (record s { world = w; cache = cache })).0
  unfolding act
  Idle-act e ch c dry i d s w cache h =
      let s' = record s { world = w; cache = cache } in
      let skipped = Idle-insert e c "price_action skip " (skip_action c dry d) s' in
      let rehearsed =
        Idle-insert e c "price_action dryrun " (priced_action c true i d true "") s' in
      elim (Bool-cases d.ok) [
        | inr refused ↦
            simp refused
              (record { no_calls = skipped.no_calls; no_penalties = skipped.no_penalties })
        | inl ok ↦
            simp (ok, h)
              (record { no_calls = rehearsed.no_calls; no_penalties = rehearsed.no_penalties })
      ]

module _ {W F : Type 0} ⦃double : Double F⦄ where
  Idle-with_cache :
      (e : Env W F) (ch : Channel) (now : ℕ) (c : Candidate F) (es : Strategy) (s : Run W F) (w : W)
      (o : Option (Params F))
      → e.dry_run ≡ true
      → Idle s (with_cache e ch now c es (record s { world = w }) o).0
  unfolding is_dry
  Idle-with_cache e ch now c es s w (some p) h =
      Idle-act e ch c _ _ _ s _ s.cache
        (ap (λ b. b || (not es.global_real_enabled || not es.real_enabled)) h)
  Idle-with_cache e ch now c es s w none h = parse (Env.parse_params e es.global_params es.params)
    where
      parse :
          (r : Params F × Option Error) → Idle s (parsed e ch now c es (record s { world = w }) r).0
      parse (p, none) =
          Idle-act e ch c _ _ _ s _ _
            (ap (λ b. b || (not es.global_real_enabled || not es.real_enabled)) h)
      parse (p, some err) = record { no_calls = refl; no_penalties = refl }

  Idle-looked_up :
      (e : Env W F) (ch : Channel) (now : ℕ) (c : Candidate F) (s : Run W F)
      (r : W × (Strategy × Option Error))
      → e.dry_run ≡ true
      → Idle s (looked_up e ch now c s r).0
  Idle-looked_up e ch now c s (w, (es, some err)) h = record {
    no_calls = refl;
    no_penalties = refl;
  }
  Idle-looked_up e ch now c s (w, (es, none)) h =
      Idle-with_cache e ch now c es s w (s.cache (strategy_key es)) h

  Idle-reprice_one :
      (e : Env W F) (ch : Channel) (now : ℕ) (c : Candidate F) (s : Run W F)
      → e.dry_run ≡ true
      → Idle s (reprice_one e ch now c s).0
  unfolding reprice_one
  Idle-reprice_one e ch now c s h = elim (Bool-cases (ready e ch s)) [
    | inl is_on ↦
        simp is_on (Idle-looked_up e ch now c s (Env.effective_strategy e s.world c.hash_name) h)
    | inr is_off ↦ simp is_off (record { no_calls = refl; no_penalties = refl })
  ]

  Idle-reprice_from :
      (e : Env W F) (ch : Channel) (now : ℕ) (cands : List (Candidate F)) (s : Run W F)
      → e.dry_run ≡ true
      → Idle s (reprice_from e ch now cands s).0
  unfolding reprice_from
  Idle-reprice_from e ch now [] s h = record { no_calls = refl; no_penalties = refl }
  Idle-reprice_from e ch now (c ∷ cands) s h =
      let (t, stop) = reprice_one e ch now c s in
      let here = Idle-reprice_one e ch now c s h in
      let later = Idle-trans s t _ here (Idle-reprice_from e ch now cands t h) in
      elim (Bool-cases stop) [ inl k ↦ simp k here | inr k ↦ simp k later ]

  Idle-listed :
      (e : Env W F) (ch : Channel) (now : ℕ) (s : Run W F)
      (r : W × (List (Candidate F) × Option Error))
      → e.dry_run ≡ true
      → Idle s (listed e ch now s r).0
  Idle-listed e ch now s (w, (cands, some err)) h = record { no_calls = refl; no_penalties = refl }
  Idle-listed e ch now s (w, (cands, none)) h =
      let k = Idle-reprice_from e ch now cands (record s { world = w }) h in
      record { no_calls = k.no_calls; no_penalties = k.no_penalties }

  -- Under the global dry run, repricing a channel calls no platform and penalizes no channel.
  pub reprice_channel-dry :
      (e : Env W F) (ch : Channel) (now : ℕ) (s : Run W F)
      → e.dry_run ≡ true
      → ((reprice_channel e ch now s).0.calls ≡ s.calls)
        × ((reprice_channel e ch now s).0.cooldowns ≡ s.cooldowns)
  unfolding reprice_channel
  reprice_channel-dry e ch now s h =
      let k = Idle-listed e ch now (start_channel s) (Env.list_candidates e s.world ch) h in
      (k.no_calls, k.no_penalties)

  calls-reported :
      (e : Env W F) (ch : Channel) (errs : List Error) (r : Run W F × Option Error)
      → (reported e ch errs r).0.calls ≡ r.0.calls
  calls-reported e ch errs (t, none) = refl
  calls-reported e ch errs (t, some err) = refl

  dry-run_from :
      (e : Env W F) (now : ℕ) (adapters : List Channel) (s : Run W F) (errs : List Error)
      → e.dry_run ≡ true
      → (run_from e now adapters s errs).0.calls ≡ s.calls
  unfolding run_from
  dry-run_from e now [] s errs h = refl
  dry-run_from e now (ch ∷ adapters) s errs h =
      elim (Bool-cases (channel_ready s.cooldowns ch now)) [
        | inr is_off ↦ simp is_off (dry-run_from e now adapters s errs h)
        | inl is_on ↦
            let r = reported e ch errs (reprice_channel e ch now s) in
            simp is_on (
              dry-run_from e now adapters r.0 r.1 h
              ∙ (calls-reported e ch errs (reprice_channel e ch now s)
                  ∙ (reprice_channel-dry e ch now s h).0))
      ]

  -- Under the global dry run, a cycle calls no platform, whatever the strategies say.
  pub run_reprice-dry :
      (e : Env W F) (adapters : List Channel) (s : Run W F)
      → e.dry_run ≡ true
      → (run_reprice e adapters s).0.calls ≡ s.calls
  unfolding run_reprice
  run_reprice-dry e adapters s h = dry-run_from e (Env.now e s.world) adapters s [] h
