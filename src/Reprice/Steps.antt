-- ===== src/Reprice/Steps.antt =====
-- backend/internal/scheduler/jobs_reprice.go: the loop over the candidates of a channel, and the loop
-- over the channels.
use rent_auto.Prelude.{
  ℕ, String, Bool, true, false, not, ◌&&◌, Option, none, some, List, [], ◌∷◌, ◌++◌, ◌==◌,
  if◌then◌else◌, text_append, is_some, update,
}
use rent_auto.Domain.{Channel, Error, Sentinel, channel_eco}
use rent_auto.Float.{Double}
use rent_auto.Pricing.{Input, Params, Decision, Base, zero_f}
use rent_auto.Pricing.Baseline.{baseline}
use rent_auto.Pricing.Decide.{decide}
use rent_auto.Recon.Execute.{Result, plain, wrap, wrap_opt}
use rent_auto.Risk.{channel_ready, penalize}
use rent_auto.Reprice.{
  Candidate, Strategy, PriceAction, Env, Run, is_dry, load_quotes, action_error, succeeded,
  join_channel_errs, skip_action, priced_action, request_of,
}

abbrev pub failure : {F : Type 0} → Candidate F → List Result → Option Error → Error
failure c res (some err) = wrap (text_append "reprice " c.goods_ref) err
failure c res none =
    plain
      (text_append "reprice " (text_append c.goods_ref (text_append ": " (action_error res none))))

abbrev pub strategy_key : Strategy → String
strategy_key es = text_append es.global_params (text_append "|" es.params)

abbrev pub val_or0 : {F : Type 0} ⦃double : Double F⦄ → Option F → F
val_or0 none = zero_f
val_or0 (some v) = v

-- errors.Join: nil if there is no error
abbrev joined_text : List Error → String
joined_text [] = ""
joined_text (err ∷ []) = err.text
joined_text (err ∷ (err' ∷ errs)) =
    text_append err.text (text_append "\n" (joined_text (err' ∷ errs)))

abbrev joined_chain : List Error → List Sentinel
joined_chain [] = []
joined_chain (err ∷ errs) = err.chain ++ joined_chain errs

unfoldable pub join : List Error → Option Error
join [] = none
join (err ∷ errs) =
    some (record { text = joined_text (err ∷ errs); chain = joined_chain (err ∷ errs) })

module _ {W F : Type 0} where
  abbrev pub ready : Env W F → Channel → Run W F → Bool
  ready e ch s = channel_ready s.cooldowns ch (Env.now e s.world)

  abbrev pub strat_fail : Candidate F → Error → Run W F → Run W F
  strat_fail c err s = record s {
    strat_errs = s.strat_errs ++ (wrap (text_append "strategy " c.hash_name) err ∷ []);
  }

  abbrev pub op_fail : Error → Run W F → Run W F
  op_fail err s = record s { op_errs = s.op_errs ++ (err ∷ []) }

  abbrev pub op_fail_if : Option Error → Run W F → Run W F
  op_fail_if none s = s
  op_fail_if (some err) s = op_fail err s

  -- the state after a call of the store, with the prefix of its error
  abbrev pub stored : String → W × Option Error → Run W F → Run W F
  stored text (w, err) s = op_fail_if (wrap_opt text err) (record s { world = w })

  abbrev pub insert : Env W F → Candidate F → String → PriceAction F → Run W F → Run W F
  insert e c what pa s =
      stored
        (text_append what (text_append c.hash_name (text_append "/" (Env.itoa e c.listing_id))))
        (Env.insert_action e s.world pa) (record s { actions = s.actions ++ (pa ∷ []) })

  abbrev pub penalized : Env W F → Channel → Option Error → Run W F → Run W F
  penalized e ch none s = s
  penalized e ch (some err) s = record s {
    cooldowns = penalize s.cooldowns ch err (Env.now e s.world);
  }

  abbrev pub sublet : Env W F → Candidate F → Bool → Run W F → Run W F
  sublet e c false s = s
  sublet e c true s =
      stored (text_append "sublet flag " (Env.itoa e c.listing_id))
        (Env.mark_sublet e s.world c.listing_id) s

  -- what follows the insertion of the price action, with `pa.Success`
  abbrev pub finish :
      Env W F
      → Candidate F
      → Input F
      → Decision F
      → List Result
      → Option Error
      → Bool
      → Run W F
      → Run W F
  finish e c i d res err true s = sublet e c i.ignore_noise_floor (
      stored (text_append "listing update " (Env.itoa e c.listing_id))
        (Env.update_decision e s.world c.listing_id d) s)
  finish e c i d res err false s = op_fail (failure c res err) s

  abbrev pub answered :
      Env W F
      → Channel
      → Candidate F
      → Input F
      → Decision F
      → Run W F
      → W × (List Result × Option Error)
      → Run W F
  answered e ch c i d s (w, (res, err)) = finish e c i d res err (succeeded res err) (
      insert e c "price_action reprice "
        (priced_action c false i d (succeeded res err) (action_error res err))
        (penalized e ch err (record s { world = w })))

  abbrev pub send : Env W F → Channel → Candidate F → Input F → Decision F → Run W F → Run W F
  send e ch c i d s =
      answered e ch c i d (record s { calls = s.calls ++ (request_of c d ∷ []) })
        (Env.reprice_lease e s.world ch (request_of c d ∷ []))

  -- the part of a round that follows the decision; `true` if the loop ends
  unfoldable pub act :
      Env W F → Channel → Candidate F → Bool → Input F → Decision F → Run W F → Run W F × Bool
  act e ch c dry i d s =
      if not d.ok
      then (insert e c "price_action skip " (skip_action c dry d) s, false)
      else if dry
      then (insert e c "price_action dryrun " (priced_action c true i d true "") s, false)
      else if not (ready e ch s)
      then (s, true)
      else (send e ch c i d s, false)

module _ {W F : Type 0} ⦃double : Double F⦄ where
  abbrev pub input_of : Env W F → Channel → ℕ → Candidate F → Params F → Base F × Bool → Input F
  input_of e ch now c p (base, has_base) = record {
    channel = c.channel;
    has_v = is_some c.v;
    v = val_or0 c.v;
    base = base;
    has_base = has_base;
    factor = c.factor;
    cur = record {
      rent_price = c.rent_price;
      last_action_at = c.last_action_at;
      long_price = c.long_price;
      deposit = c.deposit;
      max_days = c.max_days;
      terms_known = true;
    };
    p = p;
    now = now;
    rent_max_day_min = Env.rent_max_day_min e ch;
    rent_max_day_max = Env.rent_max_day_max e ch;
    ignore_noise_floor = c.channel == channel_eco && not c.sublet_applied;
  }

  abbrev pub decided : Env W F → Channel → Candidate F → Bool → Run W F → Input F → Run W F × Bool
  decided e ch c dry s i = act e ch c dry i (decide i) s

  abbrev pub priced_with :
      Env W F → Channel → ℕ → Candidate F → Strategy → Params F → Run W F → Run W F × Bool
  priced_with e ch now c es p s =
      let (w, quotes) = load_quotes e s.world c.hash_name p.baseline.top_n in
      decided e ch c (is_dry (Env.dry_run e) es) (record s { world = w })
        (input_of e ch now c p (baseline quotes p.baseline (val_or0 c.v)))

  abbrev pub parsed :
      Env W F
      → Channel
      → ℕ
      → Candidate F
      → Strategy
      → Run W F
      → Params F × Option Error
      → Run W F × Bool
  parsed e ch now c es s (p, some err) = (strat_fail c err s, false)
  parsed e ch now c es s (p, none) =
      priced_with e ch now c es p (record s { cache = update s.cache (strategy_key es) (some p) })

  abbrev pub with_cache :
      Env W F → Channel → ℕ → Candidate F → Strategy → Run W F → Option (Params F) → Run W F × Bool
  with_cache e ch now c es s (some p) = priced_with e ch now c es p s
  with_cache e ch now c es s none =
      parsed e ch now c es s (Env.parse_params e es.global_params es.params)

  abbrev pub looked_up :
      Env W F → Channel → ℕ → Candidate F → Run W F → W × (Strategy × Option Error) → Run W F × Bool
  looked_up e ch now c s (w, (es, some err)) = (strat_fail c err (record s { world = w }), false)
  looked_up e ch now c s (w, (es, none)) =
      with_cache e ch now c es (record s { world = w }) (s.cache (strategy_key es))

  unfoldable pub reprice_one : Env W F → Channel → ℕ → Candidate F → Run W F → Run W F × Bool
  unfolding decide baseline act
  reprice_one e ch now c s =
      if not (ready e ch s)
      then (s, true)
      else looked_up e ch now c s (Env.effective_strategy e s.world c.hash_name)

  unfoldable pub reprice_from :
      Env W F → Channel → ℕ → List (Candidate F) → Run W F → Run W F × Bool
  unfolding reprice_one
  reprice_from e ch now [] s = (s, false)
  reprice_from e ch now (c ∷ cands) s =
      let (t, stop) = reprice_one e ch now c s in
      let rest = reprice_from e ch now cands t in if stop then (t, true) else rest

  abbrev pub start_channel : Run W F → Run W F
  start_channel s = record s { cache = λ _. none; strat_errs = []; op_errs = [] }

  abbrev pub channel_error : Run W F × Bool → Run W F × Option Error
  channel_error (s, stop) = (s, join (join_channel_errs s.strat_errs s.op_errs))

  abbrev pub listed :
      Env W F
      → Channel
      → ℕ
      → Run W F
      → W × (List (Candidate F) × Option Error)
      → Run W F × Option Error
  listed e ch now s (w, (cands, some err)) = (record s { world = w }, some err)
  listed e ch now s (w, (cands, none)) =
      channel_error (reprice_from e ch now cands (record s { world = w }))

  unfoldable pub reprice_channel : Env W F → Channel → ℕ → Run W F → Run W F × Option Error
  unfolding reprice_from join join_channel_errs
  reprice_channel e ch now s = listed e ch now (start_channel s) (Env.list_candidates e s.world ch)

  abbrev pub reported :
      Env W F → Channel → List Error → Run W F × Option Error → Run W F × List Error
  reported e ch errs (s, none) = (s, errs)
  reported e ch errs (s, some err) =
      (penalized e ch (some err) s, errs ++ (wrap (text_append "reprice " ch) err ∷ []))

  unfoldable pub run_from : Env W F → ℕ → List Channel → Run W F → List Error → Run W F × List Error
  unfolding reprice_channel
  run_from e now [] s errs = (s, errs)
  run_from e now (ch ∷ adapters) s errs =
      let r =
        if not (channel_ready s.cooldowns ch now)
        then (s, errs)
        else reported e ch errs (reprice_channel e ch now s) in
      run_from e now adapters r.0 r.1

  unfoldable pub run_reprice : Env W F → List Channel → Run W F → Run W F × Option Error
  unfolding run_from join
  run_reprice e adapters s =
      let (t, errs) = run_from e (Env.now e s.world) adapters s [] in (t, join errs)
