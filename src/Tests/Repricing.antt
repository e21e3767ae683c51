-- ===== src/Tests/Repricing.antt =====
-- One cycle of the repricing job over two candidates on ECO, in a world that counts the calls.
use rent_auto.Prelude.{
  List, ◌++◌, ℕ, ◌+◌, Bool, true, false, none, some, [], ◌∷◌, ◌≡◌, ◌≤◌, ◌<◌, refl, arith, pos, All,
}
use rent_auto.Domain.{channel_eco, Error, rate_limited}
use rent_auto.Float.Fixed.{Fixed, num, fixed_double}
use rent_auto.Pricing.{round2, clamp}
use rent_auto.Pricing.Baseline.{baseline}
use rent_auto.Pricing.Decide.{
  decide, target, raw_floor, raw_ceiling, quantized_floor, quantized_ceiling, final_rent, eco_days,
  derived_deposit, channel_terms, conclude,
}
use rent_auto.Recon.Execute.{Result}
use rent_auto.Risk.{channel_ready, risk_cooldown}
use rent_auto.Reprice.{
  Candidate, PriceAction, Strategy, Env, Run, is_dry, action_error, succeeded, join_channel_errs,
}
use rent_auto.Reprice.Steps.{
  join, send, act, reprice_one, reprice_from, reprice_channel, run_from, run_reprice,
}
use rent_auto.Reprice.Books.{failures, run_reprice-not_silent}
use rent_auto.Reprice.Each.{IsKnown, Each, reprice_from-Each}
use rent_auto.Reprice.Calls.{recorded_assets, called_assets, run_reprice-journals_calls}
use rent_auto.Reprice.Justified.{IsJustified, reprice_channel-IsJustified}
use rent_auto.Reprice.Dry.{run_reprice-dry}
use rent_auto.Reprice.Cooling.{send-ends_channel}
use rent_auto.Tests.Pricing.{params, on_eco}

abbrev candidate : Candidate Fixed
candidate = record {
  listing_id = pos 7;
  channel = channel_eco;
  hash_name = "knife";
  goods_ref = "g7";
  asset_id = "a7";
  rent_price = num 2_000_000;
  long_price = num 1_900_000;
  deposit = num 900_000_000;
  max_days = pos 30;
  factor = num 1_000_000;
  v = some (num 1_000_000_000);
  last_action_at = none;
  sublet_applied = false;
}

abbrev other : Candidate Fixed
other = record candidate { listing_id = pos 8; goods_ref = "g8"; asset_id = "a8" }

abbrev strategy : Strategy
strategy = record {
  params = "{}";
  global_params = "{}";
  real_enabled = true;
  global_real_enabled = true;
}

abbrev done : Result
done = record { goods_ref = "g7"; success = true; error = "" }

abbrev limited : Error
limited = record { text = "platform: rate limited"; chain = rate_limited ∷ [] }

abbrev env : Bool → Env ℕ Fixed
env dry = record {
  dry_run = dry;
  now = λ w. w;
  list_candidates = λ w ch. (w, (candidate ∷ (other ∷ []), none));
  effective_strategy = λ w hash. (w, (strategy, none));
  parse_params = λ g p. (params, none);
  recent_quotes = λ w hash since limit. (
    w,
    (
      record {
        rank = pos 1;
        short = num 2_500_000;
        long = num 2_300_000;
        deposit = num 900_000_000;
      }
          ∷ [],
      none,
    ),
  );
  insert_action = λ w pa. (w + 1, none);
  update_decision = λ w id d. (w + 1, none);
  mark_sublet = λ w id. (w + 1, none);
  reprice_lease = λ w ch items. (w + 1, (done ∷ [], none));
  rent_max_day_min = λ ch. pos 8;
  rent_max_day_max = λ ch. pos 90;
  itoa = λ n. "7";
}

-- every call of the platform fails with a rate limit
abbrev busy : Env ℕ Fixed
busy = record (env false) { reprice_lease = λ w ch items. (w + 1, ([], some limited)) }

abbrev start : Run ℕ Fixed
start = record {
  world = 0;
  cooldowns = λ ch. none;
  cache = λ key. none;
  strat_errs = [];
  op_errs = [];
  actions = [];
  calls = [];
}

clean_cycle : (run_reprice (env false) (channel_eco ∷ []) start).1 ≡ none
unfolding run_reprice run_from reprice_channel reprice_from reprice_one act decide baseline join
    join_channel_errs channel_ready is_dry action_error succeeded target raw_floor raw_ceiling
    quantized_floor quantized_ceiling final_rent eco_days derived_deposit channel_terms conclude
    clamp round2
clean_cycle = refl

run_reprice-not_silent_example :
    failures (run_reprice (env false) (channel_eco ∷ []) start).0.actions ≤ failures start.actions
run_reprice-not_silent_example =
    run_reprice-not_silent (env false) (channel_eco ∷ []) start clean_cycle

whole_loop : (reprice_from (env false) channel_eco 0 (candidate ∷ (other ∷ [])) start).1 ≡ false
unfolding reprice_from reprice_one act decide baseline channel_ready is_dry action_error succeeded
    target raw_floor raw_ceiling quantized_floor quantized_ceiling final_rent eco_days
    derived_deposit channel_terms conclude clamp round2
whole_loop = refl

nothing-IsKnown : IsKnown (env false) start.cache
nothing-IsKnown = λ key p h. cc

reprice_from-Each_example :
    let t = (reprice_from (env false) channel_eco 0 (candidate ∷ (other ∷ [])) start).0 in
    (actions : List (PriceAction Fixed)) × (errs : List Error) × (t.actions ≡ [] ++ actions)
    × (t.strat_errs ≡ [] ++ errs)
    × Each (env false) channel_eco 0 start (candidate ∷ (other ∷ [])) actions errs
reprice_from-Each_example =
    reprice_from-Each (env false) channel_eco 0 (candidate ∷ (other ∷ [])) start nothing-IsKnown
      whole_loop

run_reprice-journals_calls_example :
    let t = (run_reprice (env false) (channel_eco ∷ []) start).0 in
    recorded_assets t.actions ≡ called_assets t.calls
run_reprice-journals_calls_example =
    run_reprice-journals_calls (env false) (channel_eco ∷ []) start refl

reprice_channel-IsJustified_example :
    All
      (IsJustified 0 (candidate ∷ (other ∷ [])))
      (reprice_channel (env false) channel_eco 0 start).0.calls
reprice_channel-IsJustified_example =
    reprice_channel-IsJustified (env false) channel_eco 0 start refl

run_reprice-dry_example : (run_reprice (env true) (channel_eco ∷ []) start).0.calls ≡ []
run_reprice-dry_example = run_reprice-dry (env true) (channel_eco ∷ []) start refl

within_cooldown :
    (0 < risk_cooldown limited)
    × ((send busy channel_eco candidate on_eco (decide on_eco) start).world
        ≤ 1 + risk_cooldown limited)
unfolding risk_cooldown action_error succeeded
within_cooldown = (omega arith, omega arith)

send-ends_channel_example :
    let s = send busy channel_eco candidate on_eco (decide on_eco) start in
    (reprice_from busy channel_eco 0 (other ∷ []) s).0 ≡ s
send-ends_channel_example =
    send-ends_channel busy channel_eco 0 candidate on_eco (decide on_eco) start (other ∷ []) 1 []
      limited refl within_cooldown.0 within_cooldown.1
