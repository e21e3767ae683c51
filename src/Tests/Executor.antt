-- ===== src/Tests/Executor.antt =====
-- The executor on two delistings, over a world that counts the calls.
use rent_auto.Prelude.{ℕ, ◌+◌, String, Bool, true, false, none, some, List, [], ◌∷◌, ◌≡◌, refl}
use rent_auto.Domain.{channel_uu, channel_eco, Error, rate_limited}
use rent_auto.Recon.{Action}
use rent_auto.Recon.Execute.{
  Adapter, Executor, Run, execute, execute_from, execute_one, run_kind, run_delist, start_run,
}
use rent_auto.Recon.Execute.Tally.{Tally, execute_accounts}
use rent_auto.Recon.Execute.Blocked.{delist_risk-blocks}

abbrev limited : Error
limited = record { text = "platform: rate limited"; chain = rate_limited ∷ [] }

-- every call fails with a rate limit
abbrev busy_adapter : Adapter ℕ ℕ
busy_adapter = record {
  publish_lease = λ w r. (w + 1, ([], some limited));
  delist = λ w ref. (w + 1, some limited);
}

abbrev executor : Bool → Executor ℕ ℕ
executor dry = record {
  dry_run = dry;
  adapters = λ ch. some busy_adapter;
  store = none;
  penalize = λ w ch err. w + 100;
  channel_ready = λ w ch. true;
  context_err = λ w. none;
}

abbrev take_down : String → Action ℕ
take_down ref = record {
  kind = "delist";
  channel = channel_uu;
  asset_id = "";
  goods_ref = ref;
  listing_id = 7;
  hash_name = "knife";
  reason = "not_routed";
  state = "active";
  decision = none;
}

abbrev two : List (Action ℕ)
two = take_down "g1" ∷ take_down "g2" ∷ []

uncut : (execute (executor false) two 0).1 ≡ false
unfolding execute execute_from execute_one run_kind run_delist
uncut = refl

execute_accounts_example : Tally false (execute (executor false) two 0).0 two
execute_accounts_example = execute_accounts (executor false) two 0 uncut

-- an action on another platform in between
abbrev elsewhere : Action ℕ
elsewhere = record (take_down "g3") { channel = channel_eco }

abbrev through : Run ℕ ℕ
through = (execute_from (executor false) (take_down "g1" ∷ (elsewhere ∷ [])) (start_run 0)).0

delist_risk-blocks_example :
    ((execute_one (executor false) (take_down "g1") (start_run 0)).0.world ≡ 101)
    × ((execute_one (executor false) (take_down "g2") through).0.world ≡ through.world)
delist_risk-blocks_example =
    delist_risk-blocks (executor false) busy_adapter (take_down "g1") (start_run 0) 1 limited
      (elsewhere ∷ []) (take_down "g2") refl refl refl refl refl refl refl refl
