-- ===== src/Reprice.antt =====
-- backend/internal/scheduler/jobs_reprice.go: the reprice job. The store, the platforms and the clock
-- are a type `W` of states with the functions that the job calls; the clock stands still between two
-- such calls. JSON documents are strings where they come from the store, and a data type where the job
-- writes them. Every price action that is offered to the store, and every call of RepriceLease, is
-- kept in a list, in order. Joined errors are a list.
pub mod Steps
pub mod Kept
pub mod Rounds
pub mod Books
pub mod Calls
pub mod Justified
pub mod Dry
pub mod Acts
pub mod Each
pub mod Cooling
use rent_auto.Prelude.{
  ℕ, ◌-◌, ◌*◌, ◌+◌, String, Bool, true, false, not, ◌&&◌, ◌||◌, Option, none, some, List, [], ◌∷◌,
  ◌++◌, ◌==◌, ℤ, pos, negsuc, if◌then◌else◌, text_append, is_some, update,
}
use rent_auto.Domain.{Channel, Error, channel_eco}
use rent_auto.Float.{Double}
use rent_auto.Pricing.{Quote, Base, Input, Current, Params, Decision, zero_f}
use rent_auto.Pricing.Baseline.{baseline}
use rent_auto.Pricing.Decide.{decide}
use rent_auto.Recon.Execute.{Result, plain, wrap}
use rent_auto.Risk.{Cooldowns, channel_ready, penalize}

-- store.RepriceCandidate, without the template that nothing here reads
pub record Candidate (F : Type 0) : Type 0 where
  pub listing_id : ℤ
  pub channel : Channel
  pub hash_name : String
  pub goods_ref : String
  pub asset_id : String
  pub rent_price : F
  pub long_price : F
  pub deposit : F
  pub max_days : ℤ
  pub factor : F
  pub v : Option F
  pub last_action_at : Option ℕ
  pub sublet_applied : Bool

-- store.EffectiveStrategy, as far as it is read here
pub record Strategy : Type 0 where
  pub params : String
  pub global_params : String
  pub real_enabled : Bool
  pub global_real_enabled : Bool

-- platform.RepriceLeaseRequest
pub record Request (F : Type 0) : Type 0 where
  pub goods_ref : String
  pub asset_ref : String
  pub rent_price : F
  pub long_rent_price : F
  pub max_days : ℤ
  pub deposit : F

-- the JSON document of a price action
pub data Document (F : Type 0) : Type 0 where
  skipped : String → List String → Document F
  priced : List String → F → F → ℤ → F → F → F → Document F

-- store.PriceAction; the legs of the new price are pointers
pub record PriceAction (F : Type 0) : Type 0 where
  pub channel : Channel
  pub hash_name : String
  pub asset_id : String
  pub listing_id : ℤ
  pub action : String
  pub old_rent : F
  pub old_long : F
  pub old_days : ℤ
  pub old_deposit : F
  pub new_rent : Option F
  pub new_long : Option F
  pub new_days : Option ℤ
  pub new_deposit : Option F
  pub document : Option (Document F)
  pub dry_run : Bool
  pub success : Bool
  pub error : String

-- store.MergedQuote
pub record MergedQuote (F : Type 0) : Type 0 where
  pub rank : ℤ
  pub short : F
  pub long : F
  pub deposit : F

-- what Store, Deps, the adapter and pricing.ParseParams do, and how fmt prints %d
pub record Env (W F : Type 0) : Type 0 where
  pub dry_run : Bool
  pub now : W → ℕ
  pub list_candidates : W → Channel → W × (List (Candidate F) × Option Error)
  pub effective_strategy : W → String → W × (Strategy × Option Error)
  pub parse_params : String → String → Params F × Option Error
  pub recent_quotes : W → String → ℕ → ℤ → W × (List (MergedQuote F) × Option Error)
  pub insert_action : W → PriceAction F → W × Option Error
  pub update_decision : W → ℤ → Decision F → W × Option Error
  pub mark_sublet : W → ℤ → W × Option Error
  pub reprice_lease : W → Channel → List (Request F) → W × (List Result × Option Error)
  pub rent_max_day_min : Channel → ℤ
  pub rent_max_day_max : Channel → ℤ
  pub itoa : ℤ → String

-- the variables of the loop, with the cooldowns of Deps
pub record Run (W F : Type 0) : Type 0 where
  pub world : W
  pub cooldowns : Cooldowns
  pub cache : String → Option (Params F)
  pub strat_errs : List Error
  pub op_errs : List Error
  pub actions : List (PriceAction F)
  pub calls : List (Request F)

abbrev pub quote_window : ℕ
quote_window = 30 * 60_000_000_000

unfoldable pub is_dry : Bool → Strategy → Bool
is_dry dry es = dry || (not es.global_real_enabled || not es.real_enabled)

abbrev pub quotes_of : {F : Type 0} → List (MergedQuote F) → List (Quote F)
quotes_of [] = []
quotes_of (r ∷ rows) =
    record { short = r.short; long = r.long; deposit = r.deposit } ∷ quotes_of rows

abbrev times_three : ℤ → ℤ
times_three (pos n) = pos (n * 3)
times_three (negsuc n) = negsuc (n * 3 + 2)

abbrev loaded : {F : Type 0} → List (MergedQuote F) → Option Error → List (Quote F)
loaded rows none = quotes_of rows
loaded rows (some err) = []

abbrev pub load_quotes : {W F : Type 0} → Env W F → W → String → ℤ → W × List (Quote F)
load_quotes e w hash topn =
    let (w', (rows, err)) =
      Env.recent_quotes e w hash (e.now w - quote_window) (times_three topn) in
    (w', loaded rows err)

-- `pa.Error`
abbrev pub item_text : Result → String
item_text r =
    if r.success then "" else if r.error == "" then "platform marked item failed" else r.error

unfoldable pub action_error : List Result → Option Error → String
action_error res (some err) = err.text
action_error [] none = "missing or unexpected item result"
action_error (r ∷ []) none = item_text r
action_error (r ∷ (_ ∷ _)) none = "missing or unexpected item result"

-- `pa.Success`
unfoldable pub succeeded : List Result → Option Error → Bool
succeeded (r ∷ []) none = r.success
succeeded res err = false

unfoldable pub join_channel_errs : List Error → List Error → List Error
join_channel_errs strat_errs op_errs = strat_errs ++ op_errs

abbrev pub old_action : {F : Type 0} → Candidate F → Bool → PriceAction F
old_action c dry = record {
  channel = c.channel;
  hash_name = c.hash_name;
  asset_id = c.asset_id;
  listing_id = c.listing_id;
  action = "reprice";
  old_rent = c.rent_price;
  old_long = c.long_price;
  old_days = c.max_days;
  old_deposit = c.deposit;
  new_rent = none;
  new_long = none;
  new_days = none;
  new_deposit = none;
  document = none;
  dry_run = dry;
  success = false;
  error = "";
}

abbrev pub skip_action : {F : Type 0} → Candidate F → Bool → Decision F → PriceAction F
skip_action c dry d = record (old_action c dry) {
  action = "skip";
  document = some (skipped d.skip_reason d.reasons);
  success = true;
}

abbrev pub priced_action :
    {F : Type 0} → Candidate F → Bool → Input F → Decision F → Bool → String → PriceAction F
priced_action c dry i d ok text = record (old_action c dry) {
  new_rent = some d.rent;
  new_long = some d.long;
  new_days = some d.max_days;
  new_deposit = some d.deposit;
  document = some (priced d.reasons d.rent d.long d.max_days d.deposit i.factor i.v);
  success = ok;
  error = text;
}

abbrev pub request_of : {F : Type 0} → Candidate F → Decision F → Request F
request_of c d = record {
  goods_ref = c.goods_ref;
  asset_ref = c.asset_id;
  rent_price = d.rent;
  long_rent_price = d.long;
  max_days = d.max_days;
  deposit = d.deposit;
}
