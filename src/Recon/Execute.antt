-- ===== src/Recon/Execute.antt =====
-- backend/internal/recon/recon.go: the executor. What is outside, the platforms, the listing store, the
-- cooldowns and the context, is a type `W` of states with the functions that the executor calls. The
-- audit entries are a list, in order.
pub mod Tally
pub mod Blocked
pub mod Dry
pub mod Verdict
use rent_auto.Prelude.{
  ℕ, suc, ◌+◌, String, Bool, true, false, not, ◌&&◌, ◌||◌, Option, none, some, List, [], ◌∷◌, ◌++◌,
  ◌==◌, ℤ, if◌then◌else◌, text_append, is_some, length, eqb, update,
}
use rent_auto.Pricing.{Decision}
use rent_auto.Domain.{
  Channel, Error, errors_is, Sentinel, rate_limited, platform_blocked, auth_expired, uk_expired,
  partial_failure,
}
use rent_auto.Recon.{Action}

-- platform.PublishLeaseRequest and PublishLeaseResult
pub record Request (F : Type 0) : Type 0 where
  pub asset_ref : String
  pub rent_price : F
  pub long_rent_price : F
  pub max_days : ℤ
  pub deposit : F

pub record Result : Type 0 where
  pub goods_ref : String
  pub success : Bool
  pub error : String

-- platform.Adapter, as far as it is called here
pub record Adapter (W F : Type 0) : Type 0 where
  pub publish_lease : W → Request F → W × (List Result × Option Error)
  pub delist : W → String → W × Option Error

-- WriteBack
pub record Store (W F : Type 0) : Type 0 where
  pub record_published : W → Action F → String → Decision F → W × Option Error
  pub mark_delisted : W → Channel → String → W × Option Error

-- Executor, and ctx.Err
pub record Executor (W F : Type 0) : Type 0 where
  pub dry_run : Bool
  pub adapters : Channel → Option (Adapter W F)
  pub store : Option (Store W F)
  pub penalize : W → Channel → Error → W
  pub channel_ready : W → Channel → Bool
  pub context_err : W → Option Error

abbrev pub is_risk_sentinel : Error → Bool
is_risk_sentinel err =
    errors_is err.chain rate_limited
    || (errors_is err.chain platform_blocked
        || (errors_is err.chain auth_expired || errors_is err.chain uk_expired))

-- one audit entry: the action, `success` and `err`
pub record Audit (F : Type 0) : Type 0 where
  pub action : Action F
  pub success : Bool
  pub err : String

-- the variables of the loop
pub record Run (W F : Type 0) : Type 0 where
  pub world : W
  pub blocked : Channel → Bool
  pub applied : ℕ
  pub failed : ℕ
  pub errs : List Error
  pub audits : List (Audit F)

abbrev pub plain : String → Error
plain text = record { text = text; chain = [] }

-- fmt.Errorf("<text>: %w", err)
abbrev pub wrap : String → Error → Error
wrap text err = record { text = text_append text (text_append ": " err.text); chain = err.chain }

abbrev pub item_error : List Result → String
item_error [] = ""
item_error (r ∷ _) = if not r.success then r.error else ""

abbrev pub remark : List Result → String
remark [] = ""
remark (r ∷ _) = r.error

unfoldable pub err_string : Option Error → List Result → String
err_string none res = item_error res
err_string (some err) res =
    if errors_is err.chain partial_failure && not (remark res == "") then remark res else err.text

abbrev pub is_partial : Option Error → Bool
is_partial none = false
is_partial (some err) = errors_is err.chain partial_failure

-- the number of rejected items, and platform.PartialIfAnyFailed; `itoa` is how fmt prints %d
unfoldable pub rejected_items : List Result → ℕ
rejected_items [] = 0
rejected_items (r ∷ results) =
    let rest = rejected_items results in if r.success then rest else rest + 1

unfoldable pub partial_if_any_failed : (ℕ → String) → List Result → Option Error
unfolding rejected_items
partial_if_any_failed itoa results =
    if eqb (rejected_items results) 0
    then none
    else some (record {
      text = text_append "platform: partial failure: " (
          text_append (itoa (rejected_items results))
            (text_append "/" (text_append (itoa (length results)) " items rejected")));
      chain = partial_failure ∷ [];
    })

-- `len(res) == 1 && res[0].Success && (err == nil || partial)`
abbrev pub accepted : List Result → Option Error → Option Result
accepted (r ∷ []) err = if r.success && (not (is_some err) || is_partial err) then some r else none
accepted _ err = none

abbrev pub wrap_opt : String → Option Error → Option Error
wrap_opt text none = none
wrap_opt text (some err) = some (wrap text err)

abbrev pub publish_error : {F : Type 0} → Action F → Option Error → List Result → Error
publish_error a none res = plain (
    text_append "publish " (
      text_append a.asset_id
        (text_append ": missing or rejected item result: " (err_string none res))))
publish_error a (some err) res = wrap (text_append "publish " a.asset_id) err

abbrev pub request : {F : Type 0} → Action F → Decision F → Request F
request a d = record {
  asset_ref = a.asset_id;
  rent_price = d.rent;
  long_rent_price = d.long;
  max_days = d.max_days;
  deposit = d.deposit;
}

module _ {W F : Type 0} where
  abbrev pub audited : Run W F → Action F → Bool → String → Run W F
  audited s a ok text = record s {
    audits = s.audits ++ (record { action = a; success = ok; err = text } ∷ []);
  }

  -- failed++ and errs = append(errs, err)
  abbrev pub fail : Run W F → Error → Run W F
  fail s err = record s { failed = s.failed + 1; errs = s.errs ++ (err ∷ []) }

  abbrev pub fail_if : Run W F → Option Error → Run W F
  fail_if s none = s
  fail_if s (some err) = fail s err

  abbrev pub succeed : Run W F → Run W F
  succeed s = record s { applied = s.applied + 1 }

  -- the channel of a risk signal is blocked for the rest of the plan, and penalized
  abbrev pub block : Executor W F → Channel → Error → Run W F → Run W F
  block e ch err s = record s {
    world = e.penalize s.world ch err;
    blocked = update s.blocked ch true;
  }

  abbrev pub block_on_risk : Executor W F → Channel → Bool → Option Error → Run W F → Run W F
  block_on_risk e ch ignored none s = s
  block_on_risk e ch ignored (some err) s =
      if not ignored && is_risk_sentinel err then block e ch err s else s

  -- `writeBackPublish` and `writeBackDelist`
  abbrev pub write_back_publish : Option (Store W F) → Action F → Result → W → W × Option Error
  write_back_publish none a res w = (w, none)
  write_back_publish (some st) a res w = elim a.decision [
    | none ↦ (w, none)
    | some d ↦
        if res.goods_ref == ""
        then (
          w,
          some (
              plain
                (text_append "publish " (text_append a.asset_id ": no goods_ref for write-back"))),
        )
        else (let (w', err) = Store.record_published st w a res.goods_ref d in
            (w', wrap_opt (text_append "publish write-back " res.goods_ref) err))
  ]

  abbrev pub write_back_delist : Option (Store W F) → Action F → W → W × Option Error
  write_back_delist none a w = (w, none)
  write_back_delist (some st) a w =
      let (w', err) = Store.mark_delisted st w a.channel a.goods_ref in
      (w', wrap_opt (text_append "delist write-back " a.goods_ref) err)

  abbrev pub written : Run W F → W × Option Error → Run W F
  written s (w, err) = fail_if (record s { world = w }) err

  -- what follows PublishLease, with the verdict `ok2` on what it returned
  abbrev pub noted : Executor W F → Action F → List Result → Option Error → Bool → Run W F → Run W F
  noted e a res err ok s =
      block_on_risk e a.channel (is_partial err) err (audited s a ok (err_string err res))

  abbrev pub finish_publish :
      Executor W F → Action F → List Result → Option Error → Run W F → Option Result → Run W F
  finish_publish e a res err s none = fail (noted e a res err false s) (publish_error a err res)
  finish_publish e a res err s (some r) =
      let s' = succeed (noted e a res err true s) in
      written s' (write_back_publish e.store a r s'.world)

  abbrev pub published :
      Executor W F → Action F → Run W F → W × (List Result × Option Error) → Run W F
  published e a s (w, (res, err)) =
      finish_publish e a res err (record s { world = w }) (accepted res err)

  unfoldable pub run_publish :
      Executor W F → Adapter W F → Action F → Option (Decision F) → Run W F → Run W F
  unfolding err_string
  run_publish e ad a none s =
      fail (audited s a false "invalid_decision")
        (plain (text_append "publish " (text_append a.asset_id ": invalid decision")))
  run_publish e ad a (some d) s =
      if not d.ok
      then fail (audited s a false "invalid_decision")
          (plain (text_append "publish " (text_append a.asset_id ": invalid decision")))
      else published e a s (Adapter.publish_lease ad s.world (request a d))

  abbrev pub delisted : Executor W F → Action F → Run W F → W × Option Error → Run W F
  delisted e a s (w, none) =
      let s' = succeed (audited (record s { world = w }) a true "") in
      written s' (write_back_delist e.store a s'.world)
  delisted e a s (w, some err) =
      fail
        (block_on_risk e a.channel false (some err)
          (audited (record s { world = w }) a false err.text))
        (wrap (text_append "delist " a.goods_ref) err)

  unfoldable pub run_delist : Executor W F → Adapter W F → Action F → Run W F → Run W F
  run_delist e ad a s = delisted e a s (Adapter.delist ad s.world a.goods_ref)

  unfoldable pub run_kind : Executor W F → Adapter W F → Action F → Run W F → Run W F
  unfolding run_publish run_delist
  run_kind e ad a s =
      if a.kind == "publish"
      then run_publish e ad a a.decision s
      else if a.kind == "delist"
      then run_delist e ad a s
      else fail (audited s a false "unknown_kind")
          (plain (text_append "unknown action kind \"" (text_append a.kind "\"")))

  -- one round of the loop: `true` if it returns because of the context
  abbrev pub act_on :
      Executor W F → Adapter W F → Action F → Option Error → Run W F → Run W F × Bool
  act_on e ad a (some err) s = (record s { errs = s.errs ++ (err ∷ []) }, true)
  act_on e ad a none s = (run_kind e ad a s, false)

  abbrev pub with_adapter :
      Executor W F → Option (Adapter W F) → Action F → Run W F → Run W F × Bool
  with_adapter e none a s = (
    fail (audited s a false "no_adapter_configured") (
        plain
          (text_append a.kind (text_append " " (text_append a.channel ": no adapter configured")))),
    false,
  )
  with_adapter e (some ad) a s =
      if e.dry_run
      then (succeed (audited s a true ""), false)
      else if s.blocked a.channel || not (e.channel_ready s.world a.channel)
      then (
        fail (audited s a false "channel_in_cooldown") (
            plain (
              text_append a.kind
                (text_append " " (text_append a.channel ": channel in cooldown")))),
        false,
      )
      else act_on e ad a (e.context_err s.world) s

  unfoldable pub execute_one : Executor W F → Action F → Run W F → Run W F × Bool
  unfolding run_kind
  execute_one e a s = with_adapter e (e.adapters a.channel) a s

  unfoldable pub execute_from : Executor W F → List (Action F) → Run W F → Run W F × Bool
  unfolding execute_one
  execute_from e [] s = (s, false)
  execute_from e (a ∷ plan) s =
      let (t, stop) = execute_one e a s in
      let rest = execute_from e plan t in if stop then (t, true) else rest

  abbrev pub start_run : W → Run W F
  start_run w = record {
    world = w;
    blocked = λ _. false;
    applied = 0;
    failed = 0;
    errs = [];
    audits = [];
  }

  -- `ExecuteWithError`; the returned error is errors.Join of `errs`, nil if there are none
  unfoldable pub execute : Executor W F → List (Action F) → W → Run W F × Bool
  unfolding execute_from
  execute e plan w = execute_from e plan (start_run w)
