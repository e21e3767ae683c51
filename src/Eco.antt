-- ===== src/Eco.antt =====
-- backend/internal/platform/eco/client.go: one call of the ECO API and its retries. The limiter, the clock, the HTTP
-- client and the timer are a type `W` of states with functions; encoding/json is a record of functions on bytes,
-- and the values of the parameters are a type `V`.
pub mod Adapter
pub mod Retries
pub mod Signature
use rent_auto.Prelude.{
  ℕ, zero, suc, ◌+◌, ◌-◌, ◌*◌, ◌^◌, ◌<◌, String, Bool, true, false, not, ◌&&◌, ◌||◌, ◌==◌, Option,
  none, some, List, [], ◌∷◌, ℤ, pos, eqb, eqb_ℤ, ltb, put, if◌then◌else◌, text_append,
}
use rent_auto.Domain.{Error, errors_is, auth_expired, rate_limited}
use rent_auto.Recon.Execute.{plain, wrap}
use rent_auto.Delivery.{Reply, failed, replied}

abbrev pub Bytes : Type 0
Bytes = List ℕ

abbrev pub code_ok : ℤ
code_ok = pos 0

abbrev pub code_rate_limited : ℤ
code_rate_limited = pos 6001

abbrev pub code_ip_whitelist : ℤ
code_ip_whitelist = pos 4004

abbrev pub code_identity_id : ℤ
code_identity_id = pos 5005

abbrev pub code_missing_sid : ℤ
code_missing_sid = pos 2001

abbrev pub code_bad_time : ℤ
code_bad_time = pos 5003

abbrev pub code_window_limit : ℤ
code_window_limit = pos 7002

abbrev pub rate_retry_attempts : ℕ
rate_retry_attempts = 3

-- 500 ms in nanoseconds
abbrev pub rate_retry_base : ℕ
rate_retry_base = 500_000_000

pub data Exchange : Type 0 where
  bad_request bad_transport bad_body : Error → Exchange
  response : ℕ → Bytes → Exchange

-- json.Unmarshal into a map of raw values, into a string and into an int, strconv.Atoi, and how fmt
-- prints %d
pub record Json : Type 0 where
  pub object : Bytes → Reply (String → Option Bytes)
  pub string_of : Bytes → Option String
  pub int_of : Bytes → Option ℤ
  pub atoi : String → Option ℤ
  pub itoa : ℤ → String

pub record Envelope : Type 0 where
  pub code : ℤ
  pub msg : String
  pub payload : Option Bytes

-- a client: the calls of what is outside, and the signing of a canonical string
pub record Client (W V : Type 0) : Type 0 where
  pub json : Json
  pub partner_id : String
  pub text : String → V
  pub sign_string : List (String × V) → String
  pub sign : String → Reply String
  pub marshal_body : List (String × V) → Reply Bytes
  pub wait : W → W × Option Error
  pub timestamp : W → String
  pub exchange : W → String → Bytes → W × Exchange
  pub jitter : W → W × ℕ
  -- ends after the time, or earlier with the error of the context
  pub sleep : W → ℕ → W × Option Error

abbrev pub invalid_code : Reply Envelope
invalid_code = failed (plain "eco: decode envelope: invalid ResultCode")

abbrev pub msg_of : Json → Option Bytes → String
msg_of j none = ""
msg_of j (some v) = or_empty (Json.string_of j v)
  where
    or_empty : Option String → String
    or_empty none = ""
    or_empty (some s) = s

abbrev pub with_number : Json → (String → Option Bytes) → Option ℤ → Reply Envelope
with_number j m none = invalid_code
with_number j m (some n) =
    replied (record { code = n; msg = msg_of j (m "ResultMsg"); payload = m "ResultData" })

abbrev pub with_text : Json → (String → Option Bytes) → Bytes → Option String → Reply Envelope
with_text j m v (some s) = with_number j m (Json.atoi j s)
with_text j m v none = with_number j m (Json.int_of j v)

abbrev pub with_code : Json → (String → Option Bytes) → Option Bytes → Reply Envelope
with_code j m none = failed (plain "eco: decode envelope: missing ResultCode")
with_code j m (some v) = with_text j m v (Json.string_of j v)

abbrev pub with_object : Json → Reply (String → Option Bytes) → Reply Envelope
with_object j (failed err) = failed (wrap "eco: decode envelope" err)
with_object j (replied m) = with_code j m (m "ResultCode")

unfoldable pub decode_envelope : Json → Bytes → Reply Envelope
decode_envelope j b = with_object j (Json.object j b)

abbrev pub code_text : Json → Envelope → String → String
code_text j e path =
    text_append path
      (text_append " code=" (text_append (Json.itoa j e.code) (text_append " msg=" e.msg)))

abbrev pub auth_error : String → Error
auth_error text = record {
  text = text_append "platform: auth expired at " text;
  chain = auth_expired ∷ [];
}

abbrev pub rate_error : String → Error
rate_error text = record {
  text = text_append "platform: rate limited at " text;
  chain = rate_limited ∷ [];
}

unfoldable pub check_env : Json → Envelope → String → Option Error
check_env j e path =
    if eqb_ℤ e.code code_ok
    then none
    else if eqb_ℤ e.code code_rate_limited
    then some (rate_error path)
    else if eqb_ℤ e.code code_ip_whitelist
        || (eqb_ℤ e.code code_identity_id || eqb_ℤ e.code code_bad_time)
    then some (auth_error (code_text j e path))
    else if eqb_ℤ e.code code_window_limit
    then some (rate_error (code_text j e path))
    else some (plain (text_append "eco: " (code_text j e path)))

abbrev pub passed : Envelope → Option Error → Reply (Option Bytes)
passed e none = replied e.payload
passed e (some err) = failed err

abbrev pub opened : Json → String → Reply Envelope → Reply (Option Bytes)
opened j path (failed err) = failed err
opened j path (replied e) = passed e (check_env j e path)

unfoldable pub exchanged : Json → String → Exchange → Reply (Option Bytes)
unfolding decode_envelope check_env
exchanged j path (bad_request err) = failed err
exchanged j path (bad_transport err) = failed (wrap (text_append "eco: " path) err)
exchanged j path (bad_body err) = failed (wrap "eco: read body" err)
exchanged j path (response status b) =
    if not (eqb status 200)
    then failed (
        plain (
          text_append "eco: "
            (text_append path (text_append " http status " (Json.itoa j (pos status))))))
    else opened j path (decode_envelope j b)

abbrev pub is_limited : Reply (Option Bytes) → Bool
is_limited (replied b) = false
is_limited (failed err) = errors_is err.chain rate_limited

abbrev pub delay : ℕ → ℕ → ℕ
delay attempt jitter = rate_retry_base * 2 ^ attempt + jitter

abbrev pub slept :
    {W : Type 0} → (W → W × Reply (Option Bytes)) → W × Option Error → W × Reply (Option Bytes)
slept again (w, some err) = (w, failed err)
slept again (w, none) = again w

module _ {W V : Type 0} where
  -- the parameters with PartnerId and Timestamp
  abbrev pub stamped : Client W V → W → List (String × V) → List (String × V)
  stamped c w biz =
      put (put biz "PartnerId" (Client.text c (Client.partner_id c))) "Timestamp"
        (Client.text c (Client.timestamp c w))

  abbrev pub posted_body : Client W V → W → String → Reply Bytes → W × Reply (Option Bytes)
  posted_body c w path (failed err) = (w, failed err)
  posted_body c w path (replied b) =
      let (w', x) = Client.exchange c w path b in (w', exchanged (Client.json c) path x)

  abbrev pub posted_signed :
      Client W V → W → String → List (String × V) → Reply String → W × Reply (Option Bytes)
  posted_signed c w path params (failed err) = (w, failed err)
  posted_signed c w path params (replied sig) =
      posted_body c w path (Client.marshal_body c (put params "Sign" (Client.text c sig)))

  abbrev pub posted_waited :
      Client W V → String → List (String × V) → W × Option Error → W × Reply (Option Bytes)
  posted_waited c path biz (w, some err) = (w, failed (wrap "eco: limiter" err))
  posted_waited c path biz (w, none) =
      let params = stamped c w biz in
      posted_signed c w path params (Client.sign c (Client.sign_string c params))

  -- `postOnce`, up to the decoding of the payload
  unfoldable pub post_once : Client W V → String → List (String × V) → W → W × Reply (Option Bytes)
  unfolding exchanged
  post_once c path biz w = posted_waited c path biz (Client.wait c w)

  abbrev pub paused :
      Client W V → ℕ → (W → W × Reply (Option Bytes)) → W × ℕ → W × Reply (Option Bytes)
  paused c attempt again (w, j) = slept again (Client.sleep c w (delay attempt j))

  abbrev pub retried :
      Client W V
      → ℕ
      → (W → W × Reply (Option Bytes))
      → W × Reply (Option Bytes)
      → W × Reply (Option Bytes)
  retried c attempt again (w, r) =
      if is_limited r then paused c attempt again (Client.jitter c w) else (w, r)

  -- the loop of `post` with `left` attempts after this one
  unfoldable pub post_from :
      Client W V → String → List (String × V) → ℕ → ℕ → W → W × Reply (Option Bytes)
  unfolding post_once
  post_from c path biz attempt zero w = post_once c path biz w
  post_from c path biz attempt (suc left) w =
      retried c attempt (λ v. post_from c path biz (attempt + 1) left v) (post_once c path biz w)

  unfoldable pub post : Client W V → String → List (String × V) → W → W × Reply (Option Bytes)
  unfolding post_from
  post c path biz w = post_from c path biz 0 (rate_retry_attempts - 1) w
