-- ===== src/Uu.antt =====
-- backend/internal/platform/uu/client.go: one call of the UU API. The limiter and the HTTP client are a type `W`
-- of states with functions; what encoding/json does is a record of functions on bytes.
pub mod Replies
pub mod Endpoints
pub mod Adapter
pub mod Lists
pub mod Offers
use rent_auto.Prelude.{
  ℕ, String, Bool, true, false, not, ◌||◌, ◌==◌, Option, none, some, List, [], ◌∷◌, ℤ, pos, eqb,
  eqb_ℤ, if◌then◌else◌, text_append,
}
use rent_auto.Domain.{
  Error, auth_expired, platform_blocked, version_blocked, captcha_required, uk_expired,
}
use rent_auto.Recon.Execute.{plain, wrap}
use rent_auto.Delivery.{Reply, failed, replied}

abbrev pub Bytes : Type 0
Bytes = List ℕ

abbrev pub code_ok : ℤ
code_ok = pos 0

abbrev pub code_auth_expired : ℤ
code_auth_expired = pos 84101

abbrev pub code_risk_control : ℤ
code_risk_control = pos 84104

abbrev pub code_version_blocked : ℤ
code_version_blocked = pos 5050

abbrev pub code_captcha_required : ℤ
code_captcha_required = pos 1110205

-- what http.NewRequest, Do and ReadAll come to
pub data Exchange : Type 0 where
  bad_request bad_transport bad_body : Error → Exchange
  response : ℕ → Bytes → Exchange

-- the limiter, json.Marshal and the HTTP client, for payloads of a type `P`
pub record Transport (W P : Type 0) : Type 0 where
  pub wait : W → W × Option Error
  pub marshal : P → Reply Bytes
  pub exchange : W → String → String → Option Bytes → W × Exchange

-- json.Unmarshal into a map of raw values, into an int and into a string, bytes.TrimSpace, the bytes
-- of a null, and how fmt prints %d
pub record Json : Type 0 where
  pub object : Bytes → Reply (String → Option Bytes)
  pub int_of : Bytes → Option ℤ
  pub string_of : Bytes → Option String
  pub trim_space : Bytes → Bytes
  pub is_null : Bytes → Bool
  pub itoa : ℤ → String

-- ErrUKExpired
abbrev pub err_uk_expired : Error
err_uk_expired = record { text = "uu: uk token expired"; chain = uk_expired ∷ [] }

abbrev pub is_json_start : Bytes → Bool
is_json_start [] = false
is_json_start (b ∷ _) = eqb b 123 || eqb b 91

abbrev pub is_json : Json → Bytes → Bool
is_json j b = is_json_start (Json.trim_space j b)

abbrev pub call_text : String → String → String
call_text method path = text_append "uu: " (text_append method (text_append " " path))

unfoldable pub exchanged : Json → String → String → Exchange → Reply Bytes
exchanged j method path (bad_request err) = failed err
exchanged j method path (bad_transport err) = failed (wrap (call_text method path) err)
exchanged j method path (bad_body err) = failed (wrap "uu: read body" err)
exchanged j method path (response status data_bytes) =
    if eqb status 405
    then failed err_uk_expired
    else if not (eqb status 200) || not (is_json j data_bytes)
    then failed (
        plain (
          text_append (call_text method path)
            (text_append ": http " (text_append (Json.itoa j (pos status)) " non-json response"))))
    else replied data_bytes

module _ {W P : Type 0} where
  abbrev pub encoded : Transport W P → Option P → Reply (Option Bytes)
  encoded t none = replied none
  encoded t (some payload) = with_bytes (Transport.marshal t payload)
    where
      with_bytes : Reply Bytes → Reply (Option Bytes)
      with_bytes (failed err) = failed (wrap "uu: marshal" err)
      with_bytes (replied b) = replied (some b)

  abbrev pub sent :
      Transport W P → Json → W → String → String → Reply (Option Bytes) → W × Reply Bytes
  sent t j w method path (failed err) = (w, failed err)
  sent t j w method path (replied body) =
      let (w', x) = Transport.exchange t w method path body in (w', exchanged j method path x)

  abbrev pub waited :
      Transport W P → Json → String → String → Option P → W × Option Error → W × Reply Bytes
  waited t j method path payload (w, some err) = (w, failed (wrap "uu: limiter" err))
  waited t j method path payload (w, none) =
      sent t j w method path (encoded t (if method == "GET" then none else payload))

  -- `do`
  unfoldable pub do_call : Transport W P → Json → W → String → String → Option P → W × Reply Bytes
  unfolding exchanged
  do_call t j w method path payload = waited t j method path payload (Transport.wait t w)

-- envelope
pub record Envelope : Type 0 where
  pub code : ℤ
  pub msg : String
  pub payload : Option Bytes

-- the first of the keys that is set decides, unless its value is neither null nor a number
unfoldable pub raw_int : Json → (String → Option Bytes) → List String → Option ℤ
raw_int j m [] = none
raw_int j m (k ∷ keys) = let rest = raw_int j m keys in try_value rest (m k)
  where
    try_int : Option ℤ → Option ℤ → Option ℤ
    try_int rest (some i) = some i
    try_int rest none = rest

    try_value : Option ℤ → Option Bytes → Option ℤ
    try_value rest none = rest
    try_value rest (some v) =
        if Json.is_null j (Json.trim_space j v) then none else try_int rest (Json.int_of j v)

unfoldable pub raw_string : Json → (String → Option Bytes) → List String → String
raw_string j m [] = ""
raw_string j m (k ∷ keys) = let rest = raw_string j m keys in try_value rest (m k)
  where
    try_string : String → Option String → String
    try_string rest (some s) = s
    try_string rest none = rest

    try_value : String → Option Bytes → String
    try_value rest none = rest
    try_value rest (some v) = try_string rest (Json.string_of j v)

abbrev pub first_set : Option Bytes → Option Bytes → Option Bytes
first_set none b = b
first_set (some a) b = some a

abbrev pub with_code : Json → (String → Option Bytes) → Option ℤ → Reply Envelope
with_code j m none = failed (plain "uu: decode envelope: missing Code/code")
with_code j m (some code) = replied (record {
  code = code;
  msg = raw_string j m ("Msg" ∷ ("msg" ∷ []));
  payload = first_set (m "Data") (m "data");
})

abbrev pub with_object : Json → Reply (String → Option Bytes) → Reply Envelope
with_object j (failed err) = failed (wrap "uu: decode envelope" err)
with_object j (replied m) = with_code j m (raw_int j m ("Code" ∷ ("code" ∷ [])))

unfoldable pub decode_envelope : Json → Bytes → Reply Envelope
unfolding raw_int raw_string
decode_envelope j b = with_object j (Json.object j b)

abbrev pub at_path : String → Error → Error
at_path path err = record err { text = text_append err.text (text_append " at " path) }

abbrev pub with_msg : String → Error → Error
with_msg msg err = record err { text = text_append err.text (text_append " msg=" msg) }

unfoldable pub check_env : Json → Envelope → String → Option Error
check_env j e path =
    if eqb_ℤ e.code code_ok
    then none
    else if eqb_ℤ e.code code_auth_expired
    then some (record { text = "platform: auth expired"; chain = auth_expired ∷ [] })
    else if eqb_ℤ e.code code_risk_control
    then some (
        at_path path (record {
          text = "platform: blocked by platform risk control";
          chain = platform_blocked ∷ [];
        }))
    else if eqb_ℤ e.code code_version_blocked
    then some (
        with_msg e.msg (
          at_path path (record {
            text = "platform: client version blocked by platform";
            chain = version_blocked ∷ [];
          })))
    else if eqb_ℤ e.code code_captcha_required
    then some (
        with_msg e.msg (
          at_path path (record {
            text = "platform: captcha challenge required";
            chain = captcha_required ∷ [];
          })))
    else some (
        plain (
          text_append "uu: " (
            text_append path (
              text_append " code="
                (text_append (Json.itoa j e.code) (text_append " msg=" e.msg))))))

-- the steps that every endpoint takes: `do`, `decodeEnvelope` and `checkEnv`
abbrev pub checked : Json → String → Envelope → Option Error → Reply Envelope
checked j what e (some err) = failed err
checked j what e none = replied e

abbrev pub opened : Json → String → Reply Envelope → Reply Envelope
opened j what (failed err) = failed err
opened j what (replied e) = checked j what e (check_env j e what)

abbrev pub decoded : Json → Reply Bytes → Reply Envelope
decoded j (failed err) = failed err
decoded j (replied b) = decode_envelope j b

unfoldable pub call_env :
    {W P : Type 0} → Transport W P → Json → W → String → String → P → String → W × Reply Envelope
unfolding do_call decode_envelope check_env
call_env t j w method path payload what =
    let (w', r) = do_call t j w method path (some payload) in (w', opened j what (decoded j r))
