-- ===== src/Auth/Session.antt =====
-- backend/internal/api/handlers_auth.go and server.go: signing in and out, changing the password, and the
-- middleware that lets a request in. The stores, bcrypt and the audit trail are a type `W` of states with the
-- functions that the handlers call; the clock stands still between two such calls. A `none` of the
-- stores is an error.
pub mod Admission
pub mod Login
pub mod Password
use rent_auto.Prelude.{
  ℕ, String, Bool, true, false, not, ◌&&◌, ◌||◌, ◌==◌, Option, none, some, List, [], ◌∷◌, ◌++◌, ℤ,
  eqb, eqb_ℤ, ltb, if◌then◌else◌, text_append, ◌≡◌,
}
use rent_auto.Auth.Throttle.{Limiter, allow, fail, reset}
use rent_auto.Auth.Jwt.{Bytes, Claims, Codec, Verdict, invalid, expired, good, sign, verify}

-- what PasswordChange returns: nil, ErrPasswordChanged or another error
pub data Change : Type 0 where
  changed raced broken : Change

pub record Env (W : Type 0) : Type 0 where
  pub codec : Codec
  pub secret : Bytes
  pub ttl : ℕ
  pub admin_user : String
  pub now : W → ℕ
  -- `s.Epochs == nil` and `s.PasswordChange == nil`
  pub no_epochs : Bool
  pub no_change : Bool
  pub epoch_of : W → W × Option ℤ
  pub bump_epoch : W → W × Option ℤ
  pub password_hash : W → W × Option String
  pub change_password : W → String → String → W × Change
  -- `dummyHash`, CheckPassword, HashPassword and the length of a text in bytes
  pub dummy_hash : String
  pub check_password : String → String → Bool
  pub hash_password : String → Option String
  pub byte_length : String → ℕ
  pub audit : W → String → W

-- the state of the server, and what a handler answers
pub record Panel (W : Type 0) : Type 0 where
  pub world : W
  pub logins : Limiter

pub data Response : Type 0 where
  refuse : ℕ → String → Response
  token : Bytes → ℕ → Response
  okay : Response
  pass : String → Response

abbrev pub login_key : String → String → String
login_key ip user = text_append ip (text_append "|" user)

abbrev pub password_key : String → String → String
password_key ip user = text_append ip (text_append "|password:" user)

-- "Bearer "
abbrev pub bearer : Bytes
bearer = 66 ∷ (101 ∷ (97 ∷ (114 ∷ (101 ∷ (114 ∷ (32 ∷ []))))))

-- strings.CutPrefix
abbrev pub cut_prefix : Bytes → Bytes → Option Bytes
cut_prefix [] s = some s
cut_prefix (b ∷ prefix) [] = none
cut_prefix (b ∷ prefix) (c ∷ s) = if eqb b c then cut_prefix prefix s else none

module _ {W : Type 0} where
  abbrev pub session_epoch : Env W → W → W × Option ℤ
  session_epoch e w = if Env.no_epochs e then (w, none) else Env.epoch_of e w

  abbrev pub failed_login : Env W → String → String → Panel W → Panel W
  failed_login e key ip p = record {
    world = Env.audit e p.world "login.failed";
    logins = fail p.logins key ip (Env.now e p.world);
  }

  abbrev pub issue : Env W → Panel W → Option (Bytes × ℕ) → Panel W × Response
  issue e p none = (p, refuse 500 "internal")
  issue e p (some (tok, exp)) =
      (record p { world = Env.audit e p.world "login.success" }, token tok exp)

  abbrev pub matches : Env W → String → String → String → Bool × Bool
  matches e user password hash =
      let user_ok = user == Env.admin_user e in
      (user_ok, Env.check_password e (if user_ok then hash else Env.dummy_hash e) password)

  abbrev pub credentials :
      Env W → String → String → String → Panel W → ℤ → Bool × Bool → Panel W × Response
  credentials e user key ip p epoch (user_ok, pw_ok) =
      if not user_ok || not pw_ok
      then (failed_login e key ip p, refuse 401 "unauthorized")
      else issue e (record p { logins = reset p.logins key ip })
          (sign (Env.codec e) (Env.secret e) user epoch (Env.ttl e) (Env.now e p.world))

  abbrev pub with_hash :
      Env W
      → String
      → String
      → String
      → String
      → Panel W
      → ℤ
      → W × Option String
      → Panel W × Response
  with_hash e user password key ip p epoch (w, none) =
      (failed_login e key ip (record p { world = w }), refuse 500 "internal")
  with_hash e user password key ip p epoch (w, some hash) =
      credentials e user key ip (record p { world = w }) epoch (matches e user password hash)

  abbrev pub with_epoch :
      Env W → String → String → String → String → Panel W → W × Option ℤ → Panel W × Response
  with_epoch e user password key ip p (w, none) = (record p { world = w }, refuse 500 "internal")
  with_epoch e user password key ip p (w, some epoch) =
      with_hash e user password key ip (record p { world = w }) epoch (Env.password_hash e w)

  abbrev pub admitted :
      Env W → String → String → String → String → Panel W → Limiter × Bool → Panel W × Response
  admitted e user password key ip p (logins, false) = (
    record { world = Env.audit e p.world "login.rate_limited"; logins = logins },
    refuse 429 "rate_limited",
  )
  admitted e user password key ip p (logins, true) =
      with_epoch e user password key ip (record p { logins = logins }) (session_epoch e p.world)

  -- handleLogin, with the decoded body and the address of the client
  unfoldable pub handle_login :
      Env W → Option (String × String) → String → Panel W → Panel W × Response
  unfolding allow fail reset sign
  handle_login e none ip p = (p, refuse 400 "bad_request")
  handle_login e (some (user, password)) ip p =
      admitted e user password (login_key ip user) ip p
        (allow p.logins (login_key ip user) ip (Env.now e p.world))

  abbrev bumped : Env W → Panel W → W × Option ℤ → Panel W × Response
  bumped e p (w, none) = (record p { world = w }, refuse 500 "internal")
  bumped e p (w, some ver) = (record p { world = Env.audit e w "auth.logout" }, okay)

  unfoldable pub handle_logout : Env W → Panel W → Panel W × Response
  handle_logout e p =
      bumped e p (if Env.no_epochs e then (p.world, none) else Env.bump_epoch e p.world)

  abbrev pub same_epoch : Panel W → Claims → W × Option ℤ → Panel W × Response
  same_epoch p claims (w, none) = (record p { world = w }, refuse 401 "session unavailable")
  same_epoch p claims (w, some epoch) = (
    record p { world = w },
    if eqb_ℤ claims.ver epoch then pass claims.sub else refuse 401 "token revoked",
  )

  abbrev pub verified : Env W → Panel W → Verdict → Panel W × Response
  verified e p invalid = (p, refuse 401 "invalid token")
  verified e p expired = (p, refuse 401 "invalid token")
  verified e p (good claims) = same_epoch p claims (session_epoch e p.world)

  abbrev pub with_token : Env W → Panel W → Option Bytes → Panel W × Response
  with_token e p none = (p, refuse 401 "missing bearer token")
  with_token e p (some []) = (p, refuse 401 "missing bearer token")
  with_token e p (some (b ∷ tok)) =
      verified e p (verify (Env.codec e) (Env.secret e) (b ∷ tok) (Env.now e p.world))

  -- requireAuth, with the Authorization header; `pass` is the user for which the handler is called
  unfoldable pub require_auth : Env W → Bytes → Panel W → Panel W × Response
  unfolding verify
  require_auth e header p = with_token e p (cut_prefix bearer header)

  abbrev pub change_result : Env W → String → String → Panel W → W × Change → Panel W × Response
  change_result e key ip p (w, raced) = (record p { world = w }, refuse 409 "password_changed")
  change_result e key ip p (w, broken) = (record p { world = w }, refuse 500 "internal")
  change_result e key ip p (w, changed) = (
    record { world = Env.audit e w "auth.password_changed"; logins = reset p.logins key ip },
    okay,
  )

  abbrev pub rehash :
      Env W → String → String → Panel W → String → Option String → Panel W × Response
  rehash e key ip p old none = (p, refuse 500 "internal")
  rehash e key ip p old (some hash) =
      change_result e key ip p (Env.change_password e p.world old hash)

  abbrev pub with_old_hash :
      Env W → String → String → String → String → Panel W → W × Option String → Panel W × Response
  with_old_hash e current_pw new_pw key ip p (w, none) =
      (record p { world = w }, refuse 500 "internal")
  with_old_hash e current_pw new_pw key ip p (w, some old) =
      if not (Env.check_password e old current_pw)
      then (
        record {
          world = Env.audit e w "auth.password_failed";
          logins = fail p.logins key ip (Env.now e w);
        },
        refuse 400 "bad_credentials",
      )
      else rehash e key ip (record p { world = w }) old (Env.hash_password e new_pw)

  abbrev pub change_admitted :
      Env W → String → String → String → String → Panel W → Limiter × Bool → Panel W × Response
  change_admitted e current_pw new_pw key ip p (logins, false) =
      (record p { logins = logins }, refuse 429 "rate_limited")
  change_admitted e current_pw new_pw key ip p (logins, true) =
      with_old_hash e current_pw new_pw key ip (record p { logins = logins })
        (Env.password_hash e p.world)

  -- handlePasswordChange, with the decoded body, the user of the request and the client's address
  unfoldable pub handle_password_change :
      Env W → Option (String × String) → String → String → Panel W → Panel W × Response
  unfolding allow fail reset
  handle_password_change e none user ip p =
      if Env.no_change e
      then (p, refuse 409 "password_managed_externally")
      else (p, refuse 400 "bad_request")
  handle_password_change e (some (current_pw, new_pw)) user ip p =
      if Env.no_change e
      then (p, refuse 409 "password_managed_externally")
      else if ltb (Env.byte_length e new_pw) 12 || ltb 72 (Env.byte_length e new_pw)
      then (p, refuse 400 "bad_request")
      else change_admitted e current_pw new_pw (password_key ip user) ip p
          (allow p.logins (password_key ip user) ip (Env.now e p.world))
