-- ===== src/Tests/Sessions.antt =====
-- Sessions of one administrator, and the throttles. The codec adds 100 to a byte, so it writes no dot, and
-- the code of a text is the secret before it.
use rent_auto.Prelude.{
  ℕ, ◌+◌, ◌-◌, ◌≡◌, ◌≢◌, ◌≤◌, ◌/◌, ◌&&◌, refl, sym, ap, ◌∙◌, arith, String, true, false, ◌==◌,
  Option, none, some, List, [], ◌∷◌, ◌++◌, ℤ, pos, negsuc, if◌then◌else◌, eqb_iff, Bool-cases, inl,
  inr, eq_iff,
}
use rent_auto.Auth.Jwt.{Bytes, Claims, Codec, good, issued, signed, sign, verify, split_token}
use rent_auto.Auth.Jwt.Split.{NoDot}
use rent_auto.Auth.Jwt.Signing.{IsCodec, Authentic, Current, verify-sign, verify-Authentic}
use rent_auto.Auth.Throttle.{Limiter, Bucket, allow, slot, with_slot, has_expired}
use rent_auto.Auth.Throttle.Lockout.{IsLimiter, fail_all, allow-fail_all}
use rent_auto.Auth.Throttle.Budget.{attempts, attempts-eq-min}
use rent_auto.Auth.Session.{
  Env, Panel, pass, okay, changed, bearer, require_auth, handle_login, token, handle_logout,
  handle_password_change, password_key,
}
use rent_auto.Auth.Session.Admission.{IsEpochStore, handle_logout-revokes}
use rent_auto.Auth.Session.Login.{require_auth-handle_login}
use rent_auto.Auth.Session.Password.{Replaced, handle_password_change-Replaced}

abbrev encode : Bytes → Bytes
encode [] = []
encode (b ∷ bytes) = (b + 100) ∷ encode bytes

abbrev lowered : Bytes → Bytes
lowered [] = []
lowered (b ∷ bytes) = (b - 100) ∷ lowered bytes

abbrev coded : ℤ → ℤ → ℤ → Option Bytes
coded (pos v) (pos i) (pos x) = some (v ∷ (i ∷ (x ∷ [])))
coded _ _ _ = none

abbrev read_root : Bytes → Option Claims
read_root (v ∷ (i ∷ (x ∷ []))) =
    some (record { sub = "root"; ver = pos v; issued_at = pos i; expires_at = pos x })
read_root _ = none

abbrev codec : Codec
codec = record {
  mac = λ secret b. secret ++ b;
  encode = encode;
  decode = λ b. some (lowered b);
  marshal = λ c. if c.sub == "root" then coded c.ver c.issued_at c.expires_at else none;
  unmarshal_alg = λ b. some "HS256";
  unmarshal_claims = read_root;
  header = 1 ∷ [];
}

lowered-encode : (b : Bytes) → lowered (encode b) ≡ b
lowered-encode [] = refl
lowered-encode (b ∷ bytes) =
    let ih = lowered-encode bytes in let h : b + 100 - 100 ≡ b = omega arith in simp (ih, h) refl

NoDot-encode : (b : Bytes) → NoDot (encode b)
NoDot-encode [] = tt
NoDot-encode (b ∷ bytes) = (ground (arith, eqb_iff (b + 100) 46), NoDot-encode bytes)

read_root-coded :
    (v i x : ℤ) (payload : Bytes)
    → coded v i x ≡ some payload
    → read_root payload ≡ some (record { sub = "root"; ver = v; issued_at = i; expires_at = x })
read_root-coded (pos v) (pos i) (pos x) payload h =
    let q : v ∷ (i ∷ (x ∷ [])) ≡ payload = cc in ap read_root (sym q)
read_root-coded (pos v) (pos i) (negsuc x) payload h = cc
read_root-coded (pos v) (negsuc i) x payload h = cc
read_root-coded (negsuc v) i x payload h = cc

read_claims :
    (c : Claims) (payload : Bytes)
    → Codec.marshal codec c ≡ some payload
    → read_root payload ≡ some c
read_claims c payload h = elim (Bool-cases (c.sub == "root")) [
  | inl e ↦
      let named : "root" ≡ c.sub = ground (arith, e, eq_iff c.sub "root") in
      read_root-coded c.ver c.issued_at c.expires_at payload (simp e at h)
      ∙ ap {A = String}
          (λ s.
            some
              (record { sub = s; ver = c.ver; issued_at = c.issued_at; expires_at = c.expires_at }))
          named
  | inr e ↦ let k = (simp e at h) in cc
]

codec-IsCodec : IsCodec codec
codec-IsCodec = record {
  decode_encode = λ b. ap some (lowered-encode b);
  encode_no_dot = NoDot-encode;
  read_claims = read_claims;
  header_alg = refl;
}

abbrev secret : Bytes
secret = 5 ∷ (6 ∷ [])

-- one hour
abbrev ttl : ℕ
ttl = 3_600_000_000_000

abbrev noon : ℕ
noon = 1_000_000_000_000

-- the token of a login at `noon` in the epoch 3
abbrev ticket : Bytes
ticket = signed codec secret (3 ∷ (1000 ∷ (4600 ∷ [])))

ticket_signed : sign codec secret "root" (pos 3) ttl noon ≡ some (ticket, noon + ttl)
unfolding sign
ticket_signed = refl

verify-sign_example :
    verify codec secret ticket (noon + 5) ≡ good (issued "root" (pos 3) noon (noon + ttl))
unfolding verify
verify-sign_example =
    verify-sign codec secret ticket "root" 3 ttl noon (noon + ttl) (noon + 5) codec-IsCodec
      ticket_signed refl (omega arith)

accepted : verify codec secret ticket (noon + 5) ≡ good (issued "root" (pos 3) noon (noon + ttl))
unfolding verify split_token
accepted = refl

verify-Authentic_example :
    Authentic codec secret ticket (issued "root" (pos 3) noon (noon + ttl))
    × Current ((noon + 5) / 1_000_000_000) (issued "root" (pos 3) noon (noon + ttl))
verify-Authentic_example =
    verify-Authentic codec secret ticket (noon + 5) (issued "root" (pos 3) noon (noon + ttl))
      accepted

-- the epoch of the sessions is the state of the world
abbrev env : Env ℕ
env = record {
  codec = codec;
  secret = secret;
  ttl = ttl;
  admin_user = "root";
  now = λ w. noon + w;
  no_epochs = false;
  no_change = false;
  epoch_of = λ w. (w, some (pos w));
  bump_epoch = λ w. (w + 1, some (pos (w + 1)));
  password_hash = λ w. (w, some "#old");
  change_password = λ w old new. (w, changed);
  dummy_hash = "#dummy";
  check_password = λ hash password. hash == "#old" && password == "old password";
  hash_password = λ password. some "#new";
  byte_length = λ s. 14;
  audit = λ w text. w;
}

abbrev nobody_failed : Limiter
nobody_failed = record { fails = []; ip_fails = [] }

abbrev panel : Panel ℕ
panel = record { world = 3; logins = nobody_failed }

env-IsEpochStore : IsEpochStore env
env-IsEpochStore = record { bump_moves = moves }
  where
    moves :
        (w w' : ℕ) (u v : ℤ) (text : String)
        → some (pos w) ≡ some v
        → ◌≡◌ {A = ℕ × Option ℤ} (w + 1, some (pos (w + 1))) (w', some u)
        → (some (pos w') ≡ some u) × (u ≢ v)
    moves w w' u v text h g =
        let here : w + 1 ≡ w' = cc in
        let new : pos (w + 1) ≡ u = cc in
        let old : pos w ≡ v = cc in
        (
          ap (λ x. some (pos x)) (sym here) ∙ ap some new,
          λ same. let k : w + 1 ≡ w = cc in absurd (ground (arith, k)),
        )

signed_out : (handle_logout env panel).1 ≡ okay
unfolding handle_logout
signed_out = refl

let_in : (require_auth env (bearer ++ ticket) panel).1 ≡ pass "root"
unfolding require_auth verify split_token
let_in = refl

handle_logout-revokes_example :
    (require_auth env (bearer ++ ticket) (handle_logout env panel).0).1 ≢ pass "root"
handle_logout-revokes_example =
    handle_logout-revokes env (bearer ++ ticket) panel "root" "root" env-IsEpochStore let_in
      signed_out

signed_in :
    (handle_login env (some ("root", "old password")) "10.0.0.1" panel).1
    ≡ token ticket (noon + 3 + ttl)
unfolding handle_login allow with_slot slot has_expired sign
signed_in = refl

require_auth-handle_login_example : (require_auth env (bearer ++ ticket) panel).1 ≡ pass "root"
require_auth-handle_login_example =
    require_auth-handle_login env "root" "old password" "10.0.0.1" 3 panel panel ticket
      (noon + 3 + ttl) codec-IsCodec signed_in refl refl (omega arith) refl

password_changed :
    (handle_password_change env (some ("old password", "a new password")) "root" "10.0.0.1" panel).1
    ≡ okay
unfolding handle_password_change allow with_slot slot has_expired
password_changed = refl

handle_password_change-Replaced_example :
    (Env.no_change env ≡ false)
    × (12 ≤ Env.byte_length env "a new password")
    × (Env.byte_length env "a new password" ≤ 72)
    × ((allow nobody_failed (password_key "10.0.0.1" "root") "10.0.0.1" (noon + 3)).1 ≡ true)
    × Replaced env "old password" "a new password" panel
handle_password_change-Replaced_example =
    handle_password_change-Replaced env "old password" "a new password" "root" "10.0.0.1" panel
      password_changed

-- an address with 28 failed logins
abbrev attacked : Limiter
attacked = record { fails = []; ip_fails = ("10.0.0.9", record { count = 28; start = noon }) ∷ [] }

abbrev tries : List (String × ℕ)
tries = ("10.0.0.9|ann", noon + 1) ∷ (("10.0.0.9|bob", noon + 2) ∷ [])

attacked-IsLimiter : IsLimiter attacked
attacked-IsLimiter = record { fails_map = tt; ip_fails_map = (refl, tt) }

allow-fail_all_example :
    (allow (fail_all attacked "10.0.0.9" tries) "10.0.0.9|eve" "10.0.0.9" (noon + 3)).1 ≡ false
allow-fail_all_example =
    allow-fail_all attacked "10.0.0.9|eve" "10.0.0.9" 28 noon (noon + 3) tries attacked-IsLimiter
      refl (omega arith, (omega arith, tt)) (omega arith) (omega arith)

abbrev bucket : Bucket
bucket = record { slots = []; limit = 2; window = 600_000_000_000 }

attempts-eq-min_example :
    (attempts bucket "10.0.0.1" (noon ∷ ((noon + 1) ∷ ((noon + 2) ∷ [])))).1 ≡ 2
unfolding slot
attempts-eq-min_example =
    attempts-eq-min bucket "10.0.0.1" noon ((noon + 1) ∷ ((noon + 2) ∷ [])) tt refl
      (omega arith, (omega arith, tt))
