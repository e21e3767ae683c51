-- ===== src/Auth/Jwt.antt =====
-- backend/internal/auth/jwt.go: the session tokens. A token is a list of bytes. HMAC-SHA256, base64 and
-- encoding/json are a record of functions. Instants are nanoseconds, the times in the claims are seconds.
pub mod Split
pub mod Signing
pub mod Stable
use rent_auto.Prelude.{
  ℕ, ◌+◌, ◌/◌, String, Bool, true, false, not, ◌&&◌, ◌||◌, ◌==◌, Option, none, some, List, [], ◌∷◌,
  ◌++◌, ℤ, pos, ltb_ℤ, leb_ℤ, eqb, if◌then◌else◌, ◌≡◌,
}

abbrev pub Bytes : Type 0
Bytes = List ℕ

pub record Claims : Type 0 where
  pub sub : String
  pub ver : ℤ
  pub issued_at : ℤ
  pub expires_at : ℤ

-- hmac with SHA-256, base64.RawURLEncoding, json.Marshal and json.Unmarshal, for the header's `alg`
-- and for the claims
pub record Codec : Type 0 where
  pub mac : Bytes → Bytes → Bytes
  pub encode : Bytes → Bytes
  pub decode : Bytes → Option Bytes
  pub marshal : Claims → Option Bytes
  pub unmarshal_alg : Bytes → Option String
  pub unmarshal_claims : Bytes → Option Claims
  -- the bytes of {"alg":"HS256","typ":"JWT"}
  pub header : Bytes

abbrev pub dot : ℕ
dot = 46

-- the segment that is being read, and what follows it
abbrev split_from : Bytes → Bytes → List Bytes
split_from part [] = part ∷ []
split_from part (b ∷ bytes) =
    if eqb b dot then part ∷ split_from [] bytes else split_from (part ++ (b ∷ [])) bytes

unfoldable pub split_token : Bytes → List Bytes
split_token t = split_from [] t

abbrev pub same_bytes : Bytes → Bytes → Bool
same_bytes [] [] = true
same_bytes (a ∷ xs) (b ∷ ys) = if eqb a b then same_bytes xs ys else false
same_bytes _ _ = false

-- Sign: the token and its expiry
abbrev seconds : ℕ → ℤ
seconds t = pos (t / 1_000_000_000)

abbrev pub issued : String → ℤ → ℕ → ℕ → Claims
issued sub ver now exp = record {
  sub = sub;
  ver = ver;
  issued_at = seconds now;
  expires_at = seconds exp;
}

abbrev pub signed : Codec → Bytes → Bytes → Bytes
signed c secret payload =
    let body = Codec.encode c c.header ++ (dot ∷ Codec.encode c payload) in
    body ++ (dot ∷ Codec.encode c (Codec.mac c secret body))

abbrev sign_payload : Codec → Bytes → ℕ → Option Bytes → Option (Bytes × ℕ)
sign_payload c secret exp none = none
sign_payload c secret exp (some payload) = some (signed c secret payload, exp)

unfoldable pub sign : Codec → Bytes → String → ℤ → ℕ → ℕ → Option (Bytes × ℕ)
sign c secret sub ver ttl now =
    sign_payload c secret (now + ttl) (Codec.marshal c (issued sub ver now (now + ttl)))

-- what Verify returns: ErrInvalidToken, ErrExpiredToken or the claims
pub data Verdict : Type 0 where
  invalid expired : Verdict
  good : Claims → Verdict

abbrev check_claims : ℕ → Option Claims → Verdict
check_claims now none = invalid
check_claims now (some c) =
    if c.sub == "" || ltb_ℤ c.ver (pos 0)
    then invalid
    else if ltb_ℤ (pos (now + 60)) c.issued_at
    then invalid
    else if leb_ℤ c.expires_at (pos now)
    then expired
    else good c

abbrev check_payload : Codec → ℕ → Option Bytes → Verdict
check_payload c now none = invalid
check_payload c now (some payload) = check_claims now (Codec.unmarshal_claims c payload)

abbrev check_mac : Codec → Bytes → ℕ → Bytes → Option Bytes → Verdict
check_mac c want now pb none = invalid
check_mac c want now pb (some got) =
    if same_bytes want got then check_payload c now (Codec.decode c pb) else invalid

abbrev is_hs256 : Option String → Bool
is_hs256 none = false
is_hs256 (some alg) = alg == "HS256"

abbrev check_header : Codec → Bytes → ℕ → Bytes → Bytes → Bytes → Option Bytes → Verdict
check_header c secret now hb pb sb none = invalid
check_header c secret now hb pb sb (some raw) =
    if is_hs256 (Codec.unmarshal_alg c raw)
    then check_mac c (Codec.mac c secret (hb ++ (dot ∷ pb))) now pb (Codec.decode c sb)
    else invalid

abbrev check_parts : Codec → Bytes → ℕ → List Bytes → Verdict
check_parts c secret now (hb ∷ (pb ∷ (sb ∷ []))) =
    check_header c secret now hb pb sb (Codec.decode c hb)
check_parts c secret now _ = invalid

-- `now` in nanoseconds
unfoldable pub verify : Codec → Bytes → Bytes → ℕ → Verdict
unfolding split_token
verify c secret token now = check_parts c secret (now / 1_000_000_000) (split_token token)
