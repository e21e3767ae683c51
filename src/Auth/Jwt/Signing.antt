-- ===== src/Auth/Jwt/Signing.antt =====
-- What Verify makes of a token: of the tokens that Sign issued, and of any other.
use rent_auto.Prelude.{
  ℕ, ◌+◌, ◌/◌, ◌≤◌, ◌≡◌, refl, sym, ap, ◌∙◌, String, true, false, ◌==◌, Option, none, some, List,
  [], ◌∷◌, ◌++◌, pos, ltb, ◌≤ℤ◌, ◌<ℤ◌, eqb, eqb_iff, if◌then◌else◌, Bool-cases, inl, inr, arith,
  eq_iff, subst,
}
use rent_auto.Auth.Jwt.{
  Bytes, Claims, Codec, expired, good, dot, same_bytes, issued, signed, sign, verify, check_claims,
  check_payload, check_mac, check_header, check_parts, split_token, is_hs256, sign_payload,
}
use rent_auto.Auth.Jwt.Split.{NoDot, split_token-joined, joined, joined-split_token}

-- What the code relies on: base64url decodes what it encoded and writes no dot, encoding/json reads
-- back the claims that it wrote, and the header names HS256.
pub record IsCodec (c : Codec) : Type 0 where
  pub decode_encode : (b : Bytes) → Codec.decode c (Codec.encode c b) ≡ some b
  pub encode_no_dot : (b : Bytes) → NoDot (Codec.encode c b)
  pub read_claims :
      (claims : Claims) (payload : Bytes)
      → Codec.marshal c claims ≡ some payload
      → Codec.unmarshal_claims c payload ≡ some claims
  pub header_alg : Codec.unmarshal_alg c (Codec.header c) ≡ some "HS256"

same_bytes_refl : (b : Bytes) → same_bytes b b ≡ true
same_bytes_refl [] = refl
same_bytes_refl (x ∷ b) = let ih = same_bytes_refl b in ground (arith, ih)

same_bytes_sound : (a b : Bytes) → same_bytes a b ≡ true → a ≡ b
same_bytes_sound [] [] h = refl
same_bytes_sound [] (y ∷ b) h = cc
same_bytes_sound (x ∷ a) [] h = cc
same_bytes_sound (x ∷ a) (y ∷ b) h = elim (Bool-cases (eqb x y)) [
  | inl q ↦
      ap (λ z. z ∷ a) ((eqb_iff x y).0 q)
      ∙ ap (λ zs. y ∷ zs) (same_bytes_sound a b (ground (arith, h, q)))
  | inr q ↦ absurd (ground (arith, h, q))
]

verify-signed :
    (c : Codec) (secret payload : Bytes) (claims : Claims) (now : ℕ)
    → IsCodec c
    → Codec.unmarshal_claims c payload ≡ some claims
    → verify c secret (signed c secret payload) now
      ≡ check_claims (now / 1_000_000_000) (some claims)
unfolding verify
verify-signed c secret payload claims now laws e =
    let hb = Codec.encode c c.header in
    let pb = Codec.encode c payload in
    let m = Codec.mac c secret (hb ++ (dot ∷ pb)) in
    simp
      (
        split_token-joined hb pb (Codec.encode c m) (laws.encode_no_dot _) (laws.encode_no_dot _)
            (laws.encode_no_dot _),
        laws.decode_encode c.header,
        laws.header_alg,
        laws.decode_encode m,
        same_bytes_refl m,
        laws.decode_encode payload,
        e,
      )
      refl

check_claims-issued :
    (sub : String) (v now exp t : ℕ)
    → (sub == "") ≡ false
    → now / 1_000_000_000 ≤ t / 1_000_000_000
    → check_claims (t / 1_000_000_000) (some (issued sub (pos v) now exp)) ≡ (
        if ltb (t / 1_000_000_000) (exp / 1_000_000_000)
        then good (issued sub (pos v) now exp)
        else expired)
check_claims-issued sub v now exp t named later = simp named (ground (arith, later))

-- A token that Sign issued for a named user and an epoch from 0 on, checked at any later instant
-- with the same secret, gives back its claims until the second in which it expires, and ErrExpiredToken
-- from then on.
pub verify-sign :
    (c : Codec) (secret token : Bytes) (sub : String) (v ttl now exp t : ℕ)
    → IsCodec c
    → sign c secret sub (pos v) ttl now ≡ some (token, exp)
    → (sub == "") ≡ false
    → now ≤ t
    → verify c secret token t ≡ (
        if ltb (t / 1_000_000_000) (exp / 1_000_000_000)
        then good (issued sub (pos v) now exp)
        else expired)
unfolding sign
verify-sign c secret token sub v ttl now exp t laws e named later =
    by_payload (Codec.marshal c (issued sub (pos v) now (now + ttl))) refl e
  where
    by_payload :
        (o : Option Bytes)
        → Codec.marshal c (issued sub (pos v) now (now + ttl)) ≡ o
        → sign_payload c secret (now + ttl) o ≡ some (token, exp)
        → verify c secret token t ≡ (
            if ltb (t / 1_000_000_000) (exp / 1_000_000_000)
            then good (issued sub (pos v) now exp)
            else expired)
    by_payload none m h = cc
    by_payload (some payload) m h =
        let te : signed c secret payload ≡ token = cc in
        let ee : now + ttl ≡ exp = cc in
        let read : Codec.unmarshal_claims c payload ≡ some (issued sub (pos v) now exp) =
          laws.read_claims _ payload
            (ap (λ x. Codec.marshal c (issued sub (pos v) now x)) (sym ee) ∙ m) in
        ap (λ k. verify c secret k t) (sym te)
        ∙ (verify-signed c secret payload (issued sub (pos v) now exp) t laws read
            ∙ check_claims-issued sub v now exp t named (omega (arith, later)))

-- claims that are accepted at the second `now`
pub record Current (now : ℕ) (claims : Claims) : Type 0 where
  pub has_sub : (claims.sub == "") ≡ false
  pub has_epoch : pos 0 ≤ℤ claims.ver
  pub not_future : claims.issued_at ≤ℤ pos (now + 60)
  pub not_expired : pos now <ℤ claims.expires_at

-- three parts of a token whose last is the code of the first two, and whose second holds the claims
pub record Authentic (c : Codec) (secret token : Bytes) (claims : Claims) : Type 0 where
  pub head : Bytes
  pub body : Bytes
  pub tail : Bytes
  pub raw : Bytes
  pub payload : Bytes
  pub in_parts : token ≡ joined (head ∷ (body ∷ (tail ∷ [])))
  pub header_read : Codec.decode c head ≡ some raw
  pub alg_read : Codec.unmarshal_alg c raw ≡ some "HS256"
  pub coded : Codec.decode c tail ≡ some (Codec.mac c secret (head ++ (dot ∷ body)))
  pub body_read : Codec.decode c body ≡ some payload
  pub claims_read : Codec.unmarshal_claims c payload ≡ some claims

good_current :
    (now : ℕ) (c claims : Claims) → check_claims now (some c) ≡ good claims → Current now c
good_current now c claims h = record {
  has_sub = ground (arith, h);
  has_epoch = ground (arith, h);
  not_future = ground (arith, h);
  not_expired = ground (arith, h);
}

pub good_claims :
    (now : ℕ) (c claims : Claims) → check_claims now (some c) ≡ good claims → c ≡ claims
good_claims now c claims h = ground (arith, h)

Current-check_claims :
    (now : ℕ) (o : Option Claims) (claims : Claims)
    → check_claims now o ≡ good claims
    → (o ≡ some claims) × Current now claims
Current-check_claims now none claims h = cc
Current-check_claims now (some c) claims h =
    let e = good_claims now c claims h in
    (ap some e, subst (Current now) e (good_current now c claims h))

is_hs256-alg : (o : Option String) → is_hs256 o ≡ true → o ≡ some "HS256"
is_hs256-alg none h = cc
is_hs256-alg (some alg) h = ap some ((eq_iff alg "HS256").0 h)

read_payload :
    (c : Codec) (now : ℕ) (o : Option Bytes) (claims : Claims)
    → check_payload c now o ≡ good claims
    → (payload : Bytes) × (o ≡ some payload)
      × (Codec.unmarshal_claims c payload ≡ some claims)
      × Current now claims
read_payload c now none claims h = cc
read_payload c now (some payload) claims h =
    let (e, k) = Current-check_claims now (Codec.unmarshal_claims c payload) claims h in
    (payload, refl, e, k)

Authentic-check_mac :
    (c : Codec) (secret head body tail raw : Bytes) (now : ℕ) (o : Option Bytes) (claims : Claims)
    → Codec.decode c head ≡ some raw
    → Codec.unmarshal_alg c raw ≡ some "HS256"
    → Codec.decode c tail ≡ o
    → check_mac c (Codec.mac c secret (head ++ (dot ∷ body))) now body o ≡ good claims
    → Authentic c secret (joined (head ∷ (body ∷ (tail ∷ [])))) claims × Current now claims
Authentic-check_mac c secret head body tail raw now none claims hr ar tr h = cc
Authentic-check_mac c secret head body tail raw now (some got) claims hr ar tr h =
    elim (Bool-cases (same_bytes (Codec.mac c secret (head ++ (dot ∷ body))) got)) [
      | inr no_match ↦ absurd (ground (arith, h, no_match))
      | inl match ↦
          let checked : check_payload c now (Codec.decode c body) ≡ good claims =
            ground (arith, h, match) in
          let (payload, pr, cr, k) = read_payload c now (Codec.decode c body) claims checked in
          (
            record {
              head = head;
              body = body;
              tail = tail;
              raw = raw;
              payload = payload;
              in_parts = refl;
              header_read = hr;
              alg_read = ar;
              coded = tr ∙ ap some (sym (same_bytes_sound _ got match));
              body_read = pr;
              claims_read = cr;
            },
            k,
          )
    ]

Authentic-check_header :
    (c : Codec) (secret head body tail : Bytes) (now : ℕ) (o : Option Bytes) (claims : Claims)
    → Codec.decode c head ≡ o
    → check_header c secret now head body tail o ≡ good claims
    → Authentic c secret (joined (head ∷ (body ∷ (tail ∷ [])))) claims × Current now claims
Authentic-check_header c secret head body tail now none claims hr h = cc
Authentic-check_header c secret head body tail now (some raw) claims hr h =
    elim (Bool-cases (is_hs256 (Codec.unmarshal_alg c raw))) [
      | inr no_alg ↦ absurd (ground (arith, h, no_alg))
      | inl alg ↦
          Authentic-check_mac c secret head body tail raw now (Codec.decode c tail) claims hr
            (is_hs256-alg _ alg) refl (ground (arith, h, alg))
    ]

Authentic-check_parts :
    (c : Codec) (secret : Bytes) (now : ℕ) (parts : List Bytes) (claims : Claims)
    → check_parts c secret now parts ≡ good claims
    → Authentic c secret (joined parts) claims × Current now claims
Authentic-check_parts c secret now [] claims h = cc
Authentic-check_parts c secret now (_ ∷ []) claims h = cc
Authentic-check_parts c secret now (_ ∷ (_ ∷ [])) claims h = cc
Authentic-check_parts c secret now (hb ∷ (pb ∷ (sb ∷ []))) claims h =
    Authentic-check_header c secret hb pb sb now (Codec.decode c hb) claims refl h
Authentic-check_parts c secret now (_ ∷ (_ ∷ (_ ∷ (_ ∷ _)))) claims h = cc

-- Whatever token Verify accepts, it is three parts with dots between them: a header that names HS256, a
-- body that holds the claims, and the code of those two under the secret; and its claims name a user
-- and an epoch from 0 on, were issued at most a minute in the future and have not expired.
pub verify-Authentic :
    (c : Codec) (secret token : Bytes) (now : ℕ) (claims : Claims)
    → verify c secret token now ≡ good claims
    → Authentic c secret token claims × Current (now / 1_000_000_000) claims
unfolding verify
verify-Authentic c secret token now claims h =
    subst (λ t. Authentic c secret t claims × Current (now / 1_000_000_000) claims)
      (joined-split_token token)
      (Authentic-check_parts c secret (now / 1_000_000_000) (split_token token) claims h)
