-- ===== src/Auth/Jwt/Stable.antt =====
-- The instant decides whether a token is accepted, and not what is read in it.
use rent_auto.Prelude.{
  ℕ, ◌/◌, ◌≡◌, refl, sym, ◌∙◌, Option, none, some, List, [], ◌∷◌, ◌++◌, Bool-cases, inl, inr,
}
use rent_auto.Auth.Jwt.{
  Bytes, Claims, Codec, Verdict, good, dot, same_bytes, verify, check_claims, check_payload,
  check_mac, check_header, check_parts, split_token, is_hs256,
}
use rent_auto.Auth.Jwt.Signing.{good_claims}

-- what a body holds, once it is decoded
abbrev claims_in : Codec → Option Bytes → Option Claims
claims_in c none = none
claims_in c (some payload) = Codec.unmarshal_claims c payload

check_payload-eq :
    (c : Codec) (now : ℕ) (o : Option Bytes)
    → check_payload c now o ≡ check_claims now (claims_in c o)
check_payload-eq c now none = refl
check_payload-eq c now (some payload) = refl

-- for every token there are claims, or none, on which alone the answer depends at every instant
abbrev Reads : (ℕ → Verdict) → Type 0
Reads answer = (o : Option Claims) × ((now : ℕ) → answer now ≡ check_claims now o)

Reads-check_mac :
    (c : Codec) (want pb : Bytes) (o : Option Bytes) → Reads (λ now. check_mac c want now pb o)
Reads-check_mac c want pb none = (none, λ now. refl)
Reads-check_mac c want pb (some got) = elim (Bool-cases (same_bytes want got)) [
  | inl h ↦
      (claims_in c (Codec.decode c pb), λ now. simp h (check_payload-eq c now (Codec.decode c pb)))
  | inr h ↦ (none, λ now. simp h refl)
]

Reads-check_header :
    (c : Codec) (secret hb pb sb : Bytes) (o : Option Bytes)
    → Reads (λ now. check_header c secret now hb pb sb o)
Reads-check_header c secret hb pb sb none = (none, λ now. refl)
Reads-check_header c secret hb pb sb (some raw) =
    let (o, same) =
      Reads-check_mac c (Codec.mac c secret (hb ++ (dot ∷ pb))) pb (Codec.decode c sb) in
    elim (Bool-cases (is_hs256 (Codec.unmarshal_alg c raw))) [
      | inl h ↦ (o, λ now. simp h (same now))
      | inr h ↦ (none, λ now. simp h refl)
    ]

Reads-check_parts :
    (c : Codec) (secret : Bytes) (parts : List Bytes)
    → Reads (λ now. check_parts c secret now parts)
Reads-check_parts c secret [] = (none, λ now. refl)
Reads-check_parts c secret (_ ∷ []) = (none, λ now. refl)
Reads-check_parts c secret (_ ∷ (_ ∷ [])) = (none, λ now. refl)
Reads-check_parts c secret (hb ∷ (pb ∷ (sb ∷ []))) =
    Reads-check_header c secret hb pb sb (Codec.decode c hb)
Reads-check_parts c secret (_ ∷ (_ ∷ (_ ∷ (_ ∷ _)))) = (none, λ now. refl)

same_claims :
    (o : Option Claims) (s t : ℕ) (a b : Claims)
    → check_claims s o ≡ good a
    → check_claims t o ≡ good b
    → a ≡ b
same_claims none s t a b h k = cc
same_claims (some c) s t a b h k = sym (good_claims s c a h) ∙ good_claims t c b k

-- A token that is accepted at two instants holds the same claims at both.
pub verify_stable :
    (c : Codec) (secret token : Bytes) (s t : ℕ) (a b : Claims)
    → verify c secret token s ≡ good a
    → verify c secret token t ≡ good b
    → a ≡ b
unfolding verify
verify_stable c secret token s t a b h k =
    let (o, same) = Reads-check_parts c secret (split_token token) in
    same_claims o (s / 1_000_000_000) (t / 1_000_000_000) a b (sym (same (s / 1_000_000_000)) ∙ h)
      (sym (same (t / 1_000_000_000)) ∙ k)
