-- ===== src/Auth/Session/Admission.antt =====
-- Who is let in: signing in, the requests that pass, and signing out.
use rent_auto.Prelude.{
  ◌/◌, ◌≡◌, ◌≢◌, refl, sym, ap, ◌∙◌, String, false, Option, none, some, [], ◌∷◌, ℤ, eqb_ℤ,
  eqb_ℤ_sound, Bool-cases, inl, inr, arith,
}
use rent_auto.Auth.Jwt.{Bytes, Claims, Verdict, invalid, expired, good, verify}
use rent_auto.Auth.Jwt.Signing.{Authentic, Current, verify-Authentic}
use rent_auto.Auth.Jwt.Stable.{verify_stable}
use rent_auto.Auth.Session.{
  Env, Panel, okay, pass, bearer, cut_prefix, session_epoch, bumped, handle_logout, same_epoch,
  verified, with_token, require_auth,
}

some_injective : {A : Type 0} {a b : A} → some a ≡ some b → a ≡ b
some_injective h = cc

module _ {W : Type 0} where
  -- the token and the claims with which a request passed
  pub record Passed (e : Env W) (header : Bytes) (p : Panel W) (user : String) : Type 0 where
    pub presented : Bytes
    pub claims : Claims
    pub in_header : cut_prefix bearer header ≡ some presented
    pub accepted : verify (Env.codec e) (Env.secret e) presented (Env.now e p.world) ≡ good claims
    pub named : claims.sub ≡ user
    pub same_session : (session_epoch e p.world).1 ≡ some claims.ver

  passed_epoch :
      (p : Panel W) (claims : Claims) (r : W × Option ℤ) (user : String)
      → (same_epoch p claims r).1 ≡ pass user
      → (claims.sub ≡ user) × (r.1 ≡ some claims.ver)
  passed_epoch p claims (w, none) user h = cc
  passed_epoch p claims (w, some epoch) user h = elim (Bool-cases (eqb_ℤ claims.ver epoch)) [
    | inl q ↦ (ground (arith, h, q), ap some (sym (eqb_ℤ_sound claims.ver epoch q)))
    | inr q ↦ absurd (ground (arith, h, q))
  ]

  passed_verdict :
      (e : Env W) (p : Panel W) (v : Verdict) (user : String)
      → (verified e p v).1 ≡ pass user
      → (claims : Claims) × (v ≡ good claims)
        × (claims.sub ≡ user)
        × ((session_epoch e p.world).1 ≡ some claims.ver)
  passed_verdict e p invalid user h = cc
  passed_verdict e p expired user h = cc
  passed_verdict e p (good claims) user h =
      let (s, t) = passed_epoch p claims (session_epoch e p.world) user h in (claims, refl, s, t)

  Passed-with_token :
      (e : Env W) (header : Bytes) (p : Panel W) (o : Option Bytes) (user : String)
      → cut_prefix bearer header ≡ o
      → (with_token e p o).1 ≡ pass user
      → Passed e header p user
  Passed-with_token e header p none user q h = cc
  Passed-with_token e header p (some []) user q h = cc
  Passed-with_token e header p (some (b ∷ tok)) user q h =
      let (claims, v, s, t) = passed_verdict e p _ user h in
      record {
        presented = b ∷ tok;
        claims = claims;
        in_header = q;
        accepted = v;
        named = s;
        same_session = t;
      }

  pub require_auth-Passed :
      (e : Env W) (header : Bytes) (p : Panel W) (user : String)
      → (require_auth e header p).1 ≡ pass user
      → Passed e header p user
  unfolding require_auth
  require_auth-Passed e header p user h =
      Passed-with_token e header p (cut_prefix bearer header) user refl h

  -- No request passes unless the session store answers: without its epoch every token is refused.
  pub require_auth-closed :
      (e : Env W) (header : Bytes) (p : Panel W) (user : String)
      → (session_epoch e p.world).1 ≡ none
      → (require_auth e header p).1 ≢ pass user
  require_auth-closed e header p user h q =
      let k = require_auth-Passed e header p user q in let t = k.same_session in cc

  -- A request that passes bears a token that this server's secret codes, that is current, and that was
  -- issued in the epoch that the session store holds; it passes for the user that the token names.
  pub require_auth-Authentic :
      (e : Env W) (header : Bytes) (p : Panel W) (user : String)
      → (require_auth e header p).1 ≡ pass user
      → (presented : Bytes) × (claims : Claims) × (cut_prefix bearer header ≡ some presented)
        × Authentic (Env.codec e) (Env.secret e) presented claims
        × Current (Env.now e p.world / 1_000_000_000) claims
        × (claims.sub ≡ user)
        × ((session_epoch e p.world).1 ≡ some claims.ver)
  require_auth-Authentic e header p user h =
      let k = require_auth-Passed e header p user h in
      let (a, c) =
        verify-Authentic (Env.codec e) (Env.secret e) k.presented (Env.now e p.world) k.claims
          k.accepted in
      (k.presented, k.claims, k.in_header, a, c, k.named, k.same_session)

  -- what the session store promises: after a bump it holds an epoch that is not the one before, and
  -- writing to the audit trail leaves it there
  pub record IsEpochStore (e : Env W) : Type 0 where
    pub bump_moves :
        (w w' : W) (u v : ℤ) (text : String)
        → (Env.epoch_of e w).1 ≡ some v
        → Env.bump_epoch e w ≡ (w', some u)
        → ((Env.epoch_of e (Env.audit e w' text)).1 ≡ some u) × (u ≢ v)

  logged_out :
      (e : Env W) (p : Panel W) (o : W × Option ℤ) (v : ℤ)
      → IsEpochStore e
      → (Env.epoch_of e p.world).1 ≡ some v
      → Env.bump_epoch e p.world ≡ o
      → (bumped e p o).1 ≡ okay
      → (u : ℤ) × ((Env.epoch_of e (bumped e p o).0.world).1 ≡ some u) × (u ≢ v)
  logged_out e p (w, none) v laws before b h = cc
  logged_out e p (w, some u) v laws before b h =
      let (after, moved) = laws.bump_moves p.world w u v "auth.logout" before b in (u, after, moved)

  same_token :
      (e : Env W) (header : Bytes) (p q : Panel W) (user other : String)
      (a : Passed e header p user) (b : Passed e header q other)
      → a.claims ≡ b.claims
  same_token e header p q user other a b =
      let same : a.presented ≡ b.presented = some_injective (sym a.in_header ∙ b.in_header) in
      verify_stable (Env.codec e) (Env.secret e) b.presented (Env.now e p.world) (Env.now e q.world)
        a.claims b.claims
        (ap (λ t. verify (Env.codec e) (Env.secret e) t (Env.now e p.world)) (sym same)
          ∙ a.accepted)
        b.accepted

  plain_epoch : (e : Env W) (w : W) → Env.no_epochs e ≡ false → session_epoch e w ≡ Env.epoch_of e w
  plain_epoch e w h = simp h refl

  -- Signing out revokes every token: a header with which a request passed before passes no more, for
  -- anyone, once a sign-out has been answered with success.
  pub handle_logout-revokes :
      (e : Env W) (header : Bytes) (p : Panel W) (user other : String)
      → IsEpochStore e
      → (require_auth e header p).1 ≡ pass user
      → (handle_logout e p).1 ≡ okay
      → (require_auth e header (handle_logout e p).0).1 ≢ pass other
  unfolding handle_logout
  handle_logout-revokes e header p user other laws h out later =
      let k = require_auth-Passed e header p user h in
      let q = require_auth-Passed e header (handle_logout e p).0 other later in
      let same = same_token e header p (handle_logout e p).0 user other k q in
      elim (Bool-cases (Env.no_epochs e)) [
        | inl off ↦ let before = k.same_session in absurd (ground (arith, off, before))
        | inr on_ ↦
            let bump : handle_logout e p ≡ bumped e p (Env.bump_epoch e p.world) = simp on_ refl in
            let (u, after, moved) =
              logged_out e p (Env.bump_epoch e p.world) k.claims.ver laws
                (sym (ap (λ r. r.1) (plain_epoch e p.world on_)) ∙ k.same_session) refl
                (sym (ap (λ r. r.1) bump) ∙ out) in
            let now_there : (Env.epoch_of e (handle_logout e p).0.world).1 ≡ some q.claims.ver =
              sym (ap (λ r. r.1) (plain_epoch e (handle_logout e p).0.world on_))
              ∙ q.same_session in
            let there : (Env.epoch_of e (handle_logout e p).0.world).1 ≡ some u =
              ap (λ r. (Env.epoch_of e r.0.world).1) bump ∙ after in
            moved (some_injective (sym there ∙ now_there) ∙ ap Claims.ver (sym same))
      ]
