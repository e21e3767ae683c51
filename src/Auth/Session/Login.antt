-- ===== src/Auth/Session/Login.antt =====
-- Signing in: what it takes to get a token, and what the token is good for.
use rent_auto.Prelude.{
  subst, ℕ, ◌/◌, ◌≤◌, ◌≡◌, ◌≢◌, refl, sym, ap, ◌∙◌, String, Bool, true, false, ◌==◌, Option, none,
  some, [], ◌∷◌, ◌++◌, ℤ, pos, eqb_ℤ_refl, ltb, Bool-cases, inl, inr, arith, if◌then◌else◌,
}
use rent_auto.Auth.Throttle.{Limiter, allow, reset}
use rent_auto.Auth.Jwt.{Bytes, Claims, Codec, expired, good, sign, verify, issued, split_token}
use rent_auto.Auth.Jwt.Signing.{IsCodec, verify-sign}
use rent_auto.Auth.Session.{
  Env, Panel, refuse, token, pass, login_key, bearer, session_epoch, issue, matches, credentials,
  with_hash, with_epoch, admitted, handle_login, same_epoch, verified, with_token, require_auth,
}

not_empty :
    (c : Codec) (secret : Bytes) (now : ℕ) (b : Bool) (claims : Claims)
    → verify c secret [] now ≢ (if b then good claims else expired)
unfolding verify split_token
not_empty c secret now true claims h = cc
not_empty c secret now false claims h = cc

module _ {W : Type 0} where
  -- what stands behind a token that the login handed out
  pub record SignedIn (e : Env W) (user password : String) (p : Panel W) (tok : Bytes) (exp : ℕ)
      : Type 0 where
    pub epoch : ℤ
    pub hash : String
    pub at : W
    pub epoch_read : (session_epoch e p.world).1 ≡ some epoch
    pub hash_read : Env.password_hash e (session_epoch e p.world).0 ≡ (at, some hash)
    pub is_admin : (user == Env.admin_user e) ≡ true
    pub right : Env.check_password e hash password ≡ true
    pub signed_by :
        sign (Env.codec e) (Env.secret e) user epoch (Env.ttl e) (Env.now e at) ≡ some (tok, exp)

  issued_token :
      (e : Env W) (p : Panel W) (o : Option (Bytes × ℕ)) (tok : Bytes) (exp : ℕ)
      → (issue e p o).1 ≡ token tok exp
      → o ≡ some (tok, exp)
  issued_token e p none tok exp h = cc
  issued_token e p (some (tok', exp')) tok exp h = cc

  right_credentials :
      (e : Env W) (user key ip password hash : String) (p : Panel W) (epoch : ℤ) (tok : Bytes)
      (exp : ℕ)
      → (credentials e user key ip p epoch (matches e user password hash)).1 ≡ token tok exp
      → ((user == Env.admin_user e) ≡ true)
        × (Env.check_password e hash password ≡ true)
        × (sign (Env.codec e) (Env.secret e) user epoch (Env.ttl e) (Env.now e p.world)
            ≡ some (tok, exp))
  right_credentials e user key ip password hash p epoch tok exp h =
      elim (Bool-cases (user == Env.admin_user e)) [
        | inr other ↦ absurd (ground (arith, h, other))
        | inl admin ↦ elim (Bool-cases (Env.check_password e hash password)) [
          | inr wrong ↦ absurd (ground (arith, h, admin, wrong))
          | inl right ↦ (
            admin,
            right,
            issued_token e _ _ tok exp (sym (ap (λ r. r.1) (settled admin right)) ∙ h),
          )
        ]
      ]
    where
      settled :
          (user == Env.admin_user e) ≡ true
          → Env.check_password e hash password ≡ true
          → credentials e user key ip p epoch (matches e user password hash)
            ≡ issue e
                (record p { logins = reset p.logins key ip })
                (sign (Env.codec e) (Env.secret e) user epoch (Env.ttl e) (Env.now e p.world))
      settled a r = simp (a, r) refl

  right_hash :
      (e : Env W) (user password key ip : String) (p : Panel W) (epoch : ℤ) (r : W × Option String)
      (tok : Bytes) (exp : ℕ)
      → (with_hash e user password key ip p epoch r).1 ≡ token tok exp
      → (hash : String) × (r.1 ≡ some hash)
        × ((user == Env.admin_user e) ≡ true)
        × (Env.check_password e hash password ≡ true)
        × (sign (Env.codec e) (Env.secret e) user epoch (Env.ttl e) (Env.now e r.0)
            ≡ some (tok, exp))
  right_hash e user password key ip p epoch (w, none) tok exp h = cc
  right_hash e user password key ip p epoch (w, some hash) tok exp h =
      let (admin, right, by) =
        right_credentials e user key ip password hash (record p { world = w }) epoch tok exp h in
      (hash, refl, admin, right, by)

  SignedIn-with_epoch :
      (e : Env W) (user password key ip : String) (p : Panel W) (r : W × Option ℤ) (tok : Bytes)
      (exp : ℕ)
      → session_epoch e p.world ≡ r
      → (with_epoch e user password key ip p r).1 ≡ token tok exp
      → SignedIn e user password p tok exp
  SignedIn-with_epoch e user password key ip p (w, none) tok exp q h = cc
  SignedIn-with_epoch e user password key ip p (w, some epoch) tok exp q h =
      let (hash, read, admin, right, by) =
        right_hash e user password key ip (record p { world = w }) epoch (Env.password_hash e w) tok
          exp h in
      record {
        epoch = epoch;
        hash = hash;
        at = (Env.password_hash e w).0;
        epoch_read = ap (λ x. x.1) q;
        hash_read =
            ap (λ x. Env.password_hash e x.0) q ∙ ap (λ o. ((Env.password_hash e w).0, o)) read;
        is_admin = admin;
        right = right;
        signed_by = by;
      }

  SignedIn-admitted :
      (e : Env W) (user password key ip : String) (p : Panel W) (r : Limiter × Bool) (tok : Bytes)
      (exp : ℕ)
      → (admitted e user password key ip p r).1 ≡ token tok exp
      → (r.1 ≡ true) × SignedIn e user password p tok exp
  SignedIn-admitted e user password key ip p (logins, false) tok exp h = cc
  SignedIn-admitted e user password key ip p (logins, true) tok exp h =
      let k =
        SignedIn-with_epoch e user password key ip (record p { logins = logins })
          (session_epoch e p.world) tok exp refl h in
      (
        refl,
        record {
          epoch = k.epoch;
          hash = k.hash;
          at = k.at;
          epoch_read = k.epoch_read;
          hash_read = k.hash_read;
          is_admin = k.is_admin;
          right = k.right;
          signed_by = k.signed_by;
        },
      )

  -- A login that hands out a token was not locked out, named the administrator, and gave the password
  -- of the hash that was stored; and the token was signed for that user in the epoch that the session
  -- store held when the login began.
  pub handle_login-SignedIn :
      (e : Env W) (user password ip : String) (p : Panel W) (tok : Bytes) (exp : ℕ)
      → (handle_login e (some (user, password)) ip p).1 ≡ token tok exp
      → ((allow p.logins (login_key ip user) ip (Env.now e p.world)).1 ≡ true)
        × SignedIn e user password p tok exp
  unfolding handle_login
  handle_login-SignedIn e user password ip p tok exp h =
      SignedIn-admitted e user password (login_key ip user) ip p
        (allow p.logins (login_key ip user) ip (Env.now e p.world)) tok exp h

  verified_as :
      (e : Env W) (p : Panel W) (live : Bool) (claims : Claims)
      → (session_epoch e p.world).1 ≡ some claims.ver
      → (verified e p (if live then good claims else expired)).1
        ≡ (if live then pass claims.sub else refuse 401 "invalid token")
  verified_as e p false claims h = refl
  verified_as e p true claims h = same (session_epoch e p.world) h
    where
      same :
          (r : W × Option ℤ) → r.1 ≡ some claims.ver → (same_epoch p claims r).1 ≡ pass claims.sub
      same (w, none) q = cc
      same (w, some epoch) q =
          let e : claims.ver ≡ epoch = cc in simp (sym e, eqb_ℤ_refl claims.ver) refl

  with_token_as :
      (e : Env W) (p : Panel W) (tok : Bytes) (live : Bool) (claims : Claims)
      → verify (Env.codec e) (Env.secret e) tok (Env.now e p.world)
        ≡ (if live then good claims else expired)
      → (with_token e p (some tok)).1 ≡ (verified e p (if live then good claims else expired)).1
  with_token_as e p [] live claims h =
      absurd (not_empty (Env.codec e) (Env.secret e) (Env.now e p.world) live claims h)
  with_token_as e p (b ∷ tok) live claims h = ap (λ v. (verified e p v).1) h

  SignedIn-lets_in :
      (e : Env W) (user password : String) (v : ℕ) (p q : Panel W) (tok : Bytes) (exp : ℕ)
      (k : SignedIn e user password p tok exp)
      → IsCodec (Env.codec e)
      → (user == "") ≡ false
      → k.epoch ≡ pos v
      → Env.now e k.at ≤ Env.now e q.world
      → (session_epoch e q.world).1 ≡ some (pos v)
      → (require_auth e (bearer ++ tok) q).1 ≡ (
          if ltb (Env.now e q.world / 1_000_000_000) (exp / 1_000_000_000)
          then pass user
          else refuse 401 "invalid token")
  unfolding require_auth
  SignedIn-lets_in e user password v p q tok exp k laws named epoch later same =
      let claims = issued user (pos v) (Env.now e k.at) exp in
      let live = ltb (Env.now e q.world / 1_000_000_000) (exp / 1_000_000_000) in
      let by : sign (Env.codec e) (Env.secret e) user (pos v) (Env.ttl e) (Env.now e k.at)
          ≡ some (tok, exp) =
        ap (λ x. sign (Env.codec e) (Env.secret e) user x (Env.ttl e) (Env.now e k.at)) (sym epoch)
        ∙ k.signed_by in
      with_token_as e q tok live claims (
        verify-sign (Env.codec e) (Env.secret e) tok user v (Env.ttl e) (Env.now e k.at) exp
          (Env.now e q.world) laws by named later)
      ∙ verified_as e q live claims same

  -- The token that a login hands out lets its user in, from the instant at which the login read the
  -- password until the second in which the token expires, as long as the session store holds the
  -- epoch that it held at the login.
  pub require_auth-handle_login :
      (e : Env W) (user password ip : String) (v : ℕ) (p q : Panel W) (tok : Bytes) (exp : ℕ)
      → IsCodec (Env.codec e)
      → (handle_login e (some (user, password)) ip p).1 ≡ token tok exp
      → (user == "") ≡ false
      → (session_epoch e p.world).1 ≡ some (pos v)
      → Env.now e (Env.password_hash e (session_epoch e p.world).0).0 ≤ Env.now e q.world
      → (session_epoch e q.world).1 ≡ some (pos v)
      → (require_auth e (bearer ++ tok) q).1 ≡ (
          if ltb (Env.now e q.world / 1_000_000_000) (exp / 1_000_000_000)
          then pass user
          else refuse 401 "invalid token")
  require_auth-handle_login e user password ip v p q tok exp laws login named epoch later same =
      let k = (handle_login-SignedIn e user password ip p tok exp login).1 in
      let found : some k.epoch ≡ some (pos v) = sym k.epoch_read ∙ epoch in
      let at_then : (Env.password_hash e (session_epoch e p.world).0).0 ≡ k.at =
        ap (λ r. r.0) k.hash_read in
      SignedIn-lets_in e user password v p q tok exp k laws named
        (let x : k.epoch ≡ pos v = cc in x)
        (subst (λ w. Env.now e w ≤ Env.now e q.world) at_then later) same
