-- ===== src/Auth/Session/Password.antt =====
-- Changing the password.
use rent_auto.Prelude.{
  ◌≤◌, ◌≡◌, refl, sym, ap, ◌∙◌, String, Bool, true, false, ◌||◌, Option, none, some, ltb,
  Bool-cases, inl, inr, arith,
}
use rent_auto.Auth.Throttle.{Limiter, allow}
use rent_auto.Auth.Session.{
  Env, Panel, okay, Change, changed, raced, broken, password_key, change_result, rehash,
  with_old_hash, change_admitted, handle_password_change,
}

module _ {W : Type 0} where
  -- what stands behind a password change that was answered with success
  pub record Replaced (e : Env W) (current_pw new_pw : String) (p : Panel W) : Type 0 where
    pub old : String
    pub fresh : String
    pub at : W
    pub after : W
    pub old_read : Env.password_hash e p.world ≡ (at, some old)
    pub right : Env.check_password e old current_pw ≡ true
    pub hashed : Env.hash_password e new_pw ≡ some fresh
    pub stored : Env.change_password e at old fresh ≡ (after, changed)

  changed_only :
      (e : Env W) (key ip : String) (p : Panel W) (r : W × Change)
      → (change_result e key ip p r).1 ≡ okay
      → r.1 ≡ changed
  changed_only e key ip p (w, raced) h = cc
  changed_only e key ip p (w, broken) h = cc
  changed_only e key ip p (w, changed) h = refl

  fresh_hash :
      (e : Env W) (key ip old : String) (p : Panel W) (o : Option String)
      → (rehash e key ip p old o).1 ≡ okay
      → (fresh : String) × (o ≡ some fresh)
        × ((Env.change_password e p.world old fresh).1 ≡ changed)
  fresh_hash e key ip old p none h = cc
  fresh_hash e key ip old p (some hash) h =
      (hash, refl, changed_only e key ip p (Env.change_password e p.world old hash) h)

  Replaced-with_old_hash :
      (e : Env W) (current_pw new_pw key ip : String) (p : Panel W) (r : W × Option String)
      → Env.password_hash e p.world ≡ r
      → (with_old_hash e current_pw new_pw key ip p r).1 ≡ okay
      → Replaced e current_pw new_pw p
  Replaced-with_old_hash e current_pw new_pw key ip p (w, none) q h = cc
  Replaced-with_old_hash e current_pw new_pw key ip p (w, some old) q h =
      elim (Bool-cases (Env.check_password e old current_pw)) [
        | inr wrong ↦ absurd (ground (arith, h, wrong))
        | inl right ↦
            let settled : with_old_hash e current_pw new_pw key ip p (w, some old)
                ≡ rehash e key ip (record p { world = w }) old (Env.hash_password e new_pw) =
              simp right refl in
            let (fresh, hashed, done) =
              fresh_hash e key ip old (record p { world = w }) (Env.hash_password e new_pw)
                (sym (ap (λ x. x.1) settled) ∙ h) in
            record {
              old = old;
              fresh = fresh;
              at = w;
              after = (Env.change_password e w old fresh).0;
              old_read = q;
              right = right;
              hashed = hashed;
              stored = ap (λ c. ((Env.change_password e w old fresh).0, c)) done;
            }
      ]

  Replaced-change_admitted :
      (e : Env W) (current_pw new_pw key ip : String) (p : Panel W) (r : Limiter × Bool)
      → (change_admitted e current_pw new_pw key ip p r).1 ≡ okay
      → (r.1 ≡ true) × Replaced e current_pw new_pw p
  Replaced-change_admitted e current_pw new_pw key ip p (logins, false) h = cc
  Replaced-change_admitted e current_pw new_pw key ip p (logins, true) h =
      let k =
        Replaced-with_old_hash e current_pw new_pw key ip (record p { logins = logins })
          (Env.password_hash e p.world) refl h in
      (
        refl,
        record {
          old = k.old;
          fresh = k.fresh;
          at = k.at;
          after = k.after;
          old_read = k.old_read;
          right = k.right;
          hashed = k.hashed;
          stored = k.stored;
        },
      )

  -- A password is changed only if the deployment lets it, the new one has from 12 to 72 bytes, the
  -- account is not locked out, and the current password fits the stored hash; what is stored then is a
  -- hash of the new password, in place of exactly the hash that was checked.
  pub handle_password_change-Replaced :
      (e : Env W) (current_pw new_pw user ip : String) (p : Panel W)
      → (handle_password_change e (some (current_pw, new_pw)) user ip p).1 ≡ okay
      → (Env.no_change e ≡ false)
        × (12 ≤ Env.byte_length e new_pw)
        × (Env.byte_length e new_pw ≤ 72)
        × ((allow p.logins (password_key ip user) ip (Env.now e p.world)).1 ≡ true)
        × Replaced e current_pw new_pw p
  unfolding handle_password_change
  handle_password_change-Replaced e current_pw new_pw user ip p h =
      elim (Bool-cases (Env.no_change e)) [
        | inl off ↦ absurd (ground (arith, h, off))
        | inr on_ ↦
            elim (Bool-cases
              (ltb (Env.byte_length e new_pw) 12 || ltb 72 (Env.byte_length e new_pw))) [
                | inl bad ↦ absurd (ground (arith, h, on_, bad))
                | inr fine ↦
                    let key = password_key ip user in
                    let settled : handle_password_change e (some (current_pw, new_pw)) user ip p
                        ≡ change_admitted e current_pw new_pw key ip p
                            (allow p.logins key ip (Env.now e p.world)) =
                      simp (on_, fine) refl in
                    let (admitted, k) =
                      Replaced-change_admitted e current_pw new_pw key ip p
                        (allow p.logins key ip (Env.now e p.world))
                        (sym (ap (λ x. x.1) settled) ∙ h) in
                    (on_, ground (arith, fine), ground (arith, fine), admitted, k)
              ]
      ]
