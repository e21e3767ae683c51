-- ===== src/Reprice/Cooling.antt =====
-- The reprice job and the cooldowns: a risk signal ends the loop of its channel.
use rent_auto.Prelude.{
  ℕ, ◌+◌, ◌≤◌, ◌<◌, ◌≡◌, refl, ap, ◌∙◌, String, text_append, false, Option, none, some, List, [],
  ◌∷◌, ◌++◌, All,
}
use rent_auto.Domain.{Channel, Error}
use rent_auto.Float.{Double}
use rent_auto.Pricing.{Input, Decision}
use rent_auto.Risk.{channel_ready, penalize, risk_cooldown, penalize_all, penalize_closes}
use rent_auto.Recon.Execute.{Result}
use rent_auto.Reprice.{Candidate, Env, Run, action_error, succeeded, priced_action, request_of}
use rent_auto.Reprice.Steps.{
  ready, stored, penalized, answered, send, reprice_one, reprice_from, run_from, run_reprice,
}

failed_call : (res : List Result) (err : Error) → succeeded res (some err) ≡ false
unfolding succeeded
failed_call [] err = refl
failed_call (r ∷ []) err = refl
failed_call (r ∷ (x ∷ res)) err = refl

module _ {W F : Type 0} where
  cooldowns-stored :
      (text : String) (r : W × Option Error) (s : Run W F)
      → (stored text r s).cooldowns ≡ s.cooldowns
  cooldowns-stored text (w, none) s = refl
  cooldowns-stored text (w, some err) s = refl

  cooldowns-answered :
      (e : Env W F) (ch : Channel) (c : Candidate F) (i : Input F) (d : Decision F) (s : Run W F)
      (w : W) (res : List Result) (err : Error)
      → (answered e ch c i d s (w, (res, some err))).cooldowns
        ≡ penalize s.cooldowns ch err (e.now w)
  cooldowns-answered e ch c i d s w res err =
      let s1 = penalized e ch (some err) (record s { world = w }) in
      let pa = priced_action c false i d false (action_error res (some err)) in
      simp (failed_call res err) (
        cooldowns-stored
          (text_append "price_action reprice "
            (text_append c.hash_name (text_append "/" (Env.itoa e c.listing_id))))
          (Env.insert_action e s1.world pa) (record s1 { actions = s1.actions ++ (pa ∷ []) }))

module _ {W F : Type 0} ⦃double : Double F⦄ where
  closed-reprice_from :
      (e : Env W F) (ch : Channel) (now : ℕ) (cands : List (Candidate F)) (s : Run W F)
      → ready e ch s ≡ false
      → (reprice_from e ch now cands s).0 ≡ s
  unfolding reprice_from reprice_one
  closed-reprice_from e ch now [] s h = refl
  closed-reprice_from e ch now (c ∷ cands) s h = simp h refl

  -- When a call of RepriceLease fails with a risk signal, and the clock has not passed the end of
  -- that signal's cooldown once the failure is recorded, nothing more happens on the channel: the rest of
  -- the candidates is left as it is.
  pub send-ends_channel :
      (e : Env W F) (ch : Channel) (now : ℕ) (c : Candidate F) (i : Input F) (d : Decision F)
      (s : Run W F) (rest : List (Candidate F)) (w : W) (res : List Result) (err : Error)
      → e.reprice_lease s.world ch (request_of c d ∷ []) ≡ (w, (res, some err))
      → 0 < risk_cooldown err
      → e.now (send e ch c i d s).world ≤ e.now w + risk_cooldown err
      → (reprice_from e ch now rest (send e ch c i d s)).0 ≡ send e ch c i d s
  unfolding penalize penalize_all
  send-ends_channel e ch now c i d s rest w res err call risk soon =
      closed-reprice_from e ch now rest (send e ch c i d s) (
        ap (λ m. channel_ready m ch (e.now (send e ch c i d s).world)) penalty
        ∙ penalize_closes s.cooldowns ch err (e.now w) _ [] risk soon)
    where
      penalty : (send e ch c i d s).cooldowns ≡ penalize s.cooldowns ch err (e.now w)
      penalty =
          ap
            (λ r.
              (answered e ch c i d (record s { calls = s.calls ++ (request_of c d ∷ []) })
                r).cooldowns)
            call
          ∙ cooldowns-answered e ch c i d (record s { calls = s.calls ++ (request_of c d ∷ []) }) w
              res err

  -- A cycle in which every channel is in cooldown at its start does nothing and reports nothing.
  pub run_reprice-cooling :
      (e : Env W F) (adapters : List Channel) (s : Run W F)
      → All (λ ch. channel_ready s.cooldowns ch (e.now s.world) ≡ false) adapters
      → run_reprice e adapters s ≡ (s, none)
  unfolding run_reprice run_from
  run_reprice-cooling e adapters s h = simp (skipped adapters h) refl
    where
      skipped :
          (xs : List Channel)
          → All (λ ch. channel_ready s.cooldowns ch (e.now s.world) ≡ false) xs
          → run_from e (e.now s.world) xs s [] ≡ (s, [])
      skipped [] h = refl
      skipped (ch ∷ xs) (k, ks) = simp k (skipped xs ks)
