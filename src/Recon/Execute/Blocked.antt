-- ===== src/Recon/Execute/Blocked.antt =====
-- A channel that risk control has blocked stays blocked for the rest of the plan.
use rent_auto.Prelude.{
  Bool, ◌&&◌, ◌==◌, ◌≡◌, refl, true, false, not, ◌||◌, Option, none, some, List, [], ◌∷◌, arith,
  Bool-cases, inl, inr, eq_refl, ap, ◌∙◌,
}
use rent_auto.Domain.{Channel, Error}
use rent_auto.Recon.{Action}
use rent_auto.Recon.Execute.{
  Executor, Adapter, Run, with_adapter, execute_one, execute_from, run_kind, run_delist,
  is_risk_sentinel, Result, audited, fail_if, succeed, written, block_on_risk, is_partial, accepted,
  err_string, finish_publish, noted, write_back_publish, write_back_delist, run_publish, delisted,
  act_on, request,
}
use rent_auto.Pricing.{Decision}

module _ {W F : Type 0} where
  blocked-with_adapter :
      (e : Executor W F) (o : Option (Adapter W F)) (a : Action F) (s : Run W F) (ch : Channel)
      → s.blocked ch ≡ true
      → a.channel ≡ ch
      → ((with_adapter e o a s).0.world ≡ s.world)
        × (((with_adapter e o a s).1 ≡ false) × ((with_adapter e o a s).0.blocked ≡ s.blocked))
  blocked-with_adapter e none a s ch h k = (refl, (refl, refl))
  blocked-with_adapter e (some ad) a s ch h k =
      let closed = ap s.blocked k ∙ h in
      elim (Bool-cases e.dry_run) [
        | inl dry ↦ simp dry (refl, (refl, refl))
        | inr dry ↦ simp (dry, closed) (refl, (refl, refl))
      ]

  blocked-fail_if : (s : Run W F) (o : Option Error) → (fail_if s o).blocked ≡ s.blocked
  blocked-fail_if s none = refl
  blocked-fail_if s (some err) = refl

  blocked-written : (s : Run W F) (r : W × Option Error) → (written s r).blocked ≡ s.blocked
  blocked-written s (w, o) = blocked-fail_if (record s { world = w }) o

  blocked-block_on_risk :
      (e : Executor W F) (on : Channel) (ig : Bool) (o : Option Error) (s : Run W F) (ch : Channel)
      → s.blocked ch ≡ true
      → (block_on_risk e on ig o s).blocked ch ≡ true
  blocked-block_on_risk e on ig none s ch h = h
  blocked-block_on_risk e on ig (some err) s ch h =
      elim (Bool-cases (not ig && is_risk_sentinel err)) [
        | inl r ↦ simp r (ground (arith, h))
        | inr r ↦ simp r h
      ]

  blocked-finish_publish :
      (e : Executor W F) (a : Action F) (res : List Result) (o : Option Error) (s : Run W F)
      (x : Option Result) (ch : Channel)
      → s.blocked ch ≡ true
      → (finish_publish e a res o s x).blocked ch ≡ true
  blocked-finish_publish e a res o s none ch h =
      blocked-block_on_risk e a.channel (is_partial o) o (audited s a false (err_string o res)) ch h
  blocked-finish_publish e a res o s (some r) ch h =
      let s' = succeed (noted e a res o true s) in
      ap (λ f. f ch) (blocked-written s' (write_back_publish e.store a r s'.world))
      ∙ blocked-block_on_risk e a.channel (is_partial o) o (audited s a true (err_string o res)) ch
          h

  blocked-run_publish :
      (e : Executor W F) (ad : Adapter W F) (a : Action F) (d : Option (Decision F)) (s : Run W F)
      (ch : Channel)
      → s.blocked ch ≡ true
      → (run_publish e ad a d s).blocked ch ≡ true
  unfolding run_publish
  blocked-run_publish e ad a none s ch h = h
  blocked-run_publish e ad a (some d) s ch h = elim (Bool-cases d.ok) [
    | inl k ↦
        let (w, (res, o)) = Adapter.publish_lease ad s.world (request a d) in
        rw k (blocked-finish_publish e a res o (record s { world = w }) (accepted res o) ch h)
    | inr k ↦ rw k h
  ]

  blocked-delisted :
      (e : Executor W F) (a : Action F) (s : Run W F) (r : W × Option Error) (ch : Channel)
      → s.blocked ch ≡ true
      → (delisted e a s r).blocked ch ≡ true
  blocked-delisted e a s (w, none) ch h =
      ap (λ f. f ch)
        (blocked-written (succeed (audited (record s { world = w }) a true ""))
          (write_back_delist e.store a w))
      ∙ h
  blocked-delisted e a s (w, some err) ch h =
      blocked-block_on_risk e a.channel false (some err)
        (audited (record s { world = w }) a false err.text) ch h

  blocked-run_kind :
      (e : Executor W F) (ad : Adapter W F) (a : Action F) (s : Run W F) (ch : Channel)
      → s.blocked ch ≡ true
      → (run_kind e ad a s).blocked ch ≡ true
  unfolding run_kind run_delist
  blocked-run_kind e ad a s ch h = elim (Bool-cases (a.kind == "publish")) [
    | inl p ↦ rw p (blocked-run_publish e ad a a.decision s ch h)
    | inr p ↦ elim (Bool-cases (a.kind == "delist")) [
      | inl k ↦ rw (p, k) (blocked-delisted e a s (Adapter.delist ad s.world a.goods_ref) ch h)
      | inr k ↦ rw (p, k) h
    ]
  ]

  blocked-act_on :
      (e : Executor W F) (ad : Adapter W F) (a : Action F) (o : Option Error) (s : Run W F)
      (ch : Channel)
      → s.blocked ch ≡ true
      → (act_on e ad a o s).0.blocked ch ≡ true
  blocked-act_on e ad a none s ch h = blocked-run_kind e ad a s ch h
  blocked-act_on e ad a (some err) s ch h = h

  still_blocked :
      (e : Executor W F) (o : Option (Adapter W F)) (a : Action F) (s : Run W F) (ch : Channel)
      → s.blocked ch ≡ true
      → (with_adapter e o a s).0.blocked ch ≡ true
  still_blocked e none a s ch h = h
  still_blocked e (some ad) a s ch h = elim (Bool-cases e.dry_run) [
    | inl dry ↦ simp dry h
    | inr dry ↦ elim (Bool-cases (s.blocked a.channel || not (e.channel_ready s.world a.channel))) [
      | inl k ↦ simp (dry, k) h
      | inr k ↦ simp (dry, k) (blocked-act_on e ad a (e.context_err s.world) s ch h)
    ]
  ]

  -- What is blocked stays blocked for the rest of the plan.
  blocked-execute_from :
      (e : Executor W F) (plan : List (Action F)) (s : Run W F) (ch : Channel)
      → s.blocked ch ≡ true
      → (execute_from e plan s).0.blocked ch ≡ true
  unfolding execute_from execute_one
  blocked-execute_from e [] s ch h = h
  blocked-execute_from e (a ∷ plan) s ch h =
      let r = with_adapter e (e.adapters a.channel) a s in
      let h' = still_blocked e (e.adapters a.channel) a s ch h in
      elim (Bool-cases r.1) [
        | inl stop ↦ simp stop h'
        | inr on ↦ simp on (blocked-execute_from e plan r.0 ch h')
      ]

  -- A delisting that reaches its platform and fails with a risk signal penalizes its channel and is the
  -- last call on it in the plan: whatever actions come after it, on this channel and on others, the world
  -- is left as it is by every later action on this channel.
  pub delist_risk-blocks :
      (e : Executor W F) (ad : Adapter W F) (a : Action F) (s : Run W F) (w : W) (err : Error)
      (between : List (Action F)) (b : Action F)
      → e.adapters a.channel ≡ some ad
      → e.dry_run ≡ false
      → (s.blocked a.channel || not (e.channel_ready s.world a.channel)) ≡ false
      → e.context_err s.world ≡ none
      → a.kind ≡ "delist"
      → ad.delist s.world a.goods_ref ≡ (w, some err)
      → is_risk_sentinel err ≡ true
      → b.channel ≡ a.channel
      → let after = execute_from e (a ∷ between) s in
        ((execute_one e a s).0.world ≡ e.penalize w a.channel err)
        × ((execute_one e b after.0).0.world ≡ after.0.world)
  unfolding execute_from execute_one run_kind run_delist
  delist_risk-blocks e ad a s w err between b ha hd hb hc hk hl hr hch =
      let r = with_adapter e (e.adapters a.channel) a s in
      let closed : r.0.blocked a.channel ≡ true =
        simp (ha, hd, hb, hc, hk, hl, hr) (ground (arith, eq_refl a.channel)) in
      let on : r.1 ≡ false = simp (ha, hd, hb, hc) refl in
      let after = execute_from e between r.0 in
      (
        simp (ha, hd, hb, hc, hk, hl, hr) refl,
        simp on
            (blocked-with_adapter e (e.adapters b.channel) b after.0 a.channel
              (blocked-execute_from e between r.0 a.channel closed) hch).0,
      )
