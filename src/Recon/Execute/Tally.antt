-- ===== src/Recon/Execute/Tally.antt =====
-- The books of the executor: what it counts, reports and audits agree.
use rent_auto.Prelude.{
  ℕ, ◌+◌, ◌≡◌, refl, ap, ◌∙◌, sym, String, Bool, true, false, not, ◌&&◌, ◌||◌, ◌==◌, Option, none,
  some, List, [], ◌∷◌, ◌++◌, length, length-append, Bool-cases, inl, inr, arith, append_assoc,
  append-nil, text_append,
}
use rent_auto.Pricing.{Decision}
use rent_auto.Domain.{Channel, Error}
use rent_auto.Recon.{Action}
use rent_auto.Recon.Execute.{
  Executor, Adapter, Result, Audit, Run, audited, fail, fail_if, succeed, block_on_risk, written,
  accepted, noted, finish_publish, write_back_publish, write_back_delist, run_publish, run_delist,
  run_kind, act_on, with_adapter, execute_one, execute_from, execute, start_run, delisted,
  is_partial, err_string, publish_error, request, is_risk_sentinel, wrap,
}

-- the actions of the audit entries, in order, and the number of entries with `success`
abbrev pub actions : {F : Type 0} → List (Audit F) → List (Action F)
actions [] = []
actions (x ∷ xs) = x.action ∷ actions xs

abbrev pub bit : Bool → ℕ
bit true = 1
bit false = 0

abbrev pub successes : {F : Type 0} → List (Audit F) → ℕ
successes [] = 0
successes (x ∷ xs) = bit x.success + successes xs

actions-append :
    {F : Type 0} (xs ys : List (Audit F)) → actions (xs ++ ys) ≡ actions xs ++ actions ys
actions-append [] ys = refl
actions-append (x ∷ xs) ys = ap (λ zs. x.action ∷ zs) (actions-append xs ys)

successes-append :
    {F : Type 0} (xs ys : List (Audit F)) → successes (xs ++ ys) ≡ successes xs + successes ys
successes-append [] ys = omega arith
successes-append (x ∷ xs) ys = let ih = successes-append xs ys in omega arith

module _ {W F : Type 0} where
  -- The audited actions are `acted`; a success that is audited and not yet counted is `owed`.
  pub record Tally (owed : Bool) (s : Run W F) (acted : List (Action F)) : Type 0 where
    pub acted_all : actions s.audits ≡ acted
    pub applied_all : s.applied + bit owed ≡ successes s.audits
    pub failed_all : s.failed ≡ length s.errs

  Tally-audited :
      (s : Run W F) (acted : List (Action F)) (a : Action F) (ok : Bool) (t : String)
      → Tally false s acted
      → Tally ok (audited s a ok t) (acted ++ (a ∷ []))
  Tally-audited s acted a ok t b = record {
    acted_all = actions-append s.audits _ ∙ ap (λ xs. xs ++ (a ∷ [])) b.acted_all;
    applied_all = omega (
      arith,
      b.applied_all,
      successes-append s.audits (record { action = a; success = ok; err = t } ∷ []),
    );
    failed_all = b.failed_all;
  }

  Tally-succeed :
      (s : Run W F) (acted : List (Action F)) → Tally true s acted → Tally false (succeed s) acted
  Tally-succeed s acted b = record {
    acted_all = b.acted_all;
    applied_all = omega (arith, b.applied_all);
    failed_all = b.failed_all;
  }

  Tally-fail :
      (s : Run W F) (acted : List (Action F)) (err : Error)
      → Tally false s acted
      → Tally false (fail s err) acted
  Tally-fail s acted err b = record {
    acted_all = b.acted_all;
    applied_all = b.applied_all;
    failed_all = omega (arith, b.failed_all, length-append s.errs (err ∷ []));
  }

  Tally-fail_if :
      (s : Run W F) (acted : List (Action F)) (o : Option Error)
      → Tally false s acted
      → Tally false (fail_if s o) acted
  Tally-fail_if s acted none b = b
  Tally-fail_if s acted (some err) b = Tally-fail s acted err b

  Tally-written :
      (s : Run W F) (acted : List (Action F)) (r : W × Option Error)
      → Tally false s acted
      → Tally false (written s r) acted
  Tally-written s acted (w, o) b =
      Tally-fail_if (record s { world = w }) acted o
        (record { acted_all = b.acted_all; applied_all = b.applied_all; failed_all = b.failed_all })

  Tally-at :
      (owed : Bool) (s : Run W F) (acted : List (Action F)) (w : W) (bl : Channel → Bool)
      → Tally owed s acted
      → Tally owed (record s { world = w; blocked = bl }) acted
  Tally-at owed s acted w bl b = record {
    acted_all = b.acted_all;
    applied_all = b.applied_all;
    failed_all = b.failed_all;
  }

  Tally-block_on_risk :
      (owed : Bool) (e : Executor W F) (ch : Channel) (ig : Bool) (o : Option Error) (s : Run W F)
      (acted : List (Action F))
      → Tally owed s acted
      → Tally owed (block_on_risk e ch ig o s) acted
  Tally-block_on_risk owed e ch ig none s acted b = b
  Tally-block_on_risk owed e ch ig (some err) s acted b =
      elim (Bool-cases (not ig && is_risk_sentinel err)) [
        | inl h ↦ rw h (Tally-at owed s acted _ _ b)
        | inr h ↦ rw h b
      ]

  Tally-noted :
      (e : Executor W F) (a : Action F) (res : List Result) (o : Option Error) (ok : Bool)
      (s : Run W F) (acted : List (Action F))
      → Tally false s acted
      → Tally ok (noted e a res o ok s) (acted ++ (a ∷ []))
  Tally-noted e a res o ok s acted b =
      Tally-block_on_risk ok e a.channel (is_partial o) o (audited s a ok (err_string o res))
        (acted ++ (a ∷ [])) (Tally-audited s acted a ok (err_string o res) b)

  Tally-finish_publish :
      (e : Executor W F) (a : Action F) (res : List Result) (o : Option Error) (s : Run W F)
      (x : Option Result) (acted : List (Action F))
      → Tally false s acted
      → Tally false (finish_publish e a res o s x) (acted ++ (a ∷ []))
  Tally-finish_publish e a res o s none acted b =
      Tally-fail (noted e a res o false s) _ (publish_error a o res)
        (Tally-noted e a res o false s acted b)
  Tally-finish_publish e a res o s (some r) acted b =
      let s' = succeed (noted e a res o true s) in
      Tally-written s' (acted ++ (a ∷ [])) (write_back_publish e.store a r s'.world)
        (Tally-succeed (noted e a res o true s) _ (Tally-noted e a res o true s acted b))

  Tally-run_publish :
      (e : Executor W F) (ad : Adapter W F) (a : Action F) (d : Option (Decision F)) (s : Run W F)
      (acted : List (Action F))
      → Tally false s acted
      → Tally false (run_publish e ad a d s) (acted ++ (a ∷ []))
  unfolding run_publish
  Tally-run_publish e ad a none s acted b = Tally-fail _ _ _ (Tally-audited s acted a false _ b)
  Tally-run_publish e ad a (some d) s acted b = elim (Bool-cases d.ok) [
    | inl h ↦
        let (w, (res, o)) = Adapter.publish_lease ad s.world (request a d) in
        rw h (
          Tally-finish_publish e a res o (record s { world = w }) (accepted res o) acted
            (Tally-at false s acted w s.blocked b))
    | inr h ↦ rw h (Tally-fail _ _ _ (Tally-audited s acted a false _ b))
  ]

  Tally-delisted :
      (e : Executor W F) (a : Action F) (s : Run W F) (r : W × Option Error)
      (acted : List (Action F))
      → Tally false s acted
      → Tally false (delisted e a s r) (acted ++ (a ∷ []))
  Tally-delisted e a s (w, none) acted b =
      let s' = audited (record s { world = w }) a true "" in
      Tally-written (succeed s') (acted ++ (a ∷ [])) (write_back_delist e.store a w) (
        Tally-succeed s' _ (
          Tally-audited (record s { world = w }) acted a true ""
            (Tally-at false s acted w s.blocked b)))
  Tally-delisted e a s (w, some err) acted b =
      let s' = audited (record s { world = w }) a false err.text in
      Tally-fail (block_on_risk e a.channel false (some err) s') _
        (wrap (text_append "delist " a.goods_ref) err)
        (Tally-block_on_risk false e a.channel false (some err) s' (acted ++ (a ∷ [])) (
          Tally-audited (record s { world = w }) acted a false err.text
            (Tally-at false s acted w s.blocked b)))

  Tally-run_kind :
      (e : Executor W F) (ad : Adapter W F) (a : Action F) (s : Run W F) (acted : List (Action F))
      → Tally false s acted
      → Tally false (run_kind e ad a s) (acted ++ (a ∷ []))
  unfolding run_kind run_delist
  Tally-run_kind e ad a s acted b = elim (Bool-cases (a.kind == "publish")) [
    | inl h ↦ rw h (Tally-run_publish e ad a a.decision s acted b)
    | inr h ↦ elim (Bool-cases (a.kind == "delist")) [
      | inl k ↦ rw (h, k) (Tally-delisted e a s (Adapter.delist ad s.world a.goods_ref) acted b)
      | inr k ↦ rw (h, k) (Tally-fail _ _ _ (Tally-audited s acted a false _ b))
    ]
  ]

  abbrev GoingOn : Run W F × Bool → List (Action F) → Type 0
  GoingOn (t, stop) acted = stop ≡ false → Tally false t acted

  Tally-act_on :
      (e : Executor W F) (ad : Adapter W F) (a : Action F) (o : Option Error) (s : Run W F)
      (acted : List (Action F))
      → Tally false s acted
      → GoingOn (act_on e ad a o s) (acted ++ (a ∷ []))
  Tally-act_on e ad a none s acted b h = Tally-run_kind e ad a s acted b
  Tally-act_on e ad a (some err) s acted b h = cc

  Tally-with_adapter :
      (e : Executor W F) (o : Option (Adapter W F)) (a : Action F) (s : Run W F)
      (acted : List (Action F))
      → Tally false s acted
      → GoingOn (with_adapter e o a s) (acted ++ (a ∷ []))
  Tally-with_adapter e none a s acted b = λ h. Tally-fail _ _ _ (Tally-audited s acted a false _ b)
  Tally-with_adapter e (some ad) a s acted b = elim (Bool-cases e.dry_run) [
    | inl dry ↦ simp dry (λ h. Tally-succeed _ _ (Tally-audited s acted a true "" b))
    | inr dry ↦ elim (Bool-cases (s.blocked a.channel || not (e.channel_ready s.world a.channel))) [
      | inl k ↦ simp (dry, k) (λ h. Tally-fail _ _ _ (Tally-audited s acted a false _ b))
      | inr k ↦ simp (dry, k) (Tally-act_on e ad a (e.context_err s.world) s acted b)
    ]
  ]

  -- After a run that the context has not cut short, the audited actions are those before it and the
  -- plan, in order.
  Tally-execute_from :
      (e : Executor W F) (plan : List (Action F)) (s : Run W F) (acted : List (Action F))
      → Tally false s acted
      → GoingOn (execute_from e plan s) (acted ++ plan)
  unfolding execute_from execute_one
  Tally-execute_from e [] s acted b = λ h. rw (append-nil acted) b
  Tally-execute_from e (a ∷ plan) s acted b = elim (Bool-cases r.1) [
    | inl h ↦ simp h (λ k. cc)
    | inr h ↦ simp h (
        rw (sym (append_assoc acted (a ∷ []) plan)) (
          Tally-execute_from e plan r.0 (acted ++ (a ∷ []))
            (Tally-with_adapter e (e.adapters a.channel) a s acted b h)))
  ]
    where
      r : Run W F × Bool
      r = with_adapter e (e.adapters a.channel) a s

  -- `ExecuteWithError`, unless the context cuts it short, audits each action of the plan exactly once and
  -- in order, reports as many applied actions as it audited successes, and as many failures as it joins
  -- errors.
  pub execute_accounts :
      (e : Executor W F) (plan : List (Action F)) (w : W)
      → (execute e plan w).1 ≡ false
      → Tally false (execute e plan w).0 plan
  unfolding execute
  execute_accounts e plan w h =
      Tally-execute_from e plan (start_run w) []
        (record { acted_all = refl; applied_all = refl; failed_all = refl }) h
