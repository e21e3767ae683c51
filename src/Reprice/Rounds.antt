-- ===== src/Reprice/Rounds.antt =====
-- What the rounds of the reprice job record, send and report: one case for each way through a round.
use rent_auto.Prelude.{
  ℕ, ◌+◌, ◌≤◌, ◌≡◌, refl, ap, ◌∙◌, String, Bool, true, false, not, ◌&&◌, ◌==◌, Option, none, some,
  List, [], ◌∷◌, ◌++◌, length, length-append, Bool-cases, inl, inr, ◌⊎◌, arith,
}
use rent_auto.Domain.{Channel, Error}
use rent_auto.Float.{Double}
use rent_auto.Pricing.{Input, Params, Decision, Base}
use rent_auto.Pricing.Decide.{decide}
use rent_auto.Recon.Execute.{Result}
use rent_auto.Reprice.{
  Candidate, Strategy, PriceAction, Env, Run, action_error, succeeded, skip_action, priced_action,
  request_of,
}
use rent_auto.Reprice.Steps.{
  ready, strat_fail, insert, penalized, answered, act, with_cache, looked_up, parsed, reprice_one,
  input_of,
}
use rent_auto.Reprice.Kept.{
  failed, Kept, Kept-trans, Kept-stored, Kept-finish, Kept-penalized, Kept-here,
}

module _ {W F : Type 0} where
  -- What a round does that does not end the loop: it counts a strategy error; or it records an action
  -- that needs no call; or it sends one request, for an accepted decision, and records that.
  pub data Round (P : Candidate F → Input F → Decision F → Type 0) (c : Candidate F) (s t : Run W F)
      : Type 0 where
    unpriced :
        length t.strat_errs ≡ length s.strat_errs + 1
        → t.actions ≡ s.actions
        → t.calls ≡ s.calls
        → length s.op_errs ≤ length t.op_errs
        → Round P c s t
    recorded :
        (pa : PriceAction F)
        → (pa.action == "reprice" && not pa.dry_run) ≡ false
        → pa.success ≡ true
        → t.actions ≡ s.actions ++ (pa ∷ [])
        → t.calls ≡ s.calls
        → length t.strat_errs ≡ length s.strat_errs
        → length s.op_errs ≤ length t.op_errs
        → Round P c s t
    sent :
        (i : Input F) (d : Decision F) (ok : Bool) (text : String)
        → P c i d
        → d.ok ≡ true
        → t.actions ≡ s.actions ++ (priced_action c false i d ok text ∷ [])
        → t.calls ≡ s.calls ++ (request_of c d ∷ [])
        → length t.strat_errs ≡ length s.strat_errs
        → length s.op_errs + failed ok ≤ length t.op_errs
        → Round P c s t

  Round-insert :
      (P : Candidate F → Input F → Decision F → Type 0) (e : Env W F) (c : Candidate F)
      (what : String) (pa : PriceAction F) (s : Run W F)
      → (pa.action == "reprice" && not pa.dry_run) ≡ false
      → pa.success ≡ true
      → Round P c s (insert e c what pa s)
  Round-insert P e c what pa s h ok =
      let k =
        Kept-stored _ (Env.insert_action e s.world pa)
          (record s { actions = s.actions ++ (pa ∷ []) }) in
      recorded pa h ok k.same_actions k.same_calls (ap length k.same_strat_errs)
        (omega (arith, k.more_op_errs))

  Round-answered :
      (P : Candidate F → Input F → Decision F → Type 0) (e : Env W F) (ch : Channel)
      (c : Candidate F) (i : Input F) (d : Decision F) (s : Run W F)
      (r : W × (List Result × Option Error))
      → P c i d
      → d.ok ≡ true
      → Round P c s (answered e ch c i d (record s { calls = s.calls ++ (request_of c d ∷ []) }) r)
  Round-answered P e ch c i d s (w, (res, o)) p h =
      let s1 = record s { world = w; calls = s.calls ++ (request_of c d ∷ []) } in
      let s2 = penalized e ch o s1 in
      let ok = succeeded res o in
      let pa = priced_action c false i d ok (action_error res o) in
      let s3 = record s2 { actions = s2.actions ++ (pa ∷ []) } in
      let a = Kept-penalized e ch o s1 in
      let b = Kept-stored _ (Env.insert_action e s2.world pa) s3 in
      let f = Kept-finish e c i d res o ok _ in
      let k = Kept-trans 0 (failed ok) s3 _ _ b f in
      sent i d ok (action_error res o) p h
        (k.same_actions ∙ ap (λ xs. xs ++ (pa ∷ [])) a.same_actions) (k.same_calls ∙ a.same_calls)
        (ap length (k.same_strat_errs ∙ a.same_strat_errs))
        (omega (arith, k.more_op_errs, a.more_op_errs))

  -- a round that ends the loop does nothing else
  pub Round-act :
      (P : Candidate F → Input F → Decision F → Type 0) (e : Env W F) (ch : Channel)
      (c : Candidate F) (dry : Bool) (i : Input F) (d : Decision F) (s : Run W F)
      → P c i d
      → ((act e ch c dry i d s).1 ≡ false × Round P c s (act e ch c dry i d s).0)
        ⊎ (act e ch c dry i d s ≡ (s, true))
  unfolding act
  Round-act P e ch c dry i d s p = elim (Bool-cases d.ok) [
    | inr refused ↦
        simp refused (inl (refl, Round-insert P e c _ (skip_action c dry d) s refl refl))
    | inl ok ↦ elim (Bool-cases dry) [
      | inl is_on ↦
          simp (ok, is_on)
            (inl (refl, Round-insert P e c _ (priced_action c true i d true "") s refl refl))
      | inr is_off ↦ elim (Bool-cases (ready e ch s)) [
        | inr closed ↦ simp (ok, is_off, closed) (inr refl)
        | inl open_ ↦ simp (ok, is_off, open_) (inl (refl, Round-answered P e ch c i d s _ p ok))
      ]
    ]
  ]

  Round-at :
      (P : Candidate F → Input F → Decision F → Type 0) (c : Candidate F) (s t : Run W F) (w : W)
      (cache : String → Option (Params F))
      → Round P c (record s { world = w; cache = cache }) t
      → Round P c s t
  Round-at P c s t w cache (unpriced n a k o) = unpriced n a k o
  Round-at P c s t w cache (recorded pa h ok a k n o) = recorded pa h ok a k n o
  Round-at P c s t w cache (sent i d ok text p h a k n o) = sent i d ok text p h a k n o

  -- either a round of `c`, or the loop ends and nothing else happens
  abbrev pub Outcome :
      (Candidate F → Input F → Decision F → Type 0)
      → Candidate F
      → Run W F
      → Run W F × Bool
      → Type 0
  Outcome P c s (t, stop) = ((stop ≡ false) × Round P c s t) ⊎ ((stop ≡ true) × Kept 0 s t)

  Outcome-act :
      (P : Candidate F → Input F → Decision F → Type 0) (e : Env W F) (ch : Channel)
      (c : Candidate F) (dry : Bool) (i : Input F) (d : Decision F) (s : Run W F) (w : W)
      (cache : String → Option (Params F))
      → P c i d
      → Outcome P c s (act e ch c dry i d (record s { world = w; cache = cache }))
  Outcome-act P e ch c dry i d s w cache p =
      let s' = record s { world = w; cache = cache } in
      elim (Round-act P e ch c dry i d s' p) [
        | inl (h, r) ↦ inl (h, Round-at P c s _ w cache r)
        | inr h ↦ rw h (inr (refl, Kept-here s w cache))
      ]

  Outcome-strat_fail :
      (P : Candidate F → Input F → Decision F → Type 0) (c : Candidate F) (err : Error)
      (s : Run W F) (w : W)
      → Outcome P c s (strat_fail c err (record s { world = w }), false)
  Outcome-strat_fail P c err s w =
      inl (
        refl,
        unpriced (omega (arith, length-append s.strat_errs (_ ∷ []))) refl refl (omega arith),
      )

-- `d` is the decision on `i`, which states the listing of `c` at the instant `now`
pub record IsPriced {F : Type 0} ⦃double : Double F⦄ (now : ℕ) (c : Candidate F) (i : Input F)
    (d : Decision F) : Type 0 where
  pub decided_by : d ≡ decide i
  pub at_instant : i.now ≡ now
  pub for_channel : i.channel ≡ c.channel
  pub from_rent : i.cur.rent_price ≡ c.rent_price
  pub with_factor : i.factor ≡ c.factor
  pub since_action : i.cur.last_action_at ≡ c.last_action_at

module _ {W F : Type 0} ⦃double : Double F⦄ where
  IsPriced-input_of :
      (e : Env W F) (ch : Channel) (now : ℕ) (c : Candidate F) (p : Params F) (b : Base F × Bool)
      → IsPriced now c (input_of e ch now c p b) (decide (input_of e ch now c p b))
  IsPriced-input_of e ch now c p (base, has_base) = record {
    decided_by = refl;
    at_instant = refl;
    for_channel = refl;
    from_rent = refl;
    with_factor = refl;
    since_action = refl;
  }

  Outcome-with_cache :
      (e : Env W F) (ch : Channel) (now : ℕ) (c : Candidate F) (es : Strategy) (s : Run W F) (w : W)
      (o : Option (Params F))
      → Outcome (IsPriced now) c s (with_cache e ch now c es (record s { world = w }) o)
  Outcome-with_cache e ch now c es s w (some p) =
      Outcome-act (IsPriced now) e ch c _ _ _ s _ s.cache (IsPriced-input_of e ch now c p _)
  Outcome-with_cache e ch now c es s w none = parse (Env.parse_params e es.global_params es.params)
    where
      parse :
          (r : Params F × Option Error)
          → Outcome (IsPriced now) c s (parsed e ch now c es (record s { world = w }) r)
      parse (p, none) =
          Outcome-act (IsPriced now) e ch c _ _ _ s _ _ (IsPriced-input_of e ch now c p _)
      parse (p, some err) = Outcome-strat_fail (IsPriced now) c err s w

  Outcome-looked_up :
      (e : Env W F) (ch : Channel) (now : ℕ) (c : Candidate F) (s : Run W F)
      (r : W × (Strategy × Option Error))
      → Outcome (IsPriced now) c s (looked_up e ch now c s r)
  Outcome-looked_up e ch now c s (w, (es, some err)) = Outcome-strat_fail (IsPriced now) c err s w
  Outcome-looked_up e ch now c s (w, (es, none)) = Outcome-with_cache e ch now c es s w _

  pub Outcome-reprice_one :
      (e : Env W F) (ch : Channel) (now : ℕ) (c : Candidate F) (s : Run W F)
      → Outcome (IsPriced now) c s (reprice_one e ch now c s)
  unfolding reprice_one
  Outcome-reprice_one e ch now c s = elim (Bool-cases (ready e ch s)) [
    | inl is_on ↦ simp is_on (Outcome-looked_up e ch now c s _)
    | inr is_off ↦ simp is_off (inr (refl, Kept-here s s.world s.cache))
  ]
