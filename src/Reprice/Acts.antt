-- ===== src/Reprice/Acts.antt =====
-- The rounds of the repricing loop that record a price action, with what they leave alone.
use rent_auto.Prelude.{
  ◌≡◌, refl, ap, ◌∙◌, String, Bool, true, false, Option, none, some, List, [], ◌∷◌, ◌++◌,
  Bool-cases, inl, inr, text_append,
}
use rent_auto.Domain.{Channel, Error}
use rent_auto.Pricing.{Input, Decision}
use rent_auto.Recon.Execute.{Result}
use rent_auto.Reprice.{
  Candidate, PriceAction, Env, Run, action_error, succeeded, skip_action, priced_action, request_of,
}
use rent_auto.Reprice.Kept.{Kept-stored, Kept-finish, Kept-penalized}
use rent_auto.Reprice.Steps.{
  ready, stored, sublet, finish, op_fail_if, insert, penalized, answered, act,
}

module _ {W F : Type 0} where
  -- one action for `c`, and nothing else of what is followed here
  pub record Acts (c : Candidate F) (pa : PriceAction F) (s t : Run W F) : Type 0 where
    pub listing : pa.listing_id ≡ c.listing_id
    pub asset : pa.asset_id ≡ c.asset_id
    pub more : t.actions ≡ s.actions ++ (pa ∷ [])
    pub same_errs : t.strat_errs ≡ s.strat_errs
    pub same_cache : t.cache ≡ s.cache

  cache-op_fail_if : (o : Option Error) (s : Run W F) → (op_fail_if o s).cache ≡ s.cache
  cache-op_fail_if none s = refl
  cache-op_fail_if (some err) s = refl

  cache-stored :
      (text : String) (r : W × Option Error) (s : Run W F) → (stored text r s).cache ≡ s.cache
  cache-stored text (w, none) s = refl
  cache-stored text (w, some err) s = refl

  cache-penalized :
      (e : Env W F) (ch : Channel) (o : Option Error) (s : Run W F)
      → (penalized e ch o s).cache ≡ s.cache
  cache-penalized e ch none s = refl
  cache-penalized e ch (some err) s = refl

  cache-sublet :
      (e : Env W F) (c : Candidate F) (b : Bool) (s : Run W F) → (sublet e c b s).cache ≡ s.cache
  cache-sublet e c false s = refl
  cache-sublet e c true s = cache-stored _ (Env.mark_sublet e s.world c.listing_id) s

  cache-finish :
      (e : Env W F) (c : Candidate F) (i : Input F) (d : Decision F) (res : List Result)
      (o : Option Error) (ok : Bool) (s : Run W F)
      → (finish e c i d res o ok s).cache ≡ s.cache
  cache-finish e c i d res o true s =
      let text = text_append "listing update " (Env.itoa e c.listing_id) in
      let r = Env.update_decision e s.world c.listing_id d in
      cache-sublet e c i.ignore_noise_floor (stored text r s) ∙ cache-stored text r s
  cache-finish e c i d res o false s = refl

  Acts-insert :
      (e : Env W F) (c : Candidate F) (what : String) (pa : PriceAction F) (s : Run W F)
      → pa.listing_id ≡ c.listing_id
      → pa.asset_id ≡ c.asset_id
      → Acts c pa s (insert e c what pa s)
  Acts-insert e c what pa s l a =
      let s' = record s { actions = s.actions ++ (pa ∷ []) } in
      let k = Kept-stored _ (Env.insert_action e s.world pa) s' in
      record {
        listing = l;
        asset = a;
        more = k.same_actions;
        same_errs = k.same_strat_errs;
        same_cache = cache-stored _ (Env.insert_action e s.world pa) s';
      }

  Acts-answered :
      (e : Env W F) (ch : Channel) (c : Candidate F) (i : Input F) (d : Decision F) (s : Run W F)
      (r : W × (List Result × Option Error))
      → (pa : PriceAction F) × Acts c pa s
          (answered e ch c i d (record s { calls = s.calls ++ (request_of c d ∷ []) }) r)
  Acts-answered e ch c i d s (w, (res, o)) =
      let s1 = record s { world = w; calls = s.calls ++ (request_of c d ∷ []) } in
      let s2 = penalized e ch o s1 in
      let ok = succeeded res o in
      let pa = priced_action c false i d ok (action_error res o) in
      let s3 = insert e c "price_action reprice " pa s2 in
      let a = Kept-penalized e ch o s1 in
      let b = Acts-insert e c "price_action reprice " pa s2 refl refl in
      let f = Kept-finish e c i d res o ok s3 in
      (
        pa,
        record {
          listing = refl;
          asset = refl;
          more = f.same_actions ∙ (b.more ∙ ap (λ xs. xs ++ (pa ∷ [])) a.same_actions);
          same_errs = f.same_strat_errs ∙ (b.same_errs ∙ a.same_strat_errs);
          same_cache =
              cache-finish e c i d res o ok s3 ∙ (b.same_cache ∙ cache-penalized e ch o s1);
        },
      )

  -- a round that does not end the loop acts
  pub Acts-act :
      (e : Env W F) (ch : Channel) (c : Candidate F) (dry : Bool) (i : Input F) (d : Decision F)
      (s : Run W F)
      → (act e ch c dry i d s).1 ≡ false
      → (pa : PriceAction F) × Acts c pa s (act e ch c dry i d s).0
  unfolding act
  Acts-act e ch c dry i d s = elim (Bool-cases d.ok) [
    | inr no_ok ↦
        simp no_ok
          (λ on. (skip_action c dry d, Acts-insert e c _ (skip_action c dry d) s refl refl))
    | inl ok ↦ elim (Bool-cases dry) [
      | inl is_on ↦
          simp (ok, is_on)
            (λ on. (
              priced_action c true i d true "",
              Acts-insert e c _ (priced_action c true i d true "") s refl refl,
            ))
      | inr is_off ↦ elim (Bool-cases (ready e ch s)) [
        | inr closed ↦ simp (ok, is_off, closed) (λ on. cc)
        | inl open_ ↦ simp (ok, is_off, open_) (λ on. Acts-answered e ch c i d s _)
      ]
    ]
  ]
