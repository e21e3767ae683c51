-- ===== src/Reprice/Kept.antt =====
-- What the steps of the reprice job that only touch the store and the cooldowns leave as it is.
use rent_auto.Prelude.{
  ℕ, ◌+◌, ◌≤◌, ◌≡◌, refl, ◌∙◌, String, Bool, true, false, text_append, Option, none, some, List, [],
  ◌∷◌, length, length-append, arith,
}
use rent_auto.Domain.{Channel, Error}
use rent_auto.Pricing.{Input, Params, Decision}
use rent_auto.Recon.Execute.{Result}
use rent_auto.Reprice.{Candidate, Env, Run}
use rent_auto.Reprice.Steps.{op_fail, op_fail_if, stored, penalized, sublet, finish}

abbrev pub failed : Bool → ℕ
failed true = 0
failed false = 1

module _ {W F : Type 0} where
  -- `t` follows `s` without a record, a call or a strategy error, and with `n` new errors at least
  pub record Kept (n : ℕ) (s t : Run W F) : Type 0 where
    pub same_actions : t.actions ≡ s.actions
    pub same_calls : t.calls ≡ s.calls
    pub same_strat_errs : t.strat_errs ≡ s.strat_errs
    pub more_op_errs : length s.op_errs + n ≤ length t.op_errs

  pub Kept-op_fail : (err : Error) (s : Run W F) → Kept 1 s (op_fail err s)
  Kept-op_fail err s = record {
    same_actions = refl;
    same_calls = refl;
    same_strat_errs = refl;
    more_op_errs = omega (arith, length-append s.op_errs (err ∷ []));
  }

  pub Kept-trans : (m n : ℕ) (s t u : Run W F) → Kept m s t → Kept n t u → Kept (m + n) s u
  Kept-trans m n s t u a b = record {
    same_actions = b.same_actions ∙ a.same_actions;
    same_calls = b.same_calls ∙ a.same_calls;
    same_strat_errs = b.same_strat_errs ∙ a.same_strat_errs;
    more_op_errs = omega (arith, a.more_op_errs, b.more_op_errs);
  }

  pub Kept-op_fail_if : (o : Option Error) (s : Run W F) → Kept 0 s (op_fail_if o s)
  Kept-op_fail_if none s = record {
    same_actions = refl;
    same_calls = refl;
    same_strat_errs = refl;
    more_op_errs = omega arith;
  }
  Kept-op_fail_if (some err) s = record {
    same_actions = refl;
    same_calls = refl;
    same_strat_errs = refl;
    more_op_errs = omega (arith, length-append s.op_errs (err ∷ []));
  }

  pub Kept-at : (n : ℕ) (s t : Run W F) (w : W) → Kept n (record s { world = w }) t → Kept n s t
  Kept-at n s t w k = record {
    same_actions = k.same_actions;
    same_calls = k.same_calls;
    same_strat_errs = k.same_strat_errs;
    more_op_errs = k.more_op_errs;
  }

  pub Kept-stored :
      (text : String) (r : W × Option Error) (s : Run W F) → Kept 0 s (stored text r s)
  Kept-stored text (w, none) s = Kept-at 0 s _ w (Kept-op_fail_if none (record s { world = w }))
  Kept-stored text (w, some err) s =
      Kept-at 0 s _ w (Kept-op_fail_if (some _) (record s { world = w }))

  pub Kept-sublet :
      (e : Env W F) (c : Candidate F) (b : Bool) (s : Run W F) → Kept 0 s (sublet e c b s)
  Kept-sublet e c false s = Kept-op_fail_if none s
  Kept-sublet e c true s =
      Kept-stored (text_append "sublet flag " (Env.itoa e c.listing_id))
        (Env.mark_sublet e s.world c.listing_id) s

  pub Kept-finish :
      (e : Env W F) (c : Candidate F) (i : Input F) (d : Decision F) (res : List Result)
      (o : Option Error) (ok : Bool) (s : Run W F)
      → Kept (failed ok) s (finish e c i d res o ok s)
  Kept-finish e c i d res o true s =
      Kept-trans 0 0 s _ _
        (Kept-stored (text_append "listing update " (Env.itoa e c.listing_id))
          (Env.update_decision e s.world c.listing_id d) s)
        (Kept-sublet e c i.ignore_noise_floor _)
  Kept-finish e c i d res o false s = Kept-op_fail _ s

  pub Kept-penalized :
      (e : Env W F) (ch : Channel) (o : Option Error) (s : Run W F) → Kept 0 s (penalized e ch o s)
  Kept-penalized e ch none s = Kept-op_fail_if none s
  Kept-penalized e ch (some err) s = record {
    same_actions = refl;
    same_calls = refl;
    same_strat_errs = refl;
    more_op_errs = omega arith;
  }

  pub Kept-here :
      (s : Run W F) (w : W) (cache : String → Option (Params F))
      → Kept 0 s (record s { world = w; cache = cache })
  Kept-here s w cache = record {
    same_actions = refl;
    same_calls = refl;
    same_strat_errs = refl;
    more_op_errs = omega arith;
  }
