-- ===== src/Reprice/Each.antt =====
-- What the loop over the candidates of a channel does for each of them: a price action, or a strategy error.
use rent_auto.Prelude.{
  ℕ, subst, ◌≡◌, refl, sym, ap, ◌∙◌, String, Bool, false, Option, none, some, List, [], ◌∷◌, ◌++◌,
  Bool-cases, inl, inr, ◌==◌, append_assoc, append-nil, update, text_append, arith, eq_iff,
}
use rent_auto.Domain.{Channel, Error}
use rent_auto.Float.{Double}
use rent_auto.Pricing.{Input, Params, Decision}
use rent_auto.Recon.Execute.{wrap}
use rent_auto.Reprice.{Candidate, Strategy, PriceAction, Env, Run}
use rent_auto.Reprice.Acts.{Acts, Acts-act}
use rent_auto.Reprice.Steps.{
  ready, act, with_cache, looked_up, parsed, reprice_one, reprice_from, strategy_key,
}

module _ {W F : Type 0} where
  -- In the world `w` the strategy of the candidate is read, and its parameters, or others with the same
  -- key, are parsed.
  pub record Readable (e : Env W F) (w : W) (c : Candidate F) : Type 0 where
    pub strategy : Strategy
    pub model : Strategy
    pub read : (Env.effective_strategy e w c.hash_name).1 ≡ (strategy, none)
    pub same_key : strategy_key model ≡ strategy_key strategy
    pub parses : (Env.parse_params e model.global_params model.params).1 ≡ none

  -- In the world `w` the strategy of the candidate is not read, or its parameters are not parsed.
  pub data Unread (e : Env W F) (w : W) (c : Candidate F) (err : Error) : Type 0 where
    no_strategy :
        (es : Strategy)
        → (Env.effective_strategy e w c.hash_name).1 ≡ (es, some err)
        → Unread e w c err
    bad_params :
        (es : Strategy)
        → (Env.effective_strategy e w c.hash_name).1 ≡ (es, none)
        → (Env.parse_params e es.global_params es.params).1 ≡ some err
        → Unread e w c err

  -- the parameters in the cache have been parsed, for a strategy with their key
  abbrev pub IsKnown : Env W F → (String → Option (Params F)) → Type 0
  IsKnown e cache =
      (key : String) (p : Params F)
      → cache key ≡ some p
      → (es : Strategy) × (strategy_key es ≡ key)
        × ((Env.parse_params e es.global_params es.params).1 ≡ none)

  -- what a round that does not end the loop does for its candidate
  data Does (e : Env W F) (c : Candidate F) (s t : Run W F) : Type 0 where
    does_act :
        (pa : PriceAction F)
        → Readable e s.world c
        → Acts c pa s (record t { cache = s.cache })
        → IsKnown e t.cache
        → Does e c s t
    does_fail :
        (err : Error)
        → Unread e s.world c err
        → t.actions ≡ s.actions
        → t.strat_errs ≡ s.strat_errs ++ (wrap (text_append "strategy " c.hash_name) err ∷ [])
        → IsKnown e t.cache
        → Does e c s t

  IsKnown-update :
      (e : Env W F) (cache : String → Option (Params F)) (es : Strategy) (p : Params F)
      → (Env.parse_params e es.global_params es.params).1 ≡ none
      → IsKnown e cache
      → IsKnown e (update cache (strategy_key es) (some p))
  IsKnown-update e cache es p parses known key q h = elim (Bool-cases (key == strategy_key es)) [
    | inl same ↦
        let named : strategy_key es ≡ key = ground (arith, eq_iff key (strategy_key es)) in
        (es, named, parses)
    | inr differs ↦ known key q (simp differs at h)
  ]

  Does-act :
      (e : Env W F) (ch : Channel) (c : Candidate F) (dry : Bool) (i : Input F) (d : Decision F)
      (s : Run W F) (w2 : W) (cache : String → Option (Params F))
      → Readable e s.world c
      → IsKnown e cache
      → let r = act e ch c dry i d (record s { world = w2; cache = cache }) in
        r.1 ≡ false → Does e c s r.0
  Does-act e ch c dry i d s w2 cache readable known on =
      let s' = record s { world = w2; cache = cache } in
      let (pa, a) = Acts-act e ch c dry i d s' on in
      does_act pa readable
        (record {
          listing = a.listing;
          asset = a.asset;
          more = a.more;
          same_errs = a.same_errs;
          same_cache = refl;
        })
        (subst (λ x. IsKnown e x) (sym a.same_cache) known)

module _ {W F : Type 0} ⦃double : Double F⦄ where
  Does-parsed :
      (e : Env W F) (ch : Channel) (now : ℕ) (c : Candidate F) (es : Strategy) (s : Run W F)
      (w1 : W) (r : Params F × Option Error)
      → (Env.effective_strategy e s.world c.hash_name).1 ≡ (es, none)
      → Env.parse_params e es.global_params es.params ≡ r
      → IsKnown e s.cache
      → (parsed e ch now c es (record s { world = w1 }) r).1 ≡ false
      → Does e c s (parsed e ch now c es (record s { world = w1 }) r).0
  Does-parsed e ch now c es s w1 (p, some err) read parses known on =
      does_fail err (bad_params es read (ap (λ x. x.1) parses)) refl refl known
  Does-parsed e ch now c es s w1 (p, none) read parses known on =
      Does-act e ch c _ _ _ s _ (update s.cache (strategy_key es) (some p))
        (record {
          strategy = es;
          model = es;
          read = read;
          same_key = refl;
          parses = ap (λ x. x.1) parses;
        })
        (IsKnown-update e s.cache es p (ap (λ x. x.1) parses) known) on

  Does-with_cache :
      (e : Env W F) (ch : Channel) (now : ℕ) (c : Candidate F) (es : Strategy) (s : Run W F)
      (w1 : W) (o : Option (Params F))
      → (Env.effective_strategy e s.world c.hash_name).1 ≡ (es, none)
      → s.cache (strategy_key es) ≡ o
      → IsKnown e s.cache
      → (with_cache e ch now c es (record s { world = w1 }) o).1 ≡ false
      → Does e c s (with_cache e ch now c es (record s { world = w1 }) o).0
  Does-with_cache e ch now c es s w1 none read q known on =
      Does-parsed e ch now c es s w1 _ read refl known on
  Does-with_cache e ch now c es s w1 (some p) read q known on =
      let (model, same_key, parses) = known (strategy_key es) p q in
      Does-act e ch c _ _ _ s _ s.cache
        (record { strategy = es; model = model; read = read; same_key = same_key; parses = parses })
        known on

  Does-looked_up :
      (e : Env W F) (ch : Channel) (now : ℕ) (c : Candidate F) (s : Run W F)
      (r : W × (Strategy × Option Error))
      → Env.effective_strategy e s.world c.hash_name ≡ r
      → IsKnown e s.cache
      → (looked_up e ch now c s r).1 ≡ false
      → Does e c s (looked_up e ch now c s r).0
  Does-looked_up e ch now c s (w, (es, some err)) q known on =
      does_fail err (no_strategy es (ap (λ x. x.1) q)) refl refl known
  Does-looked_up e ch now c s (w, (es, none)) q known on =
      Does-with_cache e ch now c es s w _ (ap (λ x. x.1) q) refl known on

  Does-reprice_one :
      (e : Env W F) (ch : Channel) (now : ℕ) (c : Candidate F) (s : Run W F)
      → IsKnown e s.cache
      → (reprice_one e ch now c s).1 ≡ false
      → Does e c s (reprice_one e ch now c s).0
  unfolding reprice_one
  Does-reprice_one e ch now c s known = elim (Bool-cases (ready e ch s)) [
    | inl is_on ↦ simp is_on (λ on. Does-looked_up e ch now c s _ refl known on)
    | inr is_off ↦ simp is_off (λ on. cc)
  ]

  -- The price actions and the strategy errors that the rounds for a list of candidates add, from the state
  -- `s` on: one of the two for each candidate, in order, by what is read in the world of its round.
  pub data Each (e : Env W F) (ch : Channel) (now : ℕ)
      : Run W F → List (Candidate F) → List (PriceAction F) → List Error → Type 0 where
    none_left : (s : Run W F) → Each e ch now s [] [] []
    acted :
        {c : Candidate F} {cands : List (Candidate F)} {actions : List (PriceAction F)}
        {errs : List Error} (s : Run W F) (pa : PriceAction F)
        → Readable e s.world c
        → pa.listing_id ≡ c.listing_id
        → pa.asset_id ≡ c.asset_id
        → Each e ch now (reprice_one e ch now c s).0 cands actions errs
        → Each e ch now s (c ∷ cands) (pa ∷ actions) errs
    unread :
        {c : Candidate F} {cands : List (Candidate F)} {actions : List (PriceAction F)}
        {errs : List Error} (s : Run W F) (err : Error)
        → Unread e s.world c err
        → Each e ch now (reprice_one e ch now c s).0 cands actions errs
        → Each e ch now s
            (c ∷ cands)
            actions
            (wrap (text_append "strategy " c.hash_name) err ∷ errs)

  -- what the loop adds for its candidates
  record Adds (e : Env W F) (ch : Channel) (now : ℕ) (cands : List (Candidate F)) (s t : Run W F)
      : Type 0 where
    actions : List (PriceAction F)
    errs : List Error
    more_actions : t.actions ≡ s.actions ++ actions
    more_errs : t.strat_errs ≡ s.strat_errs ++ errs
    each : Each e ch now s cands actions errs

  Adds-next :
      (e : Env W F) (ch : Channel) (now : ℕ) (c : Candidate F) (cands : List (Candidate F))
      (s u : Run W F)
      → Does e c s (reprice_one e ch now c s).0
      → (IsKnown e (reprice_one e ch now c s).0.cache
          → Adds e ch now cands (reprice_one e ch now c s).0 u)
      → Adds e ch now (c ∷ cands) s u
  Adds-next e ch now c cands s u (does_act pa readable a known) later =
      let k = later known in
      record {
        actions = pa ∷ k.actions;
        errs = k.errs;
        more_actions =
            k.more_actions
            ∙ (ap (λ xs. xs ++ k.actions) a.more ∙ append_assoc s.actions (pa ∷ []) k.actions);
        more_errs = k.more_errs ∙ ap (λ xs. xs ++ k.errs) a.same_errs;
        each = acted s pa readable a.listing a.asset k.each;
      }
  Adds-next e ch now c cands s u (does_fail err failed a m known) later =
      let k = later known in
      let new = wrap (text_append "strategy " c.hash_name) err in
      record {
        actions = k.actions;
        errs = new ∷ k.errs;
        more_actions = k.more_actions ∙ ap (λ xs. xs ++ k.actions) a;
        more_errs =
            k.more_errs ∙ (ap (λ xs. xs ++ k.errs) m ∙ append_assoc s.strat_errs (new ∷ []) k.errs);
        each = unread s err failed k.each;
      }

  Adds-reprice_from :
      (e : Env W F) (ch : Channel) (now : ℕ) (cands : List (Candidate F)) (s : Run W F)
      → IsKnown e s.cache
      → (reprice_from e ch now cands s).1 ≡ false
      → Adds e ch now cands s (reprice_from e ch now cands s).0
  unfolding reprice_from
  Adds-reprice_from e ch now [] s known = λ on. record {
    actions = [];
    errs = [];
    more_actions = sym (append-nil s.actions);
    more_errs = sym (append-nil s.strat_errs);
    each = none_left s;
  }
  Adds-reprice_from e ch now (c ∷ cands) s known =
      let r = reprice_one e ch now c s in
      elim (Bool-cases r.1) [
        | inl stop ↦ simp stop (λ on. cc)
        | inr goes_on ↦ simp goes_on (λ on.
            Adds-next e ch now c cands s _ (Does-reprice_one e ch now c s known goes_on)
              (λ known'. Adds-reprice_from e ch now cands r.0 known' on))
      ]

  -- From a cache that holds only parsed parameters, a loop that does not stop early adds, in the order of the candidates and one of the two for each: a
  -- price action with the listing and the asset of the candidate, where its strategy is read and parsed;
  -- or the strategy error, where it is not. (A strategy with the key of one that was parsed counts as
  -- parsed.) The actions are those handed to the store.
  pub reprice_from-Each :
      (e : Env W F) (ch : Channel) (now : ℕ) (cands : List (Candidate F)) (s : Run W F)
      → IsKnown e s.cache
      → (reprice_from e ch now cands s).1 ≡ false
      → let t = (reprice_from e ch now cands s).0 in
        (actions : List (PriceAction F)) × (errs : List Error) × (t.actions ≡ s.actions ++ actions)
        × (t.strat_errs ≡ s.strat_errs ++ errs)
        × Each e ch now s cands actions errs
  reprice_from-Each e ch now cands s known on =
      let k = Adds-reprice_from e ch now cands s known on in
      (k.actions, k.errs, k.more_actions, k.more_errs, k.each)
