-- ===== src/Reprice/Justified.antt =====
-- Which requests the reprice job sends: those of accepted decisions; and none in a dry run.
use rent_auto.Prelude.{
  ℕ, ◌≡◌, refl, ap, ◌∙◌, sym, Bool, true, Option, none, some, List, [], ◌∷◌, Bool-cases, inl, inr,
  All, All-append, Memᴰ,
}
use rent_auto.Domain.{Channel, Error}
use rent_auto.Float.{Double}
use rent_auto.Pricing.{Input, Decision}
use rent_auto.Pricing.Decide.{decide}
use rent_auto.Reprice.{Candidate, Request, Env, Run, request_of}
use rent_auto.Reprice.Rounds.{
  Round, unpriced, recorded, sent, Outcome, Outcome-reprice_one, IsPriced,
}
use rent_auto.Reprice.Steps.{reprice_one, reprice_from, reprice_channel, listed, start_channel}

-- A request for the accepted decision on a candidate of the list.
abbrev pub IsJustified :
    {F : Type 0} ⦃double : Double F⦄ → ℕ → List (Candidate F) → Request F → Type 0
IsJustified {F = F} now cands r =
    (c : Candidate F) × (i : Input F) × Memᴰ c cands
    × IsPriced now c i (decide i)
    × ((decide i).ok ≡ true)
    × (r ≡ request_of c (decide i))

module _ {W F : Type 0} ⦃double : Double F⦄ where
  IsJustified-Round :
      (now : ℕ) (cands : List (Candidate F)) (c : Candidate F) (s t : Run W F)
      → Memᴰ c cands
      → Round (IsPriced now) c s t
      → All (IsJustified now cands) s.calls
      → All (IsJustified now cands) t.calls
  IsJustified-Round now cands c s t m (unpriced n a k o) js = simp k js
  IsJustified-Round now cands c s t m (recorded pa h ok a k n o) js = simp k js
  IsJustified-Round now cands c s t m (sent i d ok text p h a k n o) js = simp k (
      All-append (IsJustified now cands) s.calls (request_of c d ∷ []) js (
        (c, i, m, settled p, sym (ap Decision.ok p.decided_by) ∙ h, ap (request_of c) p.decided_by),
        tt,
      ))
    where
      settled : IsPriced now c i d → IsPriced now c i (decide i)
      settled p = record {
        decided_by = refl;
        at_instant = p.at_instant;
        for_channel = p.for_channel;
        from_rent = p.from_rent;
        with_factor = p.with_factor;
        since_action = p.since_action;
      }

  IsJustified-next :
      (now : ℕ) (cands : List (Candidate F)) (c : Candidate F) (s t : Run W F) (stop : Bool)
      → Memᴰ c cands
      → Outcome (IsPriced now) c s (t, stop)
      → All (IsJustified now cands) s.calls
      → All (IsJustified now cands) t.calls
  IsJustified-next now cands c s t stop m (inl (h, r)) js = IsJustified-Round now cands c s t m r js
  IsJustified-next now cands c s t stop m (inr (h, k)) js = simp k.same_calls js

  IsJustified-reprice_from :
      (e : Env W F) (ch : Channel) (now : ℕ) (all cands : List (Candidate F)) (s : Run W F)
      → ((c : Candidate F) → Memᴰ c cands → Memᴰ c all)
      → All (IsJustified now all) s.calls
      → All (IsJustified now all) (reprice_from e ch now cands s).0.calls
  unfolding reprice_from
  IsJustified-reprice_from e ch now all [] s sub js = js
  IsJustified-reprice_from e ch now all (c ∷ cands) s sub js =
      let (t, stop) = reprice_one e ch now c s in
      let here =
        IsJustified-next now all c s t stop (sub c (Memᴰ.head refl))
          (Outcome-reprice_one e ch now c s) js in
      let later = IsJustified-reprice_from e ch now all cands t (λ x m. sub x (Memᴰ.tail m)) here in
      elim (Bool-cases stop) [ inl h ↦ simp h here | inr h ↦ simp h later ]

  IsJustified-listed :
      (e : Env W F) (ch : Channel) (now : ℕ) (s : Run W F)
      (r : W × (List (Candidate F) × Option Error))
      → s.calls ≡ []
      → All (IsJustified now r.1.0) (listed e ch now s r).0.calls
  IsJustified-listed e ch now s (w, (cands, some err)) h = simp h tt
  IsJustified-listed e ch now s (w, (cands, none)) h =
      IsJustified-reprice_from e ch now cands cands (record s { world = w }) (λ c m. m) (simp h tt)

  -- Every request that a channel's repricing sends carries the accepted decision of the pricing engine
  -- on one of the candidates that the store listed: on its price, its factor and its last action, at
  -- the instant of the cycle.
  pub reprice_channel-IsJustified :
      (e : Env W F) (ch : Channel) (now : ℕ) (s : Run W F)
      → s.calls ≡ []
      → All
          (IsJustified now (e.list_candidates s.world ch).1.0)
          (reprice_channel e ch now s).0.calls
  unfolding reprice_channel
  reprice_channel-IsJustified e ch now s h =
      IsJustified-listed e ch now (start_channel s) (Env.list_candidates e s.world ch) h
