-- ===== src/Recon/Execute/Verdict.antt =====
-- The contract between the adapters' PublishLease and the executor's verdict on one item.
use rent_auto.Prelude.{
  ℕ, ◌≡◌, ◌↔◌, refl, String, true, none, some, List, [], ◌∷◌, All, arith, if◌then◌else◌,
}
use rent_auto.Recon.Execute.{Result, rejected_items, partial_if_any_failed, accepted}

rejected_items-All :
    (results : List Result) → (rejected_items results ≡ 0) ↔ All (λ r. r.success ≡ true) results
unfolding rejected_items
rejected_items-All [] = ((λ h. tt), (λ h. refl))
rejected_items-All (r ∷ results) = (
  (λ h. (ground (arith, h), (rejected_items-All results).0 (ground (arith, h)))),
  (λ (h, hs). rw h ((rejected_items-All results).1 hs)),
)

-- An adapter that reports through PartialIfAnyFailed reports no error exactly if every item succeeded.
pub partial_if_any_failed-All :
    (itoa : ℕ → String) (results : List Result)
    → (partial_if_any_failed itoa results ≡ none) ↔ All (λ r. r.success ≡ true) results
unfolding partial_if_any_failed
partial_if_any_failed-All itoa results = (
  (λ h. (rejected_items-All results).0 (ground (arith, h))),
  (λ hs. rw ((rejected_items-All results).1 hs) refl),
)

-- For a single item, the executor accepts what such an adapter returns exactly if the item succeeded.
pub accepted-partial_if_any_failed :
    (itoa : ℕ → String) (r : Result)
    → accepted (r ∷ []) (partial_if_any_failed itoa (r ∷ [])) ≡ (if r.success then some r else none)
unfolding partial_if_any_failed rejected_items
accepted-partial_if_any_failed itoa r = ground arith
