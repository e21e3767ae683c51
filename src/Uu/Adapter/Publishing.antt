-- ===== src/Uu/Adapter/Publishing.antt =====
-- What PublishLease reports of each item.
use rent_auto.Prelude.{
  ℕ, suc, ◌≡◌, refl, ap, String, true, Option, none, List, [], ◌∷◌, length, All,
}
use rent_auto.Domain.{Error}
use rent_auto.Float.{Double}
use rent_auto.Recon.Execute.{Request, Result}
use rent_auto.Recon.Execute.Verdict.{partial_if_any_failed-All}
use rent_auto.Delivery.{Reply, failed, replied}
use rent_auto.Uu.Endpoints.{Client, OnLeaseItem, PublishResultRaw, put_items_on_lease_shelf}
use rent_auto.Uu.Adapter.{
  positional, published_results, publish_with, publish_lease, lease_payload,
  default_compensation_type,
}

module _ {W F : Type 0} where
  length-positional :
      (c : Client W F) (items : List (Request F)) (raws : List PublishResultRaw)
      → length (positional c items raws) ≡ length items
  length-positional c [] raws = refl
  length-positional c (it ∷ items) [] = ap suc (length-positional c items [])
  length-positional c (it ∷ items) (r ∷ raws) = ap suc (length-positional c items raws)

  abbrev Clean : List (Request F) → W × (List Result × Option Error) → Type 0
  Clean items (w, (results, err)) =
      err ≡ none → (length results ≡ length items) × All (λ r. r.success ≡ true) results

  Clean-published_results :
      (c : Client W F) (itoa : ℕ → String) (items : List (Request F))
      (r : W × Reply (List PublishResultRaw))
      → Clean items (published_results c itoa items r)
  Clean-published_results c itoa items (w, failed err) = λ h. cc
  Clean-published_results c itoa items (w, replied raws) = λ h. (
    length-positional c items raws,
    (partial_if_any_failed-All itoa (positional c items raws)).0 h,
  )

module _ {W F : Type 0} ⦃double : Double F⦄ where
  Clean-publish_with :
      (c : Client W F) (w : W) (items : List (Request F)) (r : Reply (List (OnLeaseItem F)))
      → Clean items (publish_with c w items r)
  Clean-publish_with c w items (failed err) = λ h. cc
  Clean-publish_with c w items (replied payload) =
      Clean-published_results c _ items
        (put_items_on_lease_shelf c w payload default_compensation_type)

  -- PublishLease reports no error only if it reports one result for each item and all of them succeeded.
  pub publish_lease-clean :
      (c : Client W F) (w : W) (items : List (Request F))
      → (publish_lease c w items).1.1 ≡ none
      → (length (publish_lease c w items).1.0 ≡ length items)
        × All (λ r. r.success ≡ true) (publish_lease c w items).1.0
  unfolding publish_lease
  publish_lease-clean c w items h = Clean-publish_with c w items (lease_payload c items) h
