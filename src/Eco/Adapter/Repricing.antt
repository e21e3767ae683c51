-- ===== src/Eco/Adapter/Repricing.antt =====
-- What RepriceLease reports when its call fails.
use rent_auto.Prelude.{◌≡◌, refl, arith, eqb, eqb_iff, false, some, List, [], ◌∷◌, String, length}
use rent_auto.Domain.{Error, partial_failure}
use rent_auto.Float.{Double}
use rent_auto.Delivery.{failed}
use rent_auto.Reprice
use rent_auto.Eco.{Client}
use rent_auto.Eco.Adapter.{
  Forms, publish_rent_and_sale, publish_type_mod, reprice_payload, reprice_lease,
}

eqb_nil : {A : Type 0} (x : A) (xs : List A) → eqb 0 (length (x ∷ xs)) ≡ false
eqb_nil x xs = ground (arith, eqb_iff 0 (length (x ∷ xs)))

module _ {W V F : Type 0} ⦃double : Double F⦄ where
  -- When the call of a batch that is not empty fails, RepriceLease reports a partial failure in place of
  -- the error, whatever the error was.
  pub reprice_lease-hides_error :
      (c : Client W V) (f : Forms V F) (steam_id : String) (w w' : W) (it : Reprice.Request F)
      (items : List (Reprice.Request F)) (err : Error)
      → publish_rent_and_sale c f w steam_id publish_type_mod (reprice_payload (it ∷ items))
        ≡ (w', failed err)
      → (e : Error) × ((reprice_lease c f steam_id w (it ∷ items)).1.1 ≡ some e)
        × (e.chain ≡ partial_failure ∷ [])
  unfolding reprice_lease
  reprice_lease-hides_error c f steam_id w w' it items err h =
      rw h (simp (eqb_nil it items) (_, refl, refl))
