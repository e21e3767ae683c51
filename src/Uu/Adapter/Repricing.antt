-- ===== src/Uu/Adapter/Repricing.antt =====
-- What RepriceLease reports of each item, and of a call that failed.
use rent_auto.Prelude.{
  ℕ, ◌≡◌, ◌≢◌, ◌<◌, refl, ap, ◌∙◌, String, Bool, true, false, not, ◌&&◌, ◌||◌, Option, none, some,
  List, [], ◌∷◌, ℤ, pos, eqb, eqb_iff, eqb_ℤ, any, length, is_some, Zipped, Bool-cases, inl, inr,
  arith,
}
use rent_auto.Domain.{Channel, Error, partial_failure}
use rent_auto.Float.{Double}
use rent_auto.Risk.{Cooldowns, risk_cooldown, penalize}
use rent_auto.Delivery.{failed, replied}
use rent_auto.Reprice
use rent_auto.Uu.Endpoints.{Client, ChangeFailInfo, ChangeLeaseItem, change_lease_prices}
use rent_auto.Uu.Adapter.{
  Named, name_one, name_all, nobody, goods_id, optimistic, strict, optimistic_all, strict_all,
  reprice_verdict, reprice_lease, change_payload, default_compensation_type,
}

-- an entry of the reply that names the item as failed, or as successful
abbrev pub names_failed : ℤ → ChangeFailInfo → Bool
names_failed id f = not (eqb_ℤ f.is_success (pos 1)) && eqb_ℤ id f.commodity_id

abbrev pub names_done : ℤ → ChangeFailInfo → Bool
names_done id f = eqb_ℤ f.is_success (pos 1) && eqb_ℤ id f.commodity_id

is_some-fail_map :
    (fails : List ChangeFailInfo) (n : Named) (id : ℤ)
    → is_some ((name_all fails n).fail_map id)
      ≡ (is_some (n.fail_map id) || any (names_failed id) fails)
is_some-fail_map [] n id = ground arith
is_some-fail_map (f ∷ fails) n id =
    is_some-fail_map fails (name_one f n) id ∙ elim (Bool-cases (eqb_ℤ f.is_success (pos 1))) [
      | inl h ↦ simp h refl
      | inr h ↦ elim (Bool-cases (eqb_ℤ id f.commodity_id)) [
        | inl q ↦ simp (h, q) (ground arith)
        | inr q ↦ simp (h, q) (ground arith)
      ]
    ]

ok_set-any :
    (fails : List ChangeFailInfo) (n : Named) (id : ℤ)
    → (name_all fails n).ok_set id ≡ (n.ok_set id || any (names_done id) fails)
ok_set-any [] n id = ground arith
ok_set-any (f ∷ fails) n id =
    ok_set-any fails (name_one f n) id ∙ elim (Bool-cases (eqb_ℤ f.is_success (pos 1))) [
      | inr h ↦ simp h refl
      | inl h ↦ elim (Bool-cases (eqb_ℤ id f.commodity_id)) [
        | inl q ↦ simp (h, q) (ground arith)
        | inr q ↦ simp (h, q) (ground arith)
      ]
    ]

success-optimistic :
    (ref : String) (o : Option String) → (optimistic ref o).success ≡ not (is_some o)
success-optimistic ref none = refl
success-optimistic ref (some msg) = refl

success-strict :
    (ref : String) (o : Option String) (ok : Bool)
    → (strict ref o ok).success ≡ (not (is_some o) && ok)
success-strict ref none true = refl
success-strict ref none false = refl
success-strict ref (some msg) ok = refl

module _ {W F : Type 0} where
  abbrev pub id_of : Client W F → Reprice.Request F → ℤ
  id_of c it = goods_id (Client.parse_int c it.goods_ref)

  Zipped-optimistic_all :
      (c : Client W F) (fails : List ChangeFailInfo) (items : List (Reprice.Request F))
      → Zipped
          (λ it r. r.success ≡ not (any (names_failed (id_of c it)) fails))
          items
          (optimistic_all c (name_all fails nobody) items)
  Zipped-optimistic_all c fails [] = tt
  Zipped-optimistic_all c fails (it ∷ items) = (
    success-optimistic it.goods_ref _ ∙ ap not (is_some-fail_map fails nobody (id_of c it)),
    Zipped-optimistic_all c fails items,
  )

  Zipped-strict_all :
      (c : Client W F) (fails : List ChangeFailInfo) (items : List (Reprice.Request F))
      → Zipped
          (λ it r.
            r.success
            ≡ (not (any (names_failed (id_of c it)) fails) && any (names_done (id_of c it)) fails))
          items
          (strict_all c (name_all fails nobody) items)
  Zipped-strict_all c fails [] = tt
  Zipped-strict_all c fails (it ∷ items) = (
    success-strict it.goods_ref _ _
        ∙ simp (is_some-fail_map fails nobody (id_of c it), ok_set-any fails nobody (id_of c it))
            refl,
    Zipped-strict_all c fails items,
  )

  -- A reply with fewer or more entries than items: an item counts as repriced exactly if an entry names
  -- it as done and none as failed, and the call reports a partial failure.
  pub reprice_verdict-short_reply :
      (c : Client W F) (items : List (Reprice.Request F)) (success : ℤ)
      (fails : List ChangeFailInfo) (err : Option Error)
      → length fails ≢ length items
      → let r = reprice_verdict c items success fails err in
        Zipped
          (λ it r.
            r.success
            ≡ (not (any (names_failed (id_of c it)) fails) && any (names_done (id_of c it)) fails))
          items
          r.0
        × ((e : Error) × (r.1 ≡ some e) × (e.chain ≡ partial_failure ∷ []))
  unfolding reprice_verdict
  reprice_verdict-short_reply c items success fails err h =
      let differ : eqb (length fails) (length items) ≡ false =
        ground (arith, h, eqb_iff (length fails) (length items)) in
      simp differ (Zipped-strict_all c fails items, (_, refl, refl))

  -- A reply with as many entries as items: an item counts as repriced exactly if no entry names it as
  -- failed, also if no entry names it at all.
  pub reprice_verdict-full_reply :
      (c : Client W F) (items : List (Reprice.Request F)) (success : ℤ)
      (fails : List ChangeFailInfo) (err : Option Error)
      → length fails ≡ length items
      → Zipped
          (λ it r. r.success ≡ not (any (names_failed (id_of c it)) fails))
          items
          (reprice_verdict c items success fails err).0
  unfolding reprice_verdict
  reprice_verdict-full_reply c items success fails err h =
      let same : eqb (length fails) (length items) ≡ true =
        (eqb_iff (length fails) (length items)).1 h in
      simp same (Zipped-optimistic_all c fails items)

module _ {W F : Type 0} ⦃double : Double F⦄ where
  -- When the price change of a batch that is not empty fails, RepriceLease reports a partial failure
  -- in place of the error: whatever the error was, no cooldown follows from what is reported, so the
  -- channel's risk control is not told.
  pub reprice_lease-hides_risk :
      (c : Client W F) (w w' : W) (items : List (Reprice.Request F))
      (payload : List (ChangeLeaseItem F)) (err : Error) (m : Cooldowns) (ch : Channel) (now : ℕ)
      → 0 < length items
      → change_payload c items ≡ replied payload
      → change_lease_prices c w payload default_compensation_type ≡ (w', failed err)
      → (e : Error) × ((reprice_lease c w items).1.1 ≡ some e)
        × (e.chain ≡ partial_failure ∷ [])
        × (penalize m ch e now ≡ m)
  unfolding reprice_lease reprice_verdict penalize risk_cooldown
  reprice_lease-hides_risk c w w' items payload err m ch now some_items p failure =
      let differ : eqb 0 (length items) ≡ false = ground (arith, some_items) in
      simp (p, failure, differ) (_, refl, refl, refl)
