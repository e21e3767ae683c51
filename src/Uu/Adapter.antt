-- ===== src/Uu/Adapter.antt =====
-- backend/internal/platform/uu/adapter.go: publishing, repricing and delisting through the UU client.
pub mod Publishing
pub mod Repricing
use rent_auto.Prelude.{
  ℕ, String, Bool, true, false, not, ◌&&◌, Option, none, some, List, [], ◌∷◌, ℤ, pos, eqb, eqb_ℤ,
  ltb_ℤ, length, is_some, if◌then◌else◌, text_append,
}
use rent_auto.Domain.{Error, partial_failure}
use rent_auto.Float.{Double}
use rent_auto.Pricing.{zero_f}
use rent_auto.Recon.Execute.{Request, Result, plain, wrap, partial_if_any_failed}
use rent_auto.Delivery.{Reply, failed, replied}
use rent_auto.Reprice
use rent_auto.Uu.{Json}
use rent_auto.Uu.Endpoints.{
  Client, OnLeaseItem, ChangeLeaseItem, PublishResultRaw, ChangeFailInfo, put_items_on_lease_shelf,
  change_lease_prices, off_shelf,
}

abbrev pub default_compensation_type : ℕ
default_compensation_type = 7

abbrev cons_reply : {A : Type 0} → A → Reply (List A) → Reply (List A)
cons_reply a (failed err) = failed err
cons_reply a (replied xs) = replied (a ∷ xs)

abbrev pub long_price : {F : Type 0} ⦃double : Double F⦄ → F → Option F
long_price ⦃double = double⦄ v = if Double.lt double zero_f v then some v else none

-- the payload of PublishLease, or the error of the first reference that is not a number
abbrev pub lease_item :
    {W F : Type 0} ⦃double : Double F⦄ → Client W F → Request F → ℤ → OnLeaseItem F
lease_item c it id = record {
  asset_id = id;
  is_can_lease = true;
  is_can_sold = false;
  lease_deposit = Client.format_float c it.deposit;
  lease_max_days = it.max_days;
  lease_unit_price = it.rent_price;
  long_lease_unit_price = long_price it.long_rent_price;
  compensation_type = none;
}

abbrev pub change_item :
    {W F : Type 0} ⦃double : Double F⦄ → Client W F → Reprice.Request F → ℤ → ChangeLeaseItem F
change_item c it id = record {
  commodity_id = id;
  is_can_lease = false;
  is_can_sold = false;
  lease_deposit = Client.format_float c it.deposit;
  lease_max_days = it.max_days;
  lease_unit_price = it.rent_price;
  long_lease_unit_price = long_price it.long_rent_price;
  compensation_type = 0;
}

-- `append(payload, …)` after a reference was parsed
abbrev pub parsed_then : {A : Type 0} → String → Reply ℤ → (ℤ → A) → Reply (List A) → Reply (List A)
parsed_then text (failed err) make rest = failed (wrap text err)
parsed_then text (replied id) make rest = cons_reply (make id) rest

-- the results of PublishLease without the asset reference, by position
abbrev pub publish_result : {W F : Type 0} → Client W F → PublishResultRaw → Result
publish_result c r = record {
  goods_ref = Json.itoa (Client.json c) r.commodity_id;
  success = eqb_ℤ r.status (pos 1);
  error = r.remark;
}

abbrev pub unanswered : Result
unanswered = record { goods_ref = ""; success = false; error = "" }

abbrev pub positional :
    {W F : Type 0} → Client W F → List (Request F) → List PublishResultRaw → List Result
positional c [] raws = []
positional c (it ∷ items) [] = unanswered ∷ positional c items []
positional c (it ∷ items) (r ∷ raws) = publish_result c r ∷ positional c items raws

-- failMap and okSet
pub record Named : Type 0 where
  pub fail_map : ℤ → Option String
  pub ok_set : ℤ → Bool

abbrev pub name_one : ChangeFailInfo → Named → Named
name_one f n =
    if eqb_ℤ f.is_success (pos 1)
    then record n { ok_set = λ id. if eqb_ℤ id f.commodity_id then true else n.ok_set id }
    else record n {
      fail_map = λ id. if eqb_ℤ id f.commodity_id then some f.message else n.fail_map id;
    }

abbrev pub name_all : List ChangeFailInfo → Named → Named
name_all [] n = n
name_all (f ∷ fails) n = name_all fails (name_one f n)

abbrev pub nobody : Named
nobody = record { fail_map = λ _. none; ok_set = λ _. false }

abbrev pub goods_id : Reply ℤ → ℤ
goods_id (failed err) = pos 0
goods_id (replied id) = id

-- one result if the reply names as many items as there are, and one if it does not
abbrev pub optimistic : String → Option String → Result
optimistic ref (some msg) = record { goods_ref = ref; success = false; error = msg }
optimistic ref none = record { goods_ref = ref; success = true; error = "" }

abbrev pub strict : String → Option String → Bool → Result
strict ref (some msg) ok = record { goods_ref = ref; success = false; error = msg }
strict ref none false = record {
  goods_ref = ref;
  success = false;
  error = "uu: missing per-item reprice result";
}
strict ref none true = record { goods_ref = ref; success = true; error = "" }

module _ {W F : Type 0} where
  abbrev pub optimistic_all : Client W F → Named → List (Reprice.Request F) → List Result
  optimistic_all c n [] = []
  optimistic_all c n (it ∷ items) =
      optimistic it.goods_ref (n.fail_map (goods_id (Client.parse_int c it.goods_ref)))
      ∷ optimistic_all c n items

  abbrev pub strict_all : Client W F → Named → List (Reprice.Request F) → List Result
  strict_all c n [] = []
  strict_all c n (it ∷ items) =
      let id = goods_id (Client.parse_int c it.goods_ref) in
      strict it.goods_ref (n.fail_map id) (n.ok_set id) ∷ strict_all c n items

  abbrev pub partial : Client W F → ℤ → ℕ → String → Error
  partial c done total text = record {
    text = text_append "platform: partial failure: " (
        text_append (Json.itoa (Client.json c) done)
          (text_append "/" (text_append (Json.itoa (Client.json c) (pos total)) text)));
    chain = partial_failure ∷ [];
  }

  -- the results and the error from `success`, `fails` and `err` of ChangeLeasePrices
  unfoldable pub reprice_verdict :
      Client W F
      → List (Reprice.Request F)
      → ℤ
      → List ChangeFailInfo
      → Option Error
      → List Result × Option Error
  reprice_verdict c items success fails err =
      let n = name_all fails nobody in
      if not (eqb (length fails) (length items))
      then (
        strict_all c n items,
        some (partial c (pos (length fails)) (length items) " reprice results returned"),
      )
      else (
        optimistic_all c n items,
        if ltb_ℤ success (pos (length items)) && not (is_some err)
            then some (partial c success (length items) " succeeded")
            else err,
      )

  abbrev pub repriced :
      Client W F
      → List (Reprice.Request F)
      → W × Reply (ℤ × List ChangeFailInfo)
      → W × (List Result × Option Error)
  repriced c items (w, failed err) = (w, reprice_verdict c items (pos 0) [] (some err))
  repriced c items (w, replied (success, fails)) = (w, reprice_verdict c items success fails none)

  abbrev pub published_results :
      Client W F
      → (ℕ → String)
      → List (Request F)
      → W × Reply (List PublishResultRaw)
      → W × (List Result × Option Error)
  published_results c itoa items (w, failed err) = (w, (positional c items [], some err))
  published_results c itoa items (w, replied raws) =
      (w, (positional c items raws, partial_if_any_failed itoa (positional c items raws)))

  -- Delist
  unfoldable pub delist : Client W F → W → List String → W × Option Error
  unfolding off_shelf
  delist c w refs = off_shelf c w refs

module _ {W F : Type 0} ⦃double : Double F⦄ where
  abbrev pub lease_payload : Client W F → List (Request F) → Reply (List (OnLeaseItem F))
  lease_payload c [] = replied []
  lease_payload c (it ∷ items) =
      let rest = lease_payload c items in
      parsed_then (text_append "uu: asset ref \"" (text_append it.asset_ref "\""))
        (Client.parse_int c it.asset_ref) (lease_item c it) rest

  abbrev pub change_payload :
      Client W F → List (Reprice.Request F) → Reply (List (ChangeLeaseItem F))
  change_payload c [] = replied []
  change_payload c (it ∷ items) =
      let rest = change_payload c items in
      parsed_then (text_append "uu: goods ref \"" (text_append it.goods_ref "\""))
        (Client.parse_int c it.goods_ref) (change_item c it) rest

  abbrev pub publish_with :
      Client W F
      → W
      → List (Request F)
      → Reply (List (OnLeaseItem F))
      → W × (List Result × Option Error)
  publish_with c w items (failed err) = (w, ([], some err))
  publish_with c w items (replied payload) =
      published_results c (λ n. Json.itoa (Client.json c) (pos n)) items
        (put_items_on_lease_shelf c w payload default_compensation_type)

  -- PublishLease
  unfoldable pub publish_lease :
      Client W F → W → List (Request F) → W × (List Result × Option Error)
  unfolding put_items_on_lease_shelf partial_if_any_failed
  publish_lease c w items = publish_with c w items (lease_payload c items)

  abbrev pub reprice_with :
      Client W F
      → W
      → List (Reprice.Request F)
      → Reply (List (ChangeLeaseItem F))
      → W × (List Result × Option Error)
  reprice_with c w items (failed err) = (w, ([], some err))
  reprice_with c w items (replied payload) =
      repriced c items (change_lease_prices c w payload default_compensation_type)

  -- RepriceLease
  unfoldable pub reprice_lease :
      Client W F → W → List (Reprice.Request F) → W × (List Result × Option Error)
  unfolding change_lease_prices reprice_verdict
  reprice_lease c w items = reprice_with c w items (change_payload c items)
