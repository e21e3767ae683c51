-- ===== src/Eco/Adapter.antt =====
-- backend/internal/platform/eco/adapter.go, with the calls of endpoints.go that it makes: publishing, repricing
-- and delisting on ECO. How parameters become values of a call and how its payload is read are functions.
pub mod Delisting
pub mod Repricing
use rent_auto.Prelude.{
  ℕ, String, Bool, true, false, not, ◌==◌, Option, none, some, List, [], ◌∷◌, ℤ, pos, eqb, lookup,
  put, length, if◌then◌else◌, text_append,
}
use rent_auto.Domain.{Error, partial_failure}
use rent_auto.Float.{Double}
use rent_auto.Pricing.{zero_f, round2}
use rent_auto.Recon.Execute.{Request, Result, wrap, partial_if_any_failed}
use rent_auto.Reprice
use rent_auto.Delivery.{Reply, failed, replied}
use rent_auto.Eco.{Bytes, Client, Json, post}

abbrev pub trade_type_rent : ℕ
trade_type_rent = 2

abbrev pub publish_type_add : ℕ
publish_type_add = 1

abbrev pub publish_type_mod : ℕ
publish_type_mod = 2

abbrev pub sublet_on : ℕ
sublet_on = 1

abbrev pub sublet_pricing_dynamic : ℕ
sublet_pricing_dynamic = 2

-- RentPublishItem, as far as it is set
pub record RentPublishItem (F : Type 0) : Type 0 where
  pub asset_id : String
  pub steam_game_id : String
  pub trade_types : List ℕ
  pub rent_price : F
  pub long_rent_price : Option F
  pub rent_max_day : ℤ
  pub rent_deposits : F
  pub support_sublet : ℕ
  pub sublet_pricing_method : ℕ

pub record PublishItemResult : Type 0 where
  pub asset_id : String
  pub is_success : Bool
  pub error_msg : String
  pub good_num : String

pub record DelistResult : Type 0 where
  pub goods_num : String
  pub asset_id : String
  pub is_success : Bool
  pub error_msg : String

pub record Forms (V F : Type 0) : Type 0 where
  pub number : ℕ → V
  pub publish_items : List (RentPublishItem F) → V
  pub delist_items : List String → V
  pub read_published : Bytes → Reply (List PublishItemResult)
  pub read_delisted : Bytes → Reply (List DelistResult)

abbrev pub wrap_failed : {A : Type 0} → String → Reply A → Reply A
wrap_failed text (failed err) = failed (wrap text err)
wrap_failed text (replied a) = replied a

-- the decoding of the payload in `postOnce`, if there is one
abbrev pub decoded :
    {A : Type 0} → String → (Bytes → Reply (List A)) → Reply (Option Bytes) → Reply (List A)
decoded path read (failed err) = failed err
decoded path read (replied none) = replied []
decoded path read (replied (some [])) = replied []
decoded path read (replied (some (b ∷ bytes))) =
    wrap_failed (text_append "eco: " (text_append path " payload")) (read (b ∷ bytes))

-- the result of an item by its position
abbrev pub published_one : PublishItemResult → Result
published_one r = record { goods_ref = r.good_num; success = r.is_success; error = r.error_msg }

abbrev pub published_all : {F : Type 0} → List (Request F) → List PublishItemResult → List Result
published_all [] raws = []
published_all (it ∷ items) [] =
    record { goods_ref = ""; success = false; error = "" } ∷ published_all items []
published_all (it ∷ items) (r ∷ raws) = published_one r ∷ published_all items raws

abbrev pub repriced_all :
    {F : Type 0} → List (Reprice.Request F) → List PublishItemResult → List Result
repriced_all [] raws = []
repriced_all (it ∷ items) [] =
    record {
      goods_ref = it.goods_ref;
      success = false;
      error = "eco: missing per-item reprice result";
    }
    ∷ repriced_all items []
repriced_all (it ∷ items) (r ∷ raws) =
    record { goods_ref = it.goods_ref; success = r.is_success; error = r.error_msg }
    ∷ repriced_all items raws

abbrev pub partial : String → Error
partial text = record {
  text = text_append "platform: partial failure: " text;
  chain = partial_failure ∷ [];
}

abbrev pub counts_text : Json → ℕ → ℕ → String
counts_text j done total =
    text_append (Json.itoa j (pos done))
      (text_append "/" (text_append (Json.itoa j (pos total)) " reprice results returned"))

abbrev pub short_of :
    {F : Type 0}
    → Json
    → List (Reprice.Request F)
    → List PublishItemResult
    → Option Error
    → Option Error
short_of j items raws err =
    if not (eqb (length raws) (length items))
    then some (partial (counts_text j (length raws) (length items)))
    else err

-- `expected`: the references of a delisting, with whether a result has named them
abbrev pub expected_of : List String → List (String × Bool) → List (String × Bool)
expected_of [] m = m
expected_of (ref ∷ refs) m = expected_of refs (put m ref false)

abbrev pub first_non_empty : String → String → String
first_non_empty a b = if not (a == "") then a else b

-- PartialError
abbrev pub item_failed : DelistResult → Error
item_failed r = record {
  text =
      text_append "platform: item "
        (text_append (first_non_empty r.goods_num r.asset_id) (text_append ": " r.error_msg));
  chain = partial_failure ∷ [];
}

-- one result, with whether its reference is expected and has been named; `rest` is what the results after it give
abbrev pub judged : DelistResult → Option Bool → Option Error → Option Error
judged r none rest = some (partial "unexpected or duplicate delist result")
judged r (some true) rest = some (partial "unexpected or duplicate delist result")
judged r (some false) rest = if not r.is_success then some (item_failed r) else rest

unfoldable pub check_results : List (String × Bool) → List DelistResult → Option Error
check_results m [] = none
check_results m (r ∷ raws) =
    let rest = check_results (put m r.goods_num true) raws in judged r (lookup m r.goods_num) rest

abbrev pub delisted : List (String × Bool) → Reply (List DelistResult) → Option Error
delisted m (failed err) = some err
delisted m (replied raws) =
    if not (eqb (length raws) (length m))
    then some (partial "incomplete delist results")
    else check_results m raws

module _ {W V F : Type 0} where
  unfoldable pub publish_rent_and_sale :
      Client W V
      → Forms V F
      → W
      → String
      → ℕ
      → List (RentPublishItem F)
      → W × Reply (List PublishItemResult)
  unfolding post
  publish_rent_and_sale c f w steam_id publish_type items =
      let (w', r) =
        post c "/Api/Rent/PublishRentAndSaleGoods"
          (("SteamId", Client.text c steam_id)
            ∷ (("PublishType", Forms.number f publish_type)
                ∷ (("Assets", Forms.publish_items f items) ∷ [])))
          w in
      (w', decoded "/Api/Rent/PublishRentAndSaleGoods" (Forms.read_published f) r)

  unfoldable pub offshelf_rent_goods :
      Client W V → Forms V F → W → List String → W × Reply (List DelistResult)
  unfolding post
  offshelf_rent_goods c f w refs =
      let (w', r) =
        post c "/Api/Rent/OffshelfRentGoods" (("goodsNumList", Forms.delist_items f refs) ∷ []) w in
      (w', decoded "/Api/Rent/OffshelfRentGoods" (Forms.read_delisted f) r)

  -- Delist
  unfoldable pub delist : Client W V → Forms V F → W → List String → W × Option Error
  unfolding offshelf_rent_goods check_results
  delist c f w [] = (w, none)
  delist c f w (ref ∷ refs) =
      let (w', r) = offshelf_rent_goods c f w (ref ∷ refs) in
      (w', delisted (expected_of (ref ∷ refs) []) r)

  abbrev pub published :
      Client W V
      → (ℕ → String)
      → List (Request F)
      → W × Reply (List PublishItemResult)
      → W × (List Result × Option Error)
  published c itoa items (w, failed err) = (w, (published_all items [], some err))
  published c itoa items (w, replied raws) =
      (w, (published_all items raws, partial_if_any_failed itoa (published_all items raws)))

  abbrev pub repriced :
      Client W V
      → List (Reprice.Request F)
      → W × Reply (List PublishItemResult)
      → W × (List Result × Option Error)
  repriced c items (w, failed err) =
      (w, (repriced_all items [], short_of (Client.json c) items [] (some err)))
  repriced c items (w, replied raws) =
      (w, (repriced_all items raws, short_of (Client.json c) items raws none))

module _ {F : Type 0} ⦃double : Double F⦄ where
  abbrev pub larger : F → F → F
  larger v dep = if Double.lt double dep v then v else dep

  -- derivedDeposit of the adapter
  unfoldable pub publish_deposit : Request F → F
  unfolding round2
  publish_deposit it =
      let short = Double.mul double it.rent_price (Double.of_int double it.max_days) in
      let long = Double.mul double it.long_rent_price (Double.of_int double it.max_days) in
      let dep = larger short it.deposit in
      round2 (if Double.lt double zero_f it.long_rent_price then larger long dep else dep)

  -- an item with the sublet policy
  abbrev pub rent_item : String → F → F → ℤ → F → RentPublishItem F
  rent_item ref rent long days deposit = record {
    asset_id = ref;
    steam_game_id = "730";
    trade_types = trade_type_rent ∷ [];
    rent_price = rent;
    long_rent_price = if Double.lt double zero_f long then some long else none;
    rent_max_day = days;
    rent_deposits = deposit;
    support_sublet = sublet_on;
    sublet_pricing_method = sublet_pricing_dynamic;
  }

  abbrev pub publish_payload : List (Request F) → List (RentPublishItem F)
  publish_payload [] = []
  publish_payload (it ∷ items) =
      rent_item it.asset_ref it.rent_price it.long_rent_price it.max_days (publish_deposit it)
      ∷ publish_payload items

  abbrev pub reprice_payload : List (Reprice.Request F) → List (RentPublishItem F)
  reprice_payload [] = []
  reprice_payload (it ∷ items) =
      rent_item it.asset_ref it.rent_price it.long_rent_price it.max_days it.deposit
      ∷ reprice_payload items

module _ {W V F : Type 0} ⦃double : Double F⦄ where
  -- PublishLease
  unfoldable pub publish_lease :
      Client W V → Forms V F → String → W → List (Request F) → W × (List Result × Option Error)
  unfolding publish_rent_and_sale publish_deposit partial_if_any_failed
  publish_lease c f steam_id w items =
      published c (λ n. Json.itoa (Client.json c) (pos n)) items
        (publish_rent_and_sale c f w steam_id publish_type_add (publish_payload items))

  -- RepriceLease
  unfoldable pub reprice_lease :
      Client W V
      → Forms V F
      → String
      → W
      → List (Reprice.Request F)
      → W × (List Result × Option Error)
  unfolding publish_rent_and_sale
  reprice_lease c f steam_id w items =
      repriced c items
        (publish_rent_and_sale c f w steam_id publish_type_mod (reprice_payload items))
