-- ===== src/Uu/Lists.antt =====
-- backend/internal/platform/uu/endpoints.go: the lists that are read, page by page where they have pages.
-- A query is what varies in the JSON document of a call; json.Unmarshal of the replies and strconv.ParseFloat
-- are functions.
pub mod Market
pub mod Whole
use rent_auto.Prelude.{
  ℕ, zero, suc, ◌+◌, String, Bool, true, false, not, ◌&&◌, ◌==◌, Option, none, some, List, [], ◌∷◌,
  ◌++◌, ℤ, pos, eqb, eqb_ℤ, ltb, length, if◌then◌else◌, text_append,
}
use rent_auto.Domain.{Error}
use rent_auto.Recon.Execute.{plain, wrap}
use rent_auto.Delivery.{Reply, failed, replied}
use rent_auto.Uu.{
  Bytes, Transport, Json, Envelope, do_call, decoded, check_env, decode_envelope, call_env,
}
use rent_auto.Uu.Endpoints.{max_list_pages, read_as}

pub record InventoryItem (F : Type 0) : Type 0 where
  pub steam_asset_id : String
  pub asset_status : ℤ
  pub tradable : Bool
  pub shot_name : String
  pub template_id : ℤ
  pub mark_price : F
  pub market_hash_name : String

pub record LeaseShelfItem : Type 0 where
  pub id : ℤ
  pub steam_asset_id : String
  pub template_id : ℤ
  pub name : String
  pub deposit_amount : String
  pub short_lease_amount : String
  pub long_lease_amount : String
  pub lease_max_days : ℤ
  pub commodity_can_sell : Bool
  pub commodity_can_lease : Bool

pub record MarketLeaseItem : Type 0 where
  pub commodity_name : String
  pub lease_unit_price : Option String
  pub long_lease_unit_price : Option String
  pub lease_deposit : Option String

pub record LeasedOutOrder : Type 0 where
  pub order_id : String
  pub asset_id : String
  pub name : String
  pub steam_asset_id : String
  pub goods_id : ℤ
  pub order_status : ℤ
  pub lease_days : ℤ
  pub rent_price : String
  pub deposit : String
  pub start_time : String
  pub end_time : String

pub record ZeroCdOrder : Type 0 where
  pub order_id : ℤ
  pub name : String

pub data Query : Type 0 where
  inventory_query : ℕ → Bool → Query
  shelf_query : ℕ → Query
  market_query : ℤ → Query
  order_query : ℕ → Query
  zero_cd_query : Query

-- a client; the list of an inventory may be missing in its reply
pub record Reader (W F : Type 0) : Type 0 where
  pub transport : Transport W Query
  pub json : Json
  pub read_inventory : Option Bytes → Reply (Option (List (InventoryItem F)))
  pub read_shelf : Option Bytes → Reply (List LeaseShelfItem)
  pub read_market : Option Bytes → Reply (List MarketLeaseItem)
  pub read_orders : Option Bytes → Reply (List LeasedOutOrder)
  pub read_zero_cd : Option Bytes → Reply (List ZeroCdOrder)
  -- the value that ParseFloat returns, also beside an error
  pub parse_float : String → F

abbrev pub page_size : ℕ
page_size = 1000

-- the code of an empty shelf
abbrev pub code_empty_shelf : ℤ
code_empty_shelf = pos 9004001

-- a page, with whether the loop goes on
abbrev pub full : {A : Type 0} → ℕ → List A → List A × Bool
full size xs = (xs, not (ltb (length xs) size))

abbrev pub paged_reply : {A : Type 0} → ℕ → Reply (List A) → Reply (List A × Bool)
paged_reply size (failed err) = failed err
paged_reply size (replied xs) = replied (full size xs)

abbrev pub page_done :
    {W A : Type 0}
    → (W → List A → W × Reply (List A))
    → List A
    → W × Reply (List A × Bool)
    → W × Reply (List A)
page_done go_on out (w, failed err) = (w, failed err)
page_done go_on out (w, replied (xs, true)) = go_on w (out ++ xs)
page_done go_on out (w, replied (xs, false)) = (w, replied (out ++ xs))

-- the loops over pages: `left` is the number of pages up to the limit, and `limit` what the loop gives there
unfoldable pub paged :
    {W A : Type 0}
    → (ℕ → W → W × Reply (List A × Bool))
    → (List A → Reply (List A))
    → ℕ
    → ℕ
    → W
    → List A
    → W × Reply (List A)
paged read limit zero page w out = (w, limit out)
paged read limit (suc left) page w out =
    page_done (λ w' o. paged read limit left (page + 1) w' o) out (read page w)

abbrev pub listed_items :
    {F : Type 0} → Reply (Option (List (InventoryItem F))) → Reply (List (InventoryItem F))
listed_items (failed err) = failed err
listed_items (replied none) = failed (plain "uu: inventory missing ItemsInfos")
listed_items (replied (some xs)) = replied xs

abbrev pub too_many_pages : {F : Type 0} → List (InventoryItem F) → Reply (List (InventoryItem F))
too_many_pages out = failed (plain "uu: inventory exceeds page limit 500")

-- an empty shelf ends the loop before the code is checked
abbrev pub shelf_checked : Json → String → Reply Envelope → Reply (Option Envelope)
shelf_checked j path (failed err) = failed err
shelf_checked j path (replied e) =
    if eqb_ℤ e.code code_empty_shelf then replied none else some_checked (check_env j e path)
  where
    some_checked : Option Error → Reply (Option Envelope)
    some_checked (some err) = failed err
    some_checked none = replied (some e)

abbrev pub shelf_read :
    String
    → (Option Bytes → Reply (List LeaseShelfItem))
    → Reply (Option Envelope)
    → Reply (List LeaseShelfItem × Bool)
shelf_read path read (failed err) = failed err
shelf_read path read (replied none) = replied ([], false)
shelf_read path read (replied (some e)) =
    paged_reply 100 (read_as (text_append "uu: " (text_append path " payload")) read (replied e))

abbrev pub shelf_paths : Bool → List String
shelf_paths true =
    "/api/youpin/bff/new/commodity/v1/commodity/list/lease"
    ∷ ("/api/youpin/bff/new/commodity/v1/commodity/list/zeroCDLease" ∷ [])
shelf_paths false = "/api/youpin/bff/new/commodity/v1/commodity/list/lease" ∷ []

abbrev pub next_shelf :
    {W : Type 0}
    → (W → List LeaseShelfItem → W × Reply (List LeaseShelfItem))
    → W × Reply (List LeaseShelfItem)
    → W × Reply (List LeaseShelfItem)
next_shelf go_on (w, failed err) = (w, failed err)
next_shelf go_on (w, replied out) = go_on w out

-- AssetRef
unfoldable pub asset_ref : LeasedOutOrder → String
asset_ref o = if not (o.asset_id == "") then o.asset_id else o.steam_asset_id

module _ {W F : Type 0} where
  unfoldable pub inventory_page :
      Reader W F → Bool → ℕ → W → W × Reply (List (InventoryItem F) × Bool)
  unfolding call_env
  inventory_page c refresh page w =
      let (w', r) =
        call_env (Reader.transport c) (Reader.json c) w "POST"
          "/api/commodity/Inventory/GetUserInventoryDataListV3"
          (inventory_query page (refresh && eqb page 1)) "inventory" in
      (
        w',
        paged_reply page_size
            (listed_items (read_as "uu: inventory payload" (Reader.read_inventory c) r)),
      )

  unfoldable pub get_inventory : Reader W F → Bool → W → W × Reply (List (InventoryItem F))
  unfolding paged
  get_inventory c refresh w = paged (inventory_page c refresh) too_many_pages max_list_pages 1 w []

  unfoldable pub shelf_page : Reader W F → String → ℕ → W → W × Reply (List LeaseShelfItem × Bool)
  unfolding do_call decode_envelope check_env
  shelf_page c path page w =
      let (w', r) =
        do_call (Reader.transport c) (Reader.json c) w "POST" path (some (shelf_query page)) in
      (
        w',
        shelf_read path (Reader.read_shelf c)
            (shelf_checked (Reader.json c) path (decoded (Reader.json c) r)),
      )

  unfoldable pub shelves :
      Reader W F → List String → W → List LeaseShelfItem → W × Reply (List LeaseShelfItem)
  unfolding paged
  shelves c [] w out = (w, replied out)
  shelves c (path ∷ paths) w out =
      next_shelf (λ w' o. shelves c paths w' o)
        (paged (shelf_page c path) (λ o. replied o) max_list_pages 1 w out)

  unfoldable pub list_lease_shelf : Reader W F → Bool → W → W × Reply (List LeaseShelfItem)
  unfolding shelves
  list_lease_shelf c include_zero_cd w = shelves c (shelf_paths include_zero_cd) w []

  unfoldable pub orders_page : Reader W F → ℕ → W → W × Reply (List LeasedOutOrder × Bool)
  unfolding call_env
  orders_page c page w =
      let (w', r) =
        call_env (Reader.transport c) (Reader.json c) w "POST"
          "/api/youpin/bff/trade/v1/order/lease/out/list" (order_query page) "leased-out" in
      (w', paged_reply 50 (read_as "uu: leased-out payload" (Reader.read_orders c) r))

  unfoldable pub get_leased_out_orders : Reader W F → W → W × Reply (List LeasedOutOrder)
  unfolding paged
  get_leased_out_orders c w = paged (orders_page c) (λ out. replied out) max_list_pages 1 w []

  unfoldable pub get_zero_cd_list : Reader W F → W → W × Reply (List ZeroCdOrder)
  unfolding call_env
  get_zero_cd_list c w =
      let (w', r) =
        call_env (Reader.transport c) (Reader.json c) w "POST"
          "/api/youpin/bff/trade/v1/order/lease/sublet/canEnable/list" zero_cd_query
          "zerocd-list" in
      (w', read_as "uu: zerocd-list payload" (Reader.read_zero_cd c) r)
