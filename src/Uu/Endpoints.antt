-- ===== src/Uu/Endpoints.antt =====
-- backend/internal/platform/uu/endpoints.go: the calls that the adapter and the delivery make. The payload of a
-- call is what varies in its JSON document; json.Unmarshal of the replies is a record of functions.
use rent_auto.Prelude.{
  ℕ, zero, suc, ◌+◌, String, Bool, true, false, Option, none, some, List, [], ◌∷◌, ◌++◌, ℤ, pos,
  ltb, length, if◌then◌else◌, text_append,
}
use rent_auto.Domain.{Error}
use rent_auto.Recon.Execute.{wrap}
use rent_auto.Delivery.{Reply, failed, replied}
use rent_auto.Uu.{Bytes, Transport, Json, Envelope, call_env}

abbrev pub max_list_pages : ℕ
max_list_pages = 500

-- OnLeaseItem and ChangeLeaseItem; the deposit is a string on the wire
pub record OnLeaseItem (F : Type 0) : Type 0 where
  pub asset_id : ℤ
  pub is_can_lease : Bool
  pub is_can_sold : Bool
  pub lease_deposit : String
  pub lease_max_days : ℤ
  pub lease_unit_price : F
  pub long_lease_unit_price : Option F
  pub compensation_type : Option ℕ

pub record ChangeLeaseItem (F : Type 0) : Type 0 where
  pub commodity_id : ℤ
  pub is_can_lease : Bool
  pub is_can_sold : Bool
  pub lease_deposit : String
  pub lease_max_days : ℤ
  pub lease_unit_price : F
  pub long_lease_unit_price : Option F
  pub compensation_type : ℕ

-- PublishResultRaw, changeFailInfo, TodoOrder, and the reply of PriceChangeWithLeaseV2
pub record PublishResultRaw : Type 0 where
  pub asset_id : ℤ
  pub status : ℤ
  pub remark : String
  pub commodity_id : ℤ

pub record ChangeFailInfo : Type 0 where
  pub commodity_id : ℤ
  pub is_success : ℤ
  pub message : String

pub record ChangeReply : Type 0 where
  pub success_count : ℤ
  pub commoditys : List ChangeFailInfo

pub record TodoOrder : Type 0 where
  pub order_no : String
  pub commodity_name : String
  pub message : String

pub data Payload (F : Type 0) : Type 0 where
  publish_items : List (OnLeaseItem F) → Payload F
  prechange : List String → Payload F
  price_change : List (ChangeLeaseItem F) → Payload F
  off_shelf_ids : String → Payload F
  todo_page : ℕ → Payload F
  offer_order : String → Payload F
  zero_cd_ids : List ℤ → Payload F

-- json.Unmarshal of the payload of an envelope; a payload that is missing, or null, for the to-do list
-- is `none`
pub record Readers : Type 0 where
  pub read_results : Option Bytes → Reply (List PublishResultRaw)
  pub read_change : Option Bytes → Reply ChangeReply
  pub read_todos : Bytes → Reply (List TodoOrder)
  pub read_status : Option Bytes → Reply ℤ
  pub is_empty_or_null : Bytes → Bool

-- a client, with strconv.ParseInt and strconv.FormatFloat
pub record Client (W F : Type 0) : Type 0 where
  pub transport : Transport W (Payload F)
  pub json : Json
  pub readers : Readers
  pub parse_int : String → Reply ℤ
  pub format_float : F → String

abbrev pub wrap_reply : {A : Type 0} → String → Reply A → Reply A
wrap_reply text (failed err) = failed (wrap text err)
wrap_reply text (replied a) = replied a

abbrev pub set_compensation : {F : Type 0} → ℕ → List (OnLeaseItem F) → List (OnLeaseItem F)
set_compensation k [] = []
set_compensation k (it ∷ items) =
    record it { compensation_type = some k } ∷ set_compensation k items

abbrev pub set_change : {F : Type 0} → ℕ → List (ChangeLeaseItem F) → List (ChangeLeaseItem F)
set_change k [] = []
set_change k (it ∷ items) =
    record it { compensation_type = k; is_can_lease = true; is_can_sold = false }
    ∷ set_change k items

abbrev pub commodity_texts : {F : Type 0} → Json → List (ChangeLeaseItem F) → List String
commodity_texts j [] = []
commodity_texts j (it ∷ items) = Json.itoa j it.commodity_id ∷ commodity_texts j items

abbrev pub joined_ids : List String → String
joined_ids [] = ""
joined_ids (x ∷ []) = x
joined_ids (x ∷ (y ∷ ids)) = text_append x (text_append "," (joined_ids (y ∷ ids)))

abbrev pub read_as : {A : Type 0} → String → (Option Bytes → Reply A) → Reply Envelope → Reply A
read_as text read (failed err) = failed err
read_as text read (replied e) = wrap_reply text (read e.payload)

abbrev pub no_reply : Reply Envelope → Option Error
no_reply (failed err) = some err
no_reply (replied e) = none

abbrev pub changed_prices : Reply ChangeReply → Reply (ℤ × List ChangeFailInfo)
changed_prices (failed err) = failed err
changed_prices (replied d) = replied (d.success_count, d.commoditys)

-- the page that was read, with what reads the pages after it
abbrev pub page_read :
    {W : Type 0}
    → List TodoOrder
    → (W → List TodoOrder → W × Reply (List TodoOrder))
    → W × Reply (List TodoOrder)
    → W × Reply (List TodoOrder)
page_read out go_on (w, failed err) = (w, failed err)
page_read out go_on (w, replied xs) =
    if ltb (length xs) 20 then (w, replied (out ++ xs)) else go_on w (out ++ xs)

module _ {W F : Type 0} where
  abbrev pub call : Client W F → W → String → String → Payload F → String → W × Reply Envelope
  call c w method path payload what =
      call_env (Client.transport c) (Client.json c) w method path payload what

  unfoldable pub put_items_on_lease_shelf :
      Client W F → W → List (OnLeaseItem F) → ℕ → W × Reply (List PublishResultRaw)
  unfolding call_env
  put_items_on_lease_shelf c w items k =
      let (w', r) =
        call c w "POST" "/api/commodity/Inventory/SellInventoryWithLeaseV2"
          (publish_items (set_compensation k items)) "publish" in
      (w', read_as "uu: publish payload" (Readers.read_results (Client.readers c)) r)

  -- what follows the pre-change call
  abbrev pub change_after_init :
      Client W F
      → List (ChangeLeaseItem F)
      → ℕ
      → W × Reply Envelope
      → W × Reply (ℤ × List ChangeFailInfo)
  change_after_init c items k (w, failed err) = (w, failed (wrap "uu: prechange init" err))
  change_after_init c items k (w, replied e) =
      let (w', r) =
        call c w "PUT" "/api/commodity/Commodity/PriceChangeWithLeaseV2"
          (price_change (set_change k items)) "reprice" in
      (
        w',
        changed_prices (read_as "uu: reprice payload" (Readers.read_change (Client.readers c)) r),
      )

  unfoldable pub change_lease_prices :
      Client W F → W → List (ChangeLeaseItem F) → ℕ → W × Reply (ℤ × List ChangeFailInfo)
  unfolding call_env
  change_lease_prices c w [] k = (w, replied (pos 0, []))
  change_lease_prices c w (it ∷ items) k = change_after_init c (it ∷ items) k (
      call c w "POST" "/api/youpin/bff/new/commodity/commodity/change/price/v3/init/info"
        (prechange (commodity_texts (Client.json c) (it ∷ items))) "prechange init")

  unfoldable pub off_shelf : Client W F → W → List String → W × Option Error
  unfolding call_env
  off_shelf c w ids =
      let (w', r) =
        call c w "PUT" "/api/commodity/Commodity/OffShelf" (off_shelf_ids (joined_ids ids))
          "offshelf" in
      (w', no_reply r)

  unfoldable pub enable_zero_cd : Client W F → W → List ℤ → W × Option Error
  unfolding call_env
  enable_zero_cd c w ids =
      let (w', r) =
        call c w "POST" "/api/youpin/bff/order/sublet/open" (zero_cd_ids ids) "zerocd-open" in
      (w', no_reply r)

  unfoldable pub send_delivery_offer : Client W F → W → String → W × Option Error
  unfolding call_env
  send_delivery_offer c w order_no =
      let (w', r) =
        call c w "PUT" "/api/youpin/bff/trade/v1/order/sell/delivery/send-offer"
          (offer_order order_no) "send-offer" in
      (w', no_reply r)

  unfoldable pub get_delivery_offer_status : Client W F → W → String → W × Reply ℤ
  unfolding call_env
  get_delivery_offer_status c w order_no =
      let (w', r) =
        call c w "POST" "/api/youpin/bff/trade/v1/order/sell/delivery/get-offer-status"
          (offer_order order_no) "get-offer-status" in
      (w', read_as "uu: offer status payload" (Readers.read_status (Client.readers c)) r)

  abbrev pub todos_in : Client W F → Option Bytes → Reply (List TodoOrder)
  todos_in c none = replied []
  todos_in c (some b) =
      if Readers.is_empty_or_null (Client.readers c) b
      then replied []
      else Readers.read_todos (Client.readers c) b

  abbrev pub todo_list : Client W F → W → ℕ → W × Reply (List TodoOrder)
  todo_list c w page =
      let (w', r) =
        call c w "POST" "/api/youpin/bff/trade/todo/v1/orderTodo/list" (todo_page page)
          "orderTodo/list" in
      (w', read_as "uu: orderTodo payload" (todos_in c) r)

  -- the loop over the pages; `left` is the number of pages up to the limit
  unfoldable pub todos_from : Client W F → ℕ → ℕ → W → List TodoOrder → W × Reply (List TodoOrder)
  unfolding call_env
  todos_from c zero page w out = (w, replied out)
  todos_from c (suc left) page w out =
      page_read out (λ w' out'. todos_from c left (page + 1) w' out') (todo_list c w page)

  unfoldable pub get_wait_deliver_list : Client W F → W → W × Reply (List TodoOrder)
  unfolding todos_from
  get_wait_deliver_list c w = todos_from c max_list_pages 1 w []
