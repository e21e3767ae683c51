-- ===== src/Delivery.antt =====
-- backend/internal/scheduler/eco_delivery.go: the fulfilment of ECO orders. The platform, Steam and the
-- clock are a type `W` of outside worlds with the calls that the job makes. The errors that are joined
-- are a list, also where a joined error is joined again.
pub mod Once
use rent_auto.Prelude.{
  ℕ, ◌+◌, String, Bool, true, false, not, ◌&&◌, ◌==◌, Option, none, some, List, [], ◌∷◌, ◌++◌, ltb,
  eqb, any, length, if◌then◌else◌, text_append, is_some,
}
use rent_auto.Domain.{Error, errors_is, unsupported}
use rent_auto.Risk.{risk_cooldown}

abbrev pub accepted_set_max : ℕ
accepted_set_max = 10000

-- an order of SellerOrderList, and one of SellerRentOrderList
pub record Sale : Type 0 where
  pub order_num : String
  pub order_state_code : ℕ

pub record RentDetail : Type 0 where
  pub offer_id : String
  pub send_offer_role : ℕ

-- what a call returns: an error or a value
pub data Reply (A : Type 0) : Type 0 where
  failed : Error → Reply A
  replied : A → Reply A

pub record Platform (W : Type 0) : Type 0 where
  pub seller_order_list : W → W × Reply (List Sale)
  pub send_offer : W → String → W × Option Error
  pub detail : W → String → W × Reply String
  pub seller_rent_order_list : W → W × Reply (List String)
  pub seller_rent_order_detail : W → String → W × Reply RentDetail
  pub accept_trade_offer : W → String → W × Reply Bool

-- `accepted` is d.accepted, `delivered` the offers of the audit entries order.delivered
pub record Run (W : Type 0) : Type 0 where
  pub world : W
  pub accepted : List String
  pub delivered : List String
  pub errs : List Error

abbrev pub wrap : String → String → Error → Error
wrap text id err = record {
  text = text_append text (text_append id (text_append ": " err.text));
  chain = err.chain;
}

abbrev pub is_risk : Error → Bool
is_risk err = ltb 0 (risk_cooldown err)

abbrev pub seen : String → List String → Bool
seen offer ids = any (λ x. x == offer) ids

-- d.accepted[offer] = true, and the reset of an overfull set
abbrev pub capped : String → List String → List String
capped offer ids = if ltb accepted_set_max (length ids) then offer ∷ [] else ids

abbrev pub insert : String → List String → List String
insert offer ids = if seen offer ids then ids else ids ++ (offer ∷ [])

module _ {W : Type 0} where
  unfoldable pub mark_accepted : String → Run W → Run W
  mark_accepted offer s = record s {
    accepted = capped offer (insert offer s.accepted);
    delivered = s.delivered ++ (offer ∷ []);
  }

  abbrev pub fail : Run W → Error → Run W
  fail s err = record s { errs = s.errs ++ (err ∷ []) }

  -- after AcceptTradeOffer
  abbrev pub answered : String → String → W × Reply Bool → Run W → Run W
  answered what offer (w, failed err) s = fail (record s { world = w }) (wrap what offer err)
  answered what offer (w, replied ok) s =
      if ok then mark_accepted offer (record s { world = w }) else record s { world = w }

  unfoldable pub take_offer : Platform W → String → String → Run W → Run W
  unfolding mark_accepted
  take_offer p what offer s =
      if seen offer s.accepted
      then s
      else answered what offer (Platform.accept_trade_offer p s.world offer) s

  -- an error of a call on one order; `true` ends the run, on a risk signal
  abbrev pub gave_up : Run W → W → Error → Error → Run W × Bool
  gave_up s w cause err = (fail (record s { world = w }) err, is_risk cause)

  abbrev pub with_offer : Platform W → String → W × Reply String → Run W → Run W × Bool
  with_offer p num (w, failed err) s = gave_up s w err (wrap "eco order detail " num err)
  with_offer p num (w, replied offer) s =
      let s' = record s { world = w } in
      if offer == "" then (s', false) else (take_offer p "steam accept " offer s', false)

  abbrev pub after_send : Platform W → String → W × Option Error → Run W → Run W × Bool
  after_send p num (w, some err) s = gave_up s w err (wrap "eco send offer " num err)
  after_send p num (w, none) s =
      let s' = record s { world = w } in with_offer p num (Platform.detail p s'.world num) s'

  -- one round of the loop over the sale orders
  unfoldable pub deliver_sale : Platform W → Sale → Run W → Run W × Bool
  unfolding take_offer
  deliver_sale p o s =
      if eqb o.order_state_code 1
      then after_send p o.order_num (Platform.send_offer p s.world o.order_num) s
      else with_offer p o.order_num (Platform.detail p s.world o.order_num) s

  abbrev pub rent_sent : String → W × Option Error → Run W → Run W × Bool
  rent_sent num (w, none) s = (record s { world = w }, false)
  rent_sent num (w, some err) s = gave_up s w err (wrap "eco rent send offer " num err)

  abbrev pub with_rent : Platform W → String → W × Reply RentDetail → Run W → Run W × Bool
  with_rent p num (w, failed err) s = gave_up s w err (wrap "eco rent detail " num err)
  with_rent p num (w, replied d) s =
      let s' = record s { world = w } in
      if d.offer_id == ""
      then if eqb d.send_offer_role 2
        then rent_sent num (Platform.send_offer p w num) s'
        else (s', false)
      else (take_offer p "steam accept rent " d.offer_id s', false)

  unfoldable pub deliver_rent : Platform W → String → Run W → Run W × Bool
  unfolding take_offer
  deliver_rent p num s = with_rent p num (Platform.seller_rent_order_detail p s.world num) s

  -- a loop that a round can end
  unfoldable pub each : {A : Type 0} → (A → Run W → Run W × Bool) → List A → Run W → Run W × Bool
  each f [] s = (s, false)
  each f (x ∷ xs) s =
      let (t, stop) = f x s in let rest = each f xs t in if stop then (t, true) else rest

  abbrev pub rents_listed : Platform W → W × Reply (List String) → Run W → Run W
  rents_listed p (w, failed err) s =
      if errors_is err.chain unsupported
      then record s { world = w }
      else fail (record s { world = w }) (wrap "eco: rent order list" "" err)
  rents_listed p (w, replied nums) s = (each (deliver_rent p) nums (record s { world = w })).0

  unfoldable pub run_rent_delivery : Platform W → Run W → Run W
  unfolding each deliver_rent
  run_rent_delivery p s = rents_listed p (Platform.seller_rent_order_list p s.world) s

  -- the rent pass, unless a risk signal has ended the run
  abbrev pub then_rents : Platform W → Run W × Bool → Run W
  then_rents p (s, stop) = if stop then s else run_rent_delivery p s

  abbrev pub sales_listed : Platform W → W × Reply (List Sale) → Run W → Run W
  sales_listed p (w, failed err) s =
      if errors_is err.chain unsupported
      then record s { world = w }
      else fail (record s { world = w }) (wrap "eco: order list" "" err)
  sales_listed p (w, replied orders) s =
      then_rents p (each (deliver_sale p) orders (record s { world = w }))

  -- `RunECODelivery`
  unfoldable pub run_eco_delivery : Platform W → Run W → Run W
  unfolding each deliver_sale run_rent_delivery
  run_eco_delivery p s = sales_listed p (Platform.seller_order_list p s.world) s
