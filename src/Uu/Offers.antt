-- ===== src/Uu/Offers.antt =====
-- backend/internal/platform/uu/delivery.go: sending the trade offers of the rental orders that are paid.
pub mod Confirmed
use rent_auto.Prelude.{
  ℕ, zero, suc, ◌+◌, String, Bool, true, false, not, ◌&&◌, ◌||◌, ◌==◌, Option, none, some, List, [],
  ◌∷◌, ◌++◌, ℤ, pos, eqb, eqb_ℤ, if◌then◌else◌, text_append,
}
use rent_auto.Domain.{
  Error, errors_is, auth_expired, rate_limited, platform_blocked, uk_expired, captcha_required,
  version_blocked,
}
use rent_auto.Recon.Execute.{plain, wrap}
use rent_auto.Delivery.{Reply, failed, replied}
use rent_auto.Uu.{Json}
use rent_auto.Uu.Endpoints.{
  Client, TodoOrder, send_delivery_offer, get_delivery_offer_status, get_wait_deliver_list,
}

abbrev pub msg_wait_send_offer : String
msg_wait_send_offer = "有买家下单，待您发送报价"

abbrev pub msg_gift : String
msg_gift = "赠送"

abbrev pub stops_polling : Error → Bool
stops_polling err =
    errors_is err.chain auth_expired
    || (errors_is err.chain rate_limited
        || (errors_is err.chain platform_blocked
            || (errors_is err.chain uk_expired
                || (errors_is err.chain captcha_required || errors_is err.chain version_blocked))))

-- strings.Contains, `pollInterval` and ctx.Err
pub record Polling (W : Type 0) : Type 0 where
  pub contains : String → String → Bool
  pub pause : W → W
  pub context_err : W → Option Error

-- how the polls of one order ended; `unpolled` if none was asked for
pub data Ending : Type 0 where
  unpolled confirmed : Ending
  stopped : Error → Ending

abbrev pub unconfirmed_text : Json → String → ℕ → String
unconfirmed_text j ref attempts = text_append "uu: offer " (
    text_append ref
      (text_append " not confirmed after " (text_append (Json.itoa j (pos attempts)) " polls")))

abbrev pub unconfirmed : Json → String → ℕ → Reply ℤ → Error
unconfirmed j ref attempts (failed err) = wrap (unconfirmed_text j ref attempts) err
unconfirmed j ref attempts (replied st) = plain (
    text_append (unconfirmed_text j ref attempts)
      (text_append " (last=" (text_append (Json.itoa j st) ")")))

abbrev pub stops : Reply ℤ → Option Error
stops (failed err) = if stops_polling err then some err else none
stops (replied st) = none

abbrev pub is_sent : Reply ℤ → Bool
is_sent (failed err) = false
is_sent (replied st) = eqb_ℤ st (pos 3)

-- the verdict on one poll, with what the polls after it give, or `none` if it was the last one
abbrev pub judged :
    {W : Type 0} → Json → String → ℕ → W → Reply ℤ → Option Error → Option (W × Ending) → W × Ending
judged j ref attempts w r (some err) later =
    (w, stopped (wrap (text_append "uu: offer " (text_append ref " polling stopped")) err))
judged j ref attempts w r none none =
    if is_sent r then (w, confirmed) else (w, stopped (unconfirmed j ref attempts r))
judged j ref attempts w r none (some later) = if is_sent r then (w, confirmed) else later

-- sent, gifts
pub record Round (W : Type 0) : Type 0 where
  pub world : W
  pub sent : List String
  pub gifts : ℕ

abbrev pub is_gift : {W : Type 0} → Polling W → TodoOrder → Bool
is_gift p t = Polling.contains p t.message msg_gift

-- the rest of the loop after the polls of one order; `go_on` takes the orders that are left
abbrev pub settled :
    {W : Type 0}
    → String
    → Round W
    → (Round W → Round W × Option Error)
    → W × Ending
    → Round W × Option Error
settled ref s go_on (w, unpolled) = go_on (record s { world = w })
settled ref s go_on (w, confirmed) = go_on (record s { world = w; sent = s.sent ++ (ref ∷ []) })
settled ref s go_on (w, stopped err) = (record s { world = w }, some err)

module _ {W F : Type 0} where
  abbrev pub polled : Client W F → String → ℕ → W × Reply ℤ → (W → Option (W × Ending)) → W × Ending
  polled c ref attempts (w, r) later = judged (Client.json c) ref attempts w r (stops r) (later w)

  abbrev pub in_context :
      Client W F → String → ℕ → W → Option Error → (W → Option (W × Ending)) → W × Ending
  in_context c ref attempts w (some err) later = (w, stopped err)
  in_context c ref attempts w none later =
      polled c ref attempts (get_delivery_offer_status c w ref) later

  -- the polls of one order that are left
  unfoldable pub poll : Client W F → Polling W → String → ℕ → ℕ → W → W × Ending
  unfolding get_delivery_offer_status
  poll c p ref attempts zero w = (w, unpolled)
  poll c p ref attempts (suc zero) w =
      let w' = Polling.pause p w in
      in_context c ref attempts w' (Polling.context_err p w') (λ v. none)
  poll c p ref attempts (suc (suc left)) w =
      let w' = Polling.pause p w in
      in_context c ref attempts w' (Polling.context_err p w')
        (λ v. some (poll c p ref attempts (suc left) v))

  abbrev pub offered :
      Client W F
      → Polling W
      → ℕ
      → String
      → Round W
      → (Round W → Round W × Option Error)
      → W × Option Error
      → Round W × Option Error
  offered c p attempts ref s go_on (w, some err) =
      (record s { world = w }, some (wrap (text_append "uu: send offer " ref) err))
  offered c p attempts ref s go_on (w, none) =
      settled ref s go_on (poll c p ref attempts attempts w)

  unfoldable pub deliver_from :
      Client W F → Polling W → ℕ → List TodoOrder → Round W → Round W × Option Error
  unfolding poll send_delivery_offer
  deliver_from c p attempts [] s = (s, none)
  deliver_from c p attempts (t ∷ todos) s =
      let go_on : Round W → Round W × Option Error = λ r. deliver_from c p attempts todos r in
      if is_gift p t
      then go_on (record s { gifts = s.gifts + 1 })
      else if not (t.message == msg_wait_send_offer)
      then go_on s
      else offered c p attempts t.order_no s go_on (send_delivery_offer c s.world t.order_no)

  abbrev pub deliver_listed :
      Client W F → Polling W → ℕ → W × Reply (List TodoOrder) → Round W × Option Error
  deliver_listed c p attempts (w, failed err) =
      (record { world = w; sent = []; gifts = 0 }, some err)
  deliver_listed c p attempts (w, replied todos) =
      deliver_from c p attempts todos (record { world = w; sent = []; gifts = 0 })

  -- DeliverPendingRentals
  unfoldable pub deliver_pending_rentals : Client W F → Polling W → ℕ → W → Round W × Option Error
  unfolding deliver_from get_wait_deliver_list
  deliver_pending_rentals c p attempts w = deliver_listed c p attempts (get_wait_deliver_list c w)
