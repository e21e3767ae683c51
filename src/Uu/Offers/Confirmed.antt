-- ===== src/Uu/Offers/Confirmed.antt =====
-- Which offers count as sent.
use rent_auto.Prelude.{
  ℕ, ℤ, zero, suc, ◌+◌, ◌<◌, ◌≡◌, ◌≢◌, refl, ◌∙◌, String, Bool, not, ◌&&◌, ◌==◌, Option, none, some,
  List, [], ◌∷◌, ◌++◌, Bool-cases, inl, inr, arith, if◌then◌else◌, append_assoc,
}
use rent_auto.Domain.{Error}
use rent_auto.Delivery.{Reply, replied}
use rent_auto.Uu.{Json}
use rent_auto.Uu.Endpoints.{
  Client, TodoOrder, send_delivery_offer, get_delivery_offer_status, get_wait_deliver_list,
}
use rent_auto.Uu.Offers.{
  Polling, Round, Ending, unpolled, confirmed, stopped, is_gift, msg_wait_send_offer, stops,
  is_sent, judged, in_context, poll, settled, offered, deliver_from, deliver_listed,
  deliver_pending_rentals,
}

-- the orders that are paid and wait for an offer, and the number of gifts
abbrev pub is_payable : {W : Type 0} → Polling W → TodoOrder → Bool
is_payable p t = not (is_gift p t) && t.message == msg_wait_send_offer

abbrev pub payable_numbers : {W : Type 0} → Polling W → List TodoOrder → List String
payable_numbers p [] = []
payable_numbers p (t ∷ todos) =
    if is_payable p t then t.order_no ∷ payable_numbers p todos else payable_numbers p todos

abbrev pub gift_count : {W : Type 0} → Polling W → List TodoOrder → ℕ
gift_count p [] = 0
gift_count p (t ∷ todos) = if is_gift p t then gift_count p todos + 1 else gift_count p todos

abbrev NotUnpolled : {W : Type 0} → Option (W × Ending) → Type 0
NotUnpolled none = Unit
NotUnpolled (some e) = e.1 ≢ unpolled

judged-NotUnpolled :
    {W : Type 0} (j : Json) (ref : String) (attempts : ℕ) (w : W) (r : Reply ℤ) (o : Option Error)
    (later : Option (W × Ending))
    → NotUnpolled later
    → (judged j ref attempts w r o later).1 ≢ unpolled
judged-NotUnpolled j ref attempts w r (some err) later h = λ q. cc
judged-NotUnpolled j ref attempts w r none none h = elim (Bool-cases (is_sent r)) [
  | inl s ↦ simp s (λ q. cc)
  | inr s ↦ simp s (λ q. cc)
]
judged-NotUnpolled j ref attempts w r none (some e) h = elim (Bool-cases (is_sent r)) [
  | inl s ↦ simp s (λ q. cc)
  | inr s ↦ simp s h
]

-- the sent orders are those of `s` and then the first ones of `nos`: all, if there is no error
abbrev Sends : {W : Type 0} → List String → Round W → ℕ → Round W × Option Error → Type 0
Sends nos s gifts (t, err) =
    (rest : List String) × (t.sent ++ rest ≡ s.sent ++ nos)
    × (err ≡ none → (rest ≡ []) × (t.gifts ≡ s.gifts + gifts))

Sends-settled :
    {W : Type 0} (ref : String) (nos : List String) (s : Round W) (gifts : ℕ)
    (go_on : Round W → Round W × Option Error) (r : W × Ending)
    → r.1 ≢ unpolled
    → ((q : Round W) → Sends nos q gifts (go_on q))
    → Sends (ref ∷ nos) s gifts (settled ref s go_on r)
Sends-settled ref nos s gifts go_on (w, unpolled) h f = absurd (h refl)
Sends-settled ref nos s gifts go_on (w, stopped err) h f = (ref ∷ nos, refl, λ q. cc)
Sends-settled ref nos s gifts go_on (w, confirmed) h f =
    let (rest, e, k) = f (record s { world = w; sent = s.sent ++ (ref ∷ []) }) in
    (rest, e ∙ append_assoc s.sent (ref ∷ []) nos, k)

module _ {W F : Type 0} where
  in_context-NotUnpolled :
      (c : Client W F) (ref : String) (attempts : ℕ) (w : W) (o : Option Error)
      (later : W → Option (W × Ending))
      → ((v : W) → NotUnpolled (later v))
      → (in_context c ref attempts w o later).1 ≢ unpolled
  in_context-NotUnpolled c ref attempts w (some err) later h = λ q. cc
  in_context-NotUnpolled c ref attempts w none later h =
      let r = get_delivery_offer_status c w ref in
      judged-NotUnpolled (Client.json c) ref attempts r.0 r.1 (stops r.1) (later r.0) (h r.0)

  poll-not_unpolled :
      (c : Client W F) (p : Polling W) (ref : String) (attempts left : ℕ) (w : W)
      → (poll c p ref attempts (suc left) w).1 ≢ unpolled
  unfolding poll
  poll-not_unpolled c p ref attempts zero w = in_context-NotUnpolled c ref attempts _ _ _ (λ v. tt)
  poll-not_unpolled c p ref attempts (suc left) w =
      in_context-NotUnpolled c ref attempts _ _ _ (λ v. poll-not_unpolled c p ref attempts left v)

  Sends-offered :
      (c : Client W F) (p : Polling W) (attempts : ℕ) (ref : String) (nos : List String)
      (s : Round W) (gifts : ℕ) (go_on : Round W → Round W × Option Error) (r : W × Option Error)
      → ((q : Round W) → Sends nos q gifts (go_on q))
      → Sends (ref ∷ nos) s gifts (offered c p (suc attempts) ref s go_on r)
  Sends-offered c p attempts ref nos s gifts go_on (w, some err) f = (ref ∷ nos, refl, λ q. cc)
  Sends-offered c p attempts ref nos s gifts go_on (w, none) f =
      Sends-settled ref nos s gifts go_on (poll c p ref (suc attempts) (suc attempts) w)
        (poll-not_unpolled c p ref (suc attempts) attempts w) f

  Sends-deliver_from :
      (c : Client W F) (p : Polling W) (attempts : ℕ) (todos : List TodoOrder) (s : Round W)
      → Sends
          (payable_numbers p todos)
          s
          (gift_count p todos)
          (deliver_from c p (suc attempts) todos s)
  unfolding deliver_from
  Sends-deliver_from c p attempts [] s = ([], refl, λ q. (refl, omega arith))
  Sends-deliver_from c p attempts (t ∷ todos) s = elim (Bool-cases (is_gift p t)) [
    | inl gift ↦
        let (rest, e, k) =
          Sends-deliver_from c p attempts todos (record s { gifts = s.gifts + 1 }) in
        simp gift (rest, e, λ q. ((k q).0, (k q).1 ∙ omega arith))
    | inr paid ↦ elim (Bool-cases (t.message == msg_wait_send_offer)) [
      | inr other ↦ simp (paid, other) (Sends-deliver_from c p attempts todos s)
      | inl waits ↦
          simp (paid, waits)
            (Sends-offered c p attempts t.order_no (payable_numbers p todos) s (gift_count p todos)
              (λ q. deliver_from c p (suc attempts) todos q)
              (send_delivery_offer c s.world t.order_no)
              (λ q. Sends-deliver_from c p attempts todos q))
    ]
  ]

  Sends-deliver_listed :
      (c : Client W F) (p : Polling W) (attempts : ℕ) (todos : List TodoOrder) (w : W)
      → Sends
          (payable_numbers p todos)
          (record { world = w; sent = []; gifts = 0 })
          (gift_count p todos)
          (deliver_listed c p (suc attempts) (w, replied todos))
  Sends-deliver_listed c p attempts todos w =
      Sends-deliver_from c p attempts todos (record { world = w; sent = []; gifts = 0 })

  -- With at least one poll allowed, the orders reported as sent are, in the order of the to-do list, the
  -- first of those that are paid, wait for an offer and are no gift; and without an error they are all
  -- of those, and the gifts reported are all gifts.
  pub deliver_pending_rentals-sends :
      (c : Client W F) (p : Polling W) (attempts : ℕ) (w w' : W) (todos : List TodoOrder)
      → get_wait_deliver_list c w ≡ (w', replied todos)
      → 0 < attempts
      → let (t, err) = deliver_pending_rentals c p attempts w in
        (rest : List String) × (t.sent ++ rest ≡ payable_numbers p todos)
        × (err ≡ none → (rest ≡ []) × (t.gifts ≡ gift_count p todos))
  unfolding deliver_pending_rentals
  deliver_pending_rentals-sends c p zero w w' todos h pos_attempts =
      absurd (omega (arith, pos_attempts))
  deliver_pending_rentals-sends c p (suc attempts) w w' todos h pos_attempts =
      let (rest, e, k) = Sends-deliver_listed c p attempts todos w' in
      simp h (rest, e, λ q. ((k q).0, (k q).1 ∙ omega arith))
