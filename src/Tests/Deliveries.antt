-- ===== src/Tests/Deliveries.antt =====
-- Two sale orders with one trade offer between them.
use rent_auto.Prelude.{ℕ, ◌+◌, ◌≡◌, arith, String, true, false, none, [], ◌∷◌, ◌++◌, IsDistinct}
use rent_auto.Delivery.{Sale, replied, Platform, seen, run_eco_delivery}
use rent_auto.Delivery.Once.{run_eco_delivery_once}

abbrev sale : String → Sale
sale num = record { order_num = num; order_state_code = 1 }

abbrev platform : Platform ℕ
platform = record {
  seller_order_list = λ w. (w, replied (sale "s1" ∷ sale "s2" ∷ []));
  send_offer = λ w num. (w + 1, none);
  detail = λ w num. (w, replied "offer9");
  seller_rent_order_list = λ w. (w, replied []);
  seller_rent_order_detail = λ w num. (w, replied (record { offer_id = ""; send_offer_role = 2 }));
  accept_trade_offer = λ w offer. (w, replied true);
}

run_eco_delivery_once_example :
    let after =
      run_eco_delivery platform
        (record { world = 0; accepted = "offer1" ∷ []; delivered = []; errs = [] }) in
    IsDistinct after.delivered
    × ((x : String) → seen x after.delivered ≡ true → seen x ("offer1" ∷ []) ≡ false)
    × (after.accepted ≡ ("offer1" ∷ []) ++ after.delivered)
run_eco_delivery_once_example =
    run_eco_delivery_once platform 0 ("offer1" ∷ []) 0 (λ v. omega arith) (omega arith)
