-- ===== src/Tests/Clients.antt =====
-- The clients of UU and ECO before a server whose answers are two bytes, an opening brace and the code.
use rent_auto.Prelude.{
  ℕ, true, ◌+◌, ◌≡◌, refl, arith, String, false, not, ◌==◌, none, some, List, [], ◌∷◌, ◌++◌, ℤ, pos,
  any, eqb, if◌then◌else◌, Option, Zipped, All,
}
use rent_auto.Domain.{Error, partial_failure, platform_blocked, channel_uu}
use rent_auto.Delivery.{failed, replied}
use rent_auto.Float.Fixed.{Fixed, num, fixed_double}
use rent_auto.Risk.{penalize}
use rent_auto.Reprice.{Request}
use rent_auto.Uu.{Bytes, Json, response, exchanged, do_call, decode_envelope, check_env, call_env}
use rent_auto.Uu.Endpoints.{
  Client, TodoOrder, ChangeFailInfo, ChangeLeaseItem, change_lease_prices, todos_from,
  get_wait_deliver_list,
}
use rent_auto.Uu.Adapter.{change_item, default_compensation_type, reprice_verdict, reprice_lease}
use rent_auto.Uu.Adapter.Repricing.{
  id_of, names_failed, reprice_lease-hides_risk, reprice_verdict-full_reply,
}
use rent_auto.Uu.Lists.{InventoryItem, Reader, inventory_page, get_inventory, paged}
use rent_auto.Uu.Lists.Whole.{Pages, get_inventory-Pages}
use rent_auto.Uu.Offers.{Polling, msg_wait_send_offer, msg_gift, deliver_pending_rentals}
use rent_auto.Uu.Offers.Confirmed.{deliver_pending_rentals-sends}
use rent_auto.Eco
use rent_auto.Eco.{post}
use rent_auto.Eco.Adapter.{Forms, DelistResult, check_results, offshelf_rent_goods, delist}
use rent_auto.Eco.Adapter.Delisting.{is_done, delist-done}
use rent_auto.Eco.Retries.{Attempts, post-Attempts}

abbrev code_in : Bytes → Option ℤ
code_in (brace ∷ (n ∷ [])) = some (pos n)
code_in _ = none

abbrev json : Json
json = record {
  object = λ b.
      replied (λ key. if key == "Code" then some b else if key == "Data" then some b else none);
  int_of = code_in;
  string_of = λ b. none;
  trim_space = λ b. b;
  is_null = λ b. false;
  itoa = λ n. "1";
}

abbrev order : String → String → TodoOrder
order number message = record { order_no = number; commodity_name = "knife"; message = message }

abbrev todos : List TodoOrder
todos = order "o1" msg_wait_send_offer ∷ (order "o2" msg_gift ∷ [])

-- all calls are answered with one code
abbrev client : ℕ → Client ℕ Fixed
client code = record {
  transport = record {
    wait = λ w. (w, none);
    marshal = λ payload. replied (1 ∷ []);
    exchange = λ w method path body. (w + 1, response 200 (123 ∷ (code ∷ [])));
  };
  json = json;
  readers = record {
    read_results = λ b. replied [];
    read_change = λ b. replied (record { success_count = pos 1; commoditys = [] });
    read_todos = λ b. replied todos;
    read_status = λ b. replied (pos 3);
    is_empty_or_null = λ b. false;
  };
  parse_int = λ s. replied (if s == "g7" then pos 7 else pos 8);
  format_float = λ x. "900";
}

abbrev item : String → Request Fixed
item ref = record {
  goods_ref = ref;
  asset_ref = "a7";
  rent_price = num 2_500_000;
  long_rent_price = num 2_300_000;
  max_days = pos 30;
  deposit = num 900_000_000;
}

-- two entries that name one item twice
abbrev entries : List ChangeFailInfo
entries =
    record { commodity_id = pos 7; is_success = pos 1; message = "" }
    ∷ (record { commodity_id = pos 7; is_success = pos 1; message = "" } ∷ [])

reprice_verdict-full_reply_example :
    Zipped
      (λ it r. r.success ≡ not (any (names_failed (id_of (client 0) it)) entries))
      (item "g7" ∷ (item "g8" ∷ []))
      (reprice_verdict (client 0) (item "g7" ∷ (item "g8" ∷ [])) (pos 2) entries none).0
reprice_verdict-full_reply_example =
    reprice_verdict-full_reply (client 0) (item "g7" ∷ (item "g8" ∷ [])) (pos 2) entries none refl

-- the server answers with the code of its risk control
abbrev risk : Error
risk = record {
  text = "uu: prechange init: platform: blocked by platform risk control at prechange init";
  chain = platform_blocked ∷ [];
}

abbrev change : ChangeLeaseItem Fixed
change = change_item (client 84104) (item "g7") (pos 7)

blocked :
    change_lease_prices (client 84104) 0 (change ∷ []) default_compensation_type ≡ (1, failed risk)
unfolding change_lease_prices call_env do_call exchanged decode_envelope check_env
blocked = refl

reprice_lease-hides_risk_example :
    (e : Error) × ((reprice_lease (client 84104) 0 (item "g7" ∷ [])).1.1 ≡ some e)
    × (e.chain ≡ partial_failure ∷ [])
    × (penalize (λ ch. none) channel_uu e 100 ≡ (λ ch. none))
reprice_lease-hides_risk_example =
    reprice_lease-hides_risk (client 84104) 0 1 (item "g7" ∷ []) (change ∷ []) risk (λ ch. none)
      channel_uu 100 (omega arith) refl blocked

abbrev polling : Polling ℕ
polling = record { contains = λ s sub. s == sub; pause = λ w. w + 1; context_err = λ w. none }

listed : get_wait_deliver_list (client 0) 0 ≡ (1, replied todos)
unfolding get_wait_deliver_list todos_from call_env do_call exchanged decode_envelope check_env
listed = refl

deliver_pending_rentals-sends_example :
    let (t, err) = deliver_pending_rentals (client 0) polling 3 0 in
    (rest : List String) × (t.sent ++ rest ≡ "o1" ∷ []) × (err ≡ none → (rest ≡ []) × (t.gifts ≡ 1))
deliver_pending_rentals-sends_example =
    deliver_pending_rentals-sends (client 0) polling 3 0 1 todos listed (omega arith)

abbrev eco_json : Eco.Json
eco_json = record {
  object = λ b. replied (λ key. if key == "ResultCode" then some b else none);
  string_of = λ b. none;
  int_of = code_in;
  atoi = λ s. none;
  itoa = λ n. "0";
}

-- the first answer is a rate limit
abbrev eco : Eco.Client ℕ String
eco = record {
  json = eco_json;
  partner_id = "p1";
  text = λ s. s;
  sign_string = λ params. "";
  sign = λ s. replied "signature";
  marshal_body = λ params. replied (1 ∷ []);
  wait = λ w. (w, none);
  timestamp = λ w. "1";
  exchange = λ w path body. (w + 1, Eco.response 200 (123 ∷ ((if eqb w 0 then 6001 else 0) ∷ [])));
  jitter = λ w. (w, 5);
  sleep = λ w time. (w, none);
}

post-Attempts_example :
    Attempts eco "/Api/Order"
      (("Page", "1") ∷ [])
      0
      2
      0
      (post eco "/Api/Order" (("Page", "1") ∷ []) 0)
post-Attempts_example = post-Attempts eco "/Api/Order" (("Page", "1") ∷ []) 0

abbrev stored : InventoryItem Fixed
stored = record {
  steam_asset_id = "a7";
  asset_status = pos 0;
  tradable = true;
  shot_name = "knife";
  template_id = pos 1;
  mark_price = num 1_000_000_000;
  market_hash_name = "knife";
}

-- the inventory is one page with one item
abbrev reader : Reader ℕ Fixed
reader = record {
  transport = record {
    wait = λ w. (w, none);
    marshal = λ payload. replied (1 ∷ []);
    exchange = λ w method path body. (w + 1, response 200 (123 ∷ (0 ∷ [])));
  };
  json = json;
  read_inventory = λ b. replied (some (stored ∷ []));
  read_shelf = λ b. replied [];
  read_market = λ b. replied [];
  read_orders = λ b. replied [];
  read_zero_cd = λ b. replied [];
  parse_float = λ s. num 0;
}

inventory_read : (get_inventory reader true 0).1 ≡ replied (stored ∷ [])
unfolding get_inventory paged inventory_page call_env do_call exchanged decode_envelope check_env
inventory_read = refl

get_inventory-Pages_example : Pages 1000 (inventory_page reader true) 1 0 (stored ∷ [])
get_inventory-Pages_example = get_inventory-Pages reader true 0 (stored ∷ []) inventory_read

-- the server names one listing as taken down
abbrev seller : Eco.Client ℕ String
seller = record eco {
  json = record eco_json {
    object = λ b. replied (λ key.
        if key == "ResultCode" then some b else if key == "ResultData" then some b else none);
  };
}

abbrev forms : Forms String Fixed
forms = record {
  number = λ n. "2";
  publish_items = λ items. "[]";
  delist_items = λ refs. "[]";
  read_published = λ b. replied [];
  read_delisted = λ b.
      replied
        (record { goods_num = "g7"; asset_id = "a7"; is_success = true; error_msg = "" } ∷ []);
}

taken_down : (delist seller forms 1 ("g7" ∷ [])).1 ≡ none
unfolding delist offshelf_rent_goods check_results post Eco.post_from Eco.post_once Eco.exchanged
    Eco.decode_envelope Eco.check_env
taken_down = refl

delist-done_example :
    (raws : List DelistResult) × ((offshelf_rent_goods seller forms 1 ("g7" ∷ [])).1 ≡ replied raws)
    × All (λ k. any (is_done k) raws ≡ true) ("g7" ∷ [])
delist-done_example = delist-done seller forms 1 "g7" [] taken_down
