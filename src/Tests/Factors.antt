-- ===== src/Tests/Factors.antt =====
-- Two orders of one listing, and the transaction that folds them.
use rent_auto.Prelude.{ℕ, true, false, none, some, List, [], ◌∷◌, ◌≡◌, ◌≢◌, refl, pos}
use rent_auto.Float.Fixed.{Fixed, num, fixed_double}
use rent_auto.Pricing.{ControllerParams, round4}
use rent_auto.Pricing.Controller.{next_factor, move, clamp_min, clamp_max, clamp_factor}
use rent_auto.Factor.{
  Order, Term, Fold, Lookups, Row, Database, committed, fold_orders, stale_step, is_at_factor_min,
  apply_factor_folds, check_orders, sort_orders, insert_order, write_folds,
}
use rent_auto.Factor.Sequential.{held, run_orders, fold_orders-sequential}
use rent_auto.Factor.Apply.{apply_all, apply_factor_folds_once}

abbrev ctrl : ControllerParams Fixed
ctrl = record {
  f_min = num 850_000;
  f_max = num 1_250_000;
  step_up = num 30_000;
  step_down = num 50_000;
  stale_days = pos 7;
}

abbrev order : ℕ → Order
order id = record {
  order_id = id;
  listing_id = 3;
  status = "done";
  max_days = pos 30;
  hash_name = "knife";
  updated_at = 50;
}

abbrev early_return : Term
early_return = record { order_type = "short"; rent_days = pos 5; term_days = pos 10 }

abbrev lookups : Lookups Fixed
lookups = record {
  params = λ h. some ctrl;
  base = λ id. some (num 1_000_000);
  term = λ id. early_return;
}

fold_orders-sequential_example :
    held lookups (fold_orders lookups (order 1 ∷ order 2 ∷ []) ([], [])).0 3
    ≡ some (run_orders lookups 3 (order 1 ∷ order 2 ∷ []) (num 1_000_000))
fold_orders-sequential_example =
    fold_orders-sequential lookups (order 1 ∷ order 2 ∷ []) 3 (num 1_000_000) refl

stale :
    stale_step (num 1_000_000) (pos 700_000_000_000_000) ctrl ≡ some (num 950_000, ("stale", false))
unfolding stale_step is_at_factor_min next_factor move clamp_factor clamp_min clamp_max round4
stale = refl

abbrev row : Row
row = record { factor_applied = false; factor_listing_id = some 3; updated_at = 50 }

abbrev database : Database Fixed
database = record { lease_orders = λ id. some row; factor = λ id. some (num 1_000_000) }

abbrev empty : Database Fixed
empty = record { lease_orders = λ id. none; factor = λ id. none }

abbrev raised : List (Fold Fixed)
raised = record { listing_id = 3; factor = num 1_060_000 } ∷ []

abbrev batch : List Order
batch = order 2 ∷ order 1 ∷ []

carried_out : (apply_factor_folds database true raised batch).1 ≡ committed
unfolding apply_factor_folds check_orders sort_orders insert_order write_folds
carried_out = refl

apply_factor_folds_once_example :
    let after = apply_all (apply_factor_folds database true raised batch).0 [] in
    ((apply_factor_folds after true raised (order 1 ∷ [])).1 ≢ committed)
    × ((apply_factor_folds after true raised (order 1 ∷ [])).0 ≡ after)
apply_factor_folds_once_example =
    apply_factor_folds_once database true true raised raised batch (order 1 ∷ []) [] 1 refl refl
      carried_out
