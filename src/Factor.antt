-- ===== src/Factor.antt =====
-- backend/internal/scheduler/factor.go and backend/internal/store/factor.go: finished orders are folded
-- into the factors of their listings, once each, and idle listings step down. What a run looks up in the
-- database (the parameters of a commodity, the factor of a listing) is a function that stays the same
-- during the run, so that the cache of parameters need not be modelled; `none` is a lookup that fails.
pub mod Sequential
pub mod Apply
pub mod Classify
use rent_auto.Prelude.{
  ℕ, ◌+◌, ◌*◌, ◌-◌, String, Bool, true, false, not, ◌&&◌, ◌||◌, ◌==◌, Option, none, some, List, [],
  ◌∷◌, ◌++◌, eqb, leb, ltb, if◌then◌else◌, ℤ, pos, negsuc, ltb_ℤ, any, is_some,
}
use rent_auto.Float.{Double}
use rent_auto.Pricing.{ControllerParams}
use rent_auto.Pricing.Controller.{
  FactorEvent, rent_success, bought_out, stale_day, reset, no_event, next_factor,
}

-- store.FactorOrder; `updated_at` is an instant
pub record Order : Type 0 where
  pub order_id : ℕ
  pub listing_id : ℕ
  pub status : String
  pub max_days : ℤ
  pub hash_name : String
  pub updated_at : ℕ

-- orderTerm
pub record Term : Type 0 where
  pub order_type : String
  pub rent_days : ℤ
  pub term_days : ℤ

abbrev pub positive : ℤ → Bool
positive n = ltb_ℤ (pos 0) n

abbrev pub early : Bool → FactorEvent
early true = rent_success
early false = no_event

unfoldable pub classify_factor_event : String → Term → ℤ → FactorEvent
classify_factor_event status t fallback =
    if status == "bought_out"
    then bought_out
    else if status == "done"
    then if t.order_type == "long"
      then early (positive t.term_days && (positive t.rent_days && ltb_ℤ t.rent_days t.term_days))
      else if positive t.term_days && positive t.rent_days
      then early (ltb_ℤ t.rent_days t.term_days)
      else if positive fallback && positive t.rent_days
      then early (ltb_ℤ t.rent_days fallback)
      else no_event
    else no_event

-- store.FactorFold
pub record Fold (F : Type 0) : Type 0 where
  pub listing_id : ℕ
  pub factor : F

-- what a run looks up: the parameters of a commodity, the stored factor of a listing, the terms of an
-- order
pub record Lookups (F : Type 0) : Type 0 where
  pub params : String → Option (ControllerParams F)
  pub base : ℕ → Option F
  pub term : ℕ → Term

module _ {F : Type 0} where
  -- folds[foldIdx[id]]
  unfoldable pub find_fold : List (Fold F) → ℕ → Option F
  find_fold [] id = none
  find_fold (f ∷ fs) id = if eqb f.listing_id id then some f.factor else find_fold fs id

  -- its factor, set; a listing without a fold is appended
  unfoldable pub set_fold : List (Fold F) → ℕ → F → List (Fold F)
  set_fold [] id x = record { listing_id = id; factor = x } ∷ []
  set_fold (f ∷ fs) id x =
      let rest = set_fold fs id x in
      if eqb f.listing_id id
      then record { listing_id = f.listing_id; factor = x } ∷ fs
      else f ∷ rest

  abbrev pub or_base : Option F → Option F → Option F
  or_base none base = base
  or_base (some f) base = some f

abbrev pub is_event : FactorEvent → Bool
is_event no_event = false
is_event _ = true

abbrev day : ℕ
day = 24 * 3_600_000_000_000

abbrev pub days : ℤ → ℤ
days (pos n) = pos (n * day)
days (negsuc n) = negsuc (n * day + (day - 1))

module _ {F : Type 0} ⦃d : Double F⦄ where
  open d use {lt, sub, abs, lit}

  abbrev pub apply_event : F → FactorEvent → ControllerParams F → F
  apply_event cur ev p = if is_event ev then (next_factor cur ev p).0 else cur

  -- the folds and the handled orders after one more order
  abbrev pub fold_factor :
      Lookups F
      → Order
      → ControllerParams F
      → Option F
      → List (Fold F) × List Order
      → List (Fold F) × List Order
  fold_factor lk o p none st = st
  fold_factor lk o p (some cur) (folds, handled) =
      let ev = classify_factor_event o.status (lk.term o.order_id) o.max_days in
      (set_fold folds o.listing_id (apply_event cur ev p), handled ++ (o ∷ []))

  abbrev pub fold_with :
      Lookups F
      → Order
      → Option (ControllerParams F)
      → List (Fold F) × List Order
      → List (Fold F) × List Order
  fold_with lk o none st = st
  fold_with lk o (some p) st =
      fold_factor lk o p (or_base (find_fold st.0 o.listing_id) (lk.base o.listing_id)) st

  unfoldable pub fold_orders :
      Lookups F → List Order → List (Fold F) × List Order → List (Fold F) × List Order
  unfolding find_fold set_fold classify_factor_event
  fold_orders lk [] st = st
  fold_orders lk (o ∷ orders) st = fold_orders lk orders (fold_with lk o (lk.params o.hash_name) st)

  -- `factorResetEpsilon` is 1e-4
  unfoldable pub is_at_factor_min : F → F → Bool
  is_at_factor_min factor fmin = lt (abs (sub factor fmin)) (lit 1 4)

  -- one candidate of `runStaleScan`: the new factor, the reason and whether an audit entry is written;
  -- none if it has not idled long enough
  unfoldable pub stale_step : F → ℤ → ControllerParams F → Option (F × (String × Bool))
  unfolding is_at_factor_min
  stale_step factor anchor_age p =
      if ltb_ℤ anchor_age (days p.stale_days)
      then none
      else (let at_min = is_at_factor_min factor p.f_min in
          let (next, reason) = next_factor factor (if at_min then reset else stale_day) p in
          some (next, (reason, at_min)))

-- lease_orders, as far as the transaction reads and writes it, and listings.factor
pub record Row : Type 0 where
  pub factor_applied : Bool
  pub factor_listing_id : Option ℕ
  pub updated_at : ℕ

pub record Database (F : Type 0) : Type 0 where
  pub lease_orders : ℕ → Option Row
  pub factor : ℕ → Option F

pub data Outcome : Type 0 where
  committed orders_changed missing_order database_error : Outcome

abbrev pub same_listing : Option ℕ → ℕ → Bool
same_listing none id = false
same_listing (some l) id = eqb l id

abbrev pub row_matches : Row → Order → Bool
row_matches r o =
    not r.factor_applied
    && (same_listing r.factor_listing_id o.listing_id && eqb r.updated_at o.updated_at)

unfoldable pub insert_order : Order → List Order → List Order
insert_order o [] = o ∷ []
insert_order o (x ∷ xs) =
    let rest = insert_order o xs in if ltb x.order_id o.order_id then x ∷ rest else o ∷ x ∷ xs

unfoldable pub sort_orders : List Order → List Order
unfolding insert_order
sort_orders [] = []
sort_orders (o ∷ orders) = insert_order o (sort_orders orders)

-- SELECT … FOR UPDATE on one order
abbrev pub checked : Option Row → Order → Outcome → Outcome
checked none o rest = missing_order
checked (some r) o rest = if row_matches r o then rest else orders_changed

abbrev pub mark : Option Row → Option Row
mark none = none
mark (some r) = some (record r { factor_applied = true })

abbrev pub has_id : List Order → ℕ → Bool
has_id orders id = any (λ o. eqb o.order_id id) orders

abbrev pub is_empty : {A : Type 0} → List A → Bool
is_empty [] = true
is_empty _ = false

module _ {F : Type 0} where
  unfoldable pub check_orders : Database F → List Order → Outcome
  check_orders db [] = committed
  check_orders db (o ∷ orders) =
      let rest = check_orders db orders in checked (db.lease_orders o.order_id) o rest

  -- UPDATE listings SET factor, one fold after the other
  unfoldable pub write_folds : List (Fold F) → (ℕ → Option F) → ℕ → Option F
  write_folds [] m id = m id
  write_folds (f ∷ fs) m id =
      write_folds fs (λ n. if eqb n f.listing_id && is_some (m n) then some f.factor else m n) id

  abbrev pub written_back : Database F → List (Fold F) → List Order → Database F
  written_back db folds orders = record {
    lease_orders = λ id. if has_id orders id then mark (db.lease_orders id) else db.lease_orders id;
    factor = write_folds folds db.factor;
  }

  abbrev pub settle : Database F → List (Fold F) → List Order → Outcome → Database F × Outcome
  settle db folds orders committed = (written_back db folds orders, committed)
  settle db folds orders out = (db, out)

  -- `ApplyFactorFolds`; `up` is whether the database carries out the transaction
  unfoldable pub apply_factor_folds :
      Database F → Bool → List (Fold F) → List Order → Database F × Outcome
  unfolding check_orders write_folds sort_orders
  apply_factor_folds db up folds orders =
      if is_empty folds && is_empty orders
      then (db, committed)
      else if not up
      then (db, database_error)
      else settle db folds (sort_orders orders) (check_orders db (sort_orders orders))
