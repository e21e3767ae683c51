-- ===== src/Factor/Apply.antt =====
-- No order is folded twice.
use rent_auto.Prelude.{
  ℕ, ◌≡◌, ◌≢◌, refl, ◌∙◌, Bool, true, false, Option, none, some, List, [], ◌∷◌, eqb, if◌then◌else◌,
  arith, is_some,
}
use rent_auto.Factor.{
  Order, Row, Database, Fold, Outcome, committed, apply_factor_folds, check_orders, sort_orders,
  insert_order, settle, has_id, is_empty,
}

-- The row exists and is marked.
abbrev is_marked : Option Row → Bool
is_marked none = false
is_marked (some r) = r.factor_applied

module _ {F : Type 0} where
  -- A transaction that is not committed changes nothing.
  pub apply_factor_folds_refused :
      (db : Database F) (up : Bool) (folds : List (Fold F)) (orders : List Order)
      → (apply_factor_folds db up folds orders).1 ≢ committed
      → (apply_factor_folds db up folds orders).0 ≡ db
  unfolding apply_factor_folds
  apply_factor_folds_refused db up folds orders h = ground arith

has_id-insert_order :
    (o : Order) (orders : List Order) (id : ℕ)
    → has_id (insert_order o orders) id ≡ (if eqb o.order_id id then true else has_id orders id)
unfolding insert_order
has_id-insert_order o [] id = refl
has_id-insert_order o (x ∷ xs) id = ground (arith, has_id-insert_order o xs id)

has_id-sort_orders :
    (orders : List Order) (id : ℕ) → has_id (sort_orders orders) id ≡ has_id orders id
unfolding sort_orders
has_id-sort_orders [] id = refl
has_id-sort_orders (o ∷ orders) id =
    ground (arith, has_id-insert_order o (sort_orders orders) id, has_id-sort_orders orders id)

has_id-is_empty : (orders : List Order) (id : ℕ) → has_id orders id ≡ true → is_empty orders ≡ false
has_id-is_empty [] id h = cc
has_id-is_empty (o ∷ orders) id h = refl

module _ {F : Type 0} where
  -- a marked order of the database
  abbrev pub marked : Database F → ℕ → Bool
  marked db id = is_marked (db.lease_orders id)

  check_orders-marked :
      (db : Database F) (orders : List Order) (id : ℕ)
      → has_id orders id ≡ true
      → marked db id ≡ true
      → check_orders db orders ≢ committed
  unfolding check_orders
  check_orders-marked db [] id h m = cc
  check_orders-marked db (o ∷ orders) id h m =
      ground (arith, check_orders-marked db orders id, h, m)

  check_orders-row :
      (db : Database F) (orders : List Order) (id : ℕ)
      → has_id orders id ≡ true
      → check_orders db orders ≡ committed
      → is_some (db.lease_orders id) ≡ true
  unfolding check_orders
  check_orders-row db [] id h c = cc
  check_orders-row db (o ∷ orders) id h c = ground (arith, check_orders-row db orders id, h, c)

  settle-marked :
      (db : Database F) (folds : List (Fold F)) (orders : List Order) (out : Outcome) (id : ℕ)
      → marked db id ≡ true
      → marked (settle db folds orders out).0 id ≡ true
  settle-marked db folds orders committed id h = ground (arith, h)
  settle-marked db folds orders _ id h = h

  settle-committed :
      (db : Database F) (folds : List (Fold F)) (orders : List Order) (out : Outcome) (id : ℕ)
      → has_id orders id ≡ true
      → is_some (db.lease_orders id) ≡ true
      → out ≡ committed
      → marked (settle db folds orders out).0 id ≡ true
  settle-committed db folds orders out id h k e = rw (e, h) (ground (arith, k))

  settle_outcome :
      (db : Database F) (folds : List (Fold F)) (orders : List Order) (out : Outcome)
      → (settle db folds orders out).1 ≡ out
  settle_outcome db folds orders committed = refl
  settle_outcome db folds orders _ = refl

  -- Once marked, an order stays marked through any transaction.
  apply-marked :
      (db : Database F) (up : Bool) (folds : List (Fold F)) (orders : List Order) (id : ℕ)
      → marked db id ≡ true
      → marked (apply_factor_folds db up folds orders).0 id ≡ true
  unfolding apply_factor_folds
  apply-marked db up folds orders id h = ground (
    arith,
    h,
    settle-marked db folds (sort_orders orders) (check_orders db (sort_orders orders)) id h,
  )

  -- A transaction with a marked order is refused.
  apply-marked-refused :
      (db : Database F) (up : Bool) (folds : List (Fold F)) (orders : List Order) (id : ℕ)
      → has_id orders id ≡ true
      → marked db id ≡ true
      → (apply_factor_folds db up folds orders).1 ≢ committed
  unfolding apply_factor_folds
  apply-marked-refused db up folds orders id h m =
      let sorted = has_id-sort_orders orders id ∙ h in
      ground (
        arith,
        has_id-is_empty orders id h,
        check_orders-marked db (sort_orders orders) id sorted m,
        settle_outcome db folds (sort_orders orders) (check_orders db (sort_orders orders)),
      )

  -- A committed transaction has marked its orders.
  apply-committed :
      (db : Database F) (up : Bool) (folds : List (Fold F)) (orders : List Order) (id : ℕ)
      → has_id orders id ≡ true
      → (apply_factor_folds db up folds orders).1 ≡ committed
      → marked (apply_factor_folds db up folds orders).0 id ≡ true
  unfolding apply_factor_folds
  apply-committed db up folds orders id h c =
      let sorted = has_id-sort_orders orders id ∙ h in
      let out = check_orders db (sort_orders orders) in
      ground (
        arith,
        c,
        has_id-is_empty orders id h,
        check_orders-row db (sort_orders orders) id sorted,
        settle_outcome db folds (sort_orders orders) out,
        settle-committed db folds (sort_orders orders) out id sorted,
      )

  -- transactions in a row, each with whether the database carries it out
  unfoldable pub apply_all : Database F → List (Bool × (List (Fold F) × List Order)) → Database F
  unfolding apply_factor_folds
  apply_all db [] = db
  apply_all db ((up, (folds, orders)) ∷ rest) =
      apply_all (apply_factor_folds db up folds orders).0 rest

  apply_all-marked :
      (db : Database F) (ts : List (Bool × (List (Fold F) × List Order))) (id : ℕ)
      → marked db id ≡ true
      → marked (apply_all db ts) id ≡ true
  unfolding apply_all
  apply_all-marked db [] id h = h
  apply_all-marked db ((up, (folds, orders)) ∷ ts) id h =
      apply_all-marked (apply_factor_folds db up folds orders).0 ts id
        (apply-marked db up folds orders id h)

  -- An order is folded at most once: after a committed transaction that has it, and after any further
  -- transactions, one that has it again is refused and changes nothing.
  pub apply_factor_folds_once :
      (db : Database F) (up up' : Bool) (folds folds' : List (Fold F)) (orders orders' : List Order)
      (between : List (Bool × (List (Fold F) × List Order))) (id : ℕ)
      → has_id orders id ≡ true
      → has_id orders' id ≡ true
      → (apply_factor_folds db up folds orders).1 ≡ committed
      → ((apply_factor_folds
            (apply_all (apply_factor_folds db up folds orders).0 between)
            up'
            folds'
            orders').1
          ≢ committed)
        × ((apply_factor_folds
              (apply_all (apply_factor_folds db up folds orders).0 between)
              up'
              folds'
              orders').0
            ≡ apply_all (apply_factor_folds db up folds orders).0 between)
  apply_factor_folds_once db up up' folds folds' orders orders' between id h h' c =
      let db' = apply_all (apply_factor_folds db up folds orders).0 between in
      let kept =
        apply_all-marked (apply_factor_folds db up folds orders).0 between id
          (apply-committed db up folds orders id h c) in
      let refused = apply-marked-refused db' up' folds' orders' id h' kept in
      (refused, apply_factor_folds_refused db' up' folds' orders' refused)
