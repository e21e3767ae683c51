-- ===== src/Factor/Sequential.antt =====
-- The batch of `foldOrderEvents` does what its orders do one by one.
use rent_auto.Prelude.{
  ℕ, ◌≡◌, refl, Option, none, some, List, [], ◌∷◌, eqb, if◌then◌else◌, arith, Option-cases, inl,
  inr,
}
use rent_auto.Float.{Double}
use rent_auto.Pricing.{ControllerParams}
use rent_auto.Factor.{
  Order, Fold, Lookups, find_fold, set_fold, or_base, apply_event, classify_factor_event, fold_with,
  fold_orders,
}

find_fold-set_fold :
    {F : Type 0} (fs : List (Fold F)) (a b : ℕ) (x : F)
    → find_fold (set_fold fs a x) b ≡ (if eqb a b then some x else find_fold fs b)
unfolding find_fold set_fold
find_fold-set_fold [] a b x = refl
find_fold-set_fold (f ∷ fs) a b x = ground (arith, find_fold-set_fold fs a b x)

module _ {F : Type 0} ⦃d : Double F⦄ where
  -- one order on the factor of its listing, without a batch
  abbrev pub step_one : Lookups F → Order → Option (ControllerParams F) → F → F
  step_one lk o none cur = cur
  step_one lk o (some p) cur =
      apply_event cur (classify_factor_event o.status (lk.term o.order_id) o.max_days) p

  -- the orders of listing `id`, one by one
  unfoldable pub run_orders : Lookups F → ℕ → List Order → F → F
  unfolding classify_factor_event
  run_orders lk id [] cur = cur
  run_orders lk id (o ∷ orders) cur =
      run_orders lk id orders
        (if eqb o.listing_id id then step_one lk o (lk.params o.hash_name) cur else cur)

  -- the factor that the batch holds for listing `id`: that of its fold, or else the stored one
  abbrev pub held : Lookups F → List (Fold F) → ℕ → Option F
  held lk folds id = or_base (find_fold folds id) (lk.base id)

  held-fold_with :
      (lk : Lookups F) (o : Order) (ps : Option (ControllerParams F)) (folds : List (Fold F))
      (handled : List Order) (id : ℕ) (cur : F)
      → held lk folds id ≡ some cur
      → held lk (fold_with lk o ps (folds, handled)).0 id
        ≡ some (if eqb o.listing_id id then step_one lk o ps cur else cur)
  held-fold_with lk o none folds handled id cur h = ground (arith, h)
  held-fold_with lk o (some p) folds handled id cur h =
      elim (Option-cases (held lk folds o.listing_id)) [
        | inl e ↦ rw e (ground (arith, h, e))
        | inr (x, e) ↦ rw (e, find_fold-set_fold folds o.listing_id id) (ground (arith, h, e))
      ]

  held-fold_orders :
      (lk : Lookups F) (orders : List Order) (st : List (Fold F) × List Order) (id : ℕ) (cur : F)
      → held lk st.0 id ≡ some cur
      → held lk (fold_orders lk orders st).0 id ≡ some (run_orders lk id orders cur)
  unfolding fold_orders run_orders
  held-fold_orders lk [] st id cur h = h
  held-fold_orders lk (o ∷ orders) st id cur h =
      held-fold_orders lk orders (fold_with lk o (lk.params o.hash_name) st) id _
        (held-fold_with lk o (lk.params o.hash_name) st.0 st.1 id cur h)

  -- A batch leaves each listing whose factor can be read with the factor that its orders give it one after
  -- the other, however the orders of the listings are interleaved.
  pub fold_orders-sequential :
      (lk : Lookups F) (orders : List Order) (id : ℕ) (base : F)
      → lk.base id ≡ some base
      → held lk (fold_orders lk orders ([], [])).0 id ≡ some (run_orders lk id orders base)
  unfolding find_fold
  fold_orders-sequential lk orders id base h = held-fold_orders lk orders ([], []) id base h
