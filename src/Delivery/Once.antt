-- ===== src/Delivery/Once.antt =====
-- No offer is accepted twice, as long as the set of accepted offers does not overflow.
use rent_auto.Prelude.{
  ℕ, suc, ◌+◌, ◌≤◌, ◌≡◌, refl, sym, ap, ◌∙◌, String, Bool, true, false, ◌==◌, ◌||◌, Option, none,
  some, List, [], ◌∷◌, ◌++◌, length, arith, Bool-cases, inl, inr, IsDistinct, IsDistinct-snoc,
  any-snoc-eq-or, append_assoc, append-nil, length-append, eq_iff, ltb, eqb,
}
use rent_auto.Domain.{Error, errors_is, unsupported}
use rent_auto.Delivery.{
  Sale, RentDetail, Reply, failed, replied, Platform, Run, seen, mark_accepted, answered,
  take_offer, with_offer, after_send, deliver_sale, rent_sent, with_rent, deliver_rent, each,
  rents_listed, run_rent_delivery, then_rents, sales_listed, run_eco_delivery,
}

seen-append : (x : String) (xs ys : List String) → seen x (xs ++ ys) ≡ (seen x xs || seen x ys)
seen-append x [] ys = refl
seen-append x (y ∷ xs) ys = ground (arith, seen-append x xs ys)

-- the orders in a reply
abbrev pub rents_of : {W : Type 0} → W × Reply (List String) → ℕ
rents_of (w, failed err) = 0
rents_of (w, replied nums) = length nums

abbrev pub sales_of : {W : Type 0} → W × Reply (List Sale) → ℕ
sales_of (w, failed err) = 0
sales_of (w, replied orders) = length orders

abbrev fresh_run : {W : Type 0} → W → List String → Run W
fresh_run w accepted = record { world = w; accepted = accepted; delivered = []; errs = [] }

module _ {W : Type 0} (start : List String) where
  -- The run has delivered distinct offers that were not accepted before, remembers them, and has room
  -- for `k` more.
  pub record Once (k : ℕ) (s : Run W) : Type 0 where
    pub kept : s.accepted ≡ start ++ s.delivered
    pub distinct : IsDistinct s.delivered
    pub apart : (x : String) → seen x s.delivered ≡ true → seen x start ≡ false
    pub room : length s.accepted + k ≤ 10000

  Once-moved :
      (k : ℕ) (s : Run W) (w : W) (errs : List Error)
      → Once k s
      → Once k (record s { world = w; errs = errs })
  Once-moved k s w errs o = record {
    kept = o.kept;
    distinct = o.distinct;
    apart = o.apart;
    room = o.room;
  }

  Once-fits : (k j : ℕ) (s : Run W) → length s.accepted + j ≤ 10000 → Once k s → Once j s
  Once-fits k j s h o = record { kept = o.kept; distinct = o.distinct; apart = o.apart; room = h }

  Once-spent : (k : ℕ) (s : Run W) → Once (suc k) s → Once k s
  Once-spent k s o = Once-fits _ _ _ (omega (arith, o.room)) o

  Once-mark_accepted :
      (k : ℕ) (s : Run W) (offer : String)
      → seen offer s.accepted ≡ false
      → Once (suc k) s
      → Once k (mark_accepted offer s)
  unfolding mark_accepted
  Once-mark_accepted k s offer n o =
      let longer = length-append s.accepted (offer ∷ []) in
      let parts = seen-append offer start s.delivered in
      let known = ap (seen offer) o.kept in
      simp (n, roomy)
        (record {
          kept =
              ap (λ ids. ids ++ (offer ∷ [])) o.kept ∙ append_assoc start s.delivered (offer ∷ []);
          distinct = IsDistinct-snoc offer s.delivered o.distinct (ground (arith, n, parts, known));
          apart = λ x h. ground (
            arith,
            n,
            parts,
            known,
            any-snoc-eq-or x offer s.delivered,
            o.apart x,
            h,
            eq_iff offer x,
          );
          room = omega (arith, o.room, longer);
        })
    where
      roomy : ltb 10000 (length (s.accepted ++ (offer ∷ []))) ≡ false
      roomy = ground (arith, o.room, length-append s.accepted (offer ∷ []))

  Once-answered :
      (k : ℕ) (what offer : String) (r : W × Reply Bool) (s : Run W)
      → seen offer s.accepted ≡ false
      → Once (suc k) s
      → Once k (answered what offer r s)
  Once-answered k what offer (w, failed err) s n o = Once-moved k s w _ (Once-spent k s o)
  Once-answered k what offer (w, replied true) s n o =
      Once-mark_accepted k (record s { world = w }) offer n (Once-moved (suc k) s w s.errs o)
  Once-answered k what offer (w, replied false) s n o = Once-moved k s w s.errs (Once-spent k s o)

  Once-take_offer :
      (k : ℕ) (p : Platform W) (what offer : String) (s : Run W)
      → Once (suc k) s
      → Once k (take_offer p what offer s)
  unfolding take_offer
  Once-take_offer k p what offer s o = elim (Bool-cases (seen offer s.accepted)) [
    | inl h ↦ rw h (Once-spent k s o)
    | inr h ↦ rw h (Once-answered k what offer (Platform.accept_trade_offer p s.world offer) s h o)
  ]

  Once-with_offer :
      (k : ℕ) (p : Platform W) (num : String) (r : W × Reply String) (s : Run W)
      → Once (suc k) s
      → Once k (with_offer p num r s).0
  Once-with_offer k p num (w, failed err) s o = Once-moved k s w _ (Once-spent k s o)
  Once-with_offer k p num (w, replied offer) s o = elim (Bool-cases (offer == "")) [
    | inl h ↦ rw h (Once-moved k s w s.errs (Once-spent k s o))
    | inr h ↦
        rw h
          (Once-take_offer k p _ offer (record s { world = w }) (Once-moved (suc k) s w s.errs o))
  ]

  Once-after_send :
      (k : ℕ) (p : Platform W) (num : String) (r : W × Option Error) (s : Run W)
      → Once (suc k) s
      → Once k (after_send p num r s).0
  Once-after_send k p num (w, some err) s o = Once-moved k s w _ (Once-spent k s o)
  Once-after_send k p num (w, none) s o =
      Once-with_offer k p num (Platform.detail p w num) (record s { world = w })
        (Once-moved (suc k) s w s.errs o)

  Once-deliver_sale :
      (k : ℕ) (p : Platform W) (x : Sale) (s : Run W)
      → Once (suc k) s
      → Once k (deliver_sale p x s).0
  unfolding deliver_sale
  Once-deliver_sale k p x s o = elim (Bool-cases (eqb x.order_state_code 1)) [
    | inl h ↦ rw h (Once-after_send k p x.order_num (Platform.send_offer p s.world x.order_num) s o)
    | inr h ↦ rw h (Once-with_offer k p x.order_num (Platform.detail p s.world x.order_num) s o)
  ]

  Once-rent_sent :
      (k : ℕ) (num : String) (r : W × Option Error) (s : Run W)
      → Once k s
      → Once k (rent_sent num r s).0
  Once-rent_sent k num (w, none) s o = Once-moved k s w s.errs o
  Once-rent_sent k num (w, some err) s o = Once-moved k s w _ o

  Once-with_rent :
      (k : ℕ) (p : Platform W) (num : String) (r : W × Reply RentDetail) (s : Run W)
      → Once (suc k) s
      → Once k (with_rent p num r s).0
  Once-with_rent k p num (w, failed err) s o = Once-moved k s w _ (Once-spent k s o)
  Once-with_rent k p num (w, replied d) s o = elim (Bool-cases (d.offer_id == "")) [
    | inl h ↦ elim (Bool-cases (eqb d.send_offer_role 2)) [
      | inl e ↦
          rw (h, e)
            (Once-rent_sent k num (Platform.send_offer p w num) (record s { world = w })
              (Once-moved k s w s.errs (Once-spent k s o)))
      | inr e ↦ rw (h, e) (Once-moved k s w s.errs (Once-spent k s o))
    ]
    | inr h ↦ rw h (
        Once-take_offer k p _ d.offer_id (record s { world = w }) (Once-moved (suc k) s w s.errs o))
  ]

  Once-deliver_rent :
      (k : ℕ) (p : Platform W) (num : String) (s : Run W)
      → Once (suc k) s
      → Once k (deliver_rent p num s).0
  unfolding deliver_rent
  Once-deliver_rent k p num s o =
      Once-with_rent k p num (Platform.seller_rent_order_detail p s.world num) s o

  Once-weaken : (k j : ℕ) (s : Run W) → Once (k + j) s → Once j s
  Once-weaken k j s o = Once-fits _ _ _ (omega (arith, o.room)) o

  Once-each :
      {A : Type 0} (f : A → Run W → Run W × Bool) (xs : List A) (j : ℕ) (s : Run W)
      → ((k : ℕ) (x : A) (t : Run W) → Once (suc k) t → Once k (f x t).0)
      → Once (length xs + j) s
      → Once j (each f xs s).0
  unfolding each
  Once-each f [] j s g o = Once-fits _ _ _ (omega (arith, o.room)) o
  Once-each f (x ∷ xs) j s g o =
      let one = g (length xs + j) x s (Once-fits _ _ _ (omega (arith, o.room)) o) in
      let rest = Once-each f xs j (f x s).0 g one in
      elim (Bool-cases (f x s).1) [
        | inl h ↦ simp h (Once-weaken (length xs) j (f x s).0 one)
        | inr h ↦ simp h rest
      ]

  Once-rents_listed :
      (p : Platform W) (r : W × Reply (List String)) (s : Run W)
      → Once (rents_of r) s
      → Once 0 (rents_listed p r s)
  unfolding deliver_rent
  Once-rents_listed p (w, failed err) s o = elim (Bool-cases (errors_is err.chain unsupported)) [
    | inl h ↦ rw h (Once-moved 0 s w s.errs o)
    | inr h ↦ rw h (Once-moved 0 s w _ o)
  ]
  Once-rents_listed p (w, replied nums) s o =
      Once-each (deliver_rent p) nums 0 (record s { world = w })
        (λ k x t. Once-deliver_rent k p x t)
        (Once-moved (length nums + 0) s w s.errs (Once-fits _ _ s (omega (arith, o.room)) o))

  Once-run_rent_delivery :
      (r : ℕ) (p : Platform W) (s : Run W)
      → ((w : W) → rents_of (p.seller_rent_order_list w) ≤ r)
      → Once r s
      → Once 0 (run_rent_delivery p s)
  unfolding run_rent_delivery
  Once-run_rent_delivery r p s b o =
      Once-rents_listed p (Platform.seller_rent_order_list p s.world) s
        (Once-fits _ _ _ (omega (arith, o.room, b s.world)) o)

  Once-then_rents :
      (r : ℕ) (p : Platform W) (q : Run W × Bool)
      → ((w : W) → rents_of (p.seller_rent_order_list w) ≤ r)
      → Once r q.0
      → Once 0 (then_rents p q)
  Once-then_rents r p (s, true) b o = Once-fits _ _ _ (omega (arith, o.room)) o
  Once-then_rents r p (s, false) b o = Once-run_rent_delivery r p s b o

  Once-sales_listed :
      (r : ℕ) (p : Platform W) (q : W × Reply (List Sale)) (s : Run W)
      → ((w : W) → rents_of (p.seller_rent_order_list w) ≤ r)
      → Once (sales_of q + r) s
      → Once 0 (sales_listed p q s)
  Once-sales_listed r p (w, failed err) s b o =
      elim (Bool-cases (errors_is err.chain unsupported)) [
        | inl h ↦ rw h (Once-moved 0 s w s.errs (Once-fits _ _ _ (omega (arith, o.room)) o))
        | inr h ↦ rw h (Once-moved 0 s w _ (Once-fits _ _ _ (omega (arith, o.room)) o))
      ]
  Once-sales_listed r p (w, replied orders) s b o =
      Once-then_rents r p (each (deliver_sale p) orders (record s { world = w })) b (
        Once-each (deliver_sale p) orders r (record s { world = w })
          (λ k x t. Once-deliver_sale k p x t) (Once-moved (length orders + r) s w s.errs o))

module _ {W : Type 0} where
  -- If the offers accepted so far and the orders that the platform lists fit into the set, a run delivers
  -- distinct offers, none of which was accepted before it, and adds them all to the set.
  pub run_eco_delivery_once :
      (p : Platform W) (w : W) (accepted : List String) (r : ℕ)
      → ((v : W) → rents_of (p.seller_rent_order_list v) ≤ r)
      → length accepted + (sales_of (p.seller_order_list w) + r) ≤ 10000
      → let after =
          run_eco_delivery p
            (record { world = w; accepted = accepted; delivered = []; errs = [] }) in
        IsDistinct after.delivered
        × ((x : String) → seen x after.delivered ≡ true → seen x accepted ≡ false)
        × (after.accepted ≡ accepted ++ after.delivered)
  unfolding run_eco_delivery
  run_eco_delivery_once p w accepted r b h =
      let s = fresh_run w accepted in
      let done =
        Once-sales_listed accepted r p (Platform.seller_order_list p w) s b (record {
          kept = sym (append-nil accepted);
          distinct = tt;
          apart = λ x e. cc;
          room = h;
        }) in
      (done.distinct, done.apart, done.kept)
