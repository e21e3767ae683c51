-- ===== src/Eco/Signature/Order.antt =====
-- The canonical string does not depend on the order in which a map is iterated.
use rent_auto.Prelude.{
  ◌≡◌, refl, sym, ap, subst, ◌∙◌, String, Bool, true, false, ◌==◌, List, [], ◌∷◌, has, IsMap,
  if◌then◌else◌, Bool-cases, inl, inr, arith, eq_iff,
}
use mathlib.Core.List.{Permᴰ}
use rent_auto.Eco.Signature.{
  Value, Texts, is_omitted, kept, less, insert, sort, sign_string, joined,
}

-- a strict total order on texts
pub record IsOrder (lt : String → String → Bool) : Type 0 where
  pub asymmetric : (a b : String) → lt a b ≡ true → lt b a ≡ false
  pub transitive : (a b c : String) → lt a b ≡ true → lt b c ≡ true → lt a c ≡ true
  pub total : (a b : String) → (a == b) ≡ false → lt a b ≡ false → lt b a ≡ true

eq_swap : (a b : String) → (b == a) ≡ (a == b)
eq_swap a b = ground (arith, eq_iff a b, eq_iff b a)

asymmetric-less :
    {F : Type 0} (t : Texts F) (a b : String)
    → IsOrder (Texts.lt t)
    → less t a b ≡ true
    → less t b a ≡ false
unfolding less
asymmetric-less t a b o h = elim (Bool-cases (Texts.lower t a == Texts.lower t b)) [
  | inl q ↦ simp (eq_swap (Texts.lower t a) (Texts.lower t b) ∙ q) (o.asymmetric a b (simp q at h))
  | inr q ↦
      simp (eq_swap (Texts.lower t a) (Texts.lower t b) ∙ q)
        (o.asymmetric (Texts.lower t a) (Texts.lower t b) (simp q at h))
]

total-less :
    {F : Type 0} (t : Texts F) (a b : String)
    → IsOrder (Texts.lt t)
    → (a == b) ≡ false
    → less t a b ≡ false
    → less t b a ≡ true
unfolding less
total-less t a b o d h = elim (Bool-cases (Texts.lower t a == Texts.lower t b)) [
  | inl q ↦ simp (eq_swap (Texts.lower t a) (Texts.lower t b) ∙ q) (o.total a b d (simp q at h))
  | inr q ↦
      simp (eq_swap (Texts.lower t a) (Texts.lower t b) ∙ q)
        (o.total (Texts.lower t a) (Texts.lower t b) q (simp q at h))
]

transitive-less :
    {F : Type 0} (t : Texts F) (a b c : String)
    → IsOrder (Texts.lt t)
    → less t a b ≡ true
    → less t b c ≡ true
    → less t a c ≡ true
unfolding less
transitive-less t a b c o h k =
    let la = Texts.lower t a in
    let lb = Texts.lower t b in
    let lc = Texts.lower t c in
    elim (Bool-cases (la == lb)) [
      | inl q ↦ elim (Bool-cases (lb == lc)) [
        | inl r ↦
            simp (ap (λ x. x == lc) ((eq_iff la lb).0 q) ∙ r)
              (o.transitive a b c (simp q at h) (simp r at k))
        | inr r ↦
            let e = (eq_iff la lb).0 q in
            let up : Texts.lt t lb lc ≡ true = (simp r at k) in
            simp (ap (λ x. x == lc) e ∙ r) (ap (λ x. Texts.lt t x lc) e ∙ up)
      ]
      | inr q ↦
          let low : Texts.lt t la lb ≡ true = (simp q at h) in
          elim (Bool-cases (lb == lc)) [
            | inl r ↦
                let e = (eq_iff lb lc).0 r in
                simp (ap (λ x. la == x) (sym e) ∙ q) (ap (λ x. Texts.lt t la x) (sym e) ∙ low)
            | inr r ↦
                let up : Texts.lt t lb lc ≡ true = (simp r at k) in
                elim (Bool-cases (la == lc)) [
                  | inl s ↦
                      let back = o.asymmetric la lb low in
                      let clash : Texts.lt t lb la ≡ true =
                        ap (Texts.lt t lb) ((eq_iff la lc).0 s) ∙ up in
                      cc
                  | inr s ↦ simp s (o.transitive la lb lc low up)
                ]
          ]
    ]

IsOrder-less : {F : Type 0} (t : Texts F) → IsOrder (Texts.lt t) → IsOrder (less t)
IsOrder-less t o = record {
  asymmetric = λ a b h. asymmetric-less t a b o h;
  transitive = λ a b c h k. transitive-less t a b c o h k;
  total = λ a b d h. total-less t a b o d h;
}

module _ {F : Type 0} (lt : String → String → Bool) (o : IsOrder lt) where
  insert_comm :
      (e f : String × Value F) (l : List (String × Value F))
      → (e.0 == f.0) ≡ false
      → insert lt e (insert lt f l) ≡ insert lt f (insert lt e l)
  insert_comm e f [] d = elim (Bool-cases (lt e.0 f.0)) [
    | inl h ↦ simp (h, o.asymmetric e.0 f.0 h) refl
    | inr h ↦ simp (h, o.total e.0 f.0 d h) refl
  ]
  insert_comm e f (g ∷ l) d = elim (Bool-cases (lt f.0 g.0)) [
    | inl fg ↦ elim (Bool-cases (lt e.0 f.0)) [
      | inl ef ↦ simp (fg, ef, o.transitive e.0 f.0 g.0 ef fg, o.asymmetric e.0 f.0 ef) refl
      | inr ef ↦ elim (Bool-cases (lt e.0 g.0)) [
        | inl eg ↦ simp (fg, ef, eg, o.total e.0 f.0 d ef) refl
        | inr eg ↦ simp (fg, ef, eg) refl
      ]
    ]
    | inr fg ↦ elim (Bool-cases (lt e.0 g.0)) [
      | inr eg ↦ simp (fg, eg) (ap (λ xs. g ∷ xs) (insert_comm e f l d))
      | inl eg ↦ elim (Bool-cases (lt f.0 e.0)) [
        | inr fe ↦ simp (fg, eg, fe) refl
        | inl fe ↦ let clash = o.transitive f.0 e.0 g.0 fe eg in cc
      ]
    ]
  ]

module _ {F : Type 0} where
  has_swap :
      (a b : String × Value F) (l : List (String × Value F)) (k : String)
      → has (a ∷ (b ∷ l)) k ≡ has (b ∷ (a ∷ l)) k
  has_swap a b l k = ground arith

  has-perm : (l m : List (String × Value F)) (k : String) → Permᴰ l m → has l k ≡ has m k
  has-perm l m k Permᴰ.nil = refl
  has-perm (a ∷ l) (b ∷ m) k (Permᴰ.cons e p) =
      ap (λ x. has (x ∷ l) k) e ∙ ap (λ h. if b.0 == k then true else h) (has-perm l m k p)
  has-perm l m k (Permᴰ.swap {a = a} {b = b} {a' = a'} {b' = b'} {l = r} e f) =
      has_swap a b r k ∙ (ap (λ x. has (x ∷ (a ∷ r)) k) f ∙ ap (λ x. has (a' ∷ (x ∷ r)) k) e)
  has-perm l m k (Permᴰ.trans {l₂ = r} p q) = has-perm l r k p ∙ has-perm r m k q

  IsMap-swap :
      (a b : String × Value F) (l : List (String × Value F))
      → IsMap (a ∷ (b ∷ l))
      → IsMap (b ∷ (a ∷ l))
  IsMap-swap a b l (x, (y, m)) =
      (ground (arith, x, y, eq_iff a.0 b.0, eq_iff b.0 a.0), (ground (arith, x), m))

  IsMap-perm : (l m : List (String × Value F)) → Permᴰ l m → IsMap l → IsMap m
  IsMap-perm l m Permᴰ.nil d = d
  IsMap-perm (a ∷ l) (b ∷ m) (Permᴰ.cons e p) (x, d) =
      (sym (ap (λ z. has m z.0) e) ∙ (sym (has-perm l m a.0 p) ∙ x), IsMap-perm l m p d)
  IsMap-perm l m (Permᴰ.swap {a = a} {b = b} {a' = a'} {b' = b'} {l = r} e f) d =
      subst (λ x. IsMap (a' ∷ (x ∷ r))) e (subst (λ x. IsMap (x ∷ (a ∷ r))) f (IsMap-swap a b r d))
  IsMap-perm l m (Permᴰ.trans {l₂ = r} p q) d = IsMap-perm r m q (IsMap-perm l r p d)

  has-kept : (l : List (String × Value F)) (k : String) → has l k ≡ false → has (kept l) k ≡ false
  has-kept [] k h = refl
  has-kept ((j, v) ∷ l) k h = let ih = has-kept l k in ground arith

  IsMap-kept : (l : List (String × Value F)) → IsMap l → IsMap (kept l)
  IsMap-kept [] d = tt
  IsMap-kept ((j, v) ∷ l) (x, d) = elim (Bool-cases (is_omitted v)) [
    | inl h ↦ simp h (IsMap-kept l d)
    | inr h ↦ simp h (has-kept l j x, IsMap-kept l d)
  ]

  perm_refl : (l : List (String × Value F)) → Permᴰ l l
  perm_refl [] = Permᴰ.nil
  perm_refl (e ∷ l) = Permᴰ.cons refl (perm_refl l)

  kept_cons :
      (a : String × Value F) (l m : List (String × Value F))
      → Permᴰ (kept l) (kept m)
      → Permᴰ (kept (a ∷ l)) (kept (a ∷ m))
  kept_cons a l m p = elim (Bool-cases (is_omitted a.1)) [
    | inl h ↦ simp h p
    | inr h ↦ simp h (Permᴰ.cons refl p)
  ]

  kept_swap :
      (a b : String × Value F) (l : List (String × Value F))
      → Permᴰ (kept (a ∷ (b ∷ l))) (kept (b ∷ (a ∷ l)))
  kept_swap a b l = elim (Bool-cases (is_omitted a.1)) [
    | inl h ↦ simp h (perm_refl (kept (b ∷ l)))
    | inr h ↦ elim (Bool-cases (is_omitted b.1)) [
      | inl k ↦ simp (h, k) (perm_refl (a ∷ kept l))
      | inr k ↦ simp (h, k) (Permᴰ.swap refl refl)
    ]
  ]

  kept-perm : (l m : List (String × Value F)) → Permᴰ l m → Permᴰ (kept l) (kept m)
  kept-perm l m Permᴰ.nil = Permᴰ.nil
  kept-perm (a ∷ l) (b ∷ m) (Permᴰ.cons e p) =
      subst (λ x. Permᴰ (kept (a ∷ l)) (kept (x ∷ m))) e (kept_cons a l m (kept-perm l m p))
  kept-perm l m (Permᴰ.swap {a = a} {b = b} {a' = a'} {b' = b'} {l = r} e f) =
      subst (λ x. Permᴰ (kept (a ∷ (b ∷ r))) (kept (a' ∷ (x ∷ r)))) e
        (subst (λ x. Permᴰ (kept (a ∷ (b ∷ r))) (kept (x ∷ (a ∷ r)))) f (kept_swap a b r))
  kept-perm l m (Permᴰ.trans {l₂ = r} p q) = Permᴰ.trans (kept-perm l r p) (kept-perm r m q)

  sort-perm :
      (lt : String → String → Bool) (l m : List (String × Value F))
      → IsOrder lt
      → Permᴰ l m
      → IsMap l
      → sort lt l ≡ sort lt m
  sort-perm lt l m o Permᴰ.nil d = refl
  sort-perm lt (a ∷ l) (b ∷ m) o (Permᴰ.cons e p) (x, d) =
      ap (λ z. insert lt z (sort lt l)) e ∙ ap (insert lt b) (sort-perm lt l m o p d)
  sort-perm lt l m o (Permᴰ.swap {a = a} {b = b} {a' = a'} {b' = b'} {l = r} e f) (x, d) =
      insert_comm lt o a b (sort lt r) (ground (arith, x, eq_iff a.0 b.0, eq_iff b.0 a.0))
      ∙ (ap (λ z. insert lt z (insert lt a (sort lt r))) f
          ∙ ap (λ z. insert lt a' (insert lt z (sort lt r))) e)
  sort-perm lt l m o (Permᴰ.trans {l₂ = r} p q) d =
      sort-perm lt l r o p d ∙ sort-perm lt r m o q (IsMap-perm l r p d)

  -- For parameters whose keys are not repeated, the canonical string is the same whatever the order in
  -- which the map gives its entries.
  pub sign_string-perm :
      (t : Texts F) (l m : List (String × Value F))
      → IsOrder (Texts.lt t)
      → IsMap l
      → Permᴰ l m
      → sign_string t l ≡ sign_string t m
  unfolding sign_string
  sign_string-perm t l m o d p =
      ap (joined t)
        (sort-perm (less t) (kept l) (kept m) (IsOrder-less t o) (kept-perm l m p) (IsMap-kept l d))
