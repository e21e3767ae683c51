-- ===== src/Eco/Adapter/Delisting.antt =====
-- What a delisting without an error says of the answers of the platform.
use rent_auto.Prelude.{
  ℕ, ◌+◌, ◌≡◌, refl, sym, ap, ◌∙◌, String, Bool, true, false, ◌&&◌, ◌==◌, Option, none, some, List,
  [], ◌∷◌, eqb, eqb_iff, any, length, lookup, put, lookup-put, lookup-put_other, All, if◌then◌else◌,
  Bool-cases, inl, inr, arith, eq_iff,
}
use rent_auto.Delivery.{Reply, failed, replied}
use rent_auto.Eco.{Client}
use rent_auto.Eco.Adapter.{
  Forms, DelistResult, partial, item_failed, expected_of, judged, check_results, delisted,
  offshelf_rent_goods, delist,
}

-- a result names the reference as taken down
abbrev pub is_done : String → DelistResult → Bool
is_done ref r = r.goods_num == ref && r.is_success

-- the references that no result has named yet
abbrev unseen : List (String × Bool) → ℕ
unseen [] = 0
unseen ((k, b) ∷ m) = if b then unseen m else unseen m + 1

unseen-lookup : (m : List (String × Bool)) (k : String) → lookup m k ≡ some false → unseen m ≡ 0 → ⊥
unseen-lookup [] k h z = cc
unseen-lookup ((j, true) ∷ m) k h z = elim (Bool-cases (j == k)) [
  | inl e ↦ let q : some true ≡ some false = (simp e at h) in cc
  | inr e ↦ unseen-lookup m k (simp e at h) z
]
unseen-lookup ((j, false) ∷ m) k h z = ground (arith, z)

unseen-put :
    (m : List (String × Bool)) (k : String)
    → lookup m k ≡ some false
    → unseen (put m k true) + 1 ≡ unseen m
unseen-put [] k h = cc
unseen-put ((j, b) ∷ m) k h = elim (Bool-cases (j == k)) [
  | inl e ↦
      let q : some b ≡ some false = (simp e at h) in let r : b ≡ false = cc in simp (e, r) refl
  | inr e ↦
      let ih = unseen-put m k (simp e at h) in
      simp e (elim (Bool-cases b) [ inl t ↦ simp t ih | inr t ↦ simp t (ap (λ n. n + 1) ih) ])
]

done_or_later :
    (m : List (String × Bool)) (r : DelistResult) (raws : List DelistResult) (k : String)
    (o : Option Bool)
    → lookup m r.goods_num ≡ o
    → judged r o (check_results (put m r.goods_num true) raws) ≡ none
    → length raws + 1 ≡ unseen m
    → lookup m k ≡ some false
    → (check_results (put m r.goods_num true) raws ≡ none
        → length raws ≡ unseen (put m r.goods_num true)
        → lookup (put m r.goods_num true) k ≡ some false
        → any (is_done k) raws ≡ true)
    → any (is_done k) (r ∷ raws) ≡ true
done_or_later m r raws k none e h n l later = cc
done_or_later m r raws k (some true) e h n l later = cc
done_or_later m r raws k (some false) e h n l later = elim (Bool-cases r.is_success) [
  | inr bad ↦ let q : some (item_failed r) ≡ none = (simp bad at h) in cc
  | inl good ↦ elim (Bool-cases (r.goods_num == k)) [
    | inl same ↦ simp (same, good) refl
    | inr differs ↦
        let rest : check_results (put m r.goods_num true) raws ≡ none = (simp good at h) in
        let fewer = unseen-put m r.goods_num e in
        simp (differs, good)
          (later rest (ground (arith, n, fewer))
            (lookup-put_other m r.goods_num k true differs ∙ l))
  ]
]

check_results-done :
    (m : List (String × Bool)) (raws : List DelistResult) (k : String)
    → check_results m raws ≡ none
    → length raws ≡ unseen m
    → lookup m k ≡ some false
    → any (is_done k) raws ≡ true
unfolding check_results
check_results-done m [] k h n l = absurd (unseen-lookup m k l (sym n))
check_results-done m (r ∷ raws) k h n l =
    done_or_later m r raws k (lookup m r.goods_num) refl h (omega arith) l
      (check_results-done (put m r.goods_num true) raws k)

-- all the references that are expected are not named yet
abbrev AllNew : List (String × Bool) → Type 0
AllNew [] = Unit
AllNew ((k, b) ∷ m) = (b ≡ false) × AllNew m

AllNew-put : (m : List (String × Bool)) (k : String) → AllNew m → AllNew (put m k false)
AllNew-put [] k _ = (refl, tt)
AllNew-put ((j, b) ∷ m) k (h, hs) = elim (Bool-cases (j == k)) [
  | inl e ↦ simp e (refl, hs)
  | inr e ↦ simp e (h, AllNew-put m k hs)
]

AllNew-expected_of :
    (refs : List String) (m : List (String × Bool)) → AllNew m → AllNew (expected_of refs m)
AllNew-expected_of [] m new = new
AllNew-expected_of (ref ∷ refs) m new =
    AllNew-expected_of refs (put m ref false) (AllNew-put m ref new)

unseen-AllNew : (m : List (String × Bool)) → AllNew m → unseen m ≡ length m
unseen-AllNew [] _ = refl
unseen-AllNew ((k, b) ∷ m) (h, hs) = let ih = unseen-AllNew m hs in simp h (ground (arith, ih))

lookup-expected_of :
    (refs : List String) (m : List (String × Bool)) (k : String)
    → lookup m k ≡ some false
    → lookup (expected_of refs m) k ≡ some false
lookup-expected_of [] m k h = h
lookup-expected_of (ref ∷ refs) m k h =
    lookup-expected_of refs (put m ref false) k (elim (Bool-cases (ref == k)) [
      | inl e ↦ let q : ref ≡ k = ground (arith, e, eq_iff ref k) in rw q (lookup-put m k false)
      | inr e ↦ lookup-put_other m ref k false e ∙ h
    ])

expected_of-All :
    (refs : List String) (m : List (String × Bool))
    → All (λ ref. lookup (expected_of refs m) ref ≡ some false) refs
expected_of-All [] m = tt
expected_of-All (ref ∷ refs) m = (
  lookup-expected_of refs (put m ref false) ref (lookup-put m ref false),
  expected_of-All refs (put m ref false),
)

delisted-done :
    (m : List (String × Bool)) (r : Reply (List DelistResult)) (refs : List String)
    → AllNew m
    → All (λ ref. lookup m ref ≡ some false) refs
    → delisted m r ≡ none
    → (raws : List DelistResult) × (r ≡ replied raws)
      × All (λ ref. any (is_done ref) raws ≡ true) refs
delisted-done m (failed err) refs new l h = cc
delisted-done m (replied raws) refs new l h = elim (Bool-cases (eqb (length raws) (length m))) [
  | inr e ↦ let q : some (partial "incomplete delist results") ≡ none = (simp e at h) in cc
  | inl e ↦
      let checked : check_results m raws ≡ none = (simp e at h) in
      let n : length raws ≡ length m = ground (arith, e, eqb_iff (length raws) (length m)) in
      (raws, refl, each refs l checked (n ∙ sym (unseen-AllNew m new)))
]
  where
    each :
        (ks : List String)
        → All (λ ref. lookup m ref ≡ some false) ks
        → check_results m raws ≡ none
        → length raws ≡ unseen m
        → All (λ ref. any (is_done ref) raws ≡ true) ks
    each [] _ c n = tt
    each (k ∷ ks) (x, xs) c n = (check_results-done m raws k c n x, each ks xs c n)

module _ {W V F : Type 0} where
  -- A delisting that reports no error was answered by the platform, and the answer names every reference
  -- of the request as taken down.
  pub delist-done :
      (c : Client W V) (f : Forms V F) (w : W) (ref : String) (refs : List String)
      → (delist c f w (ref ∷ refs)).1 ≡ none
      → (raws : List DelistResult) × ((offshelf_rent_goods c f w (ref ∷ refs)).1 ≡ replied raws)
        × All (λ k. any (is_done k) raws ≡ true) (ref ∷ refs)
  unfolding delist
  delist-done c f w ref refs h =
      delisted-done (expected_of (ref ∷ refs) []) (offshelf_rent_goods c f w (ref ∷ refs)).1
        (ref ∷ refs) (AllNew-expected_of (ref ∷ refs) [] tt) (expected_of-All (ref ∷ refs) []) h
