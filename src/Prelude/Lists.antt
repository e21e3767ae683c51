-- ===== src/Prelude/Lists.antt =====
-- Lists measured and indexed by native numbers, under the library's names, and predicates over
-- all elements of a list.
use Prim.Native.Nat.{ℕ, zero, suc, ◌+◌}
use mathlib.Core.Path.{◌≡◌, refl, sym, ap, subst}
use mathlib.Core.Bool.{Bool, true, false}
use mathlib.Core.Option.{Option, none, some}
use mathlib.Core.List.{List, [], ◌∷◌, ◌++◌, Memᴰ}
use native.Mathlib.Omega.{arith}
use rent_auto.Prelude.Tests.{if◌then◌else◌}

module _ {ℓ} {A : Type ℓ} where
  abbrev pub length : List A → ℕ
  length [] = 0
  length (_ ∷ xs) = suc (length xs)

  abbrev pub get_elem? : List A → ℕ → Option A
  get_elem? [] i = none
  get_elem? (x ∷ xs) zero = some x
  get_elem? (x ∷ xs) (suc i) = get_elem? xs i

  abbrev pub take : ℕ → List A → List A
  take zero xs = []
  take (suc n) [] = []
  take (suc n) (x ∷ xs) = x ∷ take n xs

  abbrev pub drop : ℕ → List A → List A
  drop zero xs = xs
  drop (suc n) [] = []
  drop (suc n) (x ∷ xs) = drop n xs

  abbrev pub replicate : ℕ → A → List A
  replicate zero _ = []
  replicate (suc n) a = a ∷ replicate n a

  abbrev pub filter : (A → Bool) → List A → List A
  filter p [] = []
  filter p (x ∷ xs) = if p x then x ∷ filter p xs else filter p xs

  abbrev pub any : (A → Bool) → List A → Bool
  any p [] = false
  any p (x ∷ xs) = if p x then true else any p xs

  pub length-append : (xs ys : List A) → length (xs ++ ys) ≡ length xs + length ys
  length-append [] ys = omega arith
  length-append (_ ∷ xs) ys = omega (arith, length-append xs ys)

  pub length-replicate : (n : ℕ) (a : A) → length (replicate n a) ≡ n
  length-replicate zero a = refl
  length-replicate (suc n) a = ap suc (length-replicate n a)

  abbrev pub All {κ} : (A → Type κ) → List A → Type κ
  All P [] = Unit
  All P (x ∷ xs) = P x × All P xs

  pub All-append {κ} : (P : A → Type κ) (xs ys : List A) → All P xs → All P ys → All P (xs ++ ys)
  All-append P [] ys _ q = q
  All-append P (x ∷ xs) ys (p, ps) q = (p, All-append P xs ys ps q)

  pub All-map {κ μ} :
      {P : A → Type κ} {Q : A → Type μ} (xs : List A) → ((x : A) → P x → Q x) → All P xs → All Q xs
  All-map [] f _ = tt
  All-map (x ∷ xs) f (p, ps) = (f x p, All-map xs f ps)

  pub All-mem {κ} : {P : A → Type κ} (xs : List A) → ((x : A) → Memᴰ x xs → P x) → All P xs
  All-mem [] f = tt
  All-mem (x ∷ xs) f = (f x (Memᴰ.head refl), All-mem xs (λ y m. f y (Memᴰ.tail m)))

  pub mem_All {κ} : (P : A → Type κ) {a : A} (xs : List A) → All P xs → Memᴰ a xs → P a
  mem_All P [] _ m = elim m [ ]
  mem_All P (x ∷ xs) (p, ps) (Memᴰ.head e) = subst P (sym e) p
  mem_All P (x ∷ xs) (p, ps) (Memᴰ.tail m) = mem_All P xs ps m

  pub mem-append_left : {a : A} (xs ys : List A) → Memᴰ a xs → Memᴰ a (xs ++ ys)
  mem-append_left [] ys m = elim m [ ]
  mem-append_left (x ∷ xs) ys (Memᴰ.head e) = Memᴰ.head e
  mem-append_left (x ∷ xs) ys (Memᴰ.tail m) = Memᴰ.tail (mem-append_left xs ys m)

  pub mem-snoc : (a : A) (xs : List A) → Memᴰ a (xs ++ (a ∷ []))
  mem-snoc a [] = Memᴰ.head refl
  mem-snoc a (x ∷ xs) = Memᴰ.tail (mem-snoc a xs)

-- Two lists of the same length whose elements at the same place are related.
abbrev pub Zipped {ℓ μ} : {A : Type ℓ} {B : Type μ} → (A → B → Type 0) → List A → List B → Type 0
Zipped P [] [] = Unit
Zipped P [] (_ ∷ _) = ⊥
Zipped P (_ ∷ _) [] = ⊥
Zipped P (x ∷ xs) (y ∷ ys) = P x y × Zipped P xs ys

pub Zipped-length {ℓ μ} :
    {A : Type ℓ} {B : Type μ} (P : A → B → Type 0) (xs : List A) (ys : List B)
    → Zipped P xs ys
    → length xs ≡ length ys
Zipped-length P [] [] z = refl
Zipped-length P [] (_ ∷ _) z = absurd z
Zipped-length P (_ ∷ _) [] z = absurd z
Zipped-length P (x ∷ xs) (y ∷ ys) (p, z) = ap suc (Zipped-length P xs ys z)
