-- ===== src/Prelude/Assoc.antt =====
-- Go maps with text keys where their size matters: association lists without repeated keys.
use Prim.Native.String.{String}
use mathlib.Core.Path.{◌≡◌, refl, sym, ap, ◌∙◌}
use mathlib.Core.Logic.{inl, inr}
use mathlib.Core.Bool.{Bool, true, false}
use mathlib.Core.Option.{Option, none, some}
use mathlib.Core.List.{List, [], ◌∷◌}
use native.Mathlib.Omega.{arith}
use text.Mathlib.Text.{◌==◌}
use text.Mathlib.TextEquality.{eq_iff}
use text.Mathlib.TextPositions.{eq_refl}
use rent_auto.Prelude.Tests.{if◌then◌else◌, Bool-cases}

module _ {ℓ} {V : Type ℓ} where
  -- m[k], with `none` for a key that is not set
  abbrev pub lookup : List (String × V) → String → Option V
  lookup [] k = none
  lookup ((j, v) ∷ m) k = if j == k then some v else lookup m k

  -- m[k] = v
  abbrev pub put : List (String × V) → String → V → List (String × V)
  put [] k v = (k, v) ∷ []
  put ((j, u) ∷ m) k v = if j == k then (j, v) ∷ m else (j, u) ∷ put m k v

  -- delete(m, k)
  abbrev pub remove : List (String × V) → String → List (String × V)
  remove [] k = []
  remove ((j, v) ∷ m) k = if j == k then remove m k else (j, v) ∷ remove m k

  -- the entries whose value passes the test
  abbrev pub keep : (V → Bool) → List (String × V) → List (String × V)
  keep p [] = []
  keep p ((j, v) ∷ m) = if p v then (j, v) ∷ keep p m else keep p m

  abbrev pub has : List (String × V) → String → Bool
  has [] k = false
  has ((j, v) ∷ m) k = if j == k then true else has m k

  -- no key is set twice
  abbrev pub IsMap : List (String × V) → Type 0
  IsMap [] = Unit
  IsMap ((j, v) ∷ m) = (has m j ≡ false) × IsMap m

  -- `none` too if the value does not pass the test
  abbrev pub passing : (V → Bool) → Option V → Option V
  passing p none = none
  passing p (some v) = if p v then some v else none

  pub lookup-put : (m : List (String × V)) (k : String) (v : V) → lookup (put m k v) k ≡ some v
  lookup-put [] k v = rw (eq_refl k) refl
  lookup-put ((j, u) ∷ m) k v = elim (Bool-cases (j == k)) [
    | inl h ↦ simp h refl
    | inr h ↦ simp h (lookup-put m k v)
  ]

  pub lookup-put_other :
      (m : List (String × V)) (k j : String) (v : V)
      → (k == j) ≡ false
      → lookup (put m k v) j ≡ lookup m j
  lookup-put_other [] k j v h = simp h refl
  lookup-put_other ((i, u) ∷ m) k j v h =
      let ih = lookup-put_other m k j v h in ground (arith, eq_iff i k, eq_iff i j, eq_iff k j)

  pub lookup-remove : (m : List (String × V)) (k : String) → lookup (remove m k) k ≡ none
  lookup-remove [] k = refl
  lookup-remove ((j, v) ∷ m) k = elim (Bool-cases (j == k)) [
    | inl h ↦ simp h (lookup-remove m k)
    | inr h ↦ simp h (lookup-remove m k)
  ]

  lookup-not_has : (m : List (String × V)) (k : String) → has m k ≡ false → lookup m k ≡ none
  lookup-not_has [] k h = refl
  lookup-not_has ((j, v) ∷ m) k h = let ih = lookup-not_has m k in ground arith

  pub lookup-keep :
      (p : V → Bool) (m : List (String × V)) (k : String)
      → IsMap m
      → lookup (keep p m) k ≡ passing p (lookup m k)
  lookup-keep p [] k _ = refl
  lookup-keep p ((j, v) ∷ m) k (fresh, ds) =
      let ih = lookup-keep p m k ds in
      elim (Bool-cases (j == k)) [
        | inr h ↦ elim (Bool-cases (p v)) [ inl q ↦ simp (h, q) ih | inr q ↦ simp (h, q) ih ]
        | inl h ↦
            let gone : lookup m k ≡ none =
              lookup-not_has m k (ap (has m) (sym ((eq_iff j k).0 h)) ∙ fresh) in
            elim (Bool-cases (p v)) [
              | inl q ↦ simp (h, q) refl
              | inr q ↦ simp (h, q) (ih ∙ ap (passing p) gone)
            ]
      ]

  has-put :
      (m : List (String × V)) (k j : String) (v : V)
      → has m j ≡ false
      → (k == j) ≡ false
      → has (put m k v) j ≡ false
  has-put [] k j v a b = simp b refl
  has-put ((i, u) ∷ m) k j v a b = let ih = has-put m k j v in ground arith

  pub IsMap-put : (m : List (String × V)) (k : String) (v : V) → IsMap m → IsMap (put m k v)
  IsMap-put [] k v _ = (refl, tt)
  IsMap-put ((j, u) ∷ m) k v (fresh, ds) = elim (Bool-cases (j == k)) [
    | inl h ↦ simp h (fresh, ds)
    | inr h ↦
        simp h (has-put m k j v fresh (ground (arith, eq_iff j k, eq_iff k j)), IsMap-put m k v ds)
  ]

  has-keep :
      (p : V → Bool) (m : List (String × V)) (k : String)
      → has m k ≡ false
      → has (keep p m) k ≡ false
  has-keep p [] k h = refl
  has-keep p ((j, v) ∷ m) k h = let ih = has-keep p m k in ground arith

  pub IsMap-keep : (p : V → Bool) (m : List (String × V)) → IsMap m → IsMap (keep p m)
  IsMap-keep p [] _ = tt
  IsMap-keep p ((j, v) ∷ m) (fresh, ds) = elim (Bool-cases (p v)) [
    | inl h ↦ simp h (has-keep p m j fresh, IsMap-keep p m ds)
    | inr h ↦ simp h (IsMap-keep p m ds)
  ]

  has-remove : (m : List (String × V)) (k j : String) → has m j ≡ false → has (remove m k) j ≡ false
  has-remove [] k j h = refl
  has-remove ((i, v) ∷ m) k j h = let ih = has-remove m k j in ground arith

  pub IsMap-remove : (m : List (String × V)) (k : String) → IsMap m → IsMap (remove m k)
  IsMap-remove [] k _ = tt
  IsMap-remove ((j, v) ∷ m) k (fresh, ds) = elim (Bool-cases (j == k)) [
    | inl h ↦ simp h (IsMap-remove m k ds)
    | inr h ↦ simp h (has-remove m k j fresh, IsMap-remove m k ds)
  ]
