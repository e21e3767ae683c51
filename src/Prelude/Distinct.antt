-- ===== src/Prelude/Distinct.antt =====
-- Lists of texts with no repetition: Go's sets, as the lists of their elements.
use Prim.Native.String.{String}
use mathlib.Core.Path.{◌≡◌, refl}
use mathlib.Core.Bool.{false, ◌||◌}
use mathlib.Core.List.{List, [], ◌∷◌, ◌++◌}
use native.Mathlib.Omega.{arith}
use text.Mathlib.Text.{◌==◌}
use text.Mathlib.TextEquality.{eq_iff}
use rent_auto.Prelude.Lists.{any}

-- No text of a list is there twice.
abbrev pub IsDistinct : List String → Type 0
IsDistinct [] = Unit
IsDistinct (x ∷ xs) = (any (λ y. y == x) xs ≡ false) × IsDistinct xs

pub any-snoc :
    (x a : String) (xs : List String)
    → any (λ y. y == x) xs ≡ false
    → (a == x) ≡ false
    → any (λ y. y == x) (xs ++ (a ∷ [])) ≡ false
any-snoc x a [] h n = ground arith
any-snoc x a (y ∷ ys) h n = ground (arith, any-snoc x a ys)

pub IsDistinct-snoc :
    (a : String) (xs : List String)
    → IsDistinct xs
    → any (λ y. y == a) xs ≡ false
    → IsDistinct (xs ++ (a ∷ []))
IsDistinct-snoc a [] d n = (refl, tt)
IsDistinct-snoc a (x ∷ xs) (f, d) n = (
  any-snoc x a xs f (ground (arith, eq_iff x a, eq_iff a x)),
  IsDistinct-snoc a xs d (ground arith),
)

pub any-snoc-eq-or :
    (x a : String) (xs : List String)
    → any (λ y. y == x) (xs ++ (a ∷ [])) ≡ (any (λ y. y == x) xs || (a == x))
any-snoc-eq-or x a [] = ground arith
any-snoc-eq-or x a (y ∷ ys) = ground (arith, any-snoc-eq-or x a ys)
