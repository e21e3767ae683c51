-- ===== src/Prelude/Maps.antt =====
-- Go maps with text keys, as functions: the value at a key that is not set is the zero value.
use Prim.Native.Nat.{ℕ}
use Prim.Native.String.{String}
use mathlib.Core.Bool.{◌&&◌}
use text.Mathlib.Text.{◌==◌}
use rent_auto.Prelude.Tests.{if◌then◌else◌, eqb}

module _ {ℓ} {V : Type ℓ} where
  -- m[k] = v
  abbrev pub update : (String → V) → String → V → String → V
  update m k v j = if j == k then v else m j

  -- m[h][c] = v
  abbrev pub update₂ : (String → String → V) → String → String → V → String → String → V
  update₂ m h c v h' c' = if h' == h && c' == c then v else m h' c'

  -- m[i] = v, for a map with integer keys
  abbrev pub update_at : (ℕ → V) → ℕ → V → ℕ → V
  update_at m i v j = if eqb j i then v else m j
