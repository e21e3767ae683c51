-- ===== src/Float.antt =====
-- Go's float64 with the functions of `math` that the program calls, as a type `F` with operations. The
-- laws are those of IEEE 754 doubles that the theorems need; every operation is rounded, so none of them
-- says that a sum or a product is exact.
pub mod Fixed
use rent_auto.Prelude.{
  ℕ, suc, ◌^◌, String, Bool, true, false, not, ◌&&◌, ◌≡◌, ◌⊎◌, ℤ, pos, negsuc, ◌≤ℤ◌, arith, refl,
  if◌then◌else◌,
}

pub record Double (F : Type 0) : Type 0 where
  -- `x < y`, `x <= y`, `x == y`: false where one side is NaN
  pub lt : F → F → Bool
  pub le : F → F → Bool
  pub eq : F → F → Bool
  -- math.IsNaN(x), math.IsInf(x, 0), math.Inf(1)
  pub is_nan : F → Bool
  pub is_inf : F → Bool
  pub inf : F
  pub add : F → F → F
  pub sub : F → F → F
  pub mul : F → F → F
  pub div : F → F → F
  -- math.Min, math.Max, math.Abs, math.Ceil, math.Floor, math.Round
  pub fmin : F → F → F
  pub fmax : F → F → F
  pub abs : F → F
  pub ceil : F → F
  pub floor : F → F
  pub round : F → F
  -- float64(n), int64(x) and the literal m / 10 ^ k
  pub of_int : ℤ → F
  pub to_int : F → ℤ
  pub lit : ℕ → ℕ → F
  -- fmt's "%.nf"
  pub format : ℕ → F → String

infix 4 ◌≼◌
abbrev pub ◌≼◌ : {F : Type 0} ⦃d : Double F⦄ → F → F → Type 0
◌≼◌ ⦃d⦄ x y = d.le x y ≡ true

-- v ∈ ℝ
abbrev pub finite : {F : Type 0} ⦃d : Double F⦄ → F → Bool
finite ⦃d⦄ x = not (d.is_nan x) && not (d.is_inf x)

-- neither NaN: the values that the order is total on
abbrev pub Num : {F : Type 0} ⦃d : Double F⦄ → F → Type 0
Num ⦃d⦄ x = d.is_nan x ≡ false

module _ {F : Type 0} ⦃d : Double F⦄ where
  open d use {
    lt, le, is_nan, is_inf, add, sub, mul, div, fmin, fmax, ceil, floor, round, of_int, to_int, lit,
    inf,
  }

  -- n / 100, the doubles that an amount of money is rounded to
  abbrev pub cents : ℤ → F
  cents n = div (of_int n) (lit 100 0)

-- The laws of the order hold away from NaN; the operations are monotone, since rounding is; a sum,
-- difference or product of finite numbers is no NaN.
pub record IsDouble (F : Type 0) ⦃d : Double F⦄ : Type 0 where
  pub num_of_le : (x y : F) → x ≼ y → Num x × Num y
  pub lt-eq-not-le : (x y : F) → Num x → Num y → d.lt x y ≡ not (d.le y x)
  pub le_refl : (x : F) → Num x → x ≼ x
  pub le_trans : (x y z : F) → x ≼ y → y ≼ z → x ≼ z
  pub le_total : (x y : F) → Num x → Num y → (x ≼ y) ⊎ (y ≼ x)
  pub finite_lit : (m k : ℕ) → finite (d.lit m k) ≡ true
  pub finite_between :
      (x y z : F) → finite x ≡ true → finite z ≡ true → x ≼ y → y ≼ z → finite y ≡ true
  pub num_add : (x y : F) → finite x ≡ true → finite y ≡ true → Num (d.add x y)
  pub num_sub : (x y : F) → finite x ≡ true → finite y ≡ true → Num (d.sub x y)
  pub num_mul : (x y : F) → finite x ≡ true → finite y ≡ true → Num (d.mul x y)
  -- math.Max and math.Min of numbers: one of the two, and a bound of both
  pub fmax_left : (x y : F) → Num x → Num y → x ≼ d.fmax x y
  pub fmax_right : (x y : F) → Num x → Num y → y ≼ d.fmax x y
  pub fmax_cases : (x y : F) → Num x → Num y → (d.fmax x y ≡ x) ⊎ (d.fmax x y ≡ y)
  pub fmin_left : (x y : F) → Num x → Num y → d.fmin x y ≼ x
  pub fmin_right : (x y : F) → Num x → Num y → d.fmin x y ≼ y
  pub fmin_cases : (x y : F) → Num x → Num y → (d.fmin x y ≡ x) ⊎ (d.fmin x y ≡ y)
  pub add_mono : (x y : F) (m k : ℕ) → x ≼ y → d.add x (d.lit m k) ≼ d.add y (d.lit m k)
  pub mul_mono : (x y : F) (m k : ℕ) → x ≼ y → d.mul x (d.lit (suc m) k) ≼ d.mul y (d.lit (suc m) k)
  pub div_mono : (x y : F) (m k : ℕ) → x ≼ y → d.div x (d.lit (suc m) k) ≼ d.div y (d.lit (suc m) k)
  pub round_mono : (x y : F) → x ≼ y → d.round x ≼ d.round y
  pub of_int_mono : (n m : ℤ) → n ≤ℤ m → d.of_int n ≼ d.of_int m
  -- the conversion to int64 is defined below 2 ^ 63: here, up to about 10 ^ 15
  pub to_int_mono :
      (x y : F)
      → d.lit 0 0 ≼ x
      → x ≼ y
      → y ≼ d.add (d.mul (d.lit (10 ^ 13) 0) (d.lit 100 0)) (d.lit 5 1)
      → d.to_int x ≤ℤ d.to_int y
  pub sub_mono : (x y : F) (m k : ℕ) → x ≼ y → d.sub x (d.lit m k) ≼ d.sub y (d.lit m k)
  -- what is not negative can be added or subtracted; the larger summand gives the larger sum
  pub add_grows : (x y : F) → finite x ≡ true → finite y ≡ true → d.lit 0 0 ≼ y → x ≼ d.add x y
  pub sub_falls : (x y : F) → finite x ≡ true → finite y ≡ true → d.lit 0 0 ≼ y → d.sub x y ≼ x
  pub add_mono_by :
      (x y z : F)
      → finite x ≡ true
      → finite y ≡ true
      → finite z ≡ true
      → y ≼ z
      → d.add x y ≼ d.add x z
  pub double_grows : (x : F) → finite x ≡ true → d.lit 0 0 ≼ x → x ≼ d.mul (d.lit 2 0) x
  pub floor_mono : (x y : F) → x ≼ y → d.floor x ≼ d.floor y
  pub ceil_mono : (x y : F) → x ≼ y → d.ceil x ≼ d.ceil y
  -- A floor or ceiling is whole: as an amount in cents, up to 10 ^ 13.
  pub floor_int :
      (x : F)
      → d.lit 0 0 ≼ d.div (d.floor x) (d.lit 100 0)
      → d.div (d.floor x) (d.lit 100 0) ≼ d.lit (10 ^ 13) 0
      → (n : ℤ) × (d.floor x ≡ d.of_int n)
  pub ceil_int :
      (x : F)
      → d.lit 0 0 ≼ d.div (d.ceil x) (d.lit 100 0)
      → d.div (d.ceil x) (d.lit 100 0) ≼ d.lit (10 ^ 13) 0
      → (n : ℤ) × (d.ceil x ≡ d.of_int n)
  -- An amount of up to 10 ^ 13 is found again from its nearest double.
  pub cents_exact :
      (n : ℤ)
      → d.lit 0 0 ≼ cents n
      → cents n ≼ d.lit (10 ^ 13) 0
      → d.to_int (d.add (d.mul (cents n) (d.lit 100 0)) (d.lit 5 1)) ≡ n
  -- Computed at constants.
  pub zero_cents : d.lit 0 0 ≡ cents (pos 0)
  pub below_zero : d.le (d.lit 0 0) (d.sub (d.lit 0 0) (d.lit (10 ^ 15) 0)) ≡ false
  pub within_limit : d.le (d.lit (10 ^ 15) 0) (d.lit (10 ^ 13) 0) ≡ false
  pub half_up : d.lit 0 0 ≼ d.add (d.mul (d.lit 0 0) (d.lit 100 0)) (d.lit 5 1)
  pub ceil_of_zero :
      d.lit 0 0 ≼ d.div (d.ceil (d.sub (d.mul (d.lit 0 0) (d.lit 100 0)) (d.lit 1 9))) (d.lit 100 0)
  pub floor_of_limit :
      d.div (d.floor (d.add (d.mul (d.lit (10 ^ 12) 0) (d.lit 100 0)) (d.lit 1 9))) (d.lit 100 0)
      ≼ d.lit (10 ^ 13) 0
