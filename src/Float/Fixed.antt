-- ===== src/Float/Fixed.antt =====
-- A type that meets the laws of `Double`: millionths, with NaN, infinity, and one value for all that is
-- below zero. Tests and examples run on it.
use rent_auto.Prelude.{
  ℕ, zero, suc, ap, ◌+◌, ◌-◌, ◌*◌, ◌/◌, ◌^◌, Bool, true, false, ltb, leb, eqb, ◌≡◌, ◌⊎◌, refl, ℤ,
  pos, negsuc, ◌≤ℤ◌, arith, if◌then◌else◌, ◌≤◌,
}
use native.Mathlib.Nat.{mul-le-mul, le_refl, div-zero, div-mul-le_self, le-div_iff_mul-le}
use rent_auto.Float.{Double, finite, ◌≼◌, Num, cents, IsDouble}

pub data Fixed : Type 0 where
  nan ninf inf : Fixed
  num : ℕ → Fixed

abbrev one : ℕ
one = 1_000_000

abbrev lt_f : Fixed → Fixed → Bool
lt_f ninf (num _) = true
lt_f ninf inf = true
lt_f (num a) (num b) = ltb a b
lt_f (num _) inf = true
lt_f _ _ = false

abbrev le_f : Fixed → Fixed → Bool
le_f ninf ninf = true
le_f ninf (num _) = true
le_f ninf inf = true
le_f (num a) (num b) = leb a b
le_f (num _) inf = true
le_f inf inf = true
le_f _ _ = false

abbrev eq_f : Fixed → Fixed → Bool
eq_f ninf ninf = true
eq_f (num a) (num b) = eqb a b
eq_f inf inf = true
eq_f _ _ = false

abbrev is_nan_f : Fixed → Bool
is_nan_f nan = true
is_nan_f _ = false

abbrev is_inf_f : Fixed → Bool
is_inf_f inf = true
is_inf_f ninf = true
is_inf_f _ = false

-- on numbers, and the left operand's value elsewhere
abbrev lift : (ℕ → ℕ → Fixed) → Fixed → Fixed → Fixed
lift f (num a) (num b) = f a b
lift f (num a) _ = nan
lift f nan _ = nan
lift f x nan = nan
lift f x _ = x

abbrev sub_n : ℕ → ℕ → Fixed
sub_n a b = if leb b a then num (a - b) else ninf

abbrev fmin_f : Fixed → Fixed → Fixed
fmin_f nan _ = nan
fmin_f _ nan = nan
fmin_f x y = if le_f x y then x else y

abbrev fmax_f : Fixed → Fixed → Fixed
fmax_f nan _ = nan
fmax_f _ nan = nan
fmax_f x y = if le_f x y then y else x

abbrev on_num : (ℕ → ℕ) → Fixed → Fixed
on_num f (num a) = num (f a)
on_num f x = x

abbrev of_int_f : ℤ → Fixed
of_int_f (pos n) = num (n * one)
of_int_f (negsuc _) = ninf

abbrev to_int_f : Fixed → ℤ
to_int_f (num a) = pos (a / one)
to_int_f ninf = negsuc 0
to_int_f _ = pos 0

instance abbrev pub fixed_double : Double Fixed
fixed_double = record {
  lt = lt_f;
  le = le_f;
  eq = eq_f;
  is_nan = is_nan_f;
  is_inf = is_inf_f;
  inf = inf;
  add = lift (λ a b. num (a + b));
  sub = lift sub_n;
  mul = lift (λ a b. num (a * b / one));
  div = lift (λ a b. num (a * one / b));
  fmin = fmin_f;
  fmax = fmax_f;
  abs = λ x. x;
  ceil = on_num (λ a. (a + 999_999) / one * one);
  floor = on_num (λ a. a / one * one);
  round = on_num (λ a. (a + 500_000) / one * one);
  of_int = of_int_f;
  to_int = to_int_f;
  lit = λ m k. num (m * one / 10 ^ k);
  format = λ _ _. "";
}

-- The laws, one by one.
Num-of_le : (x y : Fixed) → x ≼ y → Num x × Num y
Num-of_le x y h = ground arith

lt-eq-not-le : (x y : Fixed) → Num x → Num y → lt_f x y ≡ (if le_f y x then false else true)
lt-eq-not-le x y a b = ground arith

le_trans : (x y z : Fixed) → x ≼ y → y ≼ z → x ≼ z
le_trans x y z a b = ground arith

le_total : (x y : Fixed) → Num x → Num y → (x ≼ y) ⊎ (y ≼ x)
le_total x y a b = ground arith

finite_between :
    (x y z : Fixed) → finite x ≡ true → finite z ≡ true → x ≼ y → y ≼ z → finite y ≡ true
finite_between x y z a b c e = ground arith

fmax_left : (x y : Fixed) → Num x → Num y → x ≼ fmax_f x y
fmax_left x y a b = ground arith

fmax_right : (x y : Fixed) → Num x → Num y → y ≼ fmax_f x y
fmax_right x y a b = ground arith

fmax_cases : (x y : Fixed) → Num x → Num y → (fmax_f x y ≡ x) ⊎ (fmax_f x y ≡ y)
fmax_cases x y a b = ground arith

fmin_left : (x y : Fixed) → Num x → Num y → fmin_f x y ≼ x
fmin_left x y a b = ground arith

fmin_right : (x y : Fixed) → Num x → Num y → fmin_f x y ≼ y
fmin_right x y a b = ground arith

fmin_cases : (x y : Fixed) → Num x → Num y → (fmin_f x y ≡ x) ⊎ (fmin_f x y ≡ y)
fmin_cases x y a b = ground arith

-- A monotone operation on the millionths is monotone.
on_num_mono :
    (f : ℕ → ℕ) (x y : Fixed) → ((a b : ℕ) → a ≤ b → f a ≤ f b) → x ≼ y → on_num f x ≼ on_num f y
on_num_mono f (num a) (num b) m h = ground (arith, m a b)
on_num_mono f nan y m h = cc
on_num_mono f ninf ninf m h = refl
on_num_mono f ninf (num b) m h = refl
on_num_mono f ninf inf m h = refl
on_num_mono f ninf nan m h = cc
on_num_mono f inf inf m h = refl
on_num_mono f inf nan m h = cc
on_num_mono f inf ninf m h = cc
on_num_mono f inf (num b) m h = cc
on_num_mono f (num a) inf m h = refl
on_num_mono f (num a) nan m h = cc
on_num_mono f (num a) ninf m h = cc

lift-on_num :
    (g : ℕ → ℕ → ℕ) (x : Fixed) (c : ℕ)
    → lift (λ a b. num (g a b)) x (num c) ≡ on_num (λ a. g a c) x
lift-on_num g (num a) c = refl
lift-on_num g _ c = refl

lift_mono :
    (g : ℕ → ℕ → ℕ) (x y : Fixed) (c : ℕ)
    → ((a b : ℕ) → a ≤ b → g a c ≤ g b c)
    → x ≼ y
    → lift (λ a b. num (g a b)) x (num c) ≼ lift (λ a b. num (g a b)) y (num c)
lift_mono g x y c m h = rw (lift-on_num g x c, lift-on_num g y c) (on_num_mono (λ a. g a c) x y m h)

div_le : (a b c : ℕ) → a ≤ b → a / c ≤ b / c
div_le a b zero h = rw (div-zero, div-zero) (le_refl zero)
div_le a b (suc c) h =
    (le-div_iff_mul-le {k = suc c} (omega arith)).1 (omega (arith, div-mul-le_self a (suc c)))

sub_mono : (x y : Fixed) (c : ℕ) → x ≼ y → lift sub_n x (num c) ≼ lift sub_n y (num c)
sub_mono x y c h = ground arith

add_grows :
    (x y : Fixed)
    → finite x ≡ true
    → finite y ≡ true
    → num 0 ≼ y
    → x ≼ lift (λ a b. num (a + b)) x y
add_grows x y fx fy h = ground arith

sub_falls : (x y : Fixed) → finite x ≡ true → finite y ≡ true → num 0 ≼ y → lift sub_n x y ≼ x
sub_falls x y fx fy h = ground arith

add_mono_by :
    (x y z : Fixed)
    → finite x ≡ true
    → finite y ≡ true
    → finite z ≡ true
    → y ≼ z
    → lift (λ a b. num (a + b)) x y ≼ lift (λ a b. num (a + b)) x z
add_mono_by x y z fx fy fz h = ground arith

double_grows :
    (x : Fixed)
    → finite x ≡ true
    → num 0 ≼ x
    → x ≼ lift (λ a b. num (a * b / one)) (num 2_000_000) x
double_grows x fx h = ground arith

of_int_mono : (n m : ℤ) → n ≤ℤ m → of_int_f n ≼ of_int_f m
of_int_mono n m h = ground arith

to_int_mono : (x y : Fixed) (c : ℕ) → num 0 ≼ x → x ≼ y → y ≼ num c → to_int_f x ≤ℤ to_int_f y
to_int_mono x y c a b e = ground arith

floor_int :
    (x : Fixed) (c : ℕ)
    → num 0 ≼ lift (λ a b. num (a * one / b)) (on_num (λ a. a / one * one) x) (num (100 * one))
    → lift (λ a b. num (a * one / b)) (on_num (λ a. a / one * one) x) (num (100 * one)) ≼ num c
    → (n : ℤ) × (on_num (λ a. a / one * one) x ≡ of_int_f n)
floor_int (num a) c h k = (pos (a / one), refl)
floor_int nan c h k = cc
floor_int ninf c h k = cc
floor_int inf c h k = cc

ceil_int :
    (x : Fixed) (c : ℕ)
    → num 0
      ≼ lift
          (λ a b. num (a * one / b))
          (on_num (λ a. (a + 999_999) / one * one) x)
          (num (100 * one))
    → lift (λ a b. num (a * one / b)) (on_num (λ a. (a + 999_999) / one * one) x) (num (100 * one))
      ≼ num c
    → (n : ℤ) × (on_num (λ a. (a + 999_999) / one * one) x ≡ of_int_f n)
ceil_int (num a) c h k = (pos ((a + 999_999) / one), refl)
ceil_int nan c h k = cc
ceil_int ninf c h k = cc
ceil_int inf c h k = cc

cents_exact_pos : (n : ℕ) → (n * one * one / (100 * one) * (100 * one) / one + 500_000) / one ≡ n
cents_exact_pos n = omega arith

cents_exact :
    (n : ℤ)
    → num 0 ≼ cents {F = Fixed} n
    → fixed_double.to_int
        (fixed_double.add (fixed_double.mul (cents n) (num (100 * one))) (num 500_000))
      ≡ n
cents_exact (pos n) h = ap pos (cents_exact_pos n)
cents_exact (negsuc n) h = cc

pub Fixed-IsDouble : IsDouble Fixed
Fixed-IsDouble = record {
  num_of_le = Num-of_le;
  lt-eq-not-le = λ x y a b. ground (arith, lt-eq-not-le x y a b);
  le_refl = λ x h. ground arith;
  le_trans = le_trans;
  le_total = le_total;
  finite_lit = λ m k. refl;
  finite_between = finite_between;
  num_add = λ x y a b. ground arith;
  num_sub = λ x y a b. ground arith;
  num_mul = λ x y a b. ground arith;
  fmax_left = fmax_left;
  fmax_right = fmax_right;
  fmax_cases = fmax_cases;
  fmin_left = fmin_left;
  fmin_right = fmin_right;
  fmin_cases = fmin_cases;
  add_mono = λ x y m k. lift_mono (λ a b. a + b) x y (m * one / 10 ^ k) (λ a b h. omega arith);
  mul_mono = λ x y m k.
      lift_mono (λ a b. a * b / one) x y (suc m * one / 10 ^ k)
        (λ a b h. div_le _ _ one (mul-le-mul h (le_refl _)));
  div_mono = λ x y m k.
      lift_mono (λ a b. a * one / b) x y (suc m * one / 10 ^ k)
        (λ a b h. div_le _ _ (suc m * one / 10 ^ k) (mul-le-mul h (le_refl _)));
  round_mono = λ x y. on_num_mono _ x y (λ a b h. omega arith);
  of_int_mono = of_int_mono;
  to_int_mono = λ x y. to_int_mono x y _;
  sub_mono = λ x y m k. sub_mono x y (m * one / 10 ^ k);
  add_grows = add_grows;
  sub_falls = sub_falls;
  add_mono_by = add_mono_by;
  double_grows = double_grows;
  floor_mono = λ x y. on_num_mono _ x y (λ a b h. omega arith);
  ceil_mono = λ x y. on_num_mono _ x y (λ a b h. omega arith);
  floor_int = λ x. floor_int x _;
  ceil_int = λ x. ceil_int x _;
  cents_exact = λ n h k. cents_exact n h;
  zero_cents = refl;
  below_zero = refl;
  within_limit = refl;
  half_up = refl;
  ceil_of_zero = refl;
  floor_of_limit = refl;
}
