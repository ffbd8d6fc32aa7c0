-- ===== src/DataTree/Trits.antt =====
-- Arithmetic modulo 3, an exact arithmetic in which the laws that the simplifications of
-- preprocessor/DataTree.cc use hold: the numbers of the tests.
use dynare.Prelude.{ℕ, zero, suc, ◌≡◌, refl, Bool, true, false, Bytes, Bytes-discrete, codes}
use dynare.DataTree.Doubles.{Doubles}
use dynare.DataTree.Laws.{Laws}
use dynare.DataTree.NewTree.{ReadsTexts}

pub data Trit : Type 0 where
  nought one minus_one : Trit

unfoldable pub add : Trit → Trit → Trit
add nought w = w
add one nought = one
add one one = minus_one
add one minus_one = nought
add minus_one nought = minus_one
add minus_one one = nought
add minus_one minus_one = one

unfoldable pub opposite : Trit → Trit
opposite nought = nought
opposite one = minus_one
opposite minus_one = one

unfoldable pub product : Trit → Trit → Trit
product nought w = nought
product one w = w
product minus_one w = opposite w

-- The order -1 < 0 < 1.
unfoldable pub below : Trit → Trit → Bool
below minus_one nought = true
below minus_one one = true
below nought one = true
below v w = false

unfoldable pub same : Trit → Trit → Bool
same nought nought = true
same one one = true
same minus_one minus_one = true
same v w = false

unfoldable pub power : Trit → Trit → Trit
power v nought = one
power v one = v
power v minus_one = product v v

-- The order 0 <= 1 <= 2, where -1 is 2.
unfoldable pub at_most : Trit → Trit → Bool
at_most nought w = true
at_most one nought = false
at_most one w = true
at_most minus_one minus_one = true
at_most minus_one w = false

-- A function with the value 0 at 1.
unfoldable pub root_at_one : Trit → Trit
root_at_one one = nought
root_at_one v = v

unfoldable pub of_ℕ : ℕ → Trit
of_ℕ zero = nought
of_ℕ (suc n) = add one (of_ℕ n)

unfoldable pub printed : Trit → Bytes
printed nought = codes "0"
printed v = codes "1"

unfoldable pub read : Bytes → Trit
read s = elim (Bytes-discrete s (codes "0")) [
  | yes e ↦ nought
  | no e ↦ elim (Bytes-discrete s (codes "2")) [ yes e' ↦ minus_one | no e' ↦ one ]
]

abbrev pub absolute : Trit → Trit
absolute v = product v v

abbrev pub trits : Doubles
trits = record {
  Double = Trit;
  is_nan = λ v. false;
  is_inf = λ v. false;
  lt = below;
  le = at_most;
  eq = same;
  plus = add;
  minus = λ v w. add v (opposite w);
  times = product;
  divide = product;
  negate = opposite;
  of_int = of_ℕ;
  half = minus_one;
  near_zero = nought;
  sqrt2 = one;
  pi = one;
  pow = power;
  exp = λ v. one;
  log = root_at_one;
  log10 = λ v. nought;
  cos = λ v. add one (opposite (product v v));
  sin = λ v. v;
  tan = λ v. v;
  acos = λ v. add one (opposite (product v v));
  asin = λ v. v;
  atan = λ v. v;
  cosh = λ v. add (product v v) one;
  sinh = λ v. v;
  tanh = λ v. v;
  acosh = λ v. add (product v v) (opposite one);
  asinh = λ v. v;
  atanh = λ v. v;
  sqrt = λ v. v;
  fabs = absolute;
  erf = λ v. v;
  nearbyint = λ v. v;
  strtod = read;
  print = printed;
}

read-printed : (v : Trit) → below v nought ≡ false → read (printed v) ≡ v
unfolding read printed below Bytes-discrete
read-printed nought h = refl
read-printed one h = refl
read-printed minus_one h = cc

opposite-below : (v : Trit) → below v nought ≡ true → below (opposite v) nought ≡ false
unfolding below add opposite product same power
opposite-below nought h = refl
opposite-below one h = cc
opposite-below minus_one h = refl

opposite-opposite : (v : Trit) → opposite (opposite v) ≡ v
unfolding below add opposite product same power
opposite-opposite nought = refl
opposite-opposite one = refl
opposite-opposite minus_one = refl

add_nought : (v : Trit) → add v nought ≡ v
unfolding below add opposite product same power
add_nought nought = refl
add_nought one = refl
add_nought minus_one = refl

add-opposite : (v : Trit) → add v (opposite v) ≡ nought
unfolding below add opposite product same power
add-opposite nought = refl
add-opposite one = refl
add-opposite minus_one = refl

add_comm : (v w : Trit) → add v w ≡ add w v
unfolding below add opposite product same power
add_comm nought nought = refl
add_comm nought one = refl
add_comm nought minus_one = refl
add_comm one nought = refl
add_comm one one = refl
add_comm one minus_one = refl
add_comm minus_one nought = refl
add_comm minus_one one = refl
add_comm minus_one minus_one = refl

product_comm : (v w : Trit) → product v w ≡ product w v
unfolding below add opposite product same power
product_comm nought nought = refl
product_comm nought one = refl
product_comm nought minus_one = refl
product_comm one nought = refl
product_comm one one = refl
product_comm one minus_one = refl
product_comm minus_one nought = refl
product_comm minus_one one = refl
product_comm minus_one minus_one = refl

product_one : (v : Trit) → product v one ≡ v
unfolding below add opposite product same power
product_one nought = refl
product_one one = refl
product_one minus_one = refl

product_nought : (v : Trit) → product v nought ≡ nought
unfolding below add opposite product same power
product_nought nought = refl
product_nought one = refl
product_nought minus_one = refl

product_minus_one : (v : Trit) → product v minus_one ≡ opposite v
unfolding below add opposite product same power
product_minus_one nought = refl
product_minus_one one = refl
product_minus_one minus_one = refl

product_self : (v : Trit) → same v nought ≡ false → product v v ≡ one
unfolding below add opposite product same power
product_self nought h = cc
product_self one h = refl
product_self minus_one h = refl

power_of_one : (v : Trit) → power one v ≡ one
unfolding below add opposite product same power
power_of_one nought = refl
power_of_one one = refl
power_of_one minus_one = refl

power_of_nought : (v : Trit) → below nought v ≡ true → power nought v ≡ nought
unfolding below add opposite product same power
power_of_nought nought h = cc
power_of_nought one h = refl
power_of_nought minus_one h = refl

pub trits-Laws : Laws trits
unfolding read printed below add opposite product same power at_most root_at_one of_ℕ Bytes-discrete
trits-Laws = record {
  text_zero = refl;
  text_one = refl;
  text_nan = λ v h. cc;
  text_infinity = λ v h k. cc;
  text_minus_infinity = λ v h k. cc;
  text_print = λ v h k. read-printed v k;
  lt_or_le = λ v h k. refl;
  negate_negative = opposite-below;
  negate_nan = λ v h. refl;
  negate_negate = opposite-opposite;
  negate_zero = refl;
  plus_comm = add_comm;
  plus_zero = add_nought;
  plus_negate = λ v w. refl;
  minus_zero = add_nought;
  zero_minus = λ v. refl;
  minus_self = add-opposite;
  times_comm = product_comm;
  times_one = product_one;
  times_zero = product_nought;
  times_minus_one = product_minus_one;
  divide_one = product_one;
  zero_divide = λ v h. refl;
  divide_self = product_self;
  one_pow = power_of_one;
  pow_one = λ v. refl;
  pow_zero = λ v. refl;
  zero_pow = power_of_nought;
  exp_zero = refl;
  log_one = refl;
  log10_one = refl;
  cos_zero = refl;
  sin_zero = refl;
  tan_zero = refl;
  acos_one = refl;
  asin_zero = refl;
  atan_zero = refl;
  cosh_zero = refl;
  sinh_zero = refl;
  tanh_zero = refl;
  acosh_one = refl;
  asinh_zero = refl;
  atanh_zero = refl;
  sqrt_zero = refl;
  abs_zero = refl;
  abs_one = refl;
  erf_zero = refl;
  sign_zero = refl;
  sign_one = refl;
  eq_self = refl;
}

pub trits-ReadsTexts : ReadsTexts trits
unfolding read at_most of_ℕ add Bytes-discrete
trits-ReadsTexts = record {
  zero = refl;
  one = refl;
  two = refl;
  nan = refl;
  infinity = refl;
  pi = refl;
}
