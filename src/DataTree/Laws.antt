-- ===== src/DataTree/Laws.antt =====
-- The laws of arithmetic that the simplifications of preprocessor/DataTree.cc use. They are those of
-- exact arithmetic, in which the text of a constant loses nothing: sums of `double` obey them up to
-- rounding, infinities and NaN, and `setprecision(16)` keeps 16 digits.
use dynare.Prelude.{true, false, ◌≡◌, codes}
use dynare.DataTree.Doubles.{Doubles}

pub record Laws (d : Doubles) : Type 0 where
  -- Constants and their texts.
  pub text_zero : d.strtod (codes "0") ≡ d.of_int 0
  pub text_one : d.strtod (codes "1") ≡ d.of_int 1
  pub text_nan : (v : d.Double) → d.is_nan v ≡ true → d.strtod (codes "NaN") ≡ v
  pub text_infinity :
      (v : d.Double) → d.is_inf v ≡ true → d.lt v (d.of_int 0) ≡ false → d.strtod (codes "Inf") ≡ v
  pub text_minus_infinity :
      (v : d.Double)
      → d.is_inf v ≡ true
      → d.lt v (d.of_int 0) ≡ true
      → d.negate (d.strtod (codes "Inf")) ≡ v
  pub text_print :
      (v : d.Double) → d.is_nan v ≡ false → d.lt v (d.of_int 0) ≡ false → d.strtod (d.print v) ≡ v
  pub lt_or_le :
      (v : d.Double) → d.is_nan v ≡ false → d.lt v (d.of_int 0) ≡ false → d.le (d.of_int 0) v ≡ true
  pub negate_negative :
      (v : d.Double) → d.lt v (d.of_int 0) ≡ true → d.lt (d.negate v) (d.of_int 0) ≡ false
  pub negate_nan : (v : d.Double) → d.is_nan v ≡ false → d.is_nan (d.negate v) ≡ false
  -- Sums and differences.
  pub negate_negate : (v : d.Double) → d.negate (d.negate v) ≡ v
  pub negate_zero : d.negate (d.of_int 0) ≡ d.of_int 0
  pub plus_comm : (v w : d.Double) → d.plus v w ≡ d.plus w v
  pub plus_zero : (v : d.Double) → d.plus v (d.of_int 0) ≡ v
  pub plus_negate : (v w : d.Double) → d.plus v (d.negate w) ≡ d.minus v w
  pub minus_zero : (v : d.Double) → d.minus v (d.of_int 0) ≡ v
  pub zero_minus : (v : d.Double) → d.minus (d.of_int 0) v ≡ d.negate v
  pub minus_self : (v : d.Double) → d.minus v v ≡ d.of_int 0
  -- Products, quotients and powers.
  pub times_comm : (v w : d.Double) → d.times v w ≡ d.times w v
  pub times_one : (v : d.Double) → d.times v (d.of_int 1) ≡ v
  pub times_zero : (v : d.Double) → d.times v (d.of_int 0) ≡ d.of_int 0
  pub times_minus_one : (v : d.Double) → d.times v (d.negate (d.of_int 1)) ≡ d.negate v
  pub divide_one : (v : d.Double) → d.divide v (d.of_int 1) ≡ v
  pub zero_divide :
      (v : d.Double) → d.eq v (d.of_int 0) ≡ false → d.divide (d.of_int 0) v ≡ d.of_int 0
  pub divide_self : (v : d.Double) → d.eq v (d.of_int 0) ≡ false → d.divide v v ≡ d.of_int 1
  pub one_pow : (v : d.Double) → d.pow (d.of_int 1) v ≡ d.of_int 1
  pub pow_one : (v : d.Double) → d.pow v (d.of_int 1) ≡ v
  pub pow_zero : (v : d.Double) → d.pow v (d.of_int 0) ≡ d.of_int 1
  pub zero_pow : (v : d.Double) → d.lt (d.of_int 0) v ≡ true → d.pow (d.of_int 0) v ≡ d.of_int 0
  -- Functions at zero and one.
  pub exp_zero : d.exp (d.of_int 0) ≡ d.of_int 1
  pub log_one : d.log (d.of_int 1) ≡ d.of_int 0
  pub log10_one : d.log10 (d.of_int 1) ≡ d.of_int 0
  pub cos_zero : d.cos (d.of_int 0) ≡ d.of_int 1
  pub sin_zero : d.sin (d.of_int 0) ≡ d.of_int 0
  pub tan_zero : d.tan (d.of_int 0) ≡ d.of_int 0
  pub acos_one : d.acos (d.of_int 1) ≡ d.of_int 0
  pub asin_zero : d.asin (d.of_int 0) ≡ d.of_int 0
  pub atan_zero : d.atan (d.of_int 0) ≡ d.of_int 0
  pub cosh_zero : d.cosh (d.of_int 0) ≡ d.of_int 1
  pub sinh_zero : d.sinh (d.of_int 0) ≡ d.of_int 0
  pub tanh_zero : d.tanh (d.of_int 0) ≡ d.of_int 0
  pub acosh_one : d.acosh (d.of_int 1) ≡ d.of_int 0
  pub asinh_zero : d.asinh (d.of_int 0) ≡ d.of_int 0
  pub atanh_zero : d.atanh (d.of_int 0) ≡ d.of_int 0
  pub sqrt_zero : d.sqrt (d.of_int 0) ≡ d.of_int 0
  pub abs_zero : d.fabs (d.of_int 0) ≡ d.of_int 0
  pub abs_one : d.fabs (d.of_int 1) ≡ d.of_int 1
  pub erf_zero : d.erf (d.of_int 0) ≡ d.of_int 0
  pub sign_zero : d.lt (d.of_int 0) (d.of_int 0) ≡ false
  pub sign_one : d.lt (d.of_int 0) (d.of_int 1) ≡ true
  -- `==` on equal numbers.
  pub eq_self : d.eq (d.of_int 0) (d.of_int 0) ≡ true
