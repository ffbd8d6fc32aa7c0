-- ===== src/DataTree/Doubles.antt =====
-- `double` and the functions of the C and C++ libraries on it, which the expression trees of
-- preprocessor/ only call: a parameter of the model.
use dynare.Prelude.{ℕ, Bool, Bytes}

pub record Doubles : Type 1 where
  pub Double : Type 0
  pub is_nan : Double → Bool
  pub is_inf : Double → Bool
  -- `<`, `<=` and `==`
  pub lt : Double → Double → Bool
  pub le : Double → Double → Bool
  pub eq : Double → Double → Bool
  pub plus : Double → Double → Double
  pub minus : Double → Double → Double
  pub times : Double → Double → Double
  pub divide : Double → Double → Double
  pub negate : Double → Double
  -- The conversion of an `int`.
  pub of_int : ℕ → Double
  -- 0.5, NEAR_ZERO, M_SQRT2 and M_PI
  pub half : Double
  pub near_zero : Double
  pub sqrt2 : Double
  pub pi : Double
  -- <cmath>
  pub pow : Double → Double → Double
  pub exp : Double → Double
  pub log : Double → Double
  pub log10 : Double → Double
  pub cos : Double → Double
  pub sin : Double → Double
  pub tan : Double → Double
  pub acos : Double → Double
  pub asin : Double → Double
  pub atan : Double → Double
  pub cosh : Double → Double
  pub sinh : Double → Double
  pub tanh : Double → Double
  pub acosh : Double → Double
  pub asinh : Double → Double
  pub atanh : Double → Double
  pub sqrt : Double → Double
  pub fabs : Double → Double
  pub erf : Double → Double
  pub nearbyint : Double → Double
  -- `strtod`, and `ostream << setprecision(CONSTANTS_PRECISION) << v`
  pub strtod : Bytes → Double
  pub print : Double → Bytes
