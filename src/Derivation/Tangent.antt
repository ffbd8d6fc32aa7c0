-- ===== src/Derivation/Tangent.antt =====
-- The derivatives of the operations of preprocessor/ExprNode.cc as textbooks give them, on numbers: the
-- derivative of f(v) where `dv` is that of v.
use dynare.Prelude.{not, ◌&&◌, if◌then◌else◌, Result, throw, ok, ◌>>=◌}
use dynare.DataTree.Doubles.{Doubles}
use dynare.DataTree.Nodes.{UnaryOpcode, BinaryOpcode, TrinaryOpcode}
use dynare.DataTree.Eval.{EvalError, eval_exception, eval_trinary}
use dynare.DataTree.Values.{quotient}

module _ (d : Doubles) where
  open d use {
    Double, of_int, lt, eq, negate, plus, minus, times, divide, pow, exp, log, cos, sin, tan, cosh,
    sinh, tanh, sqrt, fabs, near_zero, pi,
  }

  abbrev pub Derived : Type 0
  Derived = Result EvalError Double

  -- An operation has a derivative where this is not an exception. The derivatives of STEADY_STATE in a
  -- dynamic model and of the expectation operator are left out; the one of `erf` at 0, too.
  unfoldable pub tangent_unary : UnaryOpcode → Double → Double → Derived
  tangent_unary UnaryOpcode.uminus v dv = ok (negate dv)
  tangent_unary UnaryOpcode.exp v dv = ok (times (exp v) dv)
  tangent_unary UnaryOpcode.log v dv = quotient d dv v
  tangent_unary UnaryOpcode.log10 v dv =
      if eq v (of_int 0) then throw eval_exception else ok (divide dv (times v (log (of_int 10))))
  tangent_unary UnaryOpcode.cos v dv = ok (negate (times (sin v) dv))
  tangent_unary UnaryOpcode.sin v dv = ok (times (cos v) dv)
  tangent_unary UnaryOpcode.tan v dv = ok (times (plus (of_int 1) (times (tan v) (tan v))) dv)
  tangent_unary UnaryOpcode.acos v dv = do
    q ← quotient d dv (sqrt (minus (of_int 1) (times v v)))
    ok (negate q)
  tangent_unary UnaryOpcode.asin v dv = quotient d dv (sqrt (minus (of_int 1) (times v v)))
  tangent_unary UnaryOpcode.atan v dv = quotient d dv (plus (of_int 1) (times v v))
  tangent_unary UnaryOpcode.cosh v dv = ok (times (sinh v) dv)
  tangent_unary UnaryOpcode.sinh v dv = ok (times (cosh v) dv)
  tangent_unary UnaryOpcode.tanh v dv = ok (times (minus (of_int 1) (times (tanh v) (tanh v))) dv)
  tangent_unary UnaryOpcode.acosh v dv = quotient d dv (sqrt (minus (times v v) (of_int 1)))
  tangent_unary UnaryOpcode.asinh v dv = quotient d dv (sqrt (plus (times v v) (of_int 1)))
  tangent_unary UnaryOpcode.atanh v dv = quotient d dv (minus (of_int 1) (times v v))
  tangent_unary UnaryOpcode.sqrt v dv = quotient d dv (times (of_int 2) (sqrt v))
  tangent_unary UnaryOpcode.abs v dv =
      if lt (of_int 0) v
      then ok dv
      else if lt v (of_int 0)
      then ok (negate dv)
      else throw eval_exception
  tangent_unary UnaryOpcode.sign v dv =
      if eq v (of_int 0) then throw eval_exception else ok (of_int 0)
  tangent_unary UnaryOpcode.steady_state v dv = throw eval_exception
  tangent_unary UnaryOpcode.steady_state_param_deriv v dv = throw eval_exception
  tangent_unary UnaryOpcode.steady_state_param_2nd_deriv v dv = throw eval_exception
  tangent_unary UnaryOpcode.expectation v dv = throw eval_exception
  tangent_unary UnaryOpcode.erf v dv =
      if eq v (of_int 0)
      then throw eval_exception
      else ok (times (times (divide (of_int 2) (sqrt pi)) (exp (negate (times v v)))) dv)

  -- Where the two numbers differ, a comparison is constant.
  abbrev pub tangent_test : Double → Double → Derived
  tangent_test v1 v2 = if eq v1 v2 then throw eval_exception else ok (of_int 0)

  -- The derivative of v1 ^ v2, for a positive `v1` that is not almost 0.
  abbrev pub tangent_power : Double → Double → Double → Double → Derived
  tangent_power v1 v2 dv1 dv2 =
      if lt (of_int 0) v1 && not (lt (fabs v1) near_zero)
      then ok (times (plus (times dv2 (log v1)) (divide (times dv1 v2) v1)) (pow v1 v2))
      else throw eval_exception

  abbrev pub tangent_max : Double → Double → Double → Double → Derived
  tangent_max v1 v2 dv1 dv2 =
      if lt v1 v2 then ok dv2 else if lt v2 v1 then ok dv1 else throw eval_exception

  -- That of a derivative of a power is left out. An equation stands for its residual.
  unfoldable pub tangent_binary : BinaryOpcode → Double → Double → Double → Double → Derived
  tangent_binary BinaryOpcode.plus v1 v2 dv1 dv2 = ok (plus dv1 dv2)
  tangent_binary BinaryOpcode.minus v1 v2 dv1 dv2 = ok (minus dv1 dv2)
  tangent_binary BinaryOpcode.times v1 v2 dv1 dv2 = ok (plus (times dv1 v2) (times v1 dv2))
  tangent_binary BinaryOpcode.divide v1 v2 dv1 dv2 =
      if eq v2 (of_int 0)
      then throw eval_exception
      else ok (divide (minus (times dv1 v2) (times v1 dv2)) (times v2 v2))
  tangent_binary BinaryOpcode.power v1 v2 dv1 dv2 = tangent_power v1 v2 dv1 dv2
  tangent_binary BinaryOpcode.power_deriv v1 v2 dv1 dv2 = throw eval_exception
  tangent_binary BinaryOpcode.equal v1 v2 dv1 dv2 = ok (minus dv1 dv2)
  tangent_binary BinaryOpcode.max v1 v2 dv1 dv2 = tangent_max v1 v2 dv1 dv2
  tangent_binary BinaryOpcode.min v1 v2 dv1 dv2 = tangent_max v2 v1 dv1 dv2
  tangent_binary BinaryOpcode.less v1 v2 dv1 dv2 = tangent_test v1 v2
  tangent_binary BinaryOpcode.greater v1 v2 dv1 dv2 = tangent_test v1 v2
  tangent_binary BinaryOpcode.less_equal v1 v2 dv1 dv2 = tangent_test v1 v2
  tangent_binary BinaryOpcode.greater_equal v1 v2 dv1 dv2 = tangent_test v1 v2
  tangent_binary BinaryOpcode.equal_equal v1 v2 dv1 dv2 = tangent_test v1 v2
  tangent_binary BinaryOpcode.different v1 v2 dv1 dv2 = tangent_test v1 v2

  -- `(v1 - v2) / v3`, and the density of the standard normal distribution there
  abbrev pub standardized : Double → Double → Double → Double
  standardized v1 v2 v3 = divide (minus v1 v2) v3

  abbrev pub density : Double → Double
  density y = divide (exp (divide (negate (times y y)) (of_int 2))) (sqrt (times (of_int 2) pi))

  -- The derivative of `standardized`, times `v3`
  abbrev pub shift : Double → Double → Double → Double → Double
  shift y dv1 dv2 dv3 = minus (minus dv1 dv2) (times y dv3)

  unfoldable pub tangent_trinary :
      TrinaryOpcode → Double → Double → Double → Double → Double → Double → Derived
  tangent_trinary TrinaryOpcode.normcdf v1 v2 v3 dv1 dv2 dv3 =
      if eq v3 (of_int 0)
      then throw eval_exception
      else (let y = standardized v1 v2 v3 in
          ok (times (density y) (divide (shift y dv1 dv2 dv3) v3)))
  tangent_trinary TrinaryOpcode.normpdf v1 v2 v3 dv1 dv2 dv3 =
      if eq v3 (of_int 0) then throw eval_exception else (do
        p ← eval_trinary d v1 TrinaryOpcode.normpdf v2 v3
        let y = standardized v1 v2 v3
        ok (negate (times (divide p v3) (plus (times y (shift y dv1 dv2 dv3)) dv3))))
