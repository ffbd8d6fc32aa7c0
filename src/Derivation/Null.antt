-- ===== src/Derivation/Null.antt =====
-- A derivative is 0 where the derivatives of the arguments are.
use dynare.Prelude.{◌≡◌, ap, ◌∙◌, inl, inr, false, ok, arith, Bool-cases, ok-injective, >>=-eq-ok}
use dynare.DataTree.Doubles.{Doubles}
use dynare.DataTree.Laws.{Laws}
use dynare.DataTree.Nodes.{UnaryOpcode, BinaryOpcode, TrinaryOpcode, normcdf, normpdf}
use dynare.DataTree.Eval.{eval_trinary}
use dynare.DataTree.Values.{quotient}
use dynare.Derivation.Laws.{DerivativeLaws}
use dynare.Derivation.Tangent.{
  Derived, tangent_unary, tangent_binary, tangent_trinary, tangent_power, tangent_max, tangent_test,
  standardized, shift, density,
}

module _ (d : Doubles) (laws : Laws d) (more : DerivativeLaws d) where
  open d use {Double, of_int, eq, lt, negate, plus, minus, times, divide}

  times_null : (v : Double) → times v (of_int 0) ≡ of_int 0
  times_null = laws.times_zero

  null_times : (v : Double) → times (of_int 0) v ≡ of_int 0
  null_times v = laws.times_comm (of_int 0) v ∙ laws.times_zero v

  quotient_null : (v z : Double) → quotient d (of_int 0) v ≡ ok z → z ≡ of_int 0
  quotient_null v z h =
      let (ne, q) : (eq v (of_int 0) ≡ false) × (divide (of_int 0) v ≡ z) = ground arith in
      cc (laws.zero_divide v ne)

  of_ok : {v z : Double} → ◌≡◌ {A = Derived d} (ok v) (ok z) → v ≡ of_int 0 → z ≡ of_int 0
  of_ok h q = cc (ok-injective h)

  unary_at_zero :
      (op : UnaryOpcode) (v z : Double) → tangent_unary d op v (of_int 0) ≡ ok z → z ≡ of_int 0
  unfolding tangent_unary
  unary_at_zero UnaryOpcode.uminus v z h = of_ok h laws.negate_zero
  unary_at_zero UnaryOpcode.exp v z h = of_ok h (times_null _)
  unary_at_zero UnaryOpcode.log v z h = quotient_null v z h
  unary_at_zero UnaryOpcode.log10 v z h =
      let (ne, q) : (eq v (of_int 0) ≡ false)
          × (divide (of_int 0) (times v (d.log (of_int 10))) ≡ z) =
        ground arith in
      cc (more.log10_e v (of_int 0), laws.zero_divide v ne, times_null (d.log10 (d.exp (of_int 1))))
  unary_at_zero UnaryOpcode.cos v z h = of_ok h (ap negate (times_null _) ∙ laws.negate_zero)
  unary_at_zero UnaryOpcode.sin v z h = of_ok h (times_null _)
  unary_at_zero UnaryOpcode.tan v z h = of_ok h (times_null _)
  unary_at_zero UnaryOpcode.acos v z h =
      let (q, e1, e2) = >>=-eq-ok (quotient d (of_int 0) _) _ h in
      of_ok e2 (ap negate (quotient_null _ q e1) ∙ laws.negate_zero)
  unary_at_zero UnaryOpcode.asin v z h = quotient_null _ z h
  unary_at_zero UnaryOpcode.atan v z h = quotient_null _ z h
  unary_at_zero UnaryOpcode.cosh v z h = of_ok h (times_null _)
  unary_at_zero UnaryOpcode.sinh v z h = of_ok h (times_null _)
  unary_at_zero UnaryOpcode.tanh v z h = of_ok h (times_null _)
  unary_at_zero UnaryOpcode.acosh v z h = quotient_null _ z h
  unary_at_zero UnaryOpcode.asinh v z h = quotient_null _ z h
  unary_at_zero UnaryOpcode.atanh v z h = quotient_null _ z h
  unary_at_zero UnaryOpcode.sqrt v z h = quotient_null _ z h
  unary_at_zero UnaryOpcode.abs v z h = ground (arith, laws.negate_zero)
  unary_at_zero UnaryOpcode.sign v z h = ground arith
  unary_at_zero UnaryOpcode.steady_state v z h = cc
  unary_at_zero UnaryOpcode.steady_state_param_deriv v z h = cc
  unary_at_zero UnaryOpcode.steady_state_param_2nd_deriv v z h = cc
  unary_at_zero UnaryOpcode.expectation v z h = cc
  unary_at_zero UnaryOpcode.erf v z h =
      ground
        (arith, times_null (times (divide (of_int 2) (d.sqrt d.pi)) (d.exp (negate (times v v)))))

  power_null :
      (v1 v2 z : Double) → tangent_power d v1 v2 (of_int 0) (of_int 0) ≡ ok z → z ≡ of_int 0
  power_null v1 v2 z h = elim (Bool-cases (lt (of_int 0) v1)) [
    | inr p ↦ ground arith
    | inl p ↦
        let sum = plus (times (of_int 0) (d.log v1)) (divide (times (of_int 0) v2) v1) in
        let q : times sum (d.pow v1 v2) ≡ z = ground arith in
        cc (
          null_times (d.log v1),
          null_times v2,
          laws.zero_divide v1 (more.positive_ne_zero v1 p),
          laws.plus_zero (of_int 0),
          null_times (d.pow v1 v2),
        )
  ]

  max_null : (v w z : Double) → tangent_max d v w (of_int 0) (of_int 0) ≡ ok z → z ≡ of_int 0
  max_null v w z h = ground arith

  test_null : (v w z : Double) → tangent_test d v w ≡ ok z → z ≡ of_int 0
  test_null v w z h = ground arith

  binary_at_zero :
      (op : BinaryOpcode) (v1 v2 z : Double)
      → tangent_binary d op v1 v2 (of_int 0) (of_int 0) ≡ ok z
      → z ≡ of_int 0
  unfolding tangent_binary
  binary_at_zero BinaryOpcode.plus v1 v2 z h = of_ok h (laws.plus_zero (of_int 0))
  binary_at_zero BinaryOpcode.minus v1 v2 z h = of_ok h (laws.minus_zero (of_int 0))
  binary_at_zero BinaryOpcode.times v1 v2 z h =
      of_ok h (cc (null_times v2, times_null v1, laws.plus_zero (of_int 0)))
  binary_at_zero BinaryOpcode.divide v1 v2 z h = elim (Bool-cases (eq v2 (of_int 0))) [
    | inl b ↦ ground arith
    | inr b ↦
        let top = minus (times (of_int 0) v2) (times v1 (of_int 0)) in
        let q : divide top (times v2 v2) ≡ z = ground arith in
        cc (
          null_times v2,
          times_null v1,
          laws.minus_zero (of_int 0),
          laws.zero_divide (times v2 v2) (more.square_ne_zero v2 b),
        )
  ]
  binary_at_zero BinaryOpcode.power v1 v2 z h = power_null v1 v2 z h
  binary_at_zero BinaryOpcode.power_deriv v1 v2 z h = cc
  binary_at_zero BinaryOpcode.equal v1 v2 z h = of_ok h (laws.minus_zero (of_int 0))
  binary_at_zero BinaryOpcode.max v1 v2 z h = max_null v1 v2 z h
  binary_at_zero BinaryOpcode.min v1 v2 z h = max_null v2 v1 z h
  binary_at_zero BinaryOpcode.less v1 v2 z h = test_null v1 v2 z h
  binary_at_zero BinaryOpcode.greater v1 v2 z h = test_null v1 v2 z h
  binary_at_zero BinaryOpcode.less_equal v1 v2 z h = test_null v1 v2 z h
  binary_at_zero BinaryOpcode.greater_equal v1 v2 z h = test_null v1 v2 z h
  binary_at_zero BinaryOpcode.equal_equal v1 v2 z h = test_null v1 v2 z h
  binary_at_zero BinaryOpcode.different v1 v2 z h = test_null v1 v2 z h

  shift_null : (y : Double) → shift d y (of_int 0) (of_int 0) (of_int 0) ≡ of_int 0
  shift_null y = cc (times_null y, laws.minus_zero (of_int 0))

  trinary_at_zero :
      (op : TrinaryOpcode) (v1 v2 v3 z : Double)
      → tangent_trinary d op v1 v2 v3 (of_int 0) (of_int 0) (of_int 0) ≡ ok z
      → z ≡ of_int 0
  unfolding tangent_trinary
  trinary_at_zero normcdf v1 v2 v3 z h = elim (Bool-cases (eq v3 (of_int 0))) [
    | inl b ↦ ground arith
    | inr b ↦
        let y = standardized d v1 v2 v3 in
        let s = shift d y (of_int 0) (of_int 0) (of_int 0) in
        let q : times (density d y) (divide s v3) ≡ z = ground arith in
        cc (shift_null y, laws.zero_divide v3 b, times_null (density d y))
  ]
  trinary_at_zero normpdf v1 v2 v3 z h = elim (Bool-cases (eq v3 (of_int 0))) [
    | inl b ↦ ground arith
    | inr b ↦
        let y = standardized d v1 v2 v3 in
        let s = shift d y (of_int 0) (of_int 0) (of_int 0) in
        let (p, e1, e2) = >>=-eq-ok (eval_trinary d v1 normpdf v2 v3) _ (rw b at h) in
        of_ok e2 (
          cc (
            shift_null y,
            times_null y,
            laws.plus_zero (of_int 0),
            times_null (divide p v3),
            laws.negate_zero,
          ))
  ]

  pub tangent_unary_null :
      (op : UnaryOpcode) (v dv z : Double)
      → dv ≡ of_int 0
      → tangent_unary d op v dv ≡ ok z
      → z ≡ of_int 0
  tangent_unary_null op v dv z q h = unary_at_zero op v z (rw q at h)

  pub tangent_binary_null :
      (op : BinaryOpcode) (v1 v2 dv1 dv2 z : Double)
      → dv1 ≡ of_int 0
      → dv2 ≡ of_int 0
      → tangent_binary d op v1 v2 dv1 dv2 ≡ ok z
      → z ≡ of_int 0
  tangent_binary_null op v1 v2 dv1 dv2 z q1 q2 h = binary_at_zero op v1 v2 z (rw (q1, q2) at h)

  pub tangent_trinary_null :
      (op : TrinaryOpcode) (v1 v2 v3 dv1 dv2 dv3 z : Double)
      → dv1 ≡ of_int 0
      → dv2 ≡ of_int 0
      → dv3 ≡ of_int 0
      → tangent_trinary d op v1 v2 v3 dv1 dv2 dv3 ≡ ok z
      → z ≡ of_int 0
  tangent_trinary_null op v1 v2 v3 dv1 dv2 dv3 z q1 q2 q3 h =
      trinary_at_zero op v1 v2 v3 z (rw (q1, q2, q3) at h)
