-- ===== src/Derivation/Laws.antt =====
-- The laws of arithmetic and of the functions of one argument that relate what the derivation rules of
-- preprocessor/ExprNode.cc build to the textbook derivatives: those of exact arithmetic.
use dynare.Prelude.{ℕ, ◌+◌, true, false, ◌≡◌, codes}
use dynare.DataTree.Doubles.{Doubles}

pub record DerivativeLaws (d : Doubles) : Type 0 where
  -- Constants.
  pub text_two : d.strtod (codes "2") ≡ d.of_int 2
  pub text_pi : d.strtod (codes "3.141592653589793") ≡ d.pi
  pub two_ne_zero : d.eq (d.of_int 2) (d.of_int 0) ≡ false
  pub positive_ne_zero : (v : d.Double) → d.lt (d.of_int 0) v ≡ true → d.eq v (d.of_int 0) ≡ false
  pub lt_asym : (v w : d.Double) → d.lt v w ≡ true → d.lt w v ≡ false
  -- Sums, products and quotients.
  pub plus_self : (v : d.Double) → d.plus v v ≡ d.times (d.of_int 2) v
  pub minus_suc :
      (v : d.Double) (n : ℕ)
      → d.minus (d.minus v (d.of_int n)) (d.of_int 1) ≡ d.minus v (d.of_int (n + 1))
  pub minus_minus : (v w x : d.Double) → d.minus v (d.minus w x) ≡ d.plus v (d.minus x w)
  pub negate_minus : (v w : d.Double) → d.negate (d.minus v w) ≡ d.minus w v
  pub negate_plus : (v w : d.Double) → d.negate (d.plus v w) ≡ d.minus (d.negate v) w
  pub times_negate : (v w : d.Double) → d.times v (d.negate w) ≡ d.negate (d.times v w)
  pub times_assoc : (v w x : d.Double) → d.times (d.times v w) x ≡ d.times v (d.times w x)
  pub times_divide : (v w x : d.Double) → d.times v (d.divide w x) ≡ d.divide (d.times v w) x
  pub divide_minus :
      (v w x : d.Double) → d.divide (d.minus v w) x ≡ d.minus (d.divide v x) (d.divide w x)
  pub divide_common :
      (v w : d.Double)
      → d.eq w (d.of_int 0) ≡ false
      → d.divide (d.times v w) (d.times w w) ≡ d.divide v w
  pub square_ne_zero :
      (v : d.Double) → d.eq v (d.of_int 0) ≡ false → d.eq (d.times v v) (d.of_int 0) ≡ false
  -- Powers.
  pub pow_two : (v : d.Double) → d.pow v (d.of_int 2) ≡ d.times v v
  pub pow_pred :
      (v w : d.Double)
      → d.lt (d.of_int 0) v ≡ true
      → d.pow v (d.minus w (d.of_int 1)) ≡ d.divide (d.pow v w) v
  -- Functions.
  pub log10_e :
      (v w : d.Double)
      → d.times (d.log10 (d.exp (d.of_int 1))) (d.divide w v)
        ≡ d.divide w (d.times v (d.log (d.of_int 10)))
  pub sin_acos : (v : d.Double) → d.sin (d.acos v) ≡ d.sqrt (d.minus (d.of_int 1) (d.times v v))
  pub cos_asin : (v : d.Double) → d.cos (d.asin v) ≡ d.sqrt (d.minus (d.of_int 1) (d.times v v))
  pub sinh_acosh : (v : d.Double) → d.sinh (d.acosh v) ≡ d.sqrt (d.minus (d.times v v) (d.of_int 1))
  pub cosh_asinh : (v : d.Double) → d.cosh (d.asinh v) ≡ d.sqrt (d.plus (d.times v v) (d.of_int 1))
  pub exp_negate :
      (v w x : d.Double)
      → d.divide v (d.times w (d.exp x)) ≡ d.times (d.divide v w) (d.exp (d.negate x))
  pub exp_one_ne_zero : d.eq (d.exp (d.of_int 1)) (d.of_int 0) ≡ false
  pub root_pi_exp_ne_zero :
      (v : d.Double) → d.eq (d.times (d.sqrt d.pi) (d.exp v)) (d.of_int 0) ≡ false
  pub root_two_pi_ne_zero : d.eq (d.sqrt (d.times (d.of_int 2) d.pi)) (d.of_int 0) ≡ false
