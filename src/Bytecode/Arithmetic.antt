-- ===== src/Bytecode/Arithmetic.antt =====
-- The operators of the machine of mex/sources/bytecode/Interpreter.cc against `eval_opcode` of
-- preprocessor/ExprNode.cc, where nothing overflows.
use dynare.Prelude.{
  ℕ, ◌≡◌, refl, ap, ◌∙◌, Bool, true, false, List, [], ◌∷◌, Result, ok, throw, ok-injective, arith,
}
use dynare.DataTree.Doubles.{Doubles}
use dynare.DataTree.Nodes.{UnaryOpcode, BinaryOpcode, TrinaryOpcode, normcdf, normpdf}
use dynare.DataTree.Eval.{EvalError, eval_unary, eval_binary, eval_trinary, power_deriv_loop}
use dynare.Bytecode.Literals.{Literals, IsFinite, IsExact}
use dynare.Bytecode.Compile.{is_steady_state, order_code}
use dynare.Bytecode.Machine.{Machine, MachineOutcome, at_code, push, unknown_unary_operator}
use dynare.Bytecode.Operators.{
  watched, divide, pow1, log1, log10_1, power_deriv, binary_operator, unary_operator,
  trinary_operator, pushing,
}

-- The operators that FUNARY computes as `eval` does.
abbrev pub has_operator : UnaryOpcode → Bool
has_operator UnaryOpcode.log10 = false
has_operator UnaryOpcode.abs = false
has_operator UnaryOpcode.sign = false
has_operator UnaryOpcode.steady_state = false
has_operator UnaryOpcode.steady_state_param_deriv = false
has_operator UnaryOpcode.steady_state_param_2nd_deriv = false
has_operator UnaryOpcode.expectation = false
has_operator _ = true

abbrev pub is_power_deriv : BinaryOpcode → Bool
is_power_deriv BinaryOpcode.power_deriv = true
is_power_deriv _ = false

pub is_steady_state-eq :
    (op : UnaryOpcode) → is_steady_state op ≡ true → op ≡ UnaryOpcode.steady_state
is_steady_state-eq UnaryOpcode.steady_state h = refl
is_steady_state-eq _ h = cc

pub is_power_deriv-eq :
    (op : BinaryOpcode) → is_power_deriv op ≡ true → op ≡ BinaryOpcode.power_deriv
is_power_deriv-eq BinaryOpcode.power_deriv h = refl
is_power_deriv-eq _ h = cc

pub order_code-empty :
    (d : Doubles) (op : BinaryOpcode) (order : ℕ)
    → is_power_deriv op ≡ false
    → order_code d op order ≡ []
order_code-empty d BinaryOpcode.power_deriv order h = cc
order_code-empty d _ order h = refl

module _ (d : Doubles) (l : Literals d) where
  open d use {Double}

  watched-eq :
      (m : Machine Double) (v x : Double) (k : Machine Double → Double → Result _ (Machine Double))
      → IsFinite d v
      → watched d l m v x k ≡ k m v
  unfolding watched
  watched-eq m v x k u = rw u.0 (rw u.1 refl)

  IsFinite-ok :
      {v w : Double} → ◌≡◌ {A = Result EvalError Double} (ok v) (ok w) → IsFinite d w → IsFinite d v
  IsFinite-ok e u = (ap d.is_nan (ok-injective e) ∙ u.0, ap d.is_inf (ok-injective e) ∙ u.1)

  pub unary_operator-eval :
      (m : Machine Double) (op : UnaryOpcode) (v : Double) {w : Double}
      → has_operator op ≡ true
      → eval_unary d op v ≡ ok w
      → IsFinite d w
      → unary_operator d l m op v ≡ ok (push w m)
  unfolding unary_operator eval_unary log1
  unary_operator-eval m UnaryOpcode.uminus v h e u = cc
  unary_operator-eval m UnaryOpcode.exp v h e u = cc
  unary_operator-eval m UnaryOpcode.log v h e u =
      cc (watched-eq m (d.log v) (d.negate l.huge) (pushing d l) (IsFinite-ok e u))
  unary_operator-eval m UnaryOpcode.cos v h e u = cc
  unary_operator-eval m UnaryOpcode.sin v h e u = cc
  unary_operator-eval m UnaryOpcode.tan v h e u = cc
  unary_operator-eval m UnaryOpcode.acos v h e u = cc
  unary_operator-eval m UnaryOpcode.asin v h e u = cc
  unary_operator-eval m UnaryOpcode.atan v h e u = cc
  unary_operator-eval m UnaryOpcode.cosh v h e u = cc
  unary_operator-eval m UnaryOpcode.sinh v h e u = cc
  unary_operator-eval m UnaryOpcode.tanh v h e u = cc
  unary_operator-eval m UnaryOpcode.acosh v h e u = cc
  unary_operator-eval m UnaryOpcode.asinh v h e u = cc
  unary_operator-eval m UnaryOpcode.atanh v h e u = cc
  unary_operator-eval m UnaryOpcode.sqrt v h e u = cc
  unary_operator-eval m UnaryOpcode.erf v h e u = cc
  unary_operator-eval m UnaryOpcode.log10 v h e u = cc
  unary_operator-eval m UnaryOpcode.abs v h e u = cc
  unary_operator-eval m UnaryOpcode.sign v h e u = cc
  unary_operator-eval m UnaryOpcode.steady_state v h e u = cc
  unary_operator-eval m UnaryOpcode.steady_state_param_deriv v h e u = cc
  unary_operator-eval m UnaryOpcode.steady_state_param_2nd_deriv v h e u = cc
  unary_operator-eval m UnaryOpcode.expectation v h e u = cc

  pub binary_operator-eval :
      (m : Machine Double) (op : BinaryOpcode) (v1 v2 : Double) (order : ℕ) {w : Double}
      → is_power_deriv op ≡ false
      → eval_binary d v1 op v2 order ≡ ok w
      → IsFinite d w
      → binary_operator d l m op v1 v2 ≡ ok (push w m)
  unfolding binary_operator eval_binary divide pow1
  binary_operator-eval m BinaryOpcode.plus v1 v2 order h e u = cc
  binary_operator-eval m BinaryOpcode.minus v1 v2 order h e u = cc
  binary_operator-eval m BinaryOpcode.times v1 v2 order h e u = cc
  binary_operator-eval m BinaryOpcode.divide v1 v2 order h e u =
      cc (watched-eq m (d.divide v1 v2) l.huge (pushing d l) (IsFinite-ok e u))
  binary_operator-eval m BinaryOpcode.power v1 v2 order h e u =
      cc (watched-eq m (d.pow v1 v2) l.tiny (pushing d l) (IsFinite-ok e u))
  binary_operator-eval m BinaryOpcode.power_deriv v1 v2 order h e u = cc
  binary_operator-eval m BinaryOpcode.equal v1 v2 order h e u = cc
  binary_operator-eval m BinaryOpcode.max v1 v2 order h e u = cc
  binary_operator-eval m BinaryOpcode.min v1 v2 order h e u = cc
  binary_operator-eval m BinaryOpcode.less v1 v2 order h e u = cc
  binary_operator-eval m BinaryOpcode.greater v1 v2 order h e u = cc
  binary_operator-eval m BinaryOpcode.less_equal v1 v2 order h e u = cc
  binary_operator-eval m BinaryOpcode.greater_equal v1 v2 order h e u = cc
  binary_operator-eval m BinaryOpcode.equal_equal v1 v2 order h e u = cc
  binary_operator-eval m BinaryOpcode.different v1 v2 order h e u = cc

  -- The order of a derivative of a power lies below its two arguments.
  pub power_deriv-eval :
      (m : Machine Double) (c : _) (s : List Double) (v1 v2 : Double) (order : ℕ) {w : Double}
      → eval_binary d v1 BinaryOpcode.power_deriv v2 order ≡ ok w
      → IsExact d l order
      → IsFinite d (d.pow v1 (d.minus v2 (d.of_int order)))
      → power_deriv d l (at_code m c (d.of_int order ∷ s)) v1 v2 ≡ ok (at_code m c (w ∷ s))
  unfolding power_deriv eval_binary pow1
  power_deriv-eval m c s v1 v2 order e x u =
      rw (x.order, x.value)
        (ground (
          arith,
          watched-eq (at_code m c s) (d.pow v1 (d.minus v2 (d.of_int order))) l.tiny
              (λ (m'' : Machine Double) (dxp : Double).
                pushing d l m'' (power_deriv_loop d order dxp v2))
              u,
        ))

  pub trinary_operator-eval :
      (op : TrinaryOpcode) (v1 v2 v3 : Double) {w : Double}
      → eval_trinary d v1 op v2 v3 ≡ ok w
      → trinary_operator d l op v1 v2 v3 ≡ w
  unfolding trinary_operator eval_trinary
  trinary_operator-eval normcdf v1 v2 v3 e = cc
  trinary_operator-eval normpdf v1 v2 v3 e = cc

  -- What FUNARY does for an operator where `eval` gives `w`.
  abbrev pub machine_unary :
      Machine Double → UnaryOpcode → Double → Double → MachineOutcome (Machine Double)
  machine_unary m UnaryOpcode.log10 v w = ok (push (d.log v) m)
  machine_unary m UnaryOpcode.abs v w = throw unknown_unary_operator
  machine_unary m UnaryOpcode.sign v w = throw unknown_unary_operator
  machine_unary m _ v w = ok (push w m)

  -- Of the operators that `eval` computes, STEADY_STATE aside, where the value is finite, and for log10 the
  -- natural logarithm is finite as well: the machine pushes the value that `eval` gives, but for log10 it
  -- pushes the natural logarithm, and for abs and sign it throws.
  pub unary_operator-eval_unary :
      (m : Machine Double) (op : UnaryOpcode) (v : Double) {w : Double}
      → is_steady_state op ≡ false
      → eval_unary d op v ≡ ok w
      → IsFinite d w
      → (op ≡ UnaryOpcode.log10 → IsFinite d (d.log v))
      → unary_operator d l m op v ≡ machine_unary m op v w
  unfolding unary_operator eval_unary log10_1
  unary_operator-eval_unary m UnaryOpcode.uminus v h e u n =
      unary_operator-eval m UnaryOpcode.uminus v refl e u
  unary_operator-eval_unary m UnaryOpcode.exp v h e u n =
      unary_operator-eval m UnaryOpcode.exp v refl e u
  unary_operator-eval_unary m UnaryOpcode.log v h e u n =
      unary_operator-eval m UnaryOpcode.log v refl e u
  unary_operator-eval_unary m UnaryOpcode.cos v h e u n =
      unary_operator-eval m UnaryOpcode.cos v refl e u
  unary_operator-eval_unary m UnaryOpcode.sin v h e u n =
      unary_operator-eval m UnaryOpcode.sin v refl e u
  unary_operator-eval_unary m UnaryOpcode.tan v h e u n =
      unary_operator-eval m UnaryOpcode.tan v refl e u
  unary_operator-eval_unary m UnaryOpcode.acos v h e u n =
      unary_operator-eval m UnaryOpcode.acos v refl e u
  unary_operator-eval_unary m UnaryOpcode.asin v h e u n =
      unary_operator-eval m UnaryOpcode.asin v refl e u
  unary_operator-eval_unary m UnaryOpcode.atan v h e u n =
      unary_operator-eval m UnaryOpcode.atan v refl e u
  unary_operator-eval_unary m UnaryOpcode.cosh v h e u n =
      unary_operator-eval m UnaryOpcode.cosh v refl e u
  unary_operator-eval_unary m UnaryOpcode.sinh v h e u n =
      unary_operator-eval m UnaryOpcode.sinh v refl e u
  unary_operator-eval_unary m UnaryOpcode.tanh v h e u n =
      unary_operator-eval m UnaryOpcode.tanh v refl e u
  unary_operator-eval_unary m UnaryOpcode.acosh v h e u n =
      unary_operator-eval m UnaryOpcode.acosh v refl e u
  unary_operator-eval_unary m UnaryOpcode.asinh v h e u n =
      unary_operator-eval m UnaryOpcode.asinh v refl e u
  unary_operator-eval_unary m UnaryOpcode.atanh v h e u n =
      unary_operator-eval m UnaryOpcode.atanh v refl e u
  unary_operator-eval_unary m UnaryOpcode.sqrt v h e u n =
      unary_operator-eval m UnaryOpcode.sqrt v refl e u
  unary_operator-eval_unary m UnaryOpcode.erf v h e u n =
      unary_operator-eval m UnaryOpcode.erf v refl e u
  unary_operator-eval_unary m UnaryOpcode.log10 v h e u n =
      watched-eq m (d.log v) (d.negate l.huge) (pushing d l) (n refl)
  unary_operator-eval_unary m UnaryOpcode.abs v h e u n = refl
  unary_operator-eval_unary m UnaryOpcode.sign v h e u n = refl
  unary_operator-eval_unary m UnaryOpcode.steady_state v h e u n = cc
  unary_operator-eval_unary m UnaryOpcode.steady_state_param_deriv v h e u n = cc
  unary_operator-eval_unary m UnaryOpcode.steady_state_param_2nd_deriv v h e u n = cc
  unary_operator-eval_unary m UnaryOpcode.expectation v h e u n = cc
