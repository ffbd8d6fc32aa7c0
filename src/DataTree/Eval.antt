-- ===== src/DataTree/Eval.antt =====
-- preprocessor/ExprNode.cc: `eval_opcode` and `eval` of the node classes.
use dynare.Prelude.{
  ℕ, zero, suc, Bool, true, false, not, ◌&&◌, List, [], ◌∷◌, length, if◌then◌else◌, ◌==◌, Map,
  lookup, Result, ok, throw, ◌>>=◌, or_throw, ℤ,
}
use dynare.NumericalConstants.{NumericalConstants, get_double}
use dynare.DataTree.Doubles.{Doubles}
use dynare.DataTree.Nodes.{
  UnaryOpcode, BinaryOpcode, TrinaryOpcode, Node, num_const, variable, unary, binary, trinary, Tree,
  int_key, normcdf, normpdf,
}

-- EvalException and EvalExternalFunctionException; a dangling `expr_t`, which has no node, stands for
-- undefined behaviour.
pub data EvalError : Type 0 where
  eval_exception eval_external_function_exception dangling : EvalError

module _ (d : Doubles) where
  open d use {Double, lt, le, eq, of_int, near_zero}

  abbrev of_bool : Bool → Double
  of_bool b = if b then of_int 1 else of_int 0

  -- UnaryOpNode::eval_opcode
  unfoldable pub eval_unary : UnaryOpcode → Double → Result EvalError Double
  eval_unary UnaryOpcode.uminus v = ok (d.negate v)
  eval_unary UnaryOpcode.exp v = ok (d.exp v)
  eval_unary UnaryOpcode.log v = ok (d.log v)
  eval_unary UnaryOpcode.log10 v = ok (d.log10 v)
  eval_unary UnaryOpcode.cos v = ok (d.cos v)
  eval_unary UnaryOpcode.sin v = ok (d.sin v)
  eval_unary UnaryOpcode.tan v = ok (d.tan v)
  eval_unary UnaryOpcode.acos v = ok (d.acos v)
  eval_unary UnaryOpcode.asin v = ok (d.asin v)
  eval_unary UnaryOpcode.atan v = ok (d.atan v)
  eval_unary UnaryOpcode.cosh v = ok (d.cosh v)
  eval_unary UnaryOpcode.sinh v = ok (d.sinh v)
  eval_unary UnaryOpcode.tanh v = ok (d.tanh v)
  eval_unary UnaryOpcode.acosh v = ok (d.acosh v)
  eval_unary UnaryOpcode.asinh v = ok (d.asinh v)
  eval_unary UnaryOpcode.atanh v = ok (d.atanh v)
  eval_unary UnaryOpcode.sqrt v = ok (d.sqrt v)
  eval_unary UnaryOpcode.abs v = ok (d.fabs v)
  eval_unary UnaryOpcode.sign v = ok (
      if lt (of_int 0) v
      then of_int 1
      else if lt v (of_int 0)
      then d.negate (of_int 1)
      else of_int 0)
  eval_unary UnaryOpcode.steady_state v = ok v
  eval_unary UnaryOpcode.steady_state_param_deriv v = throw eval_exception
  eval_unary UnaryOpcode.steady_state_param_2nd_deriv v = throw eval_exception
  eval_unary UnaryOpcode.expectation v = throw eval_exception
  eval_unary UnaryOpcode.erf v = ok (d.erf v)

  -- `for (int i = 0; i < derivOrder; i++) dxp *= v2--;`
  unfoldable pub power_deriv_loop : ℕ → Double → Double → Double
  power_deriv_loop zero dxp v2 = dxp
  power_deriv_loop (suc n) dxp v2 = power_deriv_loop n (d.times dxp v2) (d.minus v2 (of_int 1))

  abbrev pub eval_power_deriv : Double → Double → ℕ → Double
  eval_power_deriv v1 v2 order =
      if lt (d.fabs v1) near_zero
        && (lt (of_int 0) v2
            && (lt v2 (of_int order) && lt (d.fabs (d.minus v2 (d.nearbyint v2))) near_zero))
      then of_int 0
      else power_deriv_loop order (d.pow v1 (d.minus v2 (of_int order))) v2

  -- BinaryOpNode::eval_opcode
  unfoldable pub eval_binary : Double → BinaryOpcode → Double → ℕ → Result EvalError Double
  eval_binary v1 BinaryOpcode.plus v2 order = ok (d.plus v1 v2)
  eval_binary v1 BinaryOpcode.minus v2 order = ok (d.minus v1 v2)
  eval_binary v1 BinaryOpcode.times v2 order = ok (d.times v1 v2)
  eval_binary v1 BinaryOpcode.divide v2 order = ok (d.divide v1 v2)
  eval_binary v1 BinaryOpcode.power v2 order = ok (d.pow v1 v2)
  eval_binary v1 BinaryOpcode.power_deriv v2 order = ok (eval_power_deriv v1 v2 order)
  eval_binary v1 BinaryOpcode.equal v2 order = throw eval_exception
  eval_binary v1 BinaryOpcode.max v2 order = ok (if lt v1 v2 then v2 else v1)
  eval_binary v1 BinaryOpcode.min v2 order = ok (if lt v2 v1 then v2 else v1)
  eval_binary v1 BinaryOpcode.less v2 order = ok (of_bool (lt v1 v2))
  eval_binary v1 BinaryOpcode.greater v2 order = ok (of_bool (lt v2 v1))
  eval_binary v1 BinaryOpcode.less_equal v2 order = ok (of_bool (le v1 v2))
  eval_binary v1 BinaryOpcode.greater_equal v2 order = ok (of_bool (le v2 v1))
  eval_binary v1 BinaryOpcode.equal_equal v2 order = ok (of_bool (eq v1 v2))
  eval_binary v1 BinaryOpcode.different v2 order = ok (of_bool (not (eq v1 v2)))

  -- TrinaryOpNode::eval_opcode
  unfoldable pub eval_trinary : Double → TrinaryOpcode → Double → Double → Result EvalError Double
  eval_trinary v1 normcdf v2 v3 =
      ok (
        d.times d.half (d.plus (of_int 1) (d.erf (d.divide (d.divide (d.minus v1 v2) v3) d.sqrt2))))
  eval_trinary v1 normpdf v2 v3 = ok (
      d.divide (of_int 1) (
        d.times (d.times v3 (d.sqrt (d.times (of_int 2) d.pi)))
          (d.exp (d.divide (d.pow (d.divide (d.minus v1 v2) v3) (of_int 2)) (of_int 2)))))

  -- `eval_context_t`: values for symbol ids, whatever the lag.
  abbrev pub Context : Type 0
  Context = Map ℤ Double

  -- `eval` of one node, where `arg` evaluates its arguments
  unfoldable pub eval_node :
      NumericalConstants Double
      → Context
      → Node
      → (ℕ → Result EvalError Double)
      → Result EvalError Double
  eval_node c ctx (num_const id) arg = or_throw (get_double d c id) dangling
  eval_node c ctx (variable k ty) arg = or_throw (lookup k.symb_id ctx) eval_exception
  eval_node c ctx (unary k) arg = do v ← arg k.arg; eval_unary k.op_code v
  eval_node c ctx (binary k) arg = do
    v1 ← arg k.arg1
    v2 ← arg k.arg2
    eval_binary v1 k.op_code v2 k.power_deriv_order
  eval_node c ctx (trinary k) arg = do
    v1 ← arg k.arg1
    v2 ← arg k.arg2
    v3 ← arg k.arg3
    eval_trinary v1 k.op_code v2 v3
  eval_node c ctx _ arg = throw eval_external_function_exception

  unfoldable pub eval_in :
      NumericalConstants Double → Context → List Node → ℕ → Result EvalError Double
  eval_in c ctx [] i = throw dangling
  eval_in c ctx (n ∷ older) i =
      let before = eval_in c ctx older in
      elim (i == length older) [ true ↦ eval_node c ctx n before | false ↦ before i ]

  -- `e->eval(ctx)`
  unfoldable pub eval : Tree Double → Context → ℕ → Result EvalError Double
  eval t ctx e = eval_in t.num_constants ctx t.node_list e
