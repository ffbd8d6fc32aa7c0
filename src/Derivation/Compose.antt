-- ===== src/Derivation/Compose.antt =====
-- preprocessor/ExprNode.cc: `composeDerivatives` of the node classes, which builds the derivative of an
-- operation from those of its arguments, and `unpackPowerDeriv`.
use dynare.Prelude.{
  ℕ, zero, suc, ◌+◌, not, none, some, Option, if◌then◌else◌, ◌==◌, ok, throw, ◌>>=◌, ◌>>◌, throw_if,
  ℤ,
}
use dynare.SymbolTable.State.{endogenous, parameter, same_type, get_type}
use dynare.DataTree.Doubles.{Doubles}
use dynare.DataTree.Nodes.{
  UnaryOpcode, BinaryOpcode, TrinaryOpcode, UnaryKey, BinaryKey, TrinaryKey, variable, Tree,
  TreeOutcome, assertion_failed, exit_steady_state_argument, exit_third_derivative,
  exit_expectation, node_at,
}
use dynare.DataTree.Insert.{add_uminus, add_possibly_negative_constant, is_num_const, symbol_error}
use dynare.DataTree.Build.{
  add_minus, add_plus, add_times, add_divide, add_greater, add_power, add_power_deriv, add_exp,
  add_log, add_log10, add_cos, add_sin, add_cosh, add_sinh, add_sqrt, add_sign,
  add_steady_state_param_deriv, add_steady_state_param_2nd_deriv,
}
use dynare.Derivation.DerivIds.{DerivIds}

-- `dynamic_cast<VariableNode *>(e)`, and then its symbol
abbrev pub variable_symb_id : {D : Type 0} → Tree D → ℕ → Option ℤ
variable_symb_id t e = elim (node_at t.node_list e) [
  | some (variable k ty) ↦ some k.symb_id
  | _ ↦ none
]

module _ (d : Doubles) where
  open d use {Double, of_int}

  abbrev Composed : Type 0
  Composed = TreeOutcome (ℕ × Tree Double)

  -- The derivative of STEADY_STATE(arg)
  unfoldable pub steady_state_derivative : Tree Double → DerivIds → UnaryKey → ℕ → ℤ → Composed
  steady_state_derivative t ids k darg deriv_id =
      if ids.is_dynamic
      then (do
        ty ← ids.get_type_by_deriv_id deriv_id
        if same_type ty parameter
            then (elim (variable_symb_id t k.arg) [
              | none ↦ throw exit_steady_state_argument
              | some symb_id ↦ (do
                arg_type ← symbol_error (get_type t.symbol_table symb_id)
                if same_type arg_type endogenous
                    then (do
                      param ← ids.get_symb_id_by_deriv_id deriv_id
                      add_steady_state_param_deriv d t k.arg param)
                    else ok (t.zero_node, t))
            ])
            else ok (t.zero_node, t))
      else ok (darg, t)

  -- The derivative of the derivative of STEADY_STATE(arg) by a parameter
  unfoldable pub steady_state_param_derivative : Tree Double → DerivIds → UnaryKey → ℤ → Composed
  steady_state_param_derivative t ids k deriv_id = do
    throw_if (not ids.is_dynamic) assertion_failed
    ty ← ids.get_type_by_deriv_id deriv_id
    if same_type ty parameter
        then (elim (variable_symb_id t k.arg) [
          | none ↦ throw assertion_failed
          | some symb_id ↦ (do
            arg_type ← symbol_error (get_type t.symbol_table symb_id)
            throw_if (not (same_type arg_type endogenous)) assertion_failed
            param ← ids.get_symb_id_by_deriv_id deriv_id
            add_steady_state_param_2nd_deriv d t k.arg k.param1_symb_id param)
        ])
        else ok (t.zero_node, t)

  -- The derivative of the second one
  unfoldable pub steady_state_param_2nd_derivative : Tree Double → DerivIds → ℤ → Composed
  steady_state_param_2nd_derivative t ids deriv_id = do
    throw_if (not ids.is_dynamic) assertion_failed
    ty ← ids.get_type_by_deriv_id deriv_id
    if same_type ty parameter then throw exit_third_derivative else ok (t.zero_node, t)

  -- UnaryOpNode::composeDerivatives of the node `e`, by its opcode
  unfoldable pub unary_rule : UnaryOpcode → Tree Double → DerivIds → ℕ → UnaryKey → ℕ → ℤ → Composed
  unary_rule UnaryOpcode.uminus t ids e k darg id = add_uminus d t darg
  unary_rule UnaryOpcode.exp t ids e k darg id = add_times d t darg e
  unary_rule UnaryOpcode.log t ids e k darg id = add_divide d t darg k.arg
  unary_rule UnaryOpcode.log10 t ids e k darg id = do
    (t11, u1) ← add_exp d t t.one_node
    (t12, u2) ← add_log10 d u1 t11
    (t13, u3) ← add_divide d u2 darg k.arg
    add_times d u3 t12 t13
  unary_rule UnaryOpcode.cos t ids e k darg id = do
    (t11, u1) ← add_sin d t k.arg
    (t12, u2) ← add_uminus d u1 t11
    add_times d u2 darg t12
  unary_rule UnaryOpcode.sin t ids e k darg id = do
    (t11, u1) ← add_cos d t k.arg
    add_times d u1 darg t11
  unary_rule UnaryOpcode.tan t ids e k darg id = do
    (t11, u1) ← add_times d t e e
    (t12, u2) ← add_plus d u1 t11 u1.one_node
    add_times d u2 darg t12
  unary_rule UnaryOpcode.acos t ids e k darg id = do
    (t11, u1) ← add_sin d t e
    (t12, u2) ← add_divide d u1 darg t11
    add_uminus d u2 t12
  unary_rule UnaryOpcode.asin t ids e k darg id = do
    (t11, u1) ← add_cos d t e
    add_divide d u1 darg t11
  unary_rule UnaryOpcode.atan t ids e k darg id = do
    (t11, u1) ← add_times d t k.arg k.arg
    (t12, u2) ← add_plus d u1 u1.one_node t11
    add_divide d u2 darg t12
  unary_rule UnaryOpcode.cosh t ids e k darg id = do
    (t11, u1) ← add_sinh d t k.arg
    add_times d u1 darg t11
  unary_rule UnaryOpcode.sinh t ids e k darg id = do
    (t11, u1) ← add_cosh d t k.arg
    add_times d u1 darg t11
  unary_rule UnaryOpcode.tanh t ids e k darg id = do
    (t11, u1) ← add_times d t e e
    (t12, u2) ← add_minus d u1 u1.one_node t11
    add_times d u2 darg t12
  unary_rule UnaryOpcode.acosh t ids e k darg id = do
    (t11, u1) ← add_sinh d t e
    add_divide d u1 darg t11
  unary_rule UnaryOpcode.asinh t ids e k darg id = do
    (t11, u1) ← add_cosh d t e
    add_divide d u1 darg t11
  unary_rule UnaryOpcode.atanh t ids e k darg id = do
    (t11, u1) ← add_times d t k.arg k.arg
    (t12, u2) ← add_minus d u1 u1.one_node t11
    add_times d u2 darg t12
  unary_rule UnaryOpcode.sqrt t ids e k darg id = do
    (t11, u1) ← add_plus d t e e
    add_divide d u1 darg t11
  unary_rule UnaryOpcode.abs t ids e k darg id = do
    (t11, u1) ← add_sign d t k.arg
    add_times d u1 t11 darg
  unary_rule UnaryOpcode.sign t ids e k darg id = ok (t.zero_node, t)
  unary_rule UnaryOpcode.steady_state t ids e k darg id = steady_state_derivative t ids k darg id
  unary_rule UnaryOpcode.steady_state_param_deriv t ids e k darg id =
      steady_state_param_derivative t ids k id
  unary_rule UnaryOpcode.steady_state_param_2nd_deriv t ids e k darg id =
      steady_state_param_2nd_derivative t ids id
  unary_rule UnaryOpcode.expectation t ids e k darg id = throw exit_expectation
  unary_rule UnaryOpcode.erf t ids e k darg id = do
    (t11, u1) ← add_power d t k.arg t.two_node
    (t12, u2) ← add_exp d u1 t11
    (root, u3) ← add_sqrt d u2 u2.pi_node
    (t13, u4) ← add_times d u3 root t12
    (t14, u5) ← add_divide d u4 u4.two_node t13
    add_times d u5 t14 darg

  unfoldable pub compose_unary : Tree Double → DerivIds → ℕ → UnaryKey → ℕ → ℤ → Composed
  unfolding unary_rule
  compose_unary t ids e k darg deriv_id = unary_rule k.op_code t ids e k darg deriv_id

  -- `for (; i < n; i++) p *= b - i`, where `rounds` is `n - i`
  unfoldable pub multiply_factors : ℕ → ℕ → Tree Double → ℕ → ℕ → Composed
  multiply_factors zero i t p b = ok (p, t)
  multiply_factors (suc rounds) i t p b = do
    (c, u1) ← add_possibly_negative_constant d t (of_int i)
    (m, u2) ← add_minus d u1 b c
    (q, u3) ← add_times d u2 p m
    multiply_factors rounds (i + 1) u3 q b

  -- The same for all factors but the one with index `i`.
  unfoldable pub multiply_others : ℕ → ℕ → ℕ → Tree Double → ℕ → ℕ → Composed
  multiply_others zero i j t p b = ok (p, t)
  multiply_others (suc rounds) i j t p b = do
    (q, u) ←
        (if i == j then ok (p, t) else (do
          (c, u1) ← add_possibly_negative_constant d t (of_int j)
          (m, u2) ← add_minus d u1 b c
          add_times d u2 p m))
    multiply_others rounds i (j + 1) u q b

  -- The sum of these products for all `i`.
  unfoldable pub sum_of_products : ℕ → ℕ → ℕ → Tree Double → ℕ → ℕ → Composed
  sum_of_products zero i n t s b = ok (s, t)
  sum_of_products (suc rounds) i n t s b = do
    (p, u1) ← multiply_others n i 0 t t.one_node b
    (r, u2) ← add_plus d u1 s p
    sum_of_products rounds (i + 1) n u2 r b

  -- (darg1 * arg2 - darg2 * arg1) / (arg2 * arg2)
  unfoldable pub general_divide_rule : Tree Double → BinaryKey → ℕ → ℕ → Composed
  general_divide_rule t k darg1 darg2 = do
    (t11, u1) ← add_times d t darg1 k.arg2
    (t12, u2) ← add_times d u1 darg2 k.arg1
    (t13, u3) ← add_minus d u2 t11 t12
    (t14, u4) ← add_times d u3 k.arg2 k.arg2
    add_divide d u4 t13 t14

  -- The general rule for oPower: (darg2 * log(arg1) + darg1 * arg2 / arg1) * this
  unfoldable pub general_power_rule : Tree Double → ℕ → BinaryKey → ℕ → ℕ → Composed
  general_power_rule t e k darg1 darg2 = do
    (t11, u1) ← add_log d t k.arg1
    (t12, u2) ← add_times d u1 darg2 t11
    (t13, u3) ← add_times d u2 darg1 k.arg2
    (t14, u4) ← add_divide d u3 t13 k.arg1
    (t15, u5) ← add_plus d u4 t12 t14
    add_times d u5 t15 e

  -- darg1 * arg2 * arg1 ^ (arg2 - 1), for a constant `arg2`
  unfoldable pub constant_power_rule : Tree Double → BinaryKey → ℕ → Composed
  constant_power_rule t k darg1 = do
    (t11, u1) ← add_minus d t k.arg2 t.one_node
    (t12, u2) ← add_power d u1 k.arg1 t11
    (t13, u3) ← add_times d u2 k.arg2 t12
    add_times d u3 darg1 t13

  -- darg1 times the next derivative by `arg1`
  unfoldable pub next_power_rule : Tree Double → BinaryKey → ℕ → Composed
  next_power_rule t k darg1 = do
    (p, u1) ← add_power_deriv d t k.arg1 k.arg2 (k.power_deriv_order + 1)
    add_times d u1 darg1 p

  unfoldable pub general_power_deriv_rule : Tree Double → BinaryKey → ℕ → ℕ → Composed
  general_power_deriv_rule t k darg1 darg2 = do
    let n = k.power_deriv_order
    (log_arg1, u0) ← add_log d t k.arg1
    (t11, u1) ← add_times d u0 darg2 log_arg1
    (order, u2) ← add_possibly_negative_constant d u1 (of_int n)
    (t12, u3) ← add_minus d u2 k.arg2 order
    (t13, u4) ← add_times d u3 darg1 t12
    (t14, u5) ← add_divide d u4 t13 k.arg1
    (t15, u6) ← add_plus d u5 t11 t14
    (f, u7) ← add_power d u6 k.arg1 t12
    (first, u8) ← add_times d u7 f t15
    (first_part, u9) ← multiply_factors n 0 u8 first k.arg2
    (sum, u10) ← sum_of_products n 0 n u9 u9.zero_node k.arg2
    (t13', u11) ← add_times d u10 darg2 sum
    (t14', u12) ← add_times d u11 f t13'
    add_plus d u12 first_part t14'

  -- `darg` where `arg1 > arg2` is `cond`, and else the other one
  abbrev pub choose_rule : Tree Double → ℕ → ℕ → ℕ → ℕ → Composed
  choose_rule t a b darg1 darg2 = do
    (t11, u1) ← add_greater d t a b
    (t12, u2) ← add_times d u1 t11 darg1
    (t13, u3) ← add_minus d u2 u2.one_node t11
    (t14, u4) ← add_times d u3 t13 darg2
    add_plus d u4 t14 t12

  -- BinaryOpNode::composeDerivatives of the node `e`, by its opcode
  unfoldable pub binary_rule : BinaryOpcode → Tree Double → ℕ → BinaryKey → ℕ → ℕ → Composed
  binary_rule BinaryOpcode.plus t e k darg1 darg2 = add_plus d t darg1 darg2
  binary_rule BinaryOpcode.minus t e k darg1 darg2 = add_minus d t darg1 darg2
  binary_rule BinaryOpcode.times t e k darg1 darg2 = do
    (t11, u1) ← add_times d t darg1 k.arg2
    (t12, u2) ← add_times d u1 darg2 k.arg1
    add_plus d u2 t11 t12
  binary_rule BinaryOpcode.divide t e k darg1 darg2 =
      if not (darg2 == t.zero_node)
      then general_divide_rule t k darg1 darg2
      else add_divide d t darg1 k.arg2
  binary_rule BinaryOpcode.power t e k darg1 darg2 =
      if darg2 == t.zero_node
      then if darg1 == t.zero_node
        then ok (t.zero_node, t)
        else if is_num_const t k.arg2
        then constant_power_rule t k darg1
        else next_power_rule t k darg1
      else general_power_rule t e k darg1 darg2
  binary_rule BinaryOpcode.power_deriv t e k darg1 darg2 =
      if darg2 == t.zero_node
      then next_power_rule t k darg1
      else general_power_deriv_rule t k darg1 darg2
  binary_rule BinaryOpcode.equal t e k darg1 darg2 = add_minus d t darg1 darg2
  binary_rule BinaryOpcode.max t e k darg1 darg2 = choose_rule t k.arg1 k.arg2 darg1 darg2
  binary_rule BinaryOpcode.min t e k darg1 darg2 = choose_rule t k.arg2 k.arg1 darg1 darg2
  binary_rule BinaryOpcode.less t e k darg1 darg2 = ok (t.zero_node, t)
  binary_rule BinaryOpcode.greater t e k darg1 darg2 = ok (t.zero_node, t)
  binary_rule BinaryOpcode.less_equal t e k darg1 darg2 = ok (t.zero_node, t)
  binary_rule BinaryOpcode.greater_equal t e k darg1 darg2 = ok (t.zero_node, t)
  binary_rule BinaryOpcode.equal_equal t e k darg1 darg2 = ok (t.zero_node, t)
  binary_rule BinaryOpcode.different t e k darg1 darg2 = ok (t.zero_node, t)

  unfoldable pub compose_binary : Tree Double → ℕ → BinaryKey → ℕ → ℕ → Composed
  unfolding binary_rule
  compose_binary t e k darg1 darg2 = binary_rule k.op_code t e k darg1 darg2

  -- BinaryOpNode::unpackPowerDeriv of an oPowerDeriv node
  unfoldable pub unpack_power_deriv : Tree Double → BinaryKey → Composed
  unpack_power_deriv t k = do
    (front, u1) ← multiply_factors k.power_deriv_order 0 t t.one_node k.arg2
    (order, u2) ← add_possibly_negative_constant d u1 (of_int k.power_deriv_order)
    (m, u3) ← add_minus d u2 k.arg2 order
    (tmp, u4) ← add_power d u3 k.arg1 m
    add_times d u4 front tmp

  -- (darg1 / arg3 - darg2 / arg3 - y / arg3 * darg3) * density
  unfoldable pub normcdf_rest : Tree Double → TrinaryKey → ℕ → ℕ → ℕ → ℕ → ℕ → Composed
  normcdf_rest t k y density darg1 darg2 darg3 = do
    (through_x, u1) ← add_divide d t darg1 k.arg3
    (through_mu, u2) ← add_divide d u1 darg2 k.arg3
    (sum, u3) ← add_minus d u2 through_x through_mu
    (scaled, u4) ← add_divide d u3 y k.arg3
    (through_sigma, u5) ← add_times d u4 scaled darg3
    (total, u6) ← add_minus d u5 sum through_sigma
    add_times d u6 total density

  -- TrinaryOpNode::composeDerivatives of the node `e`, by its opcode
  unfoldable pub trinary_rule : TrinaryOpcode → Tree Double → ℕ → TrinaryKey → ℕ → ℕ → ℕ → Composed
  trinary_rule TrinaryOpcode.normcdf t e k darg1 darg2 darg3 = do
    (two_pi, u1) ← add_times d t t.two_node t.pi_node
    (root, u2) ← add_sqrt d u1 two_pi
    (diff, u3) ← add_minus d u2 k.arg1 k.arg2
    (y, u4) ← add_divide d u3 diff k.arg3
    (square, u5) ← add_times d u4 y y
    (negated, u6) ← add_uminus d u5 square
    (halved, u7) ← add_divide d u6 negated u6.two_node
    (bell, u8) ← add_exp d u7 halved
    (density, u9) ← add_divide d u8 bell root
    normcdf_rest u9 k y density darg1 darg2 darg3
  trinary_rule TrinaryOpcode.normpdf t e k darg1 darg2 darg3 = do
    (diff, u1) ← add_minus d t k.arg1 k.arg2
    (y, u2) ← add_divide d u1 diff k.arg3
    (through_sigma, u3) ← add_times d u2 darg3 y
    (through_rest, u4) ← add_minus d u3 darg2 darg1
    (sum, u5) ← add_plus d u4 through_rest through_sigma
    (scaled, u6) ← add_times d u5 y sum
    (total, u7) ← add_minus d u6 scaled darg3
    (ratio, u8) ← add_divide d u7 e k.arg3
    add_times d u8 ratio total

  unfoldable pub compose_trinary : Tree Double → ℕ → TrinaryKey → ℕ → ℕ → ℕ → Composed
  unfolding trinary_rule
  compose_trinary t e k darg1 darg2 darg3 = trinary_rule k.op_code t e k darg1 darg2 darg3
