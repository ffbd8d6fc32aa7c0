-- ===== src/DataTree/Build.antt =====
-- preprocessor/DataTree.cc: the methods that build expressions, with their simplifications.
use dynare.Prelude.{
  ℕ, not, ◌&&◌, [], none, some, if◌then◌else◌, ◌==◌, ltb, lookup, insert, ok, throw, ◌>>=◌, ◌>>◌,
  throw_if, ℤ, codes,
}
use dynare.NumericalConstants.{NumericalConstants}
use dynare.SymbolTable.State.{SymbolTable, model_local_variable, same_type, get_type, get_name}
use dynare.DataTree.Doubles.{Doubles}
use dynare.DataTree.Nodes.{
  UnaryOpcode, BinaryOpcode, TrinaryOpcode, BinaryKey, TrinaryKey, Tree, TreeError, TreeOutcome,
  assertion_failed, exit_division_by_zero, exit_log_of_zero, exit_log10_of_zero, local_variable,
  int_key,
}
use dynare.DataTree.Insert.{
  add_constant, add_unary_op, add_plain, add_uminus, add_binary_op, add_trinary_op, plain,
  symbol_error, uminus_arg,
}

module _ (d : Doubles) where
  open d use {Double}

  -- What each method returns: a node, and the tree after it.
  abbrev pub Built : Type 0
  Built = TreeOutcome (ℕ × Tree Double)

  abbrev pub binary_key_of : BinaryOpcode → ℕ → ℕ → BinaryKey
  binary_key_of op a b = record { arg1 = a; arg2 = b; power_deriv_order = 0; op_code = op }

  -- `AddBinaryOp(a, op, b)`
  abbrev pub add_plain_binary : Tree Double → BinaryOpcode → ℕ → ℕ → Built
  add_plain_binary t op a b = add_binary_op d t (binary_key_of op a b)

  -- The arguments of a commutative operation, the smaller index first.
  abbrev pub add_sorted : Tree Double → BinaryOpcode → ℕ → ℕ → Built
  add_sorted t op a b = if ltb b a then add_plain_binary t op b a else add_plain_binary t op a b

  -- `AddMinus`
  unfoldable pub add_minus : Tree Double → ℕ → ℕ → Built
  add_minus t a b =
      if b == t.zero_node
      then ok (a, t)
      else if a == t.zero_node
      then add_uminus d t b
      else if a == b
      then ok (t.zero_node, t)
      else add_plain_binary t BinaryOpcode.minus a b

  -- `AddPlus`
  unfoldable pub add_plus : Tree Double → ℕ → ℕ → Built
  add_plus t a b =
      if not (a == t.zero_node) && not (b == t.zero_node)
      then (elim (uminus_arg t b) [
        | some c ↦ add_minus t a c
        | none ↦ add_sorted t BinaryOpcode.plus a b
      ])
      else if not (a == t.zero_node)
      then ok (a, t)
      else if not (b == t.zero_node)
      then ok (b, t)
      else ok (t.zero_node, t)

  -- `AddTimes`
  unfoldable pub add_times : Tree Double → ℕ → ℕ → Built
  add_times t a b =
      if a == t.minus_one_node
      then add_uminus d t b
      else if b == t.minus_one_node
      then add_uminus d t a
      else if not (a == t.zero_node)
          && (not (a == t.one_node) && (not (b == t.zero_node) && not (b == t.one_node)))
      then add_sorted t BinaryOpcode.times a b
      else if not (a == t.zero_node) && (not (a == t.one_node) && b == t.one_node)
      then ok (a, t)
      else if not (b == t.zero_node) && (not (b == t.one_node) && a == t.one_node)
      then ok (b, t)
      else if b == t.one_node && a == t.one_node
      then ok (t.one_node, t)
      else ok (t.zero_node, t)

  -- `AddDivide`
  unfoldable pub add_divide : Tree Double → ℕ → ℕ → Built
  add_divide t a b =
      if b == t.one_node
      then ok (a, t)
      else if b == t.zero_node
      then throw exit_division_by_zero
      else if a == t.zero_node
      then ok (t.zero_node, t)
      else if a == b
      then ok (t.one_node, t)
      else add_plain_binary t BinaryOpcode.divide a b

  -- `AddLess` to `AddDifferent`, `AddMax`, `AddMin` and `AddEqual`
  unfoldable pub add_less : Tree Double → ℕ → ℕ → Built
  add_less t a b = add_plain_binary t BinaryOpcode.less a b

  unfoldable pub add_greater : Tree Double → ℕ → ℕ → Built
  add_greater t a b = add_plain_binary t BinaryOpcode.greater a b

  unfoldable pub add_less_equal : Tree Double → ℕ → ℕ → Built
  add_less_equal t a b = add_plain_binary t BinaryOpcode.less_equal a b

  unfoldable pub add_greater_equal : Tree Double → ℕ → ℕ → Built
  add_greater_equal t a b = add_plain_binary t BinaryOpcode.greater_equal a b

  unfoldable pub add_equal_equal : Tree Double → ℕ → ℕ → Built
  add_equal_equal t a b = add_plain_binary t BinaryOpcode.equal_equal a b

  unfoldable pub add_different : Tree Double → ℕ → ℕ → Built
  add_different t a b = add_plain_binary t BinaryOpcode.different a b

  unfoldable pub add_max : Tree Double → ℕ → ℕ → Built
  add_max t a b = add_plain_binary t BinaryOpcode.max a b

  unfoldable pub add_min : Tree Double → ℕ → ℕ → Built
  add_min t a b = add_plain_binary t BinaryOpcode.min a b

  unfoldable pub add_equal : Tree Double → ℕ → ℕ → Built
  add_equal t a b = add_plain_binary t BinaryOpcode.equal a b

  -- `AddPower`
  unfoldable pub add_power : Tree Double → ℕ → ℕ → Built
  add_power t a b =
      if not (a == t.zero_node)
        && (not (b == t.zero_node) && (not (a == t.one_node) && not (b == t.one_node)))
      then add_plain_binary t BinaryOpcode.power a b
      else if a == t.one_node
      then ok (t.one_node, t)
      else if b == t.one_node
      then ok (a, t)
      else if b == t.zero_node
      then ok (t.one_node, t)
      else ok (t.zero_node, t)

  -- `AddPowerDeriv`
  unfoldable pub add_power_deriv : Tree Double → ℕ → ℕ → ℕ → Built
  add_power_deriv t a b order = do
    throw_if (not (ltb 0 order)) assertion_failed
    add_binary_op d t (record {
      arg1 = a;
      arg2 = b;
      power_deriv_order = order;
      op_code = BinaryOpcode.power_deriv;
    })

  -- A function whose value at `Zero` is the node `e`.
  abbrev pub unless_zero : Tree Double → UnaryOpcode → ℕ → ℕ → Built
  unless_zero t op a e = if not (a == t.zero_node) then add_plain d t op a else ok (e, t)

  -- A function whose value at `One` is `Zero`.
  abbrev pub unless_one : Tree Double → UnaryOpcode → ℕ → Built
  unless_one t op a = if not (a == t.one_node) then add_plain d t op a else ok (t.zero_node, t)

  -- A logarithm, with its error at `Zero`.
  abbrev pub logarithm : Tree Double → UnaryOpcode → ℕ → TreeError → Built
  logarithm t op a e =
      if not (a == t.zero_node) && not (a == t.one_node)
      then add_plain d t op a
      else if a == t.one_node
      then ok (t.zero_node, t)
      else throw e

  -- A function that keeps `Zero` and `One`.
  abbrev pub unless_zero_one : Tree Double → UnaryOpcode → ℕ → Built
  unless_zero_one t op a =
      if a == t.zero_node
      then ok (t.zero_node, t)
      else if a == t.one_node
      then ok (t.one_node, t)
      else add_plain d t op a

  unfoldable pub add_exp : Tree Double → ℕ → Built
  add_exp t a = unless_zero t UnaryOpcode.exp a t.one_node

  unfoldable pub add_log : Tree Double → ℕ → Built
  add_log t a = logarithm t UnaryOpcode.log a exit_log_of_zero

  unfoldable pub add_log10 : Tree Double → ℕ → Built
  add_log10 t a = logarithm t UnaryOpcode.log10 a exit_log10_of_zero

  unfoldable pub add_cos : Tree Double → ℕ → Built
  add_cos t a = unless_zero t UnaryOpcode.cos a t.one_node

  unfoldable pub add_sin : Tree Double → ℕ → Built
  add_sin t a = unless_zero t UnaryOpcode.sin a t.zero_node

  unfoldable pub add_tan : Tree Double → ℕ → Built
  add_tan t a = unless_zero t UnaryOpcode.tan a t.zero_node

  unfoldable pub add_acos : Tree Double → ℕ → Built
  add_acos t a = unless_one t UnaryOpcode.acos a

  unfoldable pub add_asin : Tree Double → ℕ → Built
  add_asin t a = unless_zero t UnaryOpcode.asin a t.zero_node

  unfoldable pub add_atan : Tree Double → ℕ → Built
  add_atan t a = unless_zero t UnaryOpcode.atan a t.zero_node

  unfoldable pub add_cosh : Tree Double → ℕ → Built
  add_cosh t a = unless_zero t UnaryOpcode.cosh a t.one_node

  unfoldable pub add_sinh : Tree Double → ℕ → Built
  add_sinh t a = unless_zero t UnaryOpcode.sinh a t.zero_node

  unfoldable pub add_tanh : Tree Double → ℕ → Built
  add_tanh t a = unless_zero t UnaryOpcode.tanh a t.zero_node

  unfoldable pub add_acosh : Tree Double → ℕ → Built
  add_acosh t a = unless_one t UnaryOpcode.acosh a

  unfoldable pub add_asinh : Tree Double → ℕ → Built
  add_asinh t a = unless_zero t UnaryOpcode.asinh a t.zero_node

  unfoldable pub add_atanh : Tree Double → ℕ → Built
  add_atanh t a = unless_zero t UnaryOpcode.atanh a t.zero_node

  unfoldable pub add_sqrt : Tree Double → ℕ → Built
  add_sqrt t a = unless_zero t UnaryOpcode.sqrt a t.zero_node

  unfoldable pub add_abs : Tree Double → ℕ → Built
  add_abs t a = unless_zero_one t UnaryOpcode.abs a

  unfoldable pub add_sign : Tree Double → ℕ → Built
  add_sign t a = unless_zero_one t UnaryOpcode.sign a

  unfoldable pub add_erf : Tree Double → ℕ → Built
  add_erf t a = unless_zero t UnaryOpcode.erf a t.zero_node

  abbrev trinary_key_of : TrinaryOpcode → ℕ → ℕ → ℕ → TrinaryKey
  trinary_key_of op a b c = record { arg1 = a; arg2 = b; arg3 = c; op_code = op }

  unfoldable pub add_normcdf : Tree Double → ℕ → ℕ → ℕ → Built
  add_normcdf t a b c = add_trinary_op d t (trinary_key_of TrinaryOpcode.normcdf a b c)

  unfoldable pub add_normpdf : Tree Double → ℕ → ℕ → ℕ → Built
  add_normpdf t a b c = add_trinary_op d t (trinary_key_of TrinaryOpcode.normpdf a b c)

  unfoldable pub add_steady_state : Tree Double → ℕ → Built
  add_steady_state t a = add_plain d t UnaryOpcode.steady_state a

  unfoldable pub add_steady_state_param_deriv : Tree Double → ℕ → ℤ → Built
  add_steady_state_param_deriv t a param =
      add_unary_op d t
        (record (plain UnaryOpcode.steady_state_param_deriv a) { param1_symb_id = param })

  unfoldable pub add_steady_state_param_2nd_deriv : Tree Double → ℕ → ℤ → ℤ → Built
  add_steady_state_param_2nd_deriv t a param1 param2 =
      add_unary_op d t (record (plain UnaryOpcode.steady_state_param_2nd_deriv a) {
        param1_symb_id = param1;
        param2_symb_id = param2;
      })

  unfoldable pub add_expectation : Tree Double → ℤ → ℕ → Built
  add_expectation t information_set a =
      add_unary_op d t
        (record (plain UnaryOpcode.expectation a) { expectation_information_set = information_set })

  -- `AddLocalVariable`
  unfoldable pub add_local_variable : Tree Double → ℤ → ℕ → TreeOutcome (Tree Double)
  add_local_variable t symb_id value = do
    ty ← symbol_error (get_type t.symbol_table symb_id)
    throw_if (not (same_type ty model_local_variable)) assertion_failed
    elim (lookup symb_id t.local_variables_table) [
      | some e ↦ (do
        name ← symbol_error (get_name t.symbol_table symb_id)
        throw (local_variable name))
      | none ↦
          ok (record t { local_variables_table = insert symb_id value t.local_variables_table })
    ]

  abbrev pub bare : SymbolTable → NumericalConstants Double → Tree Double
  bare s c = record {
    symbol_table = s;
    num_constants = c;
    node_list = [];
    num_const_node_map = [];
    variable_node_map = [];
    unary_op_node_map = [];
    binary_op_node_map = [];
    trinary_op_node_map = [];
    external_function_node_map = [];
    first_deriv_node_map = [];
    second_deriv_node_map = [];
    local_variables_table = [];
    zero_node = 0;
    one_node = 0;
    two_node = 0;
    minus_one_node = 0;
    nan_node = 0;
    infinity_node = 0;
    minus_infinity_node = 0;
    pi_node = 0;
  }

  -- The constructor of DataTree. A pointer that is not set yet is not read.
  unfoldable pub new_tree : SymbolTable → NumericalConstants Double → TreeOutcome (Tree Double)
  new_tree s c = do
    (zero_node, t₁) ← add_constant d (bare s c) (codes "0")
    (one_node, t₂) ← add_constant d (record t₁ { zero_node = zero_node }) (codes "1")
    (two_node, t₃) ← add_constant d (record t₂ { one_node = one_node }) (codes "2")
    (minus_one_node, t₄) ← add_uminus d (record t₃ { two_node = two_node }) one_node
    (nan_node, t₅) ← add_constant d (record t₄ { minus_one_node = minus_one_node }) (codes "NaN")
    (infinity_node, t₆) ← add_constant d (record t₅ { nan_node = nan_node }) (codes "Inf")
    (minus_infinity_node, t₇) ←
        add_uminus d (record t₆ { infinity_node = infinity_node }) infinity_node
    (pi_node, t₈) ←
        add_constant d (record t₇ { minus_infinity_node = minus_infinity_node })
          (codes "3.141592653589793")
    ok (record t₈ { pi_node = pi_node })
