-- ===== src/DataTree/Insert.antt =====
-- preprocessor/DataTree.hh, DataTree.cc and the constructors of the node classes in ExprNode.cc:
-- nodes are shared, and operations on constants are folded.
use dynare.Prelude.{
  ℕ, zero, suc, Bool, true, false, not, ◌&&◌, ◌||◌, [], ◌∷◌, Option, none, some, length,
  if◌then◌else◌, ◌==◌, lookup, insert, Result, ok, throw, ◌>>=◌, ◌>>◌, throw_if, or_throw, ℤ, pos,
  eqb_ℤ, Bytes,
}
use dynare.NumericalConstants.{add_non_negative_constant}
use dynare.SymbolTable.State.{
  SymbolType, model_local_variable, mod_file_local_variable, external_function, same_type, get_type,
  TableError,
}
use dynare.DataTree.Doubles.{Doubles}
use dynare.DataTree.Nodes.{
  UnaryOpcode, UnaryKey, BinaryKey, TrinaryKey, VariableKey, Node, num_const, variable, unary,
  binary, trinary, Tree, TreeOutcome, symbol, assertion_failed, out_of_fuel, node_at, nat_key,
  unary_key, binary_key, trinary_key, variable_key,
}
use dynare.DataTree.Eval.{EvalError, eval, eval_unary, eval_binary, eval_trinary}

abbrev pub symbol_error {ℓ} : {A : Type ℓ} → Result TableError A → TreeOutcome A
symbol_error (ok a) = ok a
symbol_error (throw e) = throw (symbol e)

abbrev pub is_uminus : UnaryOpcode → Bool
is_uminus UnaryOpcode.uminus = true
is_uminus _ = false

abbrev pub plain : UnaryOpcode → ℕ → UnaryKey
plain op e = record {
  arg = e;
  op_code = op;
  expectation_information_set = pos 0;
  param1_symb_id = pos 0;
  param2_symb_id = pos 0;
}

abbrev pub uminus_of : Node → Option ℕ
uminus_of (unary k) = elim k.op_code [ UnaryOpcode.uminus ↦ some k.arg | _ ↦ none ]
uminus_of _ = none

-- The assertion of the constructor of VariableNode.
abbrev variable_allowed : SymbolType → ℤ → Bool
variable_allowed ty lag =
    not (same_type ty external_function)
    && (eqb_ℤ lag (pos 0)
        || (not (same_type ty model_local_variable) && not (same_type ty mod_file_local_variable)))

module _ {D : Type 0} where
  -- The index of the next node, which is `node_counter`.
  abbrev pub next_idx : Tree D → ℕ
  next_idx t = length t.node_list

  -- The constructors of the node classes: a node goes to the list and to the map of its class.
  abbrev pub new_num_const : Tree D → ℕ → Tree D
  new_num_const t id = record t {
    node_list = num_const id ∷ t.node_list;
    num_const_node_map = insert id (next_idx t) t.num_const_node_map;
  }

  abbrev pub new_variable : Tree D → VariableKey → SymbolType → Tree D
  new_variable t k ty = record t {
    node_list = variable k ty ∷ t.node_list;
    variable_node_map = insert k (next_idx t) t.variable_node_map;
  }

  abbrev pub new_unary : Tree D → UnaryKey → Tree D
  new_unary t k = record t {
    node_list = unary k ∷ t.node_list;
    unary_op_node_map = insert k (next_idx t) t.unary_op_node_map;
  }

  abbrev pub new_binary : Tree D → BinaryKey → Tree D
  new_binary t k = record t {
    node_list = binary k ∷ t.node_list;
    binary_op_node_map = insert k (next_idx t) t.binary_op_node_map;
  }

  abbrev pub new_trinary : Tree D → TrinaryKey → Tree D
  new_trinary t k = record t {
    node_list = trinary k ∷ t.node_list;
    trinary_op_node_map = insert k (next_idx t) t.trinary_op_node_map;
  }

  -- `dynamic_cast<NumConstNode *>(e) != NULL`
  abbrev pub is_num_const : Tree D → ℕ → Bool
  is_num_const t e = elim (node_at t.node_list e) [ some (num_const id) ↦ true | _ ↦ false ]

  -- `uarg != NULL && uarg->get_op_code() == oUminus`, and then `uarg->get_arg()`
  abbrev pub uminus_arg : Tree D → ℕ → Option ℕ
  uminus_arg t e = elim (node_at t.node_list e) [ some n ↦ uminus_of n | none ↦ none ]

  -- `AddVariableInternal`
  unfoldable pub add_variable_internal : Tree D → ℤ → ℤ → TreeOutcome (ℕ × Tree D)
  add_variable_internal t symb_id lag =
      let k : VariableKey = record { symb_id = symb_id; lag = lag } in
      elim (lookup k t.variable_node_map) [
        | some e ↦ ok (e, t)
        | none ↦ (do
          ty ← symbol_error (get_type t.symbol_table symb_id)
          throw_if (not (variable_allowed ty lag)) assertion_failed
          ok (next_idx t, new_variable t k ty))
      ]

  -- `AddVariable` of DataTree itself, for trees without leads and lags.
  unfoldable pub add_variable : Tree D → ℤ → ℤ → TreeOutcome (ℕ × Tree D)
  add_variable t symb_id lag = do
    throw_if (not (eqb_ℤ lag (pos 0))) assertion_failed
    add_variable_internal t symb_id lag

module _ (d : Doubles) where
  open d use {Double, is_nan, is_inf, lt, of_int, negate, print}

  -- `AddNonNegativeConstant`
  unfoldable pub add_constant : Tree Double → Bytes → TreeOutcome (ℕ × Tree Double)
  add_constant t value = do
    (id, c) ← or_throw (add_non_negative_constant d t.num_constants value) assertion_failed
    let u = record t { num_constants = c }
    elim (lookup id t.num_const_node_map) [
      | some e ↦ ok (e, u)
      | none ↦ ok (next_idx t, new_num_const u id)
    ]

  -- `AddUMinus`, where `add_unary` is `AddUnaryOp` with the defaults of its last arguments
  unfoldable pub uminus_by :
      (Tree Double → UnaryOpcode → ℕ → TreeOutcome (ℕ × Tree Double))
      → Tree Double
      → ℕ
      → TreeOutcome (ℕ × Tree Double)
  uminus_by add_unary t e =
      if e == t.zero_node
      then ok (t.zero_node, t)
      else (elim (uminus_arg t e) [ some a ↦ ok (a, t) | none ↦ add_unary t UnaryOpcode.uminus e ])

  -- `AddPossiblyNegativeConstant`, where `add_uminus` is `AddUMinus`
  unfoldable pub possibly_negative_by :
      (Tree Double → ℕ → TreeOutcome (ℕ × Tree Double))
      → Tree Double
      → Double
      → TreeOutcome (ℕ × Tree Double)
  possibly_negative_by add_uminus t v =
      if is_nan v
      then ok (t.nan_node, t)
      else if is_inf v
      then ok (if lt v (of_int 0) then t.minus_infinity_node else t.infinity_node, t)
      else if lt v (of_int 0)
      then (do (e, u) ← add_constant t (print (negate v)); add_uminus u e)
      else add_constant t (print v)

  -- The value of a unary operation on a constant, with the empty `eval_context_t`.
  unfoldable pub fold_unary : Tree Double → UnaryKey → Result EvalError Double
  fold_unary t k = do v ← eval d t [] k.arg; eval_unary d k.op_code v

  unfoldable pub fold_binary : Tree Double → BinaryKey → Result EvalError Double
  fold_binary t k = do
    v1 ← eval d t [] k.arg1
    v2 ← eval d t [] k.arg2
    eval_binary d v1 k.op_code v2 k.power_deriv_order

  unfoldable pub fold_trinary : Tree Double → TrinaryKey → Result EvalError Double
  fold_trinary t k = do
    v1 ← eval d t [] k.arg1
    v2 ← eval d t [] k.arg2
    v3 ← eval d t [] k.arg3
    eval_trinary d v1 k.op_code v2 v3

  -- `AddUnaryOp`. The methods call one another in a circle, `AddUnaryOp`,
  -- `AddPossiblyNegativeConstant`, `AddUMinus`; the fuel counts the times round.
  unfoldable pub unary_rounds : ℕ → Tree Double → UnaryKey → TreeOutcome (ℕ × Tree Double)
  unary_rounds zero t k = throw out_of_fuel
  unary_rounds (suc n) t k =
      let again = λ (u : Tree Double) (op : UnaryOpcode) (e : ℕ). unary_rounds n u (plain op e) in
      elim (lookup k t.unary_op_node_map) [
        | some e ↦ ok (e, t)
        | none ↦
            (if is_uminus k.op_code && is_num_const t k.arg
              then ok (next_idx t, new_unary t k)
              else (elim (fold_unary t k) [
                | ok v ↦ possibly_negative_by (uminus_by again) t v
                | throw e ↦ ok (next_idx t, new_unary t k)
              ]))
      ]

  -- Two rounds are enough: the second is at a negated constant, which is not folded.
  abbrev pub add_unary_op : Tree Double → UnaryKey → TreeOutcome (ℕ × Tree Double)
  add_unary_op = unary_rounds 2

  abbrev pub add_plain : Tree Double → UnaryOpcode → ℕ → TreeOutcome (ℕ × Tree Double)
  add_plain t op e = add_unary_op t (plain op e)

  unfoldable pub add_uminus : Tree Double → ℕ → TreeOutcome (ℕ × Tree Double)
  add_uminus = uminus_by add_plain

  unfoldable pub add_possibly_negative_constant :
      Tree Double → Double → TreeOutcome (ℕ × Tree Double)
  add_possibly_negative_constant = possibly_negative_by add_uminus

  -- `AddBinaryOp`
  unfoldable pub add_binary_op : Tree Double → BinaryKey → TreeOutcome (ℕ × Tree Double)
  add_binary_op t k = elim (lookup k t.binary_op_node_map) [
    | some e ↦ ok (e, t)
    | none ↦ (elim (fold_binary t k) [
      | ok v ↦ add_possibly_negative_constant t v
      | throw e ↦ ok (next_idx t, new_binary t k)
    ])
  ]

  -- `AddTrinaryOp`
  unfoldable pub add_trinary_op : Tree Double → TrinaryKey → TreeOutcome (ℕ × Tree Double)
  add_trinary_op t k = elim (lookup k t.trinary_op_node_map) [
    | some e ↦ ok (e, t)
    | none ↦ (elim (fold_trinary t k) [
      | ok v ↦ add_possibly_negative_constant t v
      | throw e ↦ ok (next_idx t, new_trinary t k)
    ])
  ]
