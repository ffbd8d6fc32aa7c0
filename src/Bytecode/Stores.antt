-- ===== src/Bytecode/Stores.antt =====
-- mex/sources/bytecode/Interpreter.cc, compute_block_time: the instructions that store the top of the
-- stack, and those that load from the other arrays.
use dynare.Prelude.{
  ℕ, Bool, true, false, Option, none, some, if◌then◌else◌, lookup, insert, ok, throw, ◌>>=◌, ℤ, pos,
  ◌+ℤ◌, ◌-ℤ◌, ◌*ℤ◌,
}
use dynare.SymbolTable.State.{SymbolType, endogenous, exogenous, exogenous_det, parameter}
use dynare.DataTree.Nodes.{int_key}
use dynare.DataTree.Doubles.{Doubles}
use dynare.Bytecode.Instructions.{
  ExpressionType, first_endo_derivative, first_other_endo_derivative, first_exo_derivative,
  first_exodet_derivative, ExternalFunctionType, numerical_first_derivative, Numexpr,
}
use dynare.Bytecode.Machine.{
  Machine, MachineOutcome, impossible_case, not_used_yet, DerivativeKey, derivative_key, write,
  push, pop,
}

abbrev pub is_numerical : ExternalFunctionType → Bool
is_numerical numerical_first_derivative = true
is_numerical _ = false

module _ {D : Type 0} where
  -- FSTPV. Of the other types only a message is printed, and the stack is left.
  unfoldable pub store_variable : Machine D → SymbolType → ℤ → ℤ → MachineOutcome (Machine D)
  store_variable m parameter var lag = do
    (v, m') ← pop m
    a ← write m.params var v
    ok (record m' { params = a })
  store_variable m endogenous var lag = do
    (v, m') ← pop m
    a ← write m.y ((m.it +ℤ lag) *ℤ m.y_size +ℤ var) v
    ok (record m' { y = a })
  store_variable m exogenous var lag = do
    (v, m') ← pop m
    a ← write m.x (m.it +ℤ lag +ℤ var *ℤ m.nb_row_x) v
    ok (record m' { x = a })
  store_variable m exogenous_det var lag = do
    (v, m') ← pop m
    a ← write m.x (m.it +ℤ lag +ℤ var *ℤ m.nb_row_xd) v
    ok (record m' { x = a })
  store_variable m _ var lag = ok m

  -- FSTPSV
  unfoldable pub store_static_variable : Machine D → SymbolType → ℤ → MachineOutcome (Machine D)
  store_static_variable m parameter var = do
    (v, m') ← pop m
    a ← write m.params var v
    ok (record m' { params = a })
  store_static_variable m endogenous var = do
    (v, m') ← pop m
    a ← write m.y var v
    ok (record m' { y = a })
  store_static_variable m exogenous var = do
    (v, m') ← pop m
    a ← write m.x var v
    ok (record m' { x = a })
  store_static_variable m exogenous_det var = do
    (v, m') ← pop m
    a ← write m.x var v
    ok (record m' { x = a })
  store_static_variable m _ var = ok m

  -- FSTPT and FSTPST
  unfoldable pub store_term : Machine D → ℤ → MachineOutcome (Machine D)
  store_term m i = do (v, m') ← pop m; a ← write m.temporary i v; ok (record m' { temporary = a })

  -- FSTPU and FSTPSU
  unfoldable pub store_u : Machine D → ℤ → MachineOutcome (Machine D)
  store_u m i = do (v, m') ← pop m; a ← write m.u i v; ok (record m' { u = a })

  -- FSTPR and FSTPG
  unfoldable pub store_r : Machine D → ℕ → MachineOutcome (Machine D)
  store_r m i = do (v, m') ← pop m; a ← write m.r (pos i) v; ok (record m' { r = a })

  unfoldable pub store_g : Machine D → ℕ → MachineOutcome (Machine D)
  store_g m i = do (v, m') ← pop m; a ← write m.g1 (pos i) v; ok (record m' { g1 = a })

  -- FSTPG2, for the type of the last FNUMEXPR. The value stays on the stack.
  unfoldable pub store_g2_value :
      Machine D → ℕ → ℕ → D → Option ExpressionType → MachineOutcome (Machine D)
  store_g2_value m row col v (some first_endo_derivative) = do
    a ← write m.jacob (pos row +ℤ m.block_size *ℤ pos col) v
    ok (record m { jacob = a })
  store_g2_value m row col v _ = throw impossible_case

  unfoldable pub store_g2 : Machine D → ℕ → ℕ → MachineOutcome (Machine D)
  store_g2 m row col = do (v, below) ← pop m; store_g2_value m row col v m.eqn_type

  -- FSTPG3, with the value off the stack
  unfoldable pub store_g3_value :
      Machine D → ℕ → ℕ → D → Option ExpressionType → MachineOutcome (Machine D)
  store_g3_value m row col_pos v (some first_endo_derivative) = do
    a ← write m.jacob (pos row +ℤ m.block_size *ℤ pos col_pos) v
    ok (record m { jacob = a })
  store_g3_value m row col_pos v (some first_other_endo_derivative) = do
    a ← write m.jacob_other_endo (pos m.eqn_equation +ℤ m.block_size *ℤ pos col_pos) v
    ok (record m { jacob_other_endo = a })
  store_g3_value m row col_pos v (some first_exo_derivative) = do
    a ← write m.jacob_exo (pos m.eqn_equation +ℤ m.block_size *ℤ pos col_pos) v
    ok (record m { jacob_exo = a })
  store_g3_value m row col_pos v (some first_exodet_derivative) = do
    a ← write m.jacob_exo_det (pos m.eqn_equation +ℤ m.block_size *ℤ pos col_pos) v
    ok (record m { jacob_exo_det = a })
  store_g3_value m row col_pos v _ = throw not_used_yet

  unfoldable pub store_g3 : Machine D → ℕ → ℕ → MachineOutcome (Machine D)
  store_g3 m row col_pos = do (v, m') ← pop m; store_g3_value m' row col_pos v m'.eqn_type

  -- FSTPTEF and FSTPTEFD
  unfoldable pub store_tef : Machine D → ℕ → MachineOutcome (Machine D)
  store_tef m n = do (v, m') ← pop m; ok (record m' { tef = insert (pos n -ℤ pos 1) v m.tef })

  unfoldable pub store_tefd : Machine D → ℕ → ℤ → MachineOutcome (Machine D)
  store_tefd m index row =
      let stored = (do
        (v, m') ← pop m
        ok (record m' { tefd = insert (record { index = index; row = row -ℤ pos 1 }) v m.tefd })) in
      if is_numerical m.function_type then stored else ok m

  -- FNUMEXPR. Each type of expression sets the fields that it has, and leaves the others.
  abbrev pub set_equation : Machine D → Numexpr → Machine D
  set_equation m e = record m { eqn_type = some e.expression_type; eqn_equation = e.equation }

  abbrev pub set_1 : Machine D → Numexpr → Machine D
  set_1 m e = record (set_equation m e) { eqn_dvar1 = e.dvariable1; eqn_lag1 = e.lag1 }

  abbrev pub set_2 : Machine D → Numexpr → Machine D
  set_2 m e = record (set_1 m e) { eqn_dvar2 = e.dvariable2; eqn_lag2 = e.lag2 }

  abbrev pub set_3 : Machine D → Numexpr → Machine D
  set_3 m e = record (set_2 m e) { eqn_dvar3 = e.dvariable3; eqn_lag3 = e.lag3 }

  unfoldable pub set_fields : Machine D → Numexpr → ExpressionType → Machine D
  set_fields m e ExpressionType.temporary_term = set_equation m e
  set_fields m e ExpressionType.model_equation = set_equation m e
  set_fields m e ExpressionType.first_endo_derivative = set_1 m e
  set_fields m e ExpressionType.first_other_endo_derivative = set_1 m e
  set_fields m e ExpressionType.first_exo_derivative = set_1 m e
  set_fields m e ExpressionType.first_exodet_derivative = set_1 m e
  set_fields m e ExpressionType.first_param_derivative = record (set_equation m e) {
    eqn_dvar1 = e.dvariable1;
  }
  set_fields m e ExpressionType.second_endo_derivative = set_2 m e
  set_fields m e ExpressionType.second_exo_derivative = set_2 m e
  set_fields m e ExpressionType.second_exodet_derivative = set_2 m e
  set_fields m e ExpressionType.second_param_derivative = record (set_equation m e) {
    eqn_dvar1 = e.dvariable1;
    eqn_dvar2 = e.dvariable2;
  }
  set_fields m e ExpressionType.third_endo_derivative = set_3 m e
  set_fields m e ExpressionType.third_exo_derivative = set_3 m e
  set_fields m e ExpressionType.third_exodet_derivative = set_3 m e
  set_fields m e ExpressionType.third_param_derivative = record (set_equation m e) {
    eqn_dvar1 = e.dvariable1;
    eqn_dvar2 = e.dvariable2;
    eqn_dvar3 = e.dvariable3;
  }

  unfoldable pub set_expression : Machine D → Numexpr → Machine D
  set_expression m e = set_fields m e e.expression_type

module _ (d : Doubles) where
  -- FLDTEF and FLDTEFD. A missing entry is 0.
  unfoldable pub load_tef : Machine d.Double → ℕ → Machine d.Double
  load_tef m n = push (elim (lookup (pos n -ℤ pos 1) m.tef) [ some v ↦ v | none ↦ d.of_int 0 ]) m

  unfoldable pub load_tefd : Machine d.Double → ℕ → ℤ → Machine d.Double
  load_tefd m index row =
      let k : DerivativeKey = record { index = index; row = row -ℤ pos 1 } in
      push (elim (lookup k m.tefd) [ some v ↦ v | none ↦ d.of_int 0 ]) m
