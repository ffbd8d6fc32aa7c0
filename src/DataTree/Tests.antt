-- ===== src/DataTree/Tests.antt =====
-- The theorems on preprocessor/DataTree.cc at the tree that its constructor makes.
use dynare.Prelude.{
  ◌⊎◌, ℤ, pos, negsuc, leb_ℤ, lookup, ◌↔◌, ℕ, ◌≡◌, refl, sym, ap, ◌∙◌, Bool, true, false, ◌==◌,
  Result, ok, throw, codes, ◌>>=◌, some, ok-injective, arith,
}
use mathlib.Core.Path.{subst}
use dynare.NumericalConstants.{
  NumericalConstants, no_constants, no_constants-IsTable, IsTable, get, get_double,
  add_non_negative_constant, add_non_negative_constant_lem, stored,
}
use dynare.SymbolTable.State.{SymbolType, endogenous, empty_table}
use dynare.DataTree.Nodes.{
  variable, VariableKey, variable_key, node_at, unary, binary, trinary, UnaryKey, BinaryKey,
  UnaryOpcode, BinaryOpcode, TrinaryOpcode, TrinaryKey, Tree, TreeOutcome, exit_log_of_zero,
  exit_log10_of_zero, exit_division_by_zero,
}
use dynare.DataTree.Insert.{plain, new_variable, add_unary_op, add_binary_op, add_trinary_op}
use dynare.DataTree.Build.{
  bare, new_tree, add_plus, add_minus, add_times, add_divide, add_power, add_log, add_log10,
  add_exp, add_cos, add_sin, add_tan, add_acos, add_asin, add_atan, add_cosh, add_sinh, add_tanh,
  add_acosh, add_asinh, add_atanh, add_sqrt, add_abs, add_sign, add_erf, binary_key_of,
}
use dynare.DataTree.Structure.{node_at-lt}
use dynare.DataTree.Invariant.{new_variable-IsShared, IsShared, HasSpecials, Builds, Valid}
use dynare.DataTree.Constants.{unary_meaning, binary_meaning, trinary_meaning}
use dynare.DataTree.Operations.{add_unary_op-Builds, add_binary_op-Builds, add_trinary_op-Builds}
use dynare.DataTree.Values.{combined, quotient, power_of, add_minus-Builds, one-Valid}
use dynare.DataTree.Arithmetic.{
  add_plus-Builds, add_times-Builds, add_divide-Builds, add_power-Builds,
}
use dynare.DataTree.NewTree.{bare-IsShared, new_tree-HasSpecials, distinct, one_ne_zero}
use dynare.DataTree.Functions.{Applies, functions-Applies, logarithms-Applies, errors_at_zero}
use dynare.DataTree.Queries.{
  min_lag_for_symbol, is_unary_op_used, is_binary_op_used, is_trinary_op_used, is_op_used-node_at,
}
use dynare.DataTree.MinLag.{min_lag_for_symbol_lem}
use dynare.DataTree.Trits.{Trit, one, minus_one, trits, trits-Laws, trits-ReadsTexts}

abbrev tree_of : TreeOutcome (Tree Trit) → Tree Trit
tree_of (ok t) = t
tree_of (throw e) = bare trits empty_table no_constants

-- The tree of a model without symbols.
abbrev initial : Tree Trit
initial = tree_of (new_tree trits empty_table no_constants)

new_tree-HasSpecials_example :
    (t : Tree Trit) × (new_tree trits empty_table no_constants ≡ ok t)
    × IsShared trits t
    × HasSpecials trits t
new_tree-HasSpecials_example =
    new_tree-HasSpecials trits trits-ReadsTexts empty_table no_constants
      (no_constants-IsTable trits)

initial_lem : IsShared trits initial × HasSpecials trits initial
initial_lem =
    let (t, e, s, h) =
      new_tree-HasSpecials trits trits-ReadsTexts empty_table no_constants
        (no_constants-IsTable trits) in
    subst (λ u. IsShared trits u × HasSpecials trits u) (sym (ap tree_of e)) (s, h)

one_is_Valid : Valid trits initial initial.one_node
one_is_Valid = one-Valid trits trits-Laws initial initial_lem.0 initial_lem.1

minus_one_is_Valid : Valid trits initial initial.minus_one_node
minus_one_is_Valid = node_at-lt initial.node_list initial.minus_one_node initial_lem.1.minus_one

one_is_not_zero : (initial.one_node == initial.zero_node) ≡ false
one_is_not_zero =
    distinct trits initial initial.one_node initial.zero_node _ _ initial_lem.1.one
      initial_lem.1.zero (one_ne_zero trits)

add_plus-Builds_example :
    Builds trits initial
      (add_plus trits initial initial.one_node initial.minus_one_node)
      (combined trits initial initial.one_node initial.minus_one_node (λ v w. ok (trits.plus v w)))
add_plus-Builds_example =
    add_plus-Builds trits trits-Laws initial initial_lem.0 initial_lem.1 initial.one_node
      initial.minus_one_node one_is_Valid minus_one_is_Valid

add_minus-Builds_example :
    Builds trits initial
      (add_minus trits initial initial.one_node initial.minus_one_node)
      (combined trits initial initial.one_node initial.minus_one_node (λ v w. ok (trits.minus v w)))
add_minus-Builds_example =
    add_minus-Builds trits trits-Laws initial initial_lem.0 initial_lem.1 initial.one_node
      initial.minus_one_node one_is_Valid minus_one_is_Valid

add_times-Builds_example :
    Builds trits initial
      (add_times trits initial initial.one_node initial.minus_one_node)
      (combined trits initial initial.one_node initial.minus_one_node (λ v w. ok (trits.times v w)))
add_times-Builds_example =
    add_times-Builds trits trits-Laws initial initial_lem.0 initial_lem.1 initial.one_node
      initial.minus_one_node one_is_Valid minus_one_is_Valid

add_divide-Builds_example :
    Builds trits initial
      (add_divide trits initial initial.minus_one_node initial.one_node)
      (combined trits initial initial.minus_one_node initial.one_node (quotient trits))
add_divide-Builds_example =
    add_divide-Builds trits trits-Laws initial initial_lem.0 initial_lem.1 initial.minus_one_node
      initial.one_node minus_one_is_Valid one_is_Valid one_is_not_zero

add_power-Builds_example :
    Builds trits initial
      (add_power trits initial initial.minus_one_node initial.one_node)
      (combined trits initial initial.minus_one_node initial.one_node (power_of trits))
add_power-Builds_example =
    add_power-Builds trits trits-Laws initial initial_lem.0 initial_lem.1 initial.minus_one_node
      initial.one_node minus_one_is_Valid one_is_Valid

abbrev IsApplied : UnaryOpcode → TreeOutcome (ℕ × Tree Trit) → Type 0
IsApplied =
    Applies trits trits-Laws initial initial_lem.0 initial_lem.1 initial.one_node one_is_Valid

logarithms-Applies_example :
    IsApplied UnaryOpcode.log (add_log trits initial initial.one_node)
    × IsApplied UnaryOpcode.log10 (add_log10 trits initial initial.one_node)
logarithms-Applies_example =
    logarithms-Applies trits trits-Laws initial initial_lem.0 initial_lem.1 initial.one_node
      one_is_Valid one_is_not_zero

errors_at_zero_example :
    (add_log trits initial initial.zero_node ≡ throw exit_log_of_zero)
    × (add_log10 trits initial initial.zero_node ≡ throw exit_log10_of_zero)
    × (add_divide trits initial initial.one_node initial.zero_node ≡ throw exit_division_by_zero)
errors_at_zero_example = errors_at_zero trits initial initial.one_node initial_lem.1

add_unary_op-Builds_example :
    Builds trits initial
      (add_unary_op trits initial (plain UnaryOpcode.exp initial.minus_one_node))
      (unary_meaning trits initial (plain UnaryOpcode.exp initial.minus_one_node))
add_unary_op-Builds_example =
    add_unary_op-Builds trits trits-Laws initial (plain UnaryOpcode.exp initial.minus_one_node)
      initial_lem.0 initial_lem.1 minus_one_is_Valid

add_binary_op-Builds_example :
    Builds trits initial
      (add_binary_op trits initial
        (binary_key_of trits BinaryOpcode.max initial.one_node initial.minus_one_node))
      (binary_meaning trits initial
        (binary_key_of trits BinaryOpcode.max initial.one_node initial.minus_one_node))
add_binary_op-Builds_example =
    add_binary_op-Builds trits trits-Laws initial
      (binary_key_of trits BinaryOpcode.max initial.one_node initial.minus_one_node) initial_lem.0
      initial_lem.1 one_is_Valid minus_one_is_Valid

functions-Applies_example :
    IsApplied UnaryOpcode.exp (add_exp trits initial initial.one_node)
    × IsApplied UnaryOpcode.cos (add_cos trits initial initial.one_node)
    × IsApplied UnaryOpcode.sin (add_sin trits initial initial.one_node)
    × IsApplied UnaryOpcode.tan (add_tan trits initial initial.one_node)
    × IsApplied UnaryOpcode.acos (add_acos trits initial initial.one_node)
    × IsApplied UnaryOpcode.asin (add_asin trits initial initial.one_node)
    × IsApplied UnaryOpcode.atan (add_atan trits initial initial.one_node)
    × IsApplied UnaryOpcode.cosh (add_cosh trits initial initial.one_node)
    × IsApplied UnaryOpcode.sinh (add_sinh trits initial initial.one_node)
    × IsApplied UnaryOpcode.tanh (add_tanh trits initial initial.one_node)
    × IsApplied UnaryOpcode.acosh (add_acosh trits initial initial.one_node)
    × IsApplied UnaryOpcode.asinh (add_asinh trits initial initial.one_node)
    × IsApplied UnaryOpcode.atanh (add_atanh trits initial initial.one_node)
    × IsApplied UnaryOpcode.sqrt (add_sqrt trits initial initial.one_node)
    × IsApplied UnaryOpcode.abs (add_abs trits initial initial.one_node)
    × IsApplied UnaryOpcode.sign (add_sign trits initial initial.one_node)
    × IsApplied UnaryOpcode.erf (add_erf trits initial initial.one_node)
functions-Applies_example =
    functions-Applies trits trits-Laws initial initial_lem.0 initial_lem.1 initial.one_node
      one_is_Valid

abbrev density : TrinaryKey
density = record {
  arg1 = initial.one_node;
  arg2 = initial.minus_one_node;
  arg3 = initial.one_node;
  op_code = TrinaryOpcode.normpdf;
}

add_trinary_op-Builds_example :
    Builds trits initial
      (add_trinary_op trits initial density)
      (trinary_meaning trits initial density)
add_trinary_op-Builds_example =
    add_trinary_op-Builds trits trits-Laws initial density initial_lem.0 initial_lem.1 one_is_Valid
      minus_one_is_Valid one_is_Valid

abbrev one_constant : NumericalConstants Trit
one_constant = stored trits no_constants (codes "1")

stores : add_non_negative_constant trits no_constants (codes "1") ≡ some (0, one_constant)
unfolding add_non_negative_constant dynare.Prelude.lookup dynare.DataTree.Trits.read
    dynare.DataTree.Trits.at_most dynare.DataTree.Trits.of_ℕ dynare.Prelude.Bytes-discrete
stores = refl

add_non_negative_constant_lem_example :
    IsTable trits one_constant
    × (get trits one_constant 0 ≡ some (codes "1"))
    × (get_double trits one_constant 0 ≡ some (trits.strtod (codes "1")))
    × ((i : ℕ) (v : Trit)
        → get_double trits no_constants i ≡ some v
        → get_double trits one_constant i ≡ some v)
    × ((i : ℕ)
        → get trits no_constants i ≡ some (codes "1")
        → (0 ≡ i) × (one_constant ≡ no_constants))
add_non_negative_constant_lem_example =
    add_non_negative_constant_lem trits no_constants (codes "1") (no_constants-IsTable trits) stores

-- The tree of the constructor has a negation, no sum and no distribution function.
is_op_used-node_at_example :
    ((is_unary_op_used initial UnaryOpcode.uminus ≡ true) ↔ (
      (i : ℕ) × (k : UnaryKey) × (node_at initial.node_list i ≡ some (unary k))
      × (k.op_code ≡ UnaryOpcode.uminus)))
    × ((is_binary_op_used initial BinaryOpcode.plus ≡ true) ↔ (
        (i : ℕ) × (k : BinaryKey) × (node_at initial.node_list i ≡ some (binary k))
        × (k.op_code ≡ BinaryOpcode.plus)))
    × ((is_trinary_op_used initial TrinaryOpcode.normcdf ≡ true) ↔ (
        (i : ℕ) × (k : TrinaryKey) × (node_at initial.node_list i ≡ some (trinary k))
        × (k.op_code ≡ TrinaryOpcode.normcdf)))
is_op_used-node_at_example =
    is_op_used-node_at trits initial UnaryOpcode.uminus BinaryOpcode.plus TrinaryOpcode.normcdf
      initial_lem.0

-- A model with the one variable x(-1).
abbrev lagged_key : VariableKey
lagged_key = record { symb_id = pos 0; lag = negsuc 0 }

abbrev lagged : Tree Trit
lagged = new_variable (bare trits empty_table no_constants) lagged_key endogenous

lagged-IsShared : IsShared trits lagged
unfolding lookup
lagged-IsShared =
    new_variable-IsShared trits (bare trits empty_table no_constants) lagged_key endogenous refl
      (bare-IsShared trits empty_table no_constants (no_constants-IsTable trits))

min_lag_for_symbol_lem_example :
    (leb_ℤ (min_lag_for_symbol lagged (pos 0)) (pos 0) ≡ true)
    × ((i : ℕ) (k : VariableKey) (ty : SymbolType)
        → node_at lagged.node_list i ≡ some (variable k ty)
        → k.symb_id ≡ pos 0
        → leb_ℤ (min_lag_for_symbol lagged (pos 0)) k.lag ≡ true)
    × ((min_lag_for_symbol lagged (pos 0) ≡ pos 0)
        ⊎ ((i : ℕ) × (k : VariableKey) × (ty : SymbolType) × (node_at lagged.node_list i
              ≡ some (variable k ty))
            × (k.symb_id ≡ pos 0)
            × (k.lag ≡ min_lag_for_symbol lagged (pos 0))))
min_lag_for_symbol_lem_example = min_lag_for_symbol_lem trits lagged (pos 0) lagged-IsShared
