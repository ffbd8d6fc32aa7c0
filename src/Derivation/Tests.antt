-- ===== src/Derivation/Tests.antt =====
-- The theorems on the derivatives of preprocessor/ExprNode.cc at an expression over a new tree.
use dynare.Prelude.{
  ℕ, ◌<◌, ◌≡◌, ◌≢◌, refl, sym, ap, ◌∙◌, Bool, true, false, List, [], ◌∷◌, none, some, Result, ok,
  throw, ◌>>=◌, codes, ℤ, pos, negsuc, arith, lookup, length, inr,
}
use mathlib.Core.Path.{subst}
use dynare.NumericalConstants.{no_constants, no_constants-IsTable}
use dynare.SymbolTable.State.{
  SymbolTable, SymbolType, endogenous, parameter, external_function, empty_table, get_type,
}
use dynare.DataTree.Nodes.{
  UnaryOpcode, BinaryOpcode, TrinaryOpcode, variable, unary, first_deriv, first_deriv_key,
  VariableKey, UnaryKey, BinaryKey, TrinaryKey, Tree, TreeOutcome, unknown_deriv_id, node_at,
}
use dynare.DataTree.Eval.{Context, eval}
use dynare.DataTree.Insert.{plain, new_variable, new_unary}
use dynare.DataTree.Build.{bare, new_tree}
use dynare.DataTree.Invariant.{
  IsShared, HasSpecials, push-Extends, new_variable-IsShared, new_unary-IsShared,
}
use dynare.DataTree.NewTree.{new_tree-HasSpecials}
use dynare.DataTree.Trits.{Trit, nought, one, minus_one, trits, trits-Laws, trits-ReadsTexts}
use dynare.Derivation.DerivIds.{DerivIds}
use dynare.Derivation.Reaches.{InOrder, InOrder-Extends, Has, Reaches}
use dynare.Derivation.Trits.{trits-DerivativeLaws}
use dynare.SymbolTable.Update.{appended, freeze}
use dynare.SymbolTable.WellFormed.{WellFormed, empty_table-WellFormed, appended-WellFormed}
use dynare.DataTree.External.{
  add_external_function_node, add_first_deriv_external_function_node,
  add_external_function_node-after_first_deriv,
}
use dynare.Derivation.StaticIds.{
  static_deriv_id, static_symb_id_by_deriv_id, static_type_by_deriv_id, static_deriv_id-leads_back,
}
use dynare.Derivation.Unpack.{unpack_power_deriv-Reaches}
use dynare.Derivation.Compose.{unpack_power_deriv, compose_unary, compose_binary, compose_trinary}
use dynare.Derivation.Unary.{compose_unary-Reaches, compose_unary-multiplies}
use dynare.Derivation.Binary.{compose_binary-Reaches}
use dynare.Derivation.Trinary.{compose_trinary-Reaches}
use dynare.Derivation.Recursion.{DerivState, get_derivative}
use dynare.Derivation.Derivative.{derivative}
use dynare.Derivation.States.{Ready, Derives}
use dynare.Derivation.Correct.{get_derivative-Derives}

abbrev tree_of : TreeOutcome (Tree Trit) → Tree Trit
tree_of (ok t) = t
tree_of (throw e) = bare trits empty_table no_constants

abbrev initial : Tree Trit
initial = tree_of (new_tree trits empty_table no_constants)

initial_lem : IsShared trits initial × HasSpecials trits initial
initial_lem =
    let (t, e, s, h) =
      new_tree-HasSpecials trits trits-ReadsTexts empty_table no_constants
        (no_constants-IsTable trits) in
    subst (λ u. IsShared trits u × HasSpecials trits u) (sym (ap tree_of e)) (s, h)

initial-InOrder : InOrder trits initial
initial-InOrder = record { shared = initial_lem.0; predefined = initial_lem.1 }

-- The variable x, and EXP(x) over it.
abbrev x_key : VariableKey
x_key = record { symb_id = pos 0; lag = pos 0 }

abbrev with_x : Tree Trit
with_x = new_variable initial x_key endogenous

with_x-InOrder : InOrder trits with_x
unfolding node_at new_tree dynare.DataTree.Insert.add_constant
    dynare.NumericalConstants.add_non_negative_constant lookup dynare.DataTree.Trits.at_most
    dynare.DataTree.Trits.of_ℕ dynare.Prelude.insert dynare.Prelude.Bytes-discrete
    dynare.Prelude.bytes_before dynare.DataTree.Insert.add_uminus dynare.DataTree.Insert.uminus_by
    dynare.DataTree.Insert.unary_rounds dynare.DataTree.Nodes.UnaryKey-discrete
    dynare.NumericalConstants.get
with_x-InOrder =
    InOrder-Extends trits initial with_x initial-InOrder
      (new_variable-IsShared trits initial x_key endogenous refl initial_lem.0)
      (push-Extends trits initial with_x (variable x_key endogenous) refl refl refl)

abbrev exp_of_x : UnaryKey
exp_of_x = plain UnaryOpcode.exp 8

abbrev model : Tree Trit
model = new_unary with_x exp_of_x

model-InOrder : InOrder trits model
unfolding node_at new_tree dynare.DataTree.Insert.add_constant
    dynare.NumericalConstants.add_non_negative_constant lookup dynare.DataTree.Trits.at_most
    dynare.DataTree.Trits.of_ℕ dynare.Prelude.insert dynare.Prelude.Bytes-discrete
    dynare.Prelude.bytes_before dynare.DataTree.Insert.add_uminus dynare.DataTree.Insert.uminus_by
    dynare.DataTree.Insert.unary_rounds dynare.DataTree.Nodes.UnaryKey-discrete
    dynare.NumericalConstants.get
model-InOrder =
    InOrder-Extends trits with_x model with_x-InOrder
      (new_unary-IsShared trits with_x exp_of_x refl (omega arith) with_x-InOrder.shared)
      (push-Extends trits with_x model (unary exp_of_x) refl refl refl)

-- At x = 1.
abbrev at_one : Context trits
at_one = (pos 0, one) ∷ []

value_of_x : Has trits at_one model 8 one
unfolding node_at new_tree dynare.DataTree.Insert.add_constant
    dynare.NumericalConstants.add_non_negative_constant lookup dynare.DataTree.Trits.at_most
    dynare.DataTree.Trits.of_ℕ dynare.Prelude.insert dynare.Prelude.Bytes-discrete
    dynare.Prelude.bytes_before dynare.DataTree.Insert.add_uminus dynare.DataTree.Insert.uminus_by
    dynare.DataTree.Insert.unary_rounds dynare.DataTree.Nodes.UnaryKey-discrete
    dynare.NumericalConstants.get eval dynare.DataTree.Eval.eval_in dynare.DataTree.Eval.eval_node
    dynare.DataTree.Eval.eval_unary dynare.NumericalConstants.get_double dynare.Prelude.ℤ-discrete
    dynare.DataTree.Trits.add dynare.DataTree.Trits.read
value_of_x = (omega arith, refl)

value_of_exp : Has trits at_one model 9 one
unfolding node_at new_tree dynare.DataTree.Insert.add_constant
    dynare.NumericalConstants.add_non_negative_constant lookup dynare.DataTree.Trits.at_most
    dynare.DataTree.Trits.of_ℕ dynare.Prelude.insert dynare.Prelude.Bytes-discrete
    dynare.Prelude.bytes_before dynare.DataTree.Insert.add_uminus dynare.DataTree.Insert.uminus_by
    dynare.DataTree.Insert.unary_rounds dynare.DataTree.Nodes.UnaryKey-discrete
    dynare.NumericalConstants.get eval dynare.DataTree.Eval.eval_in dynare.DataTree.Eval.eval_node
    dynare.DataTree.Eval.eval_unary dynare.NumericalConstants.get_double dynare.Prelude.ℤ-discrete
    dynare.DataTree.Trits.add dynare.DataTree.Trits.read
value_of_exp = (omega arith, refl)

value_of_one : Has trits at_one model 1 one
unfolding node_at new_tree dynare.DataTree.Insert.add_constant
    dynare.NumericalConstants.add_non_negative_constant lookup dynare.DataTree.Trits.at_most
    dynare.DataTree.Trits.of_ℕ dynare.Prelude.insert dynare.Prelude.Bytes-discrete
    dynare.Prelude.bytes_before dynare.DataTree.Insert.add_uminus dynare.DataTree.Insert.uminus_by
    dynare.DataTree.Insert.unary_rounds dynare.DataTree.Nodes.UnaryKey-discrete
    dynare.NumericalConstants.get eval dynare.DataTree.Eval.eval_in dynare.DataTree.Eval.eval_node
    dynare.DataTree.Eval.eval_unary dynare.NumericalConstants.get_double dynare.Prelude.ℤ-discrete
    dynare.DataTree.Trits.add dynare.DataTree.Trits.read
value_of_one = (omega arith, refl)

value_of_minus_one : Has trits at_one model 3 minus_one
unfolding node_at new_tree dynare.DataTree.Insert.add_constant
    dynare.NumericalConstants.add_non_negative_constant lookup dynare.DataTree.Trits.at_most
    dynare.DataTree.Trits.of_ℕ dynare.Prelude.insert dynare.Prelude.Bytes-discrete
    dynare.Prelude.bytes_before dynare.DataTree.Insert.add_uminus dynare.DataTree.Insert.uminus_by
    dynare.DataTree.Insert.unary_rounds dynare.DataTree.Nodes.UnaryKey-discrete
    dynare.NumericalConstants.get eval dynare.DataTree.Eval.eval_in dynare.DataTree.Eval.eval_node
    dynare.DataTree.Eval.eval_unary dynare.NumericalConstants.get_double dynare.Prelude.ℤ-discrete
    dynare.DataTree.Trits.add dynare.DataTree.Trits.read dynare.DataTree.Trits.opposite
value_of_minus_one = (omega arith, refl)

-- A static model in which x has the derivation ID 0.
abbrev static_ids : DerivIds
static_ids = record {
  is_dynamic = false;
  get_deriv_id = λ symb_id lag. ok symb_id;
  get_type_by_deriv_id = λ id. ok endogenous;
  get_symb_id_by_deriv_id = λ id. ok id;
  all_param_deriv_ids = [];
  external_nargs = λ symb_id. throw unknown_deriv_id;
}

abbrev start : DerivState Trit
start = record { tree = model; prepared = []; derivatives = [] }

start-Ready : Ready trits static_ids at_one start
unfolding lookup
start-Ready = record {
  in_order = model-InOrder;
  prepared = λ e l h. absurd (cc h);
  cached = λ k i h. absurd (cc h);
}

derivative_of_exp : derivative trits static_ids (pos 0) 2 model at_one 9 ≡ ok one
unfolding node_at new_tree dynare.DataTree.Insert.add_constant
    dynare.NumericalConstants.add_non_negative_constant lookup dynare.DataTree.Trits.at_most
    dynare.DataTree.Trits.of_ℕ dynare.Prelude.insert dynare.Prelude.Bytes-discrete
    dynare.Prelude.bytes_before dynare.DataTree.Insert.add_uminus dynare.DataTree.Insert.uminus_by
    dynare.DataTree.Insert.unary_rounds dynare.DataTree.Nodes.UnaryKey-discrete
    dynare.NumericalConstants.get eval dynare.DataTree.Eval.eval_in dynare.DataTree.Eval.eval_node
    dynare.DataTree.Eval.eval_unary dynare.NumericalConstants.get_double dynare.Prelude.ℤ-discrete
    dynare.DataTree.Trits.add dynare.DataTree.Trits.read derivative
    dynare.Derivation.Derivative.derivative_node dynare.Derivation.Tangent.tangent_unary
    dynare.DataTree.Trits.product
derivative_of_exp = refl

get_derivative-Derives_example :
    Derives trits static_ids at_one model (get_derivative trits static_ids 10 start 9 (pos 0)) one
get_derivative-Derives_example =
    get_derivative-Derives trits static_ids at_one trits-Laws trits-DerivativeLaws (pos 0) 10 2
      start 9 one (omega arith) derivative_of_exp start-Ready

compose_unary-Reaches_example :
    Reaches trits at_one model (compose_unary trits model static_ids 9 exp_of_x 1 (pos 0)) one
unfolding dynare.DataTree.Eval.eval_unary dynare.Derivation.Tangent.tangent_unary
    dynare.DataTree.Trits.product
compose_unary-Reaches_example =
    compose_unary-Reaches trits trits-Laws trits-DerivativeLaws at_one model model-InOrder
      static_ids (pos 0) 9 exp_of_x 1 one one value_of_x value_of_one one one (λ q. cc) refl
      value_of_exp refl

compose_unary-multiplies_example :
    Reaches trits at_one model
      (compose_unary trits model static_ids 9 (plain UnaryOpcode.atanh 8) 1 (pos 0))
      (trits.times one (trits.minus (trits.of_int 1) (trits.times one one)))
compose_unary-multiplies_example =
    compose_unary-multiplies trits trits-Laws trits-DerivativeLaws at_one model model-InOrder
      static_ids (pos 0) 9 (plain UnaryOpcode.atanh 8) 1 one one value_of_x value_of_one refl

abbrev ratio : BinaryKey
ratio = record { arg1 = 8; arg2 = 3; power_deriv_order = 0; op_code = BinaryOpcode.divide }

compose_binary-Reaches_example :
    Reaches trits at_one model (compose_binary trits model 9 ratio 1 1) one
unfolding dynare.Derivation.Tangent.tangent_binary dynare.DataTree.Trits.product
    dynare.DataTree.Trits.add dynare.DataTree.Trits.opposite dynare.DataTree.Trits.same
    dynare.DataTree.Trits.of_ℕ
compose_binary-Reaches_example =
    compose_binary-Reaches trits trits-Laws trits-DerivativeLaws at_one model model-InOrder 9 ratio
      1 1 one minus_one one one value_of_x value_of_minus_one value_of_one value_of_one one
      (λ q. absurd (cc)) refl

abbrev distribution : TrinaryKey
distribution = record { arg1 = 8; arg2 = 9; arg3 = 1; op_code = TrinaryOpcode.normcdf }

compose_trinary-Reaches_example :
    Reaches trits at_one model (compose_trinary trits model 3 distribution 1 1 1) nought
unfolding dynare.DataTree.Eval.eval_trinary dynare.Derivation.Tangent.tangent_trinary
    dynare.DataTree.Trits.product dynare.DataTree.Trits.add dynare.DataTree.Trits.opposite
    dynare.DataTree.Trits.same dynare.DataTree.Trits.of_ℕ
compose_trinary-Reaches_example =
    compose_trinary-Reaches trits trits-Laws trits-DerivativeLaws at_one model model-InOrder 3
      distribution 1 1 1 one one one one one one minus_one nought value_of_x value_of_exp
      value_of_one value_of_one value_of_one value_of_one refl value_of_minus_one refl

abbrev first_power : BinaryKey
first_power = record {
  arg1 = 8;
  arg2 = 9;
  power_deriv_order = 1;
  op_code = BinaryOpcode.power_deriv;
}

unpack_power_deriv-Reaches_example :
    Reaches trits at_one model (unpack_power_deriv trits model first_power) one
unfolding dynare.DataTree.Eval.eval_binary dynare.DataTree.Eval.power_deriv_loop
    dynare.DataTree.Trits.product dynare.DataTree.Trits.add dynare.DataTree.Trits.opposite
    dynare.DataTree.Trits.same dynare.DataTree.Trits.of_ℕ dynare.DataTree.Trits.below
    dynare.DataTree.Trits.power
unpack_power_deriv-Reaches_example =
    unpack_power_deriv-Reaches trits trits-Laws trits-DerivativeLaws at_one model first_power one
      one one model-InOrder value_of_x value_of_exp refl refl refl

-- A table with a variable and a parameter.
abbrev one_symbol : SymbolTable
one_symbol = appended empty_table (codes "y") endogenous (codes "y")

abbrev symbols : SymbolTable
symbols = appended one_symbol (codes "rho") parameter (codes "rho")

one_symbol-WellFormed : WellFormed one_symbol
unfolding empty_table lookup
one_symbol-WellFormed =
    appended-WellFormed empty_table (codes "y") endogenous (codes "y") empty_table-WellFormed refl

symbols-WellFormed : WellFormed symbols
unfolding empty_table lookup dynare.Prelude.Bytes-discrete dynare.Prelude.insert
    dynare.Prelude.bytes_before
symbols-WellFormed =
    appended-WellFormed one_symbol (codes "rho") parameter (codes "rho") one_symbol-WellFormed refl

abbrev frozen_symbols : SymbolTable
frozen_symbols = record symbols {
  frozen = true;
  endo_ids = 0 ∷ [];
  param_ids = 1 ∷ [];
  type_specific_ids = pos 0 ∷ pos 0 ∷ [];
}

frozen : freeze symbols ≡ ok frozen_symbols
unfolding freeze dynare.SymbolTable.Update.freeze_loop get_type empty_table
frozen = refl

is_parameter : get_type symbols (pos 1) ≡ ok parameter
unfolding get_type empty_table
is_parameter = refl

static_deriv_id-leads_back_example :
    (n : ℕ) × (static_deriv_id frozen_symbols (pos 1) (negsuc 0) ≡ ok (pos n))
    × (static_symb_id_by_deriv_id frozen_symbols (pos n) ≡ ok (pos 1))
    × (static_type_by_deriv_id frozen_symbols (pos n) ≡ ok parameter)
static_deriv_id-leads_back_example =
    static_deriv_id-leads_back symbols frozen_symbols symbols-WellFormed frozen 1 (negsuc 0)
      parameter is_parameter (inr refl)

-- A tree in which the symbol 0 is an external function.
abbrev with_function : Tree Trit
with_function =
    bare trits (appended empty_table (codes "f") external_function (codes "f")) no_constants

abbrev after_call : TreeOutcome (ℕ × Tree Trit) → Tree Trit
after_call (ok p) = p.1
after_call (throw e) = with_function

abbrev with_deriv : Tree Trit
with_deriv =
    after_call (add_first_deriv_external_function_node with_function (pos 0) (0 ∷ []) (pos 1))

makes_deriv :
    add_first_deriv_external_function_node with_function (pos 0) (0 ∷ []) (pos 1)
    ≡ ok (0, with_deriv)
unfolding add_first_deriv_external_function_node lookup get_type empty_table
    dynare.SymbolTable.State.SymbolType-discrete
makes_deriv = refl

no_deriv :
    lookup
      (record { arguments = 0 ∷ []; input_index = pos 1; symb_id = pos 0 })
      with_function.first_deriv_node_map
    ≡ none
unfolding lookup
no_deriv = refl

add_external_function_node-after_first_deriv_example :
    (add_external_function_node with_deriv (pos 0) (0 ∷ []) ≡ ok (0, with_deriv))
    × (node_at with_deriv.node_list 0
        ≡ some (first_deriv (record { arguments = 0 ∷ []; input_index = pos 1; symb_id = pos 0 })))
add_external_function_node-after_first_deriv_example =
    add_external_function_node-after_first_deriv with_function with_deriv (pos 0) (0 ∷ []) (pos 1) 0
      no_deriv makes_deriv
