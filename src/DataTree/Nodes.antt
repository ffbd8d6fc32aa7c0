-- ===== src/DataTree/Nodes.antt =====
-- preprocessor/ExprNode.hh, ExprNode.cc and DataTree.hh: the nodes, the state of a tree, the lookups
-- of nodes, and `eval`. An `expr_t` is the index of its node.
use dynare.Prelude.{
  ℕ, Bool, false, List, [], ◌∷◌, Option, none, some, length, if◌then◌else◌, ◌==◌, Map, Key, Result,
  ℤ, ℤ-discrete, ℕ_discrete, Bytes, ltb_ℤ,
}
use dynare.NumericalConstants.{NumericalConstants}
use dynare.SymbolTable.State.{SymbolTable, SymbolType, TableError}

-- enum UnaryOpcode, BinaryOpcode and TrinaryOpcode (CodeInterpreter.hh)
pub data UnaryOpcode : Type 0 where
  uminus exp log log10 cos sin tan acos asin atan cosh sinh tanh acosh asinh atanh : UnaryOpcode
  sqrt abs sign steady_state steady_state_param_deriv steady_state_param_2nd_deriv : UnaryOpcode
  expectation erf : UnaryOpcode

pub data BinaryOpcode : Type 0 where
  plus minus times divide power power_deriv equal max min less greater : BinaryOpcode
  less_equal greater_equal equal_equal different : BinaryOpcode

pub data TrinaryOpcode : Type 0 where
  normcdf normpdf : TrinaryOpcode

-- The fields of a node that its map is keyed by.
pub record UnaryKey : Type 0 where
  pub arg : ℕ
  pub op_code : UnaryOpcode
  pub expectation_information_set : ℤ
  pub param1_symb_id : ℤ
  pub param2_symb_id : ℤ

pub record BinaryKey : Type 0 where
  pub arg1 : ℕ
  pub arg2 : ℕ
  pub power_deriv_order : ℕ
  pub op_code : BinaryOpcode

pub record TrinaryKey : Type 0 where
  pub arg1 : ℕ
  pub arg2 : ℕ
  pub arg3 : ℕ
  pub op_code : TrinaryOpcode

pub record VariableKey : Type 0 where
  pub symb_id : ℤ
  pub lag : ℤ

pub record ExternalKey : Type 0 where
  pub arguments : List ℕ
  pub symb_id : ℤ

pub record FirstDerivKey : Type 0 where
  pub arguments : List ℕ
  pub input_index : ℤ
  pub symb_id : ℤ

pub record SecondDerivKey : Type 0 where
  pub arguments : List ℕ
  pub input_index1 : ℤ
  pub input_index2 : ℤ
  pub symb_id : ℤ

-- One constructor for each node class.
pub data Node : Type 0 where
  num_const : ℕ → Node
  variable : VariableKey → SymbolType → Node
  unary : UnaryKey → Node
  binary : BinaryKey → Node
  trinary : TrinaryKey → Node
  external : ExternalKey → Node
  first_deriv : FirstDerivKey → Node
  second_deriv : SecondDerivKey → Node

pub record Tree (D : Type 0) : Type 0 where
  pub symbol_table : SymbolTable
  pub num_constants : NumericalConstants D
  -- Newest first, so that the index of a node is the number of nodes behind it.
  pub node_list : List Node
  pub num_const_node_map : Map ℕ ℕ
  pub variable_node_map : Map VariableKey ℕ
  pub unary_op_node_map : Map UnaryKey ℕ
  pub binary_op_node_map : Map BinaryKey ℕ
  pub trinary_op_node_map : Map TrinaryKey ℕ
  pub external_function_node_map : Map ExternalKey ℕ
  pub first_deriv_node_map : Map FirstDerivKey ℕ
  pub second_deriv_node_map : Map SecondDerivKey ℕ
  pub local_variables_table : Map ℤ ℕ
  pub zero_node : ℕ
  pub one_node : ℕ
  pub two_node : ℕ
  pub minus_one_node : ℕ
  pub nan_node : ℕ
  pub infinity_node : ℕ
  pub minus_infinity_node : ℕ
  pub pi_node : ℕ

-- What an operation on a tree can end in: a failed `assert`, `exit`, an exception, an exception of
-- the symbol table, a dangling pointer, or the end of the fuel.
pub data TreeError : Type 0 where
  assertion_failed exit_division_by_zero exit_log_of_zero exit_log10_of_zero : TreeError
  local_variable : Bytes → TreeError
  symbol : TableError → TreeError
  -- The exits of `prepareForDerivation`, `computeDerivative` and `composeDerivatives`.
  exit_steady_state_argument exit_third_derivative exit_expectation exit_not_derivable : TreeError
  exit_impossible_case unknown_deriv_id null_pointer : TreeError
  out_of_fuel : TreeError

abbrev pub TreeOutcome {ℓ} : Type ℓ → Type ℓ
TreeOutcome A = Result TreeError A

-- The key types and their equality. No answer depends on the order of these maps.
abbrev any_order : {K : Type 0} → K → K → Bool
any_order a b = false

unfoldable pub UnaryKey-discrete : Discrete UnaryKey
unfolding ℤ-discrete ℕ_discrete
UnaryKey-discrete = hlevel (ℤ-discrete, ℕ_discrete)

unfoldable pub BinaryKey-discrete : Discrete BinaryKey
unfolding ℕ_discrete
BinaryKey-discrete = hlevel ℕ_discrete

unfoldable pub TrinaryKey-discrete : Discrete TrinaryKey
unfolding ℕ_discrete
TrinaryKey-discrete = hlevel ℕ_discrete

unfoldable pub VariableKey-discrete : Discrete VariableKey
unfolding ℤ-discrete
VariableKey-discrete = hlevel ℤ-discrete

unfoldable pub ExternalKey-discrete : Discrete ExternalKey
unfolding ℤ-discrete ℕ_discrete
ExternalKey-discrete = hlevel (ℤ-discrete, ℕ_discrete)

unfoldable pub FirstDerivKey-discrete : Discrete FirstDerivKey
unfolding ℤ-discrete ℕ_discrete
FirstDerivKey-discrete = hlevel (ℤ-discrete, ℕ_discrete)

unfoldable pub SecondDerivKey-discrete : Discrete SecondDerivKey
unfolding ℤ-discrete ℕ_discrete
SecondDerivKey-discrete = hlevel (ℤ-discrete, ℕ_discrete)

instance abbrev pub nat_key : Key ℕ
nat_key = record { dec = ℕ_discrete; before = any_order }

instance abbrev pub int_key : Key ℤ
int_key = record { dec = ℤ-discrete; before = ltb_ℤ }

instance abbrev pub unary_key : Key UnaryKey
unary_key = record { dec = UnaryKey-discrete; before = any_order }

instance abbrev pub binary_key : Key BinaryKey
binary_key = record { dec = BinaryKey-discrete; before = any_order }

instance abbrev pub trinary_key : Key TrinaryKey
trinary_key = record { dec = TrinaryKey-discrete; before = any_order }

instance abbrev pub variable_key : Key VariableKey
variable_key = record { dec = VariableKey-discrete; before = any_order }

instance abbrev pub external_key : Key ExternalKey
external_key = record { dec = ExternalKey-discrete; before = any_order }

instance abbrev pub first_deriv_key : Key FirstDerivKey
first_deriv_key = record { dec = FirstDerivKey-discrete; before = any_order }

instance abbrev pub second_deriv_key : Key SecondDerivKey
second_deriv_key = record { dec = SecondDerivKey-discrete; before = any_order }

-- `*e`, for the nodes in the order of `node_list`
unfoldable pub node_at : List Node → ℕ → Option Node
node_at [] i = none
node_at (n ∷ older) i = if i == length older then some n else node_at older i
